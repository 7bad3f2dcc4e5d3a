-- ===== src/WeightedDistribution.antt =====
-- centipede/corpus.{h,cc}: class WeightedDistribution, from which the next input to mutate is drawn.
pub mod Consistency
pub mod Choice
mod Examples
use fuzztest.Common.{
  ℕ, zero, suc, ◌+◌, ◌*◌, ◌^◌, Bool, true, false, not, List, [], ◌∷◌, ◌++◌, ltb, ◌==◌,
  if◌then◌else◌, length, set, get_or, drop,
}
use fuzztest.Common.Abort.{Outcome, aborted, done, ◌>>=◌, ◌>>◌, check}
use fuzztest.Common.Bytes.{add64}

pub record WeightedDistribution : Type 0 where
  pub weights : List ℕ
  pub cumulative_weights : List ℕ
  pub cumulative_weights_valid : Bool

abbrev pub weighted_distribution : WeightedDistribution
weighted_distribution = record {
  weights = [];
  cumulative_weights = [];
  cumulative_weights_valid = true;
}

-- The last element of a vector, or the given value for an empty one.
unfoldable pub back_or : ℕ → List ℕ → ℕ
back_or a [] = a
back_or a (x ∷ xs) = back_or x xs

unfoldable pub without_back : List ℕ → List ℕ
without_back [] = []
without_back (x ∷ []) = []
without_back (x ∷ y ∷ ys) = x ∷ without_back (y ∷ ys)

unfoldable pub add_weight : WeightedDistribution → ℕ → Outcome WeightedDistribution
add_weight d weight =
    check (length d.weights == length d.cumulative_weights)
    >> done (record d {
      weights = d.weights ++ (weight ∷ []);
      cumulative_weights =
          if length d.cumulative_weights == 0
          then weight ∷ []
          else d.cumulative_weights ++ (add64 (back_or 0 d.cumulative_weights) weight ∷ []);
    })

unfoldable pub change_weight : WeightedDistribution → ℕ → ℕ → Outcome WeightedDistribution
change_weight d idx new_weight =
    check (ltb idx (length d.weights))
    >> done (record d { weights = set d.weights idx new_weight; cumulative_weights_valid = false })

-- The values of `partial_sum` in the loop of RecomputeInternalState.
unfoldable pub partial_sums : ℕ → List ℕ → List ℕ
partial_sums partial_sum [] = []
partial_sums partial_sum (weight ∷ weights) =
    add64 partial_sum weight ∷ partial_sums (add64 partial_sum weight) weights

unfoldable pub recompute_internal_state : WeightedDistribution → WeightedDistribution
recompute_internal_state d = record d {
  cumulative_weights = partial_sums 0 d.weights ++ drop (length d.weights) d.cumulative_weights;
  cumulative_weights_valid = true;
}

-- std::upper_bound, as an index: the first element above the value.
unfoldable pub upper_bound : ℕ → List ℕ → ℕ
upper_bound value [] = 0
upper_bound value (c ∷ cs) = if ltb value c then 0 else suc (upper_bound value cs)

-- `uniform n` is what absl::Uniform gives in [0, n).
unfoldable pub random_index : (ℕ → ℕ) → WeightedDistribution → Outcome ℕ
random_index uniform d =
    check (not (length d.weights == 0))
    >> check d.cumulative_weights_valid
    >> (let sum_of_all_weights = back_or 0 d.cumulative_weights in
        if sum_of_all_weights == 0
        then done (uniform (length d.weights))
        else (let index = upper_bound (uniform sum_of_all_weights) d.cumulative_weights in
            check (not (index == length d.cumulative_weights))
            >> check (not (get_or d.weights index 0 == 0))
            >> done index))

-- The weight and what is left; an empty vector, which the source leaves undefined, is `aborted`.
unfoldable pub pop_back : WeightedDistribution → Outcome (ℕ × WeightedDistribution)
pop_back d =
    if length d.weights == 0
    then aborted
    else done (
      back_or 0 d.weights,
      record d {
        weights = without_back d.weights;
        cumulative_weights = without_back d.cumulative_weights;
      },
    )

unfoldable pub clear : WeightedDistribution → WeightedDistribution
clear d = record d { weights = []; cumulative_weights = [] }

-- RemoveSubset from the index `i` on: the elements that the sorted indices do not name, in order.
unfoldable pub remove_subset {ℓ} : {A : Type ℓ} → ℕ → List ℕ → List A → List A
remove_subset i subset [] = []
remove_subset i [] (x ∷ xs) = x ∷ remove_subset (suc i) [] xs
remove_subset i (j ∷ js) (x ∷ xs) =
    let removed = remove_subset (suc i) js xs in
    let kept = remove_subset (suc i) (j ∷ js) xs in if i == j then removed else x ∷ kept

-- RemoveRandomWeightedSubset, where `subset` is the result of RandomWeightedSubset.
unfoldable pub remove_weighted_subset : List ℕ → WeightedDistribution → WeightedDistribution
remove_weighted_subset subset d = record d {
  weights = remove_subset 0 subset d.weights;
  cumulative_weights = remove_subset 0 subset d.cumulative_weights;
}
