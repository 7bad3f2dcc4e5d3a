-- ===== src/Corpus/Pruning.antt =====
-- Add, Prune and the counts of a corpus.
use fuzztest.Common.{
  ℕ, zero, suc, ◌+◌, ◌-◌, ◌<◌, ◌≤◌, ◌≡◌, ◌⊎◌, inl, inr, refl, ap, true, false, List, [], ◌∷◌, ltb,
  ◌==◌, length, arith, Bool-cases, All, min, max,
}
use fuzztest.Common.Abort.{done}
use fuzztest.WeightedDistribution.{
  WeightedDistribution, recompute_internal_state, remove_subset, remove_weighted_subset,
}
use fuzztest.WeightedDistribution.Consistency.{IsConsistent, operations-IsConsistent}
use fuzztest.RandomSubset.{random_weighted_subset}
use fuzztest.RandomSubset.Removal.{
  IsIncreasing, IsBelow, num_nonzero, length-remove_subset, remove_subset-nonzero,
}
use fuzztest.RandomSubset.Chosen.{IsSubsetFor, chosen-IsSubsetFor}
use fuzztest.Corpus.{Corpus, num_total, num_zero_weights, erase, remove_records, prune}

-- There are as many weights as records, and the cumulative weights are right.
unfoldable pub IsSound : Corpus → Type 0
IsSound c = (length c.records ≡ length c.distribution.weights) × IsConsistent c.distribution

num_zero_weights_lem :
    (n : ℕ) (ws : List ℕ)
    → n ≡ length ws
    → (zeros : ℕ) × (num_zero_weights n ws ≡ done zeros) × (zeros + num_nonzero ws ≡ n)
unfolding num_zero_weights num_nonzero
num_zero_weights_lem zero [] e = (0, refl, omega arith)
num_zero_weights_lem zero (w ∷ ws) e = absurd (omega arith)
num_zero_weights_lem (suc n) [] e = absurd (omega arith)
num_zero_weights_lem (suc n) (w ∷ ws) e =
    let (zeros, q, h) = num_zero_weights_lem n ws (omega arith) in
    elim (Bool-cases (w == 0)) [
      | inl z ↦ (suc zeros, rw (q, z) refl, rw z (omega arith))
      | inr z ↦ (zeros, rw (q, z) refl, rw z (omega arith))
    ]

length-erase : (i : ℕ) (js : List ℕ) → i < length js → suc (length (erase i js)) ≡ length js
unfolding erase
length-erase i [] h = absurd (omega arith)
length-erase zero (j ∷ js) h = refl
length-erase (suc i) (j ∷ js) h = ap suc (length-erase i js (omega arith))

erase-IsBelow : (n i : ℕ) (js : List ℕ) → IsBelow n js → IsBelow n (erase i js)
unfolding erase
erase-IsBelow n i [] h = tt
erase-IsBelow n zero (j ∷ js) (l, h) = h
erase-IsBelow n (suc i) (j ∷ js) (l, h) = (l, erase-IsBelow n i js h)

IsIncreasing-from : (i j : ℕ) (js : List ℕ) → i ≤ j → IsIncreasing j js → IsIncreasing i js
unfolding IsIncreasing
IsIncreasing-from i j [] l s = tt
IsIncreasing-from i j (k ∷ ks) l (le, s) = (omega arith, s)

erase-IsIncreasing : (m i : ℕ) (js : List ℕ) → IsIncreasing m js → IsIncreasing m (erase i js)
unfolding erase IsIncreasing
erase-IsIncreasing m i [] s = tt
erase-IsIncreasing m zero (j ∷ js) (le, s) = IsIncreasing-from m (suc j) js (omega arith) s
erase-IsIncreasing m (suc i) (j ∷ js) (le, s) = (le, erase-IsIncreasing (suc j) i js s)

-- What Prune leaves of a corpus with two records or more: at most the maximum, all with weights that
-- are not zero; but of records that all weigh zero, one, beside no weight.
abbrev pub IsPruned : Corpus → ℕ → Corpus → Type 0
IsPruned c max_corpus_size c' =
    ((0 < num_nonzero c.distribution.weights)
      × (length c'.records ≡ min max_corpus_size (num_nonzero c.distribution.weights))
      × IsSound c'
      × All (λ w. 0 < w) c'.distribution.weights)
    ⊎ ((num_nonzero c.distribution.weights ≡ 0)
        × (length c'.records ≡ 1)
        × (c'.distribution.weights ≡ []))

empty : (ws : List ℕ) → length ws ≡ 0 → ws ≡ []
empty [] h = refl
empty (w ∷ ws) h = absurd (omega arith)

-- What RemoveRandomWeightedSubset leaves of the weights, after RecomputeInternalState.
distribution_left :
    (d : WeightedDistribution) (subset : List ℕ) (target : ℕ)
    → IsConsistent d
    → IsSubsetFor d.weights target subset
    → IsConsistent (recompute_internal_state (remove_weighted_subset subset d))
      × (length (recompute_internal_state (remove_weighted_subset subset d)).weights
          ≡ min target (num_nonzero d.weights))
      × All (λ w. 0 < w) (recompute_internal_state (remove_weighted_subset subset d)).weights
unfolding IsSubsetFor remove_weighted_subset recompute_internal_state
distribution_left d subset target p (inc, below, size, at_zeros) =
    let steps = operations-IsConsistent d p in
    let left = length-remove_subset 0 subset d.weights (length d.weights) inc below (omega arith) in
    (steps.5 subset, omega arith, remove_subset-nonzero 0 subset d.weights inc at_zeros)

module _ (uniform : ℕ → ℕ) (in_range : (n : ℕ) → 0 < n → uniform n < n) (c : Corpus)
    (sound : IsSound c) (zeros : ℕ)
    (total : zeros + num_nonzero c.distribution.weights ≡ length c.records) where
  remove_records_lem :
      (max_corpus_size : ℕ) (subset : List ℕ)
      → 0 < max_corpus_size
      → 2 ≤ length c.records
      → IsSubsetFor c.distribution.weights
          (min max_corpus_size (max 1 (length c.records - zeros)))
          subset
      → (c' : Corpus) × (removed : ℕ) × (remove_records uniform c zeros subset ≡ done (c', removed))
        × (length c'.records + removed ≡ length c.records)
        × (num_total c' ≡ num_total c)
        × IsPruned c max_corpus_size c'
  unfolding remove_records IsSound IsSubsetFor
  remove_records_lem max_corpus_size subset pos many p =
      let ws = c.distribution.weights in
      let (d_consistent, d_size, d_pos) =
        distribution_left c.distribution subset
          (min max_corpus_size (max 1 (length c.records - zeros))) sound.1 p in
      let (inc, below, size, at_zeros) = p in
      elim (Bool-cases (length subset == length c.records)) [
        | inr some_kept ↦
            let left =
              length-remove_subset 0 subset c.records (length ws) inc below
                (omega (arith, sound.0)) in
            let nonempty : (length (remove_subset 0 subset c.records) == 0) ≡ false =
              ground (arith, sound.0) in
            (
              record c {
                records = remove_subset 0 subset c.records;
                distribution =
                    recompute_internal_state (remove_weighted_subset subset c.distribution);
                num_pruned = c.num_pruned + length subset;
              },
              length subset,
              rw (some_kept, nonempty) refl,
              left,
              omega arith,
              inl (
                ground (arith, sound.0),
                ground (arith, sound.0),
                (ground (arith, sound.0), d_consistent),
                d_pos,
              ),
            )
        | inl all_chosen ↦
            let i = uniform (length subset) in
            let inside = in_range (length subset) (ground arith) in
            let smaller = length-erase i subset inside in
            let left =
              length-remove_subset 0 (erase i subset) c.records (length ws)
                (erase-IsIncreasing 0 i subset inc) (erase-IsBelow (length ws) i subset below)
                (omega (arith, sound.0)) in
            let nonempty : (length (remove_subset 0 (erase i subset) c.records) == 0) ≡ false =
              ground (arith, sound.0) in
            let all_zero : (zeros == length c.records) ≡ true = ground (arith, sound.0) in
            (
              record c {
                records = remove_subset 0 (erase i subset) c.records;
                distribution =
                    recompute_internal_state (remove_weighted_subset subset c.distribution);
                num_pruned = c.num_pruned + length (erase i subset);
              },
              length (erase i subset),
              rw (all_chosen, all_zero, nonempty) refl,
              left,
              omega arith,
              inr (
                ground (arith, sound.0),
                ground (arith, sound.0),
                empty
                    (recompute_internal_state
                      (remove_weighted_subset subset c.distribution)).weights
                    (ground (arith, sound.0)),
              ),
            )
      ]

-- Of a sound corpus, for any random numbers within their ranges: Prune to a positive size passes its
-- checks, gives the number of removed records and keeps the total number of inputs. Fewer than two
-- records stay as they are. Of others, as many records stay as have a weight that is not zero, up to
-- the maximum, and the corpus is sound; if all weigh zero, one record stays beside no weight.
pub prune_lem :
    (key : ℕ → ℕ → ℕ) (uniform : ℕ → ℕ) (c : Corpus) (max_corpus_size : ℕ)
    → ((n : ℕ) → 0 < n → uniform n < n)
    → IsSound c
    → 0 < max_corpus_size
    → ((length c.records < 2) × (prune key uniform c max_corpus_size ≡ done (c, 0)))
      ⊎ ((c' : Corpus) × (removed : ℕ) × (prune key uniform c max_corpus_size ≡ done (c', removed))
          × (2 ≤ length c.records)
          × (length c'.records + removed ≡ length c.records)
          × (num_total c' ≡ num_total c)
          × IsPruned c max_corpus_size c')
unfolding prune IsSound
prune_lem key uniform c max_corpus_size in_range (sizes, consistent) pos =
    let some_size : (max_corpus_size == 0) ≡ false = ground arith in
    elim (Bool-cases (ltb (length c.records) 2)) [
      | inl few ↦ inl (ground arith, rw (some_size, few) refl)
      | inr many ↦
          let (zeros, z, total) =
            num_zero_weights_lem (length c.records) c.distribution.weights sizes in
          let target = min max_corpus_size (max 1 (length c.records - zeros)) in
          let (c', removed, e, left, same_total, pruned) =
            remove_records_lem uniform in_range c (sizes, consistent) zeros total max_corpus_size
              (random_weighted_subset key c.distribution.weights target) pos (ground arith)
              (chosen-IsSubsetFor key c.distribution.weights target) in
          inr (c', removed, rw (some_size, many, z, e) refl, ground arith, left, same_total, pruned)
    ]
