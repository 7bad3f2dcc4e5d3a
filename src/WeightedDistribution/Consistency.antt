-- ===== src/WeightedDistribution/Consistency.antt =====
-- The cumulative weights through every operation.
use fuzztest.Common.{
  ℕ, suc, ◌<◌, ◌≡◌, ◌∙◌, refl, sym, ap, true, false, List, [], ◌∷◌, ◌++◌, ◌==◌, if◌then◌else◌,
  length, set, length-set, length-append, drop_all, append-nil, arith, Bool-cases, lt→ltb, inl, inr,
}
use fuzztest.Common.Abort.{done}
use fuzztest.Common.Bytes.{add64, IsU64}
use fuzztest.WeightedDistribution.{
  WeightedDistribution, back_or, without_back, add_weight, change_weight, partial_sums,
  recompute_internal_state, pop_back, clear, remove_subset, remove_weighted_subset,
}

-- There are as many cumulative weights as weights, and they are their partial sums while valid.
unfoldable pub IsConsistent : WeightedDistribution → Type 0
IsConsistent d =
    (length d.cumulative_weights ≡ length d.weights)
    × (d.cumulative_weights_valid ≡ true → d.cumulative_weights ≡ partial_sums 0 d.weights)

pub length-partial_sums : (p : ℕ) (ws : List ℕ) → length (partial_sums p ws) ≡ length ws
unfolding partial_sums
length-partial_sums p [] = refl
length-partial_sums p (w ∷ ws) = ap suc (length-partial_sums (add64 p w) ws)

partial_sums-append :
    (p w : ℕ) (ws : List ℕ)
    → partial_sums p (ws ++ (w ∷ []))
      ≡ partial_sums p ws ++ (add64 (back_or p (partial_sums p ws)) w ∷ [])
unfolding partial_sums back_or
partial_sums-append p w [] = refl
partial_sums-append p w (v ∷ ws) =
    ap (λ (t : List ℕ). add64 p v ∷ t) (partial_sums-append (add64 p v) w ws)

partial_sums-without_back :
    (p : ℕ) (ws : List ℕ) → without_back (partial_sums p ws) ≡ partial_sums p (without_back ws)
unfolding partial_sums without_back
partial_sums-without_back p [] = refl
partial_sums-without_back p (w ∷ []) = refl
partial_sums-without_back p (w ∷ v ∷ ws) =
    ap (λ (t : List ℕ). add64 p w ∷ t) (partial_sums-without_back (add64 p w) (v ∷ ws))

length-without_back :
    (xs ys : List ℕ) → length xs ≡ length ys → length (without_back xs) ≡ length (without_back ys)
unfolding without_back
length-without_back [] [] h = refl
length-without_back [] (y ∷ ys) h = absurd (omega arith)
length-without_back (x ∷ xs) [] h = absurd (omega arith)
length-without_back (x ∷ []) (y ∷ []) h = refl
length-without_back (x ∷ []) (y ∷ z ∷ ys) h = absurd (omega arith)
length-without_back (x ∷ w ∷ xs) (y ∷ []) h = absurd (omega arith)
length-without_back (x ∷ w ∷ xs) (y ∷ z ∷ ys) h =
    ap suc (length-without_back (w ∷ xs) (z ∷ ys) (omega arith))

add_weight-IsConsistent :
    (d : WeightedDistribution) (w : ℕ)
    → IsU64 w
    → IsConsistent d
    → (d' : WeightedDistribution) × (add_weight d w ≡ done d')
      × IsConsistent d'
      × (d'.weights ≡ d.weights ++ (w ∷ []))
unfolding IsConsistent add_weight back_or
add_weight-IsConsistent d w h (sizes, sums) =
    let same : (length d.weights == length d.cumulative_weights) ≡ true = ground arith in
    let next = add64 (back_or 0 d.cumulative_weights) w in
    (
      record d {
        weights = d.weights ++ (w ∷ []);
        cumulative_weights = d.cumulative_weights ++ (next ∷ []);
      },
      rw (same, pushed d.cumulative_weights) refl,
      (
        omega (
          arith,
          sizes,
          length-append d.cumulative_weights (next ∷ []),
          length-append d.weights (w ∷ []),
        ),
        λ e. rw (sums e) (sym (partial_sums-append 0 w d.weights)),
      ),
      refl,
    )
  where
    pushed :
        (c : List ℕ)
        → (if length c == 0 then w ∷ [] else c ++ (add64 (back_or 0 c) w ∷ []))
          ≡ c ++ (add64 (back_or 0 c) w ∷ [])
    pushed [] = ap (λ (n : ℕ). n ∷ []) (omega arith)
    pushed (x ∷ xs) = let more = never (length xs) in rw more refl
      where
        never : (n : ℕ) → (suc n == 0) ≡ false
        never n = ground arith

change_weight-IsConsistent :
    (d : WeightedDistribution) (idx w : ℕ)
    → idx < length d.weights
    → IsConsistent d
    → (d' : WeightedDistribution) × (change_weight d idx w ≡ done d')
      × IsConsistent d'
      × (d'.weights ≡ set d.weights idx w)
unfolding IsConsistent change_weight
change_weight-IsConsistent d idx w h (sizes, sums) = (
  record d { weights = set d.weights idx w; cumulative_weights_valid = false },
  rw (lt→ltb idx (length d.weights) h) refl,
  (rw (length-set d.weights idx w) sizes, λ e. absurd cc),
  refl,
)

pop_back-IsConsistent :
    (d : WeightedDistribution)
    → 0 < length d.weights
    → IsConsistent d
    → (d' : WeightedDistribution) × (pop_back d ≡ done (back_or 0 d.weights, d'))
      × IsConsistent d'
      × (d'.weights ≡ without_back d.weights)
unfolding IsConsistent pop_back
pop_back-IsConsistent d h (sizes, sums) =
    let some_weight : (length d.weights == 0) ≡ false = ground arith in
    (
      record d {
        weights = without_back d.weights;
        cumulative_weights = without_back d.cumulative_weights;
      },
      rw some_weight refl,
      (
        length-without_back d.cumulative_weights d.weights sizes,
        λ e. ap without_back (sums e) ∙ partial_sums-without_back 0 d.weights,
      ),
      refl,
    )

-- RecomputeInternalState needs the sizes only, which the removal of a subset leaves equal.
recompute-IsConsistent :
    (d : WeightedDistribution)
    → length d.cumulative_weights ≡ length d.weights
    → IsConsistent (recompute_internal_state d)
unfolding IsConsistent recompute_internal_state
recompute-IsConsistent d sizes =
    let none_left = drop_all (length d.weights) d.cumulative_weights (omega (arith, sizes)) in
    let whole = append-nil (partial_sums 0 d.weights) in
    (rw (none_left, whole) (length-partial_sums 0 d.weights), λ e. rw (none_left, whole) refl)

length-remove_subset :
    (i : ℕ) (js xs ys : List ℕ)
    → length xs ≡ length ys
    → length (remove_subset i js xs) ≡ length (remove_subset i js ys)
unfolding remove_subset
length-remove_subset i js [] [] h = refl
length-remove_subset i js [] (y ∷ ys) h = absurd (omega arith)
length-remove_subset i js (x ∷ xs) [] h = absurd (omega arith)
length-remove_subset i [] (x ∷ xs) (y ∷ ys) h =
    ap suc (length-remove_subset (suc i) [] xs ys (omega arith))
length-remove_subset i (j ∷ js) (x ∷ xs) (y ∷ ys) h = elim (Bool-cases (i == j)) [
  | inl e ↦ rw e (length-remove_subset (suc i) js xs ys (omega arith))
  | inr e ↦ rw e (ap suc (length-remove_subset (suc i) (j ∷ js) xs ys (omega arith)))
]

pub operations-IsConsistent :
    (d : WeightedDistribution)
    → IsConsistent d
    → ((w : ℕ)
        → IsU64 w
        → (d' : WeightedDistribution) × (add_weight d w ≡ done d')
          × IsConsistent d'
          × (d'.weights ≡ d.weights ++ (w ∷ [])))
      × ((idx w : ℕ)
          → idx < length d.weights
          → (d' : WeightedDistribution) × (change_weight d idx w ≡ done d')
            × IsConsistent d'
            × (d'.weights ≡ set d.weights idx w))
      × (0 < length d.weights
          → (d' : WeightedDistribution) × (pop_back d ≡ done (back_or 0 d.weights, d'))
            × IsConsistent d'
            × (d'.weights ≡ without_back d.weights))
      × IsConsistent (clear d)
      × IsConsistent (recompute_internal_state d)
      × ((subset : List ℕ)
          → IsConsistent (recompute_internal_state (remove_weighted_subset subset d)))
unfolding IsConsistent clear remove_weighted_subset partial_sums
operations-IsConsistent d p = (
  (λ w h. add_weight-IsConsistent d w h p),
  (λ idx w h. change_weight-IsConsistent d idx w h p),
  (λ h. pop_back-IsConsistent d h p),
  (refl, λ e. refl),
  recompute-IsConsistent d p.0,
  (λ subset.
      recompute-IsConsistent (remove_weighted_subset subset d)
        (length-remove_subset 0 subset d.cumulative_weights d.weights p.0)),
)
