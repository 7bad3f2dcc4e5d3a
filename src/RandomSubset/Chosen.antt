-- ===== src/RandomSubset/Chosen.antt =====
-- The subset that RandomWeightedSubset chooses.
use fuzztest.Common.{
  ℕ, suc, ◌+◌, ◌-◌, ◌<◌, ◌≤◌, ◌≡◌, ◌∙◌, inl, inr, refl, ap, ◌&&◌, List, [], ◌∷◌, ◌++◌, ltb, leb,
  ◌==◌, if◌then◌else◌, length, length-append, length-map, arith, Bool-cases, All, min,
}
use fuzztest.WeightedDistribution.{remove_subset}
use fuzztest.RandomSubset.{
  IndexAndWeight, zero_indices, push, swap_top, subset_loop, insert_index, sort_indices, indices_of,
  random_weighted_subset,
}
use fuzztest.RandomSubset.Removal.{
  occurrences, IsIncreasing, IsBelow, num_nonzero, zero_indices-IsIncreasing, occurrences-append,
  occurrences-sort_indices, sort_indices-IsSortedFrom, sorted-IsIncreasing, occurring-IsBelow,
  length-remove_subset, remove_subset-nonzero,
}

unfoldable nonzero_indices : ℕ → List ℕ → List ℕ
nonzero_indices i [] = []
nonzero_indices i (w ∷ ws) =
    let rest = nonzero_indices (suc i) ws in if w == 0 then rest else i ∷ rest

-- Each index is that of a zero or of another weight.
indices_once :
    (i : ℕ) (ws : List ℕ) (j : ℕ)
    → occurrences j (zero_indices i ws) + occurrences j (nonzero_indices i ws)
      ≡ (if leb i j && ltb j (i + length ws) then 1 else 0)
unfolding occurrences zero_indices nonzero_indices
indices_once i [] j = ground arith
indices_once i (w ∷ ws) j =
    let h = indices_once (suc i) ws j in
    elim (Bool-cases (w == 0)) [
      | inl z ↦ rw z (ground (arith, h))
      | inr z ↦ rw z (ground (arith, h))
    ]

length-zero_indices :
    (i : ℕ) (ws : List ℕ) → length (zero_indices i ws) + num_nonzero ws ≡ length ws
unfolding zero_indices num_nonzero
length-zero_indices i [] = refl
length-zero_indices i (w ∷ ws) =
    let h = length-zero_indices (suc i) ws in
    elim (Bool-cases (w == 0)) [ inl z ↦ rw z (omega arith) | inr z ↦ rw z (omega arith) ]

occurrences-push :
    (j : ℕ) (iw : IndexAndWeight) (queue : List IndexAndWeight)
    → occurrences j (indices_of (push iw queue)) ≡ occurrences j (iw.index ∷ indices_of queue)
unfolding occurrences push
occurrences-push j iw [] = refl
occurrences-push j iw (top ∷ queue) =
    let h = occurrences-push j iw queue in
    elim (Bool-cases (ltb iw.weight top.weight)) [
      | inl l ↦ rw l (ground (arith, h))
      | inr l ↦ rw l refl
    ]

length-push :
    (iw : IndexAndWeight) (queue : List IndexAndWeight)
    → length (push iw queue) ≡ suc (length queue)
unfolding push
length-push iw [] = refl
length-push iw (top ∷ queue) = elim (Bool-cases (ltb iw.weight top.weight)) [
  | inl l ↦ rw l (ap suc (length-push iw queue))
  | inr l ↦ rw l refl
]

length-swap_top :
    (iw : IndexAndWeight) (queue : List IndexAndWeight) → length (swap_top iw queue) ≡ length queue
unfolding swap_top
length-swap_top iw [] = refl
length-swap_top iw (top ∷ queue) = elim (Bool-cases (ltb iw.weight top.weight)) [
  | inl l ↦ rw l (length-push iw queue)
  | inr l ↦ rw l refl
]

occurrences-swap_top :
    (j : ℕ) (iw : IndexAndWeight) (queue : List IndexAndWeight)
    → occurrences j (indices_of (swap_top iw queue)) ≤ occurrences j (iw.index ∷ indices_of queue)
unfolding occurrences swap_top
occurrences-swap_top j iw [] = omega arith
occurrences-swap_top j iw (top ∷ queue) = elim (Bool-cases (ltb iw.weight top.weight)) [
  | inl l ↦ rw l (ground (arith, occurrences-push j iw queue))
  | inr l ↦ rw l (ground arith)
]

module _ (key : ℕ → ℕ → ℕ) (to_remove : ℕ) where
  occurrences-subset_loop :
      (i : ℕ) (ws : List ℕ) (queue : List IndexAndWeight) (j : ℕ)
      → occurrences j (indices_of (subset_loop key to_remove i ws queue))
        ≤ occurrences j (indices_of queue) + occurrences j (nonzero_indices i ws)
  unfolding occurrences subset_loop nonzero_indices
  occurrences-subset_loop i [] queue j = omega arith
  occurrences-subset_loop i (w ∷ ws) queue j = elim (Bool-cases (w == 0)) [
    | inl z ↦ rw z (occurrences-subset_loop (suc i) ws queue j)
    | inr z ↦ elim (Bool-cases (ltb (length queue) to_remove)) [
      | inl l ↦
          let iw : IndexAndWeight = record { index = i; weight = key i w } in
          let h = occurrences-subset_loop (suc i) ws (push iw queue) j in
          rw (z, l) (ground (arith, h, occurrences-push j iw queue))
      | inr l ↦
          let iw : IndexAndWeight = record { index = i; weight = key i w } in
          let h = occurrences-subset_loop (suc i) ws (swap_top iw queue) j in
          rw (z, l) (ground (arith, h, occurrences-swap_top j iw queue))
    ]
  ]

  occurrences-loop_from_empty :
      (ws : List ℕ) (j : ℕ)
      → occurrences j (indices_of (subset_loop key to_remove 0 ws []))
        ≤ occurrences j (nonzero_indices 0 ws)
  unfolding occurrences
  occurrences-loop_from_empty ws j = omega (arith, occurrences-subset_loop 0 ws [] j)

  length-subset_loop :
      (i : ℕ) (ws : List ℕ) (queue : List IndexAndWeight)
      → length queue ≤ to_remove
      → length (subset_loop key to_remove i ws queue)
        ≡ min to_remove (length queue + num_nonzero ws)
  unfolding subset_loop num_nonzero
  length-subset_loop i [] queue h = omega arith
  length-subset_loop i (w ∷ ws) queue h = elim (Bool-cases (w == 0)) [
    | inl z ↦ rw z (length-subset_loop (suc i) ws queue h)
    | inr z ↦ elim (Bool-cases (ltb (length queue) to_remove)) [
      | inl l ↦
          let iw : IndexAndWeight = record { index = i; weight = key i w } in
          let p = length-push iw queue in
          let r = length-subset_loop (suc i) ws (push iw queue) (ground arith) in
          rw (z, l) (omega arith)
      | inr l ↦
          let iw : IndexAndWeight = record { index = i; weight = key i w } in
          let p = length-swap_top iw queue in
          let r = length-subset_loop (suc i) ws (swap_top iw queue) (ground arith) in
          rw (z, l) (ground arith)
    ]
  ]

length-insert_index : (n : ℕ) (ns : List ℕ) → length (insert_index n ns) ≡ suc (length ns)
unfolding insert_index
length-insert_index n [] = refl
length-insert_index n (m ∷ ms) = elim (Bool-cases (ltb m n)) [
  | inl l ↦ rw l (ap suc (length-insert_index n ms))
  | inr l ↦ rw l refl
]

length-sort_indices : (ns : List ℕ) → length (sort_indices ns) ≡ length ns
unfolding sort_indices
length-sort_indices [] = refl
length-sort_indices (n ∷ ns) =
    length-insert_index n (sort_indices ns) ∙ ap suc (length-sort_indices ns)

-- What a subset to remove satisfies, for the numbers that are left.
unfoldable pub IsSubsetFor : List ℕ → ℕ → List ℕ → Type 0
IsSubsetFor set target_size res =
    IsIncreasing 0 res
    × IsBelow (length set) res
    × (length res + min target_size (num_nonzero set) ≡ length set)
    × ((j : ℕ) → occurrences j (zero_indices 0 set) ≤ occurrences j res)

pub chosen-IsSubsetFor :
    (key : ℕ → ℕ → ℕ) (set : List ℕ) (target_size : ℕ)
    → IsSubsetFor set target_size (random_weighted_subset key set target_size)
unfolding random_weighted_subset IsSubsetFor
chosen-IsSubsetFor key set target_size =
    let zeros = zero_indices 0 set in
    let to_remove = length set - length zeros - target_size in
    let queue = subset_loop key to_remove 0 set [] in
    let sizes = length-zero_indices 0 set in
    elim (Bool-cases (leb (length set - length zeros) target_size)) [
      | inl l ↦ rw l (
        zero_indices-IsIncreasing 0 set,
        occurring-IsBelow (length set) zeros (λ j h. ground (arith, indices_once 0 set j)),
        ground arith,
        λ j. omega arith,
      )
      | inr l ↦
          let size = length-subset_loop key to_remove 0 set [] (omega arith) in
          let all_sizes : length (sort_indices (zeros ++ indices_of queue))
              ≡ length zeros + length queue =
            length-sort_indices (zeros ++ indices_of queue)
            ∙ length-append zeros (indices_of queue)
            ∙ ap (λ (n : ℕ). length zeros + n)
                (length-map queue (λ (iw : IndexAndWeight). iw.index)) in
          let count : (j : ℕ)
              → occurrences j (sort_indices (zeros ++ indices_of queue))
                ≡ occurrences j zeros + occurrences j (indices_of queue) =
            λ j.
              occurrences-sort_indices j (zeros ++ indices_of queue)
              ∙ occurrences-append j zeros (indices_of queue) in
          let bound : (j : ℕ)
              → occurrences j (sort_indices (zeros ++ indices_of queue))
                ≤ (if leb 0 j && ltb j (0 + length set) then 1 else 0) =
            λ j. omega (
              arith,
              count j,
              occurrences-loop_from_empty key to_remove set j,
              indices_once 0 set j,
            ) in
          rw l (
            sorted-IsIncreasing 0 (sort_indices (zeros ++ indices_of queue))
                (sort_indices-IsSortedFrom (zeros ++ indices_of queue))
                (λ j. ground (arith, bound j)),
            occurring-IsBelow (length set) (sort_indices (zeros ++ indices_of queue))
                (λ j h. ground (arith, bound j)),
            ground (arith, all_sizes, size, sizes),
            λ j. omega (arith, count j),
          )
    ]

-- For any random numbers: RandomWeightedSubset gives indices of the set in increasing order. Their
-- removal leaves as many elements of a vector of the set's size as there are weights that are not
-- zero, target_size at most, and no weight that is zero.
pub random_weighted_subset_lem {ℓ} :
    {A : Type ℓ} (key : ℕ → ℕ → ℕ) (set : List ℕ) (target_size : ℕ) (elements : List A)
    → length elements ≡ length set
    → IsIncreasing 0 (random_weighted_subset key set target_size)
      × IsBelow (length set) (random_weighted_subset key set target_size)
      × (length (remove_subset 0 (random_weighted_subset key set target_size) elements)
          ≡ min target_size (num_nonzero set))
      × All (λ w. 0 < w) (remove_subset 0 (random_weighted_subset key set target_size) set)
unfolding IsSubsetFor
random_weighted_subset_lem key set target_size elements e =
    let (inc, below, size, zeros) = chosen-IsSubsetFor key set target_size in
    let res = random_weighted_subset key set target_size in
    let left = length-remove_subset 0 res elements (length set) inc below (omega arith) in
    (inc, below, omega arith, remove_subset-nonzero 0 res set inc zeros)
