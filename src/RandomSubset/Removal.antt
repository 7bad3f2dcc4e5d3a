-- ===== src/RandomSubset/Removal.antt =====
-- What is left of a corpus when the chosen subset is removed.
use fuzztest.Common.{
  ℕ, suc, ◌+◌, ◌<◌, ◌≤◌, ◌≡◌, ◌∙◌, inl, inr, refl, ap, subst, false, List, [], ◌∷◌, ◌++◌, ltb, ◌==◌,
  if◌then◌else◌, length, arith, Bool-cases, All,
}
use fuzztest.WeightedDistribution.{remove_subset}
use fuzztest.RandomSubset.{zero_indices, insert_index, sort_indices}

-- How often a number is in a list.
unfoldable pub occurrences : ℕ → List ℕ → ℕ
occurrences j [] = 0
occurrences j (n ∷ ns) = if n == j then suc (occurrences j ns) else occurrences j ns

-- The numbers of a list increase, from `i` on.
unfoldable pub IsIncreasing : ℕ → List ℕ → Type 0
IsIncreasing i [] = Unit
IsIncreasing i (n ∷ ns) = (i ≤ n) × IsIncreasing (suc n) ns

unfoldable pub IsSortedFrom : ℕ → List ℕ → Type 0
IsSortedFrom i [] = Unit
IsSortedFrom i (n ∷ ns) = (i ≤ n) × IsSortedFrom n ns

-- The numbers of a list are below `n`.
abbrev pub IsBelow : ℕ → List ℕ → Type 0
IsBelow n = All (λ j. j < n)

-- The weights that are not zero.
unfoldable pub num_nonzero : List ℕ → ℕ
num_nonzero [] = 0
num_nonzero (w ∷ ws) = if w == 0 then num_nonzero ws else suc (num_nonzero ws)

pub occurrences-append :
    (j : ℕ) (xs ys : List ℕ) → occurrences j (xs ++ ys) ≡ occurrences j xs + occurrences j ys
unfolding occurrences
occurrences-append j [] ys = omega arith
occurrences-append j (x ∷ xs) ys = elim (Bool-cases (x == j)) [
  | inl e ↦ rw e (omega (arith, occurrences-append j xs ys))
  | inr e ↦ rw e (occurrences-append j xs ys)
]

occurrences-insert_index :
    (j n : ℕ) (ns : List ℕ) → occurrences j (insert_index n ns) ≡ occurrences j (n ∷ ns)
unfolding occurrences insert_index
occurrences-insert_index j n [] = refl
occurrences-insert_index j n (m ∷ ms) =
    let h = occurrences-insert_index j n ms in
    elim (Bool-cases (ltb m n)) [ inr l ↦ rw l refl | inl l ↦ rw l (ground (arith, h)) ]

pub occurrences-sort_indices :
    (j : ℕ) (ns : List ℕ) → occurrences j (sort_indices ns) ≡ occurrences j ns
unfolding occurrences sort_indices
occurrences-sort_indices j [] = refl
occurrences-sort_indices j (n ∷ ns) =
    occurrences-insert_index j n (sort_indices ns)
    ∙ ap (λ (t : ℕ). if n == j then suc t else t) (occurrences-sort_indices j ns)

insert_index-IsSortedFrom :
    (i n : ℕ) (ns : List ℕ) → i ≤ n → IsSortedFrom i ns → IsSortedFrom i (insert_index n ns)
unfolding insert_index IsSortedFrom
insert_index-IsSortedFrom i n [] h s = (h, tt)
insert_index-IsSortedFrom i n (m ∷ ms) h (le, s) = elim (Bool-cases (ltb m n)) [
  | inl l ↦ rw l (le, insert_index-IsSortedFrom m n ms (ground arith) s)
  | inr l ↦ rw l (h, (ground arith, s))
]

pub sort_indices-IsSortedFrom : (ns : List ℕ) → IsSortedFrom 0 (sort_indices ns)
unfolding sort_indices IsSortedFrom
sort_indices-IsSortedFrom [] = tt
sort_indices-IsSortedFrom (n ∷ ns) =
    insert_index-IsSortedFrom 0 n (sort_indices ns) (omega arith) (sort_indices-IsSortedFrom ns)

-- Sorted numbers, none of which is there twice, increase.
pub sorted-IsIncreasing :
    (i : ℕ) (ns : List ℕ) → IsSortedFrom i ns → ((j : ℕ) → occurrences j ns ≤ 1) → IsIncreasing i ns
unfolding occurrences IsSortedFrom IsIncreasing
sorted-IsIncreasing i [] s h = tt
sorted-IsIncreasing i (n ∷ ns) (le, s) h =
    (le, sorted-IsIncreasing (suc n) ns (above ns s (h n)) (λ j. ground (arith, h j)))
  where
    above : (ms : List ℕ) → IsSortedFrom n ms → occurrences n (n ∷ ms) ≤ 1 → IsSortedFrom (suc n) ms
    above [] q o = tt
    above (m ∷ ms) (l, q) o = (ground arith, q)

pub occurring-IsBelow :
    (n : ℕ) (ns : List ℕ) → ((j : ℕ) → n ≤ j → occurrences j ns ≡ 0) → IsBelow n ns
unfolding occurrences
occurring-IsBelow n [] h = tt
occurring-IsBelow n (m ∷ ms) h =
    (ground (arith, h m), occurring-IsBelow n ms (λ j l. ground (arith, h j l)))

-- Removal of increasing indices that exist takes off one element each.
pub length-remove_subset {ℓ} :
    {A : Type ℓ} (i : ℕ) (js : List ℕ) (xs : List A) (n : ℕ)
    → IsIncreasing i js
    → IsBelow n js
    → n ≡ i + length xs
    → length (remove_subset i js xs) + length js ≡ length xs
unfolding remove_subset IsIncreasing
length-remove_subset i [] [] n s b e = refl
length-remove_subset i (j ∷ js) [] n (le, s) (l, b) e = absurd (omega arith)
length-remove_subset i [] (x ∷ xs) n s b e =
    omega (arith, length-remove_subset (suc i) [] xs n tt tt (omega arith))
length-remove_subset i (j ∷ js) (x ∷ xs) n (le, s) (l, b) e = elim (Bool-cases (i == j)) [
  | inl q ↦
      let same : j ≡ i = ground arith in
      let h =
        length-remove_subset (suc i) js xs n (subst (λ (t : ℕ). IsIncreasing (suc t) js) same s) b
          (omega arith) in
      rw q (omega arith)
  | inr q ↦
      let h = length-remove_subset (suc i) (j ∷ js) xs n (ground arith, s) (l, b) (omega arith) in
      rw q (omega arith)
]

-- Where increasing indices are not.
increasing_below : (i k : ℕ) (js : List ℕ) → IsIncreasing i js → k < i → occurrences k js ≡ 0
unfolding IsIncreasing occurrences
increasing_below i k [] s l = refl
increasing_below i k (j ∷ js) (le, s) l =
    let h = increasing_below (suc j) k js s (omega arith) in
    let e : (j == k) ≡ false = ground arith in rw e h

IsIncreasing-weaken : (i : ℕ) (js : List ℕ) → IsIncreasing (suc i) js → IsIncreasing i js
unfolding IsIncreasing
IsIncreasing-weaken i [] s = tt
IsIncreasing-weaken i (j ∷ js) (le, s) = (omega arith, s)

pub zero_indices-IsIncreasing : (i : ℕ) (ws : List ℕ) → IsIncreasing i (zero_indices i ws)
unfolding IsIncreasing zero_indices
zero_indices-IsIncreasing i [] = tt
zero_indices-IsIncreasing i (w ∷ ws) = elim (Bool-cases (w == 0)) [
  | inl z ↦ rw z (omega arith, zero_indices-IsIncreasing (suc i) ws)
  | inr z ↦
      rw z (IsIncreasing-weaken i (zero_indices (suc i) ws) (zero_indices-IsIncreasing (suc i) ws))
]

-- The elements at zeros are removed, so that no weight that is left is zero.
pub remove_subset-nonzero :
    (i : ℕ) (js ws : List ℕ)
    → IsIncreasing i js
    → ((j : ℕ) → occurrences j (zero_indices i ws) ≤ occurrences j js)
    → All (λ w. 0 < w) (remove_subset i js ws)
unfolding remove_subset IsIncreasing occurrences zero_indices
remove_subset-nonzero i js [] s h = nothing_left js
  where
    nothing_left : (js : List ℕ) → All (λ w. 0 < w) (remove_subset i js [])
    nothing_left [] = tt
    nothing_left (j ∷ js) = tt
remove_subset-nonzero i [] (w ∷ ws) s h = elim (Bool-cases (w == 0)) [
  | inl z ↦ let h' = h i in absurd (ground arith)
  | inr z ↦ (ground arith, remove_subset-nonzero (suc i) [] ws tt (λ k. rw z at (h k)))
]
remove_subset-nonzero i (j ∷ js) (w ∷ ws) (le, s) h = elim (Bool-cases (i == j)) [
  | inl q ↦
      let same : j ≡ i = ground arith in
      let s' = subst (λ (t : ℕ). IsIncreasing (suc t) js) same s in
      rw q (remove_subset-nonzero (suc i) js ws s' (λ k. rest k same))
  | inr q ↦
      let not_yet = increasing_below j i js (IsIncreasing-weaken j js s) (ground arith) in
      let pos : 0 < w = let h' = h i in ground arith in
      let nonzero : (w == 0) ≡ false = ground arith in
      rw q (
        pos,
        remove_subset-nonzero (suc i) (j ∷ js) ws (ground arith, s) (λ k. rw nonzero at (h k)),
      )
]
  where
    rest : (k : ℕ) → j ≡ i → occurrences k (zero_indices (suc i) ws) ≤ occurrences k js
    rest k e =
        let none_at =
          increasing_below (suc i) k (zero_indices (suc i) ws)
            (zero_indices-IsIncreasing (suc i) ws) in
        let h' = h k in
        elim (Bool-cases (ltb k (suc i))) [
          | inl l ↦ let o = none_at (ground arith) in omega arith
          | inr l ↦ ground arith
        ]
