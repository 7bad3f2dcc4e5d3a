-- ===== src/ConcurrentBitSet/Members.antt =====
-- The calls of ForEachNonZeroBit of centipede/concurrent_bitset.h are the bits that get() finds.
use fuzztest.Common.{
  ℕ, zero, suc, ◌+◌, ◌-◌, ◌*◌, ◌/◌, ◌%◌, ◌≤◌, ◌<◌, ◌≡◌, ◌∙◌, ◌⊎◌, sym, refl, ap, inl, inr, Bool,
  true, false, ◌||◌, List, [], ◌∷◌, ◌++◌, length, get_or, ◌==◌, ==_iff, Bool-cases, arith,
}
use fuzztest.Common.Maps.{is_in}
use fuzztest.ConcurrentBitSet.{has_bit}
use fuzztest.ConcurrentBitSet.WordBits.{set_bits}
use fuzztest.ConcurrentBitSet.Lines.{all_bits}
use fuzztest.ConcurrentBitSet.Masks.{has_bit-half, has_bit-lowest}

set_bits-outside : (n idx w j : ℕ) → (j < idx) ⊎ (idx + n ≤ j) → is_in j (set_bits n idx w) ≡ false
unfolding set_bits
set_bits-outside zero idx w j o = refl
set_bits-outside (suc n) idx w j o =
    let later = set_bits-outside n (idx + 1) (w / 2) j (ground arith) in
    let other : (idx == j) ≡ false = ground arith in
    elim (Bool-cases (w % 2 == 1)) [ inl e ↦ rw (e, other) later | inr e ↦ rw (e) later ]

set_bits-inside : (n idx w k j : ℕ) → idx + k ≡ j → k < n → is_in j (set_bits n idx w) ≡ has_bit w k
unfolding set_bits
set_bits-inside zero idx w k j at l = absurd (omega arith)
set_bits-inside (suc n) idx w zero j at l =
    let here : (idx == j) ≡ true = ground arith in
    elim (Bool-cases (w % 2 == 1)) [
      | inl e ↦ rw (e, here) (sym (has_bit-lowest w ∙ e))
      | inr e ↦
          rw (e) (
            set_bits-outside n (idx + 1) (w / 2) j (inl (omega arith)) ∙ sym (has_bit-lowest w ∙ e))
    ]
set_bits-inside (suc n) idx w (suc k) j at l =
    let later =
      set_bits-inside n (idx + 1) (w / 2) k j (omega arith) (omega arith)
      ∙ sym (has_bit-half w k) in
    let other : (idx == j) ≡ false = ground arith in
    elim (Bool-cases (w % 2 == 1)) [ inl e ↦ rw (e, other) later | inr e ↦ rw (e) later ]

is_in_append : (j : ℕ) (xs ys : List ℕ) → is_in j (xs ++ ys) ≡ (is_in j xs || is_in j ys)
is_in_append j [] ys = ground arith
is_in_append j (x ∷ xs) ys = ground (arith, is_in_append j xs ys)

all_bits-below :
    (idx : ℕ) (words : List ℕ) (j : ℕ) → j < idx * 64 → is_in j (all_bits idx words) ≡ false
unfolding all_bits
all_bits-below idx [] j l = refl
all_bits-below idx (w ∷ words) j l =
    is_in_append j (set_bits 64 (idx * 64) w) (all_bits (idx + 1) words)
    ∙ rw
        (set_bits-outside 64 (idx * 64) w j (inl l), all_bits-below (idx + 1) words j (omega arith))
        refl

or_false : (a : Bool) → (a || false) ≡ a
or_false true = refl
or_false false = refl

pub is_in-all_bits :
    (idx : ℕ) (words : List ℕ) (k j : ℕ)
    → idx * 64 + k ≡ j
    → k < length words * 64
    → is_in j (all_bits idx words) ≡ has_bit (get_or words (k / 64) 0) (k % 64)
unfolding all_bits
is_in-all_bits idx [] k j at l = absurd (omega arith)
is_in-all_bits idx (w ∷ words) k j at l = elim (Bool-cases (k / 64 == 0)) [
  | inl e ↦
      let first : k / 64 ≡ 0 = (==_iff (k / 64) 0).0 e in
      let place : k % 64 ≡ k = omega arith in
      is_in_append j (set_bits 64 (idx * 64) w) (all_bits (idx + 1) words)
      ∙ ap (λ f. is_in j (set_bits 64 (idx * 64) w) || f)
          (all_bits-below (idx + 1) words j (omega arith))
      ∙ or_false _
      ∙ set_bits-inside 64 (idx * 64) w k j at (omega arith)
      ∙ rw (first, place) refl
  | inr e ↦
      let k' = k - 64 in
      let next : k / 64 ≡ suc (k' / 64) = ground arith in
      let place : k' % 64 ≡ k % 64 = ground arith in
      let past : idx * 64 + 64 ≤ j = ground arith in
      is_in_append j (set_bits 64 (idx * 64) w) (all_bits (idx + 1) words)
      ∙ ap (λ f. f || is_in j (all_bits (idx + 1) words))
          (set_bits-outside 64 (idx * 64) w j (inr past))
      ∙ is_in-all_bits (idx + 1) words k' j (ground arith) (ground arith)
      ∙ rw (next, place) refl
]
