-- ===== src/FeatureSet/Counts/Nonzero.antt =====
-- The number of the indices in a range at which an array is not zero, and its changes.
use fuzztest.Common.{
  ℕ, zero, suc, ◌+◌, ◌-◌, ◌<◌, ◌≤◌, ◌≡◌, ◌≢◌, ◌⊎◌, inl, inr, ◌∙◌, refl, ap, ◌==◌, if◌then◌else◌,
  arith, Bool-cases,
}
use fuzztest.FeatureSet.{update}

unfoldable pub nonzero : (ℕ → ℕ) → ℕ → ℕ → ℕ
nonzero g a zero = 0
nonzero g a (suc n) = let rest = nonzero g (suc a) n in if g a == 0 then rest else suc rest

split : (a i : ℕ) → a ≤ i → (a ≡ i) ⊎ (a < i)
split a i h = omega arith

pub update_succ : (g : ℕ → ℕ) (i d : ℕ) → d ≡ i → update g i (suc (g i)) d ≡ suc (g d)
update_succ g i d q = let same : g d ≡ g i = ap g q in ground arith

pub update_ne : (g : ℕ → ℕ) (i v d : ℕ) → d ≢ i → update g i v d ≡ g d
update_ne g i v d q = ground arith

pub update_self : (g : ℕ → ℕ) (a i v : ℕ) → a ≡ i → update g i v a ≡ v
update_self g a i v q = ground arith

module _ (g : ℕ → ℕ) (i v : ℕ) (p : v ≢ 0) where
  pub nonzero-update_out :
      (a n : ℕ) → ((j : ℕ) → a ≤ j → j < a + n → i ≢ j) → nonzero (update g i v) a n ≡ nonzero g a n
  unfolding nonzero
  nonzero-update_out a zero h = refl
  nonzero-update_out a (suc n) h =
      let out = h a (omega arith) (omega arith) in
      let rest = nonzero-update_out (suc a) n (λ j l k. h j (omega arith) (omega arith)) in
      ground arith

  pub nonzero-update_old : (a n : ℕ) → g i ≢ 0 → nonzero (update g i v) a n ≡ nonzero g a n
  unfolding nonzero
  nonzero-update_old a zero h = refl
  nonzero-update_old a (suc n) h = let rest = nonzero-update_old (suc a) n h in ground arith

  pub nonzero-update_new :
      (a n : ℕ) → g i ≡ 0 → a ≤ i → i < a + n → nonzero (update g i v) a n ≡ suc (nonzero g a n)
  unfolding nonzero
  nonzero-update_new a zero e l k = absurd (omega arith)
  nonzero-update_new a (suc n) e l k = elim (split a i l) [
    | inl q ↦
        let rest = nonzero-update_out (suc a) n (λ j l' k'. λ w. omega arith) in
        let here : g a ≡ 0 = ap g q ∙ e in let same = update_self g a i v q in ground arith
    | inr q ↦ let rest = nonzero-update_new (suc a) n e q (omega arith) in ground arith
  ]

pub nonzero-append :
    (g : ℕ → ℕ) (a b m n : ℕ) → b ≡ a + m → nonzero g a (m + n) ≡ nonzero g a m + nonzero g b n
unfolding nonzero
nonzero-append g a b zero n e =
    let same : nonzero g b n ≡ nonzero g a n = ap (λ (t : ℕ). nonzero g t n) (omega arith) in
    let left : nonzero g a (0 + n) ≡ nonzero g a n = ap (λ (t : ℕ). nonzero g a t) (omega arith) in
    omega (arith, same, left)
nonzero-append g a b (suc m) n e =
    let rest = nonzero-append g (suc a) b m n (omega arith) in
    let moved : suc m + n ≡ suc (m + n) = omega arith in
    let left : nonzero g a (suc m + n) ≡ nonzero g a (suc (m + n)) =
      ap (λ (t : ℕ). nonzero g a t) moved in
    elim (Bool-cases (g a == 0)) [
      | inl h ↦ left ∙ rw h rest
      | inr h ↦ left ∙ rw h (omega (arith, rest))
    ]

pub nonzero-zero : (a n : ℕ) → nonzero (λ i. 0) a n ≡ 0
unfolding nonzero
nonzero-zero a zero = refl
nonzero-zero a (suc n) = nonzero-zero (suc a) n

pub nonzero_pos : (g : ℕ → ℕ) (i a n : ℕ) → g i ≢ 0 → a ≤ i → i < a + n → nonzero g a n ≢ 0
unfolding nonzero
nonzero_pos g i a zero p l k = absurd (omega arith)
nonzero_pos g i a (suc n) p l k = elim (split a i l) [
  | inl q ↦ let here : g a ≡ g i = ap g q in λ z. ground arith
  | inr q ↦ let rest = nonzero_pos g i (suc a) n p q (omega arith) in λ z. ground arith
]

pub nonzero_none : (g : ℕ → ℕ) (a n : ℕ) → n ≡ 0 → nonzero g a n ≡ 0
unfolding nonzero
nonzero_none g a zero e = refl
nonzero_none g a (suc n) e = absurd (omega arith)

pub nonzero_part : (g : ℕ → ℕ) (a n m : ℕ) → a + n ≤ m → nonzero g a n ≤ nonzero g 0 m
nonzero_part g a n m h =
    let moved : a + (n + (m - (a + n))) ≡ m = omega arith in
    omega (
      arith,
      ap (λ (t : ℕ). nonzero g 0 t) moved,
      nonzero-append g 0 a a (n + (m - (a + n))) (omega arith),
      nonzero-append g a (a + n) n (m - (a + n)) refl,
    )
