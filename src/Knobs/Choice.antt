-- ===== src/Knobs/Choice.antt =====
-- What Choose and GenerateBool choose, by the random number.
use fuzztest.Common.{
  ℕ, zero, suc, ◌+◌, ◌-◌, ◌%◌, ◌^◌, ◌<◌, ◌≤◌, ◌≡◌, ◌⊎◌, ◌∙◌, inl, inr, refl, ap, true, false, List,
  [], ◌∷◌, ltb, leb, ◌==◌, length, get_or, take, All, arith, Bool-cases,
}
use native.Mathlib.Nat.{mod-lt}
use fuzztest.Common.Abort.{done}
use fuzztest.Knobs.{
  Knobs, num_knobs, knob_value, sum_of_values, element, choose_loop, choose, generate_bool,
}

-- The sum of the values of some knobs.
unfoldable pub weight_of : Knobs → List ℕ → ℕ
weight_of k [] = 0
weight_of k (id ∷ ids) = get_or k.knobs id 0 + weight_of k ids

knob_value_done :
    (k : Knobs) (id : ℕ) → id < num_knobs → knob_value k id ≡ done (get_or k.knobs id 0)
unfolding knob_value
knob_value_done k id h = ground arith

sum_of_values_lem :
    (k : Knobs) (ids : List ℕ)
    → All (λ id. id < num_knobs) ids
    → sum_of_values k ids ≡ done (weight_of k ids)
unfolding sum_of_values weight_of
sum_of_values_lem k [] h = refl
sum_of_values_lem k (id ∷ ids) (h, hs) =
    rw (knob_value_done k id h, sum_of_values_lem k ids hs) refl

module _ {ℓ} {A : Type ℓ} where
  pub element_lem : (xs : List A) (i : ℕ) → i < length xs → (x : A) × (element xs i ≡ done x)
  element_lem [] i h = absurd (omega arith)
  element_lem (x ∷ xs) zero h = (x, refl)
  element_lem (x ∷ xs) (suc i) h = element_lem xs i (omega arith)

  choose_loop_lem :
      (k : Knobs) (ids : List ℕ) (choices : List A) (p r : ℕ)
      → All (λ id. id < num_knobs) ids
      → length ids ≡ length choices
      → p ≤ r
      → r < p + weight_of k ids
      → (i : ℕ) × (choose_loop k ids choices p r ≡ element choices i)
        × (i < length choices)
        × (p + weight_of k (take i ids) ≤ r)
        × (r < p + weight_of k (take i ids) + get_or k.knobs (get_or ids i 0) 0)
  unfolding choose_loop weight_of
  choose_loop_lem k [] choices p r a l lo hi = absurd (omega arith)
  choose_loop_lem k (id ∷ ids) [] p r a l lo hi = absurd (omega arith)
  choose_loop_lem k (id ∷ ids) (c ∷ choices) p r (h, hs) l lo hi =
      elim (Bool-cases (ltb r (p + get_or k.knobs id 0))) [
        | inl e ↦
            (zero, rw (knob_value_done k id h, e) refl, omega arith, omega arith, ground arith)
        | inr e ↦
            let (i, q, inside, low, high) =
              choose_loop_lem k ids choices (p + get_or k.knobs id 0) r hs (omega arith)
                (ground arith) (omega arith) in
            (suc i, rw (knob_value_done k id h, e) q, omega arith, omega arith, omega arith)
      ]

  -- For as many choices as knobs, at least one: Choose gives a choice. If all values are zero, each
  -- choice has as many remainders of the random number; otherwise as many as its knob's value.
  pub choose_lem :
      (k : Knobs) (ids : List ℕ) (choices : List A) (random : ℕ)
      → All (λ id. id < num_knobs) ids
      → length ids ≡ length choices
      → 0 < length choices
      → (i : ℕ) × (choice : A) × (choose k ids choices random ≡ done choice)
        × (element choices i ≡ done choice)
        × (((weight_of k ids ≡ 0) × (i ≡ random % length choices))
            ⊎ ((weight_of k (take i ids) ≤ random % weight_of k ids)
                × (random % weight_of k ids
                    < weight_of k (take i ids) + get_or k.knobs (get_or ids i 0) 0)))
  unfolding choose
  choose_lem k ids choices random h l n =
      let some_choice : (length choices == 0) ≡ false = ground arith in
      let same : (length ids == length choices) ≡ true = ground arith in
      elim (Bool-cases (weight_of k ids == 0)) [
        | inl z ↦
            let i = random % length choices in
            let (c, e) = element_lem choices i (mod-lt random n) in
            (
              i,
              c,
              rw (some_choice, same, sum_of_values_lem k ids h, z) e,
              e,
              inl (ground arith, refl),
            )
        | inr z ↦
            let r = random % weight_of k ids in
            let pos : 0 < weight_of k ids = ground arith in
            let (i, q, inside, low, high) =
              choose_loop_lem k ids choices 0 r h l (omega arith)
                (omega (arith, mod-lt random pos)) in
            let (c, e) = element_lem choices i inside in
            (
              i,
              c,
              rw (some_choice, same, sum_of_values_lem k ids h, z) (q ∙ e),
              e,
              inr (omega arith, omega arith),
            )
      ]

-- GenerateBool of the knob with the byte `v` is true for (v + 128) % 256 of the 255 remainders of
-- the random number: always at 127 and never at -128, which is the byte 128.
pub generate_bool_lem :
    (k : Knobs) (id random : ℕ)
    → id < num_knobs
    → (generate_bool k id random ≡ done (ltb (random % 255) ((get_or k.knobs id 0 + 128) % 256)))
      × (get_or k.knobs id 0 ≡ 127 → generate_bool k id random ≡ done true)
      × (get_or k.knobs id 0 ≡ 128 → generate_bool k id random ≡ done false)
unfolding generate_bool
generate_bool_lem k id random h =
    let v = get_or k.knobs id 0 in
    rw (knob_value_done k id h)
      (ap done (tests v), (λ e. ap done (ground arith)), (λ e. ap done (ground arith)))
  where
    tests :
        (v : ℕ)
        → leb (((random % 255 + 2 ^ 64 - 127) % 2 ^ 64 % 2 ^ 8 + 128) % 256) ((v + 128) % 256)
          ≡ ltb (random % 255) ((v + 128) % 256)
    tests v = ground arith
