-- ===== src/ConcurrentBitSet/WordBits.antt =====
-- The bits of one word in centipede/concurrent_bitset.h.
use fuzztest.Common.{
  ℕ, zero, suc, ◌+◌, ◌-◌, ◌*◌, ◌/◌, ◌%◌, ◌^◌, ◌<◌, ◌≡◌, ◌∙◌, sym, refl, ap, inl, inr, true, false,
  List, [], ◌∷◌, ◌==◌, if◌then◌else◌, Bool-cases, arith,
}
use native.Mathlib.Nat.{pow-suc}
use fuzztest.Common.Abort.{done}
use fuzztest.ConcurrentBitSet.{count_trailing_zeros, word_bits}

-- The places of the ones among the lowest `n` bits, counted from `idx` on.
unfoldable pub set_bits : ℕ → ℕ → ℕ → List ℕ
set_bits zero idx w = []
set_bits (suc n) idx w =
    let rest = set_bits n (idx + 1) (w / 2) in if w % 2 == 1 then idx ∷ rest else rest

double : (k w : ℕ) → 2 ^ suc k * w ≡ 2 * (2 ^ k * w)
double k w =
    let e : 2 ^ suc k ≡ 2 * 2 ^ k = omega (arith, pow-suc 2 k) in
    ap (λ (p : ℕ). p * w) e ∙ grind arith

pow_zero : (w : ℕ) → 2 ^ 0 * w ≡ w
pow_zero w = omega arith

power_positive : (k : ℕ) → 0 < 2 ^ k
power_positive zero = omega arith
power_positive (suc k) = omega (arith, power_positive k, pow-suc 2 k)

count_trailing_zeros_lem : (k m w : ℕ) → k < m → w % 2 ≡ 1 → count_trailing_zeros m (2 ^ k * w) ≡ k
unfolding count_trailing_zeros
count_trailing_zeros_lem k zero w l h = absurd (omega arith)
count_trailing_zeros_lem zero (suc m) w l h =
    let odd : (2 ^ 0 * w % 2 == 1) ≡ true = ground (arith, pow_zero w) in rw (odd) refl
count_trailing_zeros_lem (suc k) (suc m) w l h =
    let x = 2 ^ k * w in
    let d : 2 ^ suc k * w ≡ 2 * x = double k w in
    let even : (2 ^ suc k * w % 2 == 1) ≡ false = ground (arith, d) in
    let half : 2 ^ suc k * w / 2 ≡ x = omega (arith, d) in
    rw (even)
      (ap suc (ap (count_trailing_zeros m) half ∙ count_trailing_zeros_lem k m w (omega arith) h))

odd_rest : (k w v : ℕ) → w ≡ 2 * v + 1 → 2 ^ k * w ≡ 2 ^ suc k * v + 2 ^ k
odd_rest k w v e =
    ap (λ (t : ℕ). 2 ^ k * t) e
    ∙ (let f : 2 ^ k * (2 * v + 1) ≡ 2 * (2 ^ k * v) + 2 ^ k = grind arith in f)
    ∙ ap (λ (t : ℕ). t + 2 ^ k) (sym (double k v))

even_rest : (k w v : ℕ) → w ≡ 2 * v → 2 ^ k * w ≡ 2 ^ suc k * v
even_rest k w v e =
    ap (λ (t : ℕ). 2 ^ k * t) e
    ∙ (let f : 2 ^ k * (2 * v) ≡ 2 * (2 ^ k * v) = grind arith in f)
    ∙ sym (double k v)

shifted_lem :
    (n k w fuel base : ℕ)
    → k + n ≡ 64
    → w < 2 ^ n
    → n < fuel
    → word_bits fuel base (2 ^ k * w) ≡ done (set_bits n (base + k) w)
unfolding word_bits set_bits
shifted_lem n k w zero base s b f = absurd (omega arith)
shifted_lem zero k w (suc fuel) base s b f =
    let z : w ≡ 0 = omega arith in
    let none_left : (2 ^ k * w == 0) ≡ true =
      let q : 2 ^ k * w ≡ 0 = ap (λ (t : ℕ). 2 ^ k * t) z ∙ omega arith in ground arith in
    rw (none_left) refl
shifted_lem (suc n) k w (suc fuel) base s b f = elim (Bool-cases (w % 2 == 1)) [
  | inr e ↦
      let half : w ≡ 2 * (w / 2) = ground arith in
      let small : w / 2 < 2 ^ n = omega (arith, pow-suc 2 n) in
      let at : base + suc k ≡ base + k + 1 = omega arith in
      rw (e) (
        ap (word_bits (suc fuel) base) (even_rest k w (w / 2) half)
        ∙ shifted_lem n (suc k) (w / 2) (suc fuel) base (omega arith) small (omega arith)
        ∙ ap (λ (i : ℕ). done (set_bits n i (w / 2))) at)
  | inl e ↦
      let odd : w % 2 ≡ 1 = ground arith in
      let half : w ≡ 2 * (w / 2) + 1 = omega arith in
      let small : w / 2 < 2 ^ n = omega (arith, pow-suc 2 n) in
      let at : base + suc k ≡ base + k + 1 = omega arith in
      let split : 2 ^ k * w ≡ 2 ^ suc k * (w / 2) + 2 ^ k = odd_rest k w (w / 2) half in
      let some_left : (2 ^ k * w == 0) ≡ false = ground (arith, power_positive k) in
      let left : 2 ^ k * w - 2 ^ k ≡ 2 ^ suc k * (w / 2) = omega arith in
      let later : word_bits fuel base (2 ^ k * w - 2 ^ k)
          ≡ done (set_bits n (base + k + 1) (w / 2)) =
        ap (word_bits fuel base) left
        ∙ shifted_lem n (suc k) (w / 2) fuel base (omega arith) small (omega arith)
        ∙ ap (λ (i : ℕ). done (set_bits n i (w / 2))) at in
      rw (some_left, count_trailing_zeros_lem k 64 w (omega arith) odd, later, e) refl
]

-- A word of 64 bits: the loop ends and calls back for each bit that is set, in order.
pub word_bits_lem : (base w : ℕ) → w < 2 ^ 64 → word_bits 65 base w ≡ done (set_bits 64 base w)
word_bits_lem base w b =
    let at : base + 0 ≡ base = omega arith in
    ap (word_bits 65 base) (sym (pow_zero w))
    ∙ shifted_lem 64 0 w 65 base (omega arith) b (omega arith)
    ∙ ap (λ (i : ℕ). done (set_bits 64 i w)) at
