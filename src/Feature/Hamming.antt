-- ===== src/Feature/Hamming.antt =====
-- The number of binary digits in which two numbers differ, for ABToCmpHamming of centipede/feature.h.
use Prim.Native.Nat.{bit_xor, bit_xor-bitwise, digits, differ}
use native.Mathlib.Nat.{pow-suc}
use fuzztest.Common.{
  ℕ, zero, suc, ◌+◌, ◌*◌, ◌/◌, ◌%◌, ◌^◌, ◌<◌, ◌≤◌, ◌≡◌, ◌≢◌, ◌∙◌, refl, inl, inr, ap, ◌==◌,
  Bool-cases, arith,
}
use fuzztest.Feature.{pop_count}

-- Of the lowest `w` digits.
unfoldable pub distance : ℕ → ℕ → ℕ → ℕ
distance zero a b = 0
distance (suc w) a b = differ (a % 2) (b % 2) + distance w (a / 2) (b / 2)

differ_lt : (x y : ℕ) → x < 2 → y < 2 → differ x y < 2
differ_lt zero y h k = k
differ_lt (suc zero) zero h k = omega arith
differ_lt (suc zero) (suc y) h k = omega arith
differ_lt (suc (suc x)) y h k = absurd (omega arith)

differ_pos : (x y : ℕ) → x ≢ y → 0 < differ x y
differ_pos zero zero n = absurd (n refl)
differ_pos zero (suc y) n = omega arith
differ_pos (suc x) zero n = omega arith
differ_pos (suc x) (suc y) n = differ_pos x y (λ e. n (ap suc e))

pop_count-distance : (w b : ℕ) → pop_count w b ≡ distance w 0 b
unfolding pop_count distance
pop_count-distance zero b = refl
pop_count-distance (suc w) b = ap (λ k. b % 2 + k) (pop_count-distance w (b / 2))

pop_count-digits :
    (w n a b : ℕ) → a ≤ n → pop_count w (digits (λ k. k) differ n a b) ≡ distance w a b
unfolding pop_count distance
pop_count-digits zero n a b h = refl
pop_count-digits (suc w) zero zero b h = pop_count-distance (suc w) b
pop_count-digits (suc w) zero (suc a) b h = absurd (omega arith)
pop_count-digits (suc w) (suc n) zero b h = pop_count-distance (suc w) b
pop_count-digits (suc w) (suc n) (suc a) b h =
    let low = differ (suc a % 2) (b % 2) in
    let high = digits (λ k. k) differ n (suc a / 2) (b / 2) in
    let small : low < 2 = differ_lt (suc a % 2) (b % 2) (omega arith) (omega arith) in
    let digit : (high * 2 + low) % 2 ≡ low = omega arith in
    let rest : (high * 2 + low) / 2 ≡ high = omega arith in
    rw (digit, rest) (ap (λ k. low + k) (pop_count-digits w n (suc a / 2) (b / 2) (omega arith)))

-- The population count of an exclusive or is the distance.
pub pop_count-bit_xor : (w a b : ℕ) → pop_count w (bit_xor a b) ≡ distance w a b
pop_count-bit_xor w a b =
    ap (pop_count w) (bit_xor-bitwise a b) ∙ pop_count-digits w a a b (omega arith)

pub distance_pos : (w a b : ℕ) → a < 2 ^ w → b < 2 ^ w → a ≢ b → 0 < distance w a b
unfolding distance
distance_pos zero a b h k n = absurd (n (omega arith))
distance_pos (suc w) a b h k n = elim (Bool-cases (a % 2 == b % 2)) [
  | inl e ↦
      let same : a % 2 ≡ b % 2 = ground arith in
      let halves =
        distance_pos w (a / 2) (b / 2) (omega (arith, pow-suc 2 w)) (omega (arith, pow-suc 2 w))
          (λ q. n (omega arith)) in
      omega arith
  | inr e ↦ let first = differ_pos (a % 2) (b % 2) (λ q. ground arith) in omega arith
]
