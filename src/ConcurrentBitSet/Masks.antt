-- ===== src/ConcurrentBitSet/Masks.antt =====
-- `word | mask` in centipede/concurrent_bitset.h: one bit of a word.
use fuzztest.Common.{
  ℕ, zero, suc, ◌+◌, ◌*◌, ◌/◌, ◌%◌, ◌^◌, ◌<◌, ◌≡◌, ◌∙◌, sym, refl, ap, Bool, true, false, ◌==◌,
  if◌then◌else◌, arith,
}
use native.Mathlib.Nat.{pow-suc, div-div-eq-div-mul}
use fuzztest.ConcurrentBitSet.{has_bit}

half_power : (w c : ℕ) → w / 2 ^ suc c ≡ w / 2 / 2 ^ c
half_power w c =
    let e : 2 ^ suc c ≡ 2 * 2 ^ c = omega (arith, pow-suc 2 c) in
    ap (λ (p : ℕ). w / p) e ∙ sym (div-div-eq-div-mul w 2 (2 ^ c))

pub has_bit-half : (w c : ℕ) → has_bit w (suc c) ≡ has_bit (w / 2) c
has_bit-half w c = ap (λ (q : ℕ). q % 2 == 1) (half_power w c)

pub has_bit-lowest : (w : ℕ) → has_bit w 0 ≡ (w % 2 == 1)
has_bit-lowest w = let e : w / 2 ^ 0 ≡ w = omega arith in ap (λ (q : ℕ). q % 2 == 1) e

unchosen : (q f : Bool) → q ≡ false → f ≡ (if q then true else f)
unchosen true f e = cc
unchosen false f e = refl

-- The word with a bit set that is not set.
pub has_bit-set :
    (w b c : ℕ)
    → has_bit w b ≡ false
    → has_bit (w + 2 ^ b) c ≡ (if b == c then true else has_bit w c)
has_bit-set w zero zero h =
    let even : (w % 2 == 1) ≡ false = sym (has_bit-lowest w) ∙ h in
    has_bit-lowest (w + 2 ^ 0) ∙ ground arith
has_bit-set w zero (suc c) h =
    let even : (w % 2 == 1) ≡ false = sym (has_bit-lowest w) ∙ h in
    let same : (w + 2 ^ 0) / 2 ≡ w / 2 = ground arith in
    let other : (0 == suc c) ≡ false = ground arith in
    has_bit-half (w + 2 ^ 0) c
    ∙ ap (λ v. has_bit v c) same
    ∙ sym (has_bit-half w c)
    ∙ unchosen (0 == suc c) (has_bit w (suc c)) other
has_bit-set w (suc b) zero h =
    let e : (w + 2 ^ suc b) % 2 ≡ w % 2 = omega (arith, pow-suc 2 b) in
    let other : (suc b == 0) ≡ false = ground arith in
    has_bit-lowest (w + 2 ^ suc b)
    ∙ ap (λ (q : ℕ). q == 1) e
    ∙ sym (has_bit-lowest w)
    ∙ unchosen (suc b == 0) (has_bit w 0) other
has_bit-set w (suc b) (suc c) h =
    let e : (w + 2 ^ suc b) / 2 ≡ w / 2 + 2 ^ b = omega (arith, pow-suc 2 b) in
    has_bit-half (w + 2 ^ suc b) c
    ∙ ap (λ v. has_bit v c) e
    ∙ has_bit-set (w / 2) b c (sym (has_bit-half w b) ∙ h)
    ∙ ap (λ v. if b == c then true else v) (sym (has_bit-half w c))
    ∙ (let same : (b == c) ≡ (suc b == suc c) = ground arith in
        ap (λ (q : Bool). if q then true else has_bit w (suc c)) same)

-- It stays within its width.
pub set-lt : (n w b : ℕ) → w < 2 ^ n → b < n → has_bit w b ≡ false → w + 2 ^ b < 2 ^ n
set-lt zero w b l m h = absurd (omega arith)
set-lt (suc n) w zero l m h =
    let even : (w % 2 == 1) ≡ false = sym (has_bit-lowest w) ∙ h in
    let zeroed : w % 2 ≡ 0 = ground arith in omega (arith, pow-suc 2 n)
set-lt (suc n) w (suc b) l m h =
    let small : w / 2 < 2 ^ n = omega (arith, pow-suc 2 n) in
    let later = set-lt n (w / 2) b small (omega arith) (sym (has_bit-half w b) ∙ h) in
    omega (arith, pow-suc 2 n, pow-suc 2 b)
