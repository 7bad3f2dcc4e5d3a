-- ===== src/Feature/Scores.antt =====
-- Scores of comparisons: 64 - |a - b|, the leading zeros of |a - b|, and the equal digits.
use native.Mathlib.Nat.{div-eq_of_lt}
use fuzztest.Common.{
  ℕ, zero, suc, ◌-◌, ap, ◌/◌, ◌^◌, ◌<◌, ◌≤◌, ◌≡◌, ◌≢◌, inl, inr, true, ◌==◌, arith, Bool-cases,
}
use fuzztest.Feature.{
  count_leading_zeros, abs_diff, ab_to_cmp_mod_diff, ab_to_cmp_diff_log, ab_to_cmp_hamming,
  cmp_score_bits,
}
use fuzztest.Feature.Hamming.{distance, pop_count-bit_xor, distance_pos}
use fuzztest.Feature.Domains.{count_leading_zeros_bounds, div_eq_zero, pow_pos}

count_leading_zeros_antitone :
    (w v v' : ℕ) → v ≤ v' → count_leading_zeros w v' ≤ count_leading_zeros w v
unfolding count_leading_zeros
count_leading_zeros_antitone zero v v' h = omega arith
count_leading_zeros_antitone (suc w) v v' h = elim (Bool-cases (v' / 2 ^ w == 0)) [
  | inl e ↦
      let small : v / 2 ^ w ≡ 0 = div-eq_of_lt (below e) in
      rw (e, small) (omega (arith, count_leading_zeros_antitone w v v' h))
  | inr e ↦ rw e (omega arith)
]
  where
    below : (v' / 2 ^ w == 0) ≡ true → v < 2 ^ w
    below e = omega (arith, div_eq_zero v' (2 ^ w) (ground arith) (pow_pos w))

-- The three scores of unequal 64-bit operands fit the score bits of a feature. Operands with a smaller
-- difference never score lower by the two scores of the difference. ABToCmpHamming is 64 less the
-- number of binary digits that differ, so that a smaller Hamming distance never scores lower by it.
pub ab_to_cmp_scores :
    (a b c d : ℕ)
    → a < 2 ^ 64
    → b < 2 ^ 64
    → a ≢ b
    → abs_diff a b ≤ abs_diff c d
    → (ab_to_cmp_mod_diff a b < 2 ^ cmp_score_bits)
      × (ab_to_cmp_diff_log a b < 2 ^ cmp_score_bits)
      × (ab_to_cmp_hamming a b < 2 ^ cmp_score_bits)
      × (ab_to_cmp_mod_diff c d ≤ ab_to_cmp_mod_diff a b)
      × (ab_to_cmp_diff_log c d ≤ ab_to_cmp_diff_log a b)
      × (ab_to_cmp_hamming a b ≡ 64 - distance 64 a b)
      × (distance 64 a b ≤ distance 64 c d → ab_to_cmp_hamming c d ≤ ab_to_cmp_hamming a b)
unfolding ab_to_cmp_mod_diff ab_to_cmp_diff_log ab_to_cmp_hamming
ab_to_cmp_scores a b c d ha hb n h =
    let (k, total, low, high) =
      count_leading_zeros_bounds 64 (abs_diff a b) (ground arith) (λ e. n (ground arith)) in
    (
      ground arith,
      omega arith,
      omega (arith, pop_count-bit_xor 64 a b, distance_pos 64 a b ha hb n),
      ground arith,
      count_leading_zeros_antitone 64 (abs_diff a b) (abs_diff c d) h,
      ap (λ (k : ℕ). 64 - k) (pop_count-bit_xor 64 a b),
      λ le. omega (arith, pop_count-bit_xor 64 a b, pop_count-bit_xor 64 c d),
    )
