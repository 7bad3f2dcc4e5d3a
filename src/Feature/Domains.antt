-- ===== src/Feature/Domains.antt =====
-- Domains and the numbers that are coded in them.
use fuzztest.Common.{
  ap, ℕ, zero, suc, ◌+◌, ◌-◌, ◌*◌, ◌/◌, ◌%◌, ◌^◌, ◌<◌, ◌≤◌, ◌≡◌, ◌≢◌, true, false, ◌==◌, arith, ◌↔◌,
  ◌⊎◌, inl, inr, Bool-cases,
}
use native.Mathlib.Nat.{pow-suc}
use native.Mathlib.Decide.{dec_lt}
use fuzztest.Common.Abort.{aborted, done}
use fuzztest.Feature.{
  Domain, domain_size, begin, contains, convert_to_me, feature_to_domain_id,
  feature_to_index_in_domain, count_leading_zeros, convert_8bit_counter_to_number,
  convert_pc_feature_to_pc_index, convert_pc_pair_to_number, pcs,
}

-- A number coded in a domain lies in that domain and in no other, and gives back the domain and
-- the number modulo the domain size.
convert_to_me_lem :
    (d e : Domain) (number : ℕ)
    → (feature_to_domain_id (convert_to_me d number) ≡ d.domain_id)
      × (feature_to_index_in_domain (convert_to_me d number) ≡ number % domain_size)
      × ((contains e (convert_to_me d number) ≡ true) ↔ (e.domain_id ≡ d.domain_id))
unfolding contains convert_to_me
convert_to_me_lem d e number = (omega arith, omega arith, (λ h. ground arith, λ h. ground arith))

-- The PC index comes back from its feature. No feature outside the PC domain is taken for one.
convert_pc_feature_to_pc_index_lem :
    (feature : ℕ)
    → ((contains pcs feature ≡ true)
        × ((i : ℕ) × (i < domain_size)
            × (convert_pc_feature_to_pc_index feature ≡ done i)
            × (convert_to_me pcs i ≡ feature)))
      ⊎ ((contains pcs feature ≡ false) × (convert_pc_feature_to_pc_index feature ≡ aborted))
unfolding contains convert_to_me convert_pc_feature_to_pc_index
convert_pc_feature_to_pc_index_lem feature = elim (Bool-cases (contains pcs feature)) [
  | inl e ↦ inl (e, (feature - begin pcs, ground arith, ground arith, ground arith))
  | inr e ↦ inr (e, ground arith)
]

pub pow_pos : (w : ℕ) → 0 < 2 ^ w
pow_pos zero = omega arith
pow_pos (suc w) = omega (arith, pow_pos w, pow-suc 2 w)

pow_mono : (j k : ℕ) → j ≤ k → 2 ^ j ≤ 2 ^ k
pow_mono zero k h = pow_pos k
pow_mono (suc j) zero h = absurd (omega arith)
pow_mono (suc j) (suc k) h = omega (arith, pow_mono j k (omega arith), pow-suc 2 j, pow-suc 2 k)

pub div_eq_zero : (v d : ℕ) → v / d ≡ 0 → 0 < d → v < d
div_eq_zero v d e h = omega (arith, ap (λ (t : ℕ). d * t) e)

div_ne_zero : (v d : ℕ) → v / d ≢ 0 → d ≤ v
div_ne_zero v d e = grind arith

-- The leading zeros leave the number between two powers of two.
pub count_leading_zeros_bounds :
    (w v : ℕ)
    → v < 2 ^ w
    → v ≢ 0
    → (k : ℕ) × (count_leading_zeros w v + suc k ≡ w) × (2 ^ k ≤ v) × (v < 2 ^ suc k)
unfolding count_leading_zeros
count_leading_zeros_bounds zero v h n = absurd (omega arith)
count_leading_zeros_bounds (suc w) v h n = elim (Bool-cases (v / 2 ^ w == 0)) [
  | inl e ↦
      let (k, total, low, high) =
        count_leading_zeros_bounds w v (div_eq_zero v (2 ^ w) (ground arith) (pow_pos w)) n in
      (k, rw e (omega arith), low, high)
  | inr e ↦ (w, rw e (omega arith), div_ne_zero v (2 ^ w) (ground arith), h)
]

log_lt_eight : (k v : ℕ) → 2 ^ k ≤ v → v < 256 → k < 8
log_lt_eight k v low high = elim (dec_lt k 8) [
  | yes h ↦ h
  | no h ↦ absurd (omega (arith, pow_mono 8 k (omega arith)))
]

-- A counter goes to its PC and the binary logarithm of its value, which both come back.
convert_8bit_counter_to_number_lem :
    (pc_index counter_value : ℕ)
    → pc_index < 2 ^ 61
    → counter_value < 256
    → ((counter_value ≡ 0) × (convert_8bit_counter_to_number pc_index counter_value ≡ aborted))
      ⊎ ((n k : ℕ) × (convert_8bit_counter_to_number pc_index counter_value ≡ done n)
          × (n / 8 ≡ pc_index)
          × (n % 8 ≡ k)
          × (2 ^ k ≤ counter_value)
          × (counter_value < 2 ^ suc k))
unfolding convert_8bit_counter_to_number
convert_8bit_counter_to_number_lem pc_index counter_value hp hc =
    elim (Bool-cases (counter_value == 0)) [
      | inl e ↦ inl (ground arith, rw e)
      | inr e ↦
          let (k, total, low, high) =
            count_leading_zeros_bounds 32 counter_value (omega arith) (ground arith) in
          let k_lt : k < 8 = log_lt_eight k counter_value low hc in
          let zeros : 32 - 1 - count_leading_zeros 32 counter_value ≡ k = omega arith in
          inr (
            pc_index * 8 + k,
            k,
            rw (e, zeros) (ap done (omega arith)),
            omega arith,
            omega arith,
            low,
            high,
          )
    ]

digits_bound : (a b m : ℕ) → a < m → b < m → a * m + b < m * m
digits_bound a b m ha hb = grind arith

digits_lt : (a b a' b' m : ℕ) → b < m → a < a' → a * m + b < a' * m + b'
digits_lt a b a' b' m hb l = grind arith

digits_unique : (a b a' b' m : ℕ) → b < m → b' < m → a * m + b ≡ a' * m + b' → (a ≡ a') × (b ≡ b')
digits_unique a b a' b' m hb hb' e = elim (compare_cases a a') [
  | inl l ↦ absurd (omega (arith, digits_lt a b a' b' m hb l))
  | inr (inl l) ↦ absurd (omega (arith, digits_lt a' b' a b m hb' l))
  | inr (inr q) ↦ (q, omega (arith, ap (λ (t : ℕ). t * m) q))
]
  where
    compare_cases : (x y : ℕ) → (x < y) ⊎ ((y < x) ⊎ (x ≡ y))
    compare_cases x y = omega arith

-- Pairs of PCs below `max_pc` have different numbers.
convert_pc_pair_to_number-injective :
    (pc1 pc2 pc1' pc2' max_pc : ℕ)
    → max_pc * max_pc ≤ 2 ^ 64
    → pc1 < max_pc
    → pc2 < max_pc
    → pc1' < max_pc
    → pc2' < max_pc
    → convert_pc_pair_to_number pc1 pc2 max_pc ≡ convert_pc_pair_to_number pc1' pc2' max_pc
    → (pc1 ≡ pc1') × (pc2 ≡ pc2')
unfolding convert_pc_pair_to_number
convert_pc_pair_to_number-injective pc1 pc2 pc1' pc2' max_pc fits h1 h2 h1' h2' e =
    digits_unique pc1 pc2 pc1' pc2' max_pc h2 h2'
      (omega (arith, e, digits_bound pc1 pc2 max_pc h1 h2, digits_bound pc1' pc2' max_pc h1' h2'))
