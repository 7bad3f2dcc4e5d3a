-- ===== src/FeatureSet/Reports.antt =====
-- What a sound FeatureSet reports: sizes, covered PCs and weights.
use fuzztest.Common.{
  ℕ, zero, suc, ◌+◌, ◌*◌, ◌/◌, ◌<◌, ◌≤◌, ◌≡◌, ◌≢◌, ◌∙◌, inl, inr, refl, sym, ap, subst, Bool, true,
  false, List, [], ◌∷◌, ltb, ◌==◌, if◌then◌else◌, arith, All, Bool-cases, lt→ltb, length,
}
use fuzztest.Common.Abort.{done, done-injective}
use fuzztest.Feature.{
  begin, domain_size, num_domains, feature_to_domain_id, without_score, cmp_score_feature_index,
  is_comparison_score_feature, pcs, convert_to_me,
}
use fuzztest.Feature.Domains.{div_eq_zero}
use fuzztest.FeatureSet.{
  FeatureSet, size, feature_set, frequency_threshold_of, is_unseen, count_features, coverage_loop,
  to_coverage_pcs, compute_rarity_weight,
}
use fuzztest.FeatureSet.Merge.{score_bounds, seen_frequency, is_unseen_plain}
use fuzztest.FeatureSet.Counts.{IsCounted, IsBounded, IsSound, base_of_index}
use fuzztest.FeatureSet.Counts.Nonzero.{
  nonzero, nonzero-append, nonzero_pos, nonzero_none, nonzero_part, nonzero-zero,
}

-- A new set with a positive threshold is sound.
pub feature_set-IsSound :
    (threshold : ℕ) (discard : ℕ → Bool) → 0 < threshold → IsSound (feature_set threshold discard)
unfolding IsSound IsCounted IsBounded
feature_set-IsSound threshold discard h = (
  h,
  (sym (nonzero-zero 0 size), λ d k. sym (nonzero-zero (domain_size * d) domain_size)),
  ((λ i. omega arith), (λ i. omega arith), (λ i l n. absurd (n refl))),
)

-- The number of the features of the domains below `n`.
pub features_below : FeatureSet → ℕ → ℕ
features_below s zero = 0
features_below s (suc n) = features_below s n + s.features_per_domain n

features_below-nonzero :
    (s : FeatureSet) (n : ℕ)
    → IsCounted s
    → n ≤ num_domains
    → features_below s n ≡ nonzero s.frequencies 0 (domain_size * n)
unfolding features_below IsCounted
features_below-nonzero s zero c l =
    sym (nonzero_none s.frequencies 0 (domain_size * 0) (omega arith))
features_below-nonzero s (suc n) (total, each) l =
    let moved : domain_size * suc n ≡ domain_size * n + domain_size = omega arith in
    omega (
      arith,
      features_below-nonzero s n (total, each) (omega arith),
      each n (omega arith),
      nonzero-append s.frequencies 0 (domain_size * n) (domain_size * n) domain_size (omega arith),
      ap (λ (t : ℕ). nonzero s.frequencies 0 t) moved,
    )

coverage_loop-nonzero :
    (s : FeatureSet) (n idx a : ℕ)
    → idx + n ≤ domain_size
    → a ≡ begin pcs + idx
    → length (coverage_loop s n idx) ≡ nonzero s.frequencies a n
unfolding coverage_loop nonzero convert_to_me
coverage_loop-nonzero s zero idx a l e = refl
coverage_loop-nonzero s (suc n) idx a l e =
    let rest = coverage_loop-nonzero s n (suc idx) (suc a) (omega arith) (omega arith) in
    let same : convert_to_me pcs idx ≡ a = omega arith in
    let there = ap s.frequencies same in
    elim (Bool-cases (s.frequencies a == 0)) [
      | inl h ↦ rw (there, h) rest
      | inr h ↦ rw (there, h) (omega (arith, rest))
    ]

-- The size of a sound set is the sum of the sizes of its domains, and ToCoveragePCs gives as many
-- PCs as the set has features in the domain of PCs.
size_lem :
    (s : FeatureSet)
    → IsSound s
    → (s.num_features ≡ features_below s num_domains)
      × (length (to_coverage_pcs s) ≡ count_features s pcs)
unfolding IsSound IsCounted to_coverage_pcs
size_lem s (h, (total, each), bounds) = (
  total ∙ sym (features_below-nonzero s num_domains (total, each) (omega arith)),
  coverage_loop-nonzero s domain_size 0 (begin pcs) (omega arith) (omega arith)
      ∙ sym (each pcs.domain_id (omega arith)),
)

-- Where the frequency of a feature stands.
abbrev base : ℕ → ℕ
base feature = if is_comparison_score_feature feature then without_score feature else feature

base_cases :
    (s : FeatureSet) (feature : ℕ)
    → IsSound s
    → feature < size
    → is_unseen s feature ≡ done false
    → (base feature < size)
      × (feature_to_domain_id (base feature) ≡ feature_to_domain_id feature)
      × (s.frequencies (base feature) ≢ 0)
unfolding IsSound IsBounded
base_cases s feature (h, counts, (frequencies, scores, compared)) l e =
    elim (Bool-cases (is_comparison_score_feature feature)) [
      | inl c ↦
          let b = base_of_index feature c in
          rw c (
            (score_bounds feature c).1,
            ground arith,
            elim (seen_frequency s feature c e) [
              | inl k ↦
                  subst (λ (t : ℕ). s.frequencies t ≢ 0) b
                    (compared (cmp_score_feature_index feature) (score_bounds feature c).0
                      (omega arith))
              | inr k ↦ k
            ],
          )
      | inr c ↦
          let p = done-injective (sym (is_unseen_plain s feature c l) ∙ e) in
          rw c (l, refl, λ z. ground arith)
    ]

weight_pos : (n m f : ℕ) → m ≢ 0 → m ≤ n → f ≢ 0 → f < 256 → 0 < n / m * (256 / f)
weight_pos n m f hm hn hf hl =
    product (n / m) (256 / f) (λ z. absurd (omega (arith, div_eq_zero n m z (omega arith))))
      (λ z. absurd (omega (arith, div_eq_zero 256 f z (omega arith))))
  where
    product : (a b : ℕ) → a ≢ 0 → b ≢ 0 → 0 < a * b
    product a b ha hb = grind arith

-- A turn of the loop of ComputeRarityWeight on a feature that was seen.
rarity_step :
    (s : FeatureSet) (feature : ℕ)
    → IsSound s
    → s.frequency_threshold < 256
    → feature < size
    → is_unseen s feature ≡ done false
    → (s.features_per_domain (feature_to_domain_id feature) ≢ 0)
      × (base feature < size)
      × (s.frequencies (base feature) ≢ 0)
      × (0
          < (s.num_features / s.features_per_domain (feature_to_domain_id feature))
            * (256 / s.frequencies (base feature)))
unfolding IsSound IsCounted IsBounded frequency_threshold_of
rarity_step s feature p t l e =
    let (b, d, n) = base_cases s feature p l e in
    let (h, (total, each), (frequencies, scores, compared)) = p in
    let g = s.frequencies in
    let dom = feature_to_domain_id feature in
    let low : domain_size * dom ≤ base feature = omega arith in
    let high : base feature < domain_size * dom + domain_size = omega arith in
    let dom_lt : dom < num_domains = omega arith in
    let some_in = nonzero_pos g (base feature) (domain_size * dom) domain_size n low high in
    let part = nonzero_part g (domain_size * dom) domain_size size (omega arith) in
    let within = frequencies (base feature) in
    let counter = each dom dom_lt in
    let bound : g (base feature) < 256 = ground arith in
    let divisor : s.features_per_domain dom ≢ 0 = λ z. some_in (omega arith) in
    (
      divisor,
      b,
      n,
      weight_pos s.num_features (s.features_per_domain dom) (g (base feature)) divisor (omega arith)
          n bound,
    )

-- The features that a sound set has seen have a weight, and each of them adds at least one to it.
compute_rarity_weight_lem :
    (s : FeatureSet) (features : List ℕ)
    → IsSound s
    → s.frequency_threshold < 256
    → All (λ feature. (feature < size) × (is_unseen s feature ≡ done false)) features
    → (weight : ℕ) × (compute_rarity_weight s features ≡ done weight) × (length features ≤ weight)
unfolding compute_rarity_weight
compute_rarity_weight_lem s [] p t l = (0, refl, omega arith)
compute_rarity_weight_lem s (feature ∷ features) p t ((l, e), ls) =
    let (rest, es, more) = compute_rarity_weight_lem s features p t ls in
    let (counter, b, n, pos) = rarity_step s feature p t l e in
    let dom = s.features_per_domain (feature_to_domain_id feature) in
    let not_zero : (dom == 0) ≡ false = ground arith in
    let positive : ltb 0 (s.frequencies (base feature)) ≡ true = ground arith in
    (
      s.num_features / dom * (256 / s.frequencies (base feature)) + rest,
      rw (not_zero, lt→ltb (base feature) size b, positive, es) refl,
      omega (arith, pos, more),
    )
