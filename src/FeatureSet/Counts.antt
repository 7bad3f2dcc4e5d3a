-- ===== src/FeatureSet/Counts.antt =====
-- The counters of a FeatureSet.
pub mod Nonzero
use fuzztest.Common.{
  ℕ, zero, suc, ◌+◌, ◌-◌, ◌*◌, ◌/◌, ◌%◌, ◌^◌, ◌<◌, ◌≤◌, ◌≡◌, ◌≢◌, ◌⊎◌, ◌∙◌, inl, inr, refl, sym, ap,
  Bool, true, false, List, [], ◌∷◌, ltb, leb, ◌==◌, if◌then◌else◌, arith, All, Bool-cases, length,
}
use fuzztest.Common.Abort.{Outcome, aborted, done, done-injective}
use fuzztest.Feature.{
  begin, end, contains, cmp_mod_diff, domain_size, num_domains, feature_to_domain_id, cmp_score,
  without_score, cmp_score_feature_index, is_comparison_score_feature, pcs, convert_to_me,
}
use fuzztest.FeatureSet.{
  FeatureSet, size, scores_size, feature_set, update, frequency_threshold_of, is_unseen,
  new_frequency, counted, count_feature, merge_feature, merge_features,
}
use fuzztest.FeatureSet.Merge.{raised, score_bounds, merge_feature_score, count_feature_done}
use fuzztest.FeatureSet.Counts.Nonzero.{
  nonzero, nonzero-update_new, nonzero-update_old, nonzero-update_out, update_succ, update_ne,
}

-- The counters count the features with a frequency, of the set and of each domain.
unfoldable pub IsCounted : FeatureSet → Type 0
IsCounted s =
    (s.num_features ≡ nonzero s.frequencies 0 size)
    × ((d : ℕ)
        → d < num_domains
        → s.features_per_domain d ≡ nonzero s.frequencies (domain_size * d) domain_size)

-- Frequencies stay within the thresholds, and a comparison with a score has a frequency.
unfoldable pub IsBounded : FeatureSet → Type 0
IsBounded s =
    ((i : ℕ) → s.frequencies i ≤ frequency_threshold_of s i)
    × ((i : ℕ) → s.cmp_scores i < 64)
    × ((i : ℕ)
        → i < scores_size
        → s.cmp_scores i ≢ 0
        → s.frequencies (begin cmp_mod_diff + 64 * i) ≢ 0)

new_frequency_bounds :
    (s : FeatureSet) (unseen : Bool) (feature freq : ℕ)
    → 0 < s.frequency_threshold
    → (new_frequency s unseen feature freq ≢ 0)
      × (freq ≤ frequency_threshold_of s feature
          → new_frequency s unseen feature freq ≤ frequency_threshold_of s feature)
unfolding new_frequency frequency_threshold_of
new_frequency_bounds s unseen feature freq h = (λ e. ground arith, λ k. ground arith)

-- Whether a domain's counter moves, with the domain read off the feature.
domain_cases :
    (d feature : ℕ)
    → ((d ≡ feature_to_domain_id feature)
        × (domain_size * d ≤ feature)
        × (feature < domain_size * d + domain_size))
      ⊎ ((d ≢ feature_to_domain_id feature)
          × ((j : ℕ) → domain_size * d ≤ j → j < domain_size * d + domain_size → feature ≢ j))
domain_cases d feature = elim (Bool-cases (d == feature_to_domain_id feature)) [
  | inl e ↦ inl (ground arith, ground arith, ground arith)
  | inr e ↦ inr (ground arith, λ j a b. ground arith)
]

counted-IsCounted :
    (s : FeatureSet) (unseen : Bool) (feature : ℕ)
    → 0 < s.frequency_threshold
    → feature < size
    → IsCounted s
    → IsCounted (counted s unseen feature (s.frequencies feature))
unfolding IsCounted counted
counted-IsCounted s unseen feature h l (total, each) =
    let v = new_frequency s unseen feature (s.frequencies feature) in
    let (p, bound) = new_frequency_bounds s unseen feature (s.frequencies feature) h in
    let g = s.frequencies in
    elim (Bool-cases (g feature == 0)) [
      | inl e ↦
          let zero_before : g feature ≡ 0 = ground arith in
          (
            rw e (
                ap (λ (n : ℕ). suc n) total
                ∙ sym (
                    nonzero-update_new g feature v p 0 size zero_before (omega arith)
                      (omega arith))),
            λ d k. rw e (elim (domain_cases d feature) [
              | inl (q, low, high) ↦ omega (
                arith,
                update_succ s.features_per_domain (feature_to_domain_id feature) d q,
                each d k,
                nonzero-update_new g feature v p (domain_size * d) domain_size zero_before low high,
              )
              | inr (q, out) ↦
                  update_ne s.features_per_domain (feature_to_domain_id feature)
                    (suc (s.features_per_domain (feature_to_domain_id feature))) d q
                  ∙ each d k
                  ∙ sym (nonzero-update_out g feature v p (domain_size * d) domain_size out)
            ]),
          )
      | inr e ↦
          let nonzero_before : g feature ≢ 0 = λ z. ground arith in
          (
            rw e (total ∙ sym (nonzero-update_old g feature v p 0 size nonzero_before)),
            λ d k. rw e (
                each d k
                ∙ sym (
                    nonzero-update_old g feature v p (domain_size * d) domain_size nonzero_before)),
          )
    ]

-- A set with right counters and arrays in their bounds.
unfoldable pub IsSound : FeatureSet → Type 0
IsSound s = (0 < s.frequency_threshold) × IsCounted s × IsBounded s

-- The feature that is counted needs no frequency before.
counted-IsSound :
    (s : FeatureSet) (unseen : Bool) (feature : ℕ)
    → 0 < s.frequency_threshold
    → feature < size
    → ((i : ℕ) → s.frequencies i ≤ frequency_threshold_of s i)
    → ((i : ℕ) → s.cmp_scores i < 64)
    → ((i : ℕ)
        → i < scores_size
        → s.cmp_scores i ≢ 0
        → begin cmp_mod_diff + 64 * i ≢ feature
        → s.frequencies (begin cmp_mod_diff + 64 * i) ≢ 0)
    → IsCounted s
    → IsSound (counted s unseen feature (s.frequencies feature))
unfolding IsSound IsBounded counted frequency_threshold_of
counted-IsSound s unseen feature h l frequencies scores compared counts =
    let (p, bound) = new_frequency_bounds s unseen feature (s.frequencies feature) h in
    let at = bound (frequencies feature) in
    (
      h,
      counted-IsCounted s unseen feature h l counts,
      (
        (λ i.
            update_le s.frequencies (frequency_threshold_of s) feature
              (new_frequency s unseen feature (s.frequencies feature)) i (frequencies i) at),
        scores,
        (λ i l n.
            update_nonzero s.frequencies feature
              (new_frequency s unseen feature (s.frequencies feature)) (begin cmp_mod_diff + 64 * i)
              p (compared i l n)),
      ),
    )
  where
    update_le : (g b : ℕ → ℕ) (i v j : ℕ) → g j ≤ b j → v ≤ b i → update g i v j ≤ b j
    update_le g b i v j h k = elim (Bool-cases (j == i)) [
      | inl e ↦ let q : j ≡ i = ground arith in let w : b j ≡ b i = ap b q in rw e (omega arith)
      | inr e ↦ rw e h
    ]

    update_nonzero : (g : ℕ → ℕ) (i v j : ℕ) → v ≢ 0 → (j ≢ i → g j ≢ 0) → update g i v j ≢ 0
    update_nonzero g i v j p k = λ e. ground arith

pub base_of_index :
    (feature : ℕ)
    → is_comparison_score_feature feature ≡ true
    → begin cmp_mod_diff + 64 * cmp_score_feature_index feature ≡ without_score feature
base_of_index feature c = ground arith

raised-IsSound :
    (s : FeatureSet) (feature : ℕ)
    → is_comparison_score_feature feature ≡ true
    → IsSound s
    → IsSound (
        counted
          (raised s feature)
          true
          (without_score feature)
          (s.frequencies (without_score feature)))
unfolding IsSound IsBounded IsCounted frequency_threshold_of
raised-IsSound s feature c (h, counts, (frequencies, scores, compared)) =
    counted-IsSound (raised s feature) true (without_score feature) h (score_bounds feature c).1
      frequencies (λ i. let before = scores i in ground arith)
      (λ j l n q. compared j l (other j n q)) counts
  where
    other :
        (j : ℕ)
        → update s.cmp_scores (cmp_score_feature_index feature) (cmp_score feature) j ≢ 0
        → begin cmp_mod_diff + 64 * j ≢ without_score feature
        → s.cmp_scores j ≢ 0
    other j n q =
        let away : j ≢ cmp_score_feature_index feature =
          λ e. let b = base_of_index feature c in q (omega arith) in
        λ z.
          n (
            update_ne s.cmp_scores (cmp_score_feature_index feature) (cmp_score feature) j away ∙ z)

pub counted_old-IsSound :
    (s : FeatureSet) (feature : ℕ)
    → feature < size
    → IsSound s
    → IsSound (counted s false feature (s.frequencies feature))
unfolding IsSound IsBounded
counted_old-IsSound s feature l (h, counts, (frequencies, scores, compared)) =
    counted-IsSound s false feature h l frequencies scores (λ j k n q. compared j k n) counts

merge_feature-IsSound :
    (s : FeatureSet) (feature : ℕ)
    → feature < size
    → IsSound s
    → (t : FeatureSet) × (merge_feature s feature ≡ done t) × IsSound t
unfolding merge_feature
merge_feature-IsSound s feature l p = elim (Bool-cases (is_comparison_score_feature feature)) [
  | inl c ↦
      let b = without_score feature in
      let l' = (score_bounds feature c).1 in
      elim (merge_feature_score s feature (s.cmp_scores (cmp_score_feature_index feature)) c refl) [
        | inl (k, e) ↦
            let r = raised s feature in
            (
              counted r true b (r.frequencies b),
              e ∙ count_feature_done r true b l',
              raised-IsSound s feature c p,
            )
        | inr (inl (k, e)) ↦ (s, e, p)
        | inr (inr (k, e)) ↦ (
          counted s false b (s.frequencies b),
          e ∙ count_feature_done s false b l',
          counted_old-IsSound s b l' p,
        )
      ]
  | inr c ↦ (
    counted s false feature (s.frequencies feature),
    rw c (count_feature_done s false feature l),
    counted_old-IsSound s feature l p,
  )
]

-- From a sound set, MergeFeatures on features below kSize succeeds and leaves a sound set: the
-- counters count the features that have a frequency, in all and per domain, no frequency is above
-- its threshold, scores have six bits, and what has a score has a frequency.
pub merge_features-IsSound :
    (s : FeatureSet) (features : List ℕ)
    → IsSound s
    → All (λ feature. feature < size) features
    → (t : FeatureSet) × (merge_features s features ≡ done t) × IsSound t
unfolding merge_features
merge_features-IsSound s [] p l = (s, refl, p)
merge_features-IsSound s (feature ∷ features) p (l, ls) =
    let (s', e, p') = merge_feature-IsSound s feature l p in
    let (t, es, q) = merge_features-IsSound s' features p' ls in (t, rw e es, q)
