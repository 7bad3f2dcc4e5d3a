-- ===== src/FeatureSet/Prune.antt =====
-- PruneFeaturesAndCountUnseen beside HasUnseenFeatures and PruneDiscardedDomains.
use fuzztest.Common.{
  All, ℕ, suc, ◌<◌, ◌≤◌, ◌≡◌, ◌⊎◌, inl, inr, refl, ap, Bool, true, false, not, ◌||◌, List, [], ◌∷◌,
  ltb, leb, ◌==◌, arith, Bool-cases, lt→ltb, length,
}
use fuzztest.Common.Abort.{Outcome, done}
use fuzztest.Feature.{
  num_domains, feature_to_domain_id, cmp_score, without_score, cmp_score_feature_index,
  is_comparison_score_feature,
}
use fuzztest.FeatureSet.{
  FeatureSet, size, scores_size, frequency_threshold_of, should_discard_feature, is_unseen,
  has_unseen_features, prune_feature, prune_features_and_count_unseen, prune_discarded_domains,
}
use fuzztest.FeatureSet.Merge.{score_bounds, compare_cases}

kept_below :
    (s : FeatureSet) (feature : ℕ) → should_discard_feature s feature ≡ false → feature < size
kept_below s feature e = elim (Bool-cases (leb num_domains (feature_to_domain_id feature))) [
  | inl h ↦ absurd (ground arith)
  | inr h ↦ ground arith
]

-- The result of a turn on a feature that is not discarded: what HasUnseenFeatures finds, and
-- whether the feature is kept, which an unseen one always is.
Judged : FeatureSet → ℕ → Outcome (Bool × Bool) → Type 0
Judged s feature r =
    (k u : Bool) × (r ≡ done (k, u)) × (is_unseen s feature ≡ done u) × (u ≡ true → k ≡ true)

-- Whether a feature with this frequency is kept, if its score is not a new one.
abbrev keeps : FeatureSet → ℕ → Bool
keeps s feature =
    (s.frequencies feature == 0) || ltb (s.frequencies feature) (frequency_threshold_of s feature)

zero_is_kept :
    (s : FeatureSet) (feature : ℕ) → (s.frequencies feature == 0) ≡ true → keeps s feature ≡ true
zero_is_kept s feature e = rw e refl

plain-Judged :
    (s : FeatureSet) (feature : ℕ)
    → should_discard_feature s feature ≡ false
    → is_comparison_score_feature feature ≡ false
    → Judged s feature (prune_feature s feature)
unfolding prune_feature is_unseen Judged
plain-Judged s feature d c =
    let l = lt→ltb feature size (kept_below s feature d) in
    (
      keeps s feature,
      s.frequencies feature == 0,
      rw (d, c, l) refl,
      rw (c, l) refl,
      zero_is_kept s feature,
    )

score-Judged :
    (s : FeatureSet) (feature : ℕ)
    → should_discard_feature s feature ≡ false
    → is_comparison_score_feature feature ≡ true
    → Judged s feature (prune_feature s feature)
unfolding prune_feature is_unseen Judged
score-Judged s feature d c =
    let (i', b') = score_bounds feature c in
    let seen = s.cmp_scores (cmp_score_feature_index feature) in
    let base = without_score feature in
    let i = lt→ltb (cmp_score_feature_index feature) scores_size i' in
    let b = lt→ltb base size b' in
    elim (compare_cases seen (cmp_score feature)) [
      | inl l ↦
          let l' = lt→ltb seen (cmp_score feature) l in
          (true, true, rw (d, c, i, l', b) refl, rw (c, i, l') refl, λ e. refl)
      | inr (inl l) ↦
          let g : ltb seen (cmp_score feature) ≡ false = ground arith in
          let l' = lt→ltb (cmp_score feature) seen l in
          (false, false, rw (d, c, i, g, l') refl, rw (c, i, g, l') refl, λ e. e)
      | inr (inr l) ↦
          let g : ltb seen (cmp_score feature) ≡ false = ground arith in
          let g' : ltb (cmp_score feature) seen ≡ false = ground arith in
          (
            keeps s base,
            s.frequencies base == 0,
            rw (d, c, i, g, g', b) refl,
            rw (c, i, g, g', b) refl,
            zero_is_kept s base,
          )
    ]

prune_feature_cases :
    (s : FeatureSet) (feature : ℕ)
    → ((should_discard_feature s feature ≡ true) × (prune_feature s feature ≡ done (false, false)))
      ⊎ ((should_discard_feature s feature ≡ false) × Judged s feature (prune_feature s feature))
unfolding prune_feature
prune_feature_cases s feature = elim (Bool-cases (should_discard_feature s feature)) [
  | inl d ↦ inl (d, rw d refl)
  | inr d ↦ inr (
    d,
    elim (Bool-cases (is_comparison_score_feature feature)) [
      | inl c ↦ score-Judged s feature d c
      | inr c ↦ plain-Judged s feature d c
    ],
  )
]

suc-not_zero : (n : ℕ) → true ≡ not (suc n == 0)
suc-not_zero n = ground arith

-- PruneFeaturesAndCountUnseen succeeds on any features. What it leaves has no feature of a
-- discarded domain, and pruning it again leaves it whole with the same count. The count is zero
-- just when HasUnseenFeatures finds nothing among the features that PruneDiscardedDomains leaves.
pub prune_features_and_count_unseen_lem :
    (s : FeatureSet) (features : List ℕ)
    → (kept : List ℕ) × (count : ℕ) × (prune_features_and_count_unseen s features
        ≡ done (kept, count))
      × (prune_features_and_count_unseen s kept ≡ done (kept, count))
      × (prune_discarded_domains s kept ≡ kept)
      × (count ≤ length kept)
      × (has_unseen_features s (prune_discarded_domains s features) ≡ done (not (count == 0)))
unfolding prune_features_and_count_unseen prune_discarded_domains has_unseen_features Judged
prune_features_and_count_unseen_lem s [] = ([], 0, refl, refl, refl, omega arith, refl)
prune_features_and_count_unseen_lem s (feature ∷ features) =
    let (kept, n, e, again, clean, le, has) = prune_features_and_count_unseen_lem s features in
    elim (prune_feature_cases s feature) [
      | inl (d, p) ↦ (kept, n, rw (p, e) refl, again, clean, le, rw d has)
      | inr (d, (true, true, p, u, k)) ↦ (
        feature ∷ kept,
        suc n,
        rw (p, e) refl,
        rw (p, again) refl,
        rw (d, clean) refl,
        omega (arith, le),
        rw (d, u) (ap done (suc-not_zero n)),
      )
      | inr (d, (true, false, p, u, k)) ↦ (
        feature ∷ kept,
        n,
        rw (p, e) refl,
        rw (p, again) refl,
        rw (d, clean) refl,
        omega (arith, le),
        rw (d, u) has,
      )
      | inr (d, (false, true, p, u, k)) ↦ let z = k refl in absurd cc
      | inr (d, (false, false, p, u, k)) ↦
          (kept, n, rw (p, e) refl, again, clean, le, rw (d, u) has)
    ]

-- PruneFeaturesAndCountUnseen keeps only features that PruneDiscardedDomains keeps.
pub prune_features_and_count_unseen-All :
    {P : ℕ → Type 0} (s : FeatureSet) (features : List ℕ)
    → All P (prune_discarded_domains s features)
    → (kept : List ℕ) × (count : ℕ) × (prune_features_and_count_unseen s features
        ≡ done (kept, count))
      × All P kept
unfolding prune_features_and_count_unseen prune_discarded_domains Judged
prune_features_and_count_unseen-All s [] h = ([], 0, refl, tt)
prune_features_and_count_unseen-All {P} s (feature ∷ features) h =
    elim (prune_feature_cases s feature) [
      | inl (d, p) ↦
          let (kept, n, e, all) = prune_features_and_count_unseen-All s features (rw d at h) in
          (kept, n, rw (p, e) refl, all)
      | inr (d, (true, true, p, u, k)) ↦
          let (first, later) : P feature × All P (prune_discarded_domains s features) = rw d at h in
          let (kept, n, e, all) = prune_features_and_count_unseen-All s features later in
          (feature ∷ kept, suc n, rw (p, e) refl, (first, all))
      | inr (d, (true, false, p, u, k)) ↦
          let (first, later) : P feature × All P (prune_discarded_domains s features) = rw d at h in
          let (kept, n, e, all) = prune_features_and_count_unseen-All s features later in
          (feature ∷ kept, n, rw (p, e) refl, (first, all))
      | inr (d, (false, true, p, u, k)) ↦ let z = k refl in absurd cc
      | inr (d, (false, false, p, u, k)) ↦
          let (first, later) : P feature × All P (prune_discarded_domains s features) = rw d at h in
          let (kept, n, e, all) = prune_features_and_count_unseen-All s features later in
          (kept, n, rw (p, e) refl, all)
    ]
