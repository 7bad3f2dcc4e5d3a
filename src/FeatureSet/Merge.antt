-- ===== src/FeatureSet/Merge.antt =====
-- MergeFeatures.
use fuzztest.Common.{
  ℕ, ◌<◌, ◌≤◌, ◌≡◌, ◌≢◌, ◌⊎◌, ◌∙◌, inl, inr, refl, sym, ap, Bool, true, false, List, [], ◌∷◌, ltb,
  ◌==◌, if◌then◌else◌, arith, All, Bool-cases,
}
use fuzztest.Common.Abort.{done, done-injective}
use fuzztest.Feature.{
  cmp_score, without_score, cmp_score_feature_index, is_comparison_score_feature,
}
use fuzztest.FeatureSet.{
  FeatureSet, size, scores_size, update, frequency_threshold_of, is_unseen, has_unseen_features,
  new_frequency, counted, count_feature, merge_feature, merge_features,
}

-- What later merges never take back: a feature that has a frequency keeps one, and scores only
-- grow. The threshold is a constant of the set.
pub Grows : FeatureSet → FeatureSet → Type 0
Grows s t =
    ((i : ℕ) → s.frequencies i ≢ 0 → t.frequencies i ≢ 0)
    × ((i : ℕ) → s.cmp_scores i ≤ t.cmp_scores i)
    × (t.frequency_threshold ≡ s.frequency_threshold)

counted-Grows :
    (s : FeatureSet) (unseen : Bool) (feature : ℕ)
    → 0 < s.frequency_threshold
    → Grows s (counted s unseen feature (s.frequencies feature))
unfolding Grows counted new_frequency frequency_threshold_of
counted-Grows s unseen feature h = ((λ i n. ground arith), (λ i. omega arith), refl)

counted_scores :
    (s : FeatureSet) (unseen : Bool) (feature freq i : ℕ)
    → (counted s unseen feature freq).cmp_scores i ≡ s.cmp_scores i
unfolding counted
counted_scores s unseen feature freq i = refl

-- What a turn does to an index below `size`.
pub count_feature_done :
    (s : FeatureSet) (unseen : Bool) (feature : ℕ)
    → feature < size
    → count_feature s unseen feature ≡ done (counted s unseen feature (s.frequencies feature))
unfolding count_feature
count_feature_done s unseen feature h = ground arith

counted_seen :
    (s : FeatureSet) (unseen : Bool) (feature : ℕ)
    → 0 < s.frequency_threshold
    → (counted s unseen feature (s.frequencies feature)).frequencies feature ≢ 0
unfolding counted new_frequency frequency_threshold_of
counted_seen s unseen feature h = λ e. ground arith

Grows-refl : (s : FeatureSet) → Grows s s
unfolding Grows
Grows-refl s = ((λ i n. n), (λ i. omega arith), refl)

Grows-trans : (s t u : FeatureSet) → Grows s t → Grows t u → Grows s u
unfolding Grows
Grows-trans s t u (f, m, e) (f', m', e') =
    ((λ i n. f' i (f i n)), (λ i. omega (arith, m i, m' i)), e' ∙ e)

pub compare_cases : (x y : ℕ) → (x < y) ⊎ (y < x) ⊎ (y ≡ x)
compare_cases x y = omega arith

pub score_bounds :
    (feature : ℕ)
    → is_comparison_score_feature feature ≡ true
    → (cmp_score_feature_index feature < scores_size) × (without_score feature < size)
score_bounds feature h = (ground arith, ground arith)

-- Whether a feature of a comparison is unseen, by the score seen, its score and the frequency.
abbrev unseen_by : ℕ → ℕ → ℕ → Bool
unseen_by seen score freq =
    if ltb seen score then true else if ltb score seen then false else freq == 0

unseen_by_mono :
    (seen seen' score freq freq' : ℕ)
    → seen ≤ seen'
    → (freq ≢ 0 → freq' ≢ 0)
    → unseen_by seen score freq ≡ false
    → unseen_by seen' score freq' ≡ false
unseen_by_mono seen seen' score freq freq' h k e = ground arith

unseen_by_equal :
    (seen score freq : ℕ) → seen ≡ score → freq ≢ 0 → unseen_by seen score freq ≡ false
unseen_by_equal seen score freq e n = ground arith

is_unseen_score :
    (s : FeatureSet) (feature : ℕ)
    → is_comparison_score_feature feature ≡ true
    → is_unseen s feature
      ≡ done (
          unseen_by
            (s.cmp_scores (cmp_score_feature_index feature))
            (cmp_score feature)
            (s.frequencies (without_score feature)))
unfolding is_unseen
is_unseen_score s feature h = let (i, b) = score_bounds feature h in ground arith

pub is_unseen_plain :
    (s : FeatureSet) (feature : ℕ)
    → is_comparison_score_feature feature ≡ false
    → feature < size
    → is_unseen s feature ≡ done (s.frequencies feature == 0)
unfolding is_unseen
is_unseen_plain s feature h l = ground arith

-- A comparison that is seen has a score that reaches the feature's, and a frequency if they agree.
pub seen_frequency :
    (s : FeatureSet) (feature : ℕ)
    → is_comparison_score_feature feature ≡ true
    → is_unseen s feature ≡ done false
    → (cmp_score feature < s.cmp_scores (cmp_score_feature_index feature))
      ⊎ (s.frequencies (without_score feature) ≢ 0)
seen_frequency s feature c h =
    let e = done-injective (sym (is_unseen_score s feature c) ∙ h) in
    seen_cases (s.cmp_scores (cmp_score_feature_index feature)) (cmp_score feature)
      (s.frequencies (without_score feature)) e
  where
    seen_cases :
        (seen score freq : ℕ) → unseen_by seen score freq ≡ false → (score < seen) ⊎ (freq ≢ 0)
    seen_cases seen score freq e = ground arith

-- A seen feature stays seen while the set grows.
seen-Grows :
    (s t : FeatureSet) (feature : ℕ)
    → Grows s t
    → feature < size
    → is_unseen s feature ≡ done false
    → is_unseen t feature ≡ done false
unfolding Grows
seen-Grows s t feature (f, m, e) l h = elim (Bool-cases (is_comparison_score_feature feature)) [
  | inl c ↦
      let i = cmp_score_feature_index feature in
      let b = without_score feature in
      let before = done-injective (sym (is_unseen_score s feature c) ∙ h) in
      is_unseen_score t feature c
      ∙ ap done (
          unseen_by_mono (s.cmp_scores i) (t.cmp_scores i) (cmp_score feature) (s.frequencies b)
            (t.frequencies b) (m i) (f b) before)
  | inr c ↦
      let before = done-injective (sym (is_unseen_plain s feature c l) ∙ h) in
      let kept = f feature in is_unseen_plain t feature c l ∙ ap done (ground arith)
]

abbrev pub raised : FeatureSet → ℕ → FeatureSet
raised s feature = record s {
  cmp_scores = update s.cmp_scores (cmp_score_feature_index feature) (cmp_score feature);
}

raised-Grows :
    (s : FeatureSet) (feature : ℕ)
    → s.cmp_scores (cmp_score_feature_index feature) < cmp_score feature
    → Grows s (raised s feature)
unfolding Grows
raised-Grows s feature k = ((λ i n. n), (λ i. ground arith), refl)

raised_score :
    (s : FeatureSet) (unseen : Bool) (feature j freq : ℕ)
    → (counted (raised s feature) unseen j freq).cmp_scores (cmp_score_feature_index feature)
      ≡ cmp_score feature
unfolding counted
raised_score s unseen feature j freq = ground arith

-- A turn on a feature of a comparison: its score is raised, lower than the one seen, or equal.
pub merge_feature_score :
    (s : FeatureSet) (feature seen : ℕ)
    → is_comparison_score_feature feature ≡ true
    → s.cmp_scores (cmp_score_feature_index feature) ≡ seen
    → ((seen < cmp_score feature)
        × (merge_feature s feature ≡ count_feature (raised s feature) true (without_score feature)))
      ⊎ ((cmp_score feature < seen) × (merge_feature s feature ≡ done s))
      ⊎ ((cmp_score feature ≡ seen)
          × (merge_feature s feature ≡ count_feature s false (without_score feature)))
unfolding merge_feature
merge_feature_score s feature seen c e =
    let (i, b) = score_bounds feature c in
    elim (compare_cases seen (cmp_score feature)) [
      | inl l ↦ inl (l, ground arith)
      | inr (inl l) ↦ inr (inl (l, ground arith))
      | inr (inr l) ↦ inr (inr (l, ground arith))
    ]

-- A turn of MergeFeatures on a feature below `size` succeeds, and the feature is then seen.
pub merge_feature_lem :
    (s : FeatureSet) (feature : ℕ)
    → 0 < s.frequency_threshold
    → feature < size
    → (t : FeatureSet) × (merge_feature s feature ≡ done t)
      × Grows s t
      × (is_unseen t feature ≡ done false)
unfolding merge_feature
merge_feature_lem s feature h l = elim (Bool-cases (is_comparison_score_feature feature)) [
  | inl c ↦
      let b = without_score feature in
      let i = cmp_score_feature_index feature in
      let l' = (score_bounds feature c).1 in
      elim (merge_feature_score s feature (s.cmp_scores i) c refl) [
        | inl (k, e) ↦
            let r = raised s feature in
            let t = counted r true b (r.frequencies b) in
            let seen = counted_seen r true b h in
            (
              t,
              e ∙ count_feature_done r true b l',
              Grows-trans s r t (raised-Grows s feature k) (counted-Grows r true b h),
              is_unseen_score t feature c
                  ∙ ap done (
                      unseen_by_equal (t.cmp_scores i) (cmp_score feature) (t.frequencies b)
                        (raised_score s true feature b (s.frequencies b)) seen),
            )
        | inr (inl (k, e)) ↦
            (s, e, Grows-refl s, is_unseen_score s feature c ∙ ap done (ground arith))
        | inr (inr (k, e)) ↦
            let t = counted s false b (s.frequencies b) in
            let seen = counted_seen s false b h in
            (
              t,
              e ∙ count_feature_done s false b l',
              counted-Grows s false b h,
              is_unseen_score t feature c
                  ∙ ap done (
                      unseen_by_equal (t.cmp_scores i) (cmp_score feature) (t.frequencies b)
                        (counted_scores s false b (s.frequencies b) i ∙ sym k) seen),
            )
      ]
  | inr c ↦
      let n = s.frequencies feature in
      let t = counted s false feature n in
      let seen = counted_seen s false feature h in
      (
        t,
        rw c (count_feature_done s false feature l),
        counted-Grows s false feature h,
        is_unseen_plain t feature c l ∙ ap done (ground arith),
      )
]

Grows-threshold :
    (s t : FeatureSet) → Grows s t → 0 < s.frequency_threshold → 0 < t.frequency_threshold
unfolding Grows
Grows-threshold s t (f, m, e) h = omega arith

merge_features_done :
    (s : FeatureSet) (features : List ℕ)
    → 0 < s.frequency_threshold
    → All (λ feature. feature < size) features
    → (t : FeatureSet) × (merge_features s features ≡ done t)
      × Grows s t
      × (has_unseen_features t features ≡ done false)
unfolding merge_features has_unseen_features
merge_features_done s [] h l = (s, refl, Grows-refl s, refl)
merge_features_done s (feature ∷ features) h (l, ls) =
    let (s', e, g, seen) = merge_feature_lem s feature h l in
    let (t, es, gs, all_seen) = merge_features_done s' features (Grows-threshold s s' g h) ls in
    (t, rw e es, Grows-trans s s' t g gs, rw (seen-Grows s' t feature gs l seen, all_seen))

-- Of a set with a positive threshold, MergeFeatures succeeds on features below kSize. Then none of
-- them is unseen, and a feature below kSize that was seen before still is.
pub merge_features-has_unseen_features :
    (s : FeatureSet) (features : List ℕ)
    → 0 < s.frequency_threshold
    → All (λ feature. feature < size) features
    → (t : FeatureSet) × (merge_features s features ≡ done t)
      × (has_unseen_features t features ≡ done false)
      × ((feature : ℕ)
          → feature < size
          → is_unseen s feature ≡ done false
          → is_unseen t feature ≡ done false)
merge_features-has_unseen_features s features h l =
    let (t, e, g, seen) = merge_features_done s features h l in
    (t, e, seen, λ feature. seen-Grows s t feature g)
