-- ===== src/FeatureSet.antt =====
-- centipede/feature_set.{h,cc}: class FeatureSet. An MmapNoReserveArray is a function from its
-- indices; its operator[] checks that the index is below the array's size.
pub mod Merge
pub mod Prune
pub mod Counts
pub mod Reports
mod Examples
use fuzztest.Common.{
  ℕ, zero, suc, ◌+◌, ◌-◌, ◌*◌, ◌/◌, ◌%◌, ◌^◌, Bool, true, false, ◌||◌, not, List, [], ◌∷◌, ltb, leb,
  ◌==◌, if◌then◌else◌,
}
use fuzztest.Common.Abort.{Outcome, aborted, done, ◌>>=◌, ◌>>◌, check}
use fuzztest.Feature.{
  Domain, domain_size, begin, end, contains, convert_to_me, feature_to_domain_id, pcs, cmp_score,
  without_score, cmp_score_feature_index, is_comparison_score_feature, cmp_mod_diff, cmp_diff_log,
  cmp_score_bits, pc_pair, last_domain, num_domains,
}

-- kSize and kScoresSize.
abbrev pub size : ℕ
size = begin last_domain

abbrev pub scores_size : ℕ
scores_size = (end cmp_diff_log - begin cmp_mod_diff) / 2 ^ cmp_score_bits

pub record FeatureSet : Type 0 where
  pub frequency_threshold : ℕ
  pub frequencies : ℕ → ℕ
  pub cmp_scores : ℕ → ℕ
  pub num_features : ℕ
  pub features_per_domain : ℕ → ℕ
  pub should_discard_domain : ℕ → Bool

abbrev pub feature_set : ℕ → (ℕ → Bool) → FeatureSet
feature_set frequency_threshold should_discard_domain = record {
  frequency_threshold = frequency_threshold;
  frequencies = λ feature. 0;
  cmp_scores = λ index. 0;
  num_features = 0;
  features_per_domain = λ domain_id. 0;
  should_discard_domain = should_discard_domain;
}

abbrev pub frequency_at : FeatureSet → ℕ → Outcome ℕ
frequency_at s i = if ltb i size then done (s.frequencies i) else aborted

abbrev pub score_at : FeatureSet → ℕ → Outcome ℕ
score_at s i = if ltb i scores_size then done (s.cmp_scores i) else aborted

-- An array after the assignment of one element.
abbrev pub update : (ℕ → ℕ) → ℕ → ℕ → ℕ → ℕ
update g i v j = if j == i then v else g j

unfoldable pub frequency_threshold_of : FeatureSet → ℕ → ℕ
frequency_threshold_of s feature = if contains pc_pair feature then 1 else s.frequency_threshold

abbrev pub should_discard_feature : FeatureSet → ℕ → Bool
should_discard_feature s feature =
    leb num_domains (feature_to_domain_id feature)
    || s.should_discard_domain (feature_to_domain_id feature)

abbrev pub count_features : FeatureSet → Domain → ℕ
count_features s domain = s.features_per_domain domain.domain_id

abbrev pub count_features_of_all : FeatureSet → List Domain → ℕ
count_features_of_all s [] = 0
count_features_of_all s (domain ∷ domains) =
    s.features_per_domain domain.domain_id + count_features_of_all s domains

unfoldable pub frequency : FeatureSet → ℕ → Outcome ℕ
frequency s feature =
    if is_comparison_score_feature feature
    then (score_at s (cmp_score_feature_index feature) >>= λ seen_score.
        if cmp_score feature == seen_score then frequency_at s (without_score feature) else done 0)
    else frequency_at s feature

-- The turns `idx`, `idx + 1`, ... of the loop of ToCoveragePCs, `n` of them.
unfoldable pub coverage_loop : FeatureSet → ℕ → ℕ → List ℕ
coverage_loop s zero idx = []
coverage_loop s (suc n) idx =
    let rest = coverage_loop s n (suc idx) in
    if s.frequencies (convert_to_me pcs idx) == 0 then rest else idx ∷ rest

unfoldable pub to_coverage_pcs : FeatureSet → List ℕ
to_coverage_pcs s = coverage_loop s domain_size 0

-- One turn of the loop of HasUnseenFeatures: whether it returns true.
unfoldable pub is_unseen : FeatureSet → ℕ → Outcome Bool
is_unseen s feature =
    if is_comparison_score_feature feature
    then (score_at s (cmp_score_feature_index feature) >>= λ seen_score.
        if ltb seen_score (cmp_score feature)
        then done true
        else if ltb (cmp_score feature) seen_score
        then done false
        else frequency_at s (without_score feature) >>= λ freq. done (freq == 0))
    else frequency_at s feature >>= λ freq. done (freq == 0)

unfoldable pub has_unseen_features : FeatureSet → List ℕ → Outcome Bool
has_unseen_features s [] = done false
has_unseen_features s (feature ∷ features) =
    is_unseen s feature >>= λ unseen. if unseen then done true else has_unseen_features s features

-- The end of a turn of PruneFeaturesAndCountUnseen: whether the feature is kept and is unseen.
abbrev pub judge : FeatureSet → Bool → ℕ → Outcome (Bool × Bool)
judge s unseen feature = frequency_at s feature >>= λ freq.
    let unseen' = unseen || (freq == 0) in
    done ((unseen' || ltb freq (frequency_threshold_of s feature)), unseen')

unfoldable pub prune_feature : FeatureSet → ℕ → Outcome (Bool × Bool)
prune_feature s feature =
    if should_discard_feature s feature
    then done (false, false)
    else if is_comparison_score_feature feature
    then (score_at s (cmp_score_feature_index feature) >>= λ seen_score.
        if ltb seen_score (cmp_score feature)
        then judge s true (without_score feature)
        else if ltb (cmp_score feature) seen_score
        then done (false, false)
        else judge s false (without_score feature))
    else judge s false feature

-- The features that are left, and the count.
unfoldable pub prune_features_and_count_unseen : FeatureSet → List ℕ → Outcome (List ℕ × ℕ)
prune_features_and_count_unseen s [] = done ([], 0)
prune_features_and_count_unseen s (feature ∷ features) = prune_feature s feature >>= λ turn.
    prune_features_and_count_unseen s features >>= λ rest.
    done ((if turn.0 then feature ∷ rest.0 else rest.0), (if turn.1 then suc rest.1 else rest.1))

unfoldable pub prune_discarded_domains : FeatureSet → List ℕ → List ℕ
prune_discarded_domains s [] = []
prune_discarded_domains s (feature ∷ features) =
    let rest = prune_discarded_domains s features in
    if should_discard_feature s feature then rest else feature ∷ rest

-- What `freq` becomes, where a score was raised if `unseen`.
unfoldable pub new_frequency : FeatureSet → Bool → ℕ → ℕ → ℕ
new_frequency s unseen feature freq =
    let freq' = if freq == 0 then freq else if unseen then 0 else freq in
    if ltb freq' (frequency_threshold_of s feature) then suc freq' else freq'

-- The end of a turn of MergeFeatures, where `freq` is the value of `frequencies_[feature]`.
unfoldable pub counted : FeatureSet → Bool → ℕ → ℕ → FeatureSet
counted s unseen feature freq =
    let domain_id = feature_to_domain_id feature in
    record s {
      num_features = if freq == 0 then suc s.num_features else s.num_features;
      features_per_domain =
          if freq == 0
          then update s.features_per_domain domain_id (suc (s.features_per_domain domain_id))
          else s.features_per_domain;
      frequencies = update s.frequencies feature (new_frequency s unseen feature freq);
    }

unfoldable pub count_feature : FeatureSet → Bool → ℕ → Outcome FeatureSet
count_feature s unseen feature =
    frequency_at s feature >>= λ freq. done (counted s unseen feature freq)

unfoldable pub merge_feature : FeatureSet → ℕ → Outcome FeatureSet
merge_feature s feature =
    if is_comparison_score_feature feature
    then (score_at s (cmp_score_feature_index feature) >>= λ seen_score.
        if ltb seen_score (cmp_score feature)
        then count_feature
            (record s {
              cmp_scores =
                  update s.cmp_scores (cmp_score_feature_index feature) (cmp_score feature);
            })
            true (without_score feature)
        else if ltb (cmp_score feature) seen_score
        then done s
        else count_feature s false (without_score feature))
    else count_feature s false feature

unfoldable pub merge_features : FeatureSet → List ℕ → Outcome FeatureSet
merge_features s [] = done s
merge_features s (feature ∷ features) = merge_feature s feature >>= λ s'. merge_features s' features

-- Every term of the sum is an integer, which a double holds exactly while the sum is below 2 ^ 53.
unfoldable pub compute_rarity_weight : FeatureSet → List ℕ → Outcome ℕ
compute_rarity_weight s [] = done 0
compute_rarity_weight s (feature ∷ features) =
    let features_in_domain = s.features_per_domain (feature_to_domain_id feature) in
    let domain_weight = s.num_features / features_in_domain in
    let feature' = if is_comparison_score_feature feature then without_score feature else feature in
    check (not (features_in_domain == 0)) >> frequency_at s feature' >>= λ feature_frequency.
    check (ltb 0 feature_frequency) >> compute_rarity_weight s features >>= λ weight.
    done (domain_weight * (256 / feature_frequency) + weight)
