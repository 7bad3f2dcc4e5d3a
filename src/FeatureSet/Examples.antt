-- ===== src/FeatureSet/Examples.antt =====
-- The theorems on feature sets at concrete inputs.
use fuzztest.Common.{
  ℕ, ◌<◌, ◌≤◌, ◌≡◌, refl, true, false, not, List, [], ◌∷◌, ◌==◌, arith, All, length,
}
use fuzztest.Common.Abort.{done}
use fuzztest.FeatureSet.{
  FeatureSet, size, counted, feature_set, is_unseen, has_unseen_features, merge_features,
  prune_features_and_count_unseen, prune_discarded_domains,
}
use fuzztest.FeatureSet.Merge.{merge_features-has_unseen_features}
use fuzztest.FeatureSet.Counts.{IsSound, counted_old-IsSound, merge_features-IsSound}
use fuzztest.FeatureSet.Prune.{prune_features_and_count_unseen_lem}
use fuzztest.FeatureSet.Reports.{feature_set-IsSound}

-- A new set, and features with two scores of one comparison, of which the first is lower.
abbrev new_set : FeatureSet
new_set = feature_set 2 (λ d. d == 4)

abbrev features : List ℕ
features = 805306371 ∷ 805306375 ∷ 134217730 ∷ 536870912 ∷ 134217730 ∷ 134217730 ∷ []

new_set-IsSound : IsSound new_set
new_set-IsSound = feature_set-IsSound 2 (λ d. d == 4) (omega arith)

features_below_size : All (λ (feature : ℕ). feature < size) features
features_below_size =
    (omega arith, (omega arith, (omega arith, (omega arith, (omega arith, (omega arith, tt))))))

-- A test.
new_unseen : has_unseen_features new_set features ≡ done true
unfolding has_unseen_features is_unseen
new_unseen = refl

merge_features-has_unseen_features_example :
    (t : FeatureSet) × (merge_features new_set features ≡ done t)
    × (has_unseen_features t features ≡ done false)
    × ((feature : ℕ)
        → feature < size
        → is_unseen new_set feature ≡ done false
        → is_unseen t feature ≡ done false)
merge_features-has_unseen_features_example =
    merge_features-has_unseen_features new_set features (omega arith) features_below_size

merge_features-IsSound_example :
    (t : FeatureSet) × (merge_features new_set features ≡ done t) × IsSound t
merge_features-IsSound_example =
    merge_features-IsSound new_set features new_set-IsSound features_below_size

prune_features_and_count_unseen_lem_example :
    (kept : List ℕ) × (count : ℕ) × (prune_features_and_count_unseen new_set features
      ≡ done (kept, count))
    × (prune_features_and_count_unseen new_set kept ≡ done (kept, count))
    × (prune_discarded_domains new_set kept ≡ kept)
    × (count ≤ length kept)
    × (has_unseen_features new_set (prune_discarded_domains new_set features)
        ≡ done (not (count == 0)))
prune_features_and_count_unseen_lem_example = prune_features_and_count_unseen_lem new_set features

-- The set after one PC.
abbrev one_pc : FeatureSet
one_pc = counted new_set false 134217730 0

one_pc-IsSound : IsSound one_pc
one_pc-IsSound = counted_old-IsSound new_set 134217730 (omega arith) new_set-IsSound
