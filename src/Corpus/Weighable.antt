-- ===== src/Corpus/Weighable.antt =====
-- What UpdateWeights of centipede/corpus.cc relies on: features that were seen and counted.
use fuzztest.Common.{
  ℕ, ◌+◌, ◌*◌, ◌/◌, ◌<◌, ◌≡◌, ◌≢◌, ◌∙◌, refl, sym, ap, true, false, not, List, [], ◌∷◌, ltb, ◌==◌,
  if◌then◌else◌, All, arith,
}
use fuzztest.Common.Abort.{done, done-injective}
use fuzztest.Feature.{feature_to_domain_id, is_comparison_score_feature, without_score}
use fuzztest.FeatureSet.{
  FeatureSet, frequency_at, prune_features_and_count_unseen, prune_discarded_domains,
  has_unseen_features, compute_rarity_weight,
}
use fuzztest.FeatureSet.Prune.{
  prune_features_and_count_unseen_lem, prune_features_and_count_unseen-All,
}
use fuzztest.Corpus.{CorpusRecord}

-- The feature has a frequency, and its domain has features.
abbrev pub IsCounted : FeatureSet → ℕ → Type 0
IsCounted fs feature =
    (fs.features_per_domain (feature_to_domain_id feature) ≢ 0)
    × ((n : ℕ) × (frequency_at fs
            (if is_comparison_score_feature feature then without_score feature else feature)
          ≡ done n)
        × (0 < n))

-- Of the features of the record, but those of discarded domains, none is unseen and all are counted.
abbrev pub IsWeighable : FeatureSet → CorpusRecord → Type 0
IsWeighable fs r =
    (has_unseen_features fs (prune_discarded_domains fs r.features) ≡ done false)
    × All (IsCounted fs) (prune_discarded_domains fs r.features)

compute_rarity_weight_total :
    (fs : FeatureSet) (features : List ℕ)
    → All (IsCounted fs) features
    → (weight : ℕ) × (compute_rarity_weight fs features ≡ done weight)
unfolding compute_rarity_weight
compute_rarity_weight_total fs [] h = (0, refl)
compute_rarity_weight_total fs (feature ∷ features) ((d, (n, e, pos)), h) =
    let (w, later) = compute_rarity_weight_total fs features h in
    let in_domain = fs.features_per_domain (feature_to_domain_id feature) in
    let some_features : (in_domain == 0) ≡ false = ground arith in
    let frequent : ltb 0 n ≡ true = ground arith in
    (fs.num_features / in_domain * (256 / n) + w, rw (some_features, e, frequent, later) refl)

-- The two checks on a weighable record pass.
pub weighable :
    (fs : FeatureSet) (r : CorpusRecord)
    → IsWeighable fs r
    → (features : List ℕ) × (weight : ℕ) × (prune_features_and_count_unseen fs r.features
        ≡ done (features, 0))
      × (compute_rarity_weight fs features ≡ done weight)
weighable fs r (seen, counted) =
    let (kept, count, e, _, _, _, has) = prune_features_and_count_unseen_lem fs r.features in
    let (kept', count', e', all) = prune_features_and_count_unseen-All fs r.features counted in
    let none_unseen : not (count == 0) ≡ false = done-injective (sym has ∙ seen) in
    let same : count ≡ count' = ap (λ (p : List ℕ × ℕ). p.1) (done-injective (sym e ∙ e')) in
    let zero_count : count' ≡ 0 = ground arith in
    let (w, q) = compute_rarity_weight_total fs kept' all in
    (kept', w, e' ∙ ap (λ (k : ℕ). done (kept', k)) zero_count, q)
