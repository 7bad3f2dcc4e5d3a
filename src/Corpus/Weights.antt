-- ===== src/Corpus/Weights.antt =====
-- centipede/corpus.cc: Corpus::UpdateWeights. The arithmetic of `double` is a parameter.
use fuzztest.Common.{
  ℕ, suc, ◌+◌, ◌*◌, ◌%◌, ◌^◌, Bool, not, ◌&&◌, List, [], ◌∷◌, ◌==◌, if◌then◌else◌, length,
}
use fuzztest.Common.Abort.{Outcome, done, ◌>>=◌, ◌>>◌, check}
use fuzztest.RunnerResult.{Stats}
use fuzztest.FeatureSet.{FeatureSet, prune_features_and_count_unseen, compute_rarity_weight}
use fuzztest.WeightedDistribution.{WeightedDistribution, change_weight, recompute_internal_state}
use fuzztest.Corpus.{CorpusRecord, WeightMethod, uniform_weights, recency, feature_rarity, Corpus}
use fuzztest.Corpus.Frontier.{CoverageFrontier, compute_frontier_weight}

-- `of_nat` converts an integer, `quotient n d` is the literal n / d, and `to_uint64` cuts off the
-- fraction.
pub record Doubles : Type 1 where
  pub Double : Type 0
  pub of_nat : ℕ → Double
  pub quotient : ℕ → ℕ → Double
  pub plus : Double → Double → Double
  pub times : Double → Double → Double
  pub divided_by : Double → Double → Double
  pub less : Double → Double → Bool
  pub to_uint64 : Double → ℕ

-- operator== of ExecutionResult::Stats with the default.
abbrev pub is_default : Stats → Bool
is_default s =
    (s.prep_time_usec == 0)
    && (s.exec_time_usec == 0)
    && (s.post_time_usec == 0)
    && (s.peak_rss_mb == 0)

module _ (doubles : Doubles) where
  unfoldable pub base_weight_of : WeightMethod → ℕ → FeatureSet → List ℕ → Outcome doubles.Double
  base_weight_of uniform_weights i fs features = done (doubles.of_nat 1)
  base_weight_of recency i fs features = done (doubles.of_nat (i + 1))
  base_weight_of feature_rarity i fs features =
      compute_rarity_weight fs features >>= λ weight. done (doubles.of_nat weight)

  unfoldable pub weight_of_record :
      WeightMethod → ℕ → FeatureSet → CoverageFrontier → List ℕ → Outcome doubles.Double
  weight_of_record method i fs f [] = done (doubles.of_nat 0)
  weight_of_record method i fs f (feature ∷ features) =
      base_weight_of method i fs (feature ∷ features) >>= λ base_weight.
      compute_frontier_weight (feature ∷ features) f >>= λ frontier_weight.
      done (doubles.times base_weight (doubles.of_nat frontier_weight))

  -- The first loop: the records with fewer features, and their weights.
  unfoldable pub weigh :
      WeightMethod
      → FeatureSet
      → CoverageFrontier
      → ℕ
      → List CorpusRecord
      → Outcome (List CorpusRecord × List doubles.Double)
  weigh method fs f i [] = done ([], [])
  weigh method fs f i (r ∷ rs) =
      prune_features_and_count_unseen fs r.features >>= λ (features, unseen).
      check (unseen == 0) >> weight_of_record method i fs f features >>= λ weight.
      weigh method fs f (suc i) rs >>= λ (records, weights).
      done (record r { features = features } ∷ records, weight ∷ weights)

  -- The sum of the recorded execution times, and their number.
  unfoldable pub exec_times : doubles.Double → ℕ → List CorpusRecord → doubles.Double × ℕ
  exec_times total divider [] = (total, divider)
  exec_times total divider (r ∷ rs) =
      if is_default r.stats
      then exec_times total divider rs
      else exec_times (doubles.plus total (doubles.of_nat r.stats.exec_time_usec)) (suc divider) rs

  abbrev pub average_exec_time : List CorpusRecord → doubles.Double
  average_exec_time rs =
      let (total, divider) = exec_times (doubles.of_nat 0) 0 rs in
      if divider == 0 then doubles.of_nat 0 else doubles.divided_by total (doubles.of_nat divider)

  -- The scaled weight of a record with an execution time.
  unfoldable pub scaled_weight : doubles.Double → ℕ → doubles.Double → doubles.Double
  scaled_weight average time w =
      let t = doubles.of_nat time in
      if doubles.less (doubles.times average (doubles.of_nat 10)) t
      then doubles.times w (doubles.quotient 1 10)
      else if doubles.less (doubles.times average (doubles.of_nat 4)) t
      then doubles.times w (doubles.quotient 1 4)
      else if doubles.less (doubles.times average (doubles.of_nat 2)) t
      then doubles.times w (doubles.quotient 1 2)
      else if doubles.less (doubles.times average (doubles.of_nat 4))
          (doubles.of_nat (time * 3 % 2 ^ 64))
      then doubles.times w (doubles.quotient 3 4)
      else if doubles.less (doubles.of_nat (time * 4 % 2 ^ 64)) average
      then doubles.times w (doubles.of_nat 3)
      else if doubles.less (doubles.of_nat (time * 3 % 2 ^ 64)) average
      then doubles.times w (doubles.of_nat 2)
      else if doubles.less (doubles.of_nat (time * 2 % 2 ^ 64)) average
      then doubles.times w (doubles.quotient 3 2)
      else w

  unfoldable pub scale :
      doubles.Double → List CorpusRecord → List doubles.Double → List doubles.Double
  scale average [] ws = ws
  scale average (r ∷ rs) [] = []
  scale average (r ∷ rs) (w ∷ ws) =
      (if is_default r.stats then w else scaled_weight average r.stats.exec_time_usec w)
      ∷ scale average rs ws

  -- The highest and the lowest weight, after those so far.
  unfoldable pub extremes :
      doubles.Double → doubles.Double → List doubles.Double → doubles.Double × doubles.Double
  extremes highest lowest [] = (highest, lowest)
  extremes highest lowest (w ∷ ws) =
      extremes (if doubles.less highest w then w else highest)
        (if doubles.less w lowest then w else lowest) ws

  unfoldable pub extremes_of : List doubles.Double → doubles.Double × doubles.Double
  extremes_of [] = (doubles.of_nat 0, doubles.of_nat 0)
  extremes_of (w ∷ ws) = extremes w w ws

  -- The last loop, from the record `i` on, of `n` records.
  unfoldable pub change_weights :
      doubles.Double
      → ℕ
      → ℕ
      → List doubles.Double
      → WeightedDistribution
      → Outcome WeightedDistribution
  change_weights highest n i [] d = done d
  change_weights highest n i (w ∷ ws) d =
      let normalized_weight =
        if doubles.less (doubles.of_nat 0) highest
        then doubles.divided_by w highest
        else doubles.divided_by (doubles.plus (doubles.of_nat i) (doubles.of_nat 1))
            (doubles.of_nat n) in
      change_weight d i
        (doubles.to_uint64 (doubles.times normalized_weight (doubles.of_nat (2 ^ 16))))
      >>= λ d'. change_weights highest n (suc i) ws d'

  unfoldable pub update_weights : Corpus → FeatureSet → CoverageFrontier → Bool → Outcome Corpus
  update_weights c fs f scale_by_exec_time =
      weigh c.method fs f 0 c.records >>= λ (records, weights).
      let scaled =
        if scale_by_exec_time then scale (average_exec_time records) records weights else weights in
      let (highest, lowest) = extremes_of scaled in
      check (not (doubles.less lowest (doubles.of_nat 0)))
      >> change_weights highest (length records) 0 scaled c.distribution
      >>= λ d. done (record c { records = records; distribution = recompute_internal_state d })
