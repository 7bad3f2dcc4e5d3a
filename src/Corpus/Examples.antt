-- ===== src/Corpus/Examples.antt =====
-- The theorems on corpora at concrete inputs.
use fuzztest.Common.{
  ℕ, ◌+◌, ◌-◌, ◌*◌, ◌/◌, ◌%◌, ◌<◌, ◌≤◌, ◌≡◌, ◌⊎◌, refl, true, false, ltb, [], ◌∷◌, length, arith,
}
use fuzztest.Common.Abort.{done}
use fuzztest.ExecutionMetadata.{no_metadata}
use fuzztest.RunnerResult.{no_stats}
use fuzztest.WeightedDistribution.{partial_sums}
use fuzztest.WeightedDistribution.Consistency.{IsConsistent}
use fuzztest.Corpus.{CorpusRecord, Corpus, feature_rarity, num_total, prune}
use fuzztest.FeatureSet.{FeatureSet}
use fuzztest.Corpus.Frontier.{CoverageFrontier}
use fuzztest.Corpus.Weights.{Doubles}
use fuzztest.Corpus.Pruning.{IsSound, IsPruned, prune_lem}

abbrev keys : ℕ → ℕ → ℕ
keys i w = i * w % 11

abbrev last_of : ℕ → ℕ
last_of n = n - 1

abbrev record_of : ℕ → CorpusRecord
record_of n = record { bytes = n ∷ []; features = n ∷ []; metadata = no_metadata; stats = no_stats }

abbrev three : Corpus
three = record {
  records = record_of 1 ∷ record_of 2 ∷ record_of 3 ∷ [];
  distribution = record {
    weights = 5 ∷ 0 ∷ 7 ∷ [];
    cumulative_weights = 5 ∷ 5 ∷ 12 ∷ [];
    cumulative_weights_valid = true;
  };
  num_pruned = 4;
  method = feature_rarity;
}

three-IsSound : IsSound three
unfolding IsSound IsConsistent partial_sums
three-IsSound = (refl, (refl, λ e. refl))

last_of-in_range : (n : ℕ) → 0 < n → last_of n < n
last_of-in_range n h = omega arith

prune_lem_example :
    ((3 < 2) × (prune keys last_of three 2 ≡ done (three, 0)))
    ⊎ ((c' : Corpus) × (removed : ℕ) × (prune keys last_of three 2 ≡ done (c', removed))
        × (2 ≤ 3)
        × (length c'.records + removed ≡ 3)
        × (num_total c' ≡ num_total three)
        × IsPruned three 2 c')
prune_lem_example = prune_lem keys last_of three 2 last_of-in_range three-IsSound (omega arith)

-- Arithmetic on integers in place of doubles.
abbrev integers : Doubles
integers = record {
  Double = ℕ;
  of_nat = λ n. n;
  quotient = λ n d. n / d;
  plus = λ x y. x + y;
  times = λ x y. x * y;
  divided_by = λ x y. x / y;
  less = ltb;
  to_uint64 = λ x. x;
}

-- Every feature was seen three times.
abbrev seen : FeatureSet
seen = record {
  frequency_threshold = 100;
  frequencies = λ feature. 3;
  cmp_scores = λ index. 0;
  num_features = 8;
  features_per_domain = λ id. 4;
  should_discard_domain = λ id. false;
}

abbrev frontier : CoverageFrontier
frontier = record {
  num_pcs = 4;
  frontier = false ∷ false ∷ true ∷ false ∷ [];
  frontier_weight = 0 ∷ 0 ∷ 9 ∷ 0 ∷ [];
  num_functions_in_frontier = 1;
}

abbrev two : Corpus
two = record {
  records =
      record_of 134217730
      ∷ record { bytes = 9 ∷ []; features = []; metadata = no_metadata; stats = no_stats }
      ∷ [];
  distribution = record {
    weights = 0 ∷ 0 ∷ [];
    cumulative_weights = 0 ∷ 0 ∷ [];
    cumulative_weights_valid = true;
  };
  num_pruned = 4;
  method = feature_rarity;
}
