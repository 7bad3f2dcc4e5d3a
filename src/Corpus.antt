-- ===== src/Corpus.antt =====
-- centipede/corpus.{h,cc}: class Corpus, the inputs that the engine keeps, with their weights. The
-- random numbers of absl::Uniform are a parameter, `uniform n` being a number in [0, n).
pub mod Frontier
pub mod Weights
pub mod Weighable
pub mod Weighing
pub mod Pruning
mod Examples
use fuzztest.Common.{
  ℕ, zero, suc, ◌+◌, ◌-◌, ◌*◌, ◌/◌, Bool, true, false, not, List, [], ◌∷◌, ◌++◌, Option, none, some,
  ltb, leb, ◌==◌, if◌then◌else◌, length, min, max,
}
use fuzztest.Common.Abort.{Outcome, aborted, done, ◌>>=◌, ◌>>◌, check}
use fuzztest.Common.Bytes.{ByteArray, add64}
use fuzztest.ExecutionMetadata.{ExecutionMetadata}
use fuzztest.RunnerResult.{Stats}
use fuzztest.WeightedDistribution.{
  WeightedDistribution, weighted_distribution, add_weight, random_index, recompute_internal_state,
  remove_subset, remove_weighted_subset,
}
use fuzztest.RandomSubset.{random_weighted_subset}

pub record CorpusRecord : Type 0 where
  pub bytes : ByteArray
  pub features : List ℕ
  pub metadata : ExecutionMetadata
  pub stats : Stats

pub data WeightMethod : Type 0 where
  uniform_weights : WeightMethod
  recency : WeightMethod
  feature_rarity : WeightMethod

pub record Corpus : Type 0 where
  pub records : List CorpusRecord
  pub distribution : WeightedDistribution
  pub num_pruned : ℕ
  pub method : WeightMethod

abbrev pub corpus : WeightMethod → Corpus
corpus method = record {
  records = [];
  distribution = weighted_distribution;
  num_pruned = 0;
  method = method;
}

unfoldable pub equal_bytes : ByteArray → ByteArray → Bool
equal_bytes [] [] = true
equal_bytes [] (y ∷ ys) = false
equal_bytes (x ∷ xs) [] = false
equal_bytes (x ∷ xs) (y ∷ ys) = let rest = equal_bytes xs ys in if x == y then rest else false

-- "uniform", "recency" and "feature_rarity".
abbrev pub uniform_name : ByteArray
uniform_name = 117 ∷ 110 ∷ 105 ∷ 102 ∷ 111 ∷ 114 ∷ 109 ∷ []

abbrev pub recency_name : ByteArray
recency_name = 114 ∷ 101 ∷ 99 ∷ 101 ∷ 110 ∷ 99 ∷ 121 ∷ []

abbrev pub feature_rarity_name : ByteArray
feature_rarity_name =
    102 ∷ 101 ∷ 97 ∷ 116 ∷ 117 ∷ 114 ∷ 101 ∷ 95 ∷ 114 ∷ 97 ∷ 114 ∷ 105 ∷ 116 ∷ 121 ∷ []

unfoldable pub parse_weight_method : ByteArray → Option WeightMethod
parse_weight_method method_string =
    if equal_bytes method_string uniform_name
    then some uniform_weights
    else if equal_bytes method_string recency_name
    then some recency
    else if equal_bytes method_string feature_rarity_name
    then some feature_rarity
    else none

abbrev pub num_active : Corpus → ℕ
num_active c = length c.records

abbrev pub num_total : Corpus → ℕ
num_total c = c.num_pruned + num_active c

-- The loop of MaxAndAvgSize.
unfoldable pub max_and_total : List CorpusRecord → ℕ × ℕ
max_and_total [] = (0, 0)
max_and_total (r ∷ rs) =
    let (largest, total) = max_and_total rs in
    (max (length r.bytes) largest, length r.bytes + total)

unfoldable pub max_and_avg_size : Corpus → ℕ × ℕ
max_and_avg_size c =
    let (largest, total) = max_and_total c.records in
    if length c.records == 0 then (0, 0) else (largest, total / length c.records)

unfoldable pub add : Corpus → ByteArray → List ℕ → ExecutionMetadata → Stats → Outcome Corpus
add c bytes features metadata stats =
    check (not (length bytes == 0))
    >> check (length c.records == length c.distribution.weights)
    >> add_weight c.distribution 0
    >>= λ distribution. done (record c {
      records =
          c.records
          ++ (record { bytes = bytes; features = features; metadata = metadata; stats = stats }
              ∷ []);
      distribution = distribution;
    })

abbrev pub weighted_random : (ℕ → ℕ) → Corpus → Outcome ℕ
weighted_random uniform c = random_index uniform c.distribution

abbrev pub uniform_random : (ℕ → ℕ) → Corpus → ℕ
uniform_random uniform c = uniform (length c.records)

-- The zeros among the weights of the first `n` records; std::vector::operator[] past the weights is
-- undefined.
unfoldable pub num_zero_weights : ℕ → List ℕ → Outcome ℕ
num_zero_weights zero ws = done 0
num_zero_weights (suc n) [] = aborted
num_zero_weights (suc n) (w ∷ ws) =
    num_zero_weights n ws >>= λ zeros. done (if w == 0 then suc zeros else zeros)

-- erase(begin() + i)
unfoldable pub erase : ℕ → List ℕ → List ℕ
erase i [] = []
erase zero (x ∷ xs) = xs
erase (suc i) (x ∷ xs) = x ∷ erase i xs

-- The rest of Prune, where `subset` is what was removed from the weights.
unfoldable pub remove_records : (ℕ → ℕ) → Corpus → ℕ → List ℕ → Outcome (Corpus × ℕ)
remove_records uniform c num_zeros subset =
    let all_chosen = length subset == length c.records in
    let subset_to_remove = if all_chosen then erase (uniform (length subset)) subset else subset in
    let records = remove_subset 0 subset_to_remove c.records in
    check (if all_chosen then num_zeros == length c.records else true)
    >> check (not (length records == 0))
    >> done (
      record c {
        records = records;
        distribution = recompute_internal_state (remove_weighted_subset subset c.distribution);
        num_pruned = c.num_pruned + length subset_to_remove;
      },
      length subset_to_remove,
    )

-- The corpus and the number of removed records. `key` is the parameter of RandomWeightedSubset.
unfoldable pub prune : (ℕ → ℕ → ℕ) → (ℕ → ℕ) → Corpus → ℕ → Outcome (Corpus × ℕ)
prune key uniform c max_corpus_size =
    check (not (max_corpus_size == 0))
    >> (if ltb (length c.records) 2
        then done (c, 0)
        else (num_zero_weights (length c.records) c.distribution.weights >>= λ num_zeros.
            let target_size = min max_corpus_size (max 1 (length c.records - num_zeros)) in
            let subset = random_weighted_subset key c.distribution.weights target_size in
            remove_records uniform c num_zeros subset))
