-- ===== src/RunnerResult.antt =====
-- centipede/runner_result.h and .cc: what a runner process reports of a batch of inputs or mutants,
-- as a sequence of tagged blobs.
pub mod Tags
pub mod Rounds
pub mod Reports
pub mod Failures
pub mod Mutants
mod Examples
use fuzztest.Common.{
  ℕ, zero, suc, ◌+◌, ◌*◌, ◌/◌, ◌%◌, ◌^◌, Bool, true, false, not, ◌&&◌, List, [], ◌∷◌, ◌++◌, Option,
  none, some, map, ltb, ◌==◌, if◌then◌else◌, length, take, drop, set, get_or, replicate,
}
use fuzztest.Common.Abort.{Outcome, aborted, done, ◌>>=◌}
use fuzztest.Common.Bytes.{ByteArray, le_bytes, load_words, store_words}
use fuzztest.BlobSequence.{Blob, BlobSequence, is_valid, blob_size, write, read}
use fuzztest.Feature.{begin, user_domain}
use fuzztest.ExecutionMetadata.{ExecutionMetadata, no_metadata, read_metadata, write_metadata}

pub record Stats : Type 0 where
  pub prep_time_usec : ℕ
  pub exec_time_usec : ℕ
  pub post_time_usec : ℕ
  pub peak_rss_mb : ℕ

abbrev pub no_stats : Stats
no_stats = record { prep_time_usec = 0; exec_time_usec = 0; post_time_usec = 0; peak_rss_mb = 0 }

-- The memory of the struct: four integers of eight bytes.
abbrev pub stats_words : Stats → List ℕ
stats_words s = s.prep_time_usec ∷ s.exec_time_usec ∷ s.post_time_usec ∷ s.peak_rss_mb ∷ []

abbrev pub stats_of_words : List ℕ → Stats
stats_of_words ws = record {
  prep_time_usec = get_or ws 0 0;
  exec_time_usec = get_or ws 1 0;
  post_time_usec = get_or ws 2 0;
  peak_rss_mb = get_or ws 3 0;
}

pub record ExecutionResult : Type 0 where
  pub features : List ℕ
  pub metadata : ExecutionMetadata
  pub stats : Stats

-- ExecutionResult::clear() leaves this.
abbrev pub cleared : ExecutionResult
cleared = record { features = []; metadata = no_metadata; stats = no_stats }

-- The exit code is read only to tell EXIT_SUCCESS, 0, from the others.
pub record BatchResult : Type 0 where
  pub results : List ExecutionResult
  pub log : ByteArray
  pub exit_code : ℕ
  pub failure_description : ByteArray
  pub failure_signature : ByteArray
  pub num_outputs_read : ℕ

-- std::vector::resize, with cleared results behind the kept ones.
abbrev pub resize_results : ℕ → List ExecutionResult → List ExecutionResult
resize_results zero rs = []
resize_results (suc n) [] = cleared ∷ resize_results n []
resize_results (suc n) (r ∷ rs) = r ∷ resize_results n rs

pub clear_and_resize : BatchResult → ℕ → BatchResult
clear_and_resize r new_size = record r {
  results = resize_results new_size (map (λ _. cleared) r.results);
  log = [];
  exit_code = 0;
  num_outputs_read = 0;
}

pub write_one_feature_vec : List ℕ → BlobSequence → Outcome (Bool × BlobSequence)
write_one_feature_vec vec s = write s (record { tag = Tags.features; payload = store_words 8 vec })

pub write_dispatcher_32bit_features : List ℕ → BlobSequence → Outcome (Bool × BlobSequence)
write_dispatcher_32bit_features vec s =
    write s (record { tag = Tags.dispatcher_32bit_features; payload = store_words 4 vec })

pub write_input_begin : BlobSequence → Outcome (Bool × BlobSequence)
write_input_begin s = write s (record { tag = Tags.input_begin; payload = [] })

pub write_input_end : BlobSequence → Outcome (Bool × BlobSequence)
write_input_end s = write s (record { tag = Tags.input_end; payload = [] })

pub write_stats : Stats → BlobSequence → Outcome (Bool × BlobSequence)
write_stats stats s =
    write s (record { tag = Tags.stats; payload = store_words 8 (stats_words stats) })

pub write_result_metadata : ExecutionMetadata → BlobSequence → Outcome (Bool × BlobSequence)
write_result_metadata m s = write_metadata m Tags.metadata s

-- The variables of the loop of `BatchResult::Read`. `current_execution_result` is the index of the
-- result that it points to.
pub record Reading : Type 0 where
  pub num_begins : ℕ
  pub num_ends : ℕ
  pub current : Option ℕ
  pub results : List ExecutionResult

-- A round of the loop returns false, or goes on.
pub data Round : Type 0 where
  fail : Reading → Round
  go_on : Reading → Round

pub on_current : Reading → (ExecutionResult → ExecutionResult) → Round
on_current t f = elim t.current [
  | none ↦ fail t
  | some i ↦ go_on (record t { results = set t.results i (f (get_or t.results i cleared)) })
]

-- (feature & 0x7fffffff) + kUserDomains[0].begin()
abbrev pub user_feature : ℕ → ℕ
user_feature feature = feature % 2 ^ 31 + begin (user_domain 0)

pub on_input_begin : Reading → Round
on_input_begin t =
    if not (t.num_begins == t.num_ends)
    then fail t
    else if ltb (length t.results) (t.num_begins + 1)
    then fail (record t { num_begins = t.num_begins + 1 })
    else go_on (record t {
      num_begins = t.num_begins + 1;
      current = some t.num_ends;
      results = set t.results t.num_ends cleared;
    })

pub on_input_end : Reading → Round
on_input_end t =
    if not (t.num_ends + 1 == t.num_begins)
    then fail (record t { num_ends = t.num_ends + 1 })
    else go_on (record t { num_ends = t.num_ends + 1; current = none })

pub batch_round : Reading → Blob → Round
batch_round t b =
    if b.tag == Tags.input_begin
    then on_input_begin t
    else if b.tag == Tags.input_end
    then on_input_end t
    else if b.tag == Tags.metadata
    then on_current t (λ r. record r { metadata = read_metadata b })
    else if b.tag == Tags.stats
    then (if blob_size b == 32
        then on_current t (λ r. record r { stats = stats_of_words (load_words 8 4 b.payload) })
        else fail t)
    else if b.tag == Tags.features
    then on_current t (λ r. record r { features = load_words 8 (blob_size b / 8) b.payload })
    else if b.tag == Tags.dispatcher_32bit_features
    then on_current t (λ r. record r {
      features = r.features ++ map user_feature (load_words 4 (blob_size b / 4) b.payload);
    })
    else go_on t

-- The loop; `none` means that the fuel ran out.
pub batch_loop : ℕ → Reading → BlobSequence → Outcome (Option (Round × BlobSequence))
batch_loop zero t s = done none
batch_loop (suc fuel) t s = elim (read s) [
  | aborted ↦ aborted
  | done (b, s') ↦ elim (is_valid b) [
    | false ↦ done (some (go_on t, s'))
    | true ↦ elim (batch_round t b) [
      | fail t' ↦ done (some (fail t', s'))
      | go_on t' ↦ batch_loop fuel t' s'
    ]
  ]
]

abbrev pub finish : BatchResult → Round × BlobSequence → Bool × BatchResult × BlobSequence
finish r (fail t, s) = (false, record r { results = t.results }, s)
finish r (go_on t, s) = (true, record r { results = t.results; num_outputs_read = t.num_ends }, s)

abbrev pub start : BatchResult → Reading
start r = record { num_begins = 0; num_ends = 0; current = none; results = r.results }

-- Every read that goes on takes sixteen bytes at least, so the size of the region is enough fuel.
pub batch_read : BatchResult → BlobSequence → Outcome (Option (Bool × BatchResult × BlobSequence))
batch_read r s = batch_loop (suc s.size) (start r) s >>= λ o. elim o [
  | none ↦ done none
  | some end ↦ done (some (finish r end))
]

-- std::string_view(text).substr(0, prefix.size()) == prefix
pub starts_with : ByteArray → ByteArray → Bool
starts_with [] text = true
starts_with (p ∷ ps) [] = false
starts_with (p ∷ ps) (c ∷ cs) = (p == c) && starts_with ps cs
