-- ===== src/RunnerResult/Examples.antt =====
-- The theorems on batches and mutants at concrete inputs.
use fuzztest.Common.{
  inl, ◌≡◌, refl, Bool, true, false, List, [], ◌∷◌, ◌++◌, Option, some, arith, replicate, take,
}
use fuzztest.Common.Abort.{done}
use fuzztest.Common.Bytes.{le_bytes, store_words}
use fuzztest.BlobSequence.{Blob, BlobSequence, reset}
use fuzztest.BlobSequence.Layout.{IsWellFormed}
use fuzztest.BlobSequence.RoundTrip.{write_all}
use fuzztest.ExecutionMetadata.{no_metadata}
use fuzztest.RunnerResult.{BatchResult, ExecutionResult, cleared, batch_read}
use fuzztest.RunnerResult.Rounds.{IsRead, batch_read_total}
use fuzztest.RunnerResult.Reports.{
  report, reports, begin_blob, features_blob, cut_report, batch_read-reports,
}
use fuzztest.RunnerResult.Failures.{setup_failure_prefix}
use fuzztest.RunnerResult.Mutants.{Mutant, MutationResult, mutation_read}
use fuzztest.RunnerResult.Mutants.RoundTrip.{mutant_blobs, custom_mutator_blob, mutation_read-blobs}

-- A region with stale bytes.
abbrev stale : BlobSequence
stale = record {
  bytes = replicate 260 7;
  size = 260;
  offset = 0;
  had_reads = false;
  had_writes = false;
}

stale-IsWellFormed : IsWellFormed stale
stale-IsWellFormed = record { sized = refl; within = omega arith; small = omega arith }

abbrev batch : BatchResult
batch = record {
  results = cleared ∷ cleared ∷ [];
  log = [];
  exit_code = 1;
  failure_description = setup_failure_prefix;
  failure_signature = [];
  num_outputs_read = 0;
}

abbrev first : ExecutionResult
first = record {
  features = 134217728 ∷ 5 ∷ [];
  metadata = no_metadata;
  stats = record { prep_time_usec = 1; exec_time_usec = 2; post_time_usec = 3; peak_rss_mb = 4 };
}

-- The runner died on the second input after it sent a feature vector.
abbrev death : Option (List Blob)
death = some (features_blob (9 ∷ []) ∷ [])

abbrev rest_of_report : List Blob
rest_of_report = take 7 (report first ++ cut_report death)

batch_read-reports_example :
    (s' : BlobSequence) × (s'' : BlobSequence) × (r' : BatchResult) × (write_all
        (reports (first ∷ []) ++ cut_report death)
        (reset stale)
      ≡ done (true, s'))
    × (batch_read batch (reset s') ≡ done (some (true, r', s'')))
    × (r'.num_outputs_read ≡ 1)
    × (take 1 r'.results ≡ first ∷ [])
unfolding le_bytes store_words
batch_read-reports_example =
    batch_read-reports batch stale (first ∷ []) death begin_blob _ stale-IsWellFormed
      (omega arith, tt) (inl refl, tt) refl (omega arith) (omega arith)

batch_read_total_example :
    (ok : Bool) × (r' : BatchResult) × (s' : BlobSequence) × (batch_read batch stale
      ≡ done (some (ok, r', s')))
    × IsRead batch ok r'
batch_read_total_example = batch_read_total batch stale stale-IsWellFormed refl

abbrev old : MutationResult
old = record { exit_code = 0; has_custom_mutator = false; mutants = [] }

abbrev made : List Mutant
made = record { bytes = 1 ∷ 2 ∷ []; origin = 0 } ∷ []

mutation_read-blobs_example :
    (s' : BlobSequence) × (s'' : BlobSequence) × (write_all
        (custom_mutator_blob ∷ mutant_blobs made)
        (reset stale)
      ≡ done (true, s'))
    × (mutation_read old 3 (reset s')
        ≡ done (false, record old { has_custom_mutator = true; mutants = made }, s''))
unfolding le_bytes
mutation_read-blobs_example =
    mutation_read-blobs old stale made 3 stale-IsWellFormed ((omega arith, omega arith), tt)
      (omega arith) (omega arith)
