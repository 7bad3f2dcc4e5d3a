-- ===== src/RunnerResult/Failures.antt =====
-- The kinds of failure of a batch, class BatchResult of centipede/runner_result.cc: they are told
-- apart by the start of the failure description.
use Prim.Native.Char.{code}
use Prim.Native.String.{String}
use fuzztest.Common.{
  ◌≡◌, ◌≢◌, inl, inr, refl, Bool, true, false, not, ◌&&◌, ◌==◌, [], ◌∷◌, arith, Bool-cases,
}
use fuzztest.Common.Bytes.{ByteArray}
use fuzztest.RunnerResult.{BatchResult, starts_with}

-- The bytes of an ASCII text.
abbrev codes : String → ByteArray
codes String.[] = []
codes (String.◌∷◌ c s) = code c ∷ codes s

abbrev pub ignored_failure_prefix : ByteArray
ignored_failure_prefix = codes "IGNORED FAILURE:"

abbrev pub setup_failure_prefix : ByteArray
setup_failure_prefix = codes "SETUP FAILURE:"

abbrev pub skipped_test_prefix : ByteArray
skipped_test_prefix = codes "SKIPPED TEST:"

pub is_ignored_failure : BatchResult → Bool
is_ignored_failure r =
    not (r.exit_code == 0) && starts_with ignored_failure_prefix r.failure_description

pub is_setup_failure : BatchResult → Bool
is_setup_failure r =
    not (r.exit_code == 0) && starts_with setup_failure_prefix r.failure_description

pub is_skipped_test : BatchResult → Bool
is_skipped_test r = not (r.exit_code == 0) && starts_with skipped_test_prefix r.failure_description

pub is_input_failure : BatchResult → Bool
unfolding is_ignored_failure is_setup_failure is_skipped_test
is_input_failure r =
    not (r.exit_code == 0)
    && (not (is_ignored_failure r) && (not (is_setup_failure r) && not (is_skipped_test r)))

-- A batch that succeeded has none of the four kinds of failure, and one that failed has exactly one.
pub data Kind (r : BatchResult) : Type 0 where
  success :
      r.exit_code ≡ 0
      → is_ignored_failure r ≡ false
      → is_setup_failure r ≡ false
      → is_skipped_test r ≡ false
      → is_input_failure r ≡ false
      → Kind r
  ignored :
      r.exit_code ≢ 0
      → is_ignored_failure r ≡ true
      → is_setup_failure r ≡ false
      → is_skipped_test r ≡ false
      → is_input_failure r ≡ false
      → Kind r
  setup :
      r.exit_code ≢ 0
      → is_ignored_failure r ≡ false
      → is_setup_failure r ≡ true
      → is_skipped_test r ≡ false
      → is_input_failure r ≡ false
      → Kind r
  skipped :
      r.exit_code ≢ 0
      → is_ignored_failure r ≡ false
      → is_setup_failure r ≡ false
      → is_skipped_test r ≡ true
      → is_input_failure r ≡ false
      → Kind r
  input :
      r.exit_code ≢ 0
      → is_ignored_failure r ≡ false
      → is_setup_failure r ≡ false
      → is_skipped_test r ≡ false
      → is_input_failure r ≡ true
      → Kind r

-- No text starts with two of the prefixes.
prefixes_differ :
    (d : ByteArray)
    → ((starts_with ignored_failure_prefix d && starts_with setup_failure_prefix d) ≡ false)
      × ((starts_with ignored_failure_prefix d && starts_with skipped_test_prefix d) ≡ false)
      × ((starts_with setup_failure_prefix d && starts_with skipped_test_prefix d) ≡ false)
unfolding starts_with
prefixes_differ [] = (refl, refl, refl)
prefixes_differ (a ∷ []) = (ground arith, ground arith, ground arith)
prefixes_differ (a ∷ b ∷ d) = (ground arith, ground arith, ground arith)

-- Every batch is a success or of exactly one of the four kinds of failure: the kind that holds is
-- the only one of the four tests that passes.
failure-Kind : (r : BatchResult) → Kind r
unfolding is_input_failure
failure-Kind r =
    let (d₁, d₂, d₃) = prefixes_differ r.failure_description in
    elim (Bool-cases (r.exit_code == 0)) [
      | inl e ↦ success (ground arith) (rw e) (rw e) (rw e) (rw e)
      | inr e ↦ elim (Bool-cases (starts_with ignored_failure_prefix r.failure_description)) [
        | inl i ↦
            ignored (ground arith) (rw (e, i)) (ground (arith, d₁, d₂, d₃))
              (ground (arith, d₁, d₂, d₃)) (rw (e, i))
        | inr i ↦ elim (Bool-cases (starts_with setup_failure_prefix r.failure_description)) [
          | inl j ↦
              setup (ground arith) (rw (e, i)) (rw (e, j)) (ground (arith, d₁, d₂, d₃))
                (rw (e, i, j))
          | inr j ↦ elim (Bool-cases (starts_with skipped_test_prefix r.failure_description)) [
            | inl k ↦ skipped (ground arith) (rw (e, i)) (rw (e, j)) (rw (e, k)) (rw (e, i, j, k))
            | inr k ↦ input (ground arith) (rw (e, i)) (rw (e, j)) (rw (e, k)) (rw (e, i, j, k))
          ]
        ]
      ]
    ]
