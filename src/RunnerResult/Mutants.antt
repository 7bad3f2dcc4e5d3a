-- ===== src/RunnerResult/Mutants.antt =====
-- Class MutationResult of centipede/runner_result.cc: mutants and their origins, as tagged blobs.
pub mod RoundTrip
use fuzztest.Common.{
  ℕ, zero, suc, ◌-◌, ◌^◌, Bool, true, false, not, List, [], ◌∷◌, ◌++◌, ◌==◌, if◌then◌else◌, get_or,
  length,
}
use fuzztest.Common.Abort.{Outcome, aborted, done, ◌>>=◌}
use fuzztest.Common.Bytes.{ByteArray, le_bytes, of_le}
use fuzztest.BlobSequence.{Blob, BlobSequence, blob_size, write, read}
use fuzztest.RunnerResult.Tags

-- size_t(-1): a mutant with no origin.
abbrev pub origin_none : ℕ
origin_none = 2 ^ 64 - 1

pub record Mutant : Type 0 where
  pub bytes : ByteArray
  pub origin : ℕ

pub record MutationResult : Type 0 where
  pub exit_code : ℕ
  pub has_custom_mutator : Bool
  pub mutants : List Mutant

abbrev pub byte_of_bool : Bool → ℕ
byte_of_bool true = 1
byte_of_bool false = 0

pub write_has_custom_mutator : Bool → BlobSequence → Outcome (Bool × BlobSequence)
write_has_custom_mutator has s =
    write s (record { tag = Tags.has_custom_mutator; payload = byte_of_bool has ∷ [] })

pub write_mutant : Mutant → BlobSequence → Outcome (Bool × BlobSequence)
write_mutant m s = do
  (ok, s') ← write s (record { tag = Tags.mutant_origin; payload = le_bytes 8 m.origin })
  if ok then write s' (record { tag = Tags.mutant; payload = m.bytes }) else done (false, s')

-- The loop over the mutants, `n` of them still expected.
pub mutants_loop : ℕ → List Mutant → BlobSequence → Outcome (Bool × List Mutant × BlobSequence)
mutants_loop zero ms s = done (true, ms, s)
mutants_loop (suc n) ms s = elim (read s) [
  | aborted ↦ aborted
  | done (o, s₁) ↦ elim (not (o.tag == Tags.mutant_origin)) [
    | true ↦ done (false, ms, s₁)
    | false ↦ elim (not (blob_size o == 8)) [
      | true ↦ done (false, ms, s₁)
      | false ↦ elim (read s₁) [
        | aborted ↦ aborted
        | done (b, s₂) ↦ elim (not (b.tag == Tags.mutant)) [
          | true ↦ done (false, ms, s₂)
          | false ↦ elim (blob_size b == 0) [
            | true ↦ done (true, ms, s₂)
            | false ↦
                mutants_loop n (ms ++ record { bytes = b.payload; origin = of_le o.payload } ∷ [])
                  s₂
          ]
        ]
      ]
    ]
  ]
]

-- The loop fills `mutants_`, also where it fails.
abbrev pub with_mutants :
    MutationResult → Bool × List Mutant × BlobSequence → Bool × MutationResult × BlobSequence
with_mutants r (ok, ms, s) = (ok, record r { mutants = ms }, s)

-- After the first blob.
pub read_mutants :
    MutationResult → ℕ → BlobSequence → Outcome (Bool × MutationResult × BlobSequence)
read_mutants r num_mutants s =
    if not r.has_custom_mutator
    then done (true, r, s)
    else mutants_loop num_mutants [] s >>= λ end. done (with_mutants r end)

pub mutation_read :
    MutationResult → ℕ → BlobSequence → Outcome (Bool × MutationResult × BlobSequence)
mutation_read r num_mutants s = read s >>= λ p.
    if not (p.0.tag == Tags.has_custom_mutator)
    then done (false, r, p.1)
    else if not (blob_size p.0 == 1)
    then done (false, r, p.1)
    else read_mutants (record r { has_custom_mutator = not (get_or p.0.payload 0 0 == 0) })
        num_mutants p.1
