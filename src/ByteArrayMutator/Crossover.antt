-- ===== src/ByteArrayMutator/Crossover.antt =====
-- Crossovers and MutateMany of class ByteArrayMutator.
use fuzztest.Common.{
  ℕ, zero, suc, ◌+◌, ◌-◌, ◌/◌, ◌%◌, ◌^◌, Bool, false, List, [], ◌∷◌, Option, none, some, ltb, leb,
  if◌then◌else◌, length, min, max,
}
use fuzztest.Common.Abort.{Outcome, aborted, done, ◌>>=◌}
use fuzztest.Common.Bytes.{ByteArray, sub64}
use fuzztest.ExecutionMetadata.{ExecutionMetadata, no_metadata}
use fuzztest.RunnerResult.Mutants.{Mutant}
use fuzztest.Knobs.{element, generate_bool}
use fuzztest.CmpDictionary.{set_from_metadata}
use fuzztest.ByteArrayMutator.{
  Mutator, round_up_to_add, modulo, overwrite, slice, insert_at, mutate,
}

-- MutationInputRef; the metadata are a pointer that may be null.
pub record MutationInputRef : Type 0 where
  pub bytes : ByteArray
  pub metadata : Option ExecutionMetadata

-- The bytes after a crossover, and the index of the next random number.
abbrev pub Crossed : Type 0
Crossed = Outcome (ByteArray × ℕ)

abbrev pub input_metadata : Option ExecutionMetadata → ExecutionMetadata
input_metadata none = no_metadata
input_metadata (some metadata) = metadata

unfoldable pub set_metadata : Mutator → ExecutionMetadata → Outcome (Bool × Mutator)
set_metadata m metadata = set_from_metadata metadata >>= λ (ok, dictionary).
    done (ok, record m { cmp_dictionary = dictionary })

module _ (rng : ℕ → ℕ) (m : Mutator) where
  unfoldable pub cross_over_insert : ℕ → ByteArray → ByteArray → Crossed
  cross_over_insert n bytes other =
      if ltb (length bytes % m.size_alignment + length other) m.size_alignment
      then done (bytes, n)
      else (modulo (rng n) (length other) >>= λ random.
          let rounded = round_up_to_add m (length bytes) (1 + random) in
          let size =
            if ltb (length other) rounded then sub64 rounded m.size_alignment else rounded in
          modulo (rng (n + 1)) (sub64 (length other + 1) size) >>= λ first.
          slice other first size >>= λ part.
          insert_at bytes (rng (n + 2) % (length bytes + 1)) part >>= λ bytes'.
          done (bytes', n + 3))

  unfoldable pub cross_over_overwrite : ℕ → ByteArray → ByteArray → Crossed
  cross_over_overwrite n bytes other = modulo (rng n) (length other) >>= λ first.
      let max_size = min (max 1 (length bytes / 2)) (length other - first) in
      modulo (rng (n + 1)) max_size >>= λ random.
      let size = 1 + random in
      let max_pos = sub64 (length bytes) size in
      slice other first size >>= λ part. modulo (rng (n + 2)) ((max_pos + 1) % 2 ^ 64) >>= λ pos.
      overwrite bytes pos part >>= λ bytes'. done (bytes', n + 3)

  unfoldable pub cross_over : ℕ → ByteArray → ByteArray → Crossed
  cross_over n bytes other =
      if leb m.max_len (length bytes)
      then cross_over_overwrite n bytes other
      else (generate_bool m.knobs (m.first_knob + 10) (rng n) >>= λ inserts.
          if inserts
          then cross_over_insert (n + 1) bytes other
          else cross_over_overwrite (n + 1) bytes other)

  -- One mutant: the bytes of an input after a crossover with another or a mutation.
  unfoldable pub make_mutant : ℕ → List MutationInputRef → Outcome (Mutant × ℕ)
  make_mutant n inputs = modulo (rng n) (length inputs) >>= λ origin.
      element inputs origin >>= λ input.
      (if leb (length input.bytes) m.max_len
        then (generate_bool m.knobs (m.first_knob + 11) (rng (n + 1)) >>= λ b. done (b, n + 2))
        else done (false, n + 1))
      >>= λ (crosses, n').
          if crosses
          then (modulo (rng n') (length inputs) >>= λ i. element inputs i >>= λ other.
              cross_over (n' + 1) input.bytes other.bytes >>= λ (bytes, n'').
              done (record { bytes = bytes; origin = origin }, n''))
          else (mutate rng m n' input.bytes >>= λ (ok, bytes, n'').
              done (record { bytes = bytes; origin = origin }, n''))

  unfoldable pub make_mutants : ℕ → ℕ → List MutationInputRef → Outcome (List Mutant × ℕ)
  make_mutants zero n inputs = done ([], n)
  make_mutants (suc num_mutants) n inputs = make_mutant n inputs >>= λ (mutant, n').
      make_mutants num_mutants n' inputs >>= λ (mutants, n''). done (mutant ∷ mutants, n'')

-- The mutants, the mutator after the call, and the index of the next random number.
unfoldable pub mutate_many :
    (ℕ → ℕ) → Mutator → ℕ → List MutationInputRef → ℕ → Outcome (List Mutant × Mutator × ℕ)
mutate_many rng m n [] num_mutants = aborted
mutate_many rng m n (input ∷ inputs) num_mutants =
    set_metadata m (input_metadata input.metadata) >>= λ (ok, m').
    make_mutants rng m' num_mutants n (input ∷ inputs) >>= λ (mutants, n'). done (mutants, m', n')
