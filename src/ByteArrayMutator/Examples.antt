-- ===== src/ByteArrayMutator/Examples.antt =====
-- The theorems on mutators at concrete inputs.
use fuzztest.Common.{
  ℕ, ◌+◌, ◌*◌, ◌%◌, ◌<◌, ◌≤◌, ◌≡◌, ◌↔◌, inl, inr, refl, true, List, [], ◌∷◌, none, some, length,
  arith, replicate, All,
}
use fuzztest.Common.Abort.{done, aborted}
use fuzztest.Common.Bytes.{ByteArray}
use fuzztest.ExecutionMetadata.{no_metadata}
use fuzztest.RunnerResult.Mutants.{Mutant}
use fuzztest.ByteArrayMutator.{
  Mutator, max_insert_size, size_max, round_up_to_add, insert_bytes, mutate,
}
use fuzztest.ByteArrayMutator.Crossover.{MutationInputRef, mutate_many}
use fuzztest.ByteArrayMutator.Rounding.{IsValid}
use fuzztest.ByteArrayMutator.Steps.{Mutates}
use fuzztest.ByteArrayMutator.Resize.{insert_bytes-aborts}
use fuzztest.ByteArrayMutator.Choices.{Fits}
use fuzztest.ByteArrayMutator.Safety.{mutate_lem}
use fuzztest.ByteArrayMutator.Many.{IsMutant, mutate_many_lem}

abbrev numbers : ℕ → ℕ
numbers i = (i * 7 + 3) % 101

-- Sizes of a multiple of 4 up to 16.
abbrev mutator : Mutator
mutator = record {
  size_alignment = 4;
  max_len = 16;
  dictionary = [];
  cmp_dictionary = [];
  knobs = record { knobs = replicate 32 7 };
  first_knob = 2;
}

mutator-IsValid : IsValid mutator
unfolding IsValid
mutator-IsValid = (omega arith, omega arith, omega arith, omega arith, inr refl)

-- Sizes of a multiple of 64.
abbrev wide : Mutator
wide = record {
  size_alignment = 64;
  max_len = size_max;
  dictionary = [];
  cmp_dictionary = [];
  knobs = record { knobs = replicate 32 7 };
  first_knob = 2;
}

wide-IsValid : IsValid wide
unfolding IsValid
wide-IsValid = (omega arith, omega arith, omega arith, omega arith, inl refl)

abbrev bytes : ByteArray
bytes = 1 ∷ 2 ∷ 3 ∷ 4 ∷ 5 ∷ 6 ∷ []

abbrev other : ByteArray
other = 7 ∷ 8 ∷ 9 ∷ []

abbrev thirty : ByteArray
thirty = replicate 30 1

-- With 30 bytes, 4 are asked for and 34 would reach the next multiple of 64.
insert_bytes-aborts_example : (insert_bytes numbers wide 0 thirty ≡ aborted) ↔ (
    (max_insert_size < round_up_to_add wide (length thirty) (numbers 0 % max_insert_size + 1))
    × (round_up_to_add wide (length thirty) (numbers 0 % max_insert_size + 1) < 64))
insert_bytes-aborts_example = insert_bytes-aborts numbers wide 0 thirty wide-IsValid (omega arith)

wide_insertion : insert_bytes numbers wide 0 thirty ≡ aborted
unfolding insert_bytes round_up_to_add
wide_insertion = refl

mutate_lem_example :
    Mutates (Fits mutator) bytes (mutate numbers mutator 0 bytes)
    × (16 < 6
        → (out : ByteArray) × (mutate numbers mutator 0 bytes ≡ done (true, out, 2))
          × (length out ≤ 16)
          × (length out % 4 ≡ 0))
mutate_lem_example =
    mutate_lem numbers mutator (omega arith) mutator-IsValid (omega arith) 0 bytes (omega arith)
      (omega arith)

abbrev input : MutationInputRef
input = record { bytes = bytes; metadata = none }

abbrev second_input : MutationInputRef
second_input = record { bytes = other; metadata = some no_metadata }

mutate_many_lem_example :
    (mutants : List Mutant) × (m' : Mutator) × (next : ℕ) × (mutate_many numbers mutator 0
        (input ∷ second_input ∷ [])
        3
      ≡ done (mutants, m', next))
    × (length mutants ≡ 3)
    × All (IsMutant mutator 2) mutants
mutate_many_lem_example =
    mutate_many_lem numbers mutator 0 input (second_input ∷ []) 3 (omega arith) mutator-IsValid
      (omega arith) ((omega arith, omega arith), ((omega arith, omega arith), tt)) tt
