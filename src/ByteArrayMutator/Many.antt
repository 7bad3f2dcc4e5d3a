-- ===== src/ByteArrayMutator/Many.antt =====
-- MutateMany: the number of mutants, and their sizes.
use fuzztest.Common.{
  ℕ, zero, suc, ◌+◌, ◌%◌, ◌<◌, ◌≤◌, ◌≡◌, inl, inr, refl, ap, subst, Bool, true, false, List, [],
  ◌∷◌, ltb, leb, length, arith, Bool-cases, All, get_or,
}
use fuzztest.Common.Abort.{done, done-injective}
use fuzztest.Common.Bytes.{ByteArray}
use fuzztest.Common.Bytes.{IsByte}
use fuzztest.ExecutionMetadata.{ExecutionMetadata}
use fuzztest.ExecutionMetadata.Entries.{for_each_cmp_entry_total}
use fuzztest.CmpDictionary.{Pair, sort, added_pairs, set_from_metadata}
use fuzztest.Knobs.{element}
use fuzztest.Knobs.Choice.{element_lem, generate_bool_lem}
use fuzztest.RunnerResult.Mutants.{Mutant}
use fuzztest.ByteArrayMutator.{Mutator, max_insert_size}
use fuzztest.ByteArrayMutator.Crossover.{
  MutationInputRef, input_metadata, cross_over, make_mutant, make_mutants, mutate_many,
  set_metadata,
}
use fuzztest.ByteArrayMutator.Rounding.{IsSize, IsValid}
use fuzztest.ByteArrayMutator.Steps.{modulo_done}
use fuzztest.ByteArrayMutator.Choices.{HasKnobs, Fits}
use fuzztest.ByteArrayMutator.Safety.{mutate_lem}
use fuzztest.ByteArrayMutator.Crossing.{
  Crosses, cross_over_insert_lem, cross_over_overwrite-Crosses,
}

-- The inputs of MutateMany, that have at least one byte.
abbrev pub IsInput : MutationInputRef → Type 0
IsInput input = (0 < length input.bytes) × IsSize (length input.bytes)

element-IsInput :
    (inputs : List MutationInputRef) (i : ℕ) (input : MutationInputRef)
    → All IsInput inputs
    → element inputs i ≡ done input
    → IsInput input
element-IsInput [] i x h e = absurd cc
element-IsInput (y ∷ ys) zero x (h, hs) e = subst IsInput (done-injective e) h
element-IsInput (y ∷ ys) (suc i) x (h, hs) e = element-IsInput ys i x hs e

-- A mutant that MutateMany may return.
abbrev pub IsMutant : Mutator → ℕ → Mutant → Type 0
IsMutant m num_inputs mutant = Fits m (length mutant.bytes) × (mutant.origin < num_inputs)

module _ (rng : ℕ → ℕ) (m : Mutator) (knobs : HasKnobs m) (valid : IsValid m) where
  cross_over-Crosses :
      (n : ℕ) (bytes other : ByteArray)
      → IsSize (length bytes)
      → IsSize (length other)
      → 0 < length bytes
      → 0 < length other
      → length bytes ≤ m.max_len
      → Crosses (λ k. (0 < k) × (k ≤ m.max_len)) (cross_over rng m n bytes other)
  unfolding cross_over
  cross_over-Crosses n bytes other hb ho some_bytes some_other le =
      elim (Bool-cases (leb m.max_len (length bytes))) [
        | inl l ↦
            let (out, next, e, s) =
              cross_over_overwrite-Crosses rng m n bytes other hb some_bytes some_other in
            (out, next, rw (l, e) refl, (omega arith, omega arith))
        | inr l ↦
            let (g, a, b) = generate_bool_lem m.knobs (m.first_knob + 10) (rng n) (omega arith) in
            elim (Bool-cases
              (ltb (rng n % 255) ((get_or m.knobs.knobs (m.first_knob + 10) 0 + 128) % 256))) [
                | inl t ↦
                    let (out, next, e, (s, le', r)) =
                      cross_over_insert_lem rng m (n + 1) bytes other valid hb ho (ground arith)
                        some_other in
                    (out, next, rw (l, g, t, e) refl, (omega arith, le'))
                | inr t ↦
                    let (out, next, e, s) =
                      cross_over_overwrite-Crosses rng m (n + 1) bytes other hb some_bytes
                        some_other in
                    (out, next, rw (l, g, t, e) refl, (omega arith, omega arith))
              ]
      ]

  module _ (small : m.size_alignment ≤ max_insert_size) (inputs : List MutationInputRef)
      (h : All IsInput inputs) (some_input : 0 < length inputs) where
    make_mutant_lem :
        (n : ℕ)
        → (mutant : Mutant) × (next : ℕ) × (make_mutant rng m n inputs ≡ done (mutant, next))
          × IsMutant m (length inputs) mutant
    unfolding make_mutant
    make_mutant_lem n =
        let (e, l) = modulo_done (rng n) (length inputs) some_input in
        let origin = rng n % length inputs in
        let (input, i) = element_lem inputs origin l in
        let (pos, size) = element-IsInput inputs origin input h i in
        elim (Bool-cases (leb (length input.bytes) m.max_len)) [
          | inr big ↦
              let ((ok, out, next, w, fits, s), cut) =
                mutate_lem rng m knobs valid small (n + 1) input.bytes size pos in
              (record { bytes = out; origin = origin }, next, rw (e, i, big, w) refl, (fits, l))
          | inl fit ↦
              let (g, a, b) =
                generate_bool_lem m.knobs (m.first_knob + 11) (rng (n + 1)) (omega arith) in
              elim (Bool-cases (
                ltb (rng (n + 1) % 255)
                  ((get_or m.knobs.knobs (m.first_knob + 11) 0 + 128) % 256))) [
                    | inl t ↦
                        let (e', l') = modulo_done (rng (n + 2)) (length inputs) some_input in
                        let (other, j) = element_lem inputs (rng (n + 2) % length inputs) l' in
                        let (pos', size') =
                          element-IsInput inputs (rng (n + 2) % length inputs) other h j in
                        let (out, next, w, (some_left, le)) =
                          cross_over-Crosses (n + 2 + 1) input.bytes other.bytes size size' pos pos'
                            (ground arith) in
                        (
                          record { bytes = out; origin = origin },
                          next,
                          rw (e, i, fit, g, t, e', j, w) refl,
                          ((some_left, λ q. le), l),
                        )
                    | inr t ↦
                        let ((ok, out, next, w, fits, s), cut) =
                          mutate_lem rng m knobs valid small (n + 2) input.bytes size pos in
                        (
                          record { bytes = out; origin = origin },
                          next,
                          rw (e, i, fit, g, t, w) refl,
                          (fits, l),
                        )
                  ]
        ]

    make_mutants_lem :
        (k n : ℕ)
        → (mutants : List Mutant) × (next : ℕ) × (make_mutants rng m k n inputs
            ≡ done (mutants, next))
          × (length mutants ≡ k)
          × All (IsMutant m (length inputs)) mutants
    unfolding make_mutants
    make_mutants_lem zero n = ([], n, refl, refl, tt)
    make_mutants_lem (suc k) n =
        let (mutant, n', e, p) = make_mutant_lem n in
        let (mutants, n'', e', l, ps) = make_mutants_lem k n' in
        (mutant ∷ mutants, n'', rw (e, e') refl, ap suc l, (p, ps))

set_metadata_done :
    (m : Mutator) (metadata : ExecutionMetadata)
    → All IsByte metadata.cmp_data
    → (ok : Bool) × (dictionary : List Pair) × (set_metadata m metadata
        ≡ done (ok, record m { cmp_dictionary = dictionary }))
unfolding set_metadata set_from_metadata
set_metadata_done m metadata v =
    let (ok, entries, e, s) = for_each_cmp_entry_total metadata v in
    elim (Bool-cases ok) [
      | inl y ↦ (true, sort (added_pairs entries), rw (set_metadata, set_from_metadata, e, y) refl)
      | inr y ↦ (false, added_pairs entries, rw (set_metadata, set_from_metadata, e, y) refl)
    ]

-- Of a valid mutator with its knobs and an alignment of at most 20, on one or more nonempty inputs
-- below 2 ^ 62 bytes, the first with metadata of bytes or with none: MutateMany fails no access and
-- returns as many mutants as were asked for. Each has at least one byte and the index of an input
-- as its origin and, with an empty dictionary, at most max_len bytes.
pub mutate_many_lem :
    (rng : ℕ → ℕ) (m : Mutator) (n : ℕ) (input : MutationInputRef) (inputs : List MutationInputRef)
    (num_mutants : ℕ)
    → HasKnobs m
    → IsValid m
    → m.size_alignment ≤ max_insert_size
    → All IsInput (input ∷ inputs)
    → All IsByte (input_metadata input.metadata).cmp_data
    → (mutants : List Mutant) × (m' : Mutator) × (next : ℕ) × (mutate_many rng m n
          (input ∷ inputs)
          num_mutants
        ≡ done (mutants, m', next))
      × (length mutants ≡ num_mutants)
      × All (IsMutant m (length (input ∷ inputs))) mutants
unfolding mutate_many IsValid
mutate_many_lem rng m n input inputs num_mutants knobs valid small h v =
    let (ok, dictionary, d) = set_metadata_done m (input_metadata input.metadata) v in
    let (mutants, next, e, l, p) =
      make_mutants_lem rng (record m { cmp_dictionary = dictionary }) knobs valid small
        (input ∷ inputs) h (omega arith) num_mutants n in
    (mutants, record m { cmp_dictionary = dictionary }, next, rw (d, e) refl, l, p)
