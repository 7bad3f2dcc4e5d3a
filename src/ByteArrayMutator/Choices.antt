-- ===== src/ByteArrayMutator/Choices.antt =====
-- The mutators that Mutate chooses by knobs: accesses and sizes.
use fuzztest.Common.{
  ℕ, zero, suc, ◌+◌, ◌%◌, ◌<◌, ◌≤◌, ◌≡◌, ◌⊎◌, inl, inr, refl, subst, List, [], ◌∷◌, length, arith,
  All,
}
use fuzztest.Common.Abort.{done, done-injective}
use fuzztest.Common.Bytes.{ByteArray}
use fuzztest.Knobs.{num_knobs, element}
use fuzztest.Knobs.Choice.{choose_lem}
use fuzztest.ByteArrayMutator.{
  Mutator, Mutated, max_insert_size, mutate_with, mutate_same_size, mutate_increase_size, flip_bit,
  swap_bytes, change_byte, insert_bytes, overwrite_from_dictionary, overwrite_from_cmp_dictionary,
  insert_from_dictionary,
}
use fuzztest.ByteArrayMutator.Rounding.{IsSize, IsValid}
use fuzztest.ByteArrayMutator.Steps.{
  Mutates, flip_bit-Mutates, swap_bytes-Mutates, change_byte-Mutates,
  overwrite_from_dictionary-Mutates, insert_from_dictionary-Mutates,
  overwrite_from_cmp_dictionary-Mutates,
}
use fuzztest.ByteArrayMutator.Resize.{insert_bytes-Mutates}

-- A weaker claim on the length.
pub Mutates-weaken :
    (P Q : ℕ → Type 0) (bytes : ByteArray) (r : Mutated)
    → ((k : ℕ) → P k → Q k)
    → Mutates P bytes r
    → Mutates Q bytes r
Mutates-weaken P Q bytes r f (ok, out, next, e, p, s) = (ok, out, next, e, f (length out) p, s)

-- A mutator that is chosen by knobs does what all of them do.
module _ (rng : ℕ → ℕ) (m : Mutator) (P : ℕ → Type 0) (n : ℕ) (bytes : ByteArray) where
  element-Mutates :
      (mutators : List (ℕ → ByteArray → Mutated)) (i : ℕ) (f : ℕ → ByteArray → Mutated)
      → All (λ g. Mutates P bytes (g (n + 1) bytes)) mutators
      → element mutators i ≡ done f
      → Mutates P bytes (f (n + 1) bytes)
  element-Mutates [] i f h e = absurd cc
  element-Mutates (g ∷ gs) zero f (h, hs) e =
      subst (λ (t : ℕ → ByteArray → Mutated). Mutates P bytes (t (n + 1) bytes)) (done-injective e)
        h
  element-Mutates (g ∷ gs) (suc i) f (h, hs) e = element-Mutates gs i f hs e

  pub mutate_with-Mutates :
      (ids : List ℕ) (mutators : List (ℕ → ByteArray → Mutated))
      → All (λ id. id < num_knobs) ids
      → length ids ≡ length mutators
      → 0 < length mutators
      → All (λ g. Mutates P bytes (g (n + 1) bytes)) mutators
      → Mutates P bytes (mutate_with rng m ids mutators n bytes)
  unfolding mutate_with
  mutate_with-Mutates ids mutators h l pos a =
      let (i, f, e, at, w) = choose_lem m.knobs ids mutators (rng n) h l pos in
      rw e (element-Mutates mutators i f a at)

-- The knobs of the file exist.
abbrev pub HasKnobs : Mutator → Type 0
HasKnobs m = m.first_knob + 12 ≤ num_knobs

-- A size is that of a mutant: at least one byte and, unless a dictionary may add its entries, within
-- the maximum.
abbrev pub Fits : Mutator → ℕ → Type 0
Fits m k = (0 < k) × (m.dictionary ≡ [] → k ≤ m.max_len)

module _ (rng : ℕ → ℕ) (m : Mutator) (knobs : HasKnobs m) where
  pub mutate_same_size-Mutates :
      (n : ℕ) (bytes : ByteArray)
      → 0 < length bytes
      → Mutates (λ k. k ≡ length bytes) bytes (mutate_same_size rng m n bytes)
  unfolding mutate_same_size
  mutate_same_size-Mutates n bytes h =
      mutate_with-Mutates rng m (λ k. k ≡ length bytes) n bytes
        ((m.first_knob + 3)
          ∷ (m.first_knob + 4)
          ∷ (m.first_knob + 5)
          ∷ (m.first_knob + 6)
          ∷ (m.first_knob + 7)
          ∷ [])
        (flip_bit rng
          ∷ swap_bytes rng
          ∷ change_byte rng
          ∷ overwrite_from_dictionary rng m
          ∷ overwrite_from_cmp_dictionary rng m
          ∷ [])
        (omega arith, (omega arith, (omega arith, (omega arith, (omega arith, tt))))) refl
        (omega arith)
        (
          flip_bit-Mutates rng (n + 1) bytes h,
          (
            swap_bytes-Mutates rng (n + 1) bytes h,
            (
              change_byte-Mutates rng (n + 1) bytes h,
              (
                overwrite_from_dictionary-Mutates rng m (n + 1) bytes,
                (overwrite_from_cmp_dictionary-Mutates rng m bytes h (n + 1), tt),
              ),
            ),
          ),
        )

  module _ (valid : IsValid m) (small : m.size_alignment ≤ max_insert_size) where
    pub mutate_increase_size-Mutates :
        (n : ℕ) (bytes : ByteArray)
        → IsSize (length bytes)
        → Mutates
            (λ k.
              (length bytes ≤ k) × (m.dictionary ≡ [] → length bytes ≤ m.max_len → k ≤ m.max_len))
            bytes
            (mutate_increase_size rng m n bytes)
    unfolding mutate_increase_size
    mutate_increase_size-Mutates n bytes h =
        mutate_with-Mutates rng m Q n bytes ((m.first_knob + 8) ∷ (m.first_knob + 9) ∷ [])
          (insert_bytes rng m ∷ insert_from_dictionary rng m ∷ []) (omega arith, (omega arith, tt))
          refl (omega arith)
          (
            Mutates-weaken
                (λ k.
                  (k ≡ length bytes)
                  ⊎ ((length bytes ≤ k) × (k % m.size_alignment ≡ 0) × (k ≤ m.max_len)))
                Q bytes (insert_bytes rng m (n + 1) bytes) (λ k p. inserted k p)
                (insert_bytes-Mutates rng m valid (n + 1) bytes h (inl small)),
            (
              Mutates-weaken (λ k. (length bytes ≤ k) × (m.dictionary ≡ [] → k ≡ length bytes)) Q
                  bytes (insert_from_dictionary rng m (n + 1) bytes)
                  (λ k (p, q). (p, λ z l. omega (arith, q z)))
                  (insert_from_dictionary-Mutates rng m (n + 1) bytes),
              tt,
            ),
          )
      where
        Q : ℕ → Type 0
        Q k = (length bytes ≤ k) × (m.dictionary ≡ [] → length bytes ≤ m.max_len → k ≤ m.max_len)

        inserted :
            (k : ℕ)
            → (k ≡ length bytes)
              ⊎ ((length bytes ≤ k) × (k % m.size_alignment ≡ 0) × (k ≤ m.max_len))
            → (length bytes ≤ k) × (m.dictionary ≡ [] → length bytes ≤ m.max_len → k ≤ m.max_len)
        inserted k (inl e) = (omega arith, λ q l. omega arith)
        inserted k (inr (h, a, b)) = (h, λ q l. b)
