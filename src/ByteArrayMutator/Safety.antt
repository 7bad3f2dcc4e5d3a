-- ===== src/ByteArrayMutator/Safety.antt =====
-- Mutate and the choice of its mutators: accesses and sizes.
use fuzztest.Common.{
  ℕ, zero, suc, ◌+◌, ◌%◌, ◌<◌, ◌≤◌, ◌≡◌, inl, inr, refl, subst, true, false, [], ◌∷◌, ltb, ◌==◌,
  length, arith, Bool-cases, lt→ltb,
}
use fuzztest.Common.Abort.{done}
use fuzztest.Common.Bytes.{ByteArray}
use fuzztest.ByteArrayMutator.{
  Mutator, max_insert_size, mutate_same_size, mutate_increase_size, mutate_once, mutate_loop,
  mutate, erase_bytes,
}
use fuzztest.ByteArrayMutator.Rounding.{IsSize, IsValid, alignment_le}
use fuzztest.ByteArrayMutator.Steps.{Mutates}
use fuzztest.ByteArrayMutator.Resize.{erase_bytes_lem}
use fuzztest.ByteArrayMutator.Choices.{
  Mutates-weaken, mutate_with-Mutates, HasKnobs, Fits, mutate_same_size-Mutates,
  mutate_increase_size-Mutates,
}

module _ (rng : ℕ → ℕ) (m : Mutator) (knobs : HasKnobs m) where
  module _ (valid : IsValid m) (small : m.size_alignment ≤ max_insert_size) where
    erase_bytes-Mutates :
        (n : ℕ) (bytes : ByteArray)
        → IsSize (length bytes)
        → 0 < length bytes
        → Mutates (Fits m) bytes (erase_bytes rng m n bytes)
    erase_bytes-Mutates n bytes h pos = elim (erase_bytes_lem rng m valid n bytes h) [
      | inl (l, e) ↦
          (false, bytes, n, e, (pos, λ q. omega (arith, alignment_le m valid)), λ q. refl)
      | inr (out, e, some_left, less, a, le) ↦
          (true, out, n + 2, e, (some_left, λ q. le), λ q. absurd cc)
    ]

    mutate_once-Mutates :
        (n : ℕ) (bytes : ByteArray)
        → IsSize (length bytes)
        → 0 < length bytes
        → Mutates (Fits m) bytes (mutate_once rng m n bytes)
    unfolding mutate_once
    mutate_once-Mutates n bytes h pos =
        let decrease = erase_bytes-Mutates (n + 1) bytes h pos in
        let same : length bytes ≤ m.max_len
            → Mutates (Fits m) bytes (mutate_same_size rng m (n + 1) bytes) =
          λ l.
            Mutates-weaken (λ k. k ≡ length bytes) (Fits m) bytes
              (mutate_same_size rng m (n + 1) bytes) (λ k e. (omega arith, λ q. omega arith))
              (mutate_same_size-Mutates rng m knobs (n + 1) bytes pos) in
        let increase : length bytes ≤ m.max_len
            → Mutates (Fits m) bytes (mutate_increase_size rng m (n + 1) bytes) =
          λ l.
            Mutates-weaken
              (λ k.
                (length bytes ≤ k) × (m.dictionary ≡ [] → length bytes ≤ m.max_len → k ≤ m.max_len))
              (Fits m) bytes (mutate_increase_size rng m (n + 1) bytes)
              (λ k (e, f). (omega arith, λ q. f q l))
              (mutate_increase_size-Mutates rng m knobs valid small (n + 1) bytes h) in
        elim (Bool-cases (ltb m.max_len (length bytes))) [
          | inl l ↦ rw l (erase_bytes-Mutates n bytes h pos)
          | inr l ↦ elim (Bool-cases (length bytes == m.max_len)) [
            | inl e ↦
                rw (l, e)
                  (mutate_with-Mutates rng m (Fits m) n bytes
                    (m.first_knob ∷ (m.first_knob + 1) ∷ [])
                    (mutate_same_size rng m ∷ erase_bytes rng m ∷ [])
                    (omega arith, (omega arith, tt)) refl (omega arith)
                    (same (ground arith), (decrease, tt)))
            | inr e ↦
                rw (l, e)
                  (mutate_with-Mutates rng m (Fits m) n bytes
                    (m.first_knob ∷ (m.first_knob + 1) ∷ (m.first_knob + 2) ∷ [])
                    (mutate_same_size rng m ∷ mutate_increase_size rng m ∷ erase_bytes rng m ∷ [])
                    (omega arith, (omega arith, (omega arith, tt))) refl (omega arith)
                    (same (ground arith), (increase (ground arith), (decrease, tt))))
          ]
        ]

    mutate_loop-Mutates :
        (rounds n : ℕ) (bytes : ByteArray)
        → IsSize (length bytes)
        → 0 < length bytes
        → (rounds ≡ 0 → Fits m (length bytes))
        → Mutates (Fits m) bytes (mutate_loop rng m rounds n bytes)
    unfolding mutate_loop
    mutate_loop-Mutates zero n bytes h pos f = (false, bytes, n, refl, f refl, λ q. refl)
    mutate_loop-Mutates (suc rounds) n bytes h pos f =
        let (ok, out, next, e, p, s) = mutate_once-Mutates n bytes h pos in
        elim (Bool-cases ok) [
          | inl y ↦ (true, out, next, rw (mutate_loop, e, y) refl, p, λ q. absurd cc)
          | inr y ↦
              let fits : Fits m (length bytes) =
                subst (λ (t : ByteArray). Fits m (length t)) (s y) p in
              let (ok', out', next', e', p', s') =
                mutate_loop-Mutates rounds next bytes h pos (λ q. fits) in
              (ok', out', next', rw (mutate_loop, e, y, s y) e', p', s')
        ]

    shrinks :
        (rounds n : ℕ) (bytes out : ByteArray)
        → m.max_len < length bytes
        → erase_bytes rng m n bytes ≡ done (true, out, n + 2)
        → mutate_loop rng m (suc rounds) n bytes ≡ done (true, out, n + 2)
    unfolding mutate_loop mutate_once
    shrinks rounds n bytes out l e =
        let l' = lt→ltb m.max_len (length bytes) l in rw (mutate_loop, mutate_once, l', e) refl

    -- Of a valid mutator with an alignment of at most 20, with its knobs: Mutate of nonempty data
    -- fails no access, leaves at least one byte and, with an empty dictionary, at most max_len bytes;
    -- it leaves the data as they were if it returns false. Data above the maximum become an aligned
    -- number of bytes within it, with any dictionary.
    pub mutate_lem :
        (n : ℕ) (bytes : ByteArray)
        → IsSize (length bytes)
        → 0 < length bytes
        → Mutates (Fits m) bytes (mutate rng m n bytes)
          × (m.max_len < length bytes
              → (out : ByteArray) × (mutate rng m n bytes ≡ done (true, out, n + 2))
                × (length out ≤ m.max_len)
                × (length out % m.size_alignment ≡ 0))
    unfolding mutate
    mutate_lem n bytes h pos =
        (mutate_loop-Mutates 15 n bytes h pos (λ q. absurd (omega arith)), cut)
      where
        cut :
            m.max_len < length bytes
            → (out : ByteArray) × (mutate_loop rng m 15 n bytes ≡ done (true, out, n + 2))
              × (length out ≤ m.max_len)
              × (length out % m.size_alignment ≡ 0)
        cut l = elim (erase_bytes_lem rng m valid n bytes h) [
          | inl (k, e) ↦ absurd (omega (arith, alignment_le m valid))
          | inr (out, e, some_left, less, a, le) ↦ (out, shrinks 14 n bytes out l e, le, a)
        ]
