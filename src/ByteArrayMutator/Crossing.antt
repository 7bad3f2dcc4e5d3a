-- ===== src/ByteArrayMutator/Crossing.antt =====
-- The crossovers: sizes, and accesses within the data.
use fuzztest.Common.{
  ℕ, ◌+◌, ◌-◌, ◌/◌, ◌%◌, ◌^◌, ◌<◌, ◌≤◌, ◌≡◌, ◌≢◌, ◌⊎◌, ◌∙◌, inl, inr, refl, sym, false, ltb,
  if◌then◌else◌, length, take, drop, length-take, length-drop, arith, Bool-cases, min, max,
}
use native.Mathlib.Nat.{mod-lt, mod-eq-sub-mod, mod-add-mod, mod-eq_of_lt}
use fuzztest.Common.Abort.{done, ◌>>=◌}
use fuzztest.Common.Bytes.{ByteArray, sub64, memcpy_at}
use fuzztest.ByteArrayMutator.{
  Mutator, modulo, overwrite, slice, insert_at, spliced, round_up_to_add,
}
use fuzztest.ByteArrayMutator.Crossover.{Crossed, cross_over_insert, cross_over_overwrite}
use fuzztest.ByteArrayMutator.Rounding.{IsSize, IsValid, round_up_to_add_lem}
use fuzztest.ByteArrayMutator.Steps.{modulo_done, insert_at_done, overwrite_done}

-- A crossover does not fail, and `P` holds of the number of bytes that it leaves.
abbrev pub Crosses : (ℕ → Type 0) → Crossed → Type 0
Crosses P r = (out : ByteArray) × (next : ℕ) × (r ≡ done (out, next)) × P (length out)

-- The remainder of a sum, where the remainders add up to more than a multiple.
wraps : (c u a : ℕ) → 0 < a → a < c % a + u → u < a → (c + u) % a ≢ 0
wraps c u a h k l e =
    let r = mod-lt c h in
    let s : (c % a + u) % a ≡ 0 = mod-add-mod c a u ∙ e in
    let t = mod-eq-sub-mod {n = c % a + u} {m = a} (omega arith) in
    let w = mod-eq_of_lt {n = c % a + u - a} {m = a} (omega arith) in omega arith

module _ (rng : ℕ → ℕ) (m : Mutator) (n : ℕ) (bytes other : ByteArray) where
  slice_done :
      (first size : ℕ)
      → first + size ≤ length other
      → (slice other first size ≡ done (take size (drop first other)))
        × (length (take size (drop first other)) ≡ size)
  slice_done first size h =
      let e : ltb (length other) (first + size) ≡ false = ground arith in
      (rw e refl, omega (arith, length-take size (drop first other), length-drop first other))

  -- The last steps of CrossOverInsert, which inserts `size` bytes.
  insert_part :
      (size : ℕ)
      → size ≤ length other
      → IsSize (length other)
      → Crosses
          (λ k. k ≡ length bytes + size)
          (modulo (rng (n + 1)) (sub64 (length other + 1) size) >>= λ first.
            slice other first size >>= λ part.
            insert_at bytes (rng (n + 2) % (length bytes + 1)) part >>= λ bytes'.
            done (bytes', n + 3))
  insert_part size le ho =
      let room : sub64 (length other + 1) size ≡ length other - size + 1 = omega arith in
      let (e, r) = modulo_done (rng (n + 1)) (length other - size + 1) (omega arith) in
      let first = rng (n + 1) % (length other - size + 1) in
      let part = take size (drop first other) in
      let (p, l) = slice_done first size (omega arith) in
      let at = rng (n + 2) % (length bytes + 1) in
      let inside = mod-lt (rng (n + 2)) {m = length bytes + 1} (omega arith) in
      let (i, sized) = insert_at_done bytes at part (omega arith) in
      (spliced bytes at part, n + 3, rw (room, e, p, i) refl, omega arith)

  -- The last steps of CrossOverOverwrite, which copies `size` bytes from `first`.
  overwrite_part :
      (first size : ℕ)
      → first + size ≤ length other
      → size ≤ length bytes
      → IsSize (length bytes)
      → Crosses
          (λ k. k ≡ length bytes)
          (slice other first size >>= λ part.
            modulo (rng (n + 2)) ((sub64 (length bytes) size + 1) % 2 ^ 64) >>= λ pos.
            overwrite bytes pos part >>= λ bytes'. done (bytes', n + 3))
  overwrite_part first size h k hb =
      let room : (sub64 (length bytes) size + 1) % 2 ^ 64 ≡ length bytes - size + 1 = omega arith in
      let (e, r) = modulo_done (rng (n + 2)) (length bytes - size + 1) (omega arith) in
      let part = take size (drop first other) in
      let (p, l) = slice_done first size h in
      let at = rng (n + 2) % (length bytes - size + 1) in
      let (w, same) = overwrite_done bytes at part (omega arith) in
      (memcpy_at bytes at part, n + 3, rw (p, room, e, w) refl, same)

  -- The number of bytes that CrossOverInsert inserts.
  insert_size_lem :
      (t : ℕ)
      → IsValid m
      → IsSize (length bytes)
      → IsSize (length other)
      → length bytes < m.max_len
      → m.size_alignment ≤ length bytes % m.size_alignment + length other
      → 0 < t
      → t ≤ length other
      → (k : ℕ) × ((if ltb (length other) (round_up_to_add m (length bytes) t)
            then sub64 (round_up_to_add m (length bytes) t) m.size_alignment
            else round_up_to_add m (length bytes) t)
          ≡ k)
        × (k ≤ length other)
        × ((length bytes + k) % m.size_alignment ≡ 0)
        × (length bytes + k ≤ m.max_len)
  unfolding IsValid
  insert_size_lem t valid hb ho room guard pos le =
      elim (round_up_to_add_lem m (length bytes) t valid hb (omega arith)) [
        | inl (l, e) ↦ absurd (omega arith)
        | inr (added, e, a, fits, enough, lt) ↦ elim (Bool-cases (ltb (length other) added)) [
          | inr k ↦ (added, rw (e, k) refl, ground arith, a, fits)
          | inl k ↦
              let whole : m.size_alignment ≤ added =
                elim (Bool-cases (ltb added m.size_alignment)) [
                  | inl q ↦ absurd (
                      wraps (length bytes) added m.size_alignment valid.0 (ground arith)
                        (ground arith) a)
                  | inr q ↦ ground arith
                ] in
              let s : sub64 added m.size_alignment ≡ added - m.size_alignment =
                omega (arith, valid.1) in
              let c : length bytes + (added - m.size_alignment)
                  ≡ length bytes + added - m.size_alignment =
                omega arith in
              let less =
                mod-eq-sub-mod {n = length bytes + added} {m = m.size_alignment} (omega arith) in
              (added - m.size_alignment, rw (e, k) s, omega arith, rw c (sym less ∙ a), omega arith)
        ]
      ]

  -- Of a valid mutator, on data below the maximum and a nonempty other input: CrossOverInsert takes
  -- the part that it inserts from within the other input. It leaves the data's size, or an aligned
  -- size that is no smaller and within the maximum.
  pub cross_over_insert_lem :
      IsValid m
      → IsSize (length bytes)
      → IsSize (length other)
      → length bytes < m.max_len
      → 0 < length other
      → Crosses
          (λ k.
            (length bytes ≤ k)
            × (k ≤ m.max_len)
            × ((k ≡ length bytes) ⊎ (k % m.size_alignment ≡ 0)))
          (cross_over_insert rng m n bytes other)
  unfolding cross_over_insert
  cross_over_insert_lem valid hb ho room some_other =
      elim (Bool-cases (ltb (length bytes % m.size_alignment + length other) m.size_alignment)) [
        | inl l ↦ (bytes, n, rw l refl, (omega arith, omega arith, inl refl))
        | inr l ↦
            let (e, r) = modulo_done (rng n) (length other) some_other in
            let (k, s, le, a, fits) =
              insert_size_lem (1 + rng n % length other) valid hb ho room (ground arith)
                (omega arith) (omega arith) in
            let (out, next, e', whole) = insert_part k le ho in
            (out, next, rw (l, e, s, e') refl, (omega arith, omega arith, inr (rw whole a)))
      ]

  pub cross_over_overwrite-Crosses :
      IsSize (length bytes)
      → 0 < length bytes
      → 0 < length other
      → Crosses (λ k. k ≡ length bytes) (cross_over_overwrite rng m n bytes other)
  unfolding cross_over_overwrite
  cross_over_overwrite-Crosses hb some_bytes some_other =
      let (e, r) = modulo_done (rng n) (length other) some_other in
      let first = rng n % length other in
      let max_size = min (max 1 (length bytes / 2)) (length other - first) in
      let bound : (0 < max_size) × (max_size ≤ length bytes) × (first + max_size ≤ length other) =
        (ground arith, ground arith, ground arith) in
      let (e', r') = modulo_done (rng (n + 1)) max_size bound.0 in
      let size = 1 + rng (n + 1) % max_size in
      let (out, next, e'', same) =
        overwrite_part first size (omega (arith, bound.2)) (omega (arith, bound.1)) hb in
      (out, next, rw (e, e', e'') refl, same)
