-- ===== src/ByteArrayMutator/Steps.antt =====
-- The mutators, one by one: sizes, and accesses within the data.
use Prim.Native.Nat.{bit_xor}
use fuzztest.Common.{
  ℕ, zero, suc, ◌+◌, ◌-◌, ◌*◌, ◌/◌, ◌%◌, ◌^◌, ◌<◌, ◌≤◌, ◌≡◌, ◌∙◌, inl, inr, refl, ap, Bool, true,
  false, [], ◌++◌, ltb, leb, ◌==◌, length, take, drop, set, length-set, length-append, length-take,
  length-drop, arith, Bool-cases,
}
use native.Mathlib.Nat.{mod-lt}
use fuzztest.Common.Abort.{done}
use fuzztest.Common.Bytes.{ByteArray, memcpy_at, length-memcpy_at}
use fuzztest.Knobs.Choice.{element_lem}
use fuzztest.CmpDictionary.{min_entry_size, suggest_replacement}
use fuzztest.ByteArrayMutator.{
  Mutator, Mutated, modulo, overwrite, store_byte, spliced, insert_at, erase_at, flip_bit,
  swap_bytes, change_byte, random_bytes, overwrite_from_dictionary, cmp_search,
  overwrite_from_cmp_dictionary, insert_from_dictionary, max_num_suggestions,
}

-- A mutator neither fails nor leaves its data: it gives bytes whose length `P` holds of, and the
-- same bytes if no mutation took place.
abbrev pub Mutates : (ℕ → Type 0) → ByteArray → Mutated → Type 0
Mutates P bytes r =
    (ok : Bool) × (out : ByteArray) × (next : ℕ) × (r ≡ done (ok, out, next))
    × P (length out)
    × (ok ≡ false → out ≡ bytes)

pub insert_at_done :
    (bytes : ByteArray) (at : ℕ) (from : ByteArray)
    → at ≤ length bytes
    → (insert_at bytes at from ≡ done (spliced bytes at from))
      × (length (spliced bytes at from) ≡ length bytes + length from)
insert_at_done bytes at from h =
    let e : ltb (length bytes) at ≡ false = ground arith in
    (
      rw e refl,
      omega (
        arith,
        length-append (take at bytes) (from ++ drop at bytes),
        length-append from (drop at bytes),
        length-take at bytes,
        length-drop at bytes,
      ),
    )

store_byte_done :
    (bytes : ByteArray) (at value : ℕ)
    → at < length bytes
    → (store_byte bytes at value ≡ done (set bytes at value))
      × (length (set bytes at value) ≡ length bytes)
store_byte_done bytes at value h =
    let e : leb (length bytes) at ≡ false = ground arith in (rw e refl, length-set bytes at value)

pub length-erase_at :
    (bytes : ByteArray) (at n : ℕ)
    → at + n ≤ length bytes
    → length (erase_at bytes at n) + n ≡ length bytes
length-erase_at bytes at n h = omega (
  arith,
  length-append (take at bytes) (drop (at + n) bytes),
  length-take at bytes,
  length-drop (at + n) bytes,
)

pub overwrite_done :
    (bytes : ByteArray) (at : ℕ) (from : ByteArray)
    → at + length from ≤ length bytes
    → (overwrite bytes at from ≡ done (memcpy_at bytes at from))
      × (length (memcpy_at bytes at from) ≡ length bytes)
overwrite_done bytes at from h =
    let e : ltb (length bytes) (at + length from) ≡ false = ground arith in
    (rw e refl, length-memcpy_at bytes at from h)

pub modulo_done : (a b : ℕ) → 0 < b → (modulo a b ≡ done (a % b)) × (a % b < b)
modulo_done a b h = let e : (b == 0) ≡ false = ground arith in (rw e refl, mod-lt a h)

module _ (rng : ℕ → ℕ) (n : ℕ) (bytes : ByteArray) (some_bytes : 0 < length bytes) where
  pub flip_bit-Mutates : Mutates (λ k. k ≡ length bytes) bytes (flip_bit rng n bytes)
  unfolding flip_bit
  flip_bit-Mutates =
      let (e, l) = modulo_done (rng n) (length bytes * 8) (omega arith) in
      let bit = rng n % (length bytes * 8) in
      let (byte, read) = element_lem bytes (bit / 8) (omega arith) in
      let flipped = bit_xor byte (2 ^ (bit % 8)) in
      let (stored, same) = store_byte_done bytes (bit / 8) flipped (omega arith) in
      (true, set bytes (bit / 8) flipped, n + 1, rw (e, read, stored) refl, same, λ q. absurd cc)

  pub swap_bytes-Mutates : Mutates (λ k. k ≡ length bytes) bytes (swap_bytes rng n bytes)
  unfolding swap_bytes
  swap_bytes-Mutates =
      let (e, l) = modulo_done (rng n) (length bytes) some_bytes in
      let (e', l') = modulo_done (rng (n + 1)) (length bytes) some_bytes in
      let i = rng n % length bytes in
      let j = rng (n + 1) % length bytes in
      let (byte1, read1) = element_lem bytes i l in
      let (byte2, read2) = element_lem bytes j l' in
      let (stored, same) = store_byte_done bytes i byte2 l in
      let once = set bytes i byte2 in
      let (stored', same') = store_byte_done once j byte1 (omega arith) in
      (
        true,
        set once j byte1,
        n + 2,
        rw (e, e', read1, read2, stored, stored') refl,
        same' ∙ same,
        λ q. absurd cc,
      )

  pub change_byte-Mutates : Mutates (λ k. k ≡ length bytes) bytes (change_byte rng n bytes)
  unfolding change_byte
  change_byte-Mutates =
      let (e, l) = modulo_done (rng n) (length bytes) some_bytes in
      let i = rng n % length bytes in
      let (stored, same) = store_byte_done bytes i (rng (n + 1) % 256) l in
      (true, set bytes i (rng (n + 1) % 256), n + 2, rw (e, stored) refl, same, λ q. absurd cc)

pub length-random_bytes : (rng : ℕ → ℕ) (k n : ℕ) → length (random_bytes rng k n) ≡ k
unfolding random_bytes
length-random_bytes rng zero n = refl
length-random_bytes rng (suc k) n = ap suc (length-random_bytes rng k (suc n))

module _ (rng : ℕ → ℕ) (m : Mutator) (n : ℕ) (bytes : ByteArray) where
  pub overwrite_from_dictionary-Mutates :
      Mutates (λ k. k ≡ length bytes) bytes (overwrite_from_dictionary rng m n bytes)
  unfolding overwrite_from_dictionary
  overwrite_from_dictionary-Mutates = elim (Bool-cases (length m.dictionary == 0)) [
    | inl z ↦ (false, bytes, n, rw z refl, refl, λ q. refl)
    | inr z ↦
        let i = rng n % length m.dictionary in
        let (entry, e) = element_lem m.dictionary i (mod-lt (rng n) (ground arith)) in
        elim (Bool-cases (ltb (length bytes) (length entry))) [
          | inl l ↦ (false, bytes, n + 1, rw (z, e, l) refl, refl, λ q. refl)
          | inr l ↦
              let room = length bytes - length entry + 1 in
              let at = rng (n + 1) % room in
              let fits : length entry ≤ length bytes = ground arith in
              let inside = mod-lt (rng (n + 1)) {m = room} (omega arith) in
              let (w, k) = overwrite_done bytes at entry (omega arith) in
              (true, memcpy_at bytes at entry, n + 2, rw (z, e, l, w) refl, k, λ q. absurd cc)
        ]
  ]

  pub insert_from_dictionary-Mutates :
      Mutates
        (λ k. (length bytes ≤ k) × (m.dictionary ≡ [] → k ≡ length bytes))
        bytes
        (insert_from_dictionary rng m n bytes)
  unfolding insert_from_dictionary
  insert_from_dictionary-Mutates = elim (Bool-cases (length m.dictionary == 0)) [
    | inl z ↦ (false, bytes, n, rw z refl, (omega arith, λ q. refl), λ q. refl)
    | inr z ↦
        let i = rng n % length m.dictionary in
        let (entry, e) = element_lem m.dictionary i (mod-lt (rng n) (ground arith)) in
        let at = rng (n + 1) % (length bytes + 1) in
        let inside = mod-lt (rng (n + 1)) {m = length bytes + 1} (omega arith) in
        let not_empty : m.dictionary ≡ [] → length m.dictionary ≡ 0 = λ q. ap length q in
        let (w, sized) = insert_at_done bytes at entry (omega arith) in
        (
          true,
          spliced bytes at entry,
          n + 2,
          rw (z, e, w) refl,
          (omega arith, λ q. absurd (ground (arith, not_empty q))),
          λ q. absurd cc,
        )
  ]

module _ (rng : ℕ → ℕ) (m : Mutator) (bytes : ByteArray) (some_bytes : 0 < length bytes) where
  cmp_search-Mutates :
      (rounds i start n : ℕ)
      → Mutates (λ k. k ≡ length bytes) bytes (cmp_search rng m rounds i start n bytes)
  unfolding cmp_search
  cmp_search-Mutates zero i start n = (false, bytes, n, refl, refl, λ q. refl)
  cmp_search-Mutates (suc rounds) i start n =
      let idx = (start + i) % length bytes in
      let suggestions = suggest_replacement m.cmp_dictionary (drop idx bytes) max_num_suggestions in
      elim (Bool-cases (leb (length bytes) (idx + min_entry_size))) [
        | inl l ↦ rw l (cmp_search-Mutates rounds (suc i) start n)
        | inr l ↦ elim (Bool-cases (length suggestions == 0)) [
          | inl z ↦ rw (l, z) (cmp_search-Mutates rounds (suc i) start n)
          | inr z ↦
              let (s, e) =
                element_lem suggestions (rng n % length suggestions)
                  (mod-lt (rng n) (ground arith)) in
              elim (Bool-cases (leb (idx + length s) (length bytes))) [
                | inl k ↦
                    let (w, same) = overwrite_done bytes idx s (ground arith) in
                    (
                      true,
                      memcpy_at bytes idx s,
                      n + 1,
                      rw (l, z, e, k, w) refl,
                      same,
                      λ q. absurd cc,
                    )
                | inr k ↦ rw (l, z, e, k) (cmp_search-Mutates rounds (suc i) start (n + 1))
              ]
        ]
      ]

  pub overwrite_from_cmp_dictionary-Mutates :
      (n : ℕ) → Mutates (λ k. k ≡ length bytes) bytes (overwrite_from_cmp_dictionary rng m n bytes)
  unfolding overwrite_from_cmp_dictionary
  overwrite_from_cmp_dictionary-Mutates n = elim (Bool-cases (length m.cmp_dictionary == 0)) [
    | inl z ↦ (false, bytes, n, rw z refl, refl, λ q. refl)
    | inr z ↦ elim (Bool-cases (ltb (length bytes) min_entry_size)) [
      | inl l ↦ (false, bytes, n, rw (z, l) refl, refl, λ q. refl)
      | inr l ↦ rw (z, l) (cmp_search-Mutates (length bytes) 0 (rng n % length bytes) (n + 1))
    ]
  ]
