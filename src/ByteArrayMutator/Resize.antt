-- ===== src/ByteArrayMutator/Resize.antt =====
-- InsertBytes and EraseBytes: sizes, and accesses within the arrays.
use fuzztest.Common.{
  ℕ, ◌+◌, ◌-◌, ◌/◌, ◌%◌, ◌<◌, ◌≤◌, ◌≡◌, ◌⊎◌, ◌↔◌, ◌∙◌, inl, inr, refl, sym, ap, true, false, ◌&&◌,
  ltb, leb, ◌==◌, if◌then◌else◌, length, arith, Bool-cases, lt→ltb,
}
use native.Mathlib.Nat.{mod-lt, mod-eq-sub-mod, mod-add-mod, mod-eq_of_lt}
use fuzztest.Common.Abort.{aborted, done}
use fuzztest.Common.Bytes.{ByteArray, add64, sub64}
use fuzztest.ByteArrayMutator.{
  Mutator, spliced, erase_at, max_insert_size, round_up_to_add, round_down_to_remove, random_bytes,
  insert_bytes, erase_bytes,
}
use fuzztest.ByteArrayMutator.Rounding.{
  IsSize, IsValid, round_up_to_add_lem, round_down_to_remove_lem,
}
use fuzztest.ByteArrayMutator.Steps.{
  Mutates, modulo_done, insert_at_done, length-erase_at, length-random_bytes,
}

-- RoundUpToAdd as InsertBytes uses it: the number of new bytes.
num_new_bytes_lem :
    (m : Mutator) (c t : ℕ)
    → IsValid m
    → IsSize c
    → 0 < t
    → t ≤ max_insert_size
    → (m.size_alignment ≤ max_insert_size) ⊎ (c % m.size_alignment ≡ 0)
    → (k : ℕ) × ((if ltb max_insert_size (round_up_to_add m c t)
          then sub64 (round_up_to_add m c t) m.size_alignment
          else round_up_to_add m c t)
        ≡ k)
      × (k ≤ max_insert_size)
      × ((k ≡ 0) ⊎ (((c + k) % m.size_alignment ≡ 0) × (c + k ≤ m.max_len)))
unfolding IsValid
num_new_bytes_lem m c t p hc ht hl al = elim (round_up_to_add_lem m c t p hc (omega arith)) [
  | inl (l, e) ↦ (0, rw e refl, omega arith, inl refl)
  | inr (added, e, a, le, enough, lt) ↦ elim (Bool-cases (ltb max_insert_size added)) [
    | inl k ↦
        let pos : max_insert_size < added = ground arith in
        let fits : m.size_alignment ≤ added = fits_lem al added a pos in
        let s : sub64 added m.size_alignment ≡ added - m.size_alignment = omega (arith, p.1, p.3) in
        let drop_one : c + (added - m.size_alignment) ≡ c + added - m.size_alignment =
          omega arith in
        let less = mod-eq-sub-mod {n = c + added} {m = m.size_alignment} (omega arith) in
        (
          added - m.size_alignment,
          rw (e, k) s,
          omega arith,
          inr (rw drop_one (sym less ∙ a), omega arith),
        )
    | inr k ↦ (added, rw (e, k) refl, ground arith, inr (a, le))
  ]
]
  where
    fits_lem :
        ((m.size_alignment ≤ max_insert_size) ⊎ (c % m.size_alignment ≡ 0))
        → (added : ℕ) → (c + added) % m.size_alignment ≡ 0
        → max_insert_size < added
        → m.size_alignment ≤ added
    fits_lem (inl h) added a k = omega arith
    fits_lem (inr h) added a k =
        let unit : added ≡ 0 + added = omega arith in
        let e : added % m.size_alignment ≡ 0 =
          ap (λ (t : ℕ). t % m.size_alignment) unit
          ∙ ap (λ (t : ℕ). (t + added) % m.size_alignment) (sym h)
          ∙ mod-add-mod c m.size_alignment added
          ∙ a in
        elim (Bool-cases (ltb added m.size_alignment)) [
          | inl l ↦
              absurd (omega (arith, mod-eq_of_lt {n = added} {m = m.size_alignment} (ground arith)))
          | inr l ↦ ground arith
        ]

module _ (rng : ℕ → ℕ) (m : Mutator) (valid : IsValid m) (n : ℕ) (bytes : ByteArray)
    (fits : IsSize (length bytes)) where
  -- Of a valid mutator whose alignment is at most the 20 bytes of the array of new bytes, or on data
  -- that are aligned: InsertBytes stays within its arrays. If it changes the size, the new size is
  -- aligned and within the maximum.
  pub insert_bytes-Mutates :
      (m.size_alignment ≤ max_insert_size) ⊎ (length bytes % m.size_alignment ≡ 0)
      → Mutates
          (λ k.
            (k ≡ length bytes)
            ⊎ ((length bytes ≤ k) × (k % m.size_alignment ≡ 0) × (k ≤ m.max_len)))
          bytes
          (insert_bytes rng m n bytes)
  unfolding insert_bytes
  insert_bytes-Mutates al =
      let wanted = rng n % max_insert_size + 1 in
      let (k, e, small, sized) =
        num_new_bytes_lem m (length bytes) wanted valid fits (omega arith) (omega arith) al in
      let small' : ltb max_insert_size k ≡ false = ground arith in
      let at = rng (n + 1) % (length bytes + 1) in
      let inside = mod-lt (rng (n + 1)) {m = length bytes + 1} (omega arith) in
      let new = random_bytes rng k (n + 2) in
      let (i, sized_new) = insert_at_done bytes at new (omega arith) in
      let l : length (spliced bytes at new) ≡ length bytes + k =
        omega (arith, length-random_bytes rng k (n + 2)) in
      (
        true,
        spliced bytes at new,
        n + 2 + k,
        rw (e, small', i) refl,
        size_lem k l sized,
        λ q. absurd cc,
      )
    where
      size_lem :
          (k : ℕ)
          → {l : ℕ} → l ≡ length bytes + k
          → (k ≡ 0) ⊎ (((length bytes + k) % m.size_alignment ≡ 0) × (length bytes + k ≤ m.max_len))
          → (l ≡ length bytes) ⊎ ((length bytes ≤ l) × (l % m.size_alignment ≡ 0) × (l ≤ m.max_len))
      size_lem k e (inl z) = inl (omega arith)
      size_lem k e (inr (a, b)) = inr (omega arith, rw e a, omega arith)

  -- Of a valid mutator, EraseBytes stays within the data. It gives up on data within one alignment;
  -- otherwise it leaves fewer bytes, at least one, an aligned number within the maximum.
  pub erase_bytes_lem :
      ((length bytes ≤ m.size_alignment) × (erase_bytes rng m n bytes ≡ done (false, bytes, n)))
      ⊎ ((out : ByteArray) × (erase_bytes rng m n bytes ≡ done (true, out, n + 2))
          × (0 < length out)
          × (length out < length bytes)
          × (length out % m.size_alignment ≡ 0)
          × (length out ≤ m.max_len))
  unfolding erase_bytes IsValid
  erase_bytes_lem = elim (Bool-cases (leb (length bytes) m.size_alignment)) [
    | inl l ↦ inl (ground arith, rw l refl)
    | inr l ↦
        let half = length bytes / 2 in
        let big : 0 < half = ground (arith, valid.0) in
        let (e, h) = modulo_done (rng n) half big in
        let t = rng n % half + 1 in
        elim (round_down_to_remove_lem m (length bytes) t valid fits (omega arith)) [
          | inl (s, z) ↦ absurd (ground arith)
          | inr (left, total, some_removed, some_left, a, le) ↦
              let k = round_down_to_remove m (length bytes) t in
              let room : add64 (sub64 (length bytes) k) 1 ≡ left + 1 = omega arith in
              let (e', h') = modulo_done (rng (n + 1)) (left + 1) (omega arith) in
              let at = rng (n + 1) % (left + 1) in
              let not_zero : (k == 0) ≡ false = ground arith in
              let inside : ltb (length bytes) (at + k) ≡ false = ground arith in
              let size : length (erase_at bytes at k) ≡ left =
                omega (arith, length-erase_at bytes at k (omega arith)) in
              inr (
                erase_at bytes at k,
                rw (l, e, not_zero, room, e', inside) refl,
                omega arith,
                omega arith,
                rw size a,
                omega arith,
              )
        ]
  ]

-- The number of new bytes is above 20 where the rounded number is between 20 and the alignment.
too_many :
    (r a : ℕ)
    → IsSize a
    → r < max_insert_size + a
    → ltb max_insert_size (if ltb max_insert_size r then sub64 r a else r)
      ≡ (ltb max_insert_size r && ltb r a)
too_many r a h l = elim (Bool-cases (ltb max_insert_size r)) [
  | inl k ↦ elim (Bool-cases (ltb r a)) [
    | inl q ↦
        let big : max_insert_size < sub64 r a = ground arith in
        rw (k, q) (lt→ltb max_insert_size (sub64 r a) big)
    | inr q ↦ let small : sub64 r a ≤ max_insert_size = ground arith in rw (k, q) (ground arith)
  ]
  | inr k ↦ rw k k
]

-- Of a valid mutator and data below 2 ^ 62 bytes: InsertBytes leaves its array of 20 new bytes
-- exactly when the rounded number of new bytes is above 20 and below the alignment, where taking
-- off one alignment wraps around.
pub insert_bytes-aborts :
    (rng : ℕ → ℕ) (m : Mutator) (n : ℕ) (bytes : ByteArray)
    → IsValid m
    → IsSize (length bytes)
    → (insert_bytes rng m n bytes ≡ aborted) ↔ (
        (max_insert_size < round_up_to_add m (length bytes) (rng n % max_insert_size + 1))
        × (round_up_to_add m (length bytes) (rng n % max_insert_size + 1) < m.size_alignment))
unfolding insert_bytes IsValid
insert_bytes-aborts rng m n bytes valid fits =
    let r = round_up_to_add m (length bytes) (rng n % max_insert_size + 1) in
    let bound : r < max_insert_size + m.size_alignment =
      elim (round_up_to_add_lem m (length bytes) (rng n % max_insert_size + 1) valid fits
        (omega arith)) [
          | inl (l, e) ↦ omega arith
          | inr (added, e, a, le, enough, lt) ↦ omega arith
        ] in
    let e = too_many r m.size_alignment valid.1 bound in
    let at = rng (n + 1) % (length bytes + 1) in
    let inside = mod-lt (rng (n + 1)) {m = length bytes + 1} (omega arith) in
    let within : ltb (length bytes) at ≡ false = ground arith in
    elim (Bool-cases (ltb max_insert_size r && ltb r m.size_alignment)) [
      | inl t ↦ ((λ q. (ground arith, ground arith)), (λ q. rw (e, t) refl))
      | inr t ↦
          ((λ q. let p = rw (e, t, within) at q in absurd cc), (λ (k, l). absurd (ground arith)))
    ]
