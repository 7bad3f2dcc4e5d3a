-- ===== src/ByteArrayMutator/Rounding.antt =====
-- The alignment of sizes.
use fuzztest.Common.{
  ℕ, ◌+◌, ◌-◌, ◌*◌, ◌/◌, ◌%◌, ◌^◌, ◌<◌, ◌≤◌, ◌≡◌, ◌≢◌, ◌⊎◌, ◌∙◌, inl, inr, refl, true, false, ltb,
  leb, ◌==◌, if◌then◌else◌, arith, Bool-cases,
}
use native.Mathlib.Nat.{mod-lt, mod-eq_of_lt, div-add-mod, mul-mod_right, mod_self, mod-le}
use fuzztest.Common.Bytes.{add64, sub64}
use fuzztest.ByteArrayMutator.{Mutator, size_max, round_up_to_add, round_down_to_remove}

-- Sizes of data in memory, and the alignment, are far below 2 ^ 64.
abbrev pub IsSize : ℕ → Type 0
IsSize n = n < 2 ^ 62

-- The maximum is no limit, or it is aligned.
unfoldable pub IsValid : Mutator → Type 0
IsValid m =
    (0 < m.size_alignment)
    × IsSize m.size_alignment
    × (0 < m.max_len)
    × (m.max_len ≤ size_max)
    × ((m.max_len ≡ size_max) ⊎ (m.max_len % m.size_alignment ≡ 0))

-- An alignment is no larger than the maximum.
pub alignment_le : (m : Mutator) → IsValid m → m.size_alignment ≤ m.max_len
unfolding IsValid
alignment_le m (ha, hs, hp, hm, inl e) = omega arith
alignment_le m (ha, hs, hp, hm, inr e) = elim (Bool-cases (leb m.size_alignment m.max_len)) [
  | inl h ↦ ground arith
  | inr h ↦
      absurd (omega (arith, mod-eq_of_lt {n = m.max_len} {m = m.size_alignment} (ground arith)))
]

-- The next multiple of `a`.
pub aligned_above : (x a : ℕ) → 0 < a → (x + (a - x % a)) % a ≡ 0
aligned_above x a h =
    let q = div-add-mod x a in
    let r = mod-lt x h in
    let e : x + (a - x % a) ≡ a * (x / a + 1) = grind (arith, q, r) in
    rw e (mul-mod_right a (x / a + 1))

-- The multiple of `a` below or at `x`.
pub aligned_below : (x a : ℕ) → (x - x % a) % a ≡ 0
aligned_below x a =
    let q = div-add-mod x a in
    let e : x - x % a ≡ a * (x / a) = omega (arith, q) in rw e (mul-mod_right a (x / a))

-- What RoundUpToAdd rounds to, with no limit.
pub rounded_up :
    (m : Mutator) (c t : ℕ)
    → IsValid m
    → IsSize c
    → IsSize t
    → c < m.max_len
    → (u : ℕ) × ((c + u) % m.size_alignment ≡ 0)
      × (t ≤ u)
      × (u < t + m.size_alignment)
      × (round_up_to_add m c t ≡ (if ltb m.max_len (c + u) then m.max_len - c else u))
unfolding IsValid round_up_to_add
rounded_up m c t (ha, hs, hp, hm, al) hc ht l =
    let below : leb m.max_len c ≡ false = ground arith in
    let e : add64 c t ≡ c + t = omega arith in
    let r = mod-lt (c + t) ha in
    elim (Bool-cases ((c + t) % m.size_alignment == 0)) [
      | inl z ↦
          let e' : add64 c t ≡ c + t = omega arith in
          (t, ground arith, omega arith, omega arith, rw (below, e, z, e) refl)
      | inr z ↦
          let u = t + (m.size_alignment - (c + t) % m.size_alignment) in
          let nz : (c + t) % m.size_alignment ≢ 0 = λ q. ground arith in
          let a = aligned_above (c + t) m.size_alignment ha in
          let v : sub64 (add64 t m.size_alignment) ((c + t) % m.size_alignment) ≡ u = omega arith in
          let w : add64 c u ≡ c + u = omega arith in
          let s : c + u ≡ c + t + (m.size_alignment - (c + t) % m.size_alignment) = omega arith in
          (u, rw s a, omega arith, omega arith, rw (below, e, z, v, w) refl)
    ]

round_up_at_limit : (m : Mutator) (c t : ℕ) → leb m.max_len c ≡ true → round_up_to_add m c t ≡ 0
unfolding round_up_to_add
round_up_at_limit m c t l = rw l refl

-- Of a valid mutator with sizes below 2 ^ 62: RoundUpToAdd adds nothing to a size at or above the
-- maximum, and otherwise leads to an aligned size within the maximum, by at least the bytes that
-- were asked for or up to the maximum, and by less than one alignment more than were asked for.
pub round_up_to_add_lem :
    (m : Mutator) (curr_size to_add : ℕ)
    → IsValid m
    → IsSize curr_size
    → IsSize to_add
    → ((m.max_len ≤ curr_size) × (round_up_to_add m curr_size to_add ≡ 0))
      ⊎ ((added : ℕ) × (round_up_to_add m curr_size to_add ≡ added)
          × ((curr_size + added) % m.size_alignment ≡ 0)
          × (curr_size + added ≤ m.max_len)
          × ((to_add ≤ added) ⊎ (curr_size + added ≡ m.max_len))
          × (added < to_add + m.size_alignment))
unfolding IsValid
round_up_to_add_lem m c t p hc ht = elim (Bool-cases (leb m.max_len c)) [
  | inl l ↦ inl (ground arith, round_up_at_limit m c t l)
  | inr l ↦
      let (ha, hs, hp, hm, al) = p in
      let (u, a, lo, hi, e) = rounded_up m c t p hc ht (ground arith) in
      elim (Bool-cases (ltb m.max_len (c + u))) [
        | inl k ↦
            let whole : c + (m.max_len - c) ≡ m.max_len = ground arith in
            inr (
              m.max_len - c,
              e ∙ rw k refl,
              rw whole (limit_aligned al u (ground arith) lo hi),
              omega arith,
              inr whole,
              ground arith,
            )
        | inr k ↦ inr (u, e ∙ rw k refl, a, ground arith, inl lo, hi)
      ]
]
  where
    limit_aligned :
        ((m.max_len ≡ size_max) ⊎ (m.max_len % m.size_alignment ≡ 0))
        → (u : ℕ) → m.max_len < c + u
        → t ≤ u
        → u < t + m.size_alignment
        → m.max_len % m.size_alignment ≡ 0
    limit_aligned (inl e) u k lo hi = absurd (omega (arith, p.1))
    limit_aligned (inr e) u k lo hi = e

-- Of a valid mutator: RoundDownToRemove removes nothing from a size within one alignment, and
-- otherwise removes some bytes and leaves an aligned size that is not zero and within the maximum.
pub round_down_to_remove_lem :
    (m : Mutator) (curr_size to_remove : ℕ)
    → IsValid m
    → IsSize curr_size
    → 0 < to_remove
    → ((curr_size ≤ m.size_alignment) × (round_down_to_remove m curr_size to_remove ≡ 0))
      ⊎ ((left : ℕ) × (round_down_to_remove m curr_size to_remove + left ≡ curr_size)
          × (0 < round_down_to_remove m curr_size to_remove)
          × (0 < left)
          × (left % m.size_alignment ≡ 0)
          × (left ≤ m.max_len))
unfolding IsValid round_down_to_remove
round_down_to_remove_lem m c t (ha, hs, hp, hm, al) hc ht =
    elim (Bool-cases (leb c m.size_alignment)) [
      | inl l ↦ inl (ground arith, rw l refl)
      | inr l ↦
          let limit = alignment_le m (ha, hs, hp, hm, al) in
          elim (Bool-cases (leb c t)) [
            | inl k ↦ inr (
              m.size_alignment,
              rw (l, k) (ground arith),
              rw (l, k) (ground arith),
              ha,
              mod_self m.size_alignment,
              limit,
            )
            | inr k ↦
                let cut = c - t in
                let result = cut - cut % m.size_alignment in
                let low = mod-le cut m.size_alignment in
                let a = aligned_below cut m.size_alignment in
                elim (Bool-cases (ltb m.max_len result)) [
                  | inl o ↦ inr (
                    m.max_len,
                    rw (l, k, o) (ground arith),
                    rw (l, k, o) (ground arith),
                    hp,
                    limit_aligned al (ground arith),
                    omega arith,
                  )
                  | inr o ↦ elim (Bool-cases (result == 0)) [
                    | inl z ↦
                        let zero_left : result ≡ 0 = ground arith in
                        let e : sub64 (c - result) m.size_alignment ≡ c - m.size_alignment =
                          ground arith in
                        inr (
                          m.size_alignment,
                          rw (l, k, o, z, e) (ground arith),
                          rw (l, k, o, z, e) (ground arith),
                          ha,
                          mod_self m.size_alignment,
                          limit,
                        )
                    | inr z ↦
                        let some_left : result ≢ 0 = λ q. ground arith in
                        inr (
                          result,
                          rw (l, k, o, z) (omega arith),
                          rw (l, k, o, z) (ground arith),
                          omega arith,
                          a,
                          ground arith,
                        )
                  ]
                ]
          ]
    ]
  where
    limit_aligned :
        ((m.max_len ≡ size_max) ⊎ (m.max_len % m.size_alignment ≡ 0))
        → m.max_len < c - t - (c - t) % m.size_alignment
        → m.max_len % m.size_alignment ≡ 0
    limit_aligned (inl e) h = absurd (omega arith)
    limit_aligned (inr e) h = e
