-- ===== src/ReversePcTable/Guards.antt =====
-- The loops of SetFromPCs of centipede/reverse_pc_table.h.
use fuzztest.Common.{
  ℕ, zero, suc, ◌+◌, ◌≤◌, ◌<◌, max, ◌≡◌, ◌∙◌, sym, refl, ap, inl, inr, false, List, [], ◌∷◌, Option,
  none, some, length, length-set, set, get_or, get_or-set_self, get_or-set_ne, replicate, leb, ◌==◌,
  ==_iff, if◌then◌else◌, Bool-cases, Option-cases, All, arith,
}
use fuzztest.Common.Abort.{done}
use fuzztest.ControlFlow.{PcTable}
use fuzztest.ReversePcTable.{PcGuard, invalid_pc_guard, guard_of, max_pc, fill_loop}

-- The guard of the last entry of the table with that pc.
unfoldable pub last_guard : ℕ → PcTable → ℕ → Option PcGuard
last_guard idx [] pc = none
last_guard idx (info ∷ pc_table) pc = elim (last_guard (idx + 1) pc_table pc) [
  | some g ↦ some g
  | none ↦ if info.pc == pc then some (guard_of info idx) else none
]

abbrev pub or_else : Option PcGuard → PcGuard → PcGuard
or_else (some g) d = g
or_else none d = d

max_pc-le : (pc_table : PcTable) (m : ℕ) → m ≤ max_pc pc_table m
unfolding max_pc
max_pc-le [] m = omega arith
max_pc-le (info ∷ pc_table) m = omega (arith, max_pc-le pc_table (max m info.pc))

pub max_pc-All : (pc_table : PcTable) (m : ℕ) → All (λ info. info.pc ≤ max_pc pc_table m) pc_table
unfolding max_pc
max_pc-All [] m = tt
max_pc-All (info ∷ pc_table) m =
    (omega (arith, max_pc-le pc_table (max m info.pc)), max_pc-All pc_table (max m info.pc))

pub max_pc-lt :
    (pc_table : PcTable) (m b : ℕ)
    → All (λ info. info.pc < b) pc_table
    → m < b
    → max_pc pc_table m < b
unfolding max_pc
max_pc-lt [] m b h l = l
max_pc-lt (info ∷ pc_table) m b (h, hs) l = max_pc-lt pc_table (max m info.pc) b hs (omega arith)

pub get_or-replicate_same : (n i : ℕ) (d : PcGuard) → get_or (replicate n d) i d ≡ d
get_or-replicate_same zero i d = refl
get_or-replicate_same (suc n) zero d = refl
get_or-replicate_same (suc n) (suc i) d = get_or-replicate_same n i d

pub fill_loop_lem :
    (idx : ℕ) (pc_table : PcTable) (size : ℕ) (table : List PcGuard)
    → All (λ info. info.pc < size) pc_table
    → length table ≡ size
    → (t : List PcGuard) × (fill_loop idx pc_table size table ≡ done t)
      × (length t ≡ size)
      × ((pc : ℕ)
          → get_or t pc invalid_pc_guard
            ≡ or_else (last_guard idx pc_table pc) (get_or table pc invalid_pc_guard))
unfolding fill_loop last_guard
fill_loop_lem idx [] size table h l = (table, refl, l, λ pc. refl)
fill_loop_lem idx (info ∷ pc_table) size table (h, hs) l =
    let inside : leb size info.pc ≡ false = ground arith in
    let next = set table info.pc (guard_of info idx) in
    let (t, eq, len, at) =
      fill_loop_lem (idx + 1) pc_table size next hs
        (length-set table info.pc (guard_of info idx) ∙ l) in
    (
      t,
      rw (inside) eq,
      len,
      λ pc. at pc ∙ elim (Option-cases (last_guard (idx + 1) pc_table pc)) [
        | inr (g, later) ↦ rw (later) refl
        | inl never ↦ rw (never) (elim (Bool-cases (info.pc == pc)) [
          | inl e ↦
              let same : info.pc ≡ pc = (==_iff info.pc pc).0 e in
              rw (e) (
                ap (λ q. get_or next q invalid_pc_guard) (sym same)
                ∙ get_or-set_self table info.pc (guard_of info idx) invalid_pc_guard (omega arith))
          | inr e ↦ rw (e) (
              get_or-set_ne table (guard_of info idx) invalid_pc_guard
                (λ (same : info.pc ≡ pc). ground arith))
        ])
      ],
    )
