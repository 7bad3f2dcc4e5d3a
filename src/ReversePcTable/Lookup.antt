-- ===== src/ReversePcTable/Lookup.antt =====
-- GetPCGuard of centipede/reverse_pc_table.h on what SetFromPCs leaves.
use fuzztest.Common.{
  ℕ, ◌+◌, ◌-◌, ◌^◌, ◌≤◌, ◌<◌, ◌≡◌, ◌∙◌, refl, ap, ◌⊎◌, inl, inr, Bool, true, false, [], ◌∷◌, none,
  some, length, length-replicate, get_or, replicate, leb, ◌==◌, if◌then◌else◌, Bool-cases, All,
  arith,
}
use fuzztest.Common.Abort.{aborted, done}
use fuzztest.Common.Bytes.{add64}
use fuzztest.ControlFlow.{PcTable}
use fuzztest.ReversePcTable.{
  PcGuard, ReversePcTable, invalid_pc_guard, guard_is_valid, guard_of, max_pc, set_from_pcs,
  get_pc_guard, max_num_pcs, invalid_pc_index,
}
use fuzztest.ReversePcTable.Guards.{
  last_guard, or_else, max_pc-lt, max_pc-All, get_or-replicate_same, fill_loop_lem,
}

abbrev pub has_pc : ℕ → PcTable → Bool
has_pc pc [] = false
has_pc pc (info ∷ pc_table) = if info.pc == pc then true else has_pc pc pc_table

-- A guard of the table has an index below its end, and only a pc of the table has one.
last_guard_cases :
    (idx : ℕ) (pc_table : PcTable) (pc : ℕ)
    → idx + length pc_table < 2 ^ 31
    → ((last_guard idx pc_table pc ≡ none) × (has_pc pc pc_table ≡ false))
      ⊎ ((g : PcGuard) × (last_guard idx pc_table pc ≡ some g)
          × (has_pc pc pc_table ≡ true)
          × (g.pc_index < idx + length pc_table))
unfolding last_guard
last_guard_cases idx [] pc b = inl (refl, refl)
last_guard_cases idx (info ∷ pc_table) pc b =
    elim (last_guard_cases (idx + 1) pc_table pc (omega arith)) [
      | inr (g, later, there, l) ↦ inr (g, rw (later) refl, ground arith, omega arith)
      | inl (never, absent) ↦ elim (Bool-cases (info.pc == pc)) [
        | inl e ↦ inr (guard_of info idx, rw (never, e) refl, ground arith, omega arith)
        | inr e ↦ inl (rw (never, e) refl, ground arith)
      ]
    ]

has_pc_beyond :
    (pc_table : PcTable) (size pc : ℕ)
    → All (λ info. info.pc < size) pc_table
    → size ≤ pc
    → has_pc pc pc_table ≡ false
has_pc_beyond [] size pc h l = refl
has_pc_beyond (info ∷ pc_table) size pc (h, hs) l =
    ground (arith, has_pc_beyond pc_table size pc hs l)

-- What a table with the entries of `fill_loop_lem` answers.
looked_up :
    (pc_table : PcTable) (t : ReversePcTable) (pc : ℕ)
    → All (λ info. info.pc < t.size) pc_table
    → length pc_table < 2 ^ 31
    → get_or t.table pc invalid_pc_guard ≡ or_else (last_guard 0 pc_table pc) invalid_pc_guard
    → (get_pc_guard t pc ≡ or_else (last_guard 0 pc_table pc) invalid_pc_guard)
      × (guard_is_valid (get_pc_guard t pc) ≡ has_pc pc pc_table)
unfolding get_pc_guard guard_is_valid
looked_up pc_table t pc h b at = elim (Bool-cases (leb t.size pc)) [
  | inl e ↦
      let absent : has_pc pc pc_table ≡ false = has_pc_beyond pc_table t.size pc h (ground arith) in
      elim (last_guard_cases 0 pc_table pc (omega arith)) [
        | inl (never, _) ↦ (rw (e, never) refl, rw (e, absent) refl)
        | inr (_, _, there, _) ↦ absurd cc
      ]
  | inr e ↦ elim (last_guard_cases 0 pc_table pc (omega arith)) [
    | inl (never, absent) ↦
        let found = rw (never) at at in (rw (e, never) found, rw (e, found, absent) refl)
    | inr (g, later, there, l) ↦
        let found = rw (later) at at in
        let valid : (g.pc_index == invalid_pc_index) ≡ false = ground arith in
        (rw (e, later) found, rw (e, found, valid, there) refl)
  ]
]

at_empty :
    (pc : ℕ)
    → get_or {A = PcGuard} [] pc invalid_pc_guard ≡ or_else (last_guard 0 [] pc) invalid_pc_guard
unfolding last_guard
at_empty pc = refl

All-weaken :
    (pc_table : PcTable) (m n : ℕ)
    → m < n
    → All (λ info. info.pc ≤ m) pc_table
    → All (λ info. info.pc < n) pc_table
All-weaken [] m n l h = tt
All-weaken (info ∷ pc_table) m n l (h, hs) = (omega arith, All-weaken pc_table m n l hs)

filled :
    (pc_table : PcTable)
    → (length pc_table == 0) ≡ false
    → All (λ info. info.pc < 2 ^ 64 - 1) pc_table
    → length pc_table < 2 ^ 31
    → (t : ReversePcTable) × (set_from_pcs pc_table ≡ done t)
      × (t.num_pcs ≡ length pc_table)
      × ((pc : ℕ)
          → (get_pc_guard t pc ≡ or_else (last_guard 0 pc_table pc) invalid_pc_guard)
            × (guard_is_valid (get_pc_guard t pc) ≡ has_pc pc pc_table))
unfolding set_from_pcs
filled pc_table nonempty h b =
    let size = add64 (max_pc pc_table 0) 1 in
    let few : leb max_num_pcs (length pc_table) ≡ false = ground arith in
    let inside : All (λ info. info.pc < size) pc_table =
      All-weaken pc_table (max_pc pc_table 0) size
        (omega (arith, max_pc-lt pc_table 0 (2 ^ 64 - 1) h (omega arith)))
        (max_pc-All pc_table 0) in
    let (entries, eq, _, at) =
      fill_loop_lem 0 pc_table size (replicate size invalid_pc_guard) inside
        (length-replicate size invalid_pc_guard) in
    let t : ReversePcTable = record { size = size; num_pcs = length pc_table; table = entries } in
    (
      t,
      rw (nonempty, few, eq) refl,
      refl,
      λ pc. looked_up pc_table t pc inside b (
          at pc
          ∙ ap (or_else (last_guard 0 pc_table pc))
              (get_or-replicate_same size pc invalid_pc_guard)),
    )

refused :
    (pc_table : PcTable)
    → (length pc_table == 0) ≡ false
    → 2 ^ 31 ≤ length pc_table
    → set_from_pcs pc_table ≡ aborted
unfolding set_from_pcs
refused pc_table nonempty b =
    let many : leb max_num_pcs (length pc_table) ≡ true = ground arith in rw (nonempty, many) refl

-- Of fewer than 2 ^ 31 pcs below 2 ^ 64 - 1 a table is made, from which GetPCGuard has, for any pc,
-- the flag and the index of its last entry, or the invalid guard if there is none; the guard is
-- valid exactly for the pcs of the table. More pcs stop the process.
pub set_from_pcs_lem :
    (pc_table : PcTable)
    → All (λ info. info.pc < 2 ^ 64 - 1) pc_table
    → (length pc_table < 2 ^ 31
        → (t : ReversePcTable) × (set_from_pcs pc_table ≡ done t)
          × (t.num_pcs ≡ length pc_table)
          × ((pc : ℕ)
              → (get_pc_guard t pc ≡ or_else (last_guard 0 pc_table pc) invalid_pc_guard)
                × (guard_is_valid (get_pc_guard t pc) ≡ has_pc pc pc_table)))
      × (2 ^ 31 ≤ length pc_table → set_from_pcs pc_table ≡ aborted)
unfolding set_from_pcs
set_from_pcs_lem [] h = (
  λ b. (
    record { size = 0; num_pcs = 0; table = [] },
    refl,
    refl,
    λ pc. looked_up [] (record { size = 0; num_pcs = 0; table = [] }) pc tt b (at_empty pc),
  ),
  λ b. absurd (omega arith),
)
set_from_pcs_lem (info ∷ pc_table) h =
    (filled (info ∷ pc_table) (ground arith) h, refused (info ∷ pc_table) (ground arith))
