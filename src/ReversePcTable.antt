-- ===== src/ReversePcTable.antt =====
-- centipede/reverse_pc_table.h and PCGuard of centipede/pc_info.h: the table that maps a pc to its
-- index in the PC table.
mod Guards
mod Lookup
mod Examples
use fuzztest.Common.{
  ℕ, ◌+◌, ◌-◌, ◌%◌, ◌^◌, Bool, true, false, not, List, [], ◌∷◌, length, set, get_or, replicate, leb,
  ◌==◌, if◌then◌else◌, max,
}
use fuzztest.Common.Abort.{Outcome, aborted, done, ◌>>=◌, ◌>>◌, check}
use fuzztest.Common.Bytes.{add64}
use fuzztest.ControlFlow.{PcInfo, PcTable, has_func_entry_flag}

pub record PcGuard : Type 0 where
  pub is_function_entry : Bool
  pub pc_index : ℕ

abbrev pub max_num_pcs : ℕ
max_num_pcs = 2 ^ 31

abbrev pub invalid_pc_index : ℕ
invalid_pc_index = max_num_pcs - 1

unfoldable pub guard_is_valid : PcGuard → Bool
guard_is_valid g = not (g.pc_index == invalid_pc_index)

abbrev pub invalid_pc_guard : PcGuard
invalid_pc_guard = record { is_function_entry = false; pc_index = invalid_pc_index }

pub record ReversePcTable : Type 0 where
  pub size : ℕ
  pub num_pcs : ℕ
  pub table : List PcGuard

-- The loop that computes max_pc.
unfoldable pub max_pc : PcTable → ℕ → ℕ
max_pc [] m = m
max_pc (info ∷ pc_table) m = max_pc pc_table (max m info.pc)

-- The guard for the pc at `idx`; `pc_index` is a field of 31 bits.
abbrev pub guard_of : PcInfo → ℕ → PcGuard
guard_of info idx = record { is_function_entry = has_func_entry_flag info; pc_index = idx % 2 ^ 31 }

-- The loop that fills the table, where `pc_table` is what is left from `idx` on.
unfoldable pub fill_loop : ℕ → PcTable → ℕ → List PcGuard → Outcome (List PcGuard)
fill_loop idx [] size table = done table
fill_loop idx (info ∷ pc_table) size table =
    if leb size info.pc
    then aborted
    else fill_loop (idx + 1) pc_table size (set table info.pc (guard_of info idx))

unfoldable pub set_from_pcs : PcTable → Outcome ReversePcTable
set_from_pcs pc_table =
    if length pc_table == 0
    then done (record { size = 0; num_pcs = 0; table = [] })
    else let size = add64 (max_pc pc_table 0) 1 in
      check (not (leb max_num_pcs (length pc_table)))
      >> (fill_loop 0 pc_table size (replicate size invalid_pc_guard) >>= λ table.
          done (record { size = size; num_pcs = length pc_table; table = table }))

unfoldable pub get_pc_guard : ReversePcTable → ℕ → PcGuard
get_pc_guard t pc = if leb t.size pc then invalid_pc_guard else get_or t.table pc invalid_pc_guard
