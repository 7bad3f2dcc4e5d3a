-- ===== src/Coverage/Iteration.antt =====
-- IteratePcTableFunctions of centipede/coverage.h.
use fuzztest.Common.{
  ℕ, zero, suc, ◌+◌, ◌-◌, ◌≤◌, ◌<◌, ◌≡◌, ◌∙◌, sym, refl, ap, inl, inr, Bool, true, false, List, [],
  ◌∷◌, length, drop, drop-drop, length-drop, Bool-cases, arith,
}
use fuzztest.Common.Abort.{aborted, done}
use fuzztest.ControlFlow.{PcInfo, PcTable, has_func_entry_flag}
use fuzztest.Coverage.{body_size, functions_loop, iterate_pc_table_functions}
use fuzztest.Coverage.Blocks.{begins_with_entry, body_no_entry}
use fuzztest.Coverage.Functions.{body_size-le, BeginsFunction, drop-BeginsFunction}

-- The entry flag at an index.
abbrev pub entry_at : PcTable → ℕ → Bool
entry_at pc_table j = begins_with_entry (drop j pc_table)

-- Calls that follow each other from `i` to the end of the table, each from a function entry up to
-- where the next one begins.
abbrev pub IsPartition : PcTable → ℕ → List (ℕ × ℕ) → Type 0
IsPartition pc_table i [] = i ≡ length pc_table
IsPartition pc_table i ((beg, end) ∷ calls) =
    (beg ≡ i)
    × (beg < end)
    × (end ≤ length pc_table)
    × (entry_at pc_table beg ≡ true)
    × ((j : ℕ) → beg < j → j < end → entry_at pc_table j ≡ false)
    × IsPartition pc_table end calls

functions_loop_lem :
    (fuel i : ℕ) (all pc_table : PcTable)
    → length pc_table < fuel
    → drop i all ≡ pc_table
    → i + length pc_table ≡ length all
    → BeginsFunction pc_table
    → (calls : List (ℕ × ℕ)) × (functions_loop fuel i pc_table ≡ done calls)
      × IsPartition all i calls
unfolding functions_loop
functions_loop_lem zero i all pc_table l d e f = absurd (omega arith)
functions_loop_lem (suc fuel) i all [] l d e f = ([], refl, omega arith)
functions_loop_lem (suc fuel) i all (info ∷ pc_table) l d e f =
    let m = body_size pc_table in
    let end = i + suc m in
    let at : (k j : ℕ) → j ≡ i + k → drop j all ≡ drop k (info ∷ pc_table) =
      λ k j s. sym (drop-drop j k i all s) ∙ ap (drop k) d in
    let (calls, eq, rest) =
      functions_loop_lem fuel end all (drop m pc_table) (omega (arith, length-drop m pc_table))
        (at (suc m) end refl) (omega (arith, length-drop m pc_table, body_size-le pc_table))
        (drop-BeginsFunction pc_table) in
    (
      (i, end) ∷ calls,
      rw (f, eq) refl,
      (
        refl,
        omega arith,
        omega (arith, body_size-le pc_table),
        ap begins_with_entry d ∙ f,
        λ j b s.
            let k = j - i - 1 in
            ap begins_with_entry (at (suc k) j (omega arith))
            ∙ body_no_entry pc_table k (omega arith),
        rest,
      ),
    )

functions_loop_stuck :
    (fuel i : ℕ) (info : PcInfo) (pc_table : PcTable)
    → has_func_entry_flag info ≡ false
    → functions_loop fuel i (info ∷ pc_table) ≡ aborted
unfolding functions_loop
functions_loop_stuck zero i info pc_table h = refl
functions_loop_stuck (suc fuel) i info pc_table h =
    rw (h) (functions_loop_stuck fuel i info pc_table h)

-- On an empty table and on one that begins with a function entry, IteratePcTableFunctions returns,
-- and its calls are one for each function entry, in order, up to the next entry or the end. On any
-- other table no number of rounds is enough.
pub iterate_pc_table_functions_lem :
    (pc_table : PcTable)
    → (BeginsFunction pc_table
        → (calls : List (ℕ × ℕ)) × (iterate_pc_table_functions pc_table ≡ done calls)
          × IsPartition pc_table 0 calls)
      × (¬ BeginsFunction pc_table → (fuel : ℕ) → functions_loop fuel 0 pc_table ≡ aborted)
unfolding iterate_pc_table_functions
iterate_pc_table_functions_lem pc_table = (
  λ f.
      functions_loop_lem (suc (length pc_table)) 0 pc_table pc_table (omega arith) refl
        (omega arith) f,
  stuck pc_table,
)
  where
    stuck :
        (pc_table : PcTable)
        → ¬ BeginsFunction pc_table
        → (fuel : ℕ) → functions_loop fuel 0 pc_table ≡ aborted
    stuck [] n fuel = absurd (n tt)
    stuck (info ∷ pc_table) n fuel = elim (Bool-cases (has_func_entry_flag info)) [
      | inl e ↦ absurd (n e)
      | inr e ↦ functions_loop_stuck fuel 0 info pc_table e
    ]
