-- ===== src/Coverage/Examples.antt =====
-- The theorems on coverage at concrete inputs.
use fuzztest.Common.{ℕ, ◌<◌, ◌≡◌, refl, arith, true, false, List, [], ◌∷◌, length, drop}
use fuzztest.Common.Abort.{aborted, done}
use fuzztest.ControlFlow.{PcTable}
use fuzztest.Coverage.{
  Coverage, coverage, coverage_loop, cover_function, put_function, collect, body_size,
  functions_loop, iterate_pc_table_functions,
}
use fuzztest.Coverage.Functions.{BeginsFunction}
use fuzztest.Coverage.Blocks.{IsCoveredAt}
use fuzztest.Coverage.Construction.{coverage_lem}
use fuzztest.Coverage.Iteration.{IsPartition, iterate_pc_table_functions_lem}

-- Functions of three, one and two blocks.
abbrev pcs : PcTable
pcs =
    record { pc = 1; flags = 1 }
    ∷ record { pc = 2; flags = 0 }
    ∷ record { pc = 3; flags = 0 }
    ∷ record { pc = 4; flags = 1 }
    ∷ record { pc = 5; flags = 1 }
    ∷ record { pc = 6; flags = 0 }
    ∷ []

-- A test: the first function is covered in part, and not at its entry.
pcs-coverage :
    coverage pcs (3 ∷ 1 ∷ [])
    ≡ done (record {
      func_entries = true ∷ false ∷ false ∷ true ∷ true ∷ false ∷ [];
      fully_covered_funcs = 3 ∷ [];
      fully_covered_funcs_vec = false ∷ false ∷ false ∷ true ∷ false ∷ false ∷ [];
      covered_pcs_vec = false ∷ true ∷ false ∷ true ∷ false ∷ false ∷ [];
      uncovered_funcs = 4 ∷ [];
      partially_covered_funcs = record { covered = 1 ∷ []; uncovered = 0 ∷ 2 ∷ [] } ∷ [];
    })
unfolding coverage coverage_loop cover_function put_function collect body_size
pcs-coverage = refl

calls : iterate_pc_table_functions pcs ≡ done ((0, 3) ∷ (3, 4) ∷ (4, 6) ∷ [])
unfolding iterate_pc_table_functions functions_loop body_size
calls = refl

coverage_lem_example :
    (c : Coverage) × (coverage pcs (3 ∷ 1 ∷ []) ≡ done c)
    × (length c.func_entries ≡ length pcs)
    × (length c.fully_covered_funcs_vec ≡ length pcs)
    × (length c.covered_pcs_vec ≡ length pcs)
    × ((j : ℕ) → j < length pcs → IsCoveredAt c (3 ∷ 1 ∷ []) j (drop j pcs))
coverage_lem_example = coverage_lem pcs (3 ∷ 1 ∷ []) (omega arith) refl

iterate_pc_table_functions_lem_example :
    (BeginsFunction pcs
      → (calls : List (ℕ × ℕ)) × (iterate_pc_table_functions pcs ≡ done calls)
        × IsPartition pcs 0 calls)
    × (¬ BeginsFunction pcs → (fuel : ℕ) → functions_loop fuel 0 pcs ≡ aborted)
iterate_pc_table_functions_lem_example = iterate_pc_table_functions_lem pcs
