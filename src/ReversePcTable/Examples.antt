-- ===== src/ReversePcTable/Examples.antt =====
-- The theorem on the reverse PC table at a concrete input.
use fuzztest.Common.{ℕ, ◌^◌, ◌≤◌, ◌<◌, ◌≡◌, refl, true, false, [], ◌∷◌, length, arith}
use fuzztest.Common.Abort.{aborted, done}
use fuzztest.ControlFlow.{PcTable}
use fuzztest.ReversePcTable.{
  ReversePcTable, invalid_pc_guard, max_pc, fill_loop, set_from_pcs, get_pc_guard, guard_is_valid,
}
use fuzztest.ReversePcTable.Guards.{last_guard, or_else}
use fuzztest.ReversePcTable.Lookup.{has_pc, set_from_pcs_lem}

abbrev pcs : PcTable
pcs = record { pc = 2; flags = 1 } ∷ record { pc = 5; flags = 0 } ∷ []

-- A test.
pcs-table :
    set_from_pcs pcs
    ≡ done (record {
      size = 6;
      num_pcs = 2;
      table =
          invalid_pc_guard
          ∷ invalid_pc_guard
          ∷ record { is_function_entry = true; pc_index = 0 }
          ∷ invalid_pc_guard
          ∷ invalid_pc_guard
          ∷ record { is_function_entry = false; pc_index = 1 }
          ∷ [];
    })
unfolding set_from_pcs fill_loop max_pc
pcs-table = refl

set_from_pcs_lem_example :
    (length pcs < 2 ^ 31
      → (t : ReversePcTable) × (set_from_pcs pcs ≡ done t)
        × (t.num_pcs ≡ length pcs)
        × ((pc : ℕ)
            → (get_pc_guard t pc ≡ or_else (last_guard 0 pcs pc) invalid_pc_guard)
              × (guard_is_valid (get_pc_guard t pc) ≡ has_pc pc pcs)))
    × (2 ^ 31 ≤ length pcs → set_from_pcs pcs ≡ aborted)
set_from_pcs_lem_example = set_from_pcs_lem pcs (omega arith, (omega arith, tt))
