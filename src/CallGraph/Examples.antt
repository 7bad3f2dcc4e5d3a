-- ===== src/CallGraph/Examples.antt =====
-- The theorem on the call graph at a concrete input.
use fuzztest.Common.{ℕ, ◌≡◌, refl, arith, List, [], ◌∷◌, if◌then◌else◌}
use fuzztest.Common.Abort.{aborted, done}
use fuzztest.ControlFlow.{PcTable}
use fuzztest.ControlFlow.Table.{Block, words}
use fuzztest.CallGraph.{
  CallGraph, empty_call_graph, entries_of, initialize_call_graph, get_function_callees,
  get_basic_block_callees,
}
use fuzztest.CallGraph.Callees.{
  callees_of, last_callees, has_block, is_entry, initialize_call_graph_lem,
}

-- Two functions, at 1 and at 9.
abbrev blocks : List Block
blocks =
    record { pc = 1; successors = 2 ∷ []; callees = 9 ∷ [] }
    ∷ record { pc = 2; successors = []; callees = 7 ∷ 9 ∷ [] }
    ∷ record { pc = 9; successors = []; callees = 1 ∷ [] }
    ∷ []

abbrev pcs : PcTable
pcs =
    record { pc = 1; flags = 1 } ∷ record { pc = 2; flags = 0 } ∷ record { pc = 9; flags = 1 } ∷ []

-- A test.
first_callees : callees_of (entries_of pcs []) 0 1 blocks ≡ 9 ∷ 7 ∷ 9 ∷ []
unfolding callees_of entries_of
first_callees = refl

initialize_call_graph_lem_example :
    (g : CallGraph) × (initialize_call_graph (words blocks) pcs empty_call_graph ≡ done g)
    × ((pc : ℕ)
        → (get_function_callees g pc ≡ (
            if is_entry pc pcs then done (callees_of (entries_of pcs []) 0 pc blocks) else aborted))
          × (get_basic_block_callees g pc
              ≡ (if has_block pc blocks then done (last_callees pc blocks) else aborted)))
initialize_call_graph_lem_example = initialize_call_graph_lem blocks pcs (
  (((λ e. omega arith, tt), (λ e. omega arith, tt))),
  ((tt, (λ e. omega arith, (λ e. omega arith, tt))), ((tt, (λ e. omega arith, tt)), tt)),
)
