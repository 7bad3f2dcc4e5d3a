-- ===== src/ControlFlow/Examples.antt =====
-- The theorems on the control flow graph at concrete inputs.
use fuzztest.Common.{
  Option, ℕ, ◌+◌, ◌-◌, ◌^◌, ◌≤◌, ◌<◌, ◌≡◌, ◌↔◌, ◌⊎◌, sym, ◌∙◌, zero, suc, refl, true, false, List,
  [], ◌∷◌, none, some, length, get_or, All, arith,
}
use fuzztest.Common.Abort.{done}
use fuzztest.Common.Maps.{find, is_in}
use fuzztest.ControlFlow.{
  CfTable, Graph, PcInfo, PcTable, ControlFlowGraph, empty_graph, has_func_entry_flag, read_list,
  graph_loop, graph_of_table, reach_loop, existing, get_successors, compute_reachability_for_pc,
  complexity_loop, compute_function_cyclomatic_complexity, initialize_control_flow_graph,
  get_pc_index, is_in_pc_table, block_is_function_entry, get_cyclomatic_complexity,
  lazy_get_reachability_for_pc, num_edges,
}
use fuzztest.ControlFlow.Table.{Block, IsBlock, words, last_successors, graph_of_table_lem}
use fuzztest.ControlFlow.Reachability.{Reach, compute_reachability_for_pc_lem}
use fuzztest.ControlFlow.Complexity.{out_edges, compute_function_cyclomatic_complexity_lem}
use fuzztest.ControlFlow.Lazy.{IsCached, with_reach, lazy_get_reachability_for_pc_lem}
use fuzztest.ControlFlow.Initialize.{initialize_control_flow_graph_lem}

-- A loop over the blocks 1, 2 and 3, which 4 leaves, and a function of one block that calls.
abbrev blocks : List Block
blocks =
    record { pc = 1; successors = 2 ∷ []; callees = [] }
    ∷ record { pc = 2; successors = 3 ∷ 4 ∷ []; callees = 9 ∷ [] }
    ∷ record { pc = 3; successors = 1 ∷ []; callees = [] }
    ∷ record { pc = 4; successors = 77 ∷ []; callees = [] }
    ∷ record { pc = 9; successors = []; callees = 1 ∷ [] }
    ∷ []

abbrev flow : CfTable
flow = 1 ∷ 2 ∷ 0 ∷ 0 ∷ 2 ∷ 3 ∷ 4 ∷ 0 ∷ 9 ∷ 0 ∷ 3 ∷ 1 ∷ 0 ∷ 0 ∷ 4 ∷ 77 ∷ 0 ∷ 0 ∷ 9 ∷ 0 ∷ 1 ∷ 0 ∷ []

abbrev graph : Graph
graph = (1, 2 ∷ []) ∷ (2, 3 ∷ 4 ∷ []) ∷ (3, 1 ∷ []) ∷ (4, 77 ∷ []) ∷ (9, []) ∷ []

abbrev pcs : PcTable
pcs =
    record { pc = 1; flags = 1 } ∷ record { pc = 3; flags = 0 } ∷ record { pc = 9; flags = 1 } ∷ []

flow-words : flow ≡ words blocks
unfolding words
flow-words = refl

flow-graph : graph_of_table flow [] ≡ some graph
unfolding graph_of_table graph_loop read_list
flow-graph = refl

-- A table that ends within the callees is read past its end.
cut_short : graph_of_table (1 ∷ 2 ∷ 0 ∷ 9 ∷ []) [] ≡ none
unfolding graph_of_table graph_loop read_list
cut_short = refl

reached : compute_reachability_for_pc graph 3 ≡ done (4 ∷ 2 ∷ 1 ∷ 3 ∷ [])
unfolding compute_reachability_for_pc reach_loop get_successors existing num_edges
reached = refl

-- Four edges between the four blocks of the loop, since 77 is no block.
loop_complexity : compute_function_cyclomatic_complexity graph 1 ≡ done 2
unfolding compute_function_cyclomatic_complexity complexity_loop get_successors existing num_edges
loop_complexity = refl

few_edges : num_edges graph + 2 < 2 ^ 32
unfolding num_edges
few_edges = omega arith

no_info : PcInfo
no_info = record { pc = 0; flags = 0 }

compute_reachability_for_pc_lem_example :
    (r : List ℕ) × (compute_reachability_for_pc graph 3 ≡ done r)
    × ((v : ℕ) → (is_in v r ≡ true) ↔ ∥ Reach graph 3 v ∥₁)
compute_reachability_for_pc_lem_example = compute_reachability_for_pc_lem graph 3 refl

compute_function_cyclomatic_complexity_lem_example :
    (r : List ℕ) × (compute_reachability_for_pc graph 1 ≡ done r)
    × (compute_function_cyclomatic_complexity graph 1 ≡ done (out_edges graph r + 2 - length r))
    × (1 ≤ out_edges graph r + 2 - length r)
compute_function_cyclomatic_complexity_lem_example =
    compute_function_cyclomatic_complexity_lem graph 1 refl few_edges

abbrev one_entry : ControlFlowGraph
one_entry = record {
  pc_index_map = (3, 0) ∷ [];
  func_entries = false ∷ [];
  graph = graph;
  function_complexities = [];
  reachability = none ∷ [];
}

none_kept : (i : ℕ) → get_or one_entry.reachability i none ≡ none
none_kept zero = refl
none_kept (suc i) = refl

one_entry-IsCached : IsCached one_entry
one_entry-IsCached = record {
  sized = refl;
  in_range = λ pc i e. ground arith;
  apart = λ pc pc' i e f. ground arith;
  right = λ pc i r e f. absurd (let q = sym (none_kept i) ∙ f in cc);
}

lazy_get_reachability_for_pc_lem_example :
    (r : List ℕ) × (reach : List (Option (List ℕ))) × (lazy_get_reachability_for_pc one_entry 3
      ≡ done (r, with_reach one_entry reach))
    × (compute_reachability_for_pc graph 3 ≡ done r)
    × IsCached (with_reach one_entry reach)
    × (lazy_get_reachability_for_pc (with_reach one_entry reach) 3
        ≡ done (r, with_reach one_entry reach))
unfolding is_in_pc_table
lazy_get_reachability_for_pc_lem_example =
    lazy_get_reachability_for_pc_lem one_entry 3 one_entry-IsCached refl refl

initialize_control_flow_graph_lem_example :
    (c : ControlFlowGraph) × (initialize_control_flow_graph flow pcs empty_graph ≡ done c)
    × (c.graph ≡ graph)
    × IsCached c
    × ((i : ℕ)
        → i < length pcs
        → (get_pc_index c (get_or pcs i no_info).pc ≡ done i)
          × (block_is_function_entry c i ≡ has_func_entry_flag (get_or pcs i no_info))
          × (has_func_entry_flag (get_or pcs i no_info) ≡ true
              → get_cyclomatic_complexity c (get_or pcs i no_info).pc
                ≡ compute_function_cyclomatic_complexity graph (get_or pcs i no_info).pc))
    × ((i : ℕ) → length pcs ≤ i → block_is_function_entry c i ≡ false)
    × ((pc i : ℕ)
        → find pc c.pc_index_map ≡ some i
        → (i < length pcs) × ((get_or pcs i no_info).pc ≡ pc))
initialize_control_flow_graph_lem_example =
    initialize_control_flow_graph_lem flow pcs graph no_info (omega arith) flow-graph (omega arith)
      (refl, (refl, (refl, tt))) (λ e. refl, (λ e. refl, (λ e. refl, tt))) few_edges

graph_of_table_lem_example :
    ((graph_of_table flow [] ≡ none) ⊎ ((bs : List Block) × (flow ≡ words bs) × All IsBlock bs))
    × ((bs : List Block)
        → flow ≡ words bs
        → All IsBlock bs
        → (g' : Graph) × (graph_of_table flow [] ≡ some g')
          × ((pc : ℕ)
              → find pc g'
                ≡ elim (last_successors pc bs) [ some successors ↦ some successors | none ↦ none ]))
graph_of_table_lem_example = graph_of_table_lem flow []
