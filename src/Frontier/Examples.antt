-- ===== src/Frontier/Examples.antt =====
-- The theorem on the coverage frontier at a concrete input.
use fuzztest.Common.{
  ℕ, zero, suc, ◌<◌, ◌≡◌, ◌∙◌, sym, refl, inl, inr, true, false, List, [], ◌∷◌, Option, none,
  get_or, ◌==◌, Bool-cases, arith,
}
use fuzztest.Common.Abort.{done}
use fuzztest.ExecutionMetadata.{no_metadata}
use fuzztest.RunnerResult.{no_stats}
use fuzztest.ControlFlow.{PcInfo, ControlFlowGraph, is_in_pc_table}
use fuzztest.ControlFlow.Lazy.{IsCached, with_reach}
use fuzztest.CallGraph.{CallGraph, get_basic_block_callees}
use fuzztest.Coverage.{iterate_pc_table_functions}
use fuzztest.Corpus.{CorpusRecord}
use fuzztest.Corpus.Frontier.{CoverageFrontier}
use fuzztest.Frontier.{BinaryInfo, coverage_frontier, compute}
use fuzztest.Frontier.Covered.{covered_by}
use fuzztest.Frontier.Weights.{IsConsistent}
use fuzztest.Frontier.Blocks.{is_frontier}
use fuzztest.Frontier.Frontiers.{num_partial, compute_lem}

abbrev graph : ControlFlowGraph
graph = record {
  pc_index_map = (1, 0) ∷ (2, 1) ∷ [];
  func_entries = true ∷ false ∷ [];
  graph = (1, 2 ∷ []) ∷ (2, []) ∷ [];
  function_complexities = (1, 1) ∷ [];
  reachability = none ∷ none ∷ [];
}

-- The second block makes an indirect call.
abbrev calls : CallGraph
calls = record {
  call_graph = (1, 18446744073709551615 ∷ []) ∷ [];
  basic_block_callees = (2, 18446744073709551615 ∷ []) ∷ [];
  function_entries = 1 ∷ [];
  basic_blocks = 2 ∷ 1 ∷ [];
}

abbrev binary : BinaryInfo
binary = record {
  pc_table = record { pc = 1; flags = 1 } ∷ record { pc = 2; flags = 0 } ∷ [];
  control_flow_graph = graph;
  call_graph = calls;
}

abbrev no_info : PcInfo
no_info = record { pc = 0; flags = 0 }

-- The first block is covered.
abbrev covering : CorpusRecord
covering = record {
  bytes = [];
  features = 134217728 ∷ [];
  metadata = no_metadata;
  stats = no_stats;
}

none_kept : (i : ℕ) → get_or graph.reachability i none ≡ none
none_kept zero = refl
none_kept (suc zero) = refl
none_kept (suc (suc i)) = refl

graph-IsCached : IsCached graph
graph-IsCached = record {
  sized = refl;
  in_range = λ pc i e. ground arith;
  apart = λ pc pc' i e f. ground arith;
  right = λ pc i r e f. absurd (let q = sym (none_kept i) ∙ f in cc);
}

table : (i : ℕ) (d : PcInfo) → i < 2 → is_in_pc_table graph (get_or binary.pc_table i d).pc ≡ true
unfolding is_in_pc_table
table zero d l = refl
table (suc zero) d l = refl
table (suc (suc i)) d l = absurd (omega arith)

binary-IsConsistent : IsConsistent binary.pc_table graph calls
unfolding is_in_pc_table get_basic_block_callees
binary-IsConsistent = record {
  in_range = λ pc i e. ground arith;
  in_graph = λ pc e. ground arith;
  in_table = table;
  known = λ pc e. elim (Bool-cases (2 == pc)) [
    | inl second ↦ (18446744073709551615 ∷ [], ground arith, ((λ there. absurd cc), tt))
    | inr first ↦ ([], ground arith, tt)
  ];
}

compute_lem_example :
    (f' : CoverageFrontier) × (reach : List (Option (List ℕ))) × (calls : List (ℕ × ℕ)) × (compute
        binary
        (covering ∷ [])
        (coverage_frontier binary)
      ≡ done (f', record binary { control_flow_graph = with_reach graph reach }))
    × IsCached (with_reach graph reach)
    × (iterate_pc_table_functions binary.pc_table ≡ done calls)
    × (f'.num_functions_in_frontier ≡ num_partial (covered_by 2 (covering ∷ [])) calls)
    × ((i : ℕ)
        → i < 2
        → (get_or f'.frontier i false
            ≡ is_frontier graph (covered_by 2 (covering ∷ [])) i (get_or binary.pc_table i no_info))
          × (get_or f'.frontier i false ≡ false → get_or f'.frontier_weight i 0 ≡ 0))
unfolding coverage_frontier
compute_lem_example =
    compute_lem binary no_info (covering ∷ []) (coverage_frontier binary) refl (omega arith)
      binary-IsConsistent graph-IsCached refl
