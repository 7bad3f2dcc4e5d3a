-- ===== src/Frontier.antt =====
-- centipede/corpus.cc: CoverageFrontier::Compute. The object is the record of Corpus/Frontier; the
-- graph is passed through, since LazyGetReachabilityForPc keeps its results in it.
pub mod Covered
pub mod Weights
pub mod Blocks
pub mod Frontiers
mod Examples
use fuzztest.Common.{
  ℕ, zero, suc, ◌+◌, ◌-◌, ◌%◌, ◌^◌, Bool, true, false, not, ◌&&◌, List, [], ◌∷◌, ◌++◌, map, length,
  set, get_or, take, drop, replicate, ltb, leb, ◌==◌, if◌then◌else◌,
}
use fuzztest.Common.Abort.{Outcome, aborted, done, ◌>>=◌, ◌>>◌, check}
use fuzztest.Common.Bytes.{add64}
use fuzztest.Feature.{pcs, contains, convert_pc_feature_to_pc_index}
use fuzztest.ControlFlow.{
  PcInfo, PcTable, ControlFlowGraph, is_in_pc_table, get_pc_index, get_successors,
  lazy_get_reachability_for_pc,
}
use fuzztest.CallGraph.{CallGraph, get_basic_block_callees}
use fuzztest.Coverage.{
  Coverage, coverage, block_is_covered, iterate_pc_table_functions, frontier_weight_of_callees,
}
use fuzztest.Corpus.{CorpusRecord}
use fuzztest.Corpus.Frontier.{CoverageFrontier}

-- What Compute uses of the BinaryInfo.
pub record BinaryInfo : Type 0 where
  pub pc_table : PcTable
  pub control_flow_graph : ControlFlowGraph
  pub call_graph : CallGraph

unfoldable pub coverage_frontier : BinaryInfo → CoverageFrontier
coverage_frontier b = record {
  num_pcs = length b.pc_table;
  frontier = replicate (length b.pc_table) false;
  frontier_weight = replicate (length b.pc_table) 0;
  num_functions_in_frontier = 0;
}

-- The loop over the features of a record: covered_pcs and frontier_, for a table of `n` pcs.
unfoldable pub mark_features : ℕ → List ℕ → List ℕ → List Bool → Outcome (List ℕ × List Bool)
mark_features n [] covered_pcs frontier = done (covered_pcs, frontier)
mark_features n (feature ∷ features) covered_pcs frontier =
    let skip = mark_features n features covered_pcs frontier in
    if not (contains pcs feature)
    then skip
    else (convert_pc_feature_to_pc_index feature >>= λ idx.
        if leb n idx
        then skip
        else mark_features n features (covered_pcs ++ (idx % 2 ^ 32 ∷ [])) (set frontier idx true))

-- The loop over the records.
unfoldable pub mark_records :
    ℕ → List CorpusRecord → List ℕ → List Bool → Outcome (List ℕ × List Bool)
mark_records n [] covered_pcs frontier = done (covered_pcs, frontier)
mark_records n (r ∷ records) covered_pcs frontier =
    mark_features n r.features covered_pcs frontier >>= λ marks.
    let (covered_pcs', frontier') = marks in mark_records n records covered_pcs' frontier'

-- std::count(..., true) and std::fill(..., false) over the `n` flags from `i` on.
unfoldable pub num_set : ℕ → ℕ → List Bool → ℕ
num_set zero i flags = 0
num_set (suc n) i flags = (if get_or flags i false then 1 else 0) + num_set n (i + 1) flags

unfoldable pub fill_false : ℕ → ℕ → List Bool → List Bool
fill_false zero i flags = flags
fill_false (suc n) i flags = fill_false n (i + 1) (set flags i false)

-- In the PC table and not covered.
unfoldable pub is_uncovered : Coverage → ControlFlowGraph → ℕ → Outcome Bool
is_uncovered coverage cfg pc =
    if not (is_in_pc_table cfg pc)
    then done false
    else (get_pc_index cfg pc >>= λ idx.
        block_is_covered coverage idx >>= λ is_covered. done (not is_covered))

-- The loop over the blocks that are reachable from a successor, with frontier_weight_[i].
unfoldable pub reachable_weight : Coverage → ControlFlowGraph → CallGraph → List ℕ → ℕ → Outcome ℕ
reachable_weight coverage cfg calls [] weight = done weight
reachable_weight coverage cfg calls (reachable_bb ∷ reach) weight =
    is_uncovered coverage cfg reachable_bb >>= λ counts.
    if counts
    then (get_basic_block_callees calls reachable_bb >>= λ callees.
        frontier_weight_of_callees coverage cfg callees >>= λ w.
        reachable_weight coverage cfg calls reach (add64 weight w))
    else reachable_weight coverage cfg calls reach weight

pub record Computing : Type 0 where
  pub frontier : List Bool
  pub frontier_weight : List ℕ
  pub cfg : ControlFlowGraph

-- The loop over the successors of the block `i`.
unfoldable pub successors_loop : Coverage → CallGraph → ℕ → List ℕ → Computing → Outcome Computing
successors_loop coverage calls i [] s = done s
successors_loop coverage calls i (successor ∷ successors) s =
    is_uncovered coverage s.cfg successor >>= λ is_frontier.
    if is_frontier
    then (lazy_get_reachability_for_pc s.cfg successor >>= λ r.
        let (reach, cfg) = r in
        (reachable_weight coverage cfg calls reach (get_or s.frontier_weight i 0) >>= λ weight.
        successors_loop coverage calls i successors (record {
          frontier = set s.frontier i true;
          frontier_weight = set s.frontier_weight i weight;
          cfg = cfg;
        })))
    else successors_loop coverage calls i successors s

-- The loop over the blocks of a function, which `pc_table` begins with at `i`.
unfoldable pub blocks_loop : Coverage → CallGraph → ℕ → ℕ → PcTable → Computing → Outcome Computing
blocks_loop coverage calls zero i pc_table s = done s
blocks_loop coverage calls (suc n) i [] s = aborted
blocks_loop coverage calls (suc n) i (info ∷ pc_table) s =
    block_is_covered coverage i >>= λ is_covered.
    if is_covered
    then (get_successors s.cfg.graph info.pc >>= λ successors.
        successors_loop coverage calls i successors s >>= λ s'.
        blocks_loop coverage calls n (i + 1) pc_table s')
    else blocks_loop coverage calls n (i + 1) pc_table s

-- The callback of IteratePcTableFunctions, over its calls.
unfoldable pub functions_round :
    Coverage → BinaryInfo → List (ℕ × ℕ) → ℕ → Computing → Outcome (ℕ × Computing)
functions_round coverage b [] num_functions s = done (num_functions, s)
functions_round coverage b ((beg, end) ∷ calls) num_functions s =
    let cov_size_in_this_func = num_set (end - beg) beg s.frontier in
    let in_frontier = ltb 0 cov_size_in_this_func && ltb cov_size_in_this_func (end - beg) in
    blocks_loop coverage b.call_graph (end - beg) beg (drop beg b.pc_table)
      (record s { frontier = fill_false (end - beg) beg s.frontier })
    >>= λ s'.
        functions_round coverage b calls (if in_frontier then num_functions + 1 else num_functions)
          s'

-- The frontier, and the binary with the reachability that was kept.
unfoldable pub compute :
    BinaryInfo → List CorpusRecord → CoverageFrontier → Outcome (CoverageFrontier × BinaryInfo)
compute b records f =
    mark_records (length b.pc_table) records [] (map (λ _. false) f.frontier) >>= λ marks.
    let (covered_pcs, frontier) = marks in
    (coverage b.pc_table covered_pcs >>= λ c. iterate_pc_table_functions b.pc_table >>= λ calls.
    functions_round c b calls 0 (record {
      frontier = frontier;
      frontier_weight = map (λ _. 0) f.frontier_weight;
      cfg = b.control_flow_graph;
    })
    >>= λ r.
        let (num_functions, s) = r in
        done (
          record f {
            frontier = s.frontier;
            frontier_weight = s.frontier_weight;
            num_functions_in_frontier = num_functions;
          },
          record b { control_flow_graph = s.cfg },
        ))
