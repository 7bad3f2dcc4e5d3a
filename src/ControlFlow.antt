-- ===== src/ControlFlow.antt =====
-- centipede/{pc_info.h,control_flow.h,control_flow.cc}: the PC table and the class
-- ControlFlowGraph, with its reachability and its cyclomatic complexities.
pub mod Table
pub mod Reachability
pub mod Complexity
pub mod Entries
pub mod Lazy
pub mod Initialize
mod Examples
use fuzztest.Common.{
  ℕ, zero, suc, ◌+◌, ◌-◌, ◌/◌, ◌%◌, ◌^◌, ◌≡◌, Bool, true, false, not, List, [], ◌∷◌, ◌++◌, Option,
  none, some, length, set, get_or, take, replicate, ltb, leb, ◌==◌, if◌then◌else◌,
}
use fuzztest.Common.Abort.{Outcome, aborted, done, ◌>>=◌, ◌>>◌, check, and_then, defined}
use fuzztest.Common.Bytes.{ByteArray, add64, sub64, store_words, load_words}
use fuzztest.Common.Maps.{Map, find, assign, has_key, is_in}
use fuzztest.Knobs.{element}

pub record PcInfo : Type 0 where
  pub pc : ℕ
  pub flags : ℕ

abbrev pub func_entry_flag : ℕ
func_entry_flag = 1

-- has_flag(kFuncEntry): `flags & 1`.
abbrev pub has_func_entry_flag : PcInfo → Bool
has_func_entry_flag i = i.flags % 2 == func_entry_flag

abbrev pub PcTable : Type 0
PcTable = List PcInfo

-- The words of __sancov_cfs, an intptr_t below zero as the uintptr_t it converts to.
abbrev pub CfTable : Type 0
CfTable = List ℕ

abbrev pub sizeof_word : ℕ
sizeof_word = 8

unfoldable pub read_cf_table : ByteArray → Outcome CfTable
read_cf_table bytes =
    check (length bytes % sizeof_word == 0)
    >> done (load_words sizeof_word (length bytes / sizeof_word) bytes)

unfoldable pub write_cf_table : CfTable → ByteArray
write_cf_table table = store_words sizeof_word table

-- The successors of the basic blocks.
abbrev pub Graph : Type 0
Graph = Map (List ℕ)

-- `reachability` has the `reach` of each ReachInfo, none before its `once` has run.
pub record ControlFlowGraph : Type 0 where
  pub pc_index_map : Map ℕ
  pub func_entries : List Bool
  pub graph : Graph
  pub function_complexities : Map ℕ
  pub reachability : List (Option (List ℕ))

abbrev pub empty_graph : ControlFlowGraph
empty_graph = record {
  pc_index_map = [];
  func_entries = [];
  graph = [];
  function_complexities = [];
  reachability = [];
}

-- The loops over successors and over callees: the words of `table`, which is what is left from
-- cf_table[j], up to the delimiter, and what is left behind it. `none` is a read past the end of
-- the table. The source does not stop there: what happens is undefined.
unfoldable pub read_list : CfTable → Option (List ℕ × CfTable)
read_list [] = none
read_list (w ∷ table) =
    let rest = read_list table in
    if w == 0
    then some ([], table)
    else and_then rest (λ r. let (ws, left) = r in some (w ∷ ws, left))

-- The loop over cf_table, a block in a round, `none` where it reads past the end. Each round takes
-- three words at least. The check behind a round, j <= cf_table.size(), holds after reads within
-- the table.
unfoldable pub graph_loop : ℕ → CfTable → Graph → Option Graph
graph_loop zero table g = none
graph_loop (suc fuel) [] g = some g
graph_loop (suc fuel) (curr_pc ∷ table) g = and_then (read_list table) (λ r.
    let (successors, left) = r in
    and_then (read_list left)
      (λ s. let (_, next) = s in graph_loop fuel next (assign curr_pc successors g)))

-- The blocks of a table.
unfoldable pub graph_of_table : CfTable → Graph → Option Graph
graph_of_table table g = graph_loop (suc (length table)) table g

unfoldable pub get_successors : Graph → ℕ → Outcome (List ℕ)
get_successors g basic_block = elim (find basic_block g) [
  | none ↦ aborted
  | some successors ↦ done successors
]

abbrev pub num_blocks : ControlFlowGraph → ℕ
num_blocks c = length c.graph

abbrev pub exists : Graph → ℕ → Bool
exists g basic_block = has_key basic_block g

-- The successors that are blocks of the graph, which go to the end of the work list.
unfoldable pub existing : Graph → List ℕ → List ℕ
existing g [] = []
existing g (s ∷ successors) =
    if exists g s then s ∷ existing g successors else existing g successors

-- The loop of ComputeReachabilityForPc. `visited` has the newest block first.
unfoldable pub reach_loop : ℕ → Graph → List ℕ → List ℕ → Outcome (List ℕ)
reach_loop zero g visited worklist = aborted
reach_loop (suc fuel) g visited [] = done visited
reach_loop (suc fuel) g visited (current_pc ∷ worklist) =
    let skip = reach_loop fuel g visited worklist in
    if is_in current_pc visited
    then skip
    else (get_successors g current_pc >>= λ successors.
        reach_loop fuel g (current_pc ∷ visited) (worklist ++ existing g successors))

-- The number of edges, which bounds the rounds of the loop.
unfoldable pub num_edges : Graph → ℕ
num_edges [] = 0
num_edges ((_, successors) ∷ g) = length successors + num_edges g

abbrev pub reach_fuel : Graph → ℕ
reach_fuel g = num_edges g + 2

unfoldable pub compute_reachability_for_pc : Graph → ℕ → Outcome (List ℕ)
compute_reachability_for_pc g pc = reach_loop (reach_fuel g) g [] (pc ∷ [])

-- The loop of ComputeFunctionCyclomaticComplexity, to the numbers of edges and of nodes.
unfoldable pub complexity_loop : ℕ → Graph → List ℕ → List ℕ → ℕ → ℕ → Outcome (ℕ × ℕ)
complexity_loop zero g visited worklist edge_num node_num = aborted
complexity_loop (suc fuel) g visited [] edge_num node_num = done (edge_num, node_num)
complexity_loop (suc fuel) g visited (current_pc ∷ worklist) edge_num node_num =
    let skip = complexity_loop fuel g visited worklist edge_num node_num in
    if is_in current_pc visited
    then skip
    else (get_successors g current_pc >>= λ successors.
        complexity_loop fuel g (current_pc ∷ visited) (worklist ++ existing g successors)
          (edge_num + length (existing g successors)) (node_num + 1))

-- The sum is of size_t, the result of uint32_t.
unfoldable pub compute_function_cyclomatic_complexity : Graph → ℕ → Outcome ℕ
compute_function_cyclomatic_complexity g pc =
    complexity_loop (reach_fuel g) g [] (pc ∷ []) 0 0 >>= λ r.
    let (edge_num, node_num) = r in done (add64 (sub64 edge_num node_num) 2 % 2 ^ 32)

-- The loop over pc_table from the index `i` on, a uint32_t. With fuel for each entry and the end it
-- runs out only on a table of 2 ^ 32 entries or more, where the index wraps around and the source
-- never leaves the loop.
unfoldable pub entries_loop : ℕ → ℕ → PcTable → ControlFlowGraph → Outcome ControlFlowGraph
entries_loop zero i pc_table c = aborted
entries_loop (suc fuel) i pc_table c =
    if leb (length pc_table) i
    then done c
    else (element pc_table i >>= λ info.
        let indexed = record c { pc_index_map = assign info.pc i c.pc_index_map } in
        let next = (i + 1) % 2 ^ 32 in
        if has_func_entry_flag info
        then (compute_function_cyclomatic_complexity c.graph info.pc >>= λ func_comp.
            entries_loop fuel next pc_table (record indexed {
              func_entries = set c.func_entries i true;
              function_complexities = assign info.pc func_comp c.function_complexities;
            }))
        else entries_loop fuel next pc_table indexed)

-- std::vector::resize, new elements being `d`.
abbrev pub resize {ℓ} : {A : Type ℓ} → ℕ → A → List A → List A
resize n d xs = take n (xs ++ replicate (n - length xs) d)

unfoldable pub initialize_control_flow_graph :
    CfTable → PcTable → ControlFlowGraph → Outcome ControlFlowGraph
initialize_control_flow_graph cf_table pc_table c =
    check (not (length cf_table == 0))
    >> (defined (graph_of_table cf_table c.graph) >>= λ g.
        entries_loop (suc (length pc_table)) 0 pc_table (record c {
          graph = g;
          func_entries = resize (length pc_table) false c.func_entries;
          reachability = resize (length pc_table) none c.reachability;
        }))

unfoldable pub get_cyclomatic_complexity : ControlFlowGraph → ℕ → Outcome ℕ
get_cyclomatic_complexity c pc = elim (find pc c.function_complexities) [
  | none ↦ aborted
  | some func_comp ↦ done func_comp
]

unfoldable pub block_is_function_entry : ControlFlowGraph → ℕ → Bool
block_is_function_entry c pc_index =
    if ltb pc_index (length c.func_entries) then get_or c.func_entries pc_index false else false

unfoldable pub get_pc_index : ControlFlowGraph → ℕ → Outcome ℕ
get_pc_index c pc = elim (find pc c.pc_index_map) [ none ↦ aborted | some i ↦ done i ]

unfoldable pub is_in_pc_table : ControlFlowGraph → ℕ → Bool
is_in_pc_table c pc = has_key pc c.pc_index_map

-- std::call_once, on the ReachInfo of the index. The result, and the graph with the result kept.
unfoldable pub call_once : ControlFlowGraph → ℕ → ℕ → Outcome (List ℕ × ControlFlowGraph)
call_once c pc pc_index = elim (get_or c.reachability pc_index none) [
  | some reach ↦ done (reach, c)
  | none ↦
      (compute_reachability_for_pc c.graph pc >>= λ reach.
      done (reach, record c { reachability = set c.reachability pc_index (some reach) }))
]

unfoldable pub lazy_get_reachability_for_pc :
    ControlFlowGraph → ℕ → Outcome (List ℕ × ControlFlowGraph)
lazy_get_reachability_for_pc c pc =
    check (length c.reachability == length c.pc_index_map)
    >> (get_pc_index c pc >>= λ pc_index. call_once c pc pc_index)
