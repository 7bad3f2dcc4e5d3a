-- ===== src/CallGraph.antt =====
-- centipede/call_graph.{h,cc}: the class CallGraph.
mod Callees
mod Examples
use fuzztest.Common.{
  ℕ, zero, suc, ◌+◌, Bool, true, false, List, [], ◌∷◌, ◌++◌, Option, none, some, length, ◌==◌,
  if◌then◌else◌,
}
use fuzztest.Common.Abort.{Outcome, aborted, done, ◌>>=◌, ◌>>◌, check, defined}
use fuzztest.Common.Maps.{Map, find, assign, is_in}
use fuzztest.ControlFlow.{PcInfo, PcTable, has_func_entry_flag, CfTable, read_list}

-- The sets are lists.
pub record CallGraph : Type 0 where
  pub call_graph : Map (List ℕ)
  pub basic_block_callees : Map (List ℕ)
  pub function_entries : List ℕ
  pub basic_blocks : List ℕ

abbrev pub empty_call_graph : CallGraph
empty_call_graph = record {
  call_graph = [];
  basic_block_callees = [];
  function_entries = [];
  basic_blocks = [];
}

abbrev pub is_function_entry : CallGraph → ℕ → Bool
is_function_entry g pc = is_in pc g.function_entries

-- `map[k]`, an empty vector for a new key.
abbrev pub or_empty : Option (List ℕ) → List ℕ
or_empty none = []
or_empty (some callees) = callees

abbrev pub find_or_empty : ℕ → Map (List ℕ) → List ℕ
find_or_empty k m = or_empty (find k m)

-- The loop over pc_table.
unfoldable pub entries_of : PcTable → List ℕ → List ℕ
entries_of [] s = s
entries_of (info ∷ pc_table) s =
    if has_func_entry_flag info then entries_of pc_table (info.pc ∷ s) else entries_of pc_table s

-- What the round for a block does with its callees.
unfoldable pub add_callees : ℕ → ℕ → List ℕ → CallGraph → CallGraph
add_callees entry current_pc [] g = g
add_callees entry current_pc (callee ∷ callees) g = record g {
  basic_block_callees = assign current_pc (callee ∷ callees) g.basic_block_callees;
  call_graph = assign entry (find_or_empty entry g.call_graph ++ (callee ∷ callees)) g.call_graph;
}

-- The loop over cf_table, a block in a round, `entry` being current_function_entry.
unfoldable pub callees_loop : ℕ → CfTable → ℕ → CallGraph → Outcome CallGraph
callees_loop zero table entry g = aborted
callees_loop (suc fuel) [] entry g = done g
callees_loop (suc fuel) (current_pc ∷ table) entry g =
    let entry' = if is_function_entry g current_pc then current_pc else entry in
    defined (read_list table) >>= λ r.
    let (_, left) = r in
    (defined (read_list left) >>= λ s.
    let (callees, next) = s in
    callees_loop fuel next entry' (
      add_callees entry' current_pc callees
        (record g { basic_blocks = current_pc ∷ g.basic_blocks })))

unfoldable pub initialize_call_graph : CfTable → PcTable → CallGraph → Outcome CallGraph
initialize_call_graph cf_table pc_table g =
    callees_loop (suc (length cf_table)) cf_table 0
      (record g { function_entries = entries_of pc_table g.function_entries })

unfoldable pub get_function_callees : CallGraph → ℕ → Outcome (List ℕ)
get_function_callees g pc = check (is_function_entry g pc) >> done (find_or_empty pc g.call_graph)

unfoldable pub get_basic_block_callees : CallGraph → ℕ → Outcome (List ℕ)
get_basic_block_callees g pc =
    check (is_in pc g.basic_blocks) >> done (find_or_empty pc g.basic_block_callees)
