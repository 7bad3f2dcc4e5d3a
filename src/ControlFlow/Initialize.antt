-- ===== src/ControlFlow/Initialize.antt =====
-- InitializeControlFlowGraph of centipede/control_flow.cc on an empty object: what the queries
-- then answer.
use fuzztest.Common.{
  ℕ, zero, suc, ◌+◌, ◌-◌, ◌^◌, ◌≤◌, ◌<◌, ◌≡◌, ◌∙◌, sym, refl, ap, inl, inr, true, false, List, [],
  Option, none, some, length, get_or, take, replicate, subst, ◌==◌, All, All-get_or, arith,
}
use fuzztest.Common.Abort.{done}
use fuzztest.Common.Maps.{find}
use fuzztest.ControlFlow.{
  CfTable, Graph, PcInfo, PcTable, ControlFlowGraph, empty_graph, has_func_entry_flag, exists,
  resize, num_edges, initialize_control_flow_graph, get_pc_index, block_is_function_entry,
  get_cyclomatic_complexity, graph_of_table, compute_function_cyclomatic_complexity,
}
use fuzztest.ControlFlow.Complexity.{compute_function_cyclomatic_complexity_lem}
use fuzztest.ControlFlow.Entries.{
  IsDistinct, index_map, entry_flags, complexities, complexity_of_lem, entries_loop_lem,
  find-index_map, find-index_map_cases, length-index_map, flags_at, length-entry_flags,
  find-complexities,
}
use fuzztest.ControlFlow.Lazy.{IsCached}

-- The graph that the initialization of an empty object leaves.
initialized : Graph → PcTable → ControlFlowGraph
initialized g table = record {
  pc_index_map = index_map 0 table [];
  func_entries = entry_flags 0 table (resize (length table) false []);
  graph = g;
  function_complexities = complexities g table [];
  reachability = resize (length table) none [];
}

take-replicate {ℓ} :
    {A : Type ℓ} (n i : ℕ) (d : A)
    → (length (take n (replicate n d)) ≡ n) × (get_or (take n (replicate n d)) i d ≡ d)
take-replicate zero i d = (refl, refl)
take-replicate (suc n) zero d = (ap suc (take-replicate n 0 d).0, refl)
take-replicate (suc n) (suc i) d = (ap suc (take-replicate n 0 d).0, (take-replicate n i d).1)

resized {ℓ} :
    {A : Type ℓ} (n i : ℕ) (d : A) → (length (resize n d []) ≡ n) × (get_or (resize n d []) i d ≡ d)
resized n i d =
    let all : n ≡ n - 0 = omega arith in
    subst (λ k. (length (take n (replicate k d)) ≡ n) × (get_or (take n (replicate k d)) i d ≡ d))
      all (take-replicate n i d)

-- A reach that is not computed.
abbrev unknown : Option (List ℕ)
unknown = none

get_pc_index-find :
    (c : ControlFlowGraph) (pc i : ℕ) → find pc c.pc_index_map ≡ some i → get_pc_index c pc ≡ done i
unfolding get_pc_index
get_pc_index-find c pc i e = rw (get_pc_index, e) refl

get_cyclomatic_complexity-find :
    (c : ControlFlowGraph) (pc n : ℕ)
    → find pc c.function_complexities ≡ some n
    → get_cyclomatic_complexity c pc ≡ done n
unfolding get_cyclomatic_complexity
get_cyclomatic_complexity-find c pc n e = rw (get_cyclomatic_complexity, e) refl

block_is_function_entry-get_or :
    (c : ControlFlowGraph) (i : ℕ)
    → i < length c.func_entries
    → block_is_function_entry c i ≡ get_or c.func_entries i false
unfolding block_is_function_entry
block_is_function_entry-get_or c i l = ground arith

block_is_function_entry_outside :
    (c : ControlFlowGraph) (i : ℕ) → length c.func_entries ≤ i → block_is_function_entry c i ≡ false
unfolding block_is_function_entry
block_is_function_entry_outside c i l = ground arith

length-flags :
    (table : PcTable) → length (entry_flags 0 table (resize (length table) false [])) ≡ length table
length-flags table =
    length-entry_flags 0 table (resize (length table) false []) ∙ (resized (length table) 0 false).0

initialized-IsCached :
    (g : Graph) (table : PcTable) → IsDistinct table → IsCached (initialized g table)
unfolding initialized
initialized-IsCached g table h =
    let d : PcInfo = record { pc = 0; flags = 0 } in
    let (sized, _) = resized (length table) 0 unknown in
    record {
      sized = omega (arith, sized, length-index_map 0 table [] h (λ pc q. refl));
      in_range = λ pc i e. elim (find-index_map_cases 0 i table [] d pc e) [
        | inl never ↦ absurd cc
        | inr (j, l, at, _) ↦ omega (arith, sized)
      ];
      apart = λ pc pc' i e f. elim (find-index_map_cases 0 i table [] d pc e) [
        | inl never ↦ absurd cc
        | inr (j, l, at, same) ↦ elim (find-index_map_cases 0 i table [] d pc' f) [
          | inl never ↦ absurd cc
          | inr (k, m, at', same') ↦
              let jk : j ≡ k = omega arith in sym same ∙ ap (λ n. (get_or table n d).pc) jk ∙ same'
        ]
      ];
      right = λ pc i r f e. absurd (let q = sym (resized (length table) i unknown).1 ∙ e in cc);
    }

indexed :
    (table : PcTable) (d : PcInfo) (pc i : ℕ)
    → find pc (index_map 0 table []) ≡ some i
    → (i < length table) × ((get_or table i d).pc ≡ pc)
indexed table d pc i e = elim (find-index_map_cases 0 i table [] d pc e) [
  | inl never ↦ absurd cc
  | inr (j, l, at, same) ↦
      let ij : j ≡ i = omega arith in (omega arith, ap (λ k. (get_or table k d).pc) (sym ij) ∙ same)
]

-- A nonempty table that is read to a graph of fewer than 2 ^ 32 - 2 edges, and a PC table of fewer
-- than 2 ^ 32 entries, without a pc twice, whose function entries are blocks, are accepted by an
-- empty object: the graph is the one read, each pc has its index, the function entries are those with the flag, none beyond the table, and
-- GetCyclomaticComplexity has the result of ComputeFunctionCyclomaticComplexity for each of them.
-- Only pcs of the table have an index. The results kept for LazyGetReachabilityForPc are sound.
pub initialize_control_flow_graph_lem :
    (cf_table : CfTable) (pc_table : PcTable) (g : Graph) (d : PcInfo)
    → 0 < length cf_table
    → graph_of_table cf_table [] ≡ some g
    → length pc_table < 2 ^ 32
    → IsDistinct pc_table
    → All (λ info. has_func_entry_flag info ≡ true → exists g info.pc ≡ true) pc_table
    → num_edges g + 2 < 2 ^ 32
    → (c : ControlFlowGraph) × (initialize_control_flow_graph cf_table pc_table empty_graph
        ≡ done c)
      × (c.graph ≡ g)
      × IsCached c
      × ((i : ℕ)
          → i < length pc_table
          → (get_pc_index c (get_or pc_table i d).pc ≡ done i)
            × (block_is_function_entry c i ≡ has_func_entry_flag (get_or pc_table i d))
            × (has_func_entry_flag (get_or pc_table i d) ≡ true
                → get_cyclomatic_complexity c (get_or pc_table i d).pc
                  ≡ compute_function_cyclomatic_complexity g (get_or pc_table i d).pc))
      × ((i : ℕ) → length pc_table ≤ i → block_is_function_entry c i ≡ false)
      × ((pc i : ℕ)
          → find pc c.pc_index_map ≡ some i
          → (i < length pc_table) × ((get_or pc_table i d).pc ≡ pc))
unfolding initialize_control_flow_graph initialized
initialize_control_flow_graph_lem cf_table pc_table g d n eg few h hs b =
    let nonempty : (length cf_table == 0) ≡ false = ground arith in
    (
      initialized g pc_table,
      rw (nonempty) (
          rw (eg) (
            entries_loop_lem (suc (length pc_table)) 0 pc_table [] pc_table _ refl refl
              (omega arith) few hs b)),
      refl,
      initialized-IsCached g pc_table h,
      λ i l. (
        get_pc_index-find (initialized g pc_table) (get_or pc_table i d).pc i (
            find-index_map 0 i pc_table [] d h l
            ∙ (let at : 0 + i ≡ i = omega arith in ap some at)),
        block_is_function_entry-get_or (initialized g pc_table) i
              (omega (arith, length-flags pc_table))
            ∙ flags_at 0 i i pc_table (resize (length pc_table) false []) d (omega arith) l
                (omega (arith, (resized (length pc_table) i false).0))
                (resized (length pc_table) i false).1,
        λ e.
            let entry = get_or pc_table i d in
            let block = All-get_or _ pc_table i d hs l e in
            let (r, _, eq, _) = compute_function_cyclomatic_complexity_lem g entry.pc block b in
            get_cyclomatic_complexity-find (initialized g pc_table) entry.pc _
              (find-complexities g i pc_table [] d h l e)
            ∙ sym (complexity_of_lem g entry.pc _ eq),
      ),
      λ i l.
          block_is_function_entry_outside (initialized g pc_table) i
            (omega (arith, length-flags pc_table)),
      λ pc i e. indexed pc_table d pc i e,
    )
