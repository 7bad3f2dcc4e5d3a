-- ===== src/Frontier/Weights.antt =====
-- The weight of a block of the frontier, in CoverageFrontier::Compute of centipede/corpus.cc.
use fuzztest.Common.{
  ℕ, ◌+◌, ◌-◌, ◌*◌, ◌%◌, ◌^◌, ◌<◌, ◌≡◌, ◌∙◌, refl, inl, inr, Bool, true, false, not, List, [], ◌∷◌,
  Option, none, some, length, get_or, drop, ltb, ◌==◌, if◌then◌else◌, Bool-cases, Option-cases, All,
  arith,
}
use fuzztest.Common.Abort.{done}
use fuzztest.Common.Bytes.{add64}
use fuzztest.Common.Maps.{find, is_in, has_key}
use fuzztest.ControlFlow.{
  PcInfo, PcTable, ControlFlowGraph, exists, is_in_pc_table, get_pc_index, block_is_function_entry,
  get_cyclomatic_complexity,
}
use fuzztest.ControlFlow.Lazy.{with_reach}
use fuzztest.CallGraph.{CallGraph, get_basic_block_callees}
use fuzztest.Coverage.{
  uncovered_knob, partially_covered_knob, fully_covered_knob, Coverage, flag_at,
  function_is_fully_covered, block_is_covered, select_multiplier_by_coverage_kind, callee_weight,
  callees_weight,
}
use fuzztest.Coverage.Blocks.{IsCoveredAt, begins_with_entry, begins_fully_covered}
use fuzztest.Frontier.{is_uncovered, reachable_weight}

-- A callee that has an entry in the PC table has its complexity.
abbrev pub IsKnown : PcTable → ControlFlowGraph → ℕ → Type 0
IsKnown pc_table c callee =
    is_in_pc_table c callee ≡ true
    → (i : ℕ) × (comp : ℕ) × (get_pc_index c callee ≡ done i)
      × (i < length pc_table)
      × (block_is_function_entry c i ≡ true)
      × (begins_with_entry (drop i pc_table) ≡ true)
      × (get_cyclomatic_complexity c callee ≡ done comp)

-- The graph, the calls and the PC table of one binary.
pub record IsConsistent (pc_table : PcTable) (c : ControlFlowGraph) (calls : CallGraph)
    : Type 0 where
  pub in_range : (pc i : ℕ) → find pc c.pc_index_map ≡ some i → i < length pc_table
  pub in_graph : (pc : ℕ) → is_in_pc_table c pc ≡ true → exists c.graph pc ≡ true
  pub in_table :
      (i : ℕ) (d : PcInfo) → i < length pc_table → is_in_pc_table c (get_or pc_table i d).pc ≡ true
  pub known :
      (pc : ℕ)
      → is_in_pc_table c pc ≡ true
      → (callees : List ℕ) × (get_basic_block_callees calls pc ≡ done callees)
        × All (IsKnown pc_table c) callees

-- What the constructor of Coverage leaves for the covered indices `ps`.
pub record IsAccurate (pc_table : PcTable) (ps : List ℕ) (v : Coverage) : Type 0 where
  pub entries : length v.func_entries ≡ length pc_table
  pub fully : length v.fully_covered_funcs_vec ≡ length pc_table
  pub pcs : length v.covered_pcs_vec ≡ length pc_table
  pub at : (j : ℕ) → j < length pc_table → IsCoveredAt v ps j (drop j pc_table)

flag_at-done :
    (flags : List Bool) (i : ℕ) (f : Bool)
    → i < length flags
    → get_or flags i false ≡ f
    → flag_at flags i ≡ done f
unfolding flag_at
flag_at-done flags i f l e =
    let inside : ltb i (length flags) ≡ true = ground arith in rw (inside, e) refl

-- In the PC table, at an index that is not covered.
abbrev pub not_covered : List ℕ → Option ℕ → Bool
not_covered ps none = false
not_covered ps (some i) = not (is_in i ps)

abbrev pub uncovered : ControlFlowGraph → List ℕ → ℕ → Bool
uncovered c ps pc = not_covered ps (find pc c.pc_index_map)

is_in_pc_table-none :
    (c : ControlFlowGraph) (pc : ℕ) → find pc c.pc_index_map ≡ none → is_in_pc_table c pc ≡ false
unfolding is_in_pc_table
is_in_pc_table-none c pc e = rw (is_in_pc_table, has_key, e) refl

is_in_pc_table-some :
    (c : ControlFlowGraph) (pc i : ℕ) → find pc c.pc_index_map ≡ some i → is_in_pc_table c pc ≡ true
unfolding is_in_pc_table
is_in_pc_table-some c pc i e = rw (is_in_pc_table, has_key, e) refl

get_pc_index-some :
    (c : ControlFlowGraph) (pc i : ℕ) → find pc c.pc_index_map ≡ some i → get_pc_index c pc ≡ done i
unfolding get_pc_index
get_pc_index-some c pc i e = rw (get_pc_index, e) refl

-- What is uncovered is in the PC table.
pub uncovered-is_in_pc_table :
    (c : ControlFlowGraph) (ps : List ℕ) (pc : ℕ)
    → uncovered c ps pc ≡ true
    → is_in_pc_table c pc ≡ true
uncovered-is_in_pc_table c ps pc u = elim (Option-cases (find pc c.pc_index_map)) [
  | inl e ↦ absurd (let q = rw (uncovered, e) at u in cc)
  | inr (i, e) ↦ is_in_pc_table-some c pc i e
]

module _ (pc_table : PcTable) (c : ControlFlowGraph) (calls : CallGraph) (ps : List ℕ)
    (v : Coverage) (h : IsConsistent pc_table c calls) (a : IsAccurate pc_table ps v) where
  pub block_is_covered-done :
      (i : ℕ) → i < length pc_table → block_is_covered v i ≡ done (is_in i ps)
  unfolding block_is_covered
  block_is_covered-done i l =
      flag_at-done v.covered_pcs_vec i (is_in i ps) (omega (arith, a.pcs))
        (IsCoveredAt.pc (a.at i l))

  pub is_uncovered-done :
      (pc : ℕ) (r : List (Option (List ℕ)))
      → is_uncovered v (with_reach c r) pc ≡ done (uncovered c ps pc)
  unfolding is_uncovered
  is_uncovered-done pc r = elim (Option-cases (find pc c.pc_index_map)) [
    | inl e ↦ rw (is_in_pc_table-none (with_reach c r) pc e, e) refl
    | inr (i, e) ↦
        rw
          (
            is_in_pc_table-some (with_reach c r) pc i e,
            get_pc_index-some (with_reach c r) pc i e,
            block_is_covered-done i (h.in_range pc i e),
            e,
          )
          refl
  ]

  multiplier-done :
      (i : ℕ)
      → i < length pc_table
      → begins_with_entry (drop i pc_table) ≡ true
      → (m : ℕ) × (select_multiplier_by_coverage_kind i v ≡ done m)
  unfolding select_multiplier_by_coverage_kind function_is_fully_covered
  multiplier-done i l e =
      let entry =
        flag_at-done v.func_entries i true (omega (arith, a.entries)) ((a.at i l).entry ∙ e) in
      let fully : flag_at v.fully_covered_funcs_vec i
          ≡ done (begins_fully_covered ps i (drop i pc_table)) =
        flag_at-done v.fully_covered_funcs_vec i _ (omega (arith, a.fully)) (a.at i l).fully in
      elim (Bool-cases (begins_fully_covered ps i (drop i pc_table))) [
        | inl full ↦ (fully_covered_knob, rw (entry, fully, full) refl)
        | inr not_full ↦ (
          (if is_in i ps then partially_covered_knob else uncovered_knob),
          rw (entry, fully, not_full, block_is_covered-done i l) refl,
        )
      ]

  in_table :
      (callee : ℕ) (r : List (Option (List ℕ)))
      → is_in_pc_table (with_reach c r) callee ≡ true
      → is_in_pc_table c callee ≡ true
  unfolding is_in_pc_table
  in_table callee r e = e

  callee_weight-known :
      (callee i m comp : ℕ) (r : List (Option (List ℕ)))
      → (callee == 2 ^ 64 - 1) ≡ false
      → is_in_pc_table (with_reach c r) callee ≡ true
      → get_pc_index c callee ≡ done i
      → block_is_function_entry c i ≡ true
      → get_cyclomatic_complexity c callee ≡ done comp
      → select_multiplier_by_coverage_kind i v ≡ done m
      → callee_weight v (with_reach c r) callee ≡ done (m * comp)
  unfolding callee_weight get_pc_index block_is_function_entry get_cyclomatic_complexity
  callee_weight-known callee i m comp r e there index is_entry complexity f =
      rw (e, there, complexity, index, is_entry, f) refl

  callee_weight-done :
      (callee : ℕ) (r : List (Option (List ℕ)))
      → IsKnown pc_table c callee
      → (w : ℕ) × (callee_weight v (with_reach c r) callee ≡ done w)
  unfolding callee_weight
  callee_weight-done callee r k = elim (Bool-cases (callee == 2 ^ 64 - 1)) [
    | inl e ↦ (uncovered_knob, rw (e) refl)
    | inr e ↦ elim (Bool-cases (is_in_pc_table (with_reach c r) callee)) [
      | inr out ↦ (0, rw (e, out) refl)
      | inl there ↦
          let (i, comp, index, l, is_entry, first, complexity) = k (in_table callee r there) in
          let (m, f) = multiplier-done i l first in
          (m * comp, callee_weight-known callee i m comp r e there index is_entry complexity f)
    ]
  ]

  callees_weight-done :
      (callees : List ℕ) (weight : ℕ) (r : List (Option (List ℕ)))
      → All (IsKnown pc_table c) callees
      → (w : ℕ) × (callees_weight v (with_reach c r) callees weight ≡ done w)
  unfolding callees_weight
  callees_weight-done [] weight r k = (weight, refl)
  callees_weight-done (callee ∷ callees) weight r (k, ks) =
      let (w, e) = callee_weight-done callee r k in
      let (total, f) = callees_weight-done callees ((weight + w) % 2 ^ 32) r ks in (total, rw (e) f)

  pub reachable_weight-done :
      (reach : List ℕ) (weight : ℕ) (r : List (Option (List ℕ)))
      → (w : ℕ) × (reachable_weight v (with_reach c r) calls reach weight ≡ done w)
  unfolding reachable_weight
  reachable_weight-done [] weight r = (weight, refl)
  reachable_weight-done (bb ∷ reach) weight r = elim (Bool-cases (uncovered c ps bb)) [
    | inr e ↦
        let (w, f) = reachable_weight-done reach weight r in (w, rw (is_uncovered-done bb r, e) f)
    | inl e ↦
        let (callees, g, k) = h.known bb (uncovered-is_in_pc_table c ps bb e) in
        let (w, f) = callees_weight-done callees 0 r k in
        let (total, rest) = reachable_weight-done reach (add64 weight w) r in
        (total, rw (is_uncovered-done bb r, e, g, f) rest)
  ]
