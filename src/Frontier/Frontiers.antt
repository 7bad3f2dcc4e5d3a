-- ===== src/Frontier/Frontiers.antt =====
-- CoverageFrontier::Compute of centipede/corpus.cc: which blocks are the frontier, and how many
-- functions it is in.
use fuzztest.Common.{
  ℕ, zero, suc, ◌+◌, ◌-◌, ◌^◌, ◌≤◌, ◌<◌, ◌≡◌, ◌⊎◌, ◌∙◌, sym, refl, ap, subst, inl, inr, Bool, true,
  false, ◌&&◌, ◌||◌, List, [], ◌∷◌, Option, map, length, length-map, get_or, ltb, if◌then◌else◌,
  Bool-cases, arith,
}
use fuzztest.Common.Abort.{done}
use fuzztest.Common.Maps.{is_in}
use fuzztest.ControlFlow.{PcInfo, PcTable, ControlFlowGraph}
use fuzztest.ControlFlow.Lazy.{IsCached, with_reach}
use fuzztest.Coverage.{Coverage, iterate_pc_table_functions}
use fuzztest.Coverage.Functions.{BeginsFunction}
use fuzztest.Coverage.Construction.{coverage_lem}
use fuzztest.Coverage.Iteration.{IsPartition, iterate_pc_table_functions_lem}
use fuzztest.Corpus.{CorpusRecord}
use fuzztest.Corpus.Frontier.{CoverageFrontier}
use fuzztest.Frontier.{BinaryInfo, Computing, fill_false, functions_round, compute}
use fuzztest.Frontier.Covered.{
  covered_by, num_covered, num_set_lem, fill_false_lem, mark_records_lem,
}
use fuzztest.Frontier.Weights.{IsConsistent, IsAccurate}
use fuzztest.Frontier.Blocks.{is_frontier, state, IsRound, blocks_loop_lem}

-- The functions that are covered in part.
abbrev pub num_partial : List ℕ → List (ℕ × ℕ) → ℕ
num_partial ps [] = 0
num_partial ps ((beg, end) ∷ calls) =
    (if ltb 0 (num_covered (end - beg) beg ps) && ltb (num_covered (end - beg) beg ps) (end - beg)
      then 1
      else 0)
    + num_partial ps calls

module _ (pc_table : PcTable) (d : PcInfo) (c : ControlFlowGraph) (ps : List ℕ) where
  -- Two ranges behind each other, the first of which has its flags reset before its round.
  IsRound-append :
      (i n m total : ℕ) (s s0 s1 s2 : Computing)
      → n + m ≡ total
      → length s0.frontier ≡ length s.frontier
      → s0.frontier_weight ≡ s.frontier_weight
      → ((j : ℕ) → (j < i) ⊎ (i + n ≤ j) → get_or s0.frontier j false ≡ get_or s.frontier j false)
      → IsRound pc_table d c ps i n s0 s1
      → IsRound pc_table d c ps (i + n) m s1 s2
      → IsRound pc_table d c ps i total s s2
  IsRound-append i n m total s s0 s1 s2 sum len same_weights away first rest = record {
    flags = rest.flags ∙ first.flags ∙ len;
    weights = rest.weights ∙ first.weights ∙ ap length same_weights;
    inside = λ j x y. elim (Bool-cases (ltb j (i + n))) [
      | inl e ↦
          let l : j < i + n = ground arith in
          let (f, w) = rest.outside j (inl l) in
          let (f', w') = first.inside j x l in (f ∙ f', λ e. w ∙ w' e)
      | inr e ↦ rest.inside j (ground arith) (omega arith)
    ];
    outside = λ j o.
        let (f, w) = rest.outside j (ground arith) in
        let (f', w') = first.outside j (ground arith) in
        (f ∙ f' ∙ away j (ground arith), w ∙ w' ∙ ap (λ (l : List ℕ). get_or l j 0) same_weights);
  }

counted :
    (in_frontier : Bool) (num more : ℕ)
    → (if in_frontier then num + 1 else num) + more ≡ num + ((if in_frontier then 1 else 0) + more)
counted true num more = omega arith
counted false num more = omega arith

module _ (b : BinaryInfo) (d : PcInfo) (c : ControlFlowGraph) (ps : List ℕ) (v : Coverage)
    (h : IsConsistent b.pc_table c b.call_graph) (a : IsAccurate b.pc_table ps v) where
  functions_round_lem :
      (i : ℕ) (calls : List (ℕ × ℕ)) (num : ℕ) (flags : List Bool) (weights : List ℕ)
      (reach : List (Option (List ℕ)))
      → IsPartition b.pc_table i calls
      → IsCached (with_reach c reach)
      → length flags ≡ length b.pc_table
      → i ≤ length b.pc_table
      → ((j : ℕ) → i ≤ j → get_or flags j false ≡ is_in j ps)
      → ((j : ℕ) → i ≤ j → get_or weights j 0 ≡ 0)
      → (flags' : List Bool) × (weights' : List ℕ) × (reach' : List (Option (List ℕ)))
        × (functions_round v b calls num (state c flags weights reach)
            ≡ done (num + num_partial ps calls, state c flags' weights' reach'))
        × IsCached (with_reach c reach')
        × IsRound b.pc_table d c ps i
            (length b.pc_table - i)
            (state c flags weights reach)
            (state c flags' weights' reach')
  unfolding functions_round
  functions_round_lem i [] num flags weights reach part k len l marks no_weight =
      let sum : num ≡ num + 0 = omega arith in
      (
        flags,
        weights,
        reach,
        ap (λ q. done (q, state c flags weights reach)) sum,
        k,
        record {
          flags = refl;
          weights = refl;
          inside = λ j x y. absurd (omega arith);
          outside = λ j o. (refl, refl);
        },
      )
  functions_round_lem i ((beg, end) ∷ calls) num flags weights reach part k len l marks no_weight =
      let (at, lt, le, _, _, later) = part in
      let n = end - beg in
      let k_set = num_set_lem n beg ps flags (λ j x. marks j (omega arith)) in
      let reset = fill_false n beg flags in
      let (len_reset, unset, away) = fill_false_lem n beg flags in
      let (flags1, weights1, reach1, eq, k1, round) =
        blocks_loop_lem b.pc_table d c b.call_graph ps v h a n beg reset weights reach k
          (len_reset ∙ len) (omega arith) unset (λ j x y. no_weight j (omega arith)) in
      let num1 =
        if ltb 0 (num_covered n beg ps) && ltb (num_covered n beg ps) n then num + 1 else num in
      let (flags2, weights2, reach2, eq2, k2, rest) =
        functions_round_lem end calls num1 flags1 weights1 reach1 later k1
          (round.flags ∙ len_reset ∙ len) le
          (λ j x.
            (round.outside j (inr (omega arith))).0
            ∙ away j (inr (omega arith))
            ∙ marks j (omega arith))
          (λ j x. (round.outside j (inr (omega arith))).1 ∙ no_weight j (omega arith)) in
      let joined : beg + n ≡ end = omega arith in
      (
        flags2,
        weights2,
        reach2,
        rw (k_set, eq, eq2)
            (ap (λ q. done (q, state c flags2 weights2 reach2))
              (counted (ltb 0 (num_covered n beg ps) && ltb (num_covered n beg ps) n) num
                (num_partial ps calls))),
        k2,
        subst
            (λ m.
              IsRound b.pc_table d c ps m (length b.pc_table - m) (state c flags weights reach)
                (state c flags2 weights2 reach2))
            at
            (IsRound-append b.pc_table d c ps beg n (length b.pc_table - end)
              (length b.pc_table - beg) (state c flags weights reach) (state c reset weights reach)
              (state c flags1 weights1 reach1) (state c flags2 weights2 reach2) (omega arith)
              len_reset refl away round
              (subst
                (λ m.
                  IsRound b.pc_table d c ps m (length b.pc_table - end)
                    (state c flags1 weights1 reach1) (state c flags2 weights2 reach2))
                (sym joined) rest)),
      )

no_flags : (flags : List Bool) (j : ℕ) → get_or (map (λ _. false) flags) j false ≡ false
no_flags [] j = refl
no_flags (f ∷ flags) zero = refl
no_flags (f ∷ flags) (suc j) = no_flags flags j

no_weights : (weights : List ℕ) (j : ℕ) → get_or {A = ℕ} (map (λ _. 0) weights) j 0 ≡ 0
no_weights [] j = refl
no_weights (w ∷ weights) zero = refl
no_weights (w ∷ weights) (suc j) = no_weights weights j

-- Of a binary whose PC table begins with a function entry and has fewer than 2 ^ 32 - 1 pcs, each a
-- block of the graph and of the calls, whose callees in the table are entries with a complexity,
-- and of any records, Compute returns. A block is then in the frontier exactly if it is covered and
-- has a successor in the PC table that is not; any other block has no weight; the functions in the
-- frontier are those covered in part; and the results kept in the graph are right.
pub compute_lem :
    (b : BinaryInfo) (d : PcInfo) (records : List CorpusRecord) (f : CoverageFrontier)
    → BeginsFunction b.pc_table
    → length b.pc_table < 2 ^ 32 - 1
    → IsConsistent b.pc_table b.control_flow_graph b.call_graph
    → IsCached b.control_flow_graph
    → length f.frontier ≡ length b.pc_table
    → (f' : CoverageFrontier) × (reach : List (Option (List ℕ))) × (calls : List (ℕ × ℕ)) × (compute
          b records f
        ≡ done (f', record b { control_flow_graph = with_reach b.control_flow_graph reach }))
      × IsCached (with_reach b.control_flow_graph reach)
      × (iterate_pc_table_functions b.pc_table ≡ done calls)
      × (f'.num_functions_in_frontier ≡ num_partial (covered_by (length b.pc_table) records) calls)
      × ((i : ℕ)
          → i < length b.pc_table
          → (get_or f'.frontier i false
              ≡ is_frontier b.control_flow_graph
                  (covered_by (length b.pc_table) records)
                  i
                  (get_or b.pc_table i d))
            × (get_or f'.frontier i false ≡ false → get_or f'.frontier_weight i 0 ≡ 0))
unfolding compute
compute_lem b d records f begins few h k len =
    let c = b.control_flow_graph in
    let n = length b.pc_table in
    let ps = covered_by n records in
    let blank = map (λ _. false) f.frontier in
    let (flags, marked, len_marks, marks) =
      mark_records_lem n records [] blank (omega arith)
        (length-map f.frontier (λ _. false) ∙ len) in
    let (v, covered, entries, fully, pcs, at) = coverage_lem b.pc_table ps few begins in
    let a : IsAccurate b.pc_table ps v = record {
      entries = entries;
      fully = fully;
      pcs = pcs;
      at = at;
    } in
    let (calls, iterated, part) = (iterate_pc_table_functions_lem b.pc_table).0 begins in
    let weights : List ℕ = map (λ _. 0) f.frontier_weight in
    let (flags', weights', reach, eq, k', round) =
      functions_round_lem b d c ps v h a 0 calls 0 flags weights c.reachability part k len_marks
        (omega arith) (λ j x. marks j ∙ ap (λ g. g || is_in j ps) (no_flags f.frontier j))
        (λ j x. no_weights f.frontier_weight j) in
    let sum : 0 + num_partial ps calls ≡ num_partial ps calls = omega arith in
    (
      record f {
        frontier = flags';
        frontier_weight = weights';
        num_functions_in_frontier = 0 + num_partial ps calls;
      },
      reach,
      calls,
      rw (marked, covered, iterated, eq) refl,
      k',
      iterated,
      sum,
      λ i l.
          let (flag, weight) = round.inside i (omega arith) (omega arith) in
          (flag, λ none_found. weight (sym flag ∙ none_found)),
    )
