-- ===== src/Frontier/Blocks.antt =====
-- The loops of CoverageFrontier::Compute of centipede/corpus.cc over successors, blocks and functions.
use fuzztest.Common.{
  ℕ, zero, suc, ◌+◌, ◌≤◌, ◌<◌, ◌≡◌, ◌≢◌, ◌⊎◌, ◌∙◌, sym, refl, ap, subst, inl, inr, Bool, true,
  false, ◌&&◌, ◌||◌, List, [], ◌∷◌, Option, none, some, length, length-set, set, get_or,
  get_or-set_self, get_or-set_ne, drop, drop-get_or, ◌==◌, ==_iff, Bool-cases, arith,
}
use fuzztest.Common.Abort.{done}
use fuzztest.Common.Maps.{find, is_in, find-has_key}
use fuzztest.ControlFlow.{PcInfo, PcTable, Graph, ControlFlowGraph, is_in_pc_table, get_successors}
use fuzztest.ControlFlow.Lazy.{IsCached, with_reach, lazy_get_reachability_for_pc_lem}
use fuzztest.CallGraph.{CallGraph}
use fuzztest.Coverage.{Coverage}
use fuzztest.Frontier.{Computing, successors_loop, blocks_loop}
use fuzztest.Frontier.Covered.{or_true, or_false}
use fuzztest.Frontier.Weights.{
  IsConsistent, IsAccurate, uncovered, uncovered-is_in_pc_table, block_is_covered-done,
  is_uncovered-done, reachable_weight-done,
}

-- A successor in the PC table that is not covered.
abbrev pub any_uncovered : ControlFlowGraph → List ℕ → List ℕ → Bool
any_uncovered c ps [] = false
any_uncovered c ps (successor ∷ successors) =
    uncovered c ps successor || any_uncovered c ps successors

abbrev pub successors_of : Graph → ℕ → List ℕ
successors_of g pc = elim (find pc g) [ none ↦ [] | some successors ↦ successors ]

-- A block of the frontier is covered and has such a successor.
abbrev pub is_frontier : ControlFlowGraph → List ℕ → ℕ → PcInfo → Bool
is_frontier c ps i info = is_in i ps && any_uncovered c ps (successors_of c.graph info.pc)

-- What a round for the block `i` has changed: its flag and its weight, which stay where they are
-- if nothing is found.
record IsStep (c : ControlFlowGraph) (i : ℕ) (found : Bool) (s s' : Computing) : Type 0 where
  flags : length s'.frontier ≡ length s.frontier
  weights : length s'.frontier_weight ≡ length s.frontier_weight
  flag : get_or s'.frontier i false ≡ (get_or s.frontier i false || found)
  weight : found ≡ false → get_or s'.frontier_weight i 0 ≡ get_or s.frontier_weight i 0
  other_flags : (j : ℕ) → i ≢ j → get_or s'.frontier j false ≡ get_or s.frontier j false
  other_weights : (j : ℕ) → i ≢ j → get_or s'.frontier_weight j 0 ≡ get_or s.frontier_weight j 0

IsStep-none :
    (c : ControlFlowGraph) (i : ℕ) (found : Bool) (s : Computing)
    → found ≡ false
    → IsStep c i found s s
IsStep-none c i found s e = record {
  flags = refl;
  weights = refl;
  flag = rw (e) (sym (or_false (get_or s.frontier i false)));
  weight = λ f. refl;
  other_flags = λ j ne. refl;
  other_weights = λ j ne. refl;
}

is_frontier-some :
    (c : ControlFlowGraph) (ps : List ℕ) (i : ℕ) (info : PcInfo) (successors : List ℕ)
    → is_in i ps ≡ true
    → find info.pc c.graph ≡ some successors
    → is_frontier c ps i info ≡ any_uncovered c ps successors
is_frontier-some c ps i info successors e f = rw (is_frontier, e, successors_of, f) refl

found_flag :
    (flags : List Bool) (i : ℕ) (new more : Bool)
    → i < length flags
    → new ≡ true
    → (get_or (set flags i true) i false || more) ≡ (get_or flags i false || (new || more))
found_flag flags i new more l e =
    rw (get_or-set_self flags i true false l, e) (sym (or_true (get_or flags i false)))

abbrev pub state : ControlFlowGraph → List Bool → List ℕ → List (Option (List ℕ)) → Computing
state c flags weights reach = record {
  frontier = flags;
  frontier_weight = weights;
  cfg = with_reach c reach;
}

-- The flags and weights from `i` on, for `n` blocks, and those elsewhere.
pub record IsRound (pc_table : PcTable) (d : PcInfo) (c : ControlFlowGraph) (ps : List ℕ) (i n : ℕ)
    (s s' : Computing) : Type 0 where
  pub flags : length s'.frontier ≡ length s.frontier
  pub weights : length s'.frontier_weight ≡ length s.frontier_weight
  pub inside :
      (j : ℕ)
      → i ≤ j
      → j < i + n
      → (get_or s'.frontier j false ≡ is_frontier c ps j (get_or pc_table j d))
        × (is_frontier c ps j (get_or pc_table j d) ≡ false → get_or s'.frontier_weight j 0 ≡ 0)
  pub outside :
      (j : ℕ)
      → (j < i) ⊎ (i + n ≤ j)
      → (get_or s'.frontier j false ≡ get_or s.frontier j false)
        × (get_or s'.frontier_weight j 0 ≡ get_or s.frontier_weight j 0)

module _ (pc_table : PcTable) (d : PcInfo) (c : ControlFlowGraph) (calls : CallGraph) (ps : List ℕ)
    (v : Coverage) (h : IsConsistent pc_table c calls) (a : IsAccurate pc_table ps v) where
  successors_loop_lem :
      (i : ℕ) (successors : List ℕ) (flags : List Bool) (weights : List ℕ)
      (reach : List (Option (List ℕ)))
      → IsCached (with_reach c reach)
      → i < length flags
      → (flags' : List Bool) × (weights' : List ℕ) × (reach' : List (Option (List ℕ)))
        × (successors_loop v calls i successors (state c flags weights reach)
            ≡ done (state c flags' weights' reach'))
        × IsCached (with_reach c reach')
        × IsStep c i
            (any_uncovered c ps successors)
            (state c flags weights reach)
            (state c flags' weights' reach')
  unfolding successors_loop
  successors_loop_lem i [] flags weights reach k l = (
    flags,
    weights,
    reach,
    refl,
    k,
    record {
      flags = refl;
      weights = refl;
      flag = ground arith;
      weight = λ e. refl;
      other_flags = λ j ne. refl;
      other_weights = λ j ne. refl;
    },
  )
  successors_loop_lem i (x ∷ successors) flags weights reach k l =
      elim (Bool-cases (uncovered c ps x)) [
        | inr e ↦
            let (flags', weights', reach', eq, k', step) =
              successors_loop_lem i successors flags weights reach k l in
            (
              flags',
              weights',
              reach',
              rw (is_uncovered-done pc_table c calls ps v h a x reach, e) eq,
              k',
              subst
                  (λ f. IsStep c i f (state c flags weights reach) (state c flags' weights' reach'))
                  (let same : any_uncovered c ps successors ≡ any_uncovered c ps (x ∷ successors) =
                      rw (e) refl in
                    same)
                  step,
            )
        | inl e ↦
            let there = uncovered-is_in_pc_table c ps x e in
            let (r, reach1, got, _, k1, _) =
              lazy_get_reachability_for_pc_lem (with_reach c reach) x k
                (uncovered-is_in_pc_table (with_reach c reach) ps x e) (h.in_graph x there) in
            let (w, weighed) =
              reachable_weight-done pc_table c calls ps v h a r (get_or weights i 0) reach1 in
            let (flags', weights', reach', eq, k', step) =
              successors_loop_lem i successors (set flags i true) (set weights i w) reach1 k1
                (omega (arith, length-set flags i true)) in
            (
              flags',
              weights',
              reach',
              rw (is_uncovered-done pc_table c calls ps v h a x reach, e, got, weighed) eq,
              k',
              record {
                flags = step.flags ∙ length-set flags i true;
                weights = step.weights ∙ length-set weights i w;
                flag =
                    step.flag
                    ∙ found_flag flags i (uncovered c ps x) (any_uncovered c ps successors) l e;
                weight = λ none_found. absurd (let q = rw (e) at none_found in cc);
                other_flags = λ j ne. step.other_flags j ne ∙ get_or-set_ne flags true false ne;
                other_weights = λ j ne. step.other_weights j ne ∙ get_or-set_ne weights w 0 ne;
              },
            )
      ]

  -- The round for one block that has neither a flag nor a weight yet.
  block_round :
      (i : ℕ) (flags : List Bool) (weights : List ℕ) (reach : List (Option (List ℕ)))
      (info : PcInfo)
      → IsCached (with_reach c reach)
      → length flags ≡ length pc_table
      → i < length pc_table
      → get_or pc_table i d ≡ info
      → (flags' : List Bool) × (weights' : List ℕ) × (reach' : List (Option (List ℕ))) × ((n : ℕ)
            (rest : PcTable)
          → blocks_loop v calls (suc n) i (info ∷ rest) (state c flags weights reach)
            ≡ blocks_loop v calls n (i + 1) rest (state c flags' weights' reach'))
        × IsCached (with_reach c reach')
        × IsStep c i
            (is_frontier c ps i info)
            (state c flags weights reach)
            (state c flags' weights' reach')
  unfolding blocks_loop get_successors
  block_round i flags weights reach info k len l at = elim (Bool-cases (is_in i ps)) [
    | inr e ↦ (
      flags,
      weights,
      reach,
      λ n rest. rw (block_is_covered-done pc_table c calls ps v h a i l, e) refl,
      k,
      IsStep-none c i (is_frontier c ps i info) _ (rw (e) refl),
    )
    | inl e ↦
        let (successors, f) = find-has_key info.pc c.graph (
          h.in_graph info.pc
            (subst (λ (x : PcInfo). is_in_pc_table c x.pc ≡ true) at (h.in_table i d l))) in
        let (flags', weights', reach', eq, k', step) =
          successors_loop_lem i successors flags weights reach k (omega arith) in
        (
          flags',
          weights',
          reach',
          λ n rest.
              rw (block_is_covered-done pc_table c calls ps v h a i l, e, get_successors, f, eq)
                refl,
          k',
          subst (λ g. IsStep c i g (state c flags weights reach) (state c flags' weights' reach'))
              (sym (is_frontier-some c ps i info successors e f)) step,
        )
  ]

  IsRound-step :
      (i n : ℕ) (s s1 s2 : Computing)
      → IsStep c i (is_frontier c ps i (get_or pc_table i d)) s s1
      → IsRound pc_table d c ps (i + 1) n s1 s2
      → get_or s.frontier i false ≡ false
      → get_or s.frontier_weight i 0 ≡ 0
      → IsRound pc_table d c ps i (suc n) s s2
  IsRound-step i n s s1 s2 step rest no_flag no_weight =
      let found = is_frontier c ps i (get_or pc_table i d) in
      let flag_here : get_or s2.frontier i false ≡ found =
        (rest.outside i (inl (omega arith))).0 ∙ step.flag ∙ ap (λ f. f || found) no_flag in
      let weight_here : found ≡ false → get_or s2.frontier_weight i 0 ≡ 0 =
        λ none_found. (rest.outside i (inl (omega arith))).1 ∙ step.weight none_found ∙ no_weight in
      record {
        flags = rest.flags ∙ step.flags;
        weights = rest.weights ∙ step.weights;
        inside = λ j x y. elim (Bool-cases (i == j)) [
          | inl e ↦
              subst
                (λ m.
                  (get_or s2.frontier m false ≡ is_frontier c ps m (get_or pc_table m d))
                  × (is_frontier c ps m (get_or pc_table m d) ≡ false
                      → get_or s2.frontier_weight m 0 ≡ 0))
                ((==_iff i j).0 e) (flag_here, weight_here)
          | inr e ↦ rest.inside j (ground arith) (omega arith)
        ];
        outside = λ j o.
            let (f, w) = rest.outside j (ground arith) in
            let ne : i ≢ j = λ e. ground arith in
            (f ∙ step.other_flags j ne, w ∙ step.other_weights j ne);
      }

  -- The blocks of a function, whose flags and weights are reset.
  pub blocks_loop_lem :
      (n i : ℕ) (flags : List Bool) (weights : List ℕ) (reach : List (Option (List ℕ)))
      → IsCached (with_reach c reach)
      → length flags ≡ length pc_table
      → i + n ≤ length pc_table
      → ((j : ℕ) → i ≤ j → j < i + n → get_or flags j false ≡ false)
      → ((j : ℕ) → i ≤ j → j < i + n → get_or weights j 0 ≡ 0)
      → (flags' : List Bool) × (weights' : List ℕ) × (reach' : List (Option (List ℕ)))
        × (blocks_loop v calls n i (drop i pc_table) (state c flags weights reach)
            ≡ done (state c flags' weights' reach'))
        × IsCached (with_reach c reach')
        × IsRound pc_table d c ps i n (state c flags weights reach) (state c flags' weights' reach')
  unfolding blocks_loop
  blocks_loop_lem zero i flags weights reach k len b no_flag no_weight = (
    flags,
    weights,
    reach,
    refl,
    k,
    record {
      flags = refl;
      weights = refl;
      inside = λ j x y. absurd (omega arith);
      outside = λ j o. (refl, refl);
    },
  )
  blocks_loop_lem (suc n) i flags weights reach k len b no_flag no_weight =
      let l : i < length pc_table = omega arith in
      let (flags1, weights1, reach1, round, k1, step) =
        block_round i flags weights reach (get_or pc_table i d) k len l refl in
      let (flags2, weights2, reach2, eq, k2, rest) =
        blocks_loop_lem n (i + 1) flags1 weights1 reach1 k1 (step.flags ∙ len) (omega arith)
          (λ j x y. step.other_flags j (λ e. omega arith) ∙ no_flag j (omega arith) (omega arith))
          (λ j x y.
            step.other_weights j (λ e. omega arith) ∙ no_weight j (omega arith) (omega arith)) in
      let next : drop i pc_table ≡ get_or pc_table i d ∷ drop (i + 1) pc_table =
        drop-get_or i pc_table d l
        ∙ (let at : suc i ≡ i + 1 = omega arith in
            ap (λ m. get_or pc_table i d ∷ drop m pc_table) at) in
      (
        flags2,
        weights2,
        reach2,
        rw (next) (round n (drop (i + 1) pc_table) ∙ eq),
        k2,
        IsRound-step i n (state c flags weights reach) (state c flags1 weights1 reach1)
            (state c flags2 weights2 reach2) step rest (no_flag i (omega arith) (omega arith))
            (no_weight i (omega arith) (omega arith)),
      )
