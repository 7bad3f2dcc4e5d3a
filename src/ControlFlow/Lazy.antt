-- ===== src/ControlFlow/Lazy.antt =====
-- LazyGetReachabilityForPc of centipede/control_flow.h: what the results kept are, and that they
-- are computed once.
use fuzztest.Common.{
  Option, ℕ, ◌<◌, ◌≡◌, ◌≢◌, ◌∙◌, sym, refl, ap, subst, inl, inr, true, List, none, some, length,
  length-set, set, get_or, get_or-set_self, get_or-set_ne, ◌==◌, ==_iff, Bool-cases, Option-cases,
  arith,
}
use fuzztest.Common.Abort.{done}
use fuzztest.Common.Maps.{find, find-has_key}
use fuzztest.ControlFlow.{
  ControlFlowGraph, exists, is_in_pc_table, get_pc_index, compute_reachability_for_pc,
  lazy_get_reachability_for_pc, call_once,
}
use fuzztest.ControlFlow.Reachability.{compute_reachability_for_pc_lem}

-- Every pc of the table has a place of its own, and a result that is kept there is its result.
pub record IsCached (c : ControlFlowGraph) : Type 0 where
  pub sized : length c.reachability ≡ length c.pc_index_map
  pub in_range : (pc i : ℕ) → find pc c.pc_index_map ≡ some i → i < length c.reachability
  pub apart :
      (pc pc' i : ℕ) → find pc c.pc_index_map ≡ some i → find pc' c.pc_index_map ≡ some i → pc ≡ pc'
  pub right :
      (pc i : ℕ) (r : List ℕ)
      → find pc c.pc_index_map ≡ some i
      → get_or c.reachability i none ≡ some r
      → compute_reachability_for_pc c.graph pc ≡ done r

-- The graph with other kept results.
abbrev pub with_reach : ControlFlowGraph → List (Option (List ℕ)) → ControlFlowGraph
with_reach c reach = record c { reachability = reach }

-- The graph after the result for `pc` is kept at `i`.
abbrev pub kept : ControlFlowGraph → ℕ → List ℕ → ControlFlowGraph
kept c i r = record c { reachability = set c.reachability i (some r) }

kept-IsCached :
    (c : ControlFlowGraph) (pc i : ℕ) (r : List ℕ)
    → IsCached c
    → find pc c.pc_index_map ≡ some i
    → compute_reachability_for_pc c.graph pc ≡ done r
    → IsCached (kept c i r)
kept-IsCached c pc i r h f eq = record {
  sized = length-set c.reachability i (some r) ∙ h.sized;
  in_range = λ q j e. omega (arith, length-set c.reachability i (some r), h.in_range q j e);
  apart = h.apart;
  right = λ q j s e g. elim (Bool-cases (i == j)) [
    | inl same ↦
        let ij : i ≡ j = (==_iff i j).0 same in
        let new : get_or (set c.reachability i (some r)) i none ≡ some r =
          get_or-set_self c.reachability i (some r) none (h.in_range pc i f) in
        let new_j : get_or (set c.reachability i (some r)) j none ≡ some r =
          subst (λ k. get_or (set c.reachability i (some r)) k none ≡ some r) ij new in
        let rs : r ≡ s = let both = sym new_j ∙ g in cc in
        let pcs : pc ≡ q = h.apart pc q i f (rw ij e) in
        subst (λ p. compute_reachability_for_pc c.graph p ≡ done s) pcs (eq ∙ ap done rs)
    | inr other ↦
        let ne : i ≢ j = λ same. ground arith in
        h.right q j s e (sym (get_or-set_ne c.reachability (some r) none ne) ∙ g)
  ];
}

call_once-kept :
    (c : ControlFlowGraph) (pc i : ℕ) (r : List ℕ)
    → get_or c.reachability i none ≡ some r
    → call_once c pc i ≡ done (r, c)
unfolding call_once
call_once-kept c pc i r g = rw (call_once, g) refl

call_once-computed :
    (c : ControlFlowGraph) (pc i : ℕ) (r : List ℕ)
    → get_or c.reachability i none ≡ none
    → compute_reachability_for_pc c.graph pc ≡ done r
    → call_once c pc i ≡ done (r, kept c i r)
unfolding call_once
call_once-computed c pc i r g e = rw (call_once, g) (rw (e) refl)

lazy-kept :
    (c : ControlFlowGraph) (pc i : ℕ) (r : List ℕ)
    → length c.reachability ≡ length c.pc_index_map
    → find pc c.pc_index_map ≡ some i
    → get_or c.reachability i none ≡ some r
    → lazy_get_reachability_for_pc c pc ≡ done (r, c)
unfolding lazy_get_reachability_for_pc get_pc_index
lazy-kept c pc i r s f g =
    let sized : (length c.reachability == length c.pc_index_map) ≡ true = ground arith in
    rw (sized, get_pc_index, f) (call_once-kept c pc i r g)

lazy-computed :
    (c : ControlFlowGraph) (pc i : ℕ) (r : List ℕ)
    → length c.reachability ≡ length c.pc_index_map
    → find pc c.pc_index_map ≡ some i
    → get_or c.reachability i none ≡ none
    → compute_reachability_for_pc c.graph pc ≡ done r
    → lazy_get_reachability_for_pc c pc ≡ done (r, kept c i r)
unfolding lazy_get_reachability_for_pc get_pc_index
lazy-computed c pc i r s f g e =
    let sized : (length c.reachability == length c.pc_index_map) ≡ true = ground arith in
    rw (sized, get_pc_index, f) (call_once-computed c pc i r g e)

-- From a graph whose kept results are right, a block of the graph and of the PC table gets the
-- result of ComputeReachabilityForPc. The graph after that differs in the kept results alone, these
-- are right, and another call on it returns the same without a change.
pub lazy_get_reachability_for_pc_lem :
    (c : ControlFlowGraph) (pc : ℕ)
    → IsCached c
    → is_in_pc_table c pc ≡ true
    → exists c.graph pc ≡ true
    → (r : List ℕ) × (reach : List (Option (List ℕ))) × (lazy_get_reachability_for_pc c pc
        ≡ done (r, with_reach c reach))
      × (compute_reachability_for_pc c.graph pc ≡ done r)
      × IsCached (with_reach c reach)
      × (lazy_get_reachability_for_pc (with_reach c reach) pc ≡ done (r, with_reach c reach))
unfolding is_in_pc_table
lazy_get_reachability_for_pc_lem c pc h t e =
    let (i, f) = find-has_key pc c.pc_index_map t in
    elim (Option-cases (get_or c.reachability i none)) [
      | inr (r, g) ↦
          let same = lazy-kept c pc i r h.sized f g in
          (r, c.reachability, same, h.right pc i r f g, h, same)
      | inl g ↦
          let (r, eq, _) = compute_reachability_for_pc_lem c.graph pc e in
          let after = kept-IsCached c pc i r h f eq in
          (
            r,
            set c.reachability i (some r),
            lazy-computed c pc i r h.sized f g eq,
            eq,
            after,
            lazy-kept (kept c i r) pc i r after.sized f
                (get_or-set_self c.reachability i (some r) none (h.in_range pc i f)),
          )
    ]
