-- ===== src/ControlFlow/Complexity.antt =====
-- ComputeFunctionCyclomaticComplexity of centipede/control_flow.cc, whose loop is that of
-- ComputeReachabilityForPc with two counters.
use fuzztest.Common.{
  ℕ, zero, suc, ◌+◌, ◌-◌, ◌%◌, ◌^◌, ◌≤◌, ◌<◌, ◌≡◌, ◌∙◌, sym, refl, ap, inl, inr, true, false, List,
  [], ◌∷◌, ◌++◌, none, some, length, length-append, Bool-cases, Option-cases, arith,
}
use fuzztest.Common.Abort.{aborted, done, done-injective}
use fuzztest.Common.Bytes.{add64, sub64}
use fuzztest.Common.Maps.{find, is_in}
use fuzztest.ControlFlow.{
  Graph, get_successors, exists, existing, reach_loop, num_edges, reach_fuel, complexity_loop,
  compute_reachability_for_pc, compute_function_cyclomatic_complexity,
}
use fuzztest.ControlFlow.Reachability.{
  length-existing, unvisited_edges, unvisited_edges-visit, unvisited_edges-nil, reach_loop-visit,
  compute_reachability_for_pc_lem,
}

-- The edges of the graph out of a block, and out of the blocks of a list.
abbrev pub out_degree : Graph → ℕ → ℕ
out_degree g pc = elim (find pc g) [ none ↦ 0 | some successors ↦ length (existing g successors) ]

abbrev pub out_edges : Graph → List ℕ → ℕ
out_edges g [] = 0
out_edges g (pc ∷ pcs) = out_degree g pc + out_edges g pcs

out_degree-some :
    (g : Graph) (pc : ℕ) (successors : List ℕ)
    → find pc g ≡ some successors
    → out_degree g pc ≡ length (existing g successors)
out_degree-some g pc successors h = rw (out_degree, h) refl

complexity_loop-visit :
    (fuel : ℕ) (g : Graph) (x : ℕ) (visited worklist successors : List ℕ) (e n : ℕ)
    → is_in x visited ≡ false
    → find x g ≡ some successors
    → complexity_loop (suc fuel) g visited (x ∷ worklist) e n
      ≡ complexity_loop fuel g
          (x ∷ visited)
          (worklist ++ existing g successors)
          (e + length (existing g successors))
          (n + 1)
unfolding complexity_loop get_successors
complexity_loop-visit fuel g x visited worklist successors e n h f = rw (h, get_successors, f) refl

reach_loop-missing :
    (fuel : ℕ) (g : Graph) (x : ℕ) (visited worklist : List ℕ)
    → is_in x visited ≡ false
    → find x g ≡ none
    → reach_loop (suc fuel) g visited (x ∷ worklist) ≡ aborted
unfolding reach_loop get_successors
reach_loop-missing fuel g x visited worklist e f = rw (e, get_successors, f) refl

wraps : (e n : ℕ) → n ≤ e + 1 → e + 2 < 2 ^ 32 → add64 (sub64 e n) 2 % 2 ^ 32 ≡ e + 2 - n
wraps e n h b = omega arith

-- Where the one loop returns, the other returns the edges and the number of what was visited.
complexity_loop_lem :
    (fuel : ℕ) (g : Graph) (visited worklist r : List ℕ) (e n : ℕ)
    → e ≡ out_edges g visited
    → n ≡ length visited
    → n + length worklist ≤ e + 1
    → e + unvisited_edges visited g ≤ num_edges g
    → reach_loop fuel g visited worklist ≡ done r
    → (complexity_loop fuel g visited worklist e n ≡ done (out_edges g r, length r))
      × (length r ≤ out_edges g r + 1)
      × (out_edges g r ≤ num_edges g)
unfolding complexity_loop reach_loop
complexity_loop_lem zero g visited worklist r e n he hn b t h = absurd cc
complexity_loop_lem (suc fuel) g visited [] r e n he hn b t h =
    let same : visited ≡ r = done-injective h in
    let edges : e ≡ out_edges g r = he ∙ ap (out_edges g) same in
    let nodes : n ≡ length r = hn ∙ ap length same in
    (rw (edges, nodes) refl, omega arith, omega arith)
complexity_loop_lem (suc fuel) g visited (x ∷ worklist) r e n he hn b t h =
    elim (Bool-cases (is_in x visited)) [
      | inl old ↦
          let (eq, most, all) =
            complexity_loop_lem fuel g visited worklist r e n he hn (omega arith) t
              (rw (old) at h) in
          (rw (old, eq) refl, most, all)
      | inr new ↦ elim (Option-cases (find x g)) [
        | inl missing ↦
            absurd
              (let q = sym (reach_loop-missing fuel g x visited worklist new missing) ∙ h in cc)
        | inr (successors, f) ↦
            let (eq, most, all) =
              complexity_loop_lem fuel g (x ∷ visited) (worklist ++ existing g successors) r
                (e + length (existing g successors)) (n + 1)
                (omega (arith, out_degree-some g x successors f)) (omega arith)
                (omega (arith, length-append worklist (existing g successors)))
                (omega (
                  arith,
                  length-existing g successors,
                  unvisited_edges-visit visited x g successors f new,
                ))
                (sym (reach_loop-visit fuel g x visited worklist successors new f) ∙ h) in
            (complexity_loop-visit fuel g x visited worklist successors e n new f ∙ eq, most, all)
      ]
    ]

-- From a block of a graph with fewer than 2 ^ 32 - 2 edges, the two computations return, and the
-- complexity is the number of edges between the blocks that are reached, less the number of these
-- blocks, plus 2, which is positive.
pub compute_function_cyclomatic_complexity_lem :
    (g : Graph) (pc : ℕ)
    → exists g pc ≡ true
    → num_edges g + 2 < 2 ^ 32
    → (r : List ℕ) × (compute_reachability_for_pc g pc ≡ done r)
      × (compute_function_cyclomatic_complexity g pc ≡ done (out_edges g r + 2 - length r))
      × (1 ≤ out_edges g r + 2 - length r)
unfolding compute_reachability_for_pc compute_function_cyclomatic_complexity
compute_function_cyclomatic_complexity_lem g pc h b =
    let (r, eq, _) = compute_reachability_for_pc_lem g pc h in
    let (loop, most, all) =
      complexity_loop_lem (reach_fuel g) g [] (pc ∷ []) r 0 0 refl refl (omega arith)
        (omega (arith, unvisited_edges-nil g)) eq in
    (r, eq, rw (loop) (ap done (wraps (out_edges g r) (length r) most (omega arith))), omega arith)
