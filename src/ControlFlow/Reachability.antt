-- ===== src/ControlFlow/Reachability.antt =====
-- ControlFlowGraph::ComputeReachabilityForPc of centipede/control_flow.cc: the loop ends within its
-- fuel, and visits exactly the blocks that a walk along existing successors reaches.
use fuzztest.Common.{
  ℕ, zero, suc, ◌+◌, ◌≤◌, ◌<◌, ◌≡◌, ◌↔◌, ◌∙◌, ◌⊎◌, inl, inr, refl, ap, sym, subst, true, false,
  List, [], ◌∷◌, ◌++◌, some, length, length-append, ◌==◌, if◌then◌else◌, Bool-cases, ==_iff, arith,
}
use mathlib.Core.Logic.{∥∥₁_elim}
use mathlib.Core.Bool.{Bool-set}
use fuzztest.Common.Abort.{done}
use fuzztest.Common.Maps.{find, is_in, find-has_key}
use fuzztest.ControlFlow.{
  Graph, get_successors, exists, existing, reach_loop, num_edges, reach_fuel,
  compute_reachability_for_pc,
}

-- `v` is reached from `pc` along successors that are blocks of the graph.
pub data Reach (g : Graph) (pc : ℕ) : ℕ → Type 0 where
  here : Reach g pc pc
  step :
      {u v : ℕ} (successors : List ℕ)
      → Reach g pc u
      → find u g ≡ some successors
      → is_in v successors ≡ true
      → exists g v ≡ true
      → Reach g pc v

pub is_in-append :
    (v : ℕ) (xs ys : List ℕ)
    → (is_in v (xs ++ ys) ≡ true) ↔ ((is_in v xs ≡ true) ⊎ (is_in v ys ≡ true))
is_in-append v [] ys = ground arith
is_in-append v (x ∷ xs) ys = ground (arith, is_in-append v xs ys)

pub is_in-existing :
    (g : Graph) (v : ℕ) (xs : List ℕ)
    → (is_in v (existing g xs) ≡ true) ↔ ((is_in v xs ≡ true) × (exists g v ≡ true))
unfolding existing
is_in-existing g v [] = ground arith
is_in-existing g v (x ∷ xs) = ground (arith, λ (e : x ≡ v). ap (exists g) e, is_in-existing g v xs)

pub length-existing : (g : Graph) (xs : List ℕ) → length (existing g xs) ≤ length xs
unfolding existing
length-existing g [] = omega arith
length-existing g (x ∷ xs) = ground (arith, length-existing g xs)

-- The edges out of the blocks that are not visited.
unfoldable pub unvisited_edges : List ℕ → Graph → ℕ
unvisited_edges visited [] = 0
unvisited_edges visited ((k, successors) ∷ g) =
    (if is_in k visited then 0 else length successors) + unvisited_edges visited g

unvisited_edges-weaken :
    (visited : List ℕ) (pc : ℕ) (g : Graph)
    → unvisited_edges (pc ∷ visited) g ≤ unvisited_edges visited g
unfolding unvisited_edges
unvisited_edges-weaken visited pc [] = omega arith
unvisited_edges-weaken visited pc ((k, s) ∷ g) = ground (arith, unvisited_edges-weaken visited pc g)

pub unvisited_edges-visit :
    (visited : List ℕ) (pc : ℕ) (g : Graph) (successors : List ℕ)
    → find pc g ≡ some successors
    → is_in pc visited ≡ false
    → unvisited_edges (pc ∷ visited) g + length successors ≤ unvisited_edges visited g
unfolding unvisited_edges
unvisited_edges-visit visited pc [] successors h n = cc
unvisited_edges-visit visited pc ((k, s) ∷ g) successors h n = elim (Bool-cases (k == pc)) [
  | inl e ↦
      let same : k ≡ pc = (==_iff k pc).0 e in
      let eq = rw (e) at h in
      let len : length s ≡ length successors =
        let same_list : s ≡ successors = cc in ap length same_list in
      let new : is_in k visited ≡ false = rw (same) n in
      ground (arith, unvisited_edges-weaken visited pc g)
  | inr e ↦
      let eq = rw (e) at h in ground (arith, unvisited_edges-visit visited pc g successors eq n)
]

record Inv (g : Graph) (pc : ℕ) (visited worklist : List ℕ) : Type 0 where
  source : (is_in pc visited ≡ true) ⊎ (is_in pc worklist ≡ true)
  seen : (v : ℕ) → is_in v visited ≡ true → Reach g pc v
  waiting : (v : ℕ) → is_in v worklist ≡ true → Reach g pc v
  blocks : (v : ℕ) → is_in v worklist ≡ true → exists g v ≡ true
  closed :
      (u v : ℕ) (successors : List ℕ)
      → is_in u visited ≡ true
      → find u g ≡ some successors
      → is_in v successors ≡ true
      → exists g v ≡ true
      → (is_in v visited ≡ true) ⊎ (is_in v worklist ≡ true)

Inv-start : (g : Graph) (pc : ℕ) → exists g pc ≡ true → Inv g pc [] (pc ∷ [])
Inv-start g pc h = record {
  source = inr (ground arith);
  seen = λ v e. cc;
  waiting = λ v e. let same : pc ≡ v = ground arith in subst (Reach g pc) same here;
  blocks = λ v e. let same : pc ≡ v = ground arith in subst (λ w. exists g w ≡ true) same h;
  closed = λ u v s e. cc;
}

is_in-cons : (v x : ℕ) (xs : List ℕ) → (is_in v (x ∷ xs) ≡ true) ↔ ((x ≡ v) ⊎ (is_in v xs ≡ true))
is_in-cons v x xs = ground arith

-- A block that is taken from the work list is in a set that has what was visited and that block.
moved :
    (v x : ℕ) (visited worklist set : List ℕ)
    → ((is_in v visited ≡ true) → is_in v set ≡ true)
    → is_in x set ≡ true
    → (is_in v visited ≡ true) ⊎ (is_in v (x ∷ worklist) ≡ true)
    → (is_in v set ≡ true) ⊎ (is_in v worklist ≡ true)
moved v x visited worklist set old new (inl e) = inl (old e)
moved v x visited worklist set old new (inr e) = elim ((is_in-cons v x worklist).0 e) [
  | inl same ↦ inl (subst (λ w. is_in w set ≡ true) same new)
  | inr later ↦ inr later
]

Inv-skip :
    (g : Graph) (pc x : ℕ) (visited worklist : List ℕ)
    → is_in x visited ≡ true
    → Inv g pc visited (x ∷ worklist)
    → Inv g pc visited worklist
Inv-skip g pc x visited worklist h i = record {
  source = moved pc x visited worklist visited (λ e. e) h source;
  seen = seen;
  waiting = λ v e. waiting v (ground arith);
  blocks = λ v e. blocks v (ground arith);
  closed = λ u v s e f m b. moved v x visited worklist visited (λ o. o) h (closed u v s e f m b);
}
  where
    open i use {source, seen, waiting, blocks, closed}

Inv-visit :
    (g : Graph) (pc x : ℕ) (visited worklist successors : List ℕ)
    → find x g ≡ some successors
    → Inv g pc visited (x ∷ worklist)
    → Inv g pc (x ∷ visited) (worklist ++ existing g successors)
Inv-visit g pc x visited worklist successors h i = record {
  source =
      longer pc
        (moved pc x visited worklist (x ∷ visited) (λ o. ground arith) (ground arith) source);
  seen = λ v e. elim ((is_in-cons v x visited).0 e) [
    | inl same ↦ subst (Reach g pc) same here_x
    | inr old ↦ seen v old
  ];
  waiting = λ v e. elim ((is_in-append v worklist (existing g successors)).0 e) [
    | inl old ↦ waiting v (ground arith)
    | inr new ↦ let (m, b) = (is_in-existing g v successors).0 new in step successors here_x h m b
  ];
  blocks = λ v e. elim ((is_in-append v worklist (existing g successors)).0 e) [
    | inl old ↦ blocks v (ground arith)
    | inr new ↦ ((is_in-existing g v successors).0 new).1
  ];
  closed = λ u v s e f m b. elim ((is_in-cons u x visited).0 e) [
    | inl same ↦
        let eq : find x g ≡ some s = subst (λ w. find w g ≡ some s) (sym same) f in
        let lists : successors ≡ s = let both = sym h ∙ eq in cc in
        let m' = subst (λ l. is_in v l ≡ true) (sym lists) m in
        inr (
          (is_in-append v worklist (existing g successors)).1
            (inr ((is_in-existing g v successors).1 (m', b))))
    | inr old ↦ longer v (
        moved v x visited worklist (x ∷ visited) (λ o. ground arith) (ground arith)
          (closed u v s old f m b))
  ];
}
  where
    open i use {source, seen, waiting, blocks, closed}

    here_x : Reach g pc x
    here_x = waiting x (ground arith)

    longer :
        (v : ℕ)
        → (is_in v (x ∷ visited) ≡ true) ⊎ (is_in v worklist ≡ true)
        → (is_in v (x ∷ visited) ≡ true) ⊎ (is_in v (worklist ++ existing g successors) ≡ true)
    longer v (inl e) = inl e
    longer v (inr e) = inr ((is_in-append v worklist (existing g successors)).1 (inl e))

pub reach_loop-visit :
    (fuel : ℕ) (g : Graph) (x : ℕ) (visited worklist successors : List ℕ)
    → is_in x visited ≡ false
    → find x g ≡ some successors
    → reach_loop (suc fuel) g visited (x ∷ worklist)
      ≡ reach_loop fuel g (x ∷ visited) (worklist ++ existing g successors)
unfolding reach_loop get_successors
reach_loop-visit fuel g x visited worklist successors e f = rw (e, get_successors, f) refl

reach_loop_lem :
    (fuel : ℕ) (g : Graph) (pc : ℕ) (visited worklist : List ℕ)
    → length worklist + unvisited_edges visited g < fuel
    → Inv g pc visited worklist
    → (r : List ℕ) × (reach_loop fuel g visited worklist ≡ done r) × Inv g pc r []
unfolding reach_loop get_successors
reach_loop_lem zero g pc visited worklist b i = absurd (omega arith)
reach_loop_lem (suc fuel) g pc visited [] b i = (visited, refl, i)
reach_loop_lem (suc fuel) g pc visited (x ∷ worklist) b i = elim (Bool-cases (is_in x visited)) [
  | inl e ↦
      let (r, eq, j) =
        reach_loop_lem fuel g pc visited worklist (omega arith)
          (Inv-skip g pc x visited worklist e i) in
      (r, rw (e, eq) refl, j)
  | inr e ↦
      let (successors, f) = find-has_key x g (i.blocks x (ground arith)) in
      let (r, eq, j) =
        reach_loop_lem fuel g pc (x ∷ visited) (worklist ++ existing g successors)
          (omega (
            arith,
            length-append worklist (existing g successors),
            length-existing g successors,
            unvisited_edges-visit visited x g successors f e,
          ))
          (Inv-visit g pc x visited worklist successors f i) in
      (r, reach_loop-visit fuel g x visited worklist successors e f ∙ eq, j)
]

pub unvisited_edges-nil : (g : Graph) → unvisited_edges [] g ≡ num_edges g
unfolding unvisited_edges num_edges
unvisited_edges-nil [] = refl
unvisited_edges-nil ((k, s) ∷ g) = omega (arith, unvisited_edges-nil g)

complete :
    (g : Graph) (pc : ℕ) (visited : List ℕ)
    → Inv g pc visited []
    → {v : ℕ} → Reach g pc v
    → is_in v visited ≡ true
complete g pc visited i here = elim i.source [ inl e ↦ e | inr e ↦ absurd cc ]
complete g pc visited i (step {u} {v} successors r f m b) =
    elim (i.closed u v successors (complete g pc visited i r) f m b) [
      | inl e ↦ e
      | inr e ↦ absurd cc
    ]

-- From a block of the graph the computation returns, within its fuel, a set that has exactly the
-- blocks that the start reaches.
pub compute_reachability_for_pc_lem :
    (g : Graph) (pc : ℕ)
    → exists g pc ≡ true
    → (r : List ℕ) × (compute_reachability_for_pc g pc ≡ done r)
      × ((v : ℕ) → (is_in v r ≡ true) ↔ ∥ Reach g pc v ∥₁)
unfolding compute_reachability_for_pc
compute_reachability_for_pc_lem g pc h =
    let (r, e, i) =
      reach_loop_lem (reach_fuel g) g pc [] (pc ∷ []) (omega (arith, unvisited_edges-nil g))
        (Inv-start g pc h) in
    (r, e, λ v. (λ m. ∣ i.seen v m ∣₁, λ w. ∥∥₁_elim w (Bool-set _ _) (λ x. complete g pc r i x)))
