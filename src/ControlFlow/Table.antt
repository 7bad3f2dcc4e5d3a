-- ===== src/ControlFlow/Table.antt =====
-- The format of __sancov_cfs, which ReadCfTable, WriteCfTable and the loop over cf_table of
-- centipede/control_flow.cc share.
use fuzztest.Common.{
  ℕ, zero, suc, ◌/◌, ◌%◌, ◌^◌, ◌<◌, ◌≡◌, ◌≢◌, ◌∙◌, refl, ap, ◌⊎◌, inl, inr, true, false, List, [],
  ◌∷◌, ◌++◌, Option, none, some, length, length-append, ◌==◌, if◌then◌else◌, Bool-cases,
  Option-cases, All, ==_iff, arith,
}
use fuzztest.Common.Abort.{done}
use fuzztest.Common.Bytes.{store_words, load_words-store_words, length-store_words}
use fuzztest.Common.Maps.{find, assign, find-assign_self, find-assign_ne}
use fuzztest.ControlFlow.{
  CfTable, Graph, read_list, graph_loop, graph_of_table, read_cf_table, write_cf_table,
}

pub record Block : Type 0 where
  pub pc : ℕ
  pub successors : List ℕ
  pub callees : List ℕ

-- The lists end with a word of zero, and so have none.
abbrev pub IsBlock : Block → Type 0
IsBlock b = All (λ w. w ≢ 0) b.successors × All (λ w. w ≢ 0) b.callees

unfoldable pub words : List Block → CfTable
words [] = []
words (b ∷ bs) = b.pc ∷ (b.successors ++ (0 ∷ (b.callees ++ (0 ∷ words bs))))

-- The blocks into the graph, in order.
unfoldable pub assign_blocks : List Block → Graph → Graph
assign_blocks [] g = g
assign_blocks (b ∷ bs) g = assign_blocks bs (assign b.pc b.successors g)

-- The successors of the last block with that pc.
unfoldable pub last_successors : ℕ → List Block → Option (List ℕ)
last_successors pc [] = none
last_successors pc (b ∷ bs) = elim (last_successors pc bs) [
  | some successors ↦ some successors
  | none ↦ if b.pc == pc then some b.successors else none
]

pub read_list-append :
    (ws table : List ℕ) → All (λ w. w ≢ 0) ws → read_list (ws ++ (0 ∷ table)) ≡ some (ws, table)
unfolding read_list
read_list-append [] table h = refl
read_list-append (w ∷ ws) table (h, hs) =
    let nonzero : (w == 0) ≡ false = ground arith in rw (nonzero, read_list-append ws table hs) refl

pub read_list_cases :
    (table : List ℕ)
    → (read_list table ≡ none)
      ⊎ ((ws left : List ℕ) × (read_list table ≡ some (ws, left))
          × (table ≡ ws ++ (0 ∷ left))
          × All (λ w. w ≢ 0) ws)
unfolding read_list
read_list_cases [] = inl refl
read_list_cases (w ∷ table) = elim (Bool-cases (w == 0)) [
  | inl e ↦
      let zeroed : w ≡ 0 = ground arith in
      inr ([], table, rw (e) refl, ap (λ (v : ℕ). v ∷ table) zeroed, tt)
  | inr e ↦ elim (read_list_cases table) [
    | inl stops ↦ inl (rw (e, stops) refl)
    | inr (ws, left, eq, same, h) ↦
        inr (w ∷ ws, left, rw (e, eq) refl, ap (◌∷◌ w) same, (ground arith, h))
  ]
]

graph_loop-words :
    (fuel : ℕ) (bs : List Block) (g : Graph)
    → All IsBlock bs
    → length (words bs) < fuel
    → graph_loop fuel (words bs) g ≡ some (assign_blocks bs g)
unfolding graph_loop words assign_blocks
graph_loop-words zero bs g h b = absurd (omega arith)
graph_loop-words (suc fuel) [] g h b = refl
graph_loop-words (suc fuel) (b ∷ bs) g ((hs, hc), hbs) l =
    rw
      (
        read_list-append b.successors (b.callees ++ (0 ∷ words bs)) hs,
        read_list-append b.callees (words bs) hc,
      )
      (graph_loop-words fuel bs (assign b.pc b.successors g) hbs (
        omega (
          arith,
          length-append b.successors (0 ∷ (b.callees ++ (0 ∷ words bs))),
          length-append b.callees (0 ∷ words bs),
        )))

pub find-assign_blocks :
    (pc : ℕ) (bs : List Block) (g : Graph)
    → find pc (assign_blocks bs g)
      ≡ elim (last_successors pc bs) [ some successors ↦ some successors | none ↦ find pc g ]
unfolding assign_blocks last_successors
find-assign_blocks pc [] g = refl
find-assign_blocks pc (b ∷ bs) g = elim (Option-cases (last_successors pc bs)) [
  | inl none_later ↦ elim (Bool-cases (b.pc == pc)) [
    | inl e ↦
        let same : b.pc ≡ pc = (==_iff b.pc pc).0 e in
        rw (find-assign_blocks pc bs (assign b.pc b.successors g), none_later, e, same)
          (find-assign_self pc b.successors g)
    | inr e ↦
        rw (find-assign_blocks pc bs (assign b.pc b.successors g), none_later, e)
          (find-assign_ne pc b.pc b.successors g (λ same. ground arith))
  ]
  | inr (successors, later) ↦ rw (find-assign_blocks pc bs (assign b.pc b.successors g), later) refl
]

graph_loop_cases :
    (fuel : ℕ) (table : CfTable) (g : Graph)
    → length table < fuel
    → (graph_loop fuel table g ≡ none) ⊎ ((bs : List Block) × (table ≡ words bs) × All IsBlock bs)
unfolding graph_loop words
graph_loop_cases zero table g l = absurd (omega arith)
graph_loop_cases (suc fuel) [] g l = inr ([], refl, tt)
graph_loop_cases (suc fuel) (w ∷ table) g l = elim (read_list_cases table) [
  | inl stops ↦ inl (rw (stops) refl)
  | inr (ss, left, e, same, hs) ↦ elim (read_list_cases left) [
    | inl stops ↦ inl (rw (e, stops) refl)
    | inr (cs, next, f, same_next, hc) ↦
        let shorter = ap length same in
        let shorter_next = ap length same_next in
        elim (graph_loop_cases fuel next (assign w ss g)
          (omega (arith, length-append ss (0 ∷ left), length-append cs (0 ∷ next)))) [
            | inl stops ↦ inl (rw (e, f, stops) refl)
            | inr (bs, rest, h) ↦ inr (
              record { pc = w; successors = ss; callees = cs } ∷ bs,
              ap (◌∷◌ w) (
                  same
                  ∙ ap (λ (l : List ℕ). ss ++ (0 ∷ l))
                      (same_next ∙ ap (λ (l : List ℕ). cs ++ (0 ∷ l)) rest)),
              ((hs, hc), h),
            )
          ]
  ]
]

-- The words of blocks without zeros give each block the successors that its pc last has, and keep
-- those of the others. A table that is not the words of such blocks is read past its end.
pub graph_of_table_lem :
    (table : CfTable) (g : Graph)
    → ((graph_of_table table g ≡ none) ⊎ ((bs : List Block) × (table ≡ words bs) × All IsBlock bs))
      × ((bs : List Block)
          → table ≡ words bs
          → All IsBlock bs
          → (g' : Graph) × (graph_of_table table g ≡ some g')
            × ((pc : ℕ)
                → find pc g' ≡ elim (last_successors pc bs) [
                  | some successors ↦ some successors
                  | none ↦ find pc g
                ]))
unfolding graph_of_table
graph_of_table_lem table g = (
  graph_loop_cases (suc (length table)) table g (omega arith),
  λ bs same h. (
    assign_blocks bs g,
    rw same (graph_loop-words (suc (length (words bs))) bs g h (omega arith)),
    λ pc. find-assign_blocks pc bs g,
  ),
)

-- A table of 64-bit words is read as it was written.
pub read_cf_table-write_cf_table :
    (table : CfTable)
    → All (λ w. w < 2 ^ 64) table
    → read_cf_table (write_cf_table table) ≡ done table
unfolding read_cf_table write_cf_table
read_cf_table-write_cf_table table h =
    let whole : (length (store_words 8 table) % 8 == 0) ≡ true =
      ground (arith, length-store_words 8 table) in
    let count : length (store_words 8 table) / 8 ≡ length table =
      omega (arith, length-store_words 8 table) in
    rw (whole, count) (ap done (load_words-store_words 8 table h))
