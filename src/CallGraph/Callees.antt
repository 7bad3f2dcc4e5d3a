-- ===== src/CallGraph/Callees.antt =====
-- InitializeCallGraph of centipede/call_graph.cc on a table of blocks, and what the queries of
-- centipede/call_graph.h then answer.
use fuzztest.Common.{
  ℕ, zero, suc, ◌<◌, ◌≡◌, ◌∙◌, sym, refl, ap, inl, inr, Bool, true, false, ◌||◌, List, [], ◌∷◌,
  ◌++◌, append-nil, append_assoc, Option, some, length, length-append, ◌==◌, ==_iff, if◌then◌else◌,
  Bool-cases, All, arith,
}
use fuzztest.Common.Abort.{aborted, done, ◌>>◌, check}
use fuzztest.Common.Maps.{Map, find, assign, is_in, find-assign}
use fuzztest.ControlFlow.{PcTable, has_func_entry_flag}
use fuzztest.ControlFlow.Table.{Block, IsBlock, words, read_list-append}
use fuzztest.CallGraph.{
  CallGraph, empty_call_graph, is_function_entry, or_empty, find_or_empty, entries_of, add_callees,
  callees_loop, initialize_call_graph, get_function_callees, get_basic_block_callees,
}

-- A function's callees: those of its entry block and of the blocks behind it, up to the next entry.
-- `entry` is the function of the blocks before the first entry.
unfoldable pub callees_of : List ℕ → ℕ → ℕ → List Block → List ℕ
callees_of entries entry pc [] = []
callees_of entries entry pc (b ∷ bs) =
    let entry' = if is_in b.pc entries then b.pc else entry in
    (if entry' == pc then b.callees else []) ++ callees_of entries entry' pc bs

abbrev pub non_empty_or : List ℕ → List ℕ → List ℕ
non_empty_or [] d = d
non_empty_or (callee ∷ callees) d = callee ∷ callees

-- The callees of the last block with that pc that has any.
unfoldable pub last_callees : ℕ → List Block → List ℕ
last_callees pc [] = []
last_callees pc (b ∷ bs) = non_empty_or (last_callees pc bs) (if b.pc == pc then b.callees else [])

abbrev pub has_block : ℕ → List Block → Bool
has_block pc [] = false
has_block pc (b ∷ bs) = if b.pc == pc then true else has_block pc bs

abbrev pub is_entry : ℕ → PcTable → Bool
is_entry pc [] = false
is_entry pc (info ∷ pc_table) =
    (if has_func_entry_flag info then info.pc == pc else false) || is_entry pc pc_table

is_in-entries_of :
    (pc : ℕ) (pc_table : PcTable) (s : List ℕ)
    → is_in pc (entries_of pc_table s) ≡ (is_in pc s || is_entry pc pc_table)
unfolding entries_of
is_in-entries_of pc [] s = ground arith
is_in-entries_of pc (info ∷ pc_table) s =
    ground (arith, is_in-entries_of pc pc_table s, is_in-entries_of pc pc_table (info.pc ∷ s))

or_empty_if :
    (b : Bool) (v : List ℕ) (o : Option (List ℕ))
    → or_empty (if b then some v else o) ≡ (if b then v else or_empty o)
or_empty_if true v o = refl
or_empty_if false v o = refl

find_or_empty-assign :
    (k j : ℕ) (v : List ℕ) (m : Map (List ℕ))
    → find_or_empty k (assign j v m) ≡ (if j == k then v else find_or_empty k m)
find_or_empty-assign k j v m = ap or_empty (find-assign k j v m) ∙ or_empty_if (j == k) v (find k m)

append_if : (b : Bool) (xs : List ℕ) → xs ++ (if b then [] else []) ≡ xs
append_if true xs = append-nil xs
append_if false xs = append-nil xs

none_if : (b : Bool) (xs : List ℕ) → xs ≡ non_empty_or (if b then [] else []) xs
none_if true xs = refl
none_if false xs = refl

appended :
    (entry pc : ℕ) (callees : List ℕ) (m : Map (List ℕ))
    → find_or_empty pc (assign entry (find_or_empty entry m ++ callees) m)
      ≡ find_or_empty pc m ++ (if entry == pc then callees else [])
appended entry pc callees m =
    find_or_empty-assign pc entry (find_or_empty entry m ++ callees) m
    ∙ elim (Bool-cases (entry == pc)) [
      | inl e ↦ rw (e) (ap (λ k. find_or_empty k m ++ callees) ((==_iff entry pc).0 e))
      | inr e ↦ rw (e) (sym (append-nil (find_or_empty pc m)))
    ]

kept :
    (current_pc pc callee : ℕ) (callees : List ℕ) (m : Map (List ℕ))
    → find_or_empty pc (assign current_pc (callee ∷ callees) m)
      ≡ non_empty_or (if current_pc == pc then callee ∷ callees else []) (find_or_empty pc m)
kept current_pc pc callee callees m =
    find_or_empty-assign pc current_pc (callee ∷ callees) m
    ∙ elim (Bool-cases (current_pc == pc)) [ inl e ↦ rw (e) refl | inr e ↦ rw (e) refl ]

add_callees_lem :
    (entry current_pc : ℕ) (callees : List ℕ) (g : CallGraph)
    → ((pc : ℕ)
        → find_or_empty pc (add_callees entry current_pc callees g).call_graph
          ≡ find_or_empty pc g.call_graph ++ (if entry == pc then callees else []))
      × ((pc : ℕ)
          → find_or_empty pc (add_callees entry current_pc callees g).basic_block_callees
            ≡ non_empty_or
                (if current_pc == pc then callees else [])
                (find_or_empty pc g.basic_block_callees))
      × ((add_callees entry current_pc callees g).function_entries ≡ g.function_entries)
      × ((add_callees entry current_pc callees g).basic_blocks ≡ g.basic_blocks)
unfolding add_callees
add_callees_lem entry current_pc [] g =
    (λ pc. sym (append_if (entry == pc) _), λ pc. none_if (current_pc == pc) _, refl, refl)
add_callees_lem entry current_pc (callee ∷ callees) g = (
  λ pc. appended entry pc (callee ∷ callees) g.call_graph,
  λ pc. kept current_pc pc callee callees g.basic_block_callees,
  refl,
  refl,
)

non_empty_or_assoc :
    (xs ys zs : List ℕ)
    → non_empty_or xs (non_empty_or ys zs) ≡ non_empty_or (non_empty_or xs ys) zs
non_empty_or_assoc [] ys zs = refl
non_empty_or_assoc (x ∷ xs) ys zs = refl

callees_loop_lem :
    (fuel : ℕ) (bs : List Block) (entry : ℕ) (g : CallGraph)
    → All IsBlock bs
    → length (words bs) < fuel
    → (c : CallGraph) × (callees_loop fuel (words bs) entry g ≡ done c)
      × (c.function_entries ≡ g.function_entries)
      × ((pc : ℕ)
          → (find_or_empty pc c.call_graph
              ≡ find_or_empty pc g.call_graph ++ callees_of g.function_entries entry pc bs)
            × (find_or_empty pc c.basic_block_callees
                ≡ non_empty_or (last_callees pc bs) (find_or_empty pc g.basic_block_callees))
            × (is_in pc c.basic_blocks ≡ (is_in pc g.basic_blocks || has_block pc bs)))
unfolding callees_loop words callees_of last_callees
callees_loop_lem zero bs entry g h l = absurd (omega arith)
callees_loop_lem (suc fuel) [] entry g h l =
    (g, refl, refl, λ pc. (sym (append-nil _), refl, ground arith))
callees_loop_lem (suc fuel) (b ∷ bs) entry g ((hs, hc), hbs) l =
    let entry' = if is_function_entry g b.pc then b.pc else entry in
    let g' = record g { basic_blocks = b.pc ∷ g.basic_blocks } in
    let next = add_callees entry' b.pc b.callees g' in
    let (calls, in_block, entries, blocks) = add_callees_lem entry' b.pc b.callees g' in
    let (c, eq, same, at) = callees_loop_lem fuel bs entry' next hbs (
      omega (
        arith,
        length-append b.successors (0 ∷ (b.callees ++ (0 ∷ words bs))),
        length-append b.callees (0 ∷ words bs),
      )) in
    (
      c,
      rw
          (
            read_list-append b.successors (b.callees ++ (0 ∷ words bs)) hs,
            read_list-append b.callees (words bs) hc,
          )
          eq,
      same ∙ entries,
      λ pc.
          let (x, y, z) = at pc in
          (
            x
                ∙ ap (λ l. l ++ callees_of next.function_entries entry' pc bs) (calls pc)
                ∙ append_assoc (find_or_empty pc g.call_graph)
                    (if entry' == pc then b.callees else [])
                    (callees_of next.function_entries entry' pc bs)
                ∙ ap
                    (λ e.
                      find_or_empty pc g.call_graph
                      ++ ((if entry' == pc then b.callees else []) ++ callees_of e entry' pc bs))
                    entries,
            y
                ∙ ap (non_empty_or (last_callees pc bs)) (in_block pc)
                ∙ non_empty_or_assoc (last_callees pc bs) _ _,
            z ∙ ap (λ s. is_in pc s || has_block pc bs) blocks ∙ ground arith,
          ),
    )

checked :
    (b b' : Bool) (v v' : List ℕ)
    → b ≡ b'
    → v ≡ v'
    → (check b >> done v) ≡ (if b' then done v' else aborted)
checked true true v v' e f = ap done f
checked false false v v' e f = refl
checked true false v v' e f = cc
checked false true v v' e f = cc

non_empty_or-nil : (xs : List ℕ) → non_empty_or xs [] ≡ xs
non_empty_or-nil [] = refl
non_empty_or-nil (x ∷ xs) = refl

-- A table of blocks is accepted, whatever the PC table. GetFunctionCallees then has, for a function
-- entry of the PC table, the callees of its blocks in order, and stops the process for any other
-- pc. GetBasicBlockCallees has, for a pc of a block, the callees of its last block with any, and
-- stops the process for any other pc.
pub initialize_call_graph_lem :
    (bs : List Block) (pc_table : PcTable)
    → All IsBlock bs
    → (g : CallGraph) × (initialize_call_graph (words bs) pc_table empty_call_graph ≡ done g)
      × ((pc : ℕ)
          → (get_function_callees g pc ≡ (
              if is_entry pc pc_table
              then done (callees_of (entries_of pc_table []) 0 pc bs)
              else aborted))
            × (get_basic_block_callees g pc
                ≡ (if has_block pc bs then done (last_callees pc bs) else aborted)))
unfolding initialize_call_graph get_function_callees get_basic_block_callees
initialize_call_graph_lem bs pc_table h =
    let entries = entries_of pc_table [] in
    let (g, eq, same, at) =
      callees_loop_lem (suc (length (words bs))) bs 0
        (record empty_call_graph { function_entries = entries }) h (omega arith) in
    (
      g,
      eq,
      λ pc.
          let (x, y, z) = at pc in
          (
            checked (is_function_entry g pc) (is_entry pc pc_table) _ _
                (ap (is_in pc) same ∙ is_in-entries_of pc pc_table []) x,
            checked (is_in pc g.basic_blocks) (has_block pc bs) _ _ z (y ∙ non_empty_or-nil _),
          ),
    )
