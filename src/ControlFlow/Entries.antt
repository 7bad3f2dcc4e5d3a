-- ===== src/ControlFlow/Entries.antt =====
-- The loop over pc_table in InitializeControlFlowGraph of centipede/control_flow.cc, member by
-- member.
use fuzztest.Common.{
  ℕ, zero, suc, ◌+◌, ◌^◌, ◌<◌, ◌≡◌, ◌≢◌, ◌∙◌, sym, refl, ap, subst, ◌⊎◌, inl, inr, Bool, true,
  false, List, [], ◌∷◌, ◌++◌, append_assoc, some, length, length-append, leb, ◌%◌, set, get_or,
  get_or-set_self, get_or-set_ne, length-set, map, ◌==◌, ==_iff, if◌then◌else◌, Bool-cases, All,
  arith,
}
use fuzztest.Common.Abort.{aborted, done}
use fuzztest.Knobs.{element}
use fuzztest.Common.Maps.{
  Map, find, assign, has_key, is_in, find-assign_self, find-assign_ne, length-assign,
}
use fuzztest.ControlFlow.{
  Graph, PcInfo, PcTable, ControlFlowGraph, has_func_entry_flag, exists, entries_loop,
  compute_function_cyclomatic_complexity, num_edges,
}
use fuzztest.ControlFlow.Complexity.{compute_function_cyclomatic_complexity_lem}

-- The pcs of the table, and that no pc is there twice.
abbrev pub pcs_of : PcTable → List ℕ
pcs_of table = map (λ (i : PcInfo). i.pc) table

abbrev pub IsDistinct : PcTable → Type 0
IsDistinct [] = Unit
IsDistinct (i ∷ table) = (is_in i.pc (pcs_of table) ≡ false) × IsDistinct table

-- What entries_loop does to each of the members.
unfoldable pub index_map : ℕ → PcTable → Map ℕ → Map ℕ
index_map i [] m = m
index_map i (info ∷ table) m = index_map (i + 1) table (assign info.pc i m)

unfoldable pub entry_flags : ℕ → PcTable → List Bool → List Bool
entry_flags i [] flags = flags
entry_flags i (info ∷ table) flags =
    entry_flags (i + 1) table (if has_func_entry_flag info then set flags i true else flags)

unfoldable pub complexity_of : Graph → ℕ → ℕ
complexity_of g pc = elim (compute_function_cyclomatic_complexity g pc) [ done c ↦ c | aborted ↦ 0 ]

unfoldable pub complexities : Graph → PcTable → Map ℕ → Map ℕ
complexities g [] m = m
complexities g (info ∷ table) m =
    complexities g table
      (if has_func_entry_flag info then assign info.pc (complexity_of g info.pc) m else m)

-- The compilation of `complexity_of` apart, so that the value stays shut.
pub complexity_of_lem :
    (g : Graph) (pc c : ℕ)
    → compute_function_cyclomatic_complexity g pc ≡ done c
    → compute_function_cyclomatic_complexity g pc ≡ done (complexity_of g pc)
unfolding complexity_of
complexity_of_lem g pc c h =
    let value : complexity_of g pc ≡ c = rw (complexity_of, h) refl in h ∙ ap done (sym value)

element-append :
    (i : ℕ) (front : PcTable) (info : PcInfo) (table : PcTable)
    → i ≡ length front
    → element (front ++ (info ∷ table)) i ≡ done info
element-append zero [] info table e = refl
element-append (suc i) [] info table e = absurd (omega arith)
element-append zero (p ∷ front) info table e = absurd (omega arith)
element-append (suc i) (p ∷ front) info table e = element-append i front info table (omega arith)

-- The loop does to each member what the functions above do, if the index does not wrap around.
pub entries_loop_lem :
    (fuel i : ℕ) (pcs front table : PcTable) (c : ControlFlowGraph)
    → pcs ≡ front ++ table
    → i ≡ length front
    → length table < fuel
    → length pcs < 2 ^ 32
    → All (λ info. has_func_entry_flag info ≡ true → exists c.graph info.pc ≡ true) table
    → num_edges c.graph + 2 < 2 ^ 32
    → entries_loop fuel i pcs c
      ≡ done (record c {
        pc_index_map = index_map i table c.pc_index_map;
        func_entries = entry_flags i table c.func_entries;
        function_complexities = complexities c.graph table c.function_complexities;
      })
unfolding entries_loop index_map entry_flags complexities
entries_loop_lem zero i pcs front table c parts at l n h b = absurd (omega arith)
entries_loop_lem (suc fuel) i pcs front [] c parts at l n h b =
    let size = ap length parts in
    let ended : leb (length pcs) i ≡ true = ground (arith, length-append front []) in
    rw (ended) refl
entries_loop_lem (suc fuel) i pcs front (info ∷ table) c parts at l n (h, hs) b =
    let size = ap length parts in
    let appended = length-append front (info ∷ table) in
    let within : leb (length pcs) i ≡ false = ground (arith, appended) in
    let read : element pcs i ≡ done info =
      ap (λ t. element t i) parts ∙ element-append i front info table at in
    let next : (i + 1) % 2 ^ 32 ≡ i + 1 = omega (arith, appended) in
    let parts' = parts ∙ sym (append_assoc front (info ∷ []) table) in
    let at' : i + 1 ≡ length (front ++ (info ∷ [])) =
      omega (arith, length-append front (info ∷ [])) in
    let rest = entries_loop_lem fuel (i + 1) pcs (front ++ (info ∷ [])) table in
    elim (Bool-cases (has_func_entry_flag info)) [
      | inl e ↦
          let (r, _, eq, _) = compute_function_cyclomatic_complexity_lem c.graph info.pc (h e) b in
          rw (within, read, e, complexity_of_lem c.graph info.pc _ eq, next)
            (rest _ parts' at' (omega arith) n hs b)
      | inr e ↦ rw (within, read, e, next) (rest _ parts' at' (omega arith) n hs b)
    ]

is_in-cons_false :
    (pc p : ℕ) (s : List ℕ) → is_in pc (p ∷ s) ≡ false → (p ≢ pc) × (is_in pc s ≡ false)
is_in-cons_false pc p s h = ground arith

find-index_map_other :
    (i : ℕ) (table : PcTable) (m : Map ℕ) (pc : ℕ)
    → is_in pc (pcs_of table) ≡ false
    → find pc (index_map i table m) ≡ find pc m
unfolding index_map
find-index_map_other i [] m pc h = refl
find-index_map_other i (info ∷ table) m pc h =
    let (ne, later) = is_in-cons_false pc info.pc (pcs_of table) h in
    find-index_map_other (i + 1) table (assign info.pc i m) pc later
    ∙ find-assign_ne pc info.pc i m ne

pub find-index_map :
    (i j : ℕ) (table : PcTable) (m : Map ℕ) (d : PcInfo)
    → IsDistinct table
    → j < length table
    → find (get_or table j d).pc (index_map i table m) ≡ some (i + j)
unfolding index_map
find-index_map i j [] m d h l = absurd (omega arith)
find-index_map i zero (info ∷ table) m d (h, hs) l =
    let at : i ≡ i + 0 = omega arith in
    find-index_map_other (i + 1) table (assign info.pc i m) info.pc h
    ∙ find-assign_self info.pc i m
    ∙ ap some at
find-index_map i (suc j) (info ∷ table) m d (h, hs) l =
    let at : i + 1 + j ≡ i + suc j = omega arith in
    find-index_map (i + 1) j table (assign info.pc i m) d hs (omega arith) ∙ ap some at

find-assign_cases :
    (pc k p i : ℕ) (m : Map ℕ)
    → find pc (assign p i m) ≡ some k
    → (find pc m ≡ some k) ⊎ ((p ≡ pc) × (i ≡ k))
find-assign_cases pc k p i m h = elim (Bool-cases (p == pc)) [
  | inl e ↦
      let same : p ≡ pc = (==_iff p pc).0 e in
      let new : some i ≡ some k =
        sym (find-assign_self p i m) ∙ ap (λ q. find q (assign p i m)) same ∙ h in
      inr (same, cc)
  | inr e ↦ inl (sym (find-assign_ne pc p i m (λ same. ground arith)) ∙ h)
]

-- An index in the map is that of its pc in the table.
pub find-index_map_cases :
    (i k : ℕ) (table : PcTable) (m : Map ℕ) (d : PcInfo) (pc : ℕ)
    → find pc (index_map i table m) ≡ some k
    → (find pc m ≡ some k)
      ⊎ ((j : ℕ) × (j < length table) × (k ≡ i + j) × ((get_or table j d).pc ≡ pc))
unfolding index_map
find-index_map_cases i k [] m d pc h = inl h
find-index_map_cases i k (info ∷ table) m d pc h =
    elim (find-index_map_cases (i + 1) k table (assign info.pc i m) d pc h) [
      | inr (j, l, e, same) ↦ inr (suc j, omega arith, omega arith, same)
      | inl old ↦ elim (find-assign_cases pc k info.pc i m old) [
        | inl older ↦ inl older
        | inr (same, at) ↦ inr (0, omega arith, omega arith, same)
      ]
    ]

pub length-index_map :
    (i : ℕ) (table : PcTable) (m : Map ℕ)
    → IsDistinct table
    → ((pc : ℕ) → is_in pc (pcs_of table) ≡ true → has_key pc m ≡ false)
    → length (index_map i table m) ≡ length m + length table
unfolding index_map
length-index_map i [] m h n = omega arith
length-index_map i (info ∷ table) m (h, hs) n =
    let new : has_key info.pc m ≡ false = n info.pc (ground arith) in
    let one_more : length (assign info.pc i m) ≡ length m + 1 =
      length-assign info.pc i m ∙ rw (new) refl in
    let fresh : (pc : ℕ)
        → is_in pc (pcs_of table) ≡ true
        → has_key pc (assign info.pc i m) ≡ false =
      λ pc q.
        let ne : info.pc ≢ pc =
          λ e. let r = subst (λ w. is_in w (pcs_of table) ≡ true) (sym e) q in cc in
        rw (has_key, find-assign_ne pc info.pc i m ne) (n pc (ground arith)) in
    omega (arith, length-index_map (i + 1) table (assign info.pc i m) hs fresh)

one_flag : Bool → ℕ → List Bool → List Bool
one_flag b i flags = if b then set flags i true else flags

flag-one_flag :
    (b : Bool) (i j : ℕ) (flags : List Bool)
    → i ≢ j
    → get_or (one_flag b i flags) j false ≡ get_or flags j false
unfolding one_flag
flag-one_flag true i j flags h = get_or-set_ne flags true false h
flag-one_flag false i j flags h = refl

flag-one_flag_self :
    (b : Bool) (i : ℕ) (flags : List Bool)
    → i < length flags
    → get_or flags i false ≡ false
    → get_or (one_flag b i flags) i false ≡ b
unfolding one_flag
flag-one_flag_self true i flags l h = get_or-set_self flags i true false l
flag-one_flag_self false i flags l h = h

length-one_flag :
    (b : Bool) (i : ℕ) (flags : List Bool) → length (one_flag b i flags) ≡ length flags
unfolding one_flag
length-one_flag true i flags = length-set flags i true
length-one_flag false i flags = refl

pub length-entry_flags :
    (i : ℕ) (table : PcTable) (flags : List Bool)
    → length (entry_flags i table flags) ≡ length flags
unfolding entry_flags one_flag
length-entry_flags i [] flags = refl
length-entry_flags i (info ∷ table) flags =
    length-entry_flags (i + 1) table (one_flag (has_func_entry_flag info) i flags)
    ∙ length-one_flag (has_func_entry_flag info) i flags

flags_before :
    (i j : ℕ) (table : PcTable) (flags : List Bool)
    → j < i
    → get_or (entry_flags i table flags) j false ≡ get_or flags j false
unfolding entry_flags one_flag
flags_before i j [] flags l = refl
flags_before i j (info ∷ table) flags l =
    flags_before (i + 1) j table (one_flag (has_func_entry_flag info) i flags) (omega arith)
    ∙ flag-one_flag (has_func_entry_flag info) i j flags (λ e. omega arith)

pub flags_at :
    (i k j : ℕ) (table : PcTable) (flags : List Bool) (d : PcInfo)
    → i + k ≡ j
    → k < length table
    → j < length flags
    → get_or flags j false ≡ false
    → get_or (entry_flags i table flags) j false ≡ has_func_entry_flag (get_or table k d)
unfolding entry_flags one_flag
flags_at i k j [] flags d e l m h = absurd (omega arith)
flags_at i zero j (info ∷ table) flags d e l m h =
    let at : i ≡ j = omega arith in
    flags_before (i + 1) j table (one_flag (has_func_entry_flag info) i flags) (omega arith)
    ∙ rw (at) (flag-one_flag_self (has_func_entry_flag info) j flags m h)
flags_at i (suc k) j (info ∷ table) flags d e l m h =
    let b = has_func_entry_flag info in
    flags_at (i + 1) k j table (one_flag b i flags) d (omega arith) (omega arith)
      (omega (arith, length-one_flag b i flags))
      (flag-one_flag b i j flags (λ same. omega arith) ∙ h)

-- A function entry has its complexity, whatever else has been assigned, since pcs are distinct.
find-complexities_other :
    (g : Graph) (table : PcTable) (m : Map ℕ) (pc : ℕ)
    → is_in pc (pcs_of table) ≡ false
    → find pc (complexities g table m) ≡ find pc m
unfolding complexities
find-complexities_other g [] m pc h = refl
find-complexities_other g (info ∷ table) m pc h =
    let (ne, later) = is_in-cons_false pc info.pc (pcs_of table) h in
    elim (Bool-cases (has_func_entry_flag info)) [
      | inl e ↦ rw (e) (
          find-complexities_other g table (assign info.pc (complexity_of g info.pc) m) pc later
          ∙ find-assign_ne pc info.pc (complexity_of g info.pc) m ne)
      | inr e ↦ rw (e) (find-complexities_other g table m pc later)
    ]

pub find-complexities :
    (g : Graph) (k : ℕ) (table : PcTable) (m : Map ℕ) (d : PcInfo)
    → IsDistinct table
    → k < length table
    → has_func_entry_flag (get_or table k d) ≡ true
    → find (get_or table k d).pc (complexities g table m)
      ≡ some (complexity_of g (get_or table k d).pc)
unfolding complexities
find-complexities g k [] m d h l e = absurd (omega arith)
find-complexities g zero (info ∷ table) m d (h, hs) l e = rw (e) (
    find-complexities_other g table (assign info.pc (complexity_of g info.pc) m) info.pc h
    ∙ find-assign_self info.pc (complexity_of g info.pc) m)
find-complexities g (suc k) (info ∷ table) m d (h, hs) l e =
    find-complexities g k table _ d hs (omega arith) e
