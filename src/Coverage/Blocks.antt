-- ===== src/Coverage/Blocks.antt =====
-- The arrays of Coverage of centipede/coverage.cc, before and after the round for one function.
use fuzztest.Common.{
  ℕ, zero, suc, ◌+◌, ◌-◌, ◌≤◌, ◌<◌, ◌≡◌, ◌≢◌, ◌∙◌, ◌⊎◌, subst, sym, refl, ap, inl, inr, Bool, true,
  false, ◌&&◌, List, [], ◌∷◌, length, length-set, set, get_or, get_or-set_self, get_or-set_ne, drop,
  drop-drop, length-drop, ltb, if◌then◌else◌, Bool-cases, arith,
}
use fuzztest.Common.Maps.{is_in}
use fuzztest.ControlFlow.{PcInfo, PcTable, has_func_entry_flag}
use fuzztest.Coverage.{Coverage, body_size, collect}
use fuzztest.Coverage.Functions.{all_covered, collect-lengths, collect-outside, collect-inside}

-- Arrays of `n` that have nothing from `i` on.
pub record IsFresh (n i : ℕ) (c : Coverage) : Type 0 where
  pub entries : length c.func_entries ≡ n
  pub fully : length c.fully_covered_funcs_vec ≡ n
  pub pcs : length c.covered_pcs_vec ≡ n
  pub no_entry : (j : ℕ) → i ≤ j → get_or c.func_entries j false ≡ false
  pub no_fully : (j : ℕ) → i ≤ j → get_or c.fully_covered_funcs_vec j false ≡ false
  pub no_pc : (j : ℕ) → i ≤ j → get_or c.covered_pcs_vec j false ≡ false

-- Whether the first block is a function entry, and that of a function whose blocks, itself and those
-- up to the next entry, are all covered.
abbrev pub begins_with_entry : PcTable → Bool
begins_with_entry [] = false
begins_with_entry (info ∷ pc_table) = has_func_entry_flag info

abbrev pub begins_fully_covered : List ℕ → ℕ → PcTable → Bool
begins_fully_covered ps j [] = false
begins_fully_covered ps j (info ∷ pc_table) =
    has_func_entry_flag info && all_covered (suc (body_size pc_table)) j ps

-- The arrays at `j` for the block that `pc_table` begins with.
pub record IsCoveredAt (c : Coverage) (ps : List ℕ) (j : ℕ) (pc_table : PcTable) : Type 0 where
  pub entry : get_or c.func_entries j false ≡ begins_with_entry pc_table
  pub fully : get_or c.fully_covered_funcs_vec j false ≡ begins_fully_covered ps j pc_table
  pub pc : get_or c.covered_pcs_vec j false ≡ is_in j ps

set_if_outside :
    (b : Bool) (i j : ℕ) (flags : List Bool)
    → i ≢ j
    → get_or (if b then set flags i true else flags) j false ≡ get_or flags j false
set_if_outside true i j flags h = get_or-set_ne flags true false h
set_if_outside false i j flags h = refl

set_if_self :
    (b : Bool) (i : ℕ) (flags : List Bool)
    → i < length flags
    → get_or flags i false ≡ false
    → get_or (if b then set flags i true else flags) i false ≡ b
set_if_self true i flags l h = get_or-set_self flags i true false l
set_if_self false i flags l h = h

length-set_if :
    (b : Bool) (i : ℕ) (flags : List Bool)
    → length (if b then set flags i true else flags) ≡ length flags
length-set_if true i flags = length-set flags i true
length-set_if false i flags = refl

-- Inside a function's body there is no entry.
pub body_no_entry :
    (pc_table : PcTable) (k : ℕ)
    → k < body_size pc_table
    → begins_with_entry (drop k pc_table) ≡ false
unfolding body_size
body_no_entry [] k l = absurd (omega arith)
body_no_entry (info ∷ pc_table) zero l = elim (Bool-cases (has_func_entry_flag info)) [
  | inl e ↦ absurd (let q = rw (e) at l in omega arith)
  | inr e ↦ e
]
body_no_entry (info ∷ pc_table) (suc k) l = elim (Bool-cases (has_func_entry_flag info)) [
  | inl e ↦ absurd (let q = rw (e) at l in omega arith)
  | inr e ↦ let q = rw (e) at l in body_no_entry pc_table k (omega arith)
]

no_entry_not_full :
    (ps : List ℕ) (j : ℕ) (pc_table : PcTable)
    → begins_with_entry pc_table ≡ false
    → begins_fully_covered ps j pc_table ≡ false
no_entry_not_full ps j [] h = refl
no_entry_not_full ps j (info ∷ pc_table) h = ground arith

-- What is right below `i` stays right: `c'` has there what `c` has.
pub record IsSameBelow (i : ℕ) (c c' : Coverage) : Type 0 where
  pub entry : (j : ℕ) → j < i → get_or c'.func_entries j false ≡ get_or c.func_entries j false
  pub fully :
      (j : ℕ)
      → j < i
      → get_or c'.fully_covered_funcs_vec j false ≡ get_or c.fully_covered_funcs_vec j false
  pub pc : (j : ℕ) → j < i → get_or c'.covered_pcs_vec j false ≡ get_or c.covered_pcs_vec j false

IsCoveredAt-same :
    (i j : ℕ) (c c' : Coverage) (ps : List ℕ) (pc_table : PcTable)
    → IsSameBelow i c c'
    → j < i
    → IsCoveredAt c ps j pc_table
    → IsCoveredAt c' ps j pc_table
IsCoveredAt-same i j c c' ps pc_table s l h = record {
  entry = s.entry j l ∙ h.entry;
  fully = s.fully j l ∙ h.fully;
  pc = s.pc j l ∙ h.pc;
}

-- After the round for the function at `i`, of `m` blocks behind its entry.
module _ (n i m : ℕ) (ps : List ℕ) (c c' : Coverage) (h : IsFresh n i c) (b : i + suc m ≤ n)
    (entries : c'.func_entries ≡ set c.func_entries i true)
    (pcs : c'.covered_pcs_vec
      ≡ (collect (suc m) i ps (record { covered = []; uncovered = [] }) c.covered_pcs_vec).1)
    (fully : c'.fully_covered_funcs_vec ≡ (
      if all_covered (suc m) i ps
      then set c.fully_covered_funcs_vec i true
      else c.fully_covered_funcs_vec)) where
  pub entries_away :
      (j : ℕ) → i ≢ j → get_or c'.func_entries j false ≡ get_or c.func_entries j false
  entries_away j ne =
      ap (λ (l : List Bool). get_or l j false) entries ∙ get_or-set_ne c.func_entries true false ne

  pub fully_away :
      (j : ℕ)
      → i ≢ j
      → get_or c'.fully_covered_funcs_vec j false ≡ get_or c.fully_covered_funcs_vec j false
  fully_away j ne =
      ap (λ (l : List Bool). get_or l j false) fully
      ∙ set_if_outside _ i j c.fully_covered_funcs_vec ne

  pub pcs_away :
      (j : ℕ)
      → (j < i) ⊎ (i + suc m ≤ j)
      → get_or c'.covered_pcs_vec j false ≡ get_or c.covered_pcs_vec j false
  pcs_away j out =
      ap (λ (l : List Bool). get_or l j false) pcs
      ∙ collect-outside (suc m) i j ps _ c.covered_pcs_vec out

  pcs_inside : (k j : ℕ) → i + k ≡ j → k < suc m → get_or c'.covered_pcs_vec j false ≡ is_in j ps
  pcs_inside k j at l =
      ap (λ (v : List Bool). get_or v j false) pcs
      ∙ collect-inside (suc m) i k j ps _ c.covered_pcs_vec at l (omega (arith, h.pcs))
          (h.no_pc j (omega arith))

  pub after-IsFresh : IsFresh n (i + suc m) c'
  after-IsFresh = record {
    entries = ap length entries ∙ length-set c.func_entries i true ∙ h.entries;
    fully = ap length fully ∙ length-set_if _ i c.fully_covered_funcs_vec ∙ h.fully;
    pcs = ap length pcs ∙ (collect-lengths (suc m) i ps _ c.covered_pcs_vec).0 ∙ h.pcs;
    no_entry = λ j l. entries_away j (λ e. omega arith) ∙ h.no_entry j (omega arith);
    no_fully = λ j l. fully_away j (λ e. omega arith) ∙ h.no_fully j (omega arith);
    no_pc = λ j l. pcs_away j (inr l) ∙ h.no_pc j (omega arith);
  }

  after_first :
      (info : PcInfo) (pc_table : PcTable)
      → has_func_entry_flag info ≡ true
      → body_size pc_table ≡ m
      → IsCoveredAt c' ps i (info ∷ pc_table)
  after_first info pc_table e size = record {
    entry =
        ap (λ (l : List Bool). get_or l i false) entries
        ∙ get_or-set_self c.func_entries i true false (omega (arith, h.entries))
        ∙ sym e;
    fully =
        ap (λ (l : List Bool). get_or l i false) fully
        ∙ set_if_self _ i c.fully_covered_funcs_vec (omega (arith, h.fully))
            (h.no_fully i (omega arith))
        ∙ rw (e, size) refl;
    pc = pcs_inside 0 i (omega arith) (omega arith);
  }

  after_body :
      (k j : ℕ) (pc_table : PcTable)
      → i + suc k ≡ j
      → body_size pc_table ≡ m
      → k < m
      → IsCoveredAt c' ps j (drop k pc_table)
  after_body k j pc_table at size l =
      let none_here = body_no_entry pc_table k (omega arith) in
      record {
        entry = entries_away j (λ e. omega arith) ∙ h.no_entry j (omega arith) ∙ sym none_here;
        fully =
            fully_away j (λ e. omega arith)
            ∙ h.no_fully j (omega arith)
            ∙ sym (no_entry_not_full ps j (drop k pc_table) none_here);
        pc = pcs_inside (suc k) j at (omega arith);
      }

  -- With what the later rounds leave.
  pub after_all :
      (d : Coverage) (info : PcInfo) (pc_table : PcTable)
      → has_func_entry_flag info ≡ true
      → body_size pc_table ≡ m
      → IsSameBelow (i + suc m) c' d
      → ((k j : ℕ)
          → i + suc m + k ≡ j
          → k < length (drop m pc_table)
          → IsCoveredAt d ps j (drop k (drop m pc_table)))
      → (k j : ℕ) → i + k ≡ j
      → k < suc (length pc_table)
      → IsCoveredAt d ps j (drop k (info ∷ pc_table))
  after_all d info pc_table e size same later zero j at l =
      let here : i ≡ j = omega arith in
      subst (λ q. IsCoveredAt d ps q (info ∷ pc_table)) here
        (IsCoveredAt-same (i + suc m) i c' d ps (info ∷ pc_table) same (omega arith)
          (after_first info pc_table e size))
  after_all d info pc_table e size same later (suc k) j at l = elim (Bool-cases (ltb k m)) [
    | inl inside ↦
        IsCoveredAt-same (i + suc m) j c' d ps (drop k pc_table) same (ground arith)
          (after_body k j pc_table at size (ground arith))
    | inr beyond ↦
        let reached : m ≤ k = ground arith in
        subst (IsCoveredAt d ps j) (drop-drop k (k - m) m pc_table (omega arith))
          (later (k - m) j (omega arith) (omega (arith, length-drop m pc_table)))
  ]
