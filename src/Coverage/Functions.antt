-- ===== src/Coverage/Functions.antt =====
-- One function of the PC table, in the constructor of Coverage of centipede/coverage.cc.
use fuzztest.Common.{
  ℕ, zero, suc, ◌+◌, ◌≤◌, ◌<◌, ◌≡◌, ◌≢◌, ◌∙◌, ◌↔◌, ◌⊎◌, subst, refl, inl, inr, Bool, true, false,
  ◌&&◌, List, [], ◌∷◌, ◌++◌, length, length-append, length-set, set, get_or, get_or-set_self,
  get_or-set_ne, drop, ◌==◌, if◌then◌else◌, Bool-cases, arith,
}
use fuzztest.Common.Abort.{done}
use fuzztest.Common.Maps.{is_in}
use fuzztest.ControlFlow.{PcTable, has_func_entry_flag}
use fuzztest.Coverage.{
  PartiallyCoveredFunction, Coverage, body_size, collect, put_function, cover_function,
}

pub body_size-le : (pc_table : PcTable) → body_size pc_table ≤ length pc_table
unfolding body_size
body_size-le [] = omega arith
body_size-le (info ∷ pc_table) = ground (arith, body_size-le pc_table)

-- Nothing, or a function entry first.
abbrev pub BeginsFunction : PcTable → Type 0
BeginsFunction [] = Unit
BeginsFunction (info ∷ pc_table) = has_func_entry_flag info ≡ true

pub drop-BeginsFunction : (pc_table : PcTable) → BeginsFunction (drop (body_size pc_table) pc_table)
unfolding body_size
drop-BeginsFunction [] = tt
drop-BeginsFunction (info ∷ pc_table) = elim (Bool-cases (has_func_entry_flag info)) [
  | inl e ↦ rw (e) e
  | inr e ↦ rw (e) (drop-BeginsFunction pc_table)
]

-- All of the `n` indices from `i` on are covered.
abbrev pub all_covered : ℕ → ℕ → List ℕ → Bool
all_covered zero i covered_pcs = true
all_covered (suc n) i covered_pcs = is_in i covered_pcs && all_covered n (i + 1) covered_pcs

pub collect-lengths :
    (n i : ℕ) (ps : List ℕ) (f : PartiallyCoveredFunction) (vec : List Bool)
    → (length (collect n i ps f vec).1 ≡ length vec)
      × (length (collect n i ps f vec).0.covered + length (collect n i ps f vec).0.uncovered
          ≡ length f.covered + length f.uncovered + n)
      × (length f.uncovered ≤ length (collect n i ps f vec).0.uncovered)
unfolding collect
collect-lengths zero i ps f vec = (refl, omega arith, omega arith)
collect-lengths (suc n) i ps f vec = elim (Bool-cases (is_in i ps)) [
  | inl e ↦
      let g = record f { covered = f.covered ++ (i ∷ []) } in
      let (a, b, c) = collect-lengths n (i + 1) ps g (set vec i true) in
      rw (e) (a ∙ length-set vec i true, omega (arith, length-append f.covered (i ∷ [])), c)
  | inr e ↦
      let g = record f { uncovered = f.uncovered ++ (i ∷ []) } in
      let (a, b, c) = collect-lengths n (i + 1) ps g vec in
      rw (e) (
        a,
        omega (arith, length-append f.uncovered (i ∷ [])),
        omega (arith, length-append f.uncovered (i ∷ [])),
      )
]

-- The function is fully covered just where nothing uncovered has been found.
collect-all_covered :
    (n i : ℕ) (ps : List ℕ) (f : PartiallyCoveredFunction) (vec : List Bool)
    → (length (collect n i ps f vec).0.uncovered ≡ length f.uncovered) ↔ (all_covered n i ps ≡ true)
unfolding collect
collect-all_covered zero i ps f vec = (λ h. refl, λ h. refl)
collect-all_covered (suc n) i ps f vec = elim (Bool-cases (is_in i ps)) [
  | inl e ↦
      let g = record f { covered = f.covered ++ (i ∷ []) } in
      rw (e) (collect-all_covered n (i + 1) ps g (set vec i true))
  | inr e ↦
      let g = record f { uncovered = f.uncovered ++ (i ∷ []) } in
      let (_, _, c) = collect-lengths n (i + 1) ps g vec in
      rw (e) (λ h. absurd (omega (arith, length-append f.uncovered (i ∷ []))), λ h. absurd cc)
]

pub collect-outside :
    (n i j : ℕ) (ps : List ℕ) (f : PartiallyCoveredFunction) (vec : List Bool)
    → (j < i) ⊎ (i + n ≤ j)
    → get_or (collect n i ps f vec).1 j false ≡ get_or vec j false
unfolding collect
collect-outside zero i j ps f vec h = refl
collect-outside (suc n) i j ps f vec h =
    let out : (j < i + 1) ⊎ (i + 1 + n ≤ j) = ground arith in
    let other : i ≢ j = λ e. ground arith in
    elim (Bool-cases (is_in i ps)) [
      | inl e ↦ rw (e) (
          collect-outside n (i + 1) j ps (record f { covered = f.covered ++ (i ∷ []) })
            (set vec i true) out
          ∙ get_or-set_ne vec true false other)
      | inr e ↦ rw (e) (
          collect-outside n (i + 1) j ps (record f { uncovered = f.uncovered ++ (i ∷ []) }) vec out)
    ]

collect-first :
    (n i : ℕ) (ps : List ℕ) (f : PartiallyCoveredFunction) (vec : List Bool)
    → i < length vec
    → get_or vec i false ≡ false
    → get_or (collect (suc n) i ps f vec).1 i false ≡ is_in i ps
unfolding collect
collect-first n i ps f vec b h = elim (Bool-cases (is_in i ps)) [
  | inl e ↦ rw (e) (
      collect-outside n (i + 1) i ps (record f { covered = f.covered ++ (i ∷ []) }) (set vec i true)
        (inl (omega arith))
      ∙ get_or-set_self vec i true false b)
  | inr e ↦ rw (e) (
      collect-outside n (i + 1) i ps (record f { uncovered = f.uncovered ++ (i ∷ []) }) vec
        (inl (omega arith))
      ∙ h)
]

pub collect-inside :
    (n i k j : ℕ) (ps : List ℕ) (f : PartiallyCoveredFunction) (vec : List Bool)
    → i + k ≡ j
    → k < n
    → j < length vec
    → get_or vec j false ≡ false
    → get_or (collect n i ps f vec).1 j false ≡ is_in j ps
unfolding collect
collect-inside zero i k j ps f vec at l b h = absurd (omega arith)
collect-inside (suc n) i zero j ps f vec at l b h =
    let same : i ≡ j = omega arith in
    subst (λ m. get_or (collect (suc n) i ps f vec).1 m false ≡ is_in m ps) same
      (collect-first n i ps f vec (omega arith) (rw same h))
collect-inside (suc n) i (suc k) j ps f vec at l b h =
    let other : i ≢ j = λ e. omega arith in
    elim (Bool-cases (is_in i ps)) [
      | inl e ↦ rw (e) (
          collect-inside n (i + 1) k j ps (record f { covered = f.covered ++ (i ∷ []) })
            (set vec i true) (omega arith) (omega arith) (omega (arith, length-set vec i true))
            (get_or-set_ne vec true false other ∙ h))
      | inr e ↦ rw (e) (
          collect-inside n (i + 1) k j ps (record f { uncovered = f.uncovered ++ (i ∷ []) }) vec
            (omega arith) (omega arith) b h)
    ]

put_function_lem :
    (i n : ℕ) (full : Bool) (f : PartiallyCoveredFunction) (c : Coverage)
    → length f.covered + length f.uncovered ≡ n
    → (length f.uncovered ≡ 0) ↔ (full ≡ true)
    → (c' : Coverage) × (put_function i n f c ≡ done c')
      × (c'.func_entries ≡ c.func_entries)
      × (c'.covered_pcs_vec ≡ c.covered_pcs_vec)
      × (c'.fully_covered_funcs_vec
          ≡ (if full then set c.fully_covered_funcs_vec i true else c.fully_covered_funcs_vec))
unfolding put_function
put_function_lem i n true f c sums h =
    let none_left = h.1 refl in
    let all : (n == length f.covered) ≡ true = ground arith in
    (
      record c {
        fully_covered_funcs = c.fully_covered_funcs ++ (i ∷ []);
        fully_covered_funcs_vec = set c.fully_covered_funcs_vec i true;
      },
      rw (all) refl,
      refl,
      refl,
      refl,
    )
put_function_lem i n false f c sums h =
    let some_left : length f.uncovered ≢ 0 = λ e. let q = h.0 e in cc in
    let not_all : (n == length f.covered) ≡ false = ground arith in
    elim (Bool-cases (length f.covered == 0)) [
      | inl e ↦ (
        record c { uncovered_funcs = c.uncovered_funcs ++ (i ∷ []) },
        rw (not_all, e) refl,
        refl,
        refl,
        refl,
      )
      | inr e ↦
          let left : (length f.uncovered == 0) ≡ false = ground arith in
          let both : (length f.covered + length f.uncovered == n) ≡ true = ground arith in
          (
            record c { partially_covered_funcs = c.partially_covered_funcs ++ (f ∷ []) },
            rw (not_all, e, left, both) refl,
            refl,
            refl,
            refl,
          )
    ]

-- The round for a function of `n` blocks behind its entry at `i`, in arrays that reach beyond it.
pub cover_function_lem :
    (i n : ℕ) (ps : List ℕ) (c : Coverage)
    → i + suc n ≤ length c.func_entries
    → i + suc n ≤ length c.covered_pcs_vec
    → (c' : Coverage) × (cover_function i n ps c ≡ done c')
      × (c'.func_entries ≡ set c.func_entries i true)
      × (c'.covered_pcs_vec
          ≡ (collect (suc n) i ps (record { covered = []; uncovered = [] }) c.covered_pcs_vec).1)
      × (c'.fully_covered_funcs_vec ≡ (
          if all_covered (suc n) i ps
          then set c.fully_covered_funcs_vec i true
          else c.fully_covered_funcs_vec))
unfolding cover_function
cover_function_lem i n ps c b v =
    let f : PartiallyCoveredFunction = record { covered = []; uncovered = [] } in
    let (_, sums, _) = collect-lengths (suc n) i ps f c.covered_pcs_vec in
    let full = collect-all_covered (suc n) i ps f c.covered_pcs_vec in
    put_function_lem i (suc n) (all_covered (suc n) i ps)
      (collect (suc n) i ps f c.covered_pcs_vec).0
      (record c {
        func_entries = set c.func_entries i true;
        covered_pcs_vec = (collect (suc n) i ps f c.covered_pcs_vec).1;
      })
      (omega (arith, sums)) full
