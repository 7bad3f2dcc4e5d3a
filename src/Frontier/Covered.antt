-- ===== src/Frontier/Covered.antt =====
-- The marks of CoverageFrontier::Compute of centipede/corpus.cc: the covered indices of the PC table.
use fuzztest.Common.{
  subst, ◌⊎◌, ℕ, zero, suc, ◌+◌, ◌-◌, ◌%◌, ◌^◌, ◌≤◌, ◌<◌, ◌≡◌, ◌∙◌, sym, refl, ap, inl, inr, Bool,
  true, false, ◌||◌, List, [], ◌∷◌, ◌++◌, append-nil, append_assoc, length, length-set, set, get_or,
  get_or-set_self, get_or-set_ne, leb, ◌==◌, ==_iff, if◌then◌else◌, Bool-cases, arith,
}
use fuzztest.Common.Abort.{done}
use fuzztest.Common.Maps.{is_in}
use fuzztest.Feature.{pcs, contains, begin, convert_pc_feature_to_pc_index}
use fuzztest.Corpus.{CorpusRecord}
use fuzztest.Frontier.{mark_features, mark_records, num_set, fill_false}

-- The indices below `n` of the PC features.
unfoldable pub covered_indices : ℕ → List ℕ → List ℕ
covered_indices n [] = []
covered_indices n (feature ∷ features) =
    if contains pcs feature
    then (if leb n (feature - begin pcs)
        then covered_indices n features
        else (feature - begin pcs) ∷ covered_indices n features)
    else covered_indices n features

unfoldable pub covered_by : ℕ → List CorpusRecord → List ℕ
covered_by n [] = []
covered_by n (r ∷ records) = covered_indices n r.features ++ covered_by n records

pub is_in_append : (j : ℕ) (xs ys : List ℕ) → is_in j (xs ++ ys) ≡ (is_in j xs || is_in j ys)
is_in_append j [] ys = ground arith
is_in_append j (x ∷ xs) ys = ground (arith, is_in_append j xs ys)

pub or_assoc : (a b c : Bool) → ((a || b) || c) ≡ (a || (b || c))
or_assoc true b c = refl
or_assoc false b c = refl

pub or_true : (a : Bool) → (a || true) ≡ true
or_true true = refl
or_true false = refl

pub or_false : (a : Bool) → (a || false) ≡ a
or_false true = refl
or_false false = refl

or_if : (a b : Bool) → (a || b) ≡ (if a then true else b)
or_if true b = refl
or_if false b = refl

-- A flag that is set.
get_or-set :
    (flags : List Bool) (i j : ℕ)
    → i < length flags
    → get_or (set flags i true) j false ≡ (get_or flags j false || (i == j))
get_or-set flags i j l = elim (Bool-cases (i == j)) [
  | inl e ↦
      let same : i ≡ j = (==_iff i j).0 e in
      rw (e) (
        ap (λ k. get_or (set flags i true) k false) (sym same)
        ∙ get_or-set_self flags i true false l
        ∙ sym (or_true (get_or flags j false)))
  | inr e ↦ rw (e) (
      get_or-set_ne flags true false (λ (same : i ≡ j). ground arith)
      ∙ sym (or_false (get_or flags j false)))
]

covered_indices-small :
    (n feature : ℕ) (features : List ℕ)
    → contains pcs feature ≡ true
    → leb n (feature - begin pcs) ≡ false
    → covered_indices n (feature ∷ features) ≡ (feature - begin pcs) ∷ covered_indices n features
unfolding covered_indices
covered_indices-small n feature features e small = rw (e, small) refl

mark_features-small :
    (n feature : ℕ) (features covered : List ℕ) (flags : List Bool)
    → contains pcs feature ≡ true
    → leb n (feature - begin pcs) ≡ false
    → n < 2 ^ 32
    → mark_features n (feature ∷ features) covered flags
      ≡ mark_features n features
          (covered ++ ((feature - begin pcs) ∷ []))
          (set flags (feature - begin pcs) true)
unfolding mark_features convert_pc_feature_to_pc_index
mark_features-small n feature features covered flags e small b =
    let fits : (feature - begin pcs) % 2 ^ 32 ≡ feature - begin pcs =
      let inside : feature - begin pcs < n = ground arith in omega arith in
    rw (e, small)
      (ap
        (λ k. mark_features n features (covered ++ (k ∷ [])) (set flags (feature - begin pcs) true))
        fits)

mark_features_lem :
    (n : ℕ) (features covered : List ℕ) (flags : List Bool)
    → n < 2 ^ 32
    → length flags ≡ n
    → (flags' : List Bool) × (mark_features n features covered flags
        ≡ done (covered ++ covered_indices n features, flags'))
      × (length flags' ≡ n)
      × ((j : ℕ)
          → get_or flags' j false ≡ (get_or flags j false || is_in j (covered_indices n features)))
unfolding mark_features covered_indices convert_pc_feature_to_pc_index
mark_features_lem n [] covered flags b l =
    (flags, ap (λ (c : List ℕ). done (c, flags)) (sym (append-nil covered)), l, λ j. ground arith)
mark_features_lem n (feature ∷ features) covered flags b l =
    elim (Bool-cases (contains pcs feature)) [
      | inr e ↦
          let (flags', eq, len, at) = mark_features_lem n features covered flags b l in
          (flags', rw (e) eq, len, rw (e) at)
      | inl e ↦ elim (Bool-cases (leb n (feature - begin pcs))) [
        | inl big ↦
            let (flags', eq, len, at) = mark_features_lem n features covered flags b l in
            (flags', rw (e, big) eq, len, rw (e, big) at)
        | inr small ↦
            let idx = feature - begin pcs in
            let new = covered_indices-small n feature features e small in
            let inside : idx < length flags = ground arith in
            let (flags', eq, len, at) =
              mark_features_lem n features (covered ++ (idx ∷ [])) (set flags idx true) b
                (length-set flags idx true ∙ l) in
            (
              flags',
              mark_features-small n feature features covered flags e small b
                  ∙ eq
                  ∙ ap (λ (c : List ℕ). done (c, flags'))
                      (append_assoc covered (idx ∷ []) (covered_indices n features)
                        ∙ ap (◌++◌ covered) (sym new)),
              len,
              λ j.
                  at j
                  ∙ ap (λ f. f || is_in j (covered_indices n features))
                      (get_or-set flags idx j inside)
                  ∙ or_assoc (get_or flags j false) (idx == j)
                      (is_in j (covered_indices n features))
                  ∙ ap (λ f. get_or flags j false || f)
                      (or_if (idx == j) (is_in j (covered_indices n features))
                        ∙ ap (is_in j) (sym new)),
            )
      ]
    ]

-- Compute covers the PC features of all the records.
pub mark_records_lem :
    (n : ℕ) (records : List CorpusRecord) (covered : List ℕ) (flags : List Bool)
    → n < 2 ^ 32
    → length flags ≡ n
    → (flags' : List Bool) × (mark_records n records covered flags
        ≡ done (covered ++ covered_by n records, flags'))
      × (length flags' ≡ n)
      × ((j : ℕ) → get_or flags' j false ≡ (get_or flags j false || is_in j (covered_by n records)))
unfolding mark_records covered_by
mark_records_lem n [] covered flags b l = (
  flags,
  ap (λ (c : List ℕ). done (c, flags)) (sym (append-nil covered)),
  l,
  λ j. sym (or_false _),
)
mark_records_lem n (r ∷ records) covered flags b l =
    let now = covered_indices n r.features in
    let (middle, eq, len, at) = mark_features_lem n r.features covered flags b l in
    let (flags', eq', len', at') = mark_records_lem n records (covered ++ now) middle b len in
    (
      flags',
      rw (eq) (
          eq'
          ∙ ap (λ (c : List ℕ). done (c, flags'))
              (append_assoc covered now (covered_by n records))),
      len',
      λ j.
          at' j
          ∙ ap (λ f. f || is_in j (covered_by n records)) (at j)
          ∙ or_assoc (get_or flags j false) (is_in j now) (is_in j (covered_by n records))
          ∙ ap (λ f. get_or flags j false || f) (sym (is_in_append j now (covered_by n records))),
    )

-- The number of the `n` indices from `i` on that are covered.
unfoldable pub num_covered : ℕ → ℕ → List ℕ → ℕ
num_covered zero i ps = 0
num_covered (suc n) i ps = (if is_in i ps then 1 else 0) + num_covered n (i + 1) ps

pub num_set_lem :
    (n i : ℕ) (ps : List ℕ) (flags : List Bool)
    → ((j : ℕ) → i ≤ j → get_or flags j false ≡ is_in j ps)
    → num_set n i flags ≡ num_covered n i ps
unfolding num_set num_covered
num_set_lem zero i ps flags h = refl
num_set_lem (suc n) i ps flags h =
    rw (h i (omega arith), num_set_lem n (i + 1) ps flags (λ j l. h j (omega arith))) refl

pub fill_false_lem :
    (n i : ℕ) (flags : List Bool)
    → (length (fill_false n i flags) ≡ length flags)
      × ((j : ℕ) → i ≤ j → j < i + n → get_or (fill_false n i flags) j false ≡ false)
      × ((j : ℕ)
          → (j < i) ⊎ (i + n ≤ j)
          → get_or (fill_false n i flags) j false ≡ get_or flags j false)
unfolding fill_false
fill_false_lem zero i flags = (refl, λ j a b. absurd (omega arith), λ j o. refl)
fill_false_lem (suc n) i flags =
    let (len, inside, outside) = fill_false_lem n (i + 1) (set flags i false) in
    (
      len ∙ length-set flags i false,
      λ j a b. elim (Bool-cases (i == j)) [
        | inl e ↦
            let same : i ≡ j = (==_iff i j).0 e in
            outside j (inl (omega arith))
            ∙ subst (λ k. get_or (set flags i false) k false ≡ false) same (unset i flags)
        | inr e ↦ inside j (ground arith) (omega arith)
      ],
      λ j o.
          outside j (ground arith)
          ∙ get_or-set_ne flags false false (λ (same : i ≡ j). ground arith),
    )
  where
    unset : (i : ℕ) (flags : List Bool) → get_or (set flags i false) i false ≡ false
    unset i [] = refl
    unset zero (f ∷ flags) = refl
    unset (suc i) (f ∷ flags) = unset i flags
