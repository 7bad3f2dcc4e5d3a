-- ===== src/ExecutionMetadata/Entries.antt =====
-- Which arrays are lists of entries, and what `for_each_cmp_entry` makes of them.
use fuzztest.Common.{
  ℕ, zero, suc, ◌+◌, ◌*◌, ◌%◌, ◌≤◌, ◌<◌, ◌≡◌, ◌≢◌, ◌⊎◌, inl, inr, refl, sym, ap, ◌∙◌, Bool, true,
  false, List, [], ◌∷◌, ◌++◌, none, some, ltb, leb, ◌==◌, length, take, drop, get_or, arith, All,
  Bool-cases, length-append, length-drop, length-take, append_assoc, append-nil, drop-drop,
  drop-get_or, drop_all, All-get_or, ◌-◌, take-append, drop-append, drop_past, take-append-drop,
  Option-cases,
}
use fuzztest.Common.Bytes.{ByteArray, IsByte}
use fuzztest.ExecutionMetadata.{ExecutionMetadata, append_cmp_entry, cmp_loop, for_each_cmp_entry}

-- Two operands of one size, which fits a byte.
abbrev pub IsEntry : ByteArray × ByteArray → Type 0
IsEntry (a, b) = (length a ≡ length b) × (length a < 256)

abbrev pub entry_bytes : ByteArray × ByteArray → ByteArray
entry_bytes (a, b) = length a ∷ (a ++ b)

abbrev pub entries_bytes : List (ByteArray × ByteArray) → ByteArray
entries_bytes [] = []
entries_bytes (e ∷ es) = entry_bytes e ++ entries_bytes es

-- An entry is added behind the others; operands that are no entry change nothing.
append_cmp_entry_cases :
    (m : ExecutionMetadata) (a b : ByteArray)
    → (IsEntry (a, b)
        × (append_cmp_entry m a b ≡ (true, record { cmp_data = m.cmp_data ++ entry_bytes (a, b) })))
      ⊎ ((¬ IsEntry (a, b)) × (append_cmp_entry m a b ≡ (false, m)))
unfolding append_cmp_entry
append_cmp_entry_cases m a b = elim (Bool-cases (length a == length b)) [
  | inr e ↦ inr (ground arith, rw e)
  | inl e ↦ elim (Bool-cases (leb 256 (length a))) [
    | inl g ↦ inr (ground arith, rw (e, g))
    | inr l ↦ inl (ground arith, appended e l)
  ]
]
  where
    low : length a < 256 → length a % 256 ≡ length a
    low h = omega arith

    appended :
        (length a == length b) ≡ true
        → leb 256 (length a) ≡ false
        → append_cmp_entry m a b ≡ (true, record { cmp_data = m.cmp_data ++ entry_bytes (a, b) })
    appended e l = rw (e, l, low (ground arith)) (simp append_assoc)

get_or-append :
    (xs : ByteArray) (y d : ℕ) (ys : ByteArray) (i : ℕ)
    → i ≡ length xs
    → get_or (xs ++ y ∷ ys) i d ≡ y
get_or-append [] y d ys zero e = refl
get_or-append [] y d ys (suc i) e = absurd (omega arith)
get_or-append (x ∷ xs) y d ys zero e = absurd (omega arith)
get_or-append (x ∷ xs) y d ys (suc i) e = get_or-append xs y d ys i (omega arith)

-- One round on a whole entry.
cmp_loop_round :
    (bytes a b : ByteArray) (i fuel : ℕ) (r : Bool) (calls : List (ByteArray × ByteArray))
    → get_or bytes i 0 ≡ length a
    → i + 2 * length a + 1 ≤ length bytes
    → take (length a) (drop (i + 1) bytes) ≡ a
    → take (length a) (drop (i + length a + 1) bytes) ≡ b
    → cmp_loop fuel bytes (i + (1 + 2 * length a)) ≡ some (r, calls)
    → cmp_loop (suc fuel) bytes i ≡ some (r, (a, b) ∷ calls)
unfolding cmp_loop
cmp_loop_round bytes a b i fuel r calls size fits left right rest = rw size (ground arith)

module _ (front a b tail bytes : ByteArray) (i : ℕ) (v : IsEntry (a, b))
    (region : bytes ≡ front ++ length a ∷ (a ++ (b ++ tail))) (place : i ≡ length front) where
  behind_size : drop (i + 1) bytes ≡ a ++ (b ++ tail)
  behind_size = rw region (drop_past (i + 1) 1 front _ (omega arith))

  behind_left : drop (i + length a + 1) bytes ≡ b ++ tail
  behind_left =
      rw region (drop_past (i + length a + 1) (suc (length a)) front _ (omega arith))
      ∙ drop-append (length a) a (b ++ tail) refl

  length-region : length bytes ≡ i + 1 + 2 * length a + length tail
  length-region = rw region (
      omega (
        arith,
        v,
        length-append front (length a ∷ (a ++ (b ++ tail))),
        length-append a (b ++ tail),
        length-append b tail,
      ))

  entry_round :
      (fuel : ℕ) (r : Bool) (calls : List (ByteArray × ByteArray))
      → cmp_loop fuel bytes (i + (1 + 2 * length a)) ≡ some (r, calls)
      → cmp_loop (suc fuel) bytes i ≡ some (r, (a, b) ∷ calls)
  entry_round fuel r calls =
      cmp_loop_round bytes a b i fuel r calls
        (rw region (get_or-append front (length a) 0 _ i place)) (omega (arith, length-region))
        (rw behind_size (take-append (length a) a _ refl))
        (rw behind_left (take-append (length a) b tail (sym v.0)))

cmp_loop-entries :
    (es : List (ByteArray × ByteArray)) (front tail bytes : ByteArray) (i fuel : ℕ) (r : Bool)
    → All IsEntry es
    → bytes ≡ front ++ (entries_bytes es ++ tail)
    → i ≡ length front
    → cmp_loop fuel bytes (i + length (entries_bytes es)) ≡ some (r, [])
    → cmp_loop (length es + fuel) bytes i ≡ some (r, es)
cmp_loop-entries [] front tail bytes i fuel r v eb ei e =
    let same : i + 0 ≡ i = omega arith in
    let same_fuel : 0 + fuel ≡ fuel = omega arith in rw same_fuel (rw same at e)
cmp_loop-entries ((a, b) ∷ es) front tail bytes i fuel r (v, vs) eb ei e =
    let eb' : bytes ≡ front ++ length a ∷ (a ++ (b ++ (entries_bytes es ++ tail))) =
      eb ∙ ap (λ (t : ByteArray). front ++ length a ∷ t) (simp append_assoc) in
    let eb'' : bytes ≡ (front ++ entry_bytes (a, b)) ++ (entries_bytes es ++ tail) =
      eb' ∙ simp append_assoc in
    let move : i + (1 + 2 * length a) + length (entries_bytes es)
        ≡ i + length (entries_bytes ((a, b) ∷ es)) =
      omega (arith, v, length-append (a ++ b) (entries_bytes es), length-append a b) in
    let fuels : suc (length es) + fuel ≡ suc (length es + fuel) = omega arith in
    rw fuels (
      entry_round front a b (entries_bytes es ++ tail) bytes i v eb' ei (length es + fuel) r es (
        cmp_loop-entries es (front ++ entry_bytes (a, b)) tail bytes (i + (1 + 2 * length a)) fuel r
          vs eb'' (omega (arith, v, length-append front (entry_bytes (a, b)), length-append a b))
          (rw move e)))

length-entries_bytes : (es : List (ByteArray × ByteArray)) → length es ≤ length (entries_bytes es)
length-entries_bytes [] = omega arith
length-entries_bytes ((a, b) ∷ es) =
    omega (arith, length-entries_bytes es, length-append (entry_bytes (a, b)) (entries_bytes es))

cmp_loop_end :
    (bytes : ByteArray) (i fuel : ℕ)
    → length bytes ≤ i
    → cmp_loop (suc fuel) bytes i ≡ some (true, [])
unfolding cmp_loop
cmp_loop_end bytes i fuel h = ground arith

-- What was packed is what `callback` gets, entry by entry.
pub for_each_cmp_entry-entries :
    (es : List (ByteArray × ByteArray))
    → All IsEntry es
    → for_each_cmp_entry (record { cmp_data = entries_bytes es }) ≡ some (true, es)
unfolding for_each_cmp_entry
for_each_cmp_entry-entries es v =
    let bytes = entries_bytes es in
    let rounds : suc (length bytes) ≡ length es + suc (length bytes - length es) =
      omega (arith, length-entries_bytes es) in
    rw rounds (
      cmp_loop-entries es [] [] bytes 0 (suc (length bytes - length es)) true v
        (sym (append-nil bytes)) refl
        (cmp_loop_end bytes (0 + length bytes) (length bytes - length es) (omega arith)))

-- The operands that one round takes at position `i`, and the position after it.
abbrev left_at : ByteArray → ℕ → ByteArray
left_at bytes i = take (get_or bytes i 0) (drop (i + 1) bytes)

abbrev right_at : ByteArray → ℕ → ByteArray
right_at bytes i = take (get_or bytes i 0) (drop (i + get_or bytes i 0 + 1) bytes)

abbrev after : ByteArray → ℕ → ℕ
after bytes i = i + (1 + 2 * get_or bytes i 0)

module _ (bytes : ByteArray) (i : ℕ) (h : i + 2 * get_or bytes i 0 + 1 ≤ length bytes) where
  next : suc i ≡ i + 1
  next = omega arith

  length-left : length (left_at bytes i) ≡ get_or bytes i 0
  length-left =
      omega
        (arith, h, length-take (get_or bytes i 0) (drop (i + 1) bytes), length-drop (i + 1) bytes)

  length-right : length (right_at bytes i) ≡ get_or bytes i 0
  length-right = omega (
    arith,
    h,
    length-take (get_or bytes i 0) (drop (i + get_or bytes i 0 + 1) bytes),
    length-drop (i + get_or bytes i 0 + 1) bytes,
  )

  behind_right :
      right_at bytes i ++ drop (after bytes i) bytes ≡ drop (i + get_or bytes i 0 + 1) bytes
  behind_right =
      ap (◌++◌ (right_at bytes i)) (
        sym (
          drop-drop (after bytes i) (get_or bytes i 0) (i + get_or bytes i 0 + 1) bytes
            (omega arith)))
      ∙ take-append-drop (get_or bytes i 0) (drop (i + get_or bytes i 0 + 1) bytes)

  behind_left_at : left_at bytes i ++ drop (i + get_or bytes i 0 + 1) bytes ≡ drop (i + 1) bytes
  behind_left_at =
      ap (◌++◌ (left_at bytes i))
        (sym (drop-drop (i + get_or bytes i 0 + 1) (get_or bytes i 0) (i + 1) bytes (omega arith)))
      ∙ take-append-drop (get_or bytes i 0) (drop (i + 1) bytes)

  -- What is left of the array at `i`, split as an entry.
  split_entry :
      drop i bytes ≡ entry_bytes (left_at bytes i, right_at bytes i) ++ drop (after bytes i) bytes
  split_entry =
      drop-get_or i bytes 0 (omega (arith, h))
      ∙ ap (λ (t : ByteArray). get_or bytes i 0 ∷ t)
          (ap (λ (k : ℕ). drop k bytes) next
            ∙ sym behind_left_at
            ∙ ap (◌++◌ (left_at bytes i)) (sym behind_right)
            ∙ sym (append_assoc (left_at bytes i) _ _))
      ∙ ap (λ (k : ℕ). k ∷ ((left_at bytes i ++ right_at bytes i) ++ drop (after bytes i) bytes))
          (sym length-left)

cmp_loop_inverse :
    (fuel : ℕ) (bytes : ByteArray) (i : ℕ) (es : List (ByteArray × ByteArray))
    → cmp_loop (suc fuel) bytes i ≡ some (true, es)
    → ((length bytes ≤ i) × (es ≡ []))
      ⊎ ((calls : List (ByteArray × ByteArray)) × (i + 2 * get_or bytes i 0 + 1 ≤ length bytes)
          × (cmp_loop fuel bytes (after bytes i) ≡ some (true, calls))
          × (es ≡ (left_at bytes i, right_at bytes i) ∷ calls))
unfolding cmp_loop
cmp_loop_inverse fuel bytes i es e = elim (Option-cases (cmp_loop fuel bytes (after bytes i))) [
  | inl p ↦ inl (ground arith, ground arith)
  | inr ((r, calls), p) ↦ elim (Bool-cases (ltb i (length bytes))) [
    | inl t ↦ inr (calls, ground arith, ground arith, ground arith)
    | inr t ↦ inl (ground arith, ground arith)
  ]
]

cmp_loop_sound :
    (fuel : ℕ) (bytes : ByteArray) (i : ℕ) (es : List (ByteArray × ByteArray))
    → All IsByte bytes
    → cmp_loop fuel bytes i ≡ some (true, es)
    → (drop i bytes ≡ entries_bytes es) × All IsEntry es
cmp_loop_sound zero bytes i es v e = unfold cmp_loop in cc
cmp_loop_sound (suc fuel) bytes i es v e = elim (cmp_loop_inverse fuel bytes i es e) [
  | inl (h, p) ↦ rw p (drop_all i bytes h, tt)
  | inr (calls, h, p, q) ↦
      let (rest, vs) = cmp_loop_sound fuel bytes (after bytes i) calls v p in
      let small : get_or bytes i 0 < 256 = All-get_or IsByte bytes i 0 v (omega arith) in
      rw q (
        split_entry bytes i h ∙ ap (◌++◌ (entry_bytes (left_at bytes i, right_at bytes i))) rest,
        (
          (
            length-left bytes i h ∙ sym (length-right bytes i h),
            omega (arith, length-left bytes i h),
          ),
          vs,
        ),
      )
]

-- The loop ends within its fuel on every array.
cmp_loop-ne-none :
    (fuel : ℕ) (bytes : ByteArray) (i : ℕ)
    → i ≤ length bytes
    → length bytes < i + fuel
    → cmp_loop fuel bytes i ≢ none
unfolding cmp_loop
cmp_loop-ne-none zero bytes i l h e = omega arith
cmp_loop-ne-none (suc fuel) bytes i l h e =
    ground (arith, cmp_loop-ne-none fuel bytes (after bytes i))

-- `for_each_cmp_entry` ends on every array of bytes. If it returns true, the array is the packing of
-- the entries that it called back with.
pub for_each_cmp_entry_total :
    (m : ExecutionMetadata)
    → All IsByte m.cmp_data
    → (r : Bool) × (es : List (ByteArray × ByteArray)) × (for_each_cmp_entry m ≡ some (r, es))
      × ((r ≡ true) → (m.cmp_data ≡ entries_bytes es) × All IsEntry es)
unfolding for_each_cmp_entry
for_each_cmp_entry_total m v = elim (Option-cases (for_each_cmp_entry m)) [
  | inl p ↦
      absurd (cmp_loop-ne-none (suc (length m.cmp_data)) m.cmp_data 0 (omega arith) (omega arith) p)
  | inr ((r, es), p) ↦
      (r, es, p, λ t. cmp_loop_sound (suc (length m.cmp_data)) m.cmp_data 0 es v (rw t at p))
]
