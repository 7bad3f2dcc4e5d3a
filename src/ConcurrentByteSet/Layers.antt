-- ===== src/ConcurrentByteSet/Layers.antt =====
-- The two layers of centipede/concurrent_byteset.h against one layer.
use fuzztest.Common.{
  ℕ, zero, suc, ◌+◌, ◌-◌, ◌*◌, ◌/◌, ◌%◌, ◌≤◌, ◌<◌, ◌≡◌, ◌∙◌, sym, refl, ap, inl, inr, true, List,
  [], ◌∷◌, ◌++◌, append_assoc, length, length-append, length-take, length-drop, get_or, take, drop,
  replicate, take-append, drop-append, take-append-drop, drop_past, leb, ◌==◌, ==_iff, Bool-cases,
  All, arith,
}
use fuzztest.Common.Abort.{Outcome, done}
use fuzztest.Common.Bytes.{ByteArray, IsByte}
use fuzztest.ForEachNonzero.Words.{nonzero_bytes, All-take, All-drop}
use fuzztest.ForEachNonzero.Order.{word_loop_lem}
use fuzztest.ConcurrentByteSet.{for_each_nonzero_byte_from, lower_calls}

nonzero_bytes-append :
    (idx : ℕ) (xs ys : ByteArray)
    → nonzero_bytes idx (xs ++ ys) ≡ nonzero_bytes idx xs ++ nonzero_bytes (idx + length xs) ys
unfolding nonzero_bytes
nonzero_bytes-append idx [] ys =
    let same : idx ≡ idx + 0 = omega arith in ap (λ (k : ℕ). nonzero_bytes k ys) same
nonzero_bytes-append idx (x ∷ xs) ys =
    let rest = nonzero_bytes-append (suc idx) xs ys in
    let same : suc idx + length xs ≡ idx + suc (length xs) = omega arith in
    let later = rest ∙ ap (λ (k : ℕ). nonzero_bytes (suc idx) xs ++ nonzero_bytes k ys) same in
    elim (Bool-cases (x == 0)) [ inl e ↦ rw (e) later | inr e ↦ rw (e) (ap (◌∷◌ (idx, x)) later) ]

nonzero_bytes-replicate : (idx n : ℕ) → nonzero_bytes idx (replicate n 0) ≡ []
unfolding nonzero_bytes
nonzero_bytes-replicate idx zero = refl
nonzero_bytes-replicate idx (suc n) = nonzero_bytes-replicate (suc idx) n

-- A range of whole multiples of 64: its bytes are visited and cleared, the others are left alone.
pub range_lem :
    (size from to : ℕ) (pre chunk post : ByteArray)
    → length pre ≡ from
    → from + length chunk ≡ to
    → to ≤ size
    → from % 64 ≡ 0
    → to % 64 ≡ 0
    → All IsByte chunk
    → for_each_nonzero_byte_from size from to (pre ++ (chunk ++ post))
      ≡ done (nonzero_bytes from chunk, pre ++ (replicate (length chunk) 0 ++ post))
unfolding for_each_nonzero_byte_from
range_lem size from to pre chunk post p c b f t h =
    let a : (from % 64 == 0) ≡ true = ground arith in
    let d : (to % 64 == 0) ≡ true = ground arith in
    let e : leb to size ≡ true = ground arith in
    let n : to - from ≡ length chunk = omega arith in
    let past : from + (to - from) ≡ length pre + length chunk = omega arith in
    let slice : take (to - from) (drop from (pre ++ (chunk ++ post))) ≡ chunk =
      ap (take (to - from)) (drop-append from pre (chunk ++ post) p)
      ∙ take-append (to - from) chunk post (sym n) in
    let behind : drop (from + (to - from)) (pre ++ (chunk ++ post)) ≡ post =
      drop_past (from + (to - from)) (length chunk) pre (chunk ++ post) past
      ∙ drop-append (length chunk) chunk post refl in
    rw
      (
        a,
        d,
        e,
        slice,
        behind,
        word_loop_lem ((to - from) / 8) from chunk h (omega arith),
        take-append from pre (chunk ++ post) p,
      )
      refl

-- A byte of the lower layer that is not zero has its byte of the upper layer set.
abbrev pub IsLayered : ByteArray → ByteArray → Type 0
IsLayered upper lower = (k : ℕ) → get_or upper (k / 64) 0 ≡ 0 → get_or lower k 0 ≡ 0

pub get_or-drop : (n k : ℕ) (xs : ByteArray) → get_or (drop n xs) k 0 ≡ get_or xs (n + k) 0
get_or-drop zero k xs = let e : k ≡ 0 + k = omega arith in ap (λ (j : ℕ). get_or {A = ℕ} xs j 0) e
get_or-drop (suc n) k [] = refl
get_or-drop (suc n) k (x ∷ xs) =
    let e : suc n + k ≡ suc (n + k) = omega arith in
    get_or-drop n k xs ∙ ap (λ (j : ℕ). get_or (x ∷ xs) j 0) (sym e)

pub zero_chunk :
    (n : ℕ) (xs : ByteArray)
    → n ≤ length xs
    → ((k : ℕ) → k < n → get_or xs k 0 ≡ 0)
    → take n xs ≡ replicate n 0
zero_chunk zero xs l h = refl
zero_chunk (suc n) [] l h = absurd (omega arith)
zero_chunk (suc n) (x ∷ xs) l h =
    let first : x ≡ 0 = h 0 (omega arith) in
    let rest : take n xs ≡ replicate n 0 =
      zero_chunk n xs (omega arith) (λ k m. h (suc k) (omega arith)) in
    rw (first, rest) refl

pub replicate-append :
    (n k total : ℕ) → n + k ≡ total → replicate {A = ℕ} n 0 ++ replicate k 0 ≡ replicate total 0
replicate-append zero k total e =
    let s : k ≡ total = omega arith in ap (λ (t : ℕ). replicate {A = ℕ} t 0) s
replicate-append (suc n) k zero e = absurd (omega arith)
replicate-append (suc n) k (suc total) e = ap (◌∷◌ 0) (replicate-append n k total (omega arith))

visited :
    {c d : List (ℕ × ℕ)} {b e : ByteArray}
    → c ≡ d
    → b ≡ e
    → ◌≡◌ {A = Outcome (List (ℕ × ℕ) × ByteArray)} (done (c, b)) (done (d, e))
visited p q = λ i. done (p i, q i)

pub tail-IsLayered :
    (u : ℕ) (us rest : ByteArray) → IsLayered (u ∷ us) rest → IsLayered us (drop 64 rest)
tail-IsLayered u us rest l k h =
    let at : (64 + k) / 64 ≡ suc (k / 64) = omega arith in
    get_or-drop 64 k rest ∙ l (64 + k) (rw (at) h)

pub lower_calls_lem :
    (size i : ℕ) (us pre rest : ByteArray)
    → length pre ≡ i * 64
    → length rest ≡ length us * 64
    → length pre + length rest ≤ size
    → All IsByte rest
    → IsLayered us rest
    → lower_calls size 64 (nonzero_bytes i us) (pre ++ rest)
      ≡ done (nonzero_bytes (i * 64) rest, pre ++ replicate (length rest) 0)
unfolding lower_calls nonzero_bytes
lower_calls_lem size i [] pre [] p r b h l = refl
lower_calls_lem size i [] pre (x ∷ rest) p r b h l = absurd (omega arith)
lower_calls_lem size i (u ∷ us) pre rest p r b h l =
    let zeros : ByteArray = replicate 64 0 in
    let chunk = take 64 rest in
    let tail = drop 64 rest in
    let whole : chunk ++ tail ≡ rest = take-append-drop 64 rest in
    let size_chunk : length chunk ≡ 64 = omega (arith, length-take 64 rest) in
    let size_tail : length tail ≡ length us * 64 = omega (arith, length-drop 64 rest) in
    let size_rest : length rest ≡ 64 + length tail = omega arith in
    let size_pre : length (pre ++ zeros) ≡ suc i * 64 = omega (arith, length-append pre zeros) in
    let later : lower_calls size 64 (nonzero_bytes (suc i) us) ((pre ++ zeros) ++ tail)
        ≡ done (nonzero_bytes (suc i * 64) tail, (pre ++ zeros) ++ replicate (length tail) 0) =
      lower_calls_lem size (suc i) us (pre ++ zeros) tail size_pre size_tail (omega arith)
        (All-drop 64 rest h) (tail-IsLayered u us rest l) in
    let joined : (pre ++ zeros) ++ replicate (length tail) 0 ≡ pre ++ replicate (length rest) 0 =
      append_assoc pre zeros (replicate (length tail) 0)
      ∙ ap (◌++◌ pre) (replicate-append 64 (length tail) (length rest) (sym size_rest)) in
    let moved : pre ++ (zeros ++ tail) ≡ (pre ++ zeros) ++ tail =
      sym (append_assoc pre zeros tail) in
    let index : i * 64 + 64 ≡ suc i * 64 = omega arith in
    elim (Bool-cases (u == 0)) [
      | inl e ↦
          let blank : chunk ≡ zeros =
            zero_chunk 64 rest (omega arith)
              (λ k m. l k (let d : k / 64 ≡ 0 = omega arith in rw (d) ((==_iff u 0).0 e))) in
          let split : rest ≡ zeros ++ tail = sym whole ∙ ap (λ (c : ByteArray). c ++ tail) blank in
          let calls : nonzero_bytes (suc i * 64) tail ≡ nonzero_bytes (i * 64) rest = sym (
            ap (nonzero_bytes (i * 64)) split
            ∙ nonzero_bytes-append (i * 64) zeros tail
            ∙ ap (λ c. c ++ nonzero_bytes (i * 64 + 64) tail) (nonzero_bytes-replicate (i * 64) 64)
            ∙ ap (λ (k : ℕ). nonzero_bytes k tail) index) in
          rw (e) (
            ap (λ r. lower_calls size 64 (nonzero_bytes (suc i) us) (pre ++ r)) split
            ∙ ap (lower_calls size 64 (nonzero_bytes (suc i) us)) moved
            ∙ later
            ∙ visited calls joined)
      | inr e ↦
          let visit : for_each_nonzero_byte_from size (i * 64) (i * 64 + 64) (pre ++ rest)
              ≡ done (nonzero_bytes (i * 64) chunk, (pre ++ zeros) ++ tail) =
            ap (λ r. for_each_nonzero_byte_from size (i * 64) (i * 64 + 64) (pre ++ r)) (sym whole)
            ∙ range_lem size (i * 64) (i * 64 + 64) pre chunk tail p (omega arith) (omega arith)
                (omega arith) (omega arith) (All-take 64 rest h)
            ∙ visited refl (ap (λ (k : ℕ). pre ++ (replicate k 0 ++ tail)) size_chunk ∙ moved) in
          let calls : nonzero_bytes (i * 64) chunk ++ nonzero_bytes (suc i * 64) tail
              ≡ nonzero_bytes (i * 64) rest =
            sym (
              ap (nonzero_bytes (i * 64)) (sym whole)
              ∙ nonzero_bytes-append (i * 64) chunk tail
              ∙ ap (λ (k : ℕ). nonzero_bytes (i * 64) chunk ++ nonzero_bytes k tail)
                  (let s : i * 64 + length chunk ≡ suc i * 64 = omega arith in s)) in
          rw (e) (rw (visit, later) (visited calls joined))
    ]
