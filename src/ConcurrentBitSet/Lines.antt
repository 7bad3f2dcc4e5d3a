-- ===== src/ConcurrentBitSet/Lines.antt =====
-- ForEachNonZeroBit of centipede/concurrent_bitset.h, line by line.
use fuzztest.Common.{
  ℕ, zero, suc, ◌+◌, ◌*◌, ◌/◌, ◌^◌, ◌<◌, ◌≡◌, ◌∙◌, sym, refl, ap, inl, inr, List, [], ◌∷◌, ◌++◌,
  append_assoc, length, length-append, length-take, length-drop, take, drop, replicate, take-append,
  drop-append, take-append-drop, drop_past, ◌==◌, ==_iff, if◌then◌else◌, Bool-cases, All, arith,
}
use fuzztest.Common.Abort.{Outcome, done}
use fuzztest.Common.Bytes.{ByteArray}
use fuzztest.ForEachNonzero.Words.{nonzero_bytes}
use fuzztest.ConcurrentByteSet.Layers.{IsLayered, zero_chunk, tail-IsLayered, replicate-append}
use fuzztest.ConcurrentBitSet.{words_loop, line_calls}
use fuzztest.ConcurrentBitSet.WordBits.{set_bits, word_bits_lem}

-- The places of the ones of words of 64 bits.
unfoldable pub all_bits : ℕ → List ℕ → List ℕ
all_bits word_idx [] = []
all_bits word_idx (word ∷ words) = set_bits 64 (word_idx * 64) word ++ all_bits (word_idx + 1) words

abbrev pub IsWord : ℕ → Type 0
IsWord w = w < 2 ^ 64

set_bits-zero : (n idx : ℕ) → set_bits n idx 0 ≡ []
unfolding set_bits
set_bits-zero zero idx = refl
set_bits-zero (suc n) idx = set_bits-zero n (idx + 1)

all_bits-replicate : (n idx : ℕ) → all_bits idx (replicate n 0) ≡ []
unfolding all_bits
all_bits-replicate zero idx = refl
all_bits-replicate (suc n) idx = rw (set_bits-zero 64 (idx * 64)) (all_bits-replicate n (idx + 1))

all_bits-append :
    (idx : ℕ) (xs ys : List ℕ)
    → all_bits idx (xs ++ ys) ≡ all_bits idx xs ++ all_bits (idx + length xs) ys
unfolding all_bits
all_bits-append idx [] ys =
    let same : idx ≡ idx + 0 = omega arith in ap (λ (k : ℕ). all_bits k ys) same
all_bits-append idx (x ∷ xs) ys =
    let same : idx + 1 + length xs ≡ idx + suc (length xs) = omega arith in
    ap (◌++◌ (set_bits 64 (idx * 64) x)) (
      all_bits-append (idx + 1) xs ys ∙ ap (λ (k : ℕ). all_bits (idx + 1) xs ++ all_bits k ys) same)
    ∙ sym (append_assoc (set_bits 64 (idx * 64) x) (all_bits (idx + 1) xs) _)

words_loop_lem :
    (idx : ℕ) (words : List ℕ)
    → All IsWord words
    → words_loop idx words ≡ done (all_bits idx words, replicate (length words) 0)
unfolding words_loop all_bits
words_loop_lem idx [] h = refl
words_loop_lem idx (w ∷ words) (b, h) =
    let cleared : (if w == 0 then w else 0) ≡ 0 = ground arith in
    rw (word_bits_lem (idx * 64) w b, words_loop_lem (idx + 1) words h, cleared) refl

All-words_take : (n : ℕ) (words : List ℕ) → All IsWord words → All IsWord (take n words)
All-words_take zero ws h = tt
All-words_take (suc n) [] h = tt
All-words_take (suc n) (w ∷ ws) (b, h) = (b, All-words_take n ws h)

All-words_drop : (n : ℕ) (words : List ℕ) → All IsWord words → All IsWord (drop n words)
All-words_drop zero ws h = h
All-words_drop (suc n) [] h = tt
All-words_drop (suc n) (w ∷ ws) (b, h) = All-words_drop n ws h

visited :
    {c d : List ℕ} {b e : List ℕ}
    → c ≡ d
    → b ≡ e
    → ◌≡◌ {A = Outcome (List ℕ × List ℕ)} (done (c, b)) (done (d, e))
visited p q = λ i. done (p i, q i)

-- The visit of one line, between words that are left alone.
line_visit :
    (i value : ℕ) (lines : List (ℕ × ℕ)) (pre chunk post : List ℕ) (later last : List ℕ)
    → length pre ≡ i * 64
    → length chunk ≡ 64
    → All IsWord chunk
    → line_calls lines (pre ++ (replicate (length chunk) 0 ++ post)) ≡ done (later, last)
    → line_calls ((i, value) ∷ lines) (pre ++ (chunk ++ post))
      ≡ done (all_bits (i * 64) chunk ++ later, last)
unfolding line_calls
line_visit i value lines pre chunk post later last p c h rest =
    let slice : take 64 (drop (i * 64) (pre ++ (chunk ++ post))) ≡ chunk =
      ap (take 64) (drop-append (i * 64) pre (chunk ++ post) p) ∙ take-append 64 chunk post c in
    let behind : drop (i * 64 + 64) (pre ++ (chunk ++ post)) ≡ post =
      drop_past (i * 64 + 64) 64 pre (chunk ++ post) (omega arith) ∙ drop-append 64 chunk post c in
    rw
      (
        slice,
        words_loop_lem (i * 64) chunk h,
        behind,
        take-append (i * 64) pre (chunk ++ post) p,
        rest,
      )
      refl

pub line_calls_lem :
    (i : ℕ) (lines : ByteArray) (pre rest : List ℕ)
    → length pre ≡ i * 64
    → length rest ≡ length lines * 64
    → All IsWord rest
    → IsLayered lines rest
    → line_calls (nonzero_bytes i lines) (pre ++ rest)
      ≡ done (all_bits (i * 64) rest, pre ++ replicate (length rest) 0)
unfolding line_calls nonzero_bytes all_bits
line_calls_lem i [] pre [] p r h l = refl
line_calls_lem i [] pre (x ∷ rest) p r h l = absurd (omega arith)
line_calls_lem i (u ∷ us) pre rest p r h l =
    let zeros : List ℕ = replicate 64 0 in
    let chunk = take 64 rest in
    let tail = drop 64 rest in
    let whole : chunk ++ tail ≡ rest = take-append-drop 64 rest in
    let size_chunk : length chunk ≡ 64 = omega (arith, length-take 64 rest) in
    let size_tail : length tail ≡ length us * 64 = omega (arith, length-drop 64 rest) in
    let size_rest : 64 + length tail ≡ length rest = omega arith in
    let size_pre : length (pre ++ zeros) ≡ suc i * 64 = omega (arith, length-append pre zeros) in
    let later : line_calls (nonzero_bytes (suc i) us) ((pre ++ zeros) ++ tail)
        ≡ done (all_bits (suc i * 64) tail, (pre ++ zeros) ++ replicate (length tail) 0) =
      line_calls_lem (suc i) us (pre ++ zeros) tail size_pre size_tail (All-words_drop 64 rest h)
        (tail-IsLayered u us rest l) in
    let joined : (pre ++ zeros) ++ replicate (length tail) 0 ≡ pre ++ replicate (length rest) 0 =
      append_assoc pre zeros (replicate (length tail) 0)
      ∙ ap (◌++◌ pre) (replicate-append 64 (length tail) (length rest) size_rest) in
    let moved : pre ++ (zeros ++ tail) ≡ (pre ++ zeros) ++ tail =
      sym (append_assoc pre zeros tail) in
    let index : i * 64 + 64 ≡ suc i * 64 = omega arith in
    elim (Bool-cases (u == 0)) [
      | inl e ↦
          let blank : chunk ≡ zeros =
            zero_chunk 64 rest (omega arith)
              (λ k m. l k (let d : k / 64 ≡ 0 = omega arith in rw (d) ((==_iff u 0).0 e))) in
          let split : rest ≡ zeros ++ tail = sym whole ∙ ap (λ (c : List ℕ). c ++ tail) blank in
          let calls : all_bits (suc i * 64) tail ≡ all_bits (i * 64) rest = sym (
            ap (all_bits (i * 64)) split
            ∙ all_bits-append (i * 64) zeros tail
            ∙ ap (λ c. c ++ all_bits (i * 64 + 64) tail) (all_bits-replicate 64 (i * 64))
            ∙ ap (λ (k : ℕ). all_bits k tail) index) in
          rw (e) (
            ap (λ r. line_calls (nonzero_bytes (suc i) us) (pre ++ r)) split
            ∙ ap (line_calls (nonzero_bytes (suc i) us)) moved
            ∙ later
            ∙ visited calls joined)
      | inr e ↦
          let calls : all_bits (i * 64) chunk ++ all_bits (suc i * 64) tail
              ≡ all_bits (i * 64) rest =
            sym (
              ap (all_bits (i * 64)) (sym whole)
              ∙ all_bits-append (i * 64) chunk tail
              ∙ ap (λ (k : ℕ). all_bits (i * 64) chunk ++ all_bits k tail)
                  (let s : i * 64 + length chunk ≡ suc i * 64 = omega arith in s)) in
          rw (e) (
            ap (λ r. line_calls ((i, u) ∷ nonzero_bytes (suc i) us) (pre ++ r)) (sym whole)
            ∙ line_visit i u (nonzero_bytes (suc i) us) pre chunk tail _ _ p size_chunk
                (All-words_take 64 rest h)
                (ap
                    (λ (k : ℕ).
                      line_calls (nonzero_bytes (suc i) us) (pre ++ (replicate k 0 ++ tail)))
                    size_chunk
                  ∙ ap (line_calls (nonzero_bytes (suc i) us)) moved
                  ∙ later)
            ∙ visited calls joined)
    ]
