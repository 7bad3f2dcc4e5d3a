-- ===== src/Serialization/Canonical.antt =====
-- BinaryParse against the format, where it accepts.
use fuzztest.Common.{
  ℕ, zero, suc, ◌+◌, ◌*◌, ◌/◌, ◌%◌, ◌≤◌, ◌≡◌, ◌⊎◌, ◌∙◌, inl, inr, refl, sym, ap, subst, Bool, true,
  false, [], ◌∷◌, ◌++◌, Option, none, some, arith, append_assoc, append-nil, length, take, drop,
  length-take, take-append-drop, ltb, ◌==◌, ◌&&◌, Bool-cases, All,
}
use fuzztest.Common.Bytes.{ByteArray, IsByte, le_bytes, of_le}
use fuzztest.Serialization.{
  IrObject, empty, uint64, double, string, object, IrObjects, nil, cons, count, header_empty,
  header_uint64, header_double, header_string, header_object, parse_word, parse_string, parse_subs,
  parse_object, binary_parse, has_prefix, is_in_binary_format, parse_binary, binary_header,
  max_parse_recursion_depth, serialize_binary,
}
use fuzztest.Serialization.Format.{encode, encode_all}
use fuzztest.Serialization.Write.{serialize_binary_lem}

le_bytes-of_le : (bs : ByteArray) → All IsByte bs → le_bytes (length bs) (of_le bs) ≡ bs
unfolding le_bytes of_le
le_bytes-of_le [] h = refl
le_bytes-of_le (b ∷ bs) (h, hs) =
    let low : (b + 256 * of_le bs) % 256 ≡ b = omega arith in
    let high : (b + 256 * of_le bs) / 256 ≡ of_le bs = omega arith in
    rw (low, high, le_bytes-of_le bs hs) refl

All-split : (xs ys : ByteArray) → All IsByte (xs ++ ys) → All IsByte xs × All IsByte ys
All-split [] ys h = (tt, h)
All-split (x ∷ xs) ys (h, hs) = let (a, b) = All-split xs ys hs in ((h, a), b)

All-parts :
    (n : ℕ) (buf : ByteArray) → All IsByte buf → All IsByte (take n buf) × All IsByte (drop n buf)
All-parts n buf h =
    All-split (take n buf) (drop n buf)
      (subst (λ (t : ByteArray). All IsByte t) (sym (take-append-drop n buf)) h)

word_back :
    (buf : ByteArray)
    → ltb (length buf) 8 ≡ false
    → All IsByte buf
    → (le_bytes 8 (of_le (take 8 buf)) ++ drop 8 buf ≡ buf) × All IsByte (drop 8 buf)
word_back buf l h =
    let (front, back) = All-parts 8 buf h in
    let eight : length (take 8 buf) ≡ 8 = omega (arith, length-take 8 buf, above (length buf) l) in
    let word = le_bytes-of_le (take 8 buf) front in
    (
      rw (subst (λ (n : ℕ). le_bytes n (of_le (take 8 buf)) ≡ take 8 buf) eight word)
          (take-append-drop 8 buf),
      back,
    )
  where
    above : (n : ℕ) → ltb n 8 ≡ false → 8 ≤ n
    above n h = ground arith

-- A result of a parser on some bytes: it refuses them, or they are a format and the bytes behind.
Sound : ByteArray → Option (IrObject × ByteArray) → Type 0
Sound buf r =
    (r ≡ none)
    ⊎ ((o : IrObject) × (rest : ByteArray) × (r ≡ some (o, rest))
        × (encode o ++ rest ≡ buf)
        × All IsByte rest)

SoundAll : ℕ → ByteArray → Option (IrObjects × ByteArray) → Type 0
SoundAll n buf r =
    (r ≡ none)
    ⊎ ((os : IrObjects) × (rest : ByteArray) × (r ≡ some (os, rest))
        × (count os ≡ n)
        × (encode_all os ++ rest ≡ buf)
        × All IsByte rest)

parse_uint64-Sound :
    (buf : ByteArray) → All IsByte buf → Sound (header_uint64 ∷ buf) (parse_word uint64 buf)
unfolding parse_word encode Sound
parse_uint64-Sound buf h = elim (Bool-cases (ltb (length buf) 8)) [
  | inl l ↦ inl (rw l refl)
  | inr l ↦
      let (word, back) = word_back buf l h in
      inr
        (uint64 (of_le (take 8 buf)), drop 8 buf, rw l refl, ap (λ t. header_uint64 ∷ t) word, back)
]

parse_double-Sound :
    (buf : ByteArray) → All IsByte buf → Sound (header_double ∷ buf) (parse_word double buf)
unfolding parse_word encode Sound
parse_double-Sound buf h = elim (Bool-cases (ltb (length buf) 8)) [
  | inl l ↦ inl (rw l refl)
  | inr l ↦
      let (word, back) = word_back buf l h in
      inr
        (double (of_le (take 8 buf)), drop 8 buf, rw l refl, ap (λ t. header_double ∷ t) word, back)
]

parse_string-Sound :
    (buf : ByteArray) → All IsByte buf → Sound (header_string ∷ buf) (parse_string buf)
unfolding parse_string encode Sound
parse_string-Sound buf h = elim (Bool-cases (ltb (length buf) 8)) [
  | inl l ↦ inl (rw l refl)
  | inr l ↦
      let (word, back) = word_back buf l h in
      let n = of_le (take 8 buf) in
      let rest = drop 8 buf in
      elim (Bool-cases (ltb (length rest) n)) [
        | inl m ↦ inl (rw (l, m) refl)
        | inr m ↦
            let size : length (take n rest) ≡ n =
              omega (arith, length-take n rest, above (length rest) n m) in
            inr (
              string (take n rest),
              drop n rest,
              rw (l, m) refl,
              ap (λ t. header_string ∷ t)
                  (rw
                    (
                      size,
                      append_assoc (le_bytes 8 n) (take n rest) (drop n rest),
                      take-append-drop n rest,
                    )
                    word),
              (All-parts n rest back).1,
            )
      ]
]
  where
    above : (a b : ℕ) → ltb a b ≡ false → b ≤ a
    above a b h = ground arith

module _ (parse : ByteArray → Option (IrObject × ByteArray))
    (sound : (buf : ByteArray) → All IsByte buf → Sound buf (parse buf)) where
  parse_subs-SoundAll :
      (n : ℕ) (buf : ByteArray) → All IsByte buf → SoundAll n buf (parse_subs parse n buf)
  unfolding parse_subs encode_all count Sound SoundAll
  parse_subs-SoundAll zero buf h = inr (nil, buf, refl, refl, refl, h)
  parse_subs-SoundAll (suc n) buf h = elim (sound buf h) [
    | inl e ↦ inl (rw (parse_subs, e) refl)
    | inr (o, rest, e, b, h') ↦ elim (parse_subs-SoundAll n rest h') [
      | inl e' ↦ inl (rw (parse_subs, e, e') refl)
      | inr (os, rest', e', c, b', h'') ↦ inr (
        cons o os,
        rest',
        rw (parse_subs, e, e') refl,
        ap suc c,
        rw (append_assoc (encode o) (encode_all os) rest', b') b,
        h'',
      )
    ]
  ]

  parse_object-Sound :
      (buf : ByteArray) → All IsByte buf → Sound (header_object ∷ buf) (parse_object parse buf)
  unfolding parse_object encode Sound SoundAll
  parse_object-Sound buf h = elim (Bool-cases (ltb (length buf) 8)) [
    | inl l ↦ inl (rw l refl)
    | inr l ↦
        let (word, back) = word_back buf l h in
        let n = of_le (take 8 buf) in
        let rest = drop 8 buf in
        elim (Bool-cases (ltb (length rest) n)) [
          | inl m ↦ inl (rw (l, m) refl)
          | inr m ↦ elim (parse_subs-SoundAll n rest back) [
            | inl e ↦ inl (rw (l, m, e) refl)
            | inr (os, rest', e, c, b, h') ↦ inr (
              object os,
              rest',
              rw (l, m, e) refl,
              ap (λ t. header_object ∷ t)
                  (rw (c, append_assoc (le_bytes 8 n) (encode_all os) rest', b) word),
              h',
            )
          ]
        ]
  ]

binary_parse-Sound :
    (levels : ℕ) (buf : ByteArray) → All IsByte buf → Sound buf (binary_parse levels buf)
unfolding binary_parse Sound encode
binary_parse-Sound zero buf h = inl refl
binary_parse-Sound (suc levels) [] h = inl refl
binary_parse-Sound (suc levels) (c ∷ buf) (h, hs) = elim (Bool-cases (c == header_empty)) [
  | inl e ↦ rw (e, same c header_empty e) (inr (empty, buf, refl, refl, hs))
  | inr e₀ ↦ elim (Bool-cases (c == header_uint64)) [
    | inl e ↦ rw (e₀, e, same c header_uint64 e) (parse_uint64-Sound buf hs)
    | inr e₁ ↦ elim (Bool-cases (c == header_double)) [
      | inl e ↦ rw (e₀, e₁, e, same c header_double e) (parse_double-Sound buf hs)
      | inr e₂ ↦ elim (Bool-cases (c == header_string)) [
        | inl e ↦ rw (e₀, e₁, e₂, e, same c header_string e) (parse_string-Sound buf hs)
        | inr e₃ ↦ elim (Bool-cases (c == header_object)) [
          | inl e ↦
              rw (e₀, e₁, e₂, e₃, e, same c header_object e)
                (parse_object-Sound (binary_parse levels) (binary_parse-Sound levels) buf hs)
          | inr e₄ ↦ rw (e₀, e₁, e₂, e₃, e₄) (inl refl)
        ]
      ]
    ]
  ]
]
  where
    same : (c k : ℕ) → (c == k) ≡ true → c ≡ k
    same c k e = ground arith

has_prefix_append :
    (ps str : ByteArray) → has_prefix ps str ≡ true → ps ++ drop (length ps) str ≡ str
unfolding has_prefix
has_prefix_append [] str h = refl
has_prefix_append (p ∷ ps) [] h = absurd cc
has_prefix_append (p ∷ ps) (c ∷ cs) h =
    let (q, rest) = both p c (has_prefix ps cs) h in rw (q, has_prefix_append ps cs rest) refl
  where
    both : (p c : ℕ) (b : Bool) → (p == c) && b ≡ true → (p ≡ c) × (b ≡ true)
    both p c true h = (ground arith, refl)
    both p c false h = absurd (ground arith)

-- Of bytes in the binary format, ParseIRObject accepts only the serialization of the object that it
-- returns; so no two texts give one object, and nothing may stand behind it.
pub parse_binary_lem :
    (str : ByteArray)
    → All IsByte str
    → is_in_binary_format str ≡ true
    → (parse_binary str ≡ none)
      ⊎ ((o : IrObject) × (parse_binary str ≡ some o) × (serialize_binary o ≡ some str))
unfolding is_in_binary_format Sound parse_binary
parse_binary_lem str h p =
    let body = drop (length binary_header) str in
    elim (binary_parse-Sound (suc max_parse_recursion_depth) body
      (All-parts (length binary_header) str h).1) [
        | inl e ↦ inl (rw (parse_binary, e) refl)
        | inr (o, [], e, b, h') ↦ inr (
          o,
          rw (parse_binary, e) refl,
          serialize_binary_lem o
              ∙ ap some
                  (rw (sym (append-nil (encode o)), b) (has_prefix_append binary_header str p)),
        )
        | inr (o, r ∷ rs, e, b, h') ↦ inl (rw (parse_binary, e, some_left (length rs)) refl)
      ]
  where
    some_left : (n : ℕ) → (suc n == 0) ≡ false
    some_left n = ground arith
