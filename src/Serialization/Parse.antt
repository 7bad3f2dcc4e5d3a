-- ===== src/Serialization/Parse.antt =====
-- BinaryParse on the format, and the limit on its depth.
use fuzztest.Common.{
  ℕ, zero, suc, ◌≤◌, ◌≡◌, ◌∙◌, inl, inr, refl, subst, true, false, max, [], ◌++◌, Option, none,
  some, arith, append_assoc, append-nil, length, take, drop, length-append, take-append,
  drop-append, ltb, leb, if◌then◌else◌, Bool-cases,
}
use fuzztest.Common.Bytes.{ByteArray, IsU64, le_bytes, of_le, length-le_bytes, of_le-le_bytes_u64}
use fuzztest.Serialization.{
  IrObject, empty, uint64, double, string, object, IrObjects, nil, cons, count, parse_word,
  parse_string, parse_subs, parse_object, binary_parse, has_prefix, is_in_binary_format,
  parse_binary, binary_header, max_parse_recursion_depth, serialize_binary,
}
use fuzztest.Serialization.Format.{
  encode, encode_all, depth, depth_all, IsU64Object, IsU64Objects, count-encode_all,
}
use fuzztest.Serialization.Write.{serialize_binary_lem}

enough : (a b : ℕ) → b ≤ a → ltb a b ≡ false
enough a b h = ground arith

-- The word at the front.
word_front :
    (v : ℕ) (rest : ByteArray)
    → IsU64 v
    → (ltb (length (le_bytes 8 v ++ rest)) 8 ≡ false)
      × (of_le (take 8 (le_bytes 8 v ++ rest)) ≡ v)
      × (drop 8 (le_bytes 8 v ++ rest) ≡ rest)
word_front v rest h = (
  enough (length (le_bytes 8 v ++ rest)) 8
      (omega (arith, length-append (le_bytes 8 v) rest, length-le_bytes 8 v)),
  rw (take-append 8 (le_bytes 8 v) rest (length-le_bytes 8 v)) (of_le-le_bytes_u64 v h),
  drop-append 8 (le_bytes 8 v) rest (length-le_bytes 8 v),
)

parse_word-encode :
    (make : ℕ → IrObject) (v : ℕ) (rest : ByteArray)
    → IsU64 v
    → parse_word make (le_bytes 8 v ++ rest) ≡ some (make v, rest)
unfolding parse_word
parse_word-encode make v rest h = let (l, t, d) = word_front v rest h in rw (l, t, d) refl

not_below : (s rest : ByteArray) → ltb (length (s ++ rest)) (length s) ≡ false
not_below s rest = let l = length-append s rest in ground arith

parse_string-encode :
    (s rest : ByteArray)
    → IsU64 (length s)
    → parse_string (le_bytes 8 (length s) ++ (s ++ rest)) ≡ some (string s, rest)
unfolding parse_string
parse_string-encode s rest h =
    let (l, t, d) = word_front (length s) (s ++ rest) h in
    rw
      (
        l,
        t,
        d,
        not_below s rest,
        take-append (length s) s rest refl,
        drop-append (length s) s rest refl,
      )
      refl

-- What a parser with `levels` levels left makes of the format of an object.
abbrev expected : ℕ → IrObject → ByteArray → Option (IrObject × ByteArray)
expected levels o rest = if ltb (depth o) levels then some (o, rest) else none

abbrev expected_all : ℕ → IrObjects → ByteArray → Option (IrObjects × ByteArray)
expected_all levels os rest = if leb (depth_all os) levels then some (os, rest) else none

deeper_false : (a b n : ℕ) → ltb a n ≡ true → leb b n ≡ false → leb (max (suc a) b) n ≡ false
deeper_false a b n h k = ground arith

deeper_true : (a b n : ℕ) → ltb a n ≡ true → leb b n ≡ true → leb (max (suc a) b) n ≡ true
deeper_true a b n h k = ground arith

too_deep : (a b n : ℕ) → ltb a n ≡ false → leb (max (suc a) b) n ≡ false
too_deep a b n h = ground arith

module _ (levels : ℕ)
    (parses : (o : IrObject) (rest : ByteArray)
      → IsU64Object o
      → binary_parse levels (encode o ++ rest) ≡ expected levels o rest) where
  parse_subs-encode_all :
      (os : IrObjects) (rest : ByteArray)
      → IsU64Objects os
      → parse_subs (binary_parse levels) (count os) (encode_all os ++ rest)
        ≡ expected_all levels os rest
  unfolding parse_subs encode_all count depth IsU64Object
  parse_subs-encode_all nil rest h = rw (zero_leb levels) refl
    where
      zero_leb : (n : ℕ) → leb 0 n ≡ true
      zero_leb n = ground arith
  parse_subs-encode_all (cons o os) rest (h, hs) =
      let first = parses o (encode_all os ++ rest) h in
      let others = parse_subs-encode_all os rest hs in
      elim (Bool-cases (ltb (depth o) levels)) [
        | inl l ↦ elim (Bool-cases (leb (depth_all os) levels)) [
          | inl m ↦
              rw
                (
                  append_assoc (encode o) (encode_all os) rest,
                  parse_subs,
                  first,
                  l,
                  others,
                  m,
                  deeper_true (depth o) (depth_all os) levels l m,
                )
                refl
          | inr m ↦
              rw
                (
                  append_assoc (encode o) (encode_all os) rest,
                  parse_subs,
                  first,
                  l,
                  others,
                  m,
                  deeper_false (depth o) (depth_all os) levels l m,
                )
                refl
        ]
        | inr l ↦
            rw
              (
                append_assoc (encode o) (encode_all os) rest,
                parse_subs,
                first,
                l,
                too_deep (depth o) (depth_all os) levels l,
              )
              refl
      ]

  parse_object-encode_all :
      (os : IrObjects) (rest : ByteArray)
      → IsU64Object (object os)
      → parse_object (binary_parse levels) (le_bytes 8 (count os) ++ (encode_all os ++ rest))
        ≡ (if leb (depth_all os) levels then some (object os, rest) else none)
  unfolding parse_object IsU64Object
  parse_object-encode_all os rest (h, hs) =
      let (l, t, d) = word_front (count os) (encode_all os ++ rest) h in
      let room : ltb (length (encode_all os ++ rest)) (count os) ≡ false =
        enough (length (encode_all os ++ rest)) (count os)
          (omega (arith, length-append (encode_all os) rest, count-encode_all os)) in
      let subs = parse_subs-encode_all os rest hs in
      elim (Bool-cases (leb (depth_all os) levels)) [
        | inl m ↦ rw (l, t, d, room, subs, m) refl
        | inr m ↦ rw (l, t, d, room, subs, m) refl
      ]

leb_is_lt_suc : (a n : ℕ) → leb a n ≡ ltb a (suc n)
leb_is_lt_suc a n = ground arith

always : (n : ℕ) → ltb 0 (suc n) ≡ true
always n = ground arith

binary_parse-encode :
    (levels : ℕ) (o : IrObject) (rest : ByteArray)
    → IsU64Object o
    → binary_parse levels (encode o ++ rest) ≡ expected levels o rest
unfolding binary_parse encode depth IsU64Object
binary_parse-encode zero o rest h = rw (never (depth o)) refl
  where
    never : (n : ℕ) → ltb n 0 ≡ false
    never n = ground arith
binary_parse-encode (suc levels) empty rest h = rw (always levels) refl
binary_parse-encode (suc levels) (uint64 v) rest h =
    parse_word-encode uint64 v rest h ∙ rw (always levels) refl
binary_parse-encode (suc levels) (double v) rest h =
    parse_word-encode double v rest h ∙ rw (always levels) refl
binary_parse-encode (suc levels) (string s) rest h =
    rw (append_assoc (le_bytes 8 (length s)) s rest)
      (parse_string-encode s rest h ∙ rw (always levels) refl)
binary_parse-encode (suc levels) (object os) rest h =
    rw (append_assoc (le_bytes 8 (count os)) (encode_all os) rest) (
      parse_object-encode_all levels (binary_parse-encode levels) os rest h
      ∙ rw (leb_is_lt_suc (depth_all os) levels) refl)

-- The binary serialization of an object, with numbers and sizes of 64 bits, is taken for binary, and
-- parses to the object if its subs are nested 128 deep at most. A deeper object is written all the
-- same, and is then refused.
pub parse_binary-serialize_binary :
    (o : IrObject)
    → IsU64Object o
    → (str : ByteArray) × (serialize_binary o ≡ some str)
      × (is_in_binary_format str ≡ true)
      × (parse_binary str ≡ (if leb (depth o) max_parse_recursion_depth then some o else none))
unfolding is_in_binary_format has_prefix parse_binary
parse_binary-serialize_binary o h =
    (binary_header ++ encode o, serialize_binary_lem o, refl, parsed)
  where
    whole :
        binary_parse (suc max_parse_recursion_depth) (encode o)
        ≡ (if leb (depth o) max_parse_recursion_depth then some (o, []) else none)
    whole =
        subst
          (λ (t : ByteArray).
            binary_parse (suc max_parse_recursion_depth) t
            ≡ expected (suc max_parse_recursion_depth) o [])
          (append-nil (encode o)) (binary_parse-encode (suc max_parse_recursion_depth) o [] h)
        ∙ rw (leb_is_lt_suc (depth o) max_parse_recursion_depth) refl

    parsed :
        parse_binary (binary_header ++ encode o)
        ≡ (if leb (depth o) max_parse_recursion_depth then some o else none)
    parsed = elim (Bool-cases (leb (depth o) max_parse_recursion_depth)) [
      | inl l ↦ rw (parse_binary, whole, l) refl
      | inr l ↦ rw (parse_binary, whole, l) refl
    ]
