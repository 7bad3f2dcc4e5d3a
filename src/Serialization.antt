-- ===== src/Serialization.antt =====
-- fuzztest/internal/serialization.{h,cc}: IRObject and its binary format, which is little-endian.
-- A double is the number whose eight bytes it shares, a string the list of its bytes. An object in
-- memory takes more bytes than its serialization, so offsets do not wrap.
pub mod Format
pub mod Write
pub mod Parse
pub mod Canonical
mod Examples
use fuzztest.Common.{
  ℕ, zero, suc, ◌+◌, ◌-◌, ◌*◌, ◌^◌, Bool, true, false, ◌&&◌, List, [], ◌∷◌, ◌++◌, Option, none,
  some, ltb, leb, ◌==◌, if◌then◌else◌, length, take, drop, replicate,
}
use fuzztest.Common.Bytes.{ByteArray, le_bytes, of_le, memcpy_at}

-- IRObject::Value, and std::vector<IRObject>.
mutual
  pub data IrObject : Type 0 where
    empty : IrObject
    uint64 : ℕ → IrObject
    double : ℕ → IrObject
    string : ByteArray → IrObject
    object : IrObjects → IrObject

  pub data IrObjects : Type 0 where
    nil : IrObjects
    cons : IrObject → IrObjects → IrObjects

unfoldable pub count : IrObjects → ℕ
count nil = 0
count (cons o os) = suc (count os)

-- BinaryFormatHeader
abbrev pub header_empty : ℕ
header_empty = 0

abbrev pub header_uint64 : ℕ
header_uint64 = 1

abbrev pub header_double : ℕ
header_double = 2

abbrev pub header_string : ℕ
header_string = 3

abbrev pub header_object : ℕ
header_object = 4

-- BinaryOutputVisitor; `none` is the null buffer of the pass that only measures.
pub record BinaryOutput : Type 0 where
  pub buf : Option ByteArray
  pub offset : ℕ

-- memcpy(buf + offset + at, bytes), unless the buffer is null.
unfoldable pub store : BinaryOutput → ℕ → ByteArray → BinaryOutput
store out at bytes = elim out.buf [
  | none ↦ out
  | some buf ↦ record out { buf = some (memcpy_at buf (out.offset + at) bytes) }
]

unfoldable pub advance : BinaryOutput → ℕ → BinaryOutput
advance out n = record out { offset = out.offset + n }

unfoldable mutual
  pub visit : IrObject → BinaryOutput → BinaryOutput
  visit empty out = advance (store out 0 (header_empty ∷ [])) 1
  visit (uint64 value) out =
      advance (store (store out 0 (header_uint64 ∷ [])) 1 (le_bytes 8 value)) (1 + 8)
  visit (double value) out =
      advance (store (store out 0 (header_double ∷ [])) 1 (le_bytes 8 value)) (1 + 8)
  visit (string value) out =
      let size = length value in
      advance (store (store (store out 0 (header_string ∷ [])) 1 (le_bytes 8 size)) (1 + 8) value)
        (1 + 8 + size)
  visit (object value) out =
      visit_all value
        (advance (store (store out 0 (header_object ∷ [])) 1 (le_bytes 8 (count value))) (1 + 8))

  pub visit_all : IrObjects → BinaryOutput → BinaryOutput
  visit_all nil out = out
  visit_all (cons sub subs) out = visit_all subs (visit sub out)

-- "FUZZTESTv1b"
abbrev pub binary_header : ByteArray
binary_header = 70 ∷ 85 ∷ 90 ∷ 90 ∷ 84 ∷ 69 ∷ 83 ∷ 84 ∷ 118 ∷ 49 ∷ 98 ∷ []

-- SerializeIRObject in the binary format; an empty result stands for a buffer that is lost.
unfoldable pub serialize_binary : IrObject → Option ByteArray
serialize_binary obj =
    let header_size = length binary_header in
    let measured = visit obj (record { buf = none; offset = header_size }) in
    let out = memcpy_at (replicate measured.offset 0) 0 binary_header in
    (visit obj (record { buf = some out; offset = header_size })).buf

-- The cases of the switch of BinaryParse, with the bytes behind the header byte.
unfoldable pub parse_word : (ℕ → IrObject) → ByteArray → Option (IrObject × ByteArray)
parse_word make buf =
    if ltb (length buf) 8 then none else some (make (of_le (take 8 buf)), drop 8 buf)

unfoldable pub parse_string : ByteArray → Option (IrObject × ByteArray)
parse_string buf =
    if ltb (length buf) 8
    then none
    else let str_size = of_le (take 8 buf) in
      let rest = drop 8 buf in
      if ltb (length rest) str_size
      then none
      else some (string (take str_size rest), drop str_size rest)

-- The loop over the subs, on the parser of one.
unfoldable pub parse_subs :
    (ByteArray → Option (IrObject × ByteArray)) → ℕ → ByteArray → Option (IrObjects × ByteArray)
parse_subs parse zero buf = some (nil, buf)
parse_subs parse (suc n) buf = elim (parse buf) [
  | none ↦ none
  | some (sub, rest) ↦ elim (parse_subs parse n rest) [
    | none ↦ none
    | some (subs, rest') ↦ some (cons sub subs, rest')
  ]
]

unfoldable pub parse_object :
    (ByteArray → Option (IrObject × ByteArray)) → ByteArray → Option (IrObject × ByteArray)
parse_object parse buf =
    if ltb (length buf) 8
    then none
    else let vec_size = of_le (take 8 buf) in
      let rest = drop 8 buf in
      if ltb (length rest) vec_size then none else elim (parse_subs parse vec_size rest) [
        | none ↦ none
        | some (subs, rest') ↦ some (object subs, rest')
      ]

abbrev pub max_parse_recursion_depth : ℕ
max_parse_recursion_depth = 128

-- BinaryParse on `levels` = kMaxParseRecursionDepth + 1 - recursion_depth, so that no level left is
-- a depth above the maximum. The second result is the buffer behind the object.
unfoldable pub binary_parse : ℕ → ByteArray → Option (IrObject × ByteArray)
binary_parse zero buf = none
binary_parse (suc levels) [] = none
binary_parse (suc levels) (h ∷ buf) =
    if h == header_empty
    then some (empty, buf)
    else if h == header_uint64
    then parse_word uint64 buf
    else if h == header_double
    then parse_word double buf
    else if h == header_string
    then parse_string buf
    else if h == header_object
    then parse_object (binary_parse levels) buf
    else none

-- memcmp of a prefix.
unfoldable pub has_prefix : ByteArray → ByteArray → Bool
has_prefix [] str = true
has_prefix (p ∷ ps) [] = false
has_prefix (p ∷ ps) (c ∷ cs) = (p == c) && has_prefix ps cs

unfoldable pub is_in_binary_format : ByteArray → Bool
is_in_binary_format str = has_prefix binary_header str

-- ParseIRObject on a text in the binary format.
unfoldable pub parse_binary : ByteArray → Option IrObject
parse_binary str =
    elim (binary_parse (suc max_parse_recursion_depth) (drop (length binary_header) str)) [
      | none ↦ none
      | some (object', rest) ↦ if length rest == 0 then some object' else none
    ]
