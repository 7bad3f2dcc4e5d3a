-- ===== src/Serialization/Examples.antt =====
-- The theorems on serialization at concrete inputs.
use fuzztest.Common.{◌≡◌, ◌⊎◌, refl, true, [], ◌∷◌, none, some, arith, leb, if◌then◌else◌, All}
use fuzztest.Common.Bytes.{ByteArray, IsByte}
use fuzztest.Serialization.{
  IrObject, empty, uint64, string, object, nil, cons, is_in_binary_format, has_prefix, parse_binary,
  count, max_parse_recursion_depth, serialize_binary,
}
use fuzztest.Serialization.Format.{depth, IsU64Object}
use fuzztest.Serialization.Parse.{parse_binary-serialize_binary}
use fuzztest.Serialization.Canonical.{parse_binary_lem}

abbrev pair : IrObject
pair =
    object (cons (uint64 300) (cons (string (97 ∷ 98 ∷ [])) (cons (object (cons empty nil)) nil)))

parse_binary-serialize_binary_example :
    (str : ByteArray) × (serialize_binary pair ≡ some str)
    × (is_in_binary_format str ≡ true)
    × (parse_binary str ≡ (if leb (depth pair) max_parse_recursion_depth then some pair else none))
unfolding IsU64Object count
parse_binary-serialize_binary_example =
    parse_binary-serialize_binary pair
      (omega arith, (omega arith, (omega arith, ((omega arith, (tt, tt)), tt))))

-- A header and an empty object, with nothing behind it.
abbrev text : ByteArray
text = 70 ∷ 85 ∷ 90 ∷ 90 ∷ 84 ∷ 69 ∷ 83 ∷ 84 ∷ 118 ∷ 49 ∷ 98 ∷ 0 ∷ []

text-IsByte : All IsByte text
text-IsByte = (
  omega arith,
  (
    omega arith,
    (
      omega arith,
      (
        omega arith,
        (
          omega arith,
          (
            omega arith,
            (
              omega arith,
              (omega arith, (omega arith, (omega arith, (omega arith, (omega arith, tt))))),
            ),
          ),
        ),
      ),
    ),
  ),
)

parse_binary_lem_example :
    (parse_binary text ≡ none)
    ⊎ ((o : IrObject) × (parse_binary text ≡ some o) × (serialize_binary o ≡ some text))
unfolding is_in_binary_format has_prefix
parse_binary_lem_example = parse_binary_lem text text-IsByte refl
