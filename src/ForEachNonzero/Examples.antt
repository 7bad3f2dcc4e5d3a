-- ===== src/ForEachNonzero/Examples.antt =====
-- The theorem on ForEachNonZeroByte at a concrete input.
use fuzztest.Common.{◌≡◌, [], ◌∷◌, replicate, arith}
use fuzztest.Common.Bytes.{ByteArray}
use fuzztest.ForEachNonzero.{Visited, for_each_nonzero_byte}
use fuzztest.ForEachNonzero.Words.{nonzero_bytes}
use fuzztest.ForEachNonzero.Order.{for_each_nonzero_byte_lem}

-- Two bytes before an aligned address, a word and one byte behind it.
abbrev bytes : ByteArray
bytes = 0 ∷ 7 ∷ 0 ∷ 0 ∷ 9 ∷ 0 ∷ 0 ∷ 0 ∷ 0 ∷ 255 ∷ 3 ∷ []

for_each_nonzero_byte_lem_example :
    ◌≡◌ {A = Visited} (for_each_nonzero_byte 1006 bytes) (nonzero_bytes 0 bytes, replicate 11 0)
for_each_nonzero_byte_lem_example = for_each_nonzero_byte_lem 1006 bytes (
  omega arith,
  (
    omega arith,
    (
      omega arith,
      (
        omega arith,
        (
          omega arith,
          (
            omega arith,
            (omega arith, (omega arith, (omega arith, (omega arith, (omega arith, tt))))),
          ),
        ),
      ),
    ),
  ),
)
