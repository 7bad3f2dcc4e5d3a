-- ===== src/Serialization/Format.antt =====
-- The binary format, described by itself.
use fuzztest.Common.{ℕ, suc, ◌≤◌, ◌<◌, max, [], ◌∷◌, ◌++◌, length, length-append, arith}
use fuzztest.Common.Bytes.{ByteArray, le_bytes, IsU64}
use fuzztest.Serialization.{
  IrObject, empty, uint64, double, string, object, IrObjects, nil, cons, count, header_empty,
  header_uint64, header_double, header_string, header_object,
}

unfoldable mutual
  pub encode : IrObject → ByteArray
  encode empty = header_empty ∷ []
  encode (uint64 v) = header_uint64 ∷ le_bytes 8 v
  encode (double v) = header_double ∷ le_bytes 8 v
  encode (string s) = header_string ∷ le_bytes 8 (length s) ++ s
  encode (object os) = header_object ∷ le_bytes 8 (count os) ++ encode_all os

  pub encode_all : IrObjects → ByteArray
  encode_all nil = []
  encode_all (cons o os) = encode o ++ encode_all os

-- How far the subs of an object are nested.
unfoldable mutual
  pub depth : IrObject → ℕ
  depth empty = 0
  depth (uint64 v) = 0
  depth (double v) = 0
  depth (string s) = 0
  depth (object os) = depth_all os

  pub depth_all : IrObjects → ℕ
  depth_all nil = 0
  depth_all (cons o os) = max (suc (depth o)) (depth_all os)

-- Numbers and sizes have 64 bits.
unfoldable mutual
  pub IsU64Object : IrObject → Type 0
  IsU64Object empty = Unit {0}
  IsU64Object (uint64 v) = IsU64 v
  IsU64Object (double v) = IsU64 v
  IsU64Object (string s) = IsU64 (length s)
  IsU64Object (object os) = IsU64 (count os) × IsU64Objects os

  pub IsU64Objects : IrObjects → Type 0
  IsU64Objects nil = Unit {0}
  IsU64Objects (cons o os) = IsU64Object o × IsU64Objects os

pub length-encode_pos : (o : IrObject) → 0 < length (encode o)
unfolding encode
length-encode_pos empty = omega arith
length-encode_pos (uint64 v) = omega arith
length-encode_pos (double v) = omega arith
length-encode_pos (string s) = omega arith
length-encode_pos (object os) = omega arith

-- Every sub takes a byte.
pub count-encode_all : (os : IrObjects) → count os ≤ length (encode_all os)
unfolding encode_all count
count-encode_all nil = omega arith
count-encode_all (cons o os) =
    omega
      (arith, length-append (encode o) (encode_all os), length-encode_pos o, count-encode_all os)
