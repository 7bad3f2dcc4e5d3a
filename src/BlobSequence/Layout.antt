-- ===== src/BlobSequence/Layout.antt =====
-- The bytes of a blob, and a sequence seen as the bytes before its offset and those behind it.
use fuzztest.Common.{
  ◌+◌, ◌≤◌, ◌<◌, ◌^◌, ◌≡◌, sym, ap, ◌∙◌, List, [], ◌∷◌, ◌++◌, arith, length, drop, length-append,
  length-drop, append_assoc,
}
use fuzztest.Common.Bytes.{ByteArray, le_bytes, memcpy_at, length-le_bytes, memcpy_at-append}
use fuzztest.BlobSequence.{Blob, BlobSequence, blob_size, put}

-- Tag, size and payload, each integer in eight bytes.
abbrev pub header : Blob → ByteArray
header b = le_bytes 8 b.tag ++ le_bytes 8 (blob_size b)

abbrev pub encode : Blob → ByteArray
encode b = header b ++ b.payload

abbrev pub encode_all : List Blob → ByteArray
encode_all [] = []
encode_all (b ∷ bs) = encode b ++ encode_all bs

pub length-header : (b : Blob) → length (header b) ≡ 16
length-header b = omega (
  arith,
  length-append (le_bytes 8 b.tag) (le_bytes 8 (blob_size b)),
  length-le_bytes 8 b.tag,
  length-le_bytes 8 (blob_size b),
)

pub length-encode : (b : Blob) → length (encode b) ≡ 16 + blob_size b
length-encode b = omega (arith, length-append (header b) b.payload, length-header b)

-- The region is `a ++ r` with the offset at the seam. Regions are below 2 ^ 63 bytes.
pub record At (s : BlobSequence) (a r : ByteArray) : Type 0 where
  pub region : s.bytes ≡ a ++ r
  pub seam : s.offset ≡ length a
  pub total : s.size ≡ length a + length r
  pub small : s.size < 2 ^ 63

-- The offset lies in the region, which has the size that the sequence says.
pub record IsWellFormed (s : BlobSequence) : Type 0 where
  pub sized : length s.bytes ≡ s.size
  pub within : s.offset ≤ s.size
  pub small : s.size < 2 ^ 63

-- A copy moves the seam over the bytes that it writes.
pub put-At :
    (s : BlobSequence) (a r from : ByteArray)
    → At s a r
    → length from ≤ length r
    → At (put s from) (a ++ from) (drop (length from) r)
unfolding put
put-At s a r from h fits = record {
  region =
      ap (λ (m : ByteArray). memcpy_at m s.offset from) h.region
      ∙ memcpy_at-append a r s.offset from (sym h.seam)
      ∙ sym (append_assoc a from (drop (length from) r));
  seam = omega (arith, h, length-append a from);
  total = omega (arith, h, length-append a from, length-drop (length from) r);
  small = h.small;
}

pub length-encode_all : (bs : List Blob) → length bs ≤ length (encode_all bs)
length-encode_all [] = omega arith
length-encode_all (b ∷ bs) =
    omega (arith, length-encode_all bs, length-encode b, length-append (encode b) (encode_all bs))
