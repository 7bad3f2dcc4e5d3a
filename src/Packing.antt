-- ===== src/Packing.antt =====
-- centipede/util.cc: features and inputs with a hash behind them. The hash of common/hash.cc, which
-- is vendored SHA-1, is a parameter.
pub mod RoundTrip
mod Examples
use fuzztest.Common.{
  ℕ, zero, suc, ◌+◌, ◌-◌, ◌*◌, ◌/◌, ◌%◌, ◌^◌, Bool, not, ◌||◌, List, [], ◌∷◌, ◌++◌, ltb, leb, ◌==◌,
  if◌then◌else◌, length, take, drop, replicate,
}
use fuzztest.Common.Abort.{Outcome, aborted, done, ◌>>=◌, ◌>>◌, check}
use fuzztest.Common.Bytes.{ByteArray, sub64, memcpy_at, store_words, load_words}

-- kHashLen
abbrev pub hash_len : ℕ
hash_len = 40

unfoldable pub append_hash_to_array : ByteArray → ByteArray → Outcome ByteArray
append_hash_to_array ba hash = check (length hash == hash_len) >> done (ba ++ hash)

-- The hash, and the array without it.
unfoldable pub extract_hash_from_array : ByteArray → Outcome (ByteArray × ByteArray)
extract_hash_from_array ba =
    check (leb hash_len (length ba))
    >> done (drop (length ba - hash_len) ba, take (length ba - hash_len) ba)

unfoldable pub pack_features_and_hash_as_raw_bytes :
    (ByteArray → ByteArray) → ByteArray → ByteArray → Outcome ByteArray
pack_features_and_hash_as_raw_bytes hash_of input features =
    let hash = hash_of input in
    check (length hash == hash_len)
    >> done (
        memcpy_at (memcpy_at (replicate (length features + hash_len) 0) 0 features)
          (length features) hash)

unfoldable pub pack_features_and_hash :
    (ByteArray → ByteArray) → ByteArray → List ℕ → Outcome ByteArray
pack_features_and_hash hash_of input features =
    pack_features_and_hash_as_raw_bytes hash_of input (store_words 8 features)

-- The features and the hash. A blob shorter than a hash, and a copy of bytes that are no whole
-- features past the end of the vector, which the source leaves undefined, are `aborted`.
unfoldable pub unpack_features_and_hash : ByteArray → Outcome (List ℕ × ByteArray)
unpack_features_and_hash blob =
    let features_len_in_bytes = length blob - hash_len in
    if ltb (length blob) hash_len || not (features_len_in_bytes % 8 == 0)
    then aborted
    else done (
      load_words 8 (features_len_in_bytes / 8) (take features_len_in_bytes blob),
      drop features_len_in_bytes blob,
    )
