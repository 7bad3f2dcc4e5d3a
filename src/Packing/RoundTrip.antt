-- ===== src/Packing/RoundTrip.antt =====
-- Packing and unpacking, appending and extracting.
use fuzztest.Common.{
  ℕ, ◌+◌, ◌-◌, ◌*◌, ◌/◌, ◌%◌, ◌^◌, ◌<◌, ◌≡◌, refl, true, false, List, [], ◌∷◌, ◌++◌, ltb, leb, ◌==◌,
  length, drop, replicate, All, arith, take-append, drop-append, length-append, length-replicate,
  append-nil, drop_all, drop-drop,
}
use fuzztest.Common.Abort.{done}
use fuzztest.Common.Bytes.{
  ByteArray, IsU64, memcpy_at-append, store_words, load_words, length-store_words,
  load_words-store_words,
}
use fuzztest.Packing.{
  hash_len, append_hash_to_array, extract_hash_from_array, pack_features_and_hash_as_raw_bytes,
  pack_features_and_hash, unpack_features_and_hash,
}

pack_raw-append :
    (hash_of : ByteArray → ByteArray) (input features : ByteArray)
    → length (hash_of input) ≡ hash_len
    → pack_features_and_hash_as_raw_bytes hash_of input features ≡ done (features ++ hash_of input)
unfolding pack_features_and_hash_as_raw_bytes
pack_raw-append hash_of input features h =
    let zeros : ByteArray = replicate (length features + hash_len) 0 in
    let right : (length (hash_of input) == hash_len) ≡ true = ground arith in
    let first = memcpy_at-append [] zeros 0 features refl in
    let second =
      memcpy_at-append features (drop (length features) zeros) (length features) (hash_of input)
        refl in
    let whole =
      drop-drop (length features + length (hash_of input)) (length (hash_of input))
        (length features) zeros refl in
    let all =
      drop_all (length features + length (hash_of input)) zeros
        (omega (arith, h, length-replicate {A = ℕ} (length features + hash_len) 0)) in
    rw (right, first, second, whole, all, append-nil (hash_of input)) refl

words : (vs : List ℕ) → All IsU64 vs → All (λ (v : ℕ). v < 256 ^ 8) vs
words [] h = tt
words (v ∷ vs) (h, hs) = (omega arith, words vs hs)

unpack_append :
    (f hash : ByteArray) (features : List ℕ)
    → length hash ≡ hash_len
    → length f ≡ length features * 8
    → load_words 8 (length features) f ≡ features
    → unpack_features_and_hash (f ++ hash) ≡ done (features, hash)
unfolding unpack_features_and_hash
unpack_append f hash features h l e =
    let total = length-append f hash in
    let long : ltb (length (f ++ hash)) hash_len ≡ false = ground arith in
    let len : length (f ++ hash) - hash_len ≡ length f = omega arith in
    let whole_words : (length f % 8 == 0) ≡ true = ground arith in
    let number : length f / 8 ≡ length features = omega arith in
    rw
      (
        long,
        len,
        whole_words,
        number,
        take-append (length f) f hash refl,
        drop-append (length f) f hash refl,
        e,
      )
      refl

extract_append :
    (f hash : ByteArray)
    → length hash ≡ hash_len
    → extract_hash_from_array (f ++ hash) ≡ done (hash, f)
unfolding extract_hash_from_array
extract_append f hash h =
    let total = length-append f hash in
    let long : leb hash_len (length (f ++ hash)) ≡ true = ground arith in
    let len : length (f ++ hash) - hash_len ≡ length f = omega arith in
    rw (long, len, take-append (length f) f hash refl, drop-append (length f) f hash refl) refl

-- For a hash of 40 bytes: packed features and the hash are unpacked as they were, and a hash that
-- was appended to an array is extracted again, with the array.
pub unpack_features_and_hash-pack_features_and_hash :
    (hash_of : ByteArray → ByteArray) (input : ByteArray) (features : List ℕ)
    → ((bytes : ByteArray) → length (hash_of bytes) ≡ hash_len)
    → All IsU64 features
    → (blob whole : ByteArray) × (pack_features_and_hash hash_of input features ≡ done blob)
      × (unpack_features_and_hash blob ≡ done (features, hash_of input))
      × (append_hash_to_array input (hash_of input) ≡ done whole)
      × (extract_hash_from_array whole ≡ done (hash_of input, input))
unfolding pack_features_and_hash unpack_features_and_hash append_hash_to_array
    extract_hash_from_array
unpack_features_and_hash-pack_features_and_hash hash_of input features hl u =
    let f = store_words 8 features in
    let hash = hash_of input in
    let h = hl input in
    let right : (length hash == hash_len) ≡ true = ground arith in
    (
      f ++ hash,
      input ++ hash,
      pack_raw-append hash_of input f h,
      unpack_append f hash features h (length-store_words 8 features)
          (load_words-store_words 8 features (words features u)),
      rw right refl,
      extract_append input hash h,
    )
