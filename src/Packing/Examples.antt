-- ===== src/Packing/Examples.antt =====
-- The theorem on packing at a concrete input.
use fuzztest.Common.{◌≡◌, refl, [], ◌∷◌, arith, length, replicate}
use fuzztest.Common.Abort.{done}
use fuzztest.Common.Bytes.{ByteArray}
use fuzztest.Packing.{
  append_hash_to_array, extract_hash_from_array, pack_features_and_hash, unpack_features_and_hash,
}
use fuzztest.Packing.RoundTrip.{unpack_features_and_hash-pack_features_and_hash}

-- A stand-in for the hash that gives 40 bytes.
abbrev toy_hash : ByteArray → ByteArray
toy_hash bytes = replicate 40 (length bytes)

unpack_features_and_hash-pack_features_and_hash_example :
    (blob whole : ByteArray) × (pack_features_and_hash toy_hash (1 ∷ 2 ∷ 3 ∷ []) (700 ∷ 5 ∷ [])
      ≡ done blob)
    × (unpack_features_and_hash blob ≡ done (700 ∷ 5 ∷ [], toy_hash (1 ∷ 2 ∷ 3 ∷ [])))
    × (append_hash_to_array (1 ∷ 2 ∷ 3 ∷ []) (toy_hash (1 ∷ 2 ∷ 3 ∷ [])) ≡ done whole)
    × (extract_hash_from_array whole ≡ done (toy_hash (1 ∷ 2 ∷ 3 ∷ []), 1 ∷ 2 ∷ 3 ∷ []))
unpack_features_and_hash-pack_features_and_hash_example =
    unpack_features_and_hash-pack_features_and_hash toy_hash (1 ∷ 2 ∷ 3 ∷ []) (700 ∷ 5 ∷ [])
      (λ bytes. refl) (omega arith, (omega arith, tt))
