-- ===== src/CmpDictionary.antt =====
-- centipede/byte_array_mutator.{h,cc}: DictEntry and CmpDictionary. A DictEntry is its bytes; it is
-- compared as the memory of 128 bytes, padded with zeros, and of its size.
use fuzztest.Common.{
  ℕ, zero, suc, ◌-◌, Bool, true, false, not, ◌&&◌, ◌||◌, List, [], ◌∷◌, ◌++◌, none, some, ltb, ◌==◌,
  if◌then◌else◌, length, take, replicate,
}
use fuzztest.Common.Abort.{Outcome, aborted, done}
use fuzztest.Common.Bytes.{ByteArray}
use fuzztest.ExecutionMetadata.{ExecutionMetadata, for_each_cmp_entry}

abbrev pub max_entry_size : ℕ
max_entry_size = 128

abbrev pub min_entry_size : ℕ
min_entry_size = 2

abbrev pub Pair : Type 0
Pair = ByteArray × ByteArray

-- memcmp(a, b) < 0 for arrays of one size.
unfoldable pub memcmp_lt : ByteArray → ByteArray → Bool
memcmp_lt [] ys = false
memcmp_lt (x ∷ xs) [] = false
memcmp_lt (x ∷ xs) (y ∷ ys) = ltb x y || (x == y && memcmp_lt xs ys)

-- The memory of an entry.
unfoldable pub entry_memory : ByteArray → ByteArray
entry_memory e = e ++ (replicate (max_entry_size - length e) 0 ++ (length e ∷ []))

unfoldable pub entry_lt : ByteArray → ByteArray → Bool
entry_lt a b = memcmp_lt (entry_memory a) (entry_memory b)

-- operator< of std::pair.
unfoldable pub pair_lt : Pair → Pair → Bool
pair_lt (a, b) (c, d) = entry_lt a c || (not (entry_lt c a) && entry_lt b d)

-- std::sort, by insertion.
unfoldable pub insert : Pair → List Pair → List Pair
insert p [] = p ∷ []
insert p (q ∷ qs) = let later = q ∷ insert p qs in if pair_lt q p then later else p ∷ q ∷ qs

unfoldable pub sort : List Pair → List Pair
sort [] = []
sort (p ∷ ps) = insert p (sort ps)

-- What the callback of SetFromMetadata adds for the entries it is called with.
unfoldable pub added_pairs : List Pair → List Pair
added_pairs [] = []
added_pairs ((a, b) ∷ es) =
    let rest = added_pairs es in
    if ltb max_entry_size (length a) || ltb (length a) min_entry_size
    then rest
    else (a, b) ∷ (b, a) ∷ rest

-- The result and the new dictionary, which is not sorted where the metadata are bad.
unfoldable pub set_from_metadata : ExecutionMetadata → Outcome (Bool × List Pair)
set_from_metadata m = elim (for_each_cmp_entry m) [
  | none ↦ aborted
  | some (ok, entries) ↦
      done (if ok then (true, sort (added_pairs entries)) else (false, added_pairs entries))
]

-- std::equal of the first bytes.
unfoldable pub is_prefix : ByteArray → ByteArray → Bool
is_prefix [] ys = true
is_prefix (x ∷ xs) [] = false
is_prefix (x ∷ xs) (y ∷ ys) = x == y && is_prefix xs ys

-- std::lower_bound by the first entries: the pairs from the first that is not below the prefix on.
unfoldable pub lower_bound : ByteArray → List Pair → List Pair
lower_bound prefix [] = []
lower_bound prefix ((a, b) ∷ ps) =
    let later = lower_bound prefix ps in if entry_lt a prefix then later else (a, b) ∷ ps

-- The loop of SuggestReplacement, with room for `room` suggestions.
unfoldable pub suggest_loop : ℕ → ByteArray → List Pair → List ByteArray
suggest_loop zero bytes ps = []
suggest_loop (suc room) bytes [] = []
suggest_loop (suc room) bytes ((a, b) ∷ ps) =
    let skip = suggest_loop (suc room) bytes ps in
    let take_it = b ∷ suggest_loop room bytes ps in
    if not (is_prefix (take min_entry_size bytes) a)
    then []
    else if ltb (length bytes) (length a)
    then skip
    else if is_prefix a bytes
    then take_it
    else skip

unfoldable pub suggest_replacement : List Pair → ByteArray → ℕ → List ByteArray
suggest_replacement dictionary bytes capacity =
    if ltb (length bytes) min_entry_size
    then []
    else suggest_loop capacity bytes (lower_bound (take min_entry_size bytes) dictionary)
