-- ===== src/ForEachNonzero.antt =====
-- centipede/foreach_nonzero.h: ForEachNonZeroByte, which calls an action on each byte that is not zero
-- and clears it. The calls are a list of indices and bytes; a word is loaded from 8 bytes, little-endian.
pub mod Words
pub mod Order
mod Examples
use fuzztest.Common.{
  ℕ, zero, suc, ◌+◌, ◌*◌, ◌/◌, ◌%◌, ◌^◌, Bool, true, false, List, [], ◌∷◌, ◌++◌, ◌==◌,
  if◌then◌else◌, length, take, drop, replicate,
}
use fuzztest.Common.Bytes.{ByteArray, of_le}

abbrev pub word_size : ℕ
word_size = 8

-- The calls of the action, and the bytes after them.
abbrev pub Visited : Type 0
Visited = List (ℕ × ℕ) × ByteArray

-- One byte, before the rest.
unfoldable pub visit_byte : ℕ → ℕ → Visited → Visited
visit_byte idx byte (calls, bytes) =
    if byte == 0 then (calls, byte ∷ bytes) else ((idx, byte) ∷ calls, 0 ∷ bytes)

-- The last loop, over the bytes from the index `idx` on.
unfoldable pub tail_loop : ℕ → ByteArray → Visited
tail_loop idx [] = ([], [])
tail_loop idx (byte ∷ bytes) = visit_byte idx byte (tail_loop (suc idx) bytes)

-- The calls for a loaded word from the position `pos` on, for `n` positions, before other calls.
unfoldable pub word_calls : ℕ → ℕ → ℕ → ℕ → List (ℕ × ℕ) → List (ℕ × ℕ)
word_calls zero pos idx wide_load calls = calls
word_calls (suc n) pos idx wide_load calls =
    let value = wide_load / 2 ^ (pos * 8) % 256 in
    let later = word_calls n (suc pos) idx wide_load calls in
    if value == 0 then later else (idx + pos, value) ∷ later

-- The loop over `words` words, and the last loop.
unfoldable pub word_loop : ℕ → ℕ → ByteArray → Visited
word_loop zero idx bytes = tail_loop idx bytes
word_loop (suc words) idx bytes =
    let wide_load = of_le (take word_size bytes) in
    let (calls, rest) = word_loop words (idx + word_size) (drop word_size bytes) in
    if wide_load == 0
    then (calls, take word_size bytes ++ rest)
    else (word_calls word_size 0 idx wide_load calls, replicate word_size 0 ++ rest)

-- The first loop, up to an aligned address, and the others.
unfoldable pub head_loop : ℕ → ℕ → ByteArray → Visited
head_loop alignment idx [] = ([], [])
head_loop alignment idx (byte ∷ bytes) =
    let later = visit_byte idx byte (head_loop ((alignment + 1) % word_size) (suc idx) bytes) in
    let words = word_loop (length (byte ∷ bytes) / word_size) idx (byte ∷ bytes) in
    if alignment == 0 then words else later

unfoldable pub for_each_nonzero_byte : ℕ → ByteArray → Visited
for_each_nonzero_byte address bytes = head_loop (address % word_size) 0 bytes
