-- ===== src/ConcurrentBitSet.antt =====
-- centipede/concurrent_bitset.h: a bit set with a byte for each line of words. The calls of one
-- thread are modelled.
pub mod WordBits
pub mod Lines
pub mod Masks
pub mod Bits
pub mod Members
mod Examples
use fuzztest.Common.{
  ℕ, zero, suc, ◌+◌, ◌-◌, ◌*◌, ◌/◌, ◌%◌, ◌^◌, Bool, true, false, not, List, [], ◌∷◌, ◌++◌, length,
  set, get_or, take, drop, replicate, ◌==◌, if◌then◌else◌,
}
use fuzztest.Common.Abort.{Outcome, aborted, done, ◌>>=◌}
use fuzztest.Common.Bytes.{ByteArray}
use fuzztest.ConcurrentByteSet.{clear_set, set_byte, for_each_nonzero_byte_from}

abbrev pub bits_in_word : ℕ
bits_in_word = 64

abbrev pub words_in_line : ℕ
words_in_line = 64

-- `size` is the template argument kSizeInBits.
abbrev pub size_in_words : ℕ → ℕ
size_in_words size = size / bits_in_word

abbrev pub size_in_lines : ℕ → ℕ
size_in_lines size = size_in_words size / words_in_line

pub record BitSet : Type 0 where
  pub lines : ByteArray
  pub words : List ℕ

unfoldable pub clear_bits : ℕ → BitSet
clear_bits size = record {
  lines = clear_set (size_in_lines size);
  words = replicate (size_in_words size) 0;
}

abbrev pub has_bit : ℕ → ℕ → Bool
has_bit word bit_idx = word / 2 ^ bit_idx % 2 == 1

-- `word | mask`, where the bit of the mask is not set.
unfoldable pub set_bit : ℕ → ℕ → BitSet → Outcome BitSet
set_bit size idx s =
    let i = idx % size in
    let word_idx = i / bits_in_word in
    let bit_idx = i % bits_in_word in
    set_byte (size_in_lines size) (word_idx / words_in_line) 1 s.lines >>= λ lines.
    let word = get_or s.words word_idx 0 in
    done (record {
      lines = lines;
      words = if has_bit word bit_idx then s.words else set s.words word_idx (word + 2 ^ bit_idx);
    })

unfoldable pub get_bit : ℕ → ℕ → BitSet → Bool
get_bit size idx s =
    let i = idx % size in has_bit (get_or s.words (i / bits_in_word) 0) (i % bits_in_word)

-- __builtin_ctzll of a word of `n` bits that is not zero.
unfoldable pub count_trailing_zeros : ℕ → ℕ → ℕ
count_trailing_zeros zero word = 0
count_trailing_zeros (suc n) word =
    let rest = count_trailing_zeros n (word / 2) in if word % 2 == 1 then 0 else suc rest

-- The loop over the bits of a word, each of which it clears in `word`.
unfoldable pub word_bits : ℕ → ℕ → ℕ → Outcome (List ℕ)
word_bits zero base word = aborted
word_bits (suc fuel) base word =
    let bit_idx = count_trailing_zeros bits_in_word word in
    if word == 0
    then done []
    else (word_bits fuel base (word - 2 ^ bit_idx) >>= λ later. done ((base + bit_idx) ∷ later))

-- The loop over words, from the index `word_idx` on. The calls, and the words after them.
unfoldable pub words_loop : ℕ → List ℕ → Outcome (List ℕ × List ℕ)
words_loop word_idx [] = done ([], [])
words_loop word_idx (word ∷ words) =
    word_bits (suc bits_in_word) (word_idx * bits_in_word) word >>= λ calls.
    words_loop (word_idx + 1) words >>= λ r.
    let (later, cleared) = r in done (calls ++ later, (if word == 0 then word else 0) ∷ cleared)

-- The calls of the action of the lines, which visit the words of a line each.
unfoldable pub line_calls : List (ℕ × ℕ) → List ℕ → Outcome (List ℕ × List ℕ)
line_calls [] words = done ([], words)
line_calls ((idx, value) ∷ lines) words =
    let word_idx_beg = idx * words_in_line in
    words_loop word_idx_beg (take words_in_line (drop word_idx_beg words)) >>= λ r.
    let (calls, cleared) = r in
    (line_calls lines
        (take word_idx_beg words ++ (cleared ++ drop (word_idx_beg + words_in_line) words))
      >>= λ s. let (later, last) = s in done (calls ++ later, last))

unfoldable pub for_each_nonzero_bit : ℕ → BitSet → Outcome (List ℕ × BitSet)
for_each_nonzero_bit size s =
    for_each_nonzero_byte_from (size_in_lines size) 0 (size_in_lines size) s.lines >>= λ r.
    let (line_indices, lines) = r in
    (line_calls line_indices s.words >>= λ t.
    let (calls, words) = t in done (calls, record { lines = lines; words = words }))
