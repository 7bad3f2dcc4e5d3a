-- ===== src/ConcurrentBitSet/Bits.antt =====
-- ConcurrentBitSet of centipede/concurrent_bitset.h as a set of indices.
use fuzztest.Common.{
  ℕ, zero, suc, ◌+◌, ◌/◌, ◌%◌, ◌^◌, ◌<◌, ◌≡◌, ◌≢◌, ◌∙◌, sym, refl, ap, inl, inr, Bool, true, false,
  List, [], ◌∷◌, length, length-set, length-replicate, set, get_or, get_or-set_self, get_or-set_ne,
  replicate, leb, ◌==◌, ==_iff, if◌then◌else◌, Bool-cases, All, All-get_or, arith,
}
use fuzztest.Common.Abort.{done}
use native.Mathlib.Nat.{mod-eq_of_lt}
use fuzztest.Common.Maps.{is_in}
use fuzztest.ConcurrentBitSet.Members.{is_in-all_bits}
use fuzztest.Common.Bytes.{IsByte}
use fuzztest.ForEachNonzero.Words.{nonzero_bytes}
use fuzztest.ConcurrentByteSet.{set_byte, clear_set}
use fuzztest.ConcurrentByteSet.Layers.{IsLayered}
use fuzztest.ConcurrentByteSet.Refinement.{all_lem, get_or-zeros, zeros-IsByte, All-set}
use fuzztest.ConcurrentBitSet.{
  BitSet, clear_bits, has_bit, set_bit, get_bit, line_calls, for_each_nonzero_bit,
}
use fuzztest.ConcurrentBitSet.Lines.{IsWord, all_bits, line_calls_lem}
use fuzztest.ConcurrentBitSet.Masks.{has_bit-set, set-lt}

-- A set of a size that is a multiple of 2 ^ 18, so that the lines are a byte set, whose lines with a
-- word that is not zero are marked.
pub record IsBitSet (size : ℕ) (s : BitSet) : Type 0 where
  pub multiple : size % 262144 ≡ 0
  pub positive : 0 < size
  pub num_lines : length s.lines ≡ size / 64 / 64
  pub num_words : length s.words ≡ size / 64
  pub bytes : All IsByte s.lines
  pub words : All IsWord s.words
  pub layered : IsLayered s.lines s.words

-- The word after `word |= mask`.
abbrev or_mask : ℕ → ℕ → List ℕ → List ℕ
or_mask word_idx b words =
    if has_bit (get_or words word_idx 0) b
    then words
    else set words word_idx (get_or words word_idx 0 + 2 ^ b)

All-set_words : (xs : List ℕ) (i v : ℕ) → All IsWord xs → v < 2 ^ 64 → All IsWord (set xs i v)
All-set_words [] i v h l = tt
All-set_words (x ∷ xs) zero v (h, hs) l = (l, hs)
All-set_words (x ∷ xs) (suc i) v (h, hs) l = (h, All-set_words xs i v hs l)

or_mask_lem :
    (j b : ℕ) (words : List ℕ)
    → All IsWord words
    → j < length words
    → b < 64
    → (length (or_mask j b words) ≡ length words)
      × All IsWord (or_mask j b words)
      × ((k : ℕ) → j ≢ k → get_or (or_mask j b words) k 0 ≡ get_or words k 0)
      × ((c : ℕ)
          → has_bit (get_or (or_mask j b words) j 0) c
            ≡ (if b == c then true else has_bit (get_or words j 0) c))
or_mask_lem j b words h l m = elim (Bool-cases (has_bit (get_or words j 0) b)) [
  | inl e ↦ rw (or_mask, e) (refl, h, λ k ne. refl, λ c. already (get_or words j 0) b c e)
  | inr e ↦
      let word = get_or words j 0 in
      let small = set-lt 64 word b (All-get_or IsWord words j 0 h l) m e in
      rw (or_mask, e)
        (
          length-set words j (word + 2 ^ b),
          All-set_words words j (word + 2 ^ b) h small,
          λ k ne. get_or-set_ne words (word + 2 ^ b) 0 ne,
          λ c.
              ap (λ w. has_bit w c) (get_or-set_self words j (word + 2 ^ b) 0 l)
              ∙ has_bit-set word b c e,
        )
]
  where
    already :
        (w b c : ℕ) → has_bit w b ≡ true → has_bit w c ≡ (if b == c then true else has_bit w c)
    already w b c e = elim (Bool-cases (b == c)) [
      | inl same ↦ rw (same) (ap (has_bit w) (sym ((==_iff b c).0 same)) ∙ e)
      | inr other ↦ rw (other) refl
    ]

-- The lines stay marked where the word `j` changes and its line is marked.
marked :
    (lines words words' : List ℕ) (j : ℕ)
    → IsLayered lines words
    → j / 64 < length lines
    → ((k : ℕ) → j ≢ k → get_or words' k 0 ≡ get_or words k 0)
    → IsLayered (set lines (j / 64) 1) words'
marked lines words words' j h l away k z = elim (Bool-cases ((j / 64) == (k / 64))) [
  | inl e ↦
      let same : j / 64 ≡ k / 64 = (==_iff (j / 64) (k / 64)).0 e in
      let one : get_or (set lines (j / 64) 1) (j / 64) 0 ≡ 1 =
        get_or-set_self lines (j / 64) 1 0 l in
      let q : get_or (set lines (j / 64) 1) (j / 64) 0 ≡ 0 =
        ap (λ (m : ℕ). get_or (set lines (j / 64) 1) m 0) same ∙ z in
      absurd (omega arith)
  | inr e ↦
      let ne : j / 64 ≢ k / 64 = λ same. ground arith in
      let other : j ≢ k = λ same. ne (ap (λ (m : ℕ). m / 64) same) in
      away k other ∙ h k (sym (get_or-set_ne lines 1 0 ne) ∙ z)
]

-- The bit at `k` after the bit at `i` is set.
at_index :
    (words words' : List ℕ) (i k : ℕ)
    → ((m : ℕ) → i / 64 ≢ m → get_or words' m 0 ≡ get_or words m 0)
    → ((c : ℕ)
        → has_bit (get_or words' (i / 64) 0) c
          ≡ (if i % 64 == c then true else has_bit (get_or words (i / 64) 0) c))
    → has_bit (get_or words' (k / 64) 0) (k % 64)
      ≡ (if k == i then true else has_bit (get_or words (k / 64) 0) (k % 64))
at_index words words' i k away here = elim (Bool-cases ((i / 64) == (k / 64))) [
  | inl e ↦
      let same : i / 64 ≡ k / 64 = (==_iff (i / 64) (k / 64)).0 e in
      let q : (i % 64 == k % 64) ≡ (k == i) = ground arith in
      ap (λ m. has_bit (get_or words' m 0) (k % 64)) (sym same)
      ∙ here (k % 64)
      ∙ ap (λ m. if i % 64 == k % 64 then true else has_bit (get_or words m 0) (k % 64)) same
      ∙ ap (λ (f : Bool). if f then true else has_bit (get_or words (k / 64) 0) (k % 64)) q
  | inr e ↦
      let other : i / 64 ≢ k / 64 = λ same. ground arith in
      let q : false ≡ (k == i) = ground arith in
      ap (λ w. has_bit w (k % 64)) (away (k / 64) other)
      ∙ ap (λ (f : Bool). if f then true else has_bit (get_or words (k / 64) 0) (k % 64)) q
]

set_bit_lem :
    (size idx : ℕ) (s : BitSet)
    → IsBitSet size s
    → (t : BitSet) × (set_bit size idx s ≡ done t)
      × IsBitSet size t
      × ((j : ℕ) → get_bit size j t ≡ (if j % size == idx % size then true else get_bit size j s))
unfolding set_bit set_byte get_bit
set_bit_lem size idx s h =
    let i = idx % size in
    let inside : i < size = omega (arith, h.positive) in
    let line = i / 64 / 64 in
    let in_lines : leb (size / 64 / 64) line ≡ false = ground (arith, h.multiple) in
    let (len, words, away, here) =
      or_mask_lem (i / 64) (i % 64) s.words h.words (omega (arith, h.num_words, h.multiple))
        (omega arith) in
    (
      record { lines = set s.lines line 1; words = or_mask (i / 64) (i % 64) s.words },
      rw (in_lines) refl,
      record {
        multiple = h.multiple;
        positive = h.positive;
        num_lines = length-set s.lines line 1 ∙ h.num_lines;
        num_words = len ∙ h.num_words;
        bytes = All-set s.lines line 1 h.bytes (omega arith);
        words = words;
        layered = λ k z.
            marked s.lines s.words (or_mask (i / 64) (i % 64) s.words) (i / 64) h.layered
              (omega (arith, h.num_lines, h.multiple)) away k z;
      },
      λ j. at_index s.words (or_mask (i / 64) (i % 64) s.words) i (j % size) away here,
    )

for_each_lem :
    (size : ℕ) (s : BitSet)
    → IsBitSet size s
    → for_each_nonzero_bit size s ≡ done (all_bits 0 s.words, clear_bits size)
unfolding for_each_nonzero_bit clear_bits clear_set
for_each_lem size s h =
    let lines = all_lem (size / 64 / 64) s.lines (omega (arith, h.multiple)) h.num_lines h.bytes in
    let words : line_calls (nonzero_bytes 0 s.lines) s.words
        ≡ done (all_bits 0 s.words, replicate (length s.words) 0) =
      line_calls_lem 0 s.lines [] s.words refl (omega (arith, h.num_lines, h.num_words, h.multiple))
        h.words h.layered in
    rw (lines, words, h.num_words) refl

pub clear_bits-IsBitSet :
    (size : ℕ) → size % 262144 ≡ 0 → 0 < size → IsBitSet size (clear_bits size)
unfolding clear_bits clear_set
clear_bits-IsBitSet size m p = record {
  multiple = m;
  positive = p;
  num_lines = length-replicate (size / 64 / 64) 0;
  num_words = length-replicate (size / 64) 0;
  bytes = zeros-IsByte (size / 64 / 64);
  words = zeros-IsWord (size / 64);
  layered = λ k z. get_or-zeros (size / 64) k;
}
  where
    zeros-IsWord : (n : ℕ) → All IsWord (replicate n 0)
    zeros-IsWord zero = tt
    zeros-IsWord (suc n) = (omega arith, zeros-IsWord n)

found :
    (size j : ℕ) (s : BitSet)
    → IsBitSet size s
    → j < size
    → is_in j (all_bits 0 s.words) ≡ get_bit size j s
unfolding get_bit
found size j s h l =
    let same : j ≡ j % size = sym (mod-eq_of_lt l) in
    is_in-all_bits 0 s.words j j (omega arith) (omega (arith, h.num_words, h.multiple))
    ∙ ap (λ k. has_bit (get_or s.words (k / 64) 0) (k % 64)) same

-- A bit set of a positive size that is a multiple of 2 ^ 18, sound as after clear(): set() leaves a
-- sound set that has the bit at `idx % size` and no other bit that it had not. ForEachNonZeroBit
-- ends, calls back for the bits of the words that are set, in order, which are the indices that
-- get() finds, and leaves a cleared set.
pub bit_set_lem :
    (size : ℕ) (s : BitSet)
    → IsBitSet size s
    → ((idx : ℕ)
        → (t : BitSet) × (set_bit size idx s ≡ done t)
          × IsBitSet size t
          × ((j : ℕ)
              → get_bit size j t ≡ (if j % size == idx % size then true else get_bit size j s)))
      × (for_each_nonzero_bit size s ≡ done (all_bits 0 s.words, clear_bits size))
      × ((j : ℕ) → j < size → is_in j (all_bits 0 s.words) ≡ get_bit size j s)
      × IsBitSet size (clear_bits size)
bit_set_lem size s h = (
  λ idx. set_bit_lem size idx s h,
  for_each_lem size s h,
  λ j l. found size j s h l,
  clear_bits-IsBitSet size h.multiple h.positive,
)
