-- ===== src/ConcurrentBitSet/Examples.antt =====
-- The theorem on bit sets at a concrete input.
use fuzztest.Common.{ℕ, ◌%◌, ◌<◌, ◌≡◌, refl, true, [], ◌∷◌, ◌==◌, if◌then◌else◌, arith}
use fuzztest.Common.Abort.{done}
use fuzztest.Common.Maps.{is_in}
use fuzztest.ConcurrentBitSet.{
  BitSet, clear_bits, set_bit, get_bit, word_bits, count_trailing_zeros, for_each_nonzero_bit,
}
use fuzztest.ConcurrentBitSet.Lines.{all_bits}
use fuzztest.ConcurrentBitSet.Bits.{IsBitSet, clear_bits-IsBitSet, bit_set_lem}

-- A test: the bits of 1 + 2 ^ 5 + 2 ^ 63.
some_bits : word_bits 65 128 9223372036854775841 ≡ done (128 ∷ 133 ∷ 191 ∷ [])
unfolding word_bits count_trailing_zeros
some_bits = refl

abbrev num_bits : ℕ
num_bits = 262144

abbrev cleared : BitSet
cleared = clear_bits num_bits

bit_set_lem_example :
    ((idx : ℕ)
      → (t : BitSet) × (set_bit num_bits idx cleared ≡ done t)
        × IsBitSet num_bits t
        × ((j : ℕ)
            → get_bit num_bits j t
              ≡ (if j % num_bits == idx % num_bits then true else get_bit num_bits j cleared)))
    × (for_each_nonzero_bit num_bits cleared ≡ done (all_bits 0 cleared.words, clear_bits num_bits))
    × ((j : ℕ) → j < num_bits → is_in j (all_bits 0 cleared.words) ≡ get_bit num_bits j cleared)
    × IsBitSet num_bits (clear_bits num_bits)
bit_set_lem_example = bit_set_lem num_bits cleared (clear_bits-IsBitSet num_bits refl (omega arith))
