-- ===== src/RollingHash.antt =====
-- centipede/rolling_hash.h, for hashed_ring_buffer.h and callstack.h: the hash of the last items of a
-- sequence, kept as the sequence grows. Hashes have 32 bits, items 64.
pub mod Windows
pub mod RingBuffer
pub mod CallStack
mod Examples
use fuzztest.Common.{ℕ, zero, suc, ◌+◌, ◌-◌, ◌*◌, ◌%◌, ◌^◌}

abbrev pub multiplier : ℕ
multiplier = 2 ^ 32 - 267

pub record RollingHash : Type 0 where
  pub value : ℕ
  pub multiplier_power_window_size : ℕ

-- The loop of Reset.
unfoldable pub multiply : ℕ → ℕ → ℕ
multiply zero power = power
multiply (suc n) power = multiply n (power * multiplier % 2 ^ 64)

unfoldable pub reset_hash : ℕ → RollingHash
reset_hash window_size = record { value = 0; multiplier_power_window_size = multiply window_size 1 }

-- Update of a hash; the arguments are cut to 32 bits, the arithmetic is on 64 bits.
unfoldable pub updated : RollingHash → ℕ → ℕ → ℕ → ℕ
updated r hash item removed =
    let product = (removed % 2 ^ 32) * r.multiplier_power_window_size % 2 ^ 64 in
    (hash * multiplier + (2 ^ 64 - product) + item % 2 ^ 32) % 2 ^ 64 % 2 ^ 32

unfoldable pub update_hash : RollingHash → ℕ → ℕ → RollingHash
update_hash r item removed = record r { value = updated r r.value item removed }

-- TestOnlyUpdate
unfoldable pub test_only_update : ℕ → ℕ → ℕ
test_only_update hash item = (hash * multiplier + item % 2 ^ 32) % 2 ^ 32
