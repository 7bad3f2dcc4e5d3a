-- ===== src/RunnerResult/Tags.antt =====
-- The tags of blobs, `enum Tags` of centipede/runner_result.cc.
use Prim.Native.Nat.{ℕ}

abbrev pub invalid : ℕ
invalid = 0

abbrev pub features : ℕ
features = 1

abbrev pub dispatcher_32bit_features : ℕ
dispatcher_32bit_features = 2

abbrev pub input_begin : ℕ
input_begin = 3

abbrev pub input_end : ℕ
input_end = 4

abbrev pub stats : ℕ
stats = 5

abbrev pub metadata : ℕ
metadata = 6

abbrev pub has_custom_mutator : ℕ
has_custom_mutator = 7

abbrev pub mutant_origin : ℕ
mutant_origin = 8

abbrev pub mutant : ℕ
mutant = 9
