-- ===== src/Feature.antt =====
-- centipede/feature.h: features are 64-bit numbers, split into domains of 2 ^ 27 numbers each.
-- `feature & kCMPScoreBitmask` is the rest modulo 2 ^ 6, the mask having its six low bits set.
pub mod Domains
pub mod Hamming
pub mod Scores
mod Examples
use Prim.Native.Nat.{bit_xor}
use fuzztest.Common.{
  ℕ, zero, suc, ◌+◌, ◌-◌, ◌*◌, ◌/◌, ◌%◌, ◌^◌, ◌<◌, Bool, true, false, ◌&&◌, List, [], ◌∷◌, ltb, leb,
  ◌==◌, if◌then◌else◌, length, map,
}
use fuzztest.Common.Abort.{Outcome, aborted, done}

-- A domain is known by its id.
pub record Domain : Type 0 where
  pub domain_id : ℕ

abbrev pub domain_size : ℕ
domain_size = 2 ^ 27

abbrev pub begin : Domain → ℕ
begin d = domain_size * d.domain_id

abbrev pub end : Domain → ℕ
end d = begin d + domain_size

unfoldable pub contains : Domain → ℕ → Bool
contains d feature = leb (begin d) feature && ltb feature (end d)

unfoldable pub convert_to_me : Domain → ℕ → ℕ
convert_to_me d number = begin d + number % domain_size

abbrev pub feature_to_domain_id : ℕ → ℕ
feature_to_domain_id feature = feature / domain_size

abbrev pub feature_to_index_in_domain : ℕ → ℕ
feature_to_index_in_domain feature = feature % domain_size

-- The ids are those that `__COUNTER__` gives from the top of the file on.
abbrev pub unknown : Domain
unknown = record { domain_id = 0 }

abbrev pub pcs : Domain
pcs = record { domain_id = 1 }

abbrev pub counters_8bit : Domain
counters_8bit = record { domain_id = 2 }

abbrev pub data_flow : Domain
data_flow = record { domain_id = 3 }

abbrev pub cmp : Domain
cmp = record { domain_id = 4 }

abbrev pub cmp_eq : Domain
cmp_eq = record { domain_id = 5 }

abbrev pub cmp_mod_diff : Domain
cmp_mod_diff = record { domain_id = 6 }

abbrev pub cmp_hamming : Domain
cmp_hamming = record { domain_id = 7 }

abbrev pub cmp_diff_log : Domain
cmp_diff_log = record { domain_id = 8 }

abbrev pub cmp_score_bits : ℕ
cmp_score_bits = 6

abbrev pub cmp_score : ℕ → ℕ
cmp_score feature = feature % 2 ^ cmp_score_bits

-- feature &= ~kCMPScoreBitmask
abbrev pub without_score : ℕ → ℕ
without_score feature = feature - cmp_score feature

abbrev pub cmp_score_feature_index : ℕ → ℕ
cmp_score_feature_index feature = (feature - begin cmp_mod_diff) / 2 ^ cmp_score_bits

abbrev pub is_comparison_score_feature : ℕ → Bool
is_comparison_score_feature feature =
    leb (begin cmp_mod_diff) feature && ltb feature (end cmp_diff_log)

abbrev pub call_stack : Domain
call_stack = record { domain_id = 9 }

abbrev pub bounded_path : Domain
bounded_path = record { domain_id = 10 }

abbrev pub pc_pair : Domain
pc_pair = record { domain_id = 11 }

-- kUserDomains[i], for i below 16.
abbrev pub user_domain : ℕ → Domain
user_domain i = record { domain_id = 12 + i }

abbrev pub last_domain : Domain
last_domain = record { domain_id = 28 }

abbrev pub num_domains : ℕ
num_domains = last_domain.domain_id

-- `__builtin_clz` and `__builtin_clzll` of a number of `w` bits.
unfoldable pub count_leading_zeros : ℕ → ℕ → ℕ
count_leading_zeros zero v = 0
count_leading_zeros (suc w) v =
    let rest = count_leading_zeros w v in if v / 2 ^ w == 0 then suc rest else 0

unfoldable pub pop_count : ℕ → ℕ → ℕ
pop_count zero v = 0
pop_count (suc w) v = v % 2 + pop_count w (v / 2)

pub convert_8bit_counter_to_number : ℕ → ℕ → Outcome ℕ
convert_8bit_counter_to_number pc_index counter_value =
    if counter_value == 0
    then aborted
    else done ((pc_index * 8 % 2 ^ 64 + (32 - 1 - count_leading_zeros 32 counter_value)) % 2 ^ 64)

unfoldable pub convert_pc_feature_to_pc_index : ℕ → Outcome ℕ
convert_pc_feature_to_pc_index feature =
    if contains pcs feature then done (feature - begin pcs) else aborted

pub convert_pc_pair_to_number : ℕ → ℕ → ℕ → ℕ
convert_pc_pair_to_number pc1 pc2 max_pc = (pc1 * max_pc % 2 ^ 64 + pc2) % 2 ^ 64

abbrev pub abs_diff : ℕ → ℕ → ℕ
abs_diff a b = if ltb b a then a - b else b - a

pub ab_to_cmp_mod_diff : ℕ → ℕ → ℕ
ab_to_cmp_mod_diff a b = if ltb (abs_diff a b) 64 then 64 - abs_diff a b else 0

pub ab_to_cmp_hamming : ℕ → ℕ → ℕ
ab_to_cmp_hamming a b = 64 - pop_count 64 (bit_xor a b)

pub ab_to_cmp_diff_log : ℕ → ℕ → ℕ
ab_to_cmp_diff_log a b = count_leading_zeros 64 (abs_diff a b)
