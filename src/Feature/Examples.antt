-- ===== src/Feature/Examples.antt =====
-- The theorems on features at concrete inputs.
use fuzztest.Common.{◌-◌, ◌<◌, ◌≤◌, ◌≡◌, arith}
use fuzztest.Feature.{ab_to_cmp_mod_diff, ab_to_cmp_diff_log, ab_to_cmp_hamming}
use fuzztest.Feature.Hamming.{distance}
use fuzztest.Feature.Scores.{ab_to_cmp_scores}

ab_to_cmp_scores_example :
    (ab_to_cmp_mod_diff 10 7 < 64)
    × (ab_to_cmp_diff_log 10 7 < 64)
    × (ab_to_cmp_hamming 10 7 < 64)
    × (ab_to_cmp_mod_diff 1 5 ≤ ab_to_cmp_mod_diff 10 7)
    × (ab_to_cmp_diff_log 1 5 ≤ ab_to_cmp_diff_log 10 7)
    × (ab_to_cmp_hamming 10 7 ≡ 64 - distance 64 10 7)
    × (distance 64 10 7 ≤ distance 64 1 5 → ab_to_cmp_hamming 1 5 ≤ ab_to_cmp_hamming 10 7)
ab_to_cmp_scores_example =
    ab_to_cmp_scores 10 7 1 5 (omega arith) (omega arith) (λ e. omega arith) (omega arith)
