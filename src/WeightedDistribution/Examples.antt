-- ===== src/WeightedDistribution/Examples.antt =====
-- The theorems on weighted distributions at concrete inputs.
use fuzztest.Common.{ℕ, ◌-◌, true, [], ◌∷◌}
use fuzztest.WeightedDistribution.{WeightedDistribution}

abbrev three : WeightedDistribution
three = record {
  weights = 5 ∷ 0 ∷ 7 ∷ [];
  cumulative_weights = 5 ∷ 5 ∷ 12 ∷ [];
  cumulative_weights_valid = true;
}

-- A source of numbers that gives the greatest below the bound.
abbrev greatest : ℕ → ℕ
greatest n = n - 1
