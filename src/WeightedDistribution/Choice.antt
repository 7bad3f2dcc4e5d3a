-- ===== src/WeightedDistribution/Choice.antt =====
-- The draw of RandomIndex and the weights.
use fuzztest.Common.{ℕ, ◌+◌, ◌<◌, ◌≤◌, List, [], ◌∷◌, length, get_or, take}
use fuzztest.WeightedDistribution.{WeightedDistribution}

unfoldable pub sum : List ℕ → ℕ
sum [] = 0
sum (w ∷ ws) = w + sum ws

-- The index found for `r` is the one whose weight covers `r`.
Covers : List ℕ → ℕ → ℕ → ℕ → Type 0
Covers ws p r k =
    (k < length ws) × (p + sum (take k ws) ≤ r) × (r < p + sum (take k ws) + get_or ws k 0)
