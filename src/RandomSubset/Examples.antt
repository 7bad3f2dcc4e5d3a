-- ===== src/RandomSubset/Examples.antt =====
-- The theorem on the chosen subset at a concrete input.
use fuzztest.Common.{ℕ, ◌*◌, ◌%◌, ◌<◌, ◌≡◌, refl, List, [], ◌∷◌, length, min, All}
use fuzztest.WeightedDistribution.{remove_subset}
use fuzztest.RandomSubset.{random_weighted_subset}
use fuzztest.RandomSubset.Removal.{IsIncreasing, IsBelow, num_nonzero}
use fuzztest.RandomSubset.Chosen.{random_weighted_subset_lem}

abbrev keys : ℕ → ℕ → ℕ
keys i w = i * w % 11

abbrev weights : List ℕ
weights = 4 ∷ 0 ∷ 9 ∷ 3 ∷ 0 ∷ 8 ∷ []

abbrev names : List ℕ
names = 10 ∷ 11 ∷ 12 ∷ 13 ∷ 14 ∷ 15 ∷ []

random_weighted_subset_lem_example :
    IsIncreasing 0 (random_weighted_subset keys weights 2)
    × IsBelow 6 (random_weighted_subset keys weights 2)
    × (length (remove_subset 0 (random_weighted_subset keys weights 2) names)
        ≡ min 2 (num_nonzero weights))
    × All (λ w. 0 < w) (remove_subset 0 (random_weighted_subset keys weights 2) weights)
random_weighted_subset_lem_example = random_weighted_subset_lem keys weights 2 names refl
