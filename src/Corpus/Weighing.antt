-- ===== src/Corpus/Weighing.antt =====
-- UpdateWeights on a sound corpus.
use fuzztest.Common.{ℕ, ◌≡◌, false}
use fuzztest.FeatureSet.{FeatureSet}
use fuzztest.WeightedDistribution.{WeightedDistribution}
use fuzztest.Corpus.{Corpus}
use fuzztest.Corpus.Weights.{Doubles}

-- What is documented of doubles and used here: integers and literals are not below zero, and neither
-- are their products.
unfoldable pub AreNonnegative : (doubles : Doubles) → (doubles.Double → Type 0) → Type 0
AreNonnegative doubles P =
    ((n : ℕ) → P (doubles.of_nat n))
    × ((n d : ℕ) → P (doubles.quotient n d))
    × ((x y : doubles.Double) → P x → P y → P (doubles.times x y))
    × ((x : doubles.Double) → P x → doubles.less x (doubles.of_nat 0) ≡ false)
