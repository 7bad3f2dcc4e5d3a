-- ===== src/Knobs/Examples.antt =====
-- The theorem on the choice of mutators at a concrete input.
use fuzztest.Common.{
  ℕ, ◌+◌, ◌%◌, ◌<◌, ◌≤◌, ◌≡◌, ◌⊎◌, refl, List, [], ◌∷◌, arith, replicate, take, get_or,
}
use fuzztest.Common.Abort.{done}
use fuzztest.Knobs.{Knobs, element, choose}
use fuzztest.Knobs.Choice.{weight_of, choose_lem}

abbrev knobs : Knobs
knobs = record { knobs = 0 ∷ 5 ∷ 0 ∷ 9 ∷ replicate 28 1 }

abbrev ids : List ℕ
ids = 1 ∷ 2 ∷ 3 ∷ []

abbrev names : List ℕ
names = 70 ∷ 80 ∷ 90 ∷ []

choose_lem_example :
    (i : ℕ) × (choice : ℕ) × (choose knobs ids names 20 ≡ done choice)
    × (element names i ≡ done choice)
    × (((weight_of knobs ids ≡ 0) × (i ≡ 20 % 3))
        ⊎ ((weight_of knobs (take i ids) ≤ 20 % weight_of knobs ids)
            × (20 % weight_of knobs ids
                < weight_of knobs (take i ids) + get_or knobs.knobs (get_or ids i 0) 0)))
choose_lem_example =
    choose_lem knobs ids names 20 (omega arith, (omega arith, (omega arith, tt))) refl (omega arith)
