-- ===== src/RandomSubset.antt =====
-- centipede/util.cc: RandomWeightedSubset, which chooses the elements of a corpus to remove.
-- `key i w` stands for the number pow(unif(rng), 1 / w) that is drawn for the element `i`; such
-- numbers, which are not negative, are ordered as their bits are, so they are natural numbers here.
pub mod Removal
pub mod Chosen
mod Examples
use fuzztest.Common.{
  ℕ, zero, suc, ◌+◌, ◌-◌, Bool, true, false, not, List, [], ◌∷◌, ◌++◌, ltb, leb, ◌==◌,
  if◌then◌else◌, length, map,
}

pub record IndexAndWeight : Type 0 where
  pub index : ℕ
  pub weight : ℕ

-- The indices of all zeros, from the index `i` on.
unfoldable pub zero_indices : ℕ → List ℕ → List ℕ
zero_indices i [] = []
zero_indices i (w ∷ ws) = let rest = zero_indices (suc i) ws in if w == 0 then i ∷ rest else rest

-- std::priority_queue, as a list in descending order; its head is its top.
unfoldable pub push : IndexAndWeight → List IndexAndWeight → List IndexAndWeight
push iw [] = iw ∷ []
push iw (top ∷ queue) =
    let later = top ∷ push iw queue in if ltb iw.weight top.weight then later else iw ∷ top ∷ queue

-- A full queue takes the element in place of its top, if the element is smaller.
unfoldable pub swap_top : IndexAndWeight → List IndexAndWeight → List IndexAndWeight
swap_top iw [] = []
swap_top iw (top ∷ queue) = if ltb iw.weight top.weight then push iw queue else top ∷ queue

module _ (key : ℕ → ℕ → ℕ) where
  -- The loop over the set, from the index `i` on.
  unfoldable pub subset_loop : ℕ → ℕ → List ℕ → List IndexAndWeight → List IndexAndWeight
  subset_loop to_remove i [] queue = queue
  subset_loop to_remove i (w ∷ ws) queue =
      let iw : IndexAndWeight = record { index = i; weight = key i w } in
      let queue' = if ltb (length queue) to_remove then push iw queue else swap_top iw queue in
      subset_loop to_remove (suc i) ws (if w == 0 then queue else queue')

-- std::sort
unfoldable pub insert_index : ℕ → List ℕ → List ℕ
insert_index n [] = n ∷ []
insert_index n (m ∷ ms) = let later = m ∷ insert_index n ms in if ltb m n then later else n ∷ m ∷ ms

unfoldable pub sort_indices : List ℕ → List ℕ
sort_indices [] = []
sort_indices (n ∷ ns) = insert_index n (sort_indices ns)

abbrev pub indices_of : List IndexAndWeight → List ℕ
indices_of = map (λ iw. iw.index)

unfoldable pub random_weighted_subset : (ℕ → ℕ → ℕ) → List ℕ → ℕ → List ℕ
random_weighted_subset key set target_size =
    let res = zero_indices 0 set in
    let to_remove = length set - length res - target_size in
    if leb (length set - length res) target_size
    then res
    else sort_indices (res ++ indices_of (subset_loop key to_remove 0 set []))
