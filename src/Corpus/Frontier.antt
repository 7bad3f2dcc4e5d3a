-- ===== src/Corpus/Frontier.antt =====
-- centipede/corpus.{h,cc}: what Corpus asks of a CoverageFrontier, and ComputeFrontierWeight.
use fuzztest.Common.{ℕ, Bool, false, not, List, [], ◌∷◌, ltb, leb, ◌==◌, if◌then◌else◌, get_or}
use fuzztest.Common.Abort.{Outcome, done, ◌>>=◌, ◌>>◌, check}
use fuzztest.Common.Bytes.{add64}
use fuzztest.Feature.{pcs, contains, convert_pc_feature_to_pc_index}

-- `num_pcs` is the size of the PC table of the binary.
pub record CoverageFrontier : Type 0 where
  pub num_pcs : ℕ
  pub frontier : List Bool
  pub frontier_weight : List ℕ
  pub num_functions_in_frontier : ℕ

abbrev pub max_pc_index : CoverageFrontier → ℕ
max_pc_index f = f.num_pcs

unfoldable pub pc_index_is_frontier : CoverageFrontier → ℕ → Outcome Bool
pc_index_is_frontier f idx = check (ltb idx (max_pc_index f)) >> done (get_or f.frontier idx false)

unfoldable pub frontier_weight_of : CoverageFrontier → ℕ → Outcome ℕ
frontier_weight_of f idx = check (ltb idx (max_pc_index f)) >> done (get_or f.frontier_weight idx 0)

-- The loop of ComputeFrontierWeight.
unfoldable pub frontier_weights_sum : CoverageFrontier → List ℕ → ℕ → Outcome ℕ
frontier_weights_sum f [] sum = done sum
frontier_weights_sum f (feature ∷ fv) sum =
    let skip = frontier_weights_sum f fv sum in
    if not (contains pcs feature)
    then skip
    else (convert_pc_feature_to_pc_index feature >>= λ pc_index.
        if leb (max_pc_index f) pc_index
        then skip
        else (pc_index_is_frontier f pc_index >>= λ is_frontier.
            if is_frontier
            then (frontier_weight_of f pc_index >>= λ w. frontier_weights_sum f fv (add64 sum w))
            else skip))

unfoldable pub compute_frontier_weight : List ℕ → CoverageFrontier → Outcome ℕ
compute_frontier_weight fv f =
    if max_pc_index f == 0
    then done 1
    else (frontier_weights_sum f fv 0 >>= λ sum. done (add64 sum 1))
