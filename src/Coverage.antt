-- ===== src/Coverage.antt =====
-- centipede/coverage.{h,cc}: the class Coverage, IteratePcTableFunctions and ComputeFrontierWeight
-- of the callees of a block.
pub mod Functions
pub mod Blocks
pub mod Construction
pub mod Iteration
mod Examples
use fuzztest.Common.{
  ℕ, zero, suc, ◌+◌, ◌-◌, ◌*◌, ◌%◌, ◌^◌, Bool, true, false, not, ◌&&◌, List, [], ◌∷◌, ◌++◌, length,
  set, get_or, replicate, drop, ltb, ◌==◌, if◌then◌else◌,
}
use fuzztest.Common.Abort.{Outcome, aborted, done, ◌>>=◌, ◌>>◌, check}
use fuzztest.Common.Maps.{is_in}
use fuzztest.ControlFlow.{
  PcInfo, PcTable, has_func_entry_flag, ControlFlowGraph, is_in_pc_table, get_pc_index,
  get_cyclomatic_complexity, block_is_function_entry,
}

pub record PartiallyCoveredFunction : Type 0 where
  pub covered : List ℕ
  pub uncovered : List ℕ

pub record Coverage : Type 0 where
  pub func_entries : List Bool
  pub fully_covered_funcs : List ℕ
  pub fully_covered_funcs_vec : List Bool
  pub covered_pcs_vec : List Bool
  pub uncovered_funcs : List ℕ
  pub partially_covered_funcs : List PartiallyCoveredFunction

-- The search for the next entry, from the block behind an entry: the number of blocks before it.
unfoldable pub body_size : PcTable → ℕ
body_size [] = 0
body_size (info ∷ pc_table) = if has_func_entry_flag info then 0 else suc (body_size pc_table)

-- The loop over the `n` blocks of a function from `i` on: the function's covered and uncovered
-- indices, and covered_pcs_vec.
unfoldable pub collect :
    ℕ → ℕ → List ℕ → PartiallyCoveredFunction → List Bool → PartiallyCoveredFunction × List Bool
collect zero i covered_pcs pcf vec = (pcf, vec)
collect (suc n) i covered_pcs pcf vec =
    if is_in i covered_pcs
    then collect n (i + 1) covered_pcs (record pcf { covered = pcf.covered ++ (i ∷ []) })
        (set vec i true)
    else collect n (i + 1) covered_pcs (record pcf { uncovered = pcf.uncovered ++ (i ∷ []) }) vec

-- The function `this_func` of `num_func_pcs` blocks into one of the three lists.
unfoldable pub put_function : ℕ → ℕ → PartiallyCoveredFunction → Coverage → Outcome Coverage
put_function this_func num_func_pcs pcf c =
    if num_func_pcs == length pcf.covered
    then done (record c {
      fully_covered_funcs = c.fully_covered_funcs ++ (this_func ∷ []);
      fully_covered_funcs_vec = set c.fully_covered_funcs_vec this_func true;
    })
    else if length pcf.covered == 0
    then done (record c { uncovered_funcs = c.uncovered_funcs ++ (this_func ∷ []) })
    else check (not (length pcf.covered == 0))
      >> (check (not (length pcf.uncovered == 0))
          >> (check (length pcf.covered + length pcf.uncovered == num_func_pcs)
              >> done
                  (record c { partially_covered_funcs = c.partially_covered_funcs ++ (pcf ∷ []) })))

-- The round for the function whose entry is at `this_func` and has `n` blocks behind it.
unfoldable pub cover_function : ℕ → ℕ → List ℕ → Coverage → Outcome Coverage
cover_function this_func n covered_pcs c =
    let (pcf, vec) =
      collect (suc n) this_func covered_pcs (record { covered = []; uncovered = [] })
        c.covered_pcs_vec in
    put_function this_func (suc n) pcf
      (record c { func_entries = set c.func_entries this_func true; covered_pcs_vec = vec })

-- The loop over the functions, `pc_table` being what is left from `this_func` on.
unfoldable pub coverage_loop : ℕ → ℕ → PcTable → List ℕ → Coverage → Outcome Coverage
coverage_loop zero this_func pc_table covered_pcs c = aborted
coverage_loop (suc fuel) this_func [] covered_pcs c = done c
coverage_loop (suc fuel) this_func (info ∷ pc_table) covered_pcs c =
    check (has_func_entry_flag info)
    >> (cover_function this_func (body_size pc_table) covered_pcs c >>= λ c'.
        coverage_loop fuel (this_func + suc (body_size pc_table))
          (drop (body_size pc_table) pc_table) covered_pcs c')

unfoldable pub coverage : PcTable → List ℕ → Outcome Coverage
coverage pc_table pci_vec =
    check (ltb (length pc_table) (2 ^ 32 - 1))
    >> coverage_loop (suc (length pc_table)) 0 pc_table pci_vec (record {
      func_entries = replicate (length pc_table) false;
      fully_covered_funcs = [];
      fully_covered_funcs_vec = replicate (length pc_table) false;
      covered_pcs_vec = replicate (length pc_table) false;
      uncovered_funcs = [];
      partially_covered_funcs = [];
    })

-- Reads past the end of a vector are undefined.
unfoldable pub flag_at : List Bool → ℕ → Outcome Bool
flag_at flags i = check (ltb i (length flags)) >> done (get_or flags i false)

unfoldable pub function_is_fully_covered : Coverage → ℕ → Outcome Bool
function_is_fully_covered c pc_index = flag_at c.func_entries pc_index >>= λ is_entry.
    check is_entry >> flag_at c.fully_covered_funcs_vec pc_index

unfoldable pub block_is_covered : Coverage → ℕ → Outcome Bool
block_is_covered c pc_index = flag_at c.covered_pcs_vec pc_index

-- The pairs {beg, end} that IteratePcTableFunctions calls back with. A table that does not begin
-- with a function entry keeps the loop at `beg`.
unfoldable pub functions_loop : ℕ → ℕ → PcTable → Outcome (List (ℕ × ℕ))
functions_loop zero beg pc_table = aborted
functions_loop (suc fuel) beg [] = done []
functions_loop (suc fuel) beg (info ∷ pc_table) =
    let end = beg + suc (body_size pc_table) in
    if has_func_entry_flag info
    then (functions_loop fuel end (drop (body_size pc_table) pc_table) >>= λ calls.
        done ((beg, end) ∷ calls))
    else functions_loop fuel beg (info ∷ pc_table)

unfoldable pub iterate_pc_table_functions : PcTable → Outcome (List (ℕ × ℕ))
iterate_pc_table_functions pc_table = functions_loop (suc (length pc_table)) 0 pc_table

abbrev pub uncovered_knob : ℕ
uncovered_knob = 153

abbrev pub partially_covered_knob : ℕ
partially_covered_knob = 77

abbrev pub fully_covered_knob : ℕ
fully_covered_knob = 25

unfoldable pub select_multiplier_by_coverage_kind : ℕ → Coverage → Outcome ℕ
select_multiplier_by_coverage_kind callee_idx c =
    function_is_fully_covered c callee_idx >>= λ is_fully_covered.
    if is_fully_covered
    then done fully_covered_knob
    else (block_is_covered c callee_idx >>= λ is_covered.
        done (if is_covered then partially_covered_knob else uncovered_knob))

-- What one callee weighs.
unfoldable pub callee_weight : Coverage → ControlFlowGraph → ℕ → Outcome ℕ
callee_weight c cfg callee =
    if callee == 2 ^ 64 - 1
    then done uncovered_knob
    else if not (is_in_pc_table cfg callee)
    then done 0
    else (get_cyclomatic_complexity cfg callee >>= λ cyclomatic_comp.
        get_pc_index cfg callee >>= λ callee_idx.
        check (block_is_function_entry cfg callee_idx)
        >> (select_multiplier_by_coverage_kind callee_idx c >>= λ coverage_multiplier.
            done (coverage_multiplier * cyclomatic_comp)))

-- The loop over the callees, in uint32_t.
unfoldable pub callees_weight : Coverage → ControlFlowGraph → List ℕ → ℕ → Outcome ℕ
callees_weight c cfg [] weight = done weight
callees_weight c cfg (callee ∷ callees) weight =
    callee_weight c cfg callee >>= λ w. callees_weight c cfg callees ((weight + w) % 2 ^ 32)

abbrev pub frontier_weight_of_callees : Coverage → ControlFlowGraph → List ℕ → Outcome ℕ
frontier_weight_of_callees c cfg callees = callees_weight c cfg callees 0
