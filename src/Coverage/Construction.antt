-- ===== src/Coverage/Construction.antt =====
-- The constructor of Coverage of centipede/coverage.cc: what is covered, function by function.
use fuzztest.Common.{
  ℕ, zero, suc, ◌+◌, ◌-◌, ◌^◌, ◌≤◌, ◌<◌, ◌≡◌, ◌∙◌, subst, refl, inl, true, false, List, [], ◌∷◌,
  length, get_or, replicate, length-replicate, drop, length-drop, ltb, arith,
}
use fuzztest.Common.Abort.{done}
use fuzztest.ControlFlow.{PcTable}
use fuzztest.Coverage.{Coverage, body_size, coverage_loop, coverage}
use fuzztest.Coverage.Functions.{
  body_size-le, BeginsFunction, drop-BeginsFunction, cover_function_lem,
}
use fuzztest.Coverage.Blocks.{
  IsFresh, IsSameBelow, IsCoveredAt, entries_away, fully_away, pcs_away, after-IsFresh, after_all,
}

coverage_loop_lem :
    (fuel n i : ℕ) (pc_table : PcTable) (ps : List ℕ) (c : Coverage)
    → length pc_table < fuel
    → i + length pc_table ≡ n
    → BeginsFunction pc_table
    → IsFresh n i c
    → (c' : Coverage) × (coverage_loop fuel i pc_table ps c ≡ done c')
      × IsFresh n n c'
      × IsSameBelow i c c'
      × ((k j : ℕ) → i + k ≡ j → k < length pc_table → IsCoveredAt c' ps j (drop k pc_table))
unfolding coverage_loop
coverage_loop_lem zero n i pc_table ps c l e f h = absurd (omega arith)
coverage_loop_lem (suc fuel) n i [] ps c l e f h = (
  c,
  refl,
  (let at : i ≡ n = omega arith in subst (λ k. IsFresh n k c) at h),
  record { entry = λ j b. refl; fully = λ j b. refl; pc = λ j b. refl },
  λ k j at b. absurd (omega arith),
)
coverage_loop_lem (suc fuel) n i (info ∷ pc_table) ps c l e f h =
    let m = body_size pc_table in
    let (c1, eq, entries, pcs, fully) =
      cover_function_lem i m ps c (omega (arith, h.entries, body_size-le pc_table))
        (omega (arith, h.pcs, body_size-le pc_table)) in
    let b : i + suc m ≤ n = omega (arith, body_size-le pc_table) in
    let (c', loop, fresh, same, at) =
      coverage_loop_lem fuel n (i + suc m) (drop m pc_table) ps c1
        (omega (arith, length-drop m pc_table))
        (omega (arith, length-drop m pc_table, body_size-le pc_table))
        (drop-BeginsFunction pc_table) (after-IsFresh n i m ps c c1 h b entries pcs fully) in
    (
      c',
      rw (f, eq, loop) refl,
      fresh,
      record {
        entry = λ j q.
            same.entry j (omega arith)
            ∙ entries_away n i m ps c c1 h b entries pcs fully j (λ s. omega arith);
        fully = λ j q.
            same.fully j (omega arith)
            ∙ fully_away n i m ps c c1 h b entries pcs fully j (λ s. omega arith);
        pc =
            λ j q. same.pc j (omega arith) ∙ pcs_away n i m ps c c1 h b entries pcs fully j (inl q);
      },
      after_all n i m ps c c1 h b entries pcs fully c' info pc_table f refl same at,
    )

get_or-blank : (n j : ℕ) → get_or (replicate n false) j false ≡ false
get_or-blank zero j = refl
get_or-blank (suc n) zero = refl
get_or-blank (suc n) (suc j) = get_or-blank n j

replicate-IsFresh :
    (n : ℕ)
    → IsFresh n 0 (record {
      func_entries = replicate n false;
      fully_covered_funcs = [];
      fully_covered_funcs_vec = replicate n false;
      covered_pcs_vec = replicate n false;
      uncovered_funcs = [];
      partially_covered_funcs = [];
    })
replicate-IsFresh n = record {
  entries = length-replicate n false;
  fully = length-replicate n false;
  pcs = length-replicate n false;
  no_entry = λ j l. get_or-blank n j;
  no_fully = λ j l. get_or-blank n j;
  no_pc = λ j l. get_or-blank n j;
}

-- A table of fewer than 2 ^ 32 - 1 blocks that begins with a function entry, or is empty, is
-- accepted with any covered indices, and the arrays are right at each of its blocks: the function
-- entries are those with the flag, the fully covered functions those whose blocks are all covered,
-- and the covered blocks those that were given.
pub coverage_lem :
    (pc_table : PcTable) (ps : List ℕ)
    → length pc_table < 2 ^ 32 - 1
    → BeginsFunction pc_table
    → (c : Coverage) × (coverage pc_table ps ≡ done c)
      × (length c.func_entries ≡ length pc_table)
      × (length c.fully_covered_funcs_vec ≡ length pc_table)
      × (length c.covered_pcs_vec ≡ length pc_table)
      × ((j : ℕ) → j < length pc_table → IsCoveredAt c ps j (drop j pc_table))
unfolding coverage
coverage_lem pc_table ps b f =
    let few : ltb (length pc_table) (2 ^ 32 - 1) ≡ true = ground arith in
    let (c, eq, fresh, _, at) =
      coverage_loop_lem (suc (length pc_table)) (length pc_table) 0 pc_table ps _ (omega arith)
        (omega arith) f (replicate-IsFresh (length pc_table)) in
    (c, rw (few) eq, fresh.entries, fresh.fully, fresh.pcs, λ j l. at j j (omega arith) l)
