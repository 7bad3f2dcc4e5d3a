-- ===== src/RollingHash/CallStack.antt =====
-- centipede/callstack.h: class CallStack, with its capacity kMaxDepth as a parameter.
pub mod Frames
pub mod Entry
use fuzztest.Common.{
  ℕ, zero, suc, ◌+◌, ◌-◌, ◌<◌, ◌≤◌, ◌≡◌, ◌≢◌, ◌∙◌, refl, sym, ap, subst, Bool, true, false, inl,
  inr, List, [], ◌∷◌, ◌++◌, map, ltb, leb, ◌==◌, if◌then◌else◌, length, get_or, set, take,
  replicate, length-set, length-take, length-replicate, length-append, length-map, get_or-set_self,
  get_or-set_ne, arith, Bool-cases,
}
use fuzztest.Common.Abort.{Outcome, aborted, done}
use fuzztest.RollingHash.{RollingHash, multiply, reset_hash, updated, update_hash}
use fuzztest.RollingHash.Windows.{
  window_hash, updated_lem, get_or-take, take-take, window_hash-zeros, get_or-replicate,
  window_state, update_hash-window_state,
}

pub record CallStack : Type 0 where
  pub depth : ℕ
  pub pc : List ℕ
  pub sp : List ℕ
  pub hashes : List ℕ
  pub rolling_hash : RollingHash
  pub window_size : ℕ

unfoldable pub pc_at : CallStack → ℕ → Outcome ℕ
pc_at c idx = if leb c.depth idx then aborted else done (get_or c.pc idx 0)

unfoldable pub stack_hash : CallStack → ℕ
stack_hash c = if c.depth == 0 then 0 else get_or c.hashes (c.depth - 1) 0

-- The loop of OnFunctionEntry: the depth without the frames that have ended.
unfoldable pub unwind : ℕ → List ℕ → ℕ → ℕ
unwind zero sps sp = zero
unwind (suc depth) sps sp =
    let lower = unwind depth sps sp in if leb (get_or sps depth 0) sp then lower else suc depth

-- OnFunctionEntry after its loop.
unfoldable pub push_frame : ℕ → CallStack → ℕ → ℕ → CallStack
push_frame max_depth c pc sp =
    let pcs = set c.pc c.depth pc in
    let previous_hash = if c.depth == 0 then 0 else get_or c.hashes (c.depth - 1) 0 in
    let previous_pc =
      if leb c.window_size c.depth then get_or pcs (c.depth - c.window_size) 0 else 0 in
    if c.depth == max_depth then c else record c {
      pc = pcs;
      sp = set c.sp c.depth sp;
      hashes = set c.hashes c.depth (updated c.rolling_hash previous_hash pc previous_pc);
      depth = suc c.depth;
    }

unfoldable pub on_function_entry : ℕ → CallStack → ℕ → ℕ → CallStack
on_function_entry max_depth c pc sp =
    push_frame max_depth (record c { depth = unwind c.depth c.sp sp }) pc sp

unfoldable pub reset_stack : CallStack → ℕ → CallStack
reset_stack c window_size = record c {
  depth = 0;
  window_size = window_size;
  rolling_hash = reset_hash window_size;
}

-- A frame, its function's pc and sp.
pub record Frame : Type 0 where
  pub frame_pc : ℕ
  pub frame_sp : ℕ

abbrev pub pcs_of : List Frame → List ℕ
pcs_of = map (λ f. f.frame_pc)

-- The frames below those that have ended when a function is entered with `sp`.
unfoldable pub unwound : List Frame → ℕ → List Frame
unwound [] sp = []
unwound (f ∷ frames) sp =
    let lower = unwound frames sp in if leb f.frame_sp sp then lower else f ∷ frames

-- The frames after a function was entered, the newest first.
unfoldable pub entered : ℕ → List Frame → ℕ → ℕ → List Frame
entered max_depth frames pc sp =
    let rest = unwound frames sp in
    if length rest == max_depth then rest else record { frame_pc = pc; frame_sp = sp } ∷ rest

-- The pcs that the hash of frames covers: the newest `n`, with zeros below the stack.
abbrev pub window_of : ℕ → List Frame → List ℕ
window_of n frames = take n (pcs_of frames ++ replicate n 0)
