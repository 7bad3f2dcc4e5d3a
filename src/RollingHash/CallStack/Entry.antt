-- ===== src/RollingHash/CallStack/Entry.antt =====
-- OnFunctionEntry on the frames of a call stack.
use fuzztest.Common.{
  ℕ, zero, suc, ◌-◌, ◌<◌, ◌≤◌, ◌≡◌, ◌≢◌, ◌∙◌, refl, sym, ap, subst, false, inl, inr, List, ◌∷◌,
  ◌++◌, leb, ◌==◌, if◌then◌else◌, length, get_or, set, replicate, length-set, get_or-set_self,
  get_or-set_ne, arith, Bool-cases,
}
use fuzztest.RollingHash.{reset_hash, updated}
use fuzztest.RollingHash.Windows.{window_hash, take-take}
use fuzztest.RollingHash.CallStack.{
  CallStack, stack_hash, unwind, push_frame, on_function_entry, Frame, pcs_of, unwound, entered,
  window_of,
}
use fuzztest.RollingHash.CallStack.Frames.{Holds, unwind_lem, Holds-set, top_hash, entry_hash}

-- A call stack with a window of `n` represents frames.
unfoldable pub IsStack : ℕ → ℕ → CallStack → List Frame → Type 0
IsStack max_depth n c frames =
    (c.depth ≡ length frames)
    × (length frames ≤ max_depth)
    × (length c.pc ≡ max_depth)
    × (length c.sp ≡ max_depth)
    × (length c.hashes ≡ max_depth)
    × (c.window_size ≡ n)
    × (c.rolling_hash ≡ reset_hash n)
    × Holds n c.pc c.sp c.hashes frames

IsStack-hash :
    (max_depth n : ℕ) (c : CallStack) (frames : List Frame)
    → IsStack max_depth n c frames
    → stack_hash c ≡ window_hash (window_of n frames)
unfolding IsStack stack_hash
IsStack-hash max_depth n c frames s = rw s.0 (top_hash n c.pc c.sp c.hashes frames s.7)

-- The stack after the frames that have ended are dropped.
unwound-IsStack :
    (max_depth n : ℕ) (c : CallStack) (frames : List Frame) (sp : ℕ)
    → IsStack max_depth n c frames
    → IsStack max_depth n (record c { depth = unwind c.depth c.sp sp }) (unwound frames sp)
unfolding IsStack
unwound-IsStack max_depth n c frames sp (depth, most, size, size', size'', window, rolling, h) =
    let (e, lower, le) = unwind_lem n c.pc c.sp c.hashes frames sp h in
    (rw depth e, omega arith, size, size', size'', window, rolling, lower)

-- A window of one pc or more is kept through entries that are pushed.
pushed-IsStack :
    (max_depth n : ℕ) (c : CallStack) (frames : List Frame) (pc sp : ℕ)
    → IsStack max_depth (suc n) c frames
    → length frames < max_depth
    → IsStack max_depth
        (suc n)
        (record c {
          pc = set c.pc (length frames) pc;
          sp = set c.sp (length frames) sp;
          hashes = set c.hashes (length frames) (
              updated
                (reset_hash (suc n))
                (if length frames == 0 then 0 else get_or c.hashes (length frames - 1) 0)
                pc
                (if leb (suc n) (length frames) then get_or c.pc (length frames - suc n) 0 else 0));
          depth = suc (length frames);
        })
        (record { frame_pc = pc; frame_sp = sp } ∷ frames)
unfolding IsStack Holds
pushed-IsStack max_depth n c frames pc sp (depth, most, size, size', size'', window, rolling, h)
      room =
    let d = length frames in
    let hash =
      updated (reset_hash (suc n)) (if d == 0 then 0 else get_or c.hashes (d - 1) 0) pc
        (if leb (suc n) d then get_or c.pc (d - suc n) 0 else 0) in
    (
      refl,
      omega arith,
      length-set c.pc d pc ∙ size,
      length-set c.sp d sp ∙ size',
      length-set c.hashes d hash ∙ size'',
      window,
      rolling,
      (
        get_or-set_self c.pc d pc 0 (omega arith),
        get_or-set_self c.sp d sp 0 (omega arith),
        get_or-set_self c.hashes d hash 0 (omega arith)
            ∙ entry_hash n pc c.pc c.sp c.hashes frames h
            ∙ ap (λ (t : List ℕ). window_hash (pc ∷ t))
                (take-take n (pcs_of frames ++ replicate (suc n) 0)),
        Holds-set (suc n) c.pc c.sp c.hashes frames d pc sp hash (omega arith) h,
      ),
    )

-- The pc that was just stored is not the one that leaves the window.
leaving_pc :
    (w n d pc : ℕ) (pcs : List ℕ)
    → w ≡ suc n
    → (if leb w d then get_or (set pcs d pc) (d - w) 0 else 0)
      ≡ (if leb (suc n) d then get_or pcs (d - suc n) 0 else 0)
leaving_pc w n d pc pcs e = rw e (elim (Bool-cases (leb (suc n) d)) [
  | inl l ↦ let ne : d ≢ d - suc n = λ q. ground arith in rw l (get_or-set_ne pcs pc 0 ne)
  | inr l ↦ rw l refl
])

IsStack-room :
    (max_depth n : ℕ) (c : CallStack) (frames : List Frame)
    → IsStack max_depth n c frames
    → (length frames == max_depth) ≡ false
    → length frames < max_depth
unfolding IsStack
IsStack-room max_depth n c frames s free = let le = s.1 in ground arith

-- The call stack of `frames` with the given arrays.
abbrev stack_of : ℕ → List ℕ → List ℕ → List ℕ → List Frame → CallStack
stack_of n pcs sps hs frames = record {
  depth = length frames;
  pc = pcs;
  sp = sps;
  hashes = hs;
  rolling_hash = reset_hash n;
  window_size = n;
}

IsStack-stack_of :
    (max_depth n : ℕ) (c : CallStack) (frames : List Frame)
    → IsStack max_depth n c frames
    → stack_of n c.pc c.sp c.hashes frames ≡ c
unfolding IsStack
IsStack-stack_of max_depth n c frames s = λ i. record {
  depth = sym s.0 i;
  pc = c.pc;
  sp = c.sp;
  hashes = c.hashes;
  rolling_hash = sym s.6 i;
  window_size = sym s.5 i;
}

-- The entry of a function into a stack of `frames`, none of which has ended.
push_frame-IsStack :
    (max_depth n : ℕ) (pcs sps hs : List ℕ) (frames : List Frame) (pc sp : ℕ)
    → IsStack max_depth (suc n) (stack_of (suc n) pcs sps hs frames) frames
    → IsStack max_depth (suc n) (push_frame max_depth (stack_of (suc n) pcs sps hs frames) pc sp) (
        if length frames == max_depth
        then frames
        else record { frame_pc = pc; frame_sp = sp } ∷ frames)
unfolding push_frame
push_frame-IsStack max_depth n pcs sps hs frames pc sp s =
    let d = length frames in
    let top = if d == 0 then 0 else get_or hs (d - 1) 0 in
    elim (Bool-cases (d == max_depth)) [
      | inl full ↦ rw full s
      | inr free ↦
          let pushed =
            pushed-IsStack max_depth n (stack_of (suc n) pcs sps hs frames) frames pc sp s
              (room s free) in
          rw free (
            subst
              (λ (p : ℕ).
                IsStack max_depth (suc n)
                  (record (stack_of (suc n) pcs sps hs frames) {
                    pc = set pcs d pc;
                    sp = set sps d sp;
                    hashes = set hs d (updated (reset_hash (suc n)) top pc p);
                    depth = suc d;
                  })
                  (record { frame_pc = pc; frame_sp = sp } ∷ frames))
              (sym (leaving_pc (suc n) n d pc pcs refl)) pushed)
    ]
  where
    room :
        IsStack max_depth (suc n) (stack_of (suc n) pcs sps hs frames) frames
        → (length frames == max_depth) ≡ false
        → length frames < max_depth
    room s free = IsStack-room max_depth (suc n) (stack_of (suc n) pcs sps hs frames) frames s free

-- Of a call stack with a window of one pc or more: OnFunctionEntry drops the frames whose sp is not
-- above the new one and pushes the function, unless the stack is full; Hash() is then the hash of
-- the newest pcs, as many as the window, with zeros below the stack.
pub on_function_entry_lem :
    (max_depth n : ℕ) (c : CallStack) (frames : List Frame) (pc sp : ℕ)
    → 0 < n
    → IsStack max_depth n c frames
    → IsStack max_depth n (on_function_entry max_depth c pc sp) (entered max_depth frames pc sp)
      × (stack_hash (on_function_entry max_depth c pc sp)
          ≡ window_hash (window_of n (entered max_depth frames pc sp)))
unfolding on_function_entry entered
on_function_entry_lem max_depth zero c frames pc sp pos s = absurd (omega arith)
on_function_entry_lem max_depth (suc n) c frames pc sp pos s =
    let rest = unwound frames sp in
    let c' : CallStack = record c { depth = unwind c.depth c.sp sp } in
    let lower = unwound-IsStack max_depth (suc n) c frames sp s in
    let e = IsStack-stack_of max_depth (suc n) c' rest lower in
    let lower' = subst (λ (t : CallStack). IsStack max_depth (suc n) t rest) (sym e) lower in
    let pushed = push_frame-IsStack max_depth n c.pc c.sp c.hashes rest pc sp lower' in
    let step =
      subst
        (λ (t : CallStack).
          IsStack max_depth (suc n) (push_frame max_depth t pc sp) (entered max_depth frames pc sp))
        e pushed in
    (
      step,
      IsStack-hash max_depth (suc n) (push_frame max_depth c' pc sp)
          (entered max_depth frames pc sp) step,
    )
