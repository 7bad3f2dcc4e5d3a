-- ===== src/RollingHash/CallStack/Frames.antt =====
-- The frames in the arrays of a call stack.
use fuzztest.Common.{
  ℕ, zero, suc, ◌-◌, ◌<◌, ◌≤◌, ◌≡◌, ◌≢◌, ◌∙◌, refl, sym, ap, false, inl, inr, List, [], ◌∷◌, ◌++◌,
  leb, ◌==◌, if◌then◌else◌, length, get_or, set, take, replicate, length-take, length-replicate,
  length-append, length-map, get_or-set_ne, arith, Bool-cases,
}
use fuzztest.RollingHash.{RollingHash, reset_hash, updated, update_hash}
use fuzztest.RollingHash.Windows.{
  window_hash, get_or-take, window_hash-zeros, get_or-replicate, update_hash-window_state,
}
use fuzztest.RollingHash.CallStack.{unwind, Frame, pcs_of, unwound, window_of}

-- The arrays hold the frames, and the hash of the frames up to each.
unfoldable pub Holds : ℕ → List ℕ → List ℕ → List ℕ → List Frame → Type 0
Holds n pcs sps hs [] = Unit
Holds n pcs sps hs (f ∷ frames) =
    (get_or pcs (length frames) 0 ≡ f.frame_pc)
    × (get_or sps (length frames) 0 ≡ f.frame_sp)
    × (get_or hs (length frames) 0 ≡ window_hash (window_of n (f ∷ frames)))
    × Holds n pcs sps hs frames

pub unwind_lem :
    (n : ℕ) (pcs sps hs : List ℕ) (frames : List Frame) (sp : ℕ)
    → Holds n pcs sps hs frames
    → (unwind (length frames) sps sp ≡ length (unwound frames sp))
      × Holds n pcs sps hs (unwound frames sp)
      × (length (unwound frames sp) ≤ length frames)
unfolding unwind unwound Holds
unwind_lem n pcs sps hs [] sp h = (refl, tt, omega arith)
unwind_lem n pcs sps hs (f ∷ frames) sp (p, s, e, h) =
    let (d, lower, le) = unwind_lem n pcs sps hs frames sp h in
    elim (Bool-cases (leb f.frame_sp sp)) [
      | inl l ↦ rw (s, l) (d, lower, omega arith)
      | inr l ↦ rw (s, l) (refl, (p, s, e, h), omega arith)
    ]

pub Holds-set :
    (n : ℕ) (pcs sps hs : List ℕ) (frames : List Frame) (i p s v : ℕ)
    → length frames ≤ i
    → Holds n pcs sps hs frames
    → Holds n (set pcs i p) (set sps i s) (set hs i v) frames
unfolding Holds
Holds-set n pcs sps hs [] i p s v l h = tt
Holds-set n pcs sps hs (f ∷ frames) i p s v l (a, b, c, h) =
    let ne : i ≢ length frames = λ q. omega arith in
    (
      get_or-set_ne pcs p 0 ne ∙ a,
      get_or-set_ne sps s 0 ne ∙ b,
      get_or-set_ne hs v 0 ne ∙ c,
      Holds-set n pcs sps hs frames i p s v (omega arith) h,
    )

-- The pc of a frame, by its distance from the newest.
held_pc :
    (n : ℕ) (pcs sps hs : List ℕ) (frames : List Frame) (k : ℕ)
    → Holds n pcs sps hs frames
    → k < length frames
    → get_or pcs (length frames - suc k) 0 ≡ get_or (pcs_of frames) k 0
unfolding Holds
held_pc n pcs sps hs [] k h l = absurd (omega arith)
held_pc n pcs sps hs (f ∷ frames) zero (a, b, c, h) l =
    let e : length (f ∷ frames) - 1 ≡ length frames = omega arith in
    ap (λ (i : ℕ). get_or pcs i 0) e ∙ a
held_pc n pcs sps hs (f ∷ frames) (suc k) (a, b, c, h) l =
    let e : length (f ∷ frames) - suc (suc k) ≡ length frames - suc k = omega arith in
    ap (λ (i : ℕ). get_or pcs i 0) e ∙ held_pc n pcs sps hs frames k h (omega arith)

get_or-append_front :
    (xs ys : List ℕ) (k : ℕ) → k < length xs → get_or (xs ++ ys) k 0 ≡ get_or xs k 0
get_or-append_front [] ys k h = absurd (omega arith)
get_or-append_front (x ∷ xs) ys zero h = refl
get_or-append_front (x ∷ xs) ys (suc k) h = get_or-append_front xs ys k (omega arith)

-- The pc that leaves the window when a function is entered.
previous_pc_lem :
    (n : ℕ) (pcs sps hs : List ℕ) (frames : List Frame)
    → Holds (suc n) pcs sps hs frames
    → (if leb (suc n) (length frames) then get_or pcs (length frames - suc n) 0 else 0)
      ≡ get_or (window_of (suc n) frames) n 0
previous_pc_lem n pcs sps hs frames h =
    let all = get_or-take (suc n) n (pcs_of frames ++ replicate (suc n) 0) (omega arith) in
    let size : length (pcs_of frames) ≡ length frames =
      length-map frames (λ (f : Frame). f.frame_pc) in
    elim (Bool-cases (leb (suc n) (length frames))) [
      | inl l ↦
          let inside : n < length frames = ground arith in
          rw l (
            held_pc (suc n) pcs sps hs frames n h inside
            ∙ sym (get_or-append_front (pcs_of frames) (replicate (suc n) 0) n (omega arith))
            ∙ sym all)
      | inr l ↦
          let outside : length frames ≤ n = ground arith in
          rw l (sym (all ∙ past (pcs_of frames) n (omega arith)))
    ]
  where
    past : (xs : List ℕ) (k : ℕ) → length xs ≤ k → get_or (xs ++ replicate (suc n) 0) k 0 ≡ 0
    past [] k l = get_or-replicate (suc n) k
    past (x ∷ xs) zero l = absurd (omega arith)
    past (x ∷ xs) (suc k) l = past xs k (omega arith)

-- The hash of the newest frame, or of none.
pub top_hash :
    (n : ℕ) (pcs sps hs : List ℕ) (frames : List Frame)
    → Holds n pcs sps hs frames
    → (if length frames == 0 then 0 else get_or hs (length frames - 1) 0)
      ≡ window_hash (window_of n frames)
unfolding Holds
top_hash n pcs sps hs [] h = sym (ap window_hash (take_replicate n) ∙ window_hash-zeros n)
  where
    take_replicate : (n : ℕ) → take {A = ℕ} n (replicate n 0) ≡ replicate n 0
    take_replicate zero = refl
    take_replicate (suc n) = ap (λ (t : List ℕ). 0 ∷ t) (take_replicate n)
top_hash n pcs sps hs (f ∷ frames) (a, b, c, h) =
    let e : length (f ∷ frames) - 1 ≡ length frames = omega arith in
    let some_frame : (length (f ∷ frames) == 0) ≡ false = ground arith in rw (some_frame, e) c

-- The hash that OnFunctionEntry stores.
pub entry_hash :
    (n pc : ℕ) (pcs sps hs : List ℕ) (frames : List Frame)
    → Holds (suc n) pcs sps hs frames
    → updated
        (reset_hash (suc n))
        (if length frames == 0 then 0 else get_or hs (length frames - 1) 0)
        pc
        (if leb (suc n) (length frames) then get_or pcs (length frames - suc n) 0 else 0)
      ≡ window_hash (pc ∷ take n (window_of (suc n) frames))
unfolding reset_hash updated update_hash
entry_hash n pc pcs sps hs frames h =
    let w = window_of (suc n) frames in
    let size : length w ≡ suc n = omega (
      arith,
      length-take (suc n) (pcs_of frames ++ replicate (suc n) 0),
      length-append (pcs_of frames) (replicate (suc n) 0),
      length-replicate {A = ℕ} (suc n) 0,
    ) in
    let top = top_hash (suc n) pcs sps hs frames h in
    let oldest = previous_pc_lem n pcs sps hs frames h in
    rw (top, oldest) (ap (λ (r : RollingHash). r.value) (update_hash-window_state w n pc size))
