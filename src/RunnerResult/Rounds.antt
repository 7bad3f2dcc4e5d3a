-- ===== src/RunnerResult/Rounds.antt =====
-- The loop of `BatchResult::Read` over blobs that were written, and its safety on any blobs.
use fuzztest.Common.{
  ℕ, zero, suc, ◌+◌, ◌≤◌, ◌<◌, ◌≡◌, ◌⊎◌, inl, inr, refl, sym, subst, ap, ◌∙◌, Bool, true, false,
  List, [], ◌∷◌, ◌++◌, none, some, ◌==◌, length, get_or, All, arith, append_assoc, Bool-cases,
  length-set,
}
use fuzztest.Common.Abort.{done}
use fuzztest.Common.Bytes.{ByteArray}
use fuzztest.BlobSequence.{Blob, BlobSequence, is_valid, blob_size, read, invalid_blob}
use fuzztest.BlobSequence.Layout.{At, IsWellFormed, encode, encode_all}
use fuzztest.BlobSequence.Write.{IsEnd}
use fuzztest.BlobSequence.Read.{
  read_encoded, read_end, read_total, nothing, blob, Reads-kept, Reads-IsWellFormed,
}
use fuzztest.BlobSequence.RoundTrip.{IsBlob}
use fuzztest.RunnerResult.Tags
use fuzztest.RunnerResult.{
  BatchResult, Reading, Round, fail, go_on, batch_round, batch_loop, batch_read, on_current,
  on_input_begin, on_input_end, finish, start, ExecutionResult, cleared,
}

-- The rounds over a list of blobs.
unfoldable pub rounds : Reading → List Blob → Round
rounds t [] = go_on t
rounds t (b ∷ bs) = elim (batch_round t b) [ fail t' ↦ fail t' | go_on t' ↦ rounds t' bs ]

Round-cases : (x : Round) → ((t : Reading) × (x ≡ fail t)) ⊎ ((t : Reading) × (x ≡ go_on t))
Round-cases (fail t) = inl (t, refl)
Round-cases (go_on t) = inr (t, refl)

-- One turn of the loop.
module _ (n : ℕ) (t : Reading) (s : BlobSequence) (b : Blob) (s' : BlobSequence)
    (p : read s ≡ done (b, s')) where
  pub batch_loop_end : is_valid b ≡ false → batch_loop (suc n) t s ≡ done (some (go_on t, s'))
  unfolding batch_loop
  batch_loop_end v = rw (p, batch_loop) (rw v)

  module _ (v : is_valid b ≡ true) (t' : Reading) where
    pub batch_loop_stop :
        batch_round t b ≡ fail t' → batch_loop (suc n) t s ≡ done (some (fail t', s'))
    unfolding batch_loop
    batch_loop_stop q = rw (p, batch_loop) (rw (v, q))

    pub batch_loop_next : batch_round t b ≡ go_on t' → batch_loop (suc n) t s ≡ batch_loop n t' s'
    unfolding batch_loop
    batch_loop_next q = rw (p, batch_loop) (rw (v, q))

rounds_stop :
    (t t' : Reading) (b : Blob) (bs : List Blob)
    → batch_round t b ≡ fail t'
    → rounds t (b ∷ bs) ≡ fail t'
unfolding rounds
rounds_stop t t' b bs q = rw (q, rounds)

pub rounds_next :
    (t t' : Reading) (b : Blob) (bs : List Blob)
    → batch_round t b ≡ go_on t'
    → rounds t (b ∷ bs) ≡ rounds t' bs
unfolding rounds
rounds_next t t' b bs q = rw (q, rounds)

-- Over blobs that were written the loop makes the rounds of the blobs.
pub batch_loop-rounds :
    (bs : List Blob) (n : ℕ) (t : Reading) (s : BlobSequence) (a r : ByteArray)
    → length bs < n
    → At s a (encode_all bs ++ r)
    → IsEnd r
    → All IsBlob bs
    → s.had_writes ≡ false
    → (s' : BlobSequence) × (batch_loop n t s ≡ done (some (rounds t bs, s')))
batch_loop-rounds bs zero t s a r l h e v u = absurd (omega arith)
batch_loop-rounds [] (suc n) t s a r l h e v u = (
  record s { had_reads = true },
  batch_loop_end n t s invalid_blob _ (read_end s a r h e u) refl ∙ unfold rounds in refl,
)
batch_loop-rounds (b ∷ bs) (suc n) t s a r l h e (v, vs) u =
    let (s₁, p, h₁, u₁) =
      read_encoded s a (encode_all bs ++ r) b
        (subst (At s a) (append_assoc (encode b) (encode_all bs) r) h) v.1 v.0 u in
    elim (Round-cases (batch_round t b)) [
      | inl (t', q) ↦ (
        s₁,
        batch_loop_stop n t s b s₁ p v.0 t' q
            ∙ ap (λ (x : Round). done (some (x, s₁))) (sym (rounds_stop t t' b bs q)),
      )
      | inr (t', q) ↦
          let (s', m) = batch_loop-rounds bs n t' s₁ (a ++ encode b) r (omega arith) h₁ e vs u₁ in
          (
            s',
            batch_loop_next n t s b s₁ p v.0 t' q
                ∙ m
                ∙ ap (λ (x : Round). done (some (x, s'))) (sym (rounds_next t t' b bs q)),
          )
    ]

-- Between the blobs of an input its result is the next one and exists; at the other times no
-- result is written to.
abbrev pub IsSound : Reading → Type 0
IsSound t =
    ((t.num_begins ≡ t.num_ends) × (t.current ≡ none) × (t.num_ends ≤ length t.results))
    ⊎ ((t.num_begins ≡ t.num_ends + 1)
        × (t.current ≡ some t.num_ends)
        × (t.num_ends < length t.results))

-- A round keeps the number of results, and one that goes on keeps the bookkeeping sound.
abbrev pub Keeps : Reading → Round → Type 0
Keeps t (fail t') = length t'.results ≡ length t.results
Keeps t (go_on t') = (length t'.results ≡ length t.results) × IsSound t'

on_current-Keeps :
    (t : Reading) (f : ExecutionResult → ExecutionResult) → IsSound t → Keeps t (on_current t f)
unfolding on_current
on_current-Keeps t f h =
    ground (arith, length-set t.results t.num_ends (f (get_or t.results t.num_ends cleared)))

on_input_begin-Keeps : (t : Reading) → IsSound t → Keeps t (on_input_begin t)
unfolding on_input_begin
on_input_begin-Keeps t h = ground (arith, length-set t.results t.num_ends cleared)

on_input_end-Keeps : (t : Reading) → IsSound t → Keeps t (on_input_end t)
unfolding on_input_end
on_input_end-Keeps t h = ground arith

-- From sound bookkeeping, a round on any blob keeps the number of results, and leaves sound
-- bookkeeping if the loop goes on: a pointer into the results, where there is one, is good.
batch_round-Keeps : (t : Reading) (b : Blob) → IsSound t → Keeps t (batch_round t b)
unfolding batch_round
batch_round-Keeps t b h = elim (Bool-cases (b.tag == Tags.input_begin)) [
  | inl e ↦ rw e (on_input_begin-Keeps t h)
  | inr e₁ ↦ elim (Bool-cases (b.tag == Tags.input_end)) [
    | inl e ↦ rw (e₁, e) (on_input_end-Keeps t h)
    | inr e₂ ↦ elim (Bool-cases (b.tag == Tags.metadata)) [
      | inl e ↦ rw (e₁, e₂, e) (on_current-Keeps t _ h)
      | inr e₃ ↦ elim (Bool-cases (b.tag == Tags.stats)) [
        | inl e ↦ elim (Bool-cases (blob_size b == 32)) [
          | inl f ↦ rw (e₁, e₂, e₃, e, f) (on_current-Keeps t _ h)
          | inr f ↦ rw (e₁, e₂, e₃, e, f) refl
        ]
        | inr e₄ ↦ elim (Bool-cases (b.tag == Tags.features)) [
          | inl e ↦ rw (e₁, e₂, e₃, e₄, e) (on_current-Keeps t _ h)
          | inr e₅ ↦ elim (Bool-cases (b.tag == Tags.dispatcher_32bit_features)) [
            | inl e ↦ rw (e₁, e₂, e₃, e₄, e₅, e) (on_current-Keeps t _ h)
            | inr e₆ ↦ rw (e₁, e₂, e₃, e₄, e₅, e₆) (refl, h)
          ]
        ]
      ]
    ]
  ]
]

Keeps-trans :
    (t t' : Reading) (x : Round) → length t'.results ≡ length t.results → Keeps t' x → Keeps t x
Keeps-trans t t' (fail u) e k = k ∙ e
Keeps-trans t t' (go_on u) e (k, s) = (k ∙ e, s)

-- The loop ends on every region, without a step out of it or out of the results.
batch_loop_total :
    (n : ℕ) (t : Reading) (s : BlobSequence)
    → IsWellFormed s
    → s.had_writes ≡ false
    → IsSound t
    → s.size < s.offset + n
    → (x : Round) × (s' : BlobSequence) × (batch_loop n t s ≡ done (some (x, s'))) × Keeps t x
batch_loop_total zero t s w u h f = absurd (omega (arith, w))
batch_loop_total (suc n) t s w u h f = elim (read_total s w) [
  | inl (q, _) ↦ cc
  | inr (b, s', p, nothing i j) ↦ (go_on t, s', batch_loop_end n t s b s' p (rw i), (refl, h))
  | inr (b, s', p, blob v y o l j) ↦ elim (Round-cases (batch_round t b)) [
    | inl (t', q) ↦
        (fail t', s', batch_loop_stop n t s b s' p v t' q, rw q at (batch_round-Keeps t b h))
    | inr (t', q) ↦
        let kept = Reads-kept s b s' (blob v y o l j) in
        let k : Keeps t (go_on t') = rw q at (batch_round-Keeps t b h) in
        let (x, s₁, m, k') =
          batch_loop_total n t' s' (Reads-IsWellFormed s b s' (blob v y o l j) w) (kept.2 ∙ u) k.1
            (omega (arith, kept.1)) in
        (x, s₁, batch_loop_next n t s b s' p v t' q ∙ m, Keeps-trans t t' x k.0 k')
  ]
]

-- What `BatchResult::Read` may leave behind: as many results as before, and a number of complete
-- ones that does not exceed it, which is left alone by a failure.
pub record IsRead (r : BatchResult) (ok : Bool) (r' : BatchResult) : Type 0 where
  pub kept : length r'.results ≡ length r.results
  pub complete : ok ≡ true → r'.num_outputs_read ≤ length r.results
  pub untouched : ok ≡ false → r'.num_outputs_read ≡ r.num_outputs_read

finish-IsRead :
    (r : BatchResult) (x : Round) (s : BlobSequence)
    → Keeps (start r) x
    → IsRead r (finish r (x, s)).0 (finish r (x, s)).1
finish-IsRead r (fail t) s k = record { kept = k; complete = λ e. cc; untouched = λ e. refl }
finish-IsRead r (go_on t) s (k, h) = record {
  kept = k;
  complete = λ e. ground arith;
  untouched = λ e. cc;
}

-- `BatchResult::Read` returns on every region of bytes, also one that no writer left. It keeps the
-- number of results, and reports no more complete ones than there are.
pub batch_read_total :
    (r : BatchResult) (s : BlobSequence)
    → IsWellFormed s
    → s.had_writes ≡ false
    → (ok : Bool) × (r' : BatchResult) × (s' : BlobSequence) × (batch_read r s
        ≡ done (some (ok, r', s')))
      × IsRead r ok r'
unfolding batch_read
batch_read_total r s w u =
    let (x, s', m, k) =
      batch_loop_total (suc s.size) (start r) s w u (inl (refl, refl, omega arith)) (omega arith) in
    ((finish r (x, s')).0, (finish r (x, s')).1, (finish r (x, s')).2, rw m, finish-IsRead r x s' k)
