-- ===== src/BlobSequence/RoundTrip.antt =====
-- What one process writes after a reset another reads after a reset.
use fuzztest.Common.{
  ℕ, zero, suc, ◌+◌, ◌≤◌, ◌<◌, ◌≡◌, refl, Bool, true, false, List, [], ◌∷◌, ◌++◌, arith, length,
  length-append, append_assoc, append-nil, subst, All,
}
use fuzztest.Common.Abort.{Outcome, aborted, done, ◌>>=◌}
use fuzztest.Common.Bytes.{ByteArray, IsU64}
use fuzztest.BlobSequence.{Blob, BlobSequence, is_valid, blob_size, write, read, reset}
use fuzztest.BlobSequence.Layout.{At, IsWellFormed, encode, encode_all, length-encode}
use fuzztest.BlobSequence.Write.{IsEnd, write_fits}
use fuzztest.BlobSequence.Read.{read_encoded, read_end}

-- A writer's loop, which stops at the first blob that does not fit.
unfoldable pub write_all : List Blob → BlobSequence → Outcome (Bool × BlobSequence)
write_all [] s = done (true, s)
write_all (b ∷ bs) s = elim (write s b) [
  | aborted ↦ aborted
  | done (true, s') ↦ write_all bs s'
  | done (false, s') ↦ done (false, s')
]

-- A reader's loop, which stops at an invalid blob; `n` bounds the number of reads.
unfoldable pub read_all : ℕ → BlobSequence → Outcome (List Blob)
read_all zero s = done []
read_all (suc n) s = elim (read s) [
  | aborted ↦ aborted
  | done (b, s') ↦ elim (is_valid b) [
    | true ↦ read_all n s' >>= λ bs. done (b ∷ bs)
    | false ↦ done []
  ]
]

-- A blob with a tag, both of whose numbers fit a `size_t`.
abbrev pub IsBlob : Blob → Type 0
IsBlob b = (is_valid b ≡ true) × IsU64 b.tag

abbrev pub encoded_size : List Blob → ℕ
encoded_size [] = 0
encoded_size (b ∷ bs) = 16 + blob_size b + encoded_size bs

-- The end mark that a reader needs is there from the start if nothing is written.
abbrev EndsWithout : List Blob → ByteArray → Type 0
EndsWithout [] r = IsEnd r
EndsWithout (b ∷ bs) r = Unit {0}

IsEnd-EndsWithout : (bs : List Blob) (r : ByteArray) → IsEnd r → EndsWithout bs r
IsEnd-EndsWithout [] r e = e
IsEnd-EndsWithout (b ∷ bs) r e = tt

write_all_from :
    (bs : List Blob) (s : BlobSequence) (a r : ByteArray)
    → At s a r
    → EndsWithout bs r
    → All IsBlob bs
    → s.had_reads ≡ false
    → encoded_size bs ≤ length r
    → (s' : BlobSequence) × (r' : ByteArray) × (write_all bs s ≡ done (true, s'))
      × At s' (a ++ encode_all bs) r'
      × IsEnd r'
unfolding write_all
write_all_from [] s a r h e v u fits = (s, r, refl, rw append-nil h, e)
write_all_from (b ∷ bs) s a r h e (v, vs) u fits =
    let (s₁, r₁, w, h₁, e₁, u₁, size₁, _) = write_fits s a r b h v.0 u (omega arith) in
    let room : encoded_size bs ≤ length r₁ =
      omega (arith, h, h₁, size₁, length-append a (encode b), length-encode b) in
    let (s₂, r₂, ws, h₂, e₂) =
      write_all_from bs s₁ (a ++ encode b) r₁ h₁ (IsEnd-EndsWithout bs r₁ e₁) vs u₁ room in
    (
      s₂,
      r₂,
      rw (w, write_all) ws,
      subst (λ front. At s₂ front r₂) (append_assoc a (encode b) (encode_all bs)) h₂,
      e₂,
    )

read_all-At :
    (bs : List Blob) (n : ℕ) (s : BlobSequence) (a r : ByteArray)
    → length bs < n
    → At s a (encode_all bs ++ r)
    → IsEnd r
    → All IsBlob bs
    → s.had_writes ≡ false
    → read_all n s ≡ done bs
unfolding read_all
read_all-At bs zero s a r l h e v u = absurd (omega arith)
read_all-At [] (suc n) s a r l h e v u = rw (read_end s a r h e u, read_all)
read_all-At (b ∷ bs) (suc n) s a r l h e (v, vs) u =
    let (s₁, p, h₁, u₁) =
      read_encoded s a (encode_all bs ++ r) b (rw append_assoc at h) v.1 v.0 u in
    rw (p, read_all) (rw v.0 (rw (read_all-At bs n s₁ (a ++ encode b) r (omega arith) h₁ e vs u₁)))

reset-At : (s : BlobSequence) → IsWellFormed s → At (reset s) [] s.bytes
unfolding reset
reset-At s w = record { region = refl; seam = refl; total = omega (arith, w); small = w.small }

rewound : (s : BlobSequence) (a r : ByteArray) → At s a r → At (reset s) [] (a ++ r)
unfolding reset
rewound s a r h = record {
  region = h.region;
  seam = refl;
  total = omega (arith, h.total, length-append a r);
  small = h.small;
}

-- The region after the writes and a reset.
pub write_all-At :
    (s : BlobSequence) (b : Blob) (bs : List Blob)
    → IsWellFormed s
    → All IsBlob (b ∷ bs)
    → encoded_size (b ∷ bs) ≤ s.size
    → (s' : BlobSequence) × (r : ByteArray) × (write_all (b ∷ bs) (reset s) ≡ done (true, s'))
      × At (reset s') [] (encode_all (b ∷ bs) ++ r)
      × IsEnd r
      × ((reset s').had_writes ≡ false)
unfolding reset
write_all-At s b bs w v fits =
    let (s', r, ws, h, e) =
      write_all_from (b ∷ bs) (reset s) [] s.bytes (reset-At s w) tt v refl (omega (arith, w)) in
    (s', r, ws, rewound s' (encode_all (b ∷ bs)) r h, e, refl)

-- Over any stale bytes: blobs that fit the region are written after a reset, and the same blobs
-- are what a reader of the region gets after a reset, up to its first invalid blob.
pub read_all-write_all :
    (s : BlobSequence) (b : Blob) (bs : List Blob)
    → IsWellFormed s
    → All IsBlob (b ∷ bs)
    → encoded_size (b ∷ bs) ≤ s.size
    → (s' : BlobSequence) × (write_all (b ∷ bs) (reset s) ≡ done (true, s'))
      × ((n : ℕ) → length (b ∷ bs) < n → read_all n (reset s') ≡ done (b ∷ bs))
read_all-write_all s b bs w v fits =
    let (s', r, ws, h, e, u) = write_all-At s b bs w v fits in
    (s', ws, λ n l. read_all-At (b ∷ bs) n (reset s') [] r l h e v u)
