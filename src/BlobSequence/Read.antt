-- ===== src/BlobSequence/Read.antt =====
-- `read` on a blob that was written, at the end, and on any bytes.
use fuzztest.Common.{
  ℕ, ◌≢◌, ◌+◌, ◌≤◌, ◌≡◌, refl, sym, ap, ◌∙◌, ◌⊎◌, inl, inr, Bool, true, false, ltb, ◌==◌, ◌++◌,
  arith, length, drop, take, length-append, length-drop, length-take, append_assoc, Bool-cases,
  take-append, drop-append, drop_past,
}
use fuzztest.Common.Abort.{Outcome-cases, aborted, done}
use fuzztest.Common.Bytes.{
  ByteArray, le_bytes, length-le_bytes, of_le-le_bytes_u64, add64, sub64, IsU64,
}
use fuzztest.BlobSequence.{Blob, BlobSequence, invalid_blob, is_valid, blob_size, load64, read}
use fuzztest.BlobSequence.Layout.{At, IsWellFormed, encode, header, length-encode, length-header}
use fuzztest.BlobSequence.Write.{IsEnd, no_room, zero_blob}

-- An integer of eight bytes behind `a`.
load64-append :
    (a r : ByteArray) (at v : ℕ)
    → at ≡ length a
    → IsU64 v
    → load64 (a ++ (le_bytes 8 v ++ r)) at ≡ v
load64-append a r at v e h =
    rw
      (
        drop-append at a (le_bytes 8 v ++ r) (sym e),
        take-append 8 (le_bytes 8 v) r (length-le_bytes 8 v),
      )
      (of_le-le_bytes_u64 v h)

module _ (s : BlobSequence) (a r : ByteArray) (b : Blob) (h : At s a (encode b ++ r)) where
  tag_bytes : ByteArray
  tag_bytes = le_bytes 8 b.tag

  size_bytes : ByteArray
  size_bytes = le_bytes 8 (blob_size b)

  total : s.size ≡ length a + 16 + blob_size b + length r
  total = omega (arith, h.total, length-append (encode b) r, length-encode b)

  behind_header : s.bytes ≡ a ++ (header b ++ (b.payload ++ r))
  behind_header = h.region ∙ ap (◌++◌ a) (append_assoc (header b) b.payload r)

  behind_tag : s.bytes ≡ a ++ (le_bytes 8 b.tag ++ (le_bytes 8 (blob_size b) ++ (b.payload ++ r)))
  behind_tag =
      behind_header
      ∙ ap (◌++◌ a) (append_assoc (le_bytes 8 b.tag) (le_bytes 8 (blob_size b)) (b.payload ++ r))

  load_tag : IsU64 b.tag → load64 s.bytes s.offset ≡ b.tag
  load_tag u = rw behind_tag (load64-append a _ s.offset b.tag h.seam u)

  load_size : load64 s.bytes (add64 s.offset 8) ≡ blob_size b
  load_size =
      rw
        (behind_tag
          ∙ sym (append_assoc a (le_bytes 8 b.tag) (le_bytes 8 (blob_size b) ++ (b.payload ++ r))))
        (load64-append (a ++ le_bytes 8 b.tag) (b.payload ++ r) _ (blob_size b)
          (omega (arith, h, total, length-append a (le_bytes 8 b.tag), length-le_bytes 8 b.tag))
          (omega (arith, total, h)))

  load_payload : take (blob_size b) (drop (add64 (add64 s.offset 8) 8) s.bytes) ≡ b.payload
  load_payload =
      rw
        (
          behind_header,
          drop_past (add64 (add64 s.offset 8) 8) 16 a (header b ++ (b.payload ++ r))
              (omega (arith, h, total)),
          drop-append 16 (header b) (b.payload ++ r) (length-header b),
        )
        (take-append (blob_size b) b.payload r refl)

  -- A valid blob at the offset is read, and the offset moves behind it.
  pub read_encoded :
      IsU64 b.tag
      → is_valid b ≡ true
      → s.had_writes ≡ false
      → (s' : BlobSequence) × (read s ≡ done (b, s'))
        × At s' (a ++ encode b) r
        × (s'.had_writes ≡ false)
  unfolding read
  read_encoded u valid unwritten = (
    record s { had_reads = true; offset = length (a ++ encode b) },
    ground (
      arith,
      load_tag u,
      load_size,
      load_payload,
      h,
      total,
      length-append a (encode b),
      length-encode b,
    ),
    record {
      region = h.region ∙ sym (append_assoc a (encode b) r);
      seam = refl;
      total = omega (arith, total, length-append a (encode b), length-encode b);
      small = h.small;
    },
    unwritten,
  )

load64_zeros : (a r : ByteArray) (at : ℕ) → at ≡ length a → load64 (a ++ (le_bytes 8 0 ++ r)) at ≡ 0
load64_zeros a r at e = load64-append a r at 0 e (omega arith)

-- At the end an invalid blob is returned, and the offset stays.
pub read_end :
    (s : BlobSequence) (a r : ByteArray)
    → At s a r
    → IsEnd r
    → s.had_writes ≡ false
    → read s ≡ done (invalid_blob, record s { had_reads = true })
unfolding read
read_end s a r h (no_room short) unwritten = ground (arith, h)
read_end s a r h (zero_blob r' e) unwritten = ground (arith, h, tag_zero, size_zero)
  where
    zero : ByteArray
    zero = le_bytes 8 0

    behind_tag : s.bytes ≡ a ++ (zero ++ (zero ++ r'))
    behind_tag = h.region ∙ ap (◌++◌ a) (e ∙ append_assoc zero zero r')

    tag_zero : load64 s.bytes s.offset ≡ 0
    tag_zero = rw behind_tag (load64_zeros a (zero ++ r') s.offset h.seam)

    size_zero : load64 s.bytes (add64 s.offset 8) ≡ 0
    size_zero = rw (behind_tag ∙ sym (append_assoc a zero (zero ++ r'))) (
        load64_zeros (a ++ zero) r' _ (omega (arith, h, length-append a zero, length-le_bytes 8 0)))

-- What one `read` may do: an invalid blob and the offset kept, or a valid blob that lies in the
-- region and the offset behind it.
pub data Reads (s : BlobSequence) (b : Blob) (s' : BlobSequence) : Type 0 where
  nothing : b ≡ invalid_blob → s' ≡ record s { had_reads = true } → Reads s b s'
  blob :
      is_valid b ≡ true
      → b.payload ≡ take (blob_size b) (drop (s.offset + 16) s.bytes)
      → s'.offset ≡ s.offset + 16 + blob_size b
      → s'.offset ≤ s.size
      → s' ≡ record s { had_reads = true; offset = s'.offset }
      → Reads s b s'

-- The four tests of `read`, in its order.
abbrev is_short : BlobSequence → Bool
is_short s = ltb s.size (add64 (add64 s.offset 8) 8)

abbrev size_at : BlobSequence → ℕ
size_at s = load64 s.bytes (add64 s.offset 8)

abbrev is_cut : BlobSequence → Bool
is_cut s = ltb (sub64 s.size (add64 (add64 s.offset 8) 8)) (size_at s)

abbrev is_untagged : BlobSequence → Bool
is_untagged s = load64 s.bytes s.offset == 0

module _ (s : BlobSequence) (b : Blob) (s' : BlobSequence) (w : IsWellFormed s)
    (e : read s ≡ done (b, s')) where
  refused : (is_short s ≡ true) ⊎ ((is_cut s ≡ true) ⊎ (is_untagged s ≡ true)) → Reads s b s'
  unfolding read
  refused (inl t) = nothing (ground arith) (ground arith)
  refused (inr (inl t)) = nothing (ground arith) (ground arith)
  refused (inr (inr t)) = nothing (ground arith) (ground arith)

  module _ (long : is_short s ≡ false) (whole : is_cut s ≡ false)
      (tagged : is_untagged s ≡ false) where
    got : b ≡ record {
      tag = load64 s.bytes s.offset;
      payload = take (size_at s) (drop (add64 (add64 s.offset 8) 8) s.bytes);
    }
    unfolding read
    got = ground arith

    moved :
        s' ≡ record s { had_reads = true; offset = add64 (add64 (add64 s.offset 8) 8) (size_at s) }
    unfolding read
    moved = ground arith

    position : add64 (add64 s.offset 8) 8 ≡ s.offset + 16
    position = ground (arith, w)

    fits : s.offset + 16 + size_at s ≤ s.size
    fits = ground (arith, w)

    payload_size : blob_size b ≡ size_at s
    payload_size = omega (
      arith,
      ap blob_size got,
      length-take (size_at s) (drop (add64 (add64 s.offset 8) 8) s.bytes),
      length-drop (add64 (add64 s.offset 8) 8) s.bytes,
      w,
      fits,
      position,
    )

    accepted : Reads s b s'
    accepted =
        blob (rw got (ground arith))
          (ap (λ (c : Blob). c.payload) got ∙ rw (payload_size, position))
          (omega
            (arith, ap (λ (t : BlobSequence). t.offset) moved, payload_size, position, fits, w))
          (omega
            (arith, ap (λ (t : BlobSequence). t.offset) moved, payload_size, position, fits, w))
          (rw moved)

  read_cases : Reads s b s'
  read_cases = elim (Bool-cases (is_short s)) [
    | inl t ↦ refused (inl t)
    | inr t ↦ elim (Bool-cases (is_cut s)) [
      | inl u ↦ refused (inr (inl u))
      | inr u ↦ elim (Bool-cases (is_untagged s)) [
        | inl v ↦ refused (inr (inr v))
        | inr v ↦ accepted t u v
      ]
    ]
  ]

read_aborts : (s : BlobSequence) → s.had_writes ≡ true → read s ≡ aborted
unfolding read
read_aborts s e = rw e

read-ne-aborted : (s : BlobSequence) → s.had_writes ≡ false → read s ≢ aborted
unfolding read
read-ne-aborted s e p = ground arith

pub read_total :
    (s : BlobSequence)
    → IsWellFormed s
    → ((s.had_writes ≡ true) × (read s ≡ aborted))
      ⊎ ((b : Blob) × (s' : BlobSequence) × (read s ≡ done (b, s')) × Reads s b s')
read_total s w = elim (Bool-cases s.had_writes) [
  | inl e ↦ inl (e, read_aborts s e)
  | inr e ↦ elim (Outcome-cases (read s)) [
    | inl p ↦ absurd (read-ne-aborted s e p)
    | inr ((b, s'), p) ↦ inr (b, s', p, read_cases s b s' w p)
  ]
]

-- A read leaves the region, its size and the write mark alone.
pub Reads-kept :
    (s : BlobSequence) (b : Blob) (s' : BlobSequence)
    → Reads s b s'
    → (s'.bytes ≡ s.bytes) × (s'.size ≡ s.size) × (s'.had_writes ≡ s.had_writes)
Reads-kept s b s' (nothing i j) = rw j (refl, refl, refl)
Reads-kept s b s' (blob v p o l j) = (
  ap (λ (t : BlobSequence). t.bytes) j,
  ap (λ (t : BlobSequence). t.size) j,
  ap (λ (t : BlobSequence). t.had_writes) j,
)

pub Reads-IsWellFormed :
    (s : BlobSequence) (b : Blob) (s' : BlobSequence)
    → Reads s b s'
    → IsWellFormed s
    → IsWellFormed s'
Reads-IsWellFormed s b s' (nothing i j) w =
    rw j (record { sized = w.sized; within = w.within; small = w.small })
Reads-IsWellFormed s b s' (blob v p o l j) w =
    let (same, size, _) = Reads-kept s b s' (blob v p o l j) in
    record {
      sized = omega (arith, ap length same, size, w);
      within = omega arith;
      small = omega (arith, w);
    }
