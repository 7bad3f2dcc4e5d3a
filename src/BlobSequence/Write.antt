-- ===== src/BlobSequence/Write.antt =====
-- `write` on every branch.
use fuzztest.Common.{
  ◌+◌, ◌≤◌, ◌<◌, ◌≡◌, refl, sym, ap, ◌∙◌, ◌⊎◌, inl, inr, Bool, true, false, leb, if◌then◌else◌,
  ◌++◌, arith, length, drop, length-append, length-drop, append_assoc, Bool-cases,
}
use fuzztest.Common.Abort.{aborted, done}
use fuzztest.Common.Bytes.{ByteArray, le_bytes, length-le_bytes, add64}
use fuzztest.BlobSequence.{Blob, BlobSequence, is_valid, blob_size, put, put_terminator, write}
use fuzztest.BlobSequence.Layout.{At, encode, header, put-At}

-- What a reader takes for the end: no room for a tag and a size, or both of them zero.
abbrev pub zeros : ByteArray
zeros = le_bytes 8 0 ++ le_bytes 8 0

pub data IsEnd (r : ByteArray) : Type 0 where
  no_room : length r < 16 → IsEnd r
  zero_blob : (r' : ByteArray) → r ≡ zeros ++ r' → IsEnd r

abbrev fields : BlobSequence → Blob → BlobSequence
fields s b = put (put (put s (le_bytes 8 b.tag)) (le_bytes 8 (blob_size b))) b.payload

fields-At :
    (s : BlobSequence) (a r : ByteArray) (b : Blob)
    → At s a r
    → 16 + blob_size b ≤ length r
    → (r' : ByteArray) × At (fields s b) (a ++ encode b) r'
fields-At s a r b h fits = (_, rw append_assoc at (put-At _ _ _ b.payload numbers room))
  where
    t : ByteArray
    t = le_bytes 8 b.tag

    n : ByteArray
    n = le_bytes 8 (blob_size b)

    room : blob_size b ≤ length (drop (length n) (drop (length t) r))
    room = omega (
      arith,
      length-drop (length n) (drop (length t) r),
      length-drop (length t) r,
      length-le_bytes 8 b.tag,
      length-le_bytes 8 (blob_size b),
    )

    numbers : At (put (put s t) n) (a ++ header b) (drop (length n) (drop (length t) r))
    numbers = rw append_assoc at (
        put-At _ _ _ n (put-At s a r t h (omega (arith, length-le_bytes 8 b.tag))) (
          omega (
            arith,
            length-drop (length t) r,
            length-le_bytes 8 b.tag,
            length-le_bytes 8 (blob_size b),
          )))

abbrev zero : ByteArray
zero = le_bytes 8 0

room_for-IsEnd :
    (s : BlobSequence) (a r : ByteArray)
    → At s a r
    → 16 ≤ length r
    → (r' : ByteArray) × At (record (put (put s zero) zero) { offset = s.offset }) a r' × IsEnd r'
room_for-IsEnd s a r h fits = (
  zeros ++ rest,
  record {
    region =
        whole.region
        ∙ append_assoc (a ++ zero) zero rest
        ∙ append_assoc a zero (zero ++ rest)
        ∙ ap (◌++◌ a) (sym (append_assoc zero zero rest));
    seam = h.seam;
    total = omega (
      arith,
      whole,
      length-append (a ++ zero) zero,
      length-append a zero,
      length-append zeros rest,
      length-append zero zero,
    );
    small = whole.small;
  },
  zero_blob rest refl,
)
  where
    lz : length zero ≡ 8
    lz = length-le_bytes 8 0

    rest : ByteArray
    rest = drop (length zero) (drop (length zero) r)

    whole : At (put (put s zero) zero) ((a ++ zero) ++ zero) rest
    whole =
        put-At _ _ _ zero (put-At s a r zero h (omega (arith, lz)))
          (omega (arith, lz, length-drop (length zero) r))

put_terminator-At :
    (s : BlobSequence) (a r : ByteArray)
    → At s a r
    → (r' : ByteArray) × At (put_terminator s) a r' × IsEnd r'
unfolding put_terminator put le_bytes
put_terminator-At s a r h = elim (Bool-cases (leb (add64 (add64 s.offset 8) 8) s.size)) [
  | inl e ↦ rw e (room_for-IsEnd s a r h (ground (arith, h)))
  | inr e ↦ rw e (r, h, no_room (ground (arith, h)))
]

put_terminator-had_reads : (s : BlobSequence) → (put_terminator s).had_reads ≡ s.had_reads
unfolding put_terminator
put_terminator-had_reads s = ground arith

put_terminator-size : (s : BlobSequence) → (put_terminator s).size ≡ s.size
unfolding put_terminator
put_terminator-size s = ground arith

put_terminator-had_writes : (s : BlobSequence) → (put_terminator s).had_writes ≡ s.had_writes
unfolding put_terminator
put_terminator-had_writes s = ground arith

-- A valid blob that fits goes behind the earlier ones, and an end mark behind it.
pub write_fits :
    (s : BlobSequence) (a r : ByteArray) (b : Blob)
    → At s a r
    → is_valid b ≡ true
    → s.had_reads ≡ false
    → 16 + blob_size b ≤ length r
    → (s' : BlobSequence) × (r' : ByteArray) × (write s b ≡ done (true, s'))
      × At s' (a ++ encode b) r'
      × IsEnd r'
      × (s'.had_reads ≡ false)
      × (s'.size ≡ s.size)
      × (s'.had_writes ≡ true)
unfolding write
write_fits s a r b h valid unread fits =
    let marked : BlobSequence = record s { had_writes = true } in
    let (r', written) =
      fields-At marked a r b
        (record { region = h.region; seam = h.seam; total = h.total; small = h.small }) fits in
    let (r'', ended, is_end) = put_terminator-At (fields marked b) (a ++ encode b) r' written in
    (
      put_terminator (fields marked b),
      r'',
      ground (arith, h),
      ended,
      is_end,
      put_terminator-had_reads (fields marked b) ∙ unread,
      put_terminator-size (fields marked b),
      put_terminator-had_writes (fields marked b),
    )

-- In a sequence that was not read from since the last reset, a valid blob that does not fit is
-- refused: the region and the offset stay, and the sequence is marked as written.
write_full :
    (s : BlobSequence) (a r : ByteArray) (b : Blob)
    → At s a r
    → is_valid b ≡ true
    → s.had_reads ≡ false
    → length r < 16 + blob_size b
    → write s b ≡ done (false, record s { had_writes = true })
unfolding write
write_full s a r b h valid unread full = ground (arith, h)

-- An invalid blob, or a read since the last reset, stops the process.
pub write_aborts :
    (s : BlobSequence) (b : Blob)
    → (is_valid b ≡ false) ⊎ (s.had_reads ≡ true)
    → write s b ≡ aborted
unfolding write
write_aborts s b (inl e) = rw e
write_aborts s b (inr e) = ground arith

-- Of a sequence whose bytes before the offset are `a` and behind it `r`: a write ends the process
-- exactly for an invalid blob or after a read. Otherwise it marks the sequence as written and
-- succeeds just when `r` has room for the blob with its tag and size. It then leaves the blob
-- behind `a` with an end mark behind that; if it fails, nothing but the mark changes.
pub write_total :
    (s : BlobSequence) (a r : ByteArray) (b : Blob)
    → At s a r
    → (((is_valid b ≡ false) ⊎ (s.had_reads ≡ true)) × (write s b ≡ aborted))
      ⊎ ((is_valid b ≡ true)
          × (s.had_reads ≡ false)
          × ((ok : Bool) × (s' : BlobSequence) × (r' : ByteArray) × (write s b ≡ done (ok, s'))
              × (ok ≡ leb (16 + blob_size b) (length r))
              × At s' (if ok then a ++ encode b else a) r'
              × (s'.had_writes ≡ true)
              × (s'.had_reads ≡ false)
              × (s'.size ≡ s.size)
              × (ok ≡ true → IsEnd r')
              × (ok ≡ false → s' ≡ record s { had_writes = true })))
write_total s a r b h = elim (Bool-cases (is_valid b)) [
  | inr bad ↦ inl (inl bad, write_aborts s b (inl bad))
  | inl valid ↦ elim (Bool-cases s.had_reads) [
    | inl was_read ↦ inl (inr was_read, write_aborts s b (inr was_read))
    | inr unread ↦ elim (Bool-cases (leb (16 + blob_size b) (length r))) [
      | inl room ↦
          let (s', r', e, at, is_end, reads, size, writes) =
            write_fits s a r b h valid unread (ground arith) in
          inr (
            valid,
            unread,
            (true, s', r', e, sym room, at, writes, reads, size, λ q. is_end, λ q. absurd cc),
          )
      | inr full ↦ inr (
        valid,
        unread,
        (
          false,
          record s { had_writes = true },
          r,
          write_full s a r b h valid unread (ground arith),
          sym full,
          record { region = h.region; seam = h.seam; total = h.total; small = h.small },
          refl,
          unread,
          refl,
          λ q. absurd cc,
          λ q. refl,
        ),
      )
    ]
  ]
]
