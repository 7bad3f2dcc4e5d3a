-- ===== src/BlobSequence.antt =====
-- centipede/shared_memory_blob_sequence.h and .cc, class BlobSequence: blobs in a memory region that
-- two processes share. The region is the list of its bytes; `data_` is its start.
pub mod Layout
pub mod Write
pub mod Read
pub mod RoundTrip
mod Examples
use fuzztest.Common.{
  ℕ, ◌-◌, Bool, true, false, not, ◌&&◌, ◌||◌, [], ltb, leb, ◌==◌, if◌then◌else◌, length, take, drop,
}
use fuzztest.Common.Abort.{Outcome, aborted, done, ◌>>◌}
use fuzztest.Common.Bytes.{ByteArray, add64, sub64, le_bytes, of_le, memcpy_at}

-- A blob is what `data` pointed at when it was made: `size` is the number of those bytes.
pub record Blob : Type 0 where
  pub tag : ℕ
  pub payload : ByteArray

abbrev pub invalid_blob : Blob
invalid_blob = record { tag = 0; payload = [] }

abbrev pub is_valid : Blob → Bool
is_valid b = not (b.tag == 0)

abbrev pub blob_size : Blob → ℕ
blob_size b = length b.payload

pub record BlobSequence : Type 0 where
  pub bytes : ByteArray
  pub size : ℕ
  pub offset : ℕ
  pub had_reads : Bool
  pub had_writes : Bool

abbrev pub error_on_failure : Bool → Outcome (Unit {0})
error_on_failure true = aborted
error_on_failure false = done tt

-- The constructor, for a region of `length bytes` bytes.
pub blob_sequence : ByteArray → Outcome BlobSequence
blob_sequence bytes = do
  error_on_failure (ltb (length bytes) 8)
  done (record {
    bytes = bytes;
    size = length bytes;
    offset = 0;
    had_reads = false;
    had_writes = false;
  })

-- memcpy(data_ + offset_, from, length from); offset_ += length from;
pub put : BlobSequence → ByteArray → BlobSequence
put s from = record s {
  bytes = memcpy_at s.bytes s.offset from;
  offset = add64 s.offset (length from);
}

-- The zero tag and size behind the last blob, which do not move the offset.
pub put_terminator : BlobSequence → BlobSequence
put_terminator s =
    if leb (add64 (add64 s.offset 8) 8) s.size
    then record s {
      bytes =
          memcpy_at (memcpy_at s.bytes s.offset (le_bytes 8 0)) (add64 s.offset 8) (le_bytes 8 0);
    }
    else s

pub write : BlobSequence → Blob → Outcome (Bool × BlobSequence)
unfolding put put_terminator
write s b = do
  error_on_failure (not (is_valid b))
  error_on_failure s.had_reads
  let s' = record s { had_writes = true }
  let available_size = sub64 s.size s.offset
  done (
      if ltb available_size 16 || ltb (available_size - 8 - 8) (blob_size b) then (false, s') else (
        true,
        put_terminator (put (put (put s' (le_bytes 8 b.tag)) (le_bytes 8 (blob_size b))) b.payload),
      ))

-- An integer of eight bytes at a position.
abbrev pub load64 : ByteArray → ℕ → ℕ
load64 bytes at = of_le (take 8 (drop at bytes))

pub read : BlobSequence → Outcome (Blob × BlobSequence)
read s = do
  error_on_failure s.had_writes
  let s' = record s { had_reads = true }
  let blob_tag = load64 s.bytes s.offset
  let after_tag = add64 s.offset 8
  let blob_size = load64 s.bytes after_tag
  let at = add64 after_tag 8
  done (
      if ltb s.size (add64 (add64 s.offset 8) 8)
      then (invalid_blob, s')
      else if ltb (sub64 s.size at) blob_size
      then (invalid_blob, s')
      else if blob_tag == 0 && blob_size == 0
      then (invalid_blob, s')
      else if blob_tag == 0
      then (invalid_blob, s')
      else (
        record { tag = blob_tag; payload = take blob_size (drop at s.bytes) },
        record s' { offset = add64 at blob_size },
      ))

pub reset : BlobSequence → BlobSequence
reset s = record s { offset = 0; had_reads = false; had_writes = false }
