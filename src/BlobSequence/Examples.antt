-- ===== src/BlobSequence/Examples.antt =====
-- Runs of the blob sequence, and its theorems at concrete inputs.
use fuzztest.Common.{
  ℕ, ◌+◌, ◌<◌, ◌≡◌, refl, ◌⊎◌, Bool, true, false, leb, if◌then◌else◌, [], ◌∷◌, ◌++◌, arith,
  replicate,
}
use fuzztest.Common.Abort.{aborted, done}
use fuzztest.Common.Bytes.{ByteArray, le_bytes, of_le}
use fuzztest.BlobSequence.{
  Blob, BlobSequence, is_valid, blob_size, blob_sequence, write, read, reset,
}
use fuzztest.BlobSequence.Layout.{At, IsWellFormed, encode}
use fuzztest.BlobSequence.Write.{IsEnd, write_total}
use fuzztest.BlobSequence.RoundTrip.{write_all, read_all, read_all-write_all}

-- A region with stale bytes.
abbrev stale : ℕ → BlobSequence
stale n = record {
  bytes = replicate n 7;
  size = n;
  offset = 0;
  had_reads = false;
  had_writes = false;
}

abbrev hello : Blob
hello = record { tag = 3; payload = 104 ∷ 105 ∷ [] }

abbrev empty : Blob
empty = record { tag = 4; payload = [] }

stale-IsWellFormed : IsWellFormed (stale 60)
stale-IsWellFormed = record { sized = refl; within = omega arith; small = omega arith }

stale-At : At (stale 17) [] (replicate 17 7)
stale-At = record { region = refl; seam = refl; total = refl; small = omega arith }

-- Eight bytes are the least.
too_small : blob_sequence (replicate 7 0) ≡ aborted
unfolding blob_sequence
too_small = refl

-- The zero tag behind the blob hides the stale bytes.
write_read :
    read_all 5 (record (stale 60) { bytes = encode hello ++ (replicate 16 0 ++ replicate 26 7) })
    ≡ done (hello ∷ [])
unfolding read_all read le_bytes of_le
write_read = refl

read_all-write_all_example :
    (s' : BlobSequence) × (write_all (hello ∷ empty ∷ []) (reset (stale 60)) ≡ done (true, s'))
    × ((n : ℕ) → 2 < n → read_all n (reset s') ≡ done (hello ∷ empty ∷ []))
read_all-write_all_example =
    read_all-write_all (stale 60) hello (empty ∷ []) stale-IsWellFormed
      ((refl, omega arith), ((refl, omega arith), tt)) (omega arith)

write_total_example :
    (((is_valid hello ≡ false) ⊎ (false ≡ true)) × (write (stale 17) hello ≡ aborted))
    ⊎ ((is_valid hello ≡ true)
        × (false ≡ false)
        × ((ok : Bool) × (s' : BlobSequence) × (r' : ByteArray) × (write (stale 17) hello
              ≡ done (ok, s'))
            × (ok ≡ leb (16 + blob_size hello) 17)
            × At s' (if ok then [] ++ encode hello else []) r'
            × (s'.had_writes ≡ true)
            × (s'.had_reads ≡ false)
            × (s'.size ≡ 17)
            × (ok ≡ true → IsEnd r')
            × (ok ≡ false → s' ≡ record (stale 17) { had_writes = true })))
write_total_example = write_total (stale 17) [] (replicate 17 7) hello stale-At
