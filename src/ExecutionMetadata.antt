-- ===== src/ExecutionMetadata.antt =====
-- centipede/execution_metadata.h and .cc: operand pairs of comparisons, packed in one byte array.
pub mod Entries
mod Examples
use fuzztest.Common.{
  ℕ, zero, suc, ◌+◌, ◌*◌, ◌%◌, Bool, true, false, not, List, [], ◌∷◌, ◌++◌, Option, none, some, ltb,
  leb, ◌==◌, if◌then◌else◌, length, take, drop, get_or,
}
use fuzztest.Common.Abort.{Outcome}
use fuzztest.Common.Bytes.{ByteArray}
use fuzztest.BlobSequence.{Blob, BlobSequence, write}

pub record ExecutionMetadata : Type 0 where
  pub cmp_data : ByteArray

abbrev pub no_metadata : ExecutionMetadata
no_metadata = record { cmp_data = [] }

-- `push_back(a.size())` keeps the low byte of the size.
pub append_cmp_entry : ExecutionMetadata → ByteArray → ByteArray → Bool × ExecutionMetadata
append_cmp_entry m a b =
    if not (length a == length b)
    then (false, m)
    else if leb 256 (length a)
    then (false, m)
    else (true, record m { cmp_data = (m.cmp_data ++ (length a % 256) ∷ []) ++ a ++ b })

pub write_metadata : ExecutionMetadata → ℕ → BlobSequence → Outcome (Bool × BlobSequence)
write_metadata m tag s = write s (record { tag = tag; payload = m.cmp_data })

unfoldable pub read_metadata : Blob → ExecutionMetadata
read_metadata b = record { cmp_data = b.payload }

-- The loop from position `i`, with the calls of `callback` in their order. `none`: out of fuel.
pub cmp_loop : ℕ → ByteArray → ℕ → Option (Bool × List (ByteArray × ByteArray))
cmp_loop zero bytes i = none
cmp_loop (suc fuel) bytes i =
    let size = get_or bytes i 0 in
    let a = take size (drop (i + 1) bytes) in
    let b = take size (drop (i + size + 1) bytes) in
    let rest = cmp_loop fuel bytes (i + (1 + 2 * size)) in
    if ltb i (length bytes)
    then if ltb (length bytes) (i + 2 * size + 1)
      then some (false, [])
      else elim rest [ none ↦ none | some (r, calls) ↦ some (r, (a, b) ∷ calls) ]
    else some (true, [])

-- Each round moves `i`, so one round more than there are bytes is enough.
pub for_each_cmp_entry : ExecutionMetadata → Option (Bool × List (ByteArray × ByteArray))
for_each_cmp_entry m = cmp_loop (suc (length m.cmp_data)) m.cmp_data 0
