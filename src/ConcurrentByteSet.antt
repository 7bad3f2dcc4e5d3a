-- ===== src/ConcurrentByteSet.antt =====
-- centipede/concurrent_byteset.h: a set of byte counters, and two layers of it. The calls of one
-- thread are modelled: the stores are atomic, and only they may race with each other.
pub mod Layers
pub mod Refinement
mod Examples
use fuzztest.Common.{
  ℕ, ◌+◌, ◌-◌, ◌*◌, ◌/◌, ◌%◌, Bool, true, false, not, List, [], ◌∷◌, ◌++◌, length, set, get_or,
  take, drop, replicate, ltb, leb, ◌==◌, if◌then◌else◌,
}
use fuzztest.Common.Abort.{Outcome, aborted, done, ◌>>=◌, ◌>>◌, check}
use fuzztest.Common.Bytes.{ByteArray}
use fuzztest.ForEachNonzero.{word_loop}

abbrev pub size_multiple : ℕ
size_multiple = 64

-- The sets are their bytes; `size` is the template argument kSize.
unfoldable pub clear_set : ℕ → ByteArray
clear_set size = replicate size 0

unfoldable pub set_byte : ℕ → ℕ → ℕ → ByteArray → Outcome ByteArray
set_byte size idx value bytes = if leb size idx then aborted else done (set bytes idx value)

unfoldable pub saturated_increment : ℕ → ℕ → ByteArray → Outcome ByteArray
saturated_increment size idx bytes =
    if leb size idx
    then aborted
    else let counter = get_or bytes idx 0 in
      done (if counter == 255 then bytes else set bytes idx (counter + 1))

-- The calls of the action, and the bytes after them. The loop is that of foreach_nonzero.h over
-- whole words, which a range between multiples of 64 consists of.
unfoldable pub for_each_nonzero_byte_from :
    ℕ → ℕ → ℕ → ByteArray → Outcome (List (ℕ × ℕ) × ByteArray)
for_each_nonzero_byte_from size from to bytes =
    check (from % size_multiple == 0)
    >> (check (to % size_multiple == 0)
        >> (check (leb to size)
            >> (let (calls, cleared) =
                  word_loop ((to - from) / 8) from (take (to - from) (drop from bytes)) in
                done (calls, take from bytes ++ (cleared ++ drop (from + (to - from)) bytes)))))

-- LayeredConcurrentByteSet.
pub record LayeredSet : Type 0 where
  pub upper_layer : ByteArray
  pub lower_layer : ByteArray

-- The sizes of the layers are template arguments; `layer_ratio` is kLayerRatio.
abbrev pub layer_ratio : ℕ → ℕ → ℕ
layer_ratio size upper_size = size / upper_size

unfoldable pub clear_layers : ℕ → ℕ → LayeredSet
clear_layers size upper_size = record {
  upper_layer = clear_set upper_size;
  lower_layer = clear_set size;
}

unfoldable pub set_layers : ℕ → ℕ → ℕ → ℕ → LayeredSet → Outcome LayeredSet
set_layers size upper_size idx value s =
    if leb size idx
    then aborted
    else (set_byte upper_size (idx / layer_ratio size upper_size) 1 s.upper_layer >>= λ upper.
        set_byte size idx value s.lower_layer >>= λ lower.
        done (record { upper_layer = upper; lower_layer = lower }))

unfoldable pub saturated_increment_layers : ℕ → ℕ → ℕ → LayeredSet → Outcome LayeredSet
saturated_increment_layers size upper_size idx s =
    if leb size idx
    then aborted
    else (set_byte upper_size (idx / layer_ratio size upper_size) 1 s.upper_layer >>= λ upper.
        saturated_increment size idx s.lower_layer >>= λ lower.
        done (record { upper_layer = upper; lower_layer = lower }))

-- The calls of the upper layer's action: each visits a range of the lower layer. They follow the
-- loop over the upper layer, which they leave alone.
unfoldable pub lower_calls : ℕ → ℕ → List (ℕ × ℕ) → ByteArray → Outcome (List (ℕ × ℕ) × ByteArray)
lower_calls size ratio [] lower = done ([], lower)
lower_calls size ratio ((idx, value) ∷ upper_calls) lower =
    for_each_nonzero_byte_from size (idx * ratio) (idx * ratio + ratio) lower >>= λ r.
    let (calls, next) = r in
    (lower_calls size ratio upper_calls next >>= λ s.
    let (later, last) = s in done (calls ++ later, last))

unfoldable pub for_each_nonzero_byte_layers :
    ℕ → ℕ → ℕ → ℕ → ℕ → LayeredSet → Outcome (List (ℕ × ℕ) × LayeredSet)
for_each_nonzero_byte_layers size upper_size multiple from to s =
    let ratio = layer_ratio size upper_size in
    check (leb to size)
    >> (check (from % multiple == 0)
        >> (check (to % multiple == 0)
            >> (for_each_nonzero_byte_from upper_size (from / ratio) (to / ratio) s.upper_layer
                >>= λ r.
                    let (upper_calls, upper) = r in
                    (lower_calls size ratio upper_calls s.lower_layer >>= λ l.
                    let (calls, lower) = l in
                    done (calls, record { upper_layer = upper; lower_layer = lower })))))

-- TwoLayerConcurrentByteSet: the upper layer is 64 times smaller.
abbrev pub two_layer_multiple : ℕ
two_layer_multiple = size_multiple * size_multiple

abbrev pub for_each_nonzero_byte_two_layers : ℕ → LayeredSet → Outcome (List (ℕ × ℕ) × LayeredSet)
for_each_nonzero_byte_two_layers size s =
    for_each_nonzero_byte_layers size (size / 64) two_layer_multiple 0 size s
