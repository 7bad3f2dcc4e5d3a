-- ===== src/ByteArrayMutator.antt =====
-- centipede/byte_array_mutator.{h,cc}: class ByteArrayMutator. The random numbers are a parameter,
-- `rng i` being the i-th number that `rng_` gives; a mutator takes the index of the next number and
-- gives the next index. What the source leaves undefined (a remainder by zero, an access out of
-- range) is `aborted`.
pub mod Crossover
pub mod Rounding
pub mod Steps
pub mod Resize
pub mod Choices
pub mod Safety
pub mod Crossing
pub mod Many
mod Examples
use Prim.Native.Nat.{bit_xor}
use fuzztest.Common.{
  ℕ, zero, suc, ◌+◌, ◌-◌, ◌*◌, ◌/◌, ◌%◌, ◌^◌, Bool, true, false, not, ◌&&◌, List, [], ◌∷◌, ◌++◌,
  ltb, leb, ◌==◌, if◌then◌else◌, length, set, take, drop,
}
use fuzztest.Common.Abort.{Outcome, aborted, done, ◌>>=◌, ◌>>◌, check}
use fuzztest.Common.Bytes.{ByteArray, add64, sub64, memcpy_at}
use fuzztest.Knobs.{Knobs, element, choose}
use fuzztest.CmpDictionary.{Pair, max_entry_size, min_entry_size, suggest_replacement}

-- The KnobIds of the file are taken one after the other, from `first_knob` on.
pub record Mutator : Type 0 where
  pub size_alignment : ℕ
  pub max_len : ℕ
  pub dictionary : List ByteArray
  pub cmp_dictionary : List Pair
  pub knobs : Knobs
  pub first_knob : ℕ

-- std::numeric_limits<size_t>::max()
abbrev pub size_max : ℕ
size_max = 2 ^ 64 - 1

unfoldable pub byte_array_mutator : ℕ → Knobs → ℕ → Outcome Mutator
byte_array_mutator first_knob knobs seed =
    if seed == 0
    then aborted
    else done (record {
      size_alignment = 1;
      max_len = size_max;
      dictionary = [];
      cmp_dictionary = [];
      knobs = knobs;
      first_knob = first_knob;
    })

unfoldable pub set_size_alignment : Mutator → ℕ → Bool × Mutator
set_size_alignment m size_alignment =
    if not (m.max_len == size_max) && not (m.max_len % size_alignment == 0)
    then (false, m)
    else (true, record m { size_alignment = size_alignment })

unfoldable pub set_max_len : Mutator → ℕ → Bool × Mutator
set_max_len m max_len =
    if not (max_len == size_max) && not (max_len % m.size_alignment == 0)
    then (false, m)
    else (true, record m { max_len = max_len })

unfoldable pub add_to_dictionary : Mutator → List ByteArray → Mutator
add_to_dictionary m [] = m
add_to_dictionary m (entry ∷ entries) =
    add_to_dictionary
      (if ltb max_entry_size (length entry)
        then m
        else record m { dictionary = m.dictionary ++ (entry ∷ []) })
      entries

unfoldable pub round_up_to_add : Mutator → ℕ → ℕ → ℕ
round_up_to_add m curr_size to_add =
    let remainder = add64 curr_size to_add % m.size_alignment in
    let to_add' =
      if remainder == 0 then to_add else sub64 (add64 to_add m.size_alignment) remainder in
    if leb m.max_len curr_size
    then 0
    else if ltb m.max_len (add64 curr_size to_add')
    then m.max_len - curr_size
    else to_add'

unfoldable pub round_down_to_remove : Mutator → ℕ → ℕ → ℕ
round_down_to_remove m curr_size to_remove =
    let cut = curr_size - to_remove in
    let result_size = cut - cut % m.size_alignment in
    let to_remove' = curr_size - result_size in
    if leb curr_size m.size_alignment
    then 0
    else if leb curr_size to_remove
    then curr_size - m.size_alignment
    else if ltb m.max_len result_size
    then curr_size - m.max_len
    else if result_size == 0
    then sub64 to_remove' m.size_alignment
    else to_remove'

-- A mutator's result: whether it took place, the bytes, and the index of the next random number.
abbrev pub Mutated : Type 0
Mutated = Outcome (Bool × ByteArray × ℕ)

abbrev pub modulo : ℕ → ℕ → Outcome ℕ
modulo a b = if b == 0 then aborted else done (a % b)

-- std::copy of bytes to a position, and the bytes of a range.
abbrev pub overwrite : ByteArray → ℕ → ByteArray → Outcome ByteArray
overwrite bytes at from =
    if ltb (length bytes) (at + length from) then aborted else done (memcpy_at bytes at from)

abbrev pub slice : ByteArray → ℕ → ℕ → Outcome ByteArray
slice bytes first size =
    if ltb (length bytes) (first + size) then aborted else done (take size (drop first bytes))

abbrev pub store_byte : ByteArray → ℕ → ℕ → Outcome ByteArray
store_byte bytes at value = if leb (length bytes) at then aborted else done (set bytes at value)

-- vector::insert; a position behind the end is undefined.
abbrev pub spliced : ByteArray → ℕ → ByteArray → ByteArray
spliced bytes at from = take at bytes ++ (from ++ drop at bytes)

abbrev pub insert_at : ByteArray → ℕ → ByteArray → Outcome ByteArray
insert_at bytes at from = if ltb (length bytes) at then aborted else done (spliced bytes at from)

abbrev pub erase_at : ByteArray → ℕ → ℕ → ByteArray
erase_at bytes at n = take at bytes ++ drop (at + n) bytes

abbrev pub max_insert_size : ℕ
max_insert_size = 20

abbrev pub max_num_suggestions : ℕ
max_num_suggestions = 100

module _ (rng : ℕ → ℕ) where
  unfoldable pub flip_bit : ℕ → ByteArray → Mutated
  flip_bit n bytes = modulo (rng n) (length bytes * 8) >>= λ bit_idx.
      let byte_idx = bit_idx / 8 in
      let mask = 2 ^ (bit_idx % 8) in
      element bytes byte_idx >>= λ byte.
      store_byte bytes byte_idx (bit_xor byte mask) >>= λ bytes'. done (true, bytes', n + 1)

  unfoldable pub swap_bytes : ℕ → ByteArray → Mutated
  swap_bytes n bytes = modulo (rng n) (length bytes) >>= λ idx1.
      modulo (rng (n + 1)) (length bytes) >>= λ idx2. element bytes idx1 >>= λ byte1.
      element bytes idx2 >>= λ byte2. store_byte bytes idx1 byte2 >>= λ once.
      store_byte once idx2 byte1 >>= λ swapped. done (true, swapped, n + 2)

  unfoldable pub change_byte : ℕ → ByteArray → Mutated
  change_byte n bytes = modulo (rng n) (length bytes) >>= λ idx.
      store_byte bytes idx (rng (n + 1) % 256) >>= λ bytes'. done (true, bytes', n + 2)

  -- The next `count` random bytes.
  unfoldable pub random_bytes : ℕ → ℕ → ByteArray
  random_bytes zero n = []
  random_bytes (suc count) n = (rng n % 256) ∷ random_bytes count (suc n)

  module _ (m : Mutator) where
    unfoldable pub insert_bytes : ℕ → ByteArray → Mutated
    insert_bytes n bytes =
        let rounded = round_up_to_add m (length bytes) (rng n % max_insert_size + 1) in
        let num_new_bytes =
          if ltb max_insert_size rounded then sub64 rounded m.size_alignment else rounded in
        let pos = rng (n + 1) % (length bytes + 1) in
        if ltb max_insert_size num_new_bytes
        then aborted
        else (insert_at bytes pos (random_bytes num_new_bytes (n + 2)) >>= λ bytes'.
            done (true, bytes', n + 2 + num_new_bytes))

    unfoldable pub erase_bytes : ℕ → ByteArray → Mutated
    erase_bytes n bytes =
        if leb (length bytes) m.size_alignment
        then done (false, bytes, n)
        else (modulo (rng n) (length bytes / 2) >>= λ half.
            let num_bytes_to_erase = round_down_to_remove m (length bytes) (half + 1) in
            if num_bytes_to_erase == 0
            then done (false, bytes, n + 1)
            else (modulo (rng (n + 1)) (add64 (sub64 (length bytes) num_bytes_to_erase) 1)
                >>= λ pos.
                    if ltb (length bytes) (pos + num_bytes_to_erase)
                    then aborted
                    else done (true, erase_at bytes pos num_bytes_to_erase, n + 2)))

    unfoldable pub overwrite_from_dictionary : ℕ → ByteArray → Mutated
    overwrite_from_dictionary n bytes =
        if length m.dictionary == 0
        then done (false, bytes, n)
        else (element m.dictionary (rng n % length m.dictionary) >>= λ dic_entry.
            if ltb (length bytes) (length dic_entry)
            then done (false, bytes, n + 1)
            else (overwrite bytes (rng (n + 1) % (length bytes - length dic_entry + 1)) dic_entry
                >>= λ bytes'. done (true, bytes', n + 2)))

    -- The loop of OverwriteFromCmpDictionary from the round `i` on, with `rounds` rounds left.
    unfoldable pub cmp_search : ℕ → ℕ → ℕ → ℕ → ByteArray → Mutated
    cmp_search zero i search_start_idx n bytes = done (false, bytes, n)
    cmp_search (suc rounds) i search_start_idx n bytes =
        let idx = (search_start_idx + i) % length bytes in
        let suggestions =
          suggest_replacement m.cmp_dictionary (drop idx bytes) max_num_suggestions in
        let skip = cmp_search rounds (suc i) search_start_idx n bytes in
        let skip_after = cmp_search rounds (suc i) search_start_idx (n + 1) bytes in
        if leb (length bytes) (idx + min_entry_size)
        then skip
        else if length suggestions == 0
        then skip
        else (element suggestions (rng n % length suggestions) >>= λ suggestion.
            if leb (idx + length suggestion) (length bytes)
            then (overwrite bytes idx suggestion >>= λ bytes'. done (true, bytes', n + 1))
            else skip_after)

    unfoldable pub overwrite_from_cmp_dictionary : ℕ → ByteArray → Mutated
    overwrite_from_cmp_dictionary n bytes =
        if length m.cmp_dictionary == 0
        then done (false, bytes, n)
        else if ltb (length bytes) min_entry_size
        then done (false, bytes, n)
        else cmp_search (length bytes) 0 (rng n % length bytes) (n + 1) bytes

    unfoldable pub insert_from_dictionary : ℕ → ByteArray → Mutated
    insert_from_dictionary n bytes =
        if length m.dictionary == 0
        then done (false, bytes, n)
        else (element m.dictionary (rng n % length m.dictionary) >>= λ dict_entry.
            insert_at bytes (rng (n + 1) % (length bytes + 1)) dict_entry >>= λ bytes'.
            done (true, bytes', n + 2))

    -- Functions and the knobs that weigh them.
    unfoldable pub mutate_with : List ℕ → List (ℕ → ByteArray → Mutated) → ℕ → ByteArray → Mutated
    mutate_with ids mutators n bytes =
        choose m.knobs ids mutators (rng n) >>= λ mutator. mutator (n + 1) bytes

    unfoldable pub mutate_same_size : ℕ → ByteArray → Mutated
    mutate_same_size =
        mutate_with
          ((m.first_knob + 3)
            ∷ (m.first_knob + 4)
            ∷ (m.first_knob + 5)
            ∷ (m.first_knob + 6)
            ∷ (m.first_knob + 7)
            ∷ [])
          (flip_bit ∷ swap_bytes ∷ change_byte ∷ overwrite_from_dictionary
            ∷ overwrite_from_cmp_dictionary ∷ [])

    unfoldable pub mutate_increase_size : ℕ → ByteArray → Mutated
    mutate_increase_size =
        mutate_with ((m.first_knob + 8) ∷ (m.first_knob + 9) ∷ [])
          (insert_bytes ∷ insert_from_dictionary ∷ [])

    abbrev pub mutate_decrease_size : ℕ → ByteArray → Mutated
    mutate_decrease_size = erase_bytes

    -- One round of the loop of Mutate.
    unfoldable pub mutate_once : ℕ → ByteArray → Mutated
    mutate_once n bytes =
        if ltb m.max_len (length bytes)
        then mutate_decrease_size n bytes
        else if length bytes == m.max_len
        then mutate_with (m.first_knob ∷ (m.first_knob + 1) ∷ [])
            (mutate_same_size ∷ mutate_decrease_size ∷ []) n bytes
        else mutate_with (m.first_knob ∷ (m.first_knob + 1) ∷ (m.first_knob + 2) ∷ [])
            (mutate_same_size ∷ mutate_increase_size ∷ mutate_decrease_size ∷ []) n bytes

    unfoldable pub mutate_loop : ℕ → ℕ → ByteArray → Mutated
    mutate_loop zero n bytes = done (false, bytes, n)
    mutate_loop (suc rounds) n bytes = mutate_once n bytes >>= λ (ok, bytes', n').
        let again = mutate_loop rounds n' bytes' in if ok then done (true, bytes', n') else again

    unfoldable pub mutate : ℕ → ByteArray → Mutated
    mutate = mutate_loop 15
