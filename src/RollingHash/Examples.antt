-- ===== src/RollingHash/Examples.antt =====
-- The theorems on ring buffers and call stacks at concrete inputs.
use fuzztest.Common.{ℕ, ◌≡◌, refl, List, [], ◌∷◌, take, replicate, arith}
use fuzztest.Common.Abort.{done}
use fuzztest.RollingHash.Windows.{window_hash}
use fuzztest.RollingHash.{reset_hash}
use fuzztest.RollingHash.CallStack.{CallStack, on_function_entry, stack_hash, entered, window_of}
use fuzztest.RollingHash.CallStack.Frames.{Holds}
use fuzztest.RollingHash.CallStack.Entry.{IsStack, on_function_entry_lem}
use fuzztest.RollingHash.RingBuffer.{
  HashedRingBuffer, reset_buffer, push_item, push_all, newest_first, push_all_lem,
}

abbrev items : List ℕ
items = 5 ∷ 6 ∷ 7 ∷ 8 ∷ []

push_all_lem_example :
    (b : HashedRingBuffer) × (reset_buffer 4 3 ≡ done b)
    × ((push_all b items).hash.value ≡ window_hash (take 3 (newest_first items (replicate 3 0))))
    × ((push_item (push_all b items) 9).0
        ≡ window_hash (take 3 (9 ∷ newest_first items (replicate 3 0))))
push_all_lem_example = push_all_lem 4 3 items 9 (omega arith) (omega arith)

abbrev empty_stack : CallStack
empty_stack = record {
  depth = 0;
  pc = replicate 4 0;
  sp = replicate 4 0;
  hashes = replicate 4 0;
  rolling_hash = reset_hash 2;
  window_size = 2;
}

empty_stack-IsStack : IsStack 4 2 empty_stack []
unfolding IsStack Holds
empty_stack-IsStack = (refl, omega arith, refl, refl, refl, refl, refl, tt)

on_function_entry_lem_example :
    IsStack 4 2 (on_function_entry 4 empty_stack 70 1000) (entered 4 [] 70 1000)
    × (stack_hash (on_function_entry 4 empty_stack 70 1000)
        ≡ window_hash (window_of 2 (entered 4 [] 70 1000)))
on_function_entry_lem_example =
    on_function_entry_lem 4 2 empty_stack [] 70 1000 (omega arith) empty_stack-IsStack
