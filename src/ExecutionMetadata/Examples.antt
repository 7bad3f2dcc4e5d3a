-- ===== src/ExecutionMetadata/Examples.antt =====
-- The theorems on packed comparisons at concrete inputs.
use fuzztest.Common.{◌≡◌, refl, Bool, true, false, List, [], ◌∷◌, some, arith, All}
use fuzztest.Common.Bytes.{ByteArray}
use fuzztest.ExecutionMetadata.{ExecutionMetadata, for_each_cmp_entry, cmp_loop}
use fuzztest.ExecutionMetadata.Entries.{
  IsEntry, entries_bytes, for_each_cmp_entry-entries, for_each_cmp_entry_total,
}

abbrev entries : List (ByteArray × ByteArray)
entries = (1 ∷ 2 ∷ [], 3 ∷ 4 ∷ []) ∷ ([], []) ∷ []

-- The last entry says two bytes for each side, and one is there.
abbrev cut : ExecutionMetadata
cut = record { cmp_data = 1 ∷ 5 ∷ 6 ∷ 2 ∷ 7 ∷ [] }

cut_fails : for_each_cmp_entry cut ≡ some (false, (5 ∷ [], 6 ∷ []) ∷ [])
unfolding for_each_cmp_entry cmp_loop
cut_fails = refl

for_each_cmp_entry-entries_example :
    for_each_cmp_entry (record { cmp_data = entries_bytes entries }) ≡ some (true, entries)
for_each_cmp_entry-entries_example =
    for_each_cmp_entry-entries entries ((refl, omega arith), ((refl, omega arith), tt))

for_each_cmp_entry_total_example :
    (r : Bool) × (es : List (ByteArray × ByteArray)) × (for_each_cmp_entry cut ≡ some (r, es))
    × ((r ≡ true) → (cut.cmp_data ≡ entries_bytes es) × All IsEntry es)
for_each_cmp_entry_total_example = for_each_cmp_entry_total cut (omega arith)
