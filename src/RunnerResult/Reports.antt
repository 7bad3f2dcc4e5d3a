-- ===== src/RunnerResult/Reports.antt =====
-- A runner's report of a batch, as the engine reads it: whole results, and one cut short.
use fuzztest.Common.{
  ℕ, zero, suc, ◌+◌, ◌/◌, ◌≤◌, ◌<◌, ◌≡◌, ◌⊎◌, inl, inr, refl, subst, ap, ◌∙◌, true, List, [], ◌∷◌,
  ◌++◌, Option, none, some, map, ◌==◌, length, take, drop, set, get_or, All, arith, append_assoc,
  append-nil, length-append, length-drop, take-append,
}
use fuzztest.Common.Abort.{done}
use fuzztest.Common.Bytes.{
  IsU64, store_words, load_words, length-store_words, load_words-store_words,
}
use fuzztest.ExecutionMetadata.{ExecutionMetadata, read_metadata}
use fuzztest.BlobSequence.{Blob, BlobSequence, blob_size, reset}
use fuzztest.BlobSequence.Layout.{IsWellFormed, encode_all, length-encode_all}
use fuzztest.BlobSequence.RoundTrip.{IsBlob, encoded_size, write_all, write_all-At}
use fuzztest.RunnerResult.Tags
use fuzztest.RunnerResult.{
  BatchResult, Reading, go_on, batch_round, batch_read, on_current, on_input_begin, on_input_end,
  start, ExecutionResult, cleared, Stats, stats_words, stats_of_words, user_feature,
}
use fuzztest.RunnerResult.Rounds.{rounds, rounds_next, batch_loop-rounds}

-- Features and statistics that fit 64 bits.
abbrev pub IsResult : ExecutionResult → Type 0
IsResult x = All IsU64 x.features × All IsU64 (stats_words x.stats)

abbrev pub begin_blob : Blob
begin_blob = record { tag = Tags.input_begin; payload = [] }

abbrev pub end_blob : Blob
end_blob = record { tag = Tags.input_end; payload = [] }

abbrev pub features_blob : List ℕ → Blob
features_blob vec = record { tag = Tags.features; payload = store_words 8 vec }

abbrev pub stats_blob : Stats → Blob
stats_blob stats = record { tag = Tags.stats; payload = store_words 8 (stats_words stats) }

abbrev pub metadata_blob : ExecutionMetadata → Blob
metadata_blob m = record { tag = Tags.metadata; payload = m.cmp_data }

-- What a runner writes about one input.
abbrev pub report : ExecutionResult → List Blob
report x =
    begin_blob
    ∷ features_blob x.features
    ∷ metadata_blob x.metadata
    ∷ stats_blob x.stats
    ∷ end_blob
    ∷ []

abbrev pub reports : List ExecutionResult → List Blob
reports [] = []
reports (x ∷ xs) = report x ++ reports xs

set-append {ℓ} :
    {A : Type ℓ} (front : List A) (y v : A) (rest : List A) (i : ℕ)
    → i ≡ length front
    → set (front ++ y ∷ rest) i v ≡ front ++ v ∷ rest
set-append [] y v rest zero e = refl
set-append [] y v rest (suc i) e = absurd (omega arith)
set-append (x ∷ front) y v rest zero e = absurd (omega arith)
set-append (x ∷ front) y v rest (suc i) e = ap (◌∷◌ x) (set-append front y v rest i (omega arith))

get_or-append {ℓ} :
    {A : Type ℓ} (front : List A) (y d : A) (rest : List A) (i : ℕ)
    → i ≡ length front
    → get_or (front ++ y ∷ rest) i d ≡ y
get_or-append [] y d rest zero e = refl
get_or-append [] y d rest (suc i) e = absurd (omega arith)
get_or-append (x ∷ front) y d rest zero e = absurd (omega arith)
get_or-append (x ∷ front) y d rest (suc i) e = get_or-append front y d rest i (omega arith)

-- The loop between two inputs, and within one whose result is `y` so far.
abbrev pub between : List ExecutionResult → List ExecutionResult → Reading
between front rest = record {
  num_begins = length front;
  num_ends = length front;
  current = none;
  results = front ++ rest;
}

abbrev pub within : List ExecutionResult → ExecutionResult → List ExecutionResult → Reading
within front y rest = record {
  num_begins = length front + 1;
  num_ends = length front;
  current = some (length front);
  results = front ++ y ∷ rest;
}

loaded_features :
    (vec : List ℕ)
    → All IsU64 vec
    → load_words 8 (blob_size (features_blob vec) / 8) (store_words 8 vec) ≡ vec
loaded_features vec h =
    let count : blob_size (features_blob vec) / 8 ≡ length vec =
      omega (arith, length-store_words 8 vec) in
    rw count (load_words-store_words 8 vec h)

stats_size : (s : Stats) → (blob_size (stats_blob s) == 32) ≡ true
stats_size s = rw (length-store_words 8 (stats_words s))

module _ (front : List ExecutionResult) (y : ExecutionResult) (rest : List ExecutionResult) where
  on_current-within :
      (f : ExecutionResult → ExecutionResult)
      → on_current (within front y rest) f ≡ go_on (within front (f y) rest)
  unfolding on_current
  on_current-within f = rw (
    get_or-append front y cleared rest (length front) refl,
    set-append front y (f y) rest (length front) refl,
  )

  round_begin :
      batch_round (between front (y ∷ rest)) begin_blob ≡ go_on (within front cleared rest)
  unfolding batch_round on_input_begin
  round_begin =
      rw (set-append front y cleared rest (length front) refl)
        (ground (arith, length-append front (y ∷ rest)))

  round_features :
      (vec : List ℕ)
      → All IsU64 vec
      → batch_round (within front y rest) (features_blob vec)
        ≡ go_on (within front (record y { features = vec }) rest)
  unfolding batch_round
  round_features vec h =
      on_current-within _
      ∙ ap (λ (v : List ℕ). go_on (within front (record y { features = v }) rest))
          (loaded_features vec h)

  round_metadata :
      (m : ExecutionMetadata)
      → batch_round (within front y rest) (metadata_blob m)
        ≡ go_on (within front (record y { metadata = m }) rest)
  unfolding batch_round read_metadata
  round_metadata m = on_current-within _

  round_stats :
      (s : Stats)
      → All IsU64 (stats_words s)
      → batch_round (within front y rest) (stats_blob s)
        ≡ go_on (within front (record y { stats = s }) rest)
  unfolding batch_round
  round_stats s h = rw (stats_size s) (
      on_current-within _
      ∙ ap (λ (w : List ℕ). go_on (within front (record y { stats = stats_of_words w }) rest))
          (load_words-store_words 8 (stats_words s) h))

  round_end : batch_round (within front y rest) end_blob ≡ go_on (between (front ++ y ∷ []) rest)
  unfolding batch_round on_input_end
  round_end = rw (append_assoc front (y ∷ []) rest, length-append front (y ∷ [])) (ground arith)

rounds-report :
    (front : List ExecutionResult) (x y : ExecutionResult) (rest : List ExecutionResult)
    (bs : List Blob)
    → IsResult x
    → rounds (between front (y ∷ rest)) (report x ++ bs)
      ≡ rounds (between (front ++ x ∷ []) rest) bs
rounds-report front x y rest bs (hf, hs) =
    rounds_next _ _ begin_blob _ (round_begin front y rest)
    ∙ rounds_next _ _ (features_blob x.features) _ (round_features front cleared rest x.features hf)
    ∙ rounds_next _ _ (metadata_blob x.metadata) _
        (round_metadata front (record cleared { features = x.features }) rest x.metadata)
    ∙ rounds_next _ _ (stats_blob x.stats) _ (
        round_stats front (record cleared { features = x.features; metadata = x.metadata }) rest
          x.stats hs)
    ∙ rounds_next _ _ end_blob bs (round_end front x rest)

rounds-reports :
    (xs front rest : List ExecutionResult) (bs : List Blob)
    → All IsResult xs
    → length xs ≤ length rest
    → rounds (between front rest) (reports xs ++ bs)
      ≡ rounds (between (front ++ xs) (drop (length xs) rest)) bs
rounds-reports [] front rest bs h l = rw (append-nil front)
rounds-reports (x ∷ xs) front [] bs h l = absurd (omega arith)
rounds-reports (x ∷ xs) front (y ∷ rest) bs (h, hs) l =
    rw (append_assoc (report x) (reports xs) bs) (
      rounds-report front x y rest (reports xs ++ bs) h
      ∙ rounds-reports xs (front ++ x ∷ []) rest bs hs (omega arith)
      ∙ rw (append_assoc front (x ∷ []) xs))

-- A blob that a runner may send between the begin and the end of an input.
abbrev pub IsMiddle : Blob → Type 0
IsMiddle b =
    (b.tag ≡ Tags.features)
    ⊎ ((b.tag ≡ Tags.metadata)
        ⊎ ((b.tag ≡ Tags.dispatcher_32bit_features) ⊎ ((b.tag ≡ Tags.stats) × (blob_size b ≡ 32))))

round_middle :
    (front : List ExecutionResult) (y : ExecutionResult) (rest : List ExecutionResult) (b : Blob)
    → IsMiddle b
    → (y' : ExecutionResult) × (batch_round (within front y rest) b ≡ go_on (within front y' rest))
unfolding batch_round
round_middle front y rest b (inl e) = (
  record y { features = load_words 8 (blob_size b / 8) b.payload },
  rw e (on_current-within front y rest _),
)
round_middle front y rest b (inr (inl e)) =
    (record y { metadata = read_metadata b }, rw e (on_current-within front y rest _))
round_middle front y rest b (inr (inr (inl e))) = (
  record y { features = y.features ++ map user_feature (load_words 4 (blob_size b / 4) b.payload) },
  rw e (on_current-within front y rest _),
)
round_middle front y rest b (inr (inr (inr (e, n)))) = (
  record y { stats = stats_of_words (load_words 8 4 b.payload) },
  rw (e, n) (on_current-within front y rest _),
)

rounds_middle :
    (ms : List Blob) (front : List ExecutionResult) (y : ExecutionResult)
    (rest : List ExecutionResult)
    → All IsMiddle ms
    → (y' : ExecutionResult) × (rounds (within front y rest) ms ≡ go_on (within front y' rest))
rounds_middle [] front y rest h = (y, unfold rounds in refl)
rounds_middle (b ∷ ms) front y rest (h, hs) =
    let (y₁, p) = round_middle front y rest b h in
    let (y₂, q) = rounds_middle ms front y₁ rest hs in (y₂, rounds_next _ _ b ms p ∙ q)

-- The report of the input on which a runner died, if it did: a begin and no end.
abbrev pub cut_report : Option (List Blob) → List Blob
cut_report none = []
cut_report (some ms) = begin_blob ∷ ms

abbrev pub IsCut : Option (List Blob) → Type 0
IsCut none = Unit {0}
IsCut (some ms) = All IsMiddle ms

abbrev pub num_inputs : List ExecutionResult → Option (List Blob) → ℕ
num_inputs xs none = length xs
num_inputs xs (some ms) = length xs + 1

rounds-All :
    (xs results : List ExecutionResult) (cut : Option (List Blob))
    → All IsResult xs
    → IsCut cut
    → num_inputs xs cut ≤ length results
    → (t : Reading) × (rounds (between [] results) (reports xs ++ cut_report cut) ≡ go_on t)
      × (t.num_ends ≡ length xs)
      × (take (length xs) t.results ≡ xs)
rounds-All xs results none h c l = (
  between xs (drop (length xs) results),
  rounds-reports xs [] results [] h l ∙ unfold rounds in refl,
  refl,
  take-append (length xs) xs _ refl,
)
rounds-All xs results (some ms) h c l =
    cut_all (drop (length xs) results) (omega (arith, length-drop (length xs) results)) refl
  where
    cut_all :
        (rest : List ExecutionResult)
        → 0 < length rest
        → drop (length xs) results ≡ rest
        → (t : Reading) × (rounds (between [] results) (reports xs ++ begin_blob ∷ ms) ≡ go_on t)
          × (t.num_ends ≡ length xs)
          × (take (length xs) t.results ≡ xs)
    cut_all [] p e = absurd (omega arith)
    cut_all (y ∷ rest) p e =
        let (y', m) = rounds_middle ms xs cleared rest c in
        (
          within xs y' rest,
          rounds-reports xs [] results (begin_blob ∷ ms) h (omega arith)
              ∙ ap (λ (d : List ExecutionResult). rounds (between xs d) (begin_blob ∷ ms)) e
              ∙ rounds_next _ _ begin_blob ms (round_begin xs y rest)
              ∙ m,
          refl,
          take-append (length xs) xs _ refl,
        )

reports-IsBlob :
    (xs : List ExecutionResult) (bs : List Blob) → All IsBlob bs → All IsBlob (reports xs ++ bs)
reports-IsBlob [] bs h = h
reports-IsBlob (x ∷ xs) bs h = (
  (refl, omega arith),
  (
    (refl, omega arith),
    ((refl, omega arith), ((refl, omega arith), ((refl, omega arith), reports-IsBlob xs bs h))),
  ),
)

middle-IsBlob : (ms : List Blob) → All IsMiddle ms → All IsBlob ms
middle-IsBlob [] h = tt
middle-IsBlob (b ∷ ms) (h, hs) = ((ground arith, ground arith), middle-IsBlob ms hs)

cut_report-IsBlob : (cut : Option (List Blob)) → IsCut cut → All IsBlob (cut_report cut)
cut_report-IsBlob none h = tt
cut_report-IsBlob (some ms) h = ((refl, omega arith), middle-IsBlob ms h)

-- The engine gets what the runner reported. Over any stale bytes: if the blobs of the inputs `xs`
-- and of the input that the runner died on fit the region, and the engine expects that many
-- inputs, `BatchResult::Read` returns true with exactly the whole results `xs` read.
pub batch_read-reports :
    (r : BatchResult) (s : BlobSequence) (xs : List ExecutionResult) (cut : Option (List Blob))
    (b : Blob) (bs : List Blob)
    → IsWellFormed s
    → All IsResult xs
    → IsCut cut
    → reports xs ++ cut_report cut ≡ b ∷ bs
    → encoded_size (b ∷ bs) ≤ s.size
    → num_inputs xs cut ≤ length r.results
    → (s' : BlobSequence) × (s'' : BlobSequence) × (r' : BatchResult) × (write_all
          (b ∷ bs)
          (reset s)
        ≡ done (true, s'))
      × (batch_read r (reset s') ≡ done (some (true, r', s'')))
      × (r'.num_outputs_read ≡ length xs)
      × (take (length xs) r'.results ≡ xs)
unfolding batch_read
batch_read-reports r s xs cut b bs w h c e fits room =
    let blobs : All IsBlob (b ∷ bs) =
      subst (All IsBlob) e (reports-IsBlob xs (cut_report cut) (cut_report-IsBlob cut c)) in
    let (s', rest, ws, h', ends, u) = write_all-At s b bs w blobs fits in
    let (s'', m) =
      batch_loop-rounds (b ∷ bs) (suc (reset s').size) (start r) (reset s') [] rest
        (omega (arith, h', length-encode_all (b ∷ bs), length-append (encode_all (b ∷ bs)) rest)) h'
        ends blobs u in
    let (t, p, n, q) = rounds-All xs r.results cut h c room in
    (
      s',
      s'',
      record r { results = t.results; num_outputs_read = t.num_ends },
      ws,
      rw m (rw (← e, p)),
      n,
      q,
    )
