-- ===== src/RunnerResult/Mutants/RoundTrip.antt =====
-- The mutants that a runner wrote, as the engine reads them.
use fuzztest.Common.{
  ℕ, zero, suc, ◌≤◌, ◌<◌, ◌≡◌, refl, subst, ◌∙◌, true, false, List, [], ◌∷◌, ◌++◌, ◌==◌, length,
  All, arith, append_assoc, append-nil,
}
use fuzztest.Common.Abort.{done}
use fuzztest.Common.Bytes.{ByteArray, IsU64, le_bytes, length-le_bytes, of_le-le_bytes_u64}
use fuzztest.BlobSequence.{Blob, BlobSequence, read, invalid_blob, reset}
use fuzztest.BlobSequence.Layout.{At, IsWellFormed, encode, encode_all}
use fuzztest.BlobSequence.Write.{IsEnd}
use fuzztest.BlobSequence.Read.{read_encoded, read_end}
use fuzztest.BlobSequence.RoundTrip.{IsBlob, encoded_size, write_all, write_all-At}
use fuzztest.RunnerResult.Tags
use fuzztest.RunnerResult.Mutants.{
  Mutant, MutationResult, mutants_loop, read_mutants, mutation_read,
}

-- A mutant that the reader does not take for the end of the list.
abbrev pub IsMutant : Mutant → Type 0
IsMutant m = IsU64 m.origin × (0 < length m.bytes)

abbrev pub origin_blob : Mutant → Blob
origin_blob m = record { tag = Tags.mutant_origin; payload = le_bytes 8 m.origin }

abbrev pub mutant_blob : Mutant → Blob
mutant_blob m = record { tag = Tags.mutant; payload = m.bytes }

abbrev pub custom_mutator_blob : Blob
custom_mutator_blob = record { tag = Tags.has_custom_mutator; payload = 1 ∷ [] }

abbrev pub mutant_blobs : List Mutant → List Blob
mutant_blobs [] = []
mutant_blobs (m ∷ ms) = origin_blob m ∷ mutant_blob m ∷ mutant_blobs ms

mutant_blobs-IsBlob : (ms : List Mutant) → All IsBlob (mutant_blobs ms)
mutant_blobs-IsBlob [] = tt
mutant_blobs-IsBlob (m ∷ ms) = ((refl, omega arith), ((refl, omega arith), mutant_blobs-IsBlob ms))

-- One turn of the loop on a mutant.
mutants_loop_next :
    (n : ℕ) (acc : List Mutant) (s s₁ s₂ : BlobSequence) (m : Mutant)
    → IsMutant m
    → read s ≡ done (origin_blob m, s₁)
    → read s₁ ≡ done (mutant_blob m, s₂)
    → mutants_loop (suc n) acc s ≡ mutants_loop n (acc ++ m ∷ []) s₂
unfolding mutants_loop
mutants_loop_next n acc s s₁ s₂ m (h, l) p q =
    rw (p, mutants_loop, length-le_bytes 8 m.origin, q)
      (rw (nonempty, of_le-le_bytes_u64 m.origin h))
  where
    nonempty : (length m.bytes == 0) ≡ false
    nonempty = ground arith

suc-==-zero : (n : ℕ) → (suc n == 0) ≡ false
suc-==-zero n = ground arith

suc-==-suc : (n k : ℕ) → (suc n == suc k) ≡ (n == k)
suc-==-suc n k = ground arith

mutants_loop_stop :
    (acc : List Mutant) (s : BlobSequence) → mutants_loop 0 acc s ≡ done (true, acc, s)
unfolding mutants_loop
mutants_loop_stop acc s = refl

mutants_loop_missing :
    (n : ℕ) (acc : List Mutant) (s s' : BlobSequence)
    → read s ≡ done (invalid_blob, s')
    → mutants_loop (suc n) acc s ≡ done (false, acc, s')
unfolding mutants_loop
mutants_loop_missing n acc s s' p = rw (p, mutants_loop)

mutants_loop-blobs :
    (ms acc : List Mutant) (n : ℕ) (s : BlobSequence) (a r : ByteArray)
    → At s a (encode_all (mutant_blobs ms) ++ r)
    → IsEnd r
    → s.had_writes ≡ false
    → All IsMutant ms
    → length ms ≤ n
    → (s' : BlobSequence) × (mutants_loop n acc s ≡ done (n == length ms, acc ++ ms, s'))
mutants_loop-blobs [] acc zero s a r h e u v l = (s, mutants_loop_stop acc s ∙ rw append-nil)
mutants_loop-blobs [] acc (suc n) s a r h e u v l =
    let s' = record s { had_reads = true } in
    (s', mutants_loop_missing n acc s s' (read_end s a r h e u) ∙ rw (suc-==-zero n, append-nil))
mutants_loop-blobs (m ∷ ms) acc zero s a r h e u v l = absurd (omega arith)
mutants_loop-blobs (m ∷ ms) acc (suc n) s a r h e u (v, vs) l =
    let o = origin_blob m in
    let b = mutant_blob m in
    let rest = encode_all (mutant_blobs ms) in
    let (s₁, p, h₁, u₁) =
      read_encoded s a ((encode b ++ rest) ++ r) o
        (subst (At s a) (append_assoc (encode o) (encode b ++ rest) r) h) (omega arith) refl u in
    let (s₂, q, h₂, u₂) =
      read_encoded s₁ (a ++ encode o) (rest ++ r) b
        (subst (At s₁ (a ++ encode o)) (append_assoc (encode b) rest r) h₁) (omega arith) refl u₁ in
    let (s', t) =
      mutants_loop-blobs ms (acc ++ m ∷ []) n s₂ ((a ++ encode o) ++ encode b) r h₂ e u₂ vs
        (omega arith) in
    (
      s',
      mutants_loop_next n acc s s₁ s₂ m v p q
          ∙ t
          ∙ rw (suc-==-suc n (length ms), append_assoc acc (m ∷ []) ms),
    )

-- A runner with a custom mutator writes its mutants; the engine asks for `n` of them.
pub mutation_read-blobs :
    (r : MutationResult) (s : BlobSequence) (ms : List Mutant) (n : ℕ)
    → IsWellFormed s
    → All IsMutant ms
    → length ms ≤ n
    → encoded_size (custom_mutator_blob ∷ mutant_blobs ms) ≤ s.size
    → (s' : BlobSequence) × (s'' : BlobSequence) × (write_all
          (custom_mutator_blob ∷ mutant_blobs ms)
          (reset s)
        ≡ done (true, s'))
      × (mutation_read r n (reset s')
          ≡ done (n == length ms, record r { has_custom_mutator = true; mutants = ms }, s''))
unfolding mutation_read read_mutants
mutation_read-blobs r s ms n w v l fits =
    let (s', rest, ws, h, e, u) =
      write_all-At s custom_mutator_blob (mutant_blobs ms) w
        ((refl, omega arith), mutant_blobs-IsBlob ms) fits in
    let tail = encode_all (mutant_blobs ms) in
    let (s₁, p, h₁, u₁) =
      read_encoded (reset s') [] (tail ++ rest) custom_mutator_blob
        (subst (At (reset s') []) (append_assoc (encode custom_mutator_blob) tail rest) h)
        (omega arith) refl u in
    let (s₂, q) = mutants_loop-blobs ms [] n s₁ (encode custom_mutator_blob) rest h₁ e u₁ v l in
    (s', s₂, ws, rw (p, mutation_read) (rw q))
