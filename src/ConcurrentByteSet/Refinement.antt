-- ===== src/ConcurrentByteSet/Refinement.antt =====
-- TwoLayerConcurrentByteSet of centipede/concurrent_byteset.h does what ConcurrentByteSet does.
use fuzztest.Common.{
  ℕ, zero, suc, ◌+◌, ◌/◌, ◌%◌, ◌<◌, ◌≡◌, ◌∙◌, sym, refl, ap, [], ◌∷◌, ◌++◌, append-nil, length,
  length-replicate, set, get_or, replicate, ◌==◌, if◌then◌else◌, All, arith,
}
use fuzztest.Common.Abort.{done}
use fuzztest.Common.Bytes.{ByteArray, IsByte}
use fuzztest.ForEachNonzero.Words.{nonzero_bytes}
use fuzztest.ConcurrentByteSet.{clear_set, for_each_nonzero_byte_from, LayeredSet, clear_layers}
use fuzztest.ConcurrentByteSet.Layers.{IsLayered, range_lem}

-- Two layers of a size that is a multiple of 64 * 64.
pub record IsTwoLayer (size : ℕ) (s : LayeredSet) : Type 0 where
  pub multiple : size % 4096 ≡ 0
  pub positive : 0 < size
  pub upper : length s.upper_layer ≡ size / 64
  pub lower : length s.lower_layer ≡ size
  pub upper_bytes : All IsByte s.upper_layer
  pub bytes : All IsByte s.lower_layer
  pub layered : IsLayered s.upper_layer s.lower_layer

pub All-set : (xs : ByteArray) (i v : ℕ) → All IsByte xs → v < 256 → All IsByte (set xs i v)
All-set [] i v h l = tt
All-set (x ∷ xs) zero v (h, hs) l = (l, hs)
All-set (x ∷ xs) (suc i) v (h, hs) l = (h, All-set xs i v hs l)

-- What a saturated increment leaves.
incremented : ℕ → ByteArray → ByteArray
incremented idx bytes =
    if get_or bytes idx 0 == 255 then bytes else set bytes idx (get_or bytes idx 0 + 1)

-- All of one layer.
pub all_lem :
    (size : ℕ) (bytes : ByteArray)
    → size % 64 ≡ 0
    → length bytes ≡ size
    → All IsByte bytes
    → for_each_nonzero_byte_from size 0 size bytes ≡ done (nonzero_bytes 0 bytes, replicate size 0)
all_lem size bytes m l h =
    ap (for_each_nonzero_byte_from size 0 size) (sym (append-nil bytes))
    ∙ range_lem size 0 size [] bytes [] refl (omega arith) (omega arith) (omega arith) m h
    ∙ (λ i. done (nonzero_bytes 0 bytes, cleared i))
  where
    cleared : replicate {A = ℕ} (length bytes) 0 ++ [] ≡ replicate size 0
    cleared = append-nil _ ∙ ap (λ (k : ℕ). replicate {A = ℕ} k 0) l

pub get_or-zeros : (n k : ℕ) → get_or {A = ℕ} (replicate n 0) k 0 ≡ 0
get_or-zeros zero k = refl
get_or-zeros (suc n) zero = refl
get_or-zeros (suc n) (suc k) = get_or-zeros n k

pub zeros-IsByte : (n : ℕ) → All IsByte (replicate n 0)
zeros-IsByte zero = tt
zeros-IsByte (suc n) = (omega arith, zeros-IsByte n)

pub clear_layers-IsTwoLayer :
    (size : ℕ) → size % 4096 ≡ 0 → 0 < size → IsTwoLayer size (clear_layers size (size / 64))
unfolding clear_layers clear_set
clear_layers-IsTwoLayer size m p = record {
  multiple = m;
  positive = p;
  upper = length-replicate (size / 64) 0;
  lower = length-replicate size 0;
  upper_bytes = zeros-IsByte (size / 64);
  bytes = zeros-IsByte size;
  layered = λ k z. get_or-zeros size k;
}
