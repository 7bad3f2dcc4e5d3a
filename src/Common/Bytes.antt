-- ===== src/Common/Bytes.antt =====
-- Byte arrays as lists of numbers, and the `memcpy` of little-endian integers in and out of them.
use fuzztest.Common.Lists.{
  length, take, drop, All, length-append, length-take, length-drop, take-append, drop-append,
  drop_past,
}
use Prim.Native.Nat.{ℕ, zero, suc, ◌+◌, ◌-◌, ◌*◌, ◌/◌, ◌%◌, ◌^◌, ◌≤◌, ◌<◌}
use mathlib.Core.Path.{◌≡◌, refl, ap}
use mathlib.Core.List.{List, [], ◌∷◌, ◌++◌}
use native.Mathlib.Omega.{arith}
use native.Mathlib.Nat.{pow-suc}

abbrev pub ByteArray : Type 0
ByteArray = List ℕ

abbrev pub IsByte : ℕ → Type 0
IsByte b = b < 256

abbrev pub IsU64 : ℕ → Type 0
IsU64 v = v < 2 ^ 64

-- size_t and uint64_t sums wrap.
abbrev pub add64 : ℕ → ℕ → ℕ
add64 a b = (a + b) % 2 ^ 64

abbrev pub sub64 : ℕ → ℕ → ℕ
sub64 a b = (a + 2 ^ 64 - b) % 2 ^ 64

-- The memory of a `w`-byte integer, lowest byte first.
unfoldable pub le_bytes : ℕ → ℕ → ByteArray
le_bytes zero v = []
le_bytes (suc w) v = (v % 256) ∷ le_bytes w (v / 256)

-- The integer that the bytes are the memory of.
unfoldable pub of_le : ByteArray → ℕ
of_le [] = 0
of_le (b ∷ bs) = b + 256 * of_le bs

-- memcpy(to + at, from, length from)
unfoldable pub memcpy_at : ByteArray → ℕ → ByteArray → ByteArray
memcpy_at to at from = take at to ++ (from ++ drop (at + length from) to)

pub length-le_bytes : (w v : ℕ) → length (le_bytes w v) ≡ w
unfolding le_bytes
length-le_bytes zero v = refl
length-le_bytes (suc w) v = ap suc (length-le_bytes w (v / 256))

pub of_le-le_bytes : (w v : ℕ) → v < 256 ^ w → of_le (le_bytes w v) ≡ v
unfolding le_bytes of_le
of_le-le_bytes zero v h = omega arith
of_le-le_bytes (suc w) v h =
    omega (arith, pow-suc 256 w, of_le-le_bytes w (v / 256) (omega (arith, pow-suc 256 w)))

pub of_le-le_bytes_u64 : (v : ℕ) → v < 2 ^ 64 → of_le (le_bytes 8 v) ≡ v
of_le-le_bytes_u64 v h = of_le-le_bytes 8 v (omega arith)

pub le_bytes-IsByte : (w v : ℕ) → All IsByte (le_bytes w v)
unfolding le_bytes
le_bytes-IsByte zero v = tt
le_bytes-IsByte (suc w) v = (omega arith, le_bytes-IsByte w (v / 256))

-- A copy that stays inside the array keeps its length.
pub length-memcpy_at :
    (to : ByteArray) (at : ℕ) (from : ByteArray)
    → at + length from ≤ length to
    → length (memcpy_at to at from) ≡ length to
unfolding memcpy_at
length-memcpy_at to at from h = omega (
  arith,
  length-append (take at to) (from ++ drop (at + length from) to),
  length-append from (drop (at + length from) to),
  length-take at to,
  length-drop (at + length from) to,
)

-- A copy at the seam of two parts overwrites the front of the second.
pub memcpy_at-append :
    (a r : ByteArray) (at : ℕ) (from : ByteArray)
    → length a ≡ at
    → memcpy_at (a ++ r) at from ≡ a ++ (from ++ drop (length from) r)
unfolding memcpy_at
memcpy_at-append a r at from h =
    rw (take-append at a r h, drop_past (at + length from) (length from) a r (omega arith))

-- An array of `w`-byte integers in memory, and the array of `n` such integers in some bytes.
unfoldable pub store_words : ℕ → List ℕ → ByteArray
store_words w [] = []
store_words w (v ∷ vs) = le_bytes w v ++ store_words w vs

unfoldable pub load_words : ℕ → ℕ → ByteArray → List ℕ
load_words w zero bytes = []
load_words w (suc n) bytes = of_le (take w bytes) ∷ load_words w n (drop w bytes)

pub length-store_words : (w : ℕ) (vs : List ℕ) → length (store_words w vs) ≡ length vs * w
unfolding store_words
length-store_words w [] = omega arith
length-store_words w (v ∷ vs) = omega (
  arith,
  length-append (le_bytes w v) (store_words w vs),
  length-le_bytes w v,
  length-store_words w vs,
)

-- What was stored is loaded.
pub load_words-store_words :
    (w : ℕ) (vs : List ℕ)
    → All (λ v. v < 256 ^ w) vs
    → load_words w (length vs) (store_words w vs) ≡ vs
unfolding load_words store_words
load_words-store_words w [] h = refl
load_words-store_words w (v ∷ vs) (h, hs) = rw (
  take-append w (le_bytes w v) (store_words w vs) (length-le_bytes w v),
  of_le-le_bytes w v h,
  drop-append w (le_bytes w v) (store_words w vs) (length-le_bytes w v),
  load_words-store_words w vs hs,
)
