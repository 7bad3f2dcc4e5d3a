-- ===== src/Common/Maps.antt =====
-- absl::flat_hash_map and absl::flat_hash_set with numbers as keys, as association lists and lists.
use fuzztest.Common.Lists.{length}
use fuzztest.Common.Tests.{◌==◌, if◌then◌else◌}
use Prim.Native.Nat.{ℕ, ◌+◌}
use mathlib.Core.Path.{◌≡◌, refl}
use mathlib.Core.Logic.{◌≢◌}
use mathlib.Core.Bool.{Bool, true, false}
use mathlib.Core.Option.{Option, none, some}
use mathlib.Core.List.{List, [], ◌∷◌}
use native.Mathlib.Omega.{arith}

abbrev pub Map {ℓ} : Type ℓ → Type ℓ
Map V = List (ℕ × V)

module _ {ℓ} {V : Type ℓ} where
  abbrev pub find : ℕ → Map V → Option V
  find k [] = none
  find k ((j, v) ∷ m) = if j == k then some v else find k m

  -- map[k] = v
  abbrev pub assign : ℕ → V → Map V → Map V
  assign k v [] = (k, v) ∷ []
  assign k v ((j, w) ∷ m) = if j == k then (k, v) ∷ m else (j, w) ∷ assign k v m

  abbrev pub has_key : ℕ → Map V → Bool
  has_key k m = elim (find k m) [ none ↦ false | some _ ↦ true ]

  some_of : (o : Option V) → elim o [ none ↦ false | some _ ↦ true ] ≡ true → (v : V) × (o ≡ some v)
  some_of none h = cc
  some_of (some v) h = (v, refl)

  pub find-has_key : (k : ℕ) (m : Map V) → has_key k m ≡ true → (v : V) × (find k m ≡ some v)
  find-has_key k m h = some_of (find k m) h

  pub has_key-find : (k : ℕ) (m : Map V) (v : V) → find k m ≡ some v → has_key k m ≡ true
  has_key-find k m v h = rw (has_key, h) refl

  pub find-assign_self : (k : ℕ) (v : V) (m : Map V) → find k (assign k v m) ≡ some v
  find-assign_self k v [] = ground arith
  find-assign_self k v ((j, w) ∷ m) = ground (arith, find-assign_self k v m)

  pub find-assign_ne : (k j : ℕ) (v : V) (m : Map V) → j ≢ k → find k (assign j v m) ≡ find k m
  find-assign_ne k j v [] h = ground arith
  find-assign_ne k j v ((i, w) ∷ m) h = ground (arith, find-assign_ne k j v m h)

  pub find-assign :
      (k j : ℕ) (v : V) (m : Map V) → find k (assign j v m) ≡ (if j == k then some v else find k m)
  find-assign k j v [] = refl
  find-assign k j v ((i, w) ∷ m) = ground (arith, find-assign k j v m)

  -- An assignment to a new key makes the map one longer, and to an old one keeps its length.
  pub length-assign :
      (k : ℕ) (v : V) (m : Map V)
      → length (assign k v m) ≡ (if has_key k m then length m else length m + 1)
  length-assign k v [] = refl
  length-assign k v ((j, w) ∷ m) = ground (arith, length-assign k v m)

abbrev pub is_in : ℕ → List ℕ → Bool
is_in k [] = false
is_in k (j ∷ s) = if j == k then true else is_in k s
