-- ===== src/RollingHash/Windows.antt =====
-- The rolling hash as the hash of a window.
use fuzztest.Common.{
  ℕ, zero, suc, ◌+◌, ◌-◌, ◌*◌, ◌/◌, ◌%◌, ◌^◌, ◌<◌, ◌≡◌, ◌∙◌, refl, ap, subst, List, [], ◌∷◌, ◌++◌,
  length, get_or, take, replicate, length-take, arith,
}
use native.Mathlib.Nat.{div-add-mod}
use fuzztest.RollingHash.{multiplier, RollingHash, multiply, updated, update_hash, test_only_update}

-- The hash of the items of a window, the newest first.
unfoldable pub window_hash : List ℕ → ℕ
window_hash [] = 0
window_hash (item ∷ items) = test_only_update (window_hash items) item

-- multiplier ^ n
unfoldable pub multiplier_power : ℕ → ℕ
multiplier_power zero = 1
multiplier_power (suc n) = multiplier_power n * multiplier

scaled_sum : (a b c k n : ℕ) → n * a + b ≡ c → n * (a * k) + b * k ≡ c * k
scaled_sum a b c k n e =
    let f : (n * a + b) * k ≡ c * k = ap (λ (t : ℕ). t * k) e in grind (arith, f)

-- The power that Reset stores, up to a multiple of 2 ^ 64.
multiply_lem :
    (n power : ℕ) → (c : ℕ) × (multiply n power + 2 ^ 64 * c ≡ power * multiplier_power n)
unfolding multiply multiplier_power
multiply_lem zero power = (0, omega arith)
multiply_lem (suc n) power =
    let (c, e) = multiply_lem n (power * multiplier % 2 ^ 64) in
    let q = power * multiplier / 2 ^ 64 in
    let d : 2 ^ 64 * q + power * multiplier % 2 ^ 64 ≡ power * multiplier =
      div-add-mod (power * multiplier) (2 ^ 64) in
    let k = multiplier_power n in
    let s = scaled_sum q (power * multiplier % 2 ^ 64) (power * multiplier) k (2 ^ 64) d in
    let t : power * (k * multiplier) ≡ power * multiplier * k = grind arith in
    (c + q * k, rw (multiply, multiplier_power, t) (omega (arith, e, s)))

appended_step :
    (w' w t c y : ℕ)
    → w' + 2 ^ 32 * c ≡ w + t
    → (x : ℕ) × ((w' * multiplier + y) % 2 ^ 32 + 2 ^ 32 * x
        ≡ (w * multiplier + y) % 2 ^ 32 + t * multiplier)
appended_step w' w t c y e = (
  (w' * multiplier + y) / 2 ^ 32 + c * multiplier - (w * multiplier + y) / 2 ^ 32,
  omega (arith, e),
)

-- A window whose oldest item is `oldest`.
window_hash-append :
    (items : List ℕ) (oldest : ℕ)
    → (c : ℕ) × (window_hash (items ++ (oldest ∷ [])) + 2 ^ 32 * c
        ≡ window_hash items + (oldest % 2 ^ 32) * multiplier_power (length items))
unfolding window_hash multiplier_power test_only_update
window_hash-append [] oldest = (0, omega arith)
window_hash-append (item ∷ items) oldest =
    let (c, e) = window_hash-append items oldest in
    let k = multiplier_power (length items) in
    let t : (oldest % 2 ^ 32) * (k * multiplier) ≡ (oldest % 2 ^ 32) * k * multiplier =
      grind arith in
    let (x, f) =
      appended_step (window_hash (items ++ (oldest ∷ []))) (window_hash items)
        ((oldest % 2 ^ 32) * k) c (item % 2 ^ 32) e in
    (x, rw (window_hash, test_only_update, multiplier_power, t) f)

updated_step :
    (w' w t c y p q : ℕ)
    → w' + 2 ^ 32 * c ≡ w + t
    → p + 2 ^ 64 * q ≡ t * multiplier
    → (w' * multiplier + (2 ^ 64 - p % 2 ^ 64) + y) % 2 ^ 64 % 2 ^ 32
      ≡ (w * multiplier + y) % 2 ^ 32
updated_step w' w t c y p q e f = omega (arith, e, f)

-- Of a hash that was reset to a window of one more than `items`: the update of the hash of the window
-- of `items` and `oldest` is the hash of the window of `item` and `items`.
pub updated_lem :
    (items : List ℕ) (oldest item value : ℕ)
    → updated
        (record { value = value; multiplier_power_window_size = multiply (suc (length items)) 1 })
        (window_hash (items ++ (oldest ∷ [])))
        item
        oldest
      ≡ window_hash (item ∷ items)
unfolding updated window_hash test_only_update multiplier_power
updated_lem items oldest item value =
    let (c, e) = window_hash-append items oldest in
    let (d, p) = multiply_lem (suc (length items)) 1 in
    let k = multiplier_power (length items) in
    let r = oldest % 2 ^ 32 in
    let power = multiply (suc (length items)) 1 in
    let s : r * (power + 2 ^ 64 * d) ≡ r * (1 * (k * multiplier)) = ap (λ (t : ℕ). r * t) p in
    let s' : r * power + 2 ^ 64 * (r * d) ≡ r * k * multiplier = grind (arith, s) in
    updated_step (window_hash (items ++ (oldest ∷ []))) (window_hash items) (r * k) c
      (item % 2 ^ 32) (r * power) (r * d) e s'

split_last : (n : ℕ) (xs : List ℕ) → length xs ≡ suc n → xs ≡ take n xs ++ (get_or xs n 0 ∷ [])
split_last n [] h = absurd (omega arith)
split_last zero (x ∷ []) h = refl
split_last zero (x ∷ y ∷ ys) h = absurd (omega arith)
split_last (suc n) (x ∷ xs) h = ap (λ (t : List ℕ). x ∷ t) (split_last n xs (omega arith))

pub get_or-take : (n k : ℕ) (xs : List ℕ) → k < n → get_or (take n xs) k 0 ≡ get_or xs k 0
get_or-take zero k xs h = absurd (omega arith)
get_or-take (suc n) k [] h = refl
get_or-take (suc n) zero (x ∷ xs) h = refl
get_or-take (suc n) (suc k) (x ∷ xs) h = get_or-take n k xs (omega arith)

pub get_or-replicate : (n k : ℕ) → get_or {A = ℕ} (replicate n 0) k 0 ≡ 0
get_or-replicate zero k = refl
get_or-replicate (suc n) zero = refl
get_or-replicate (suc n) (suc k) = get_or-replicate n k

pub window_hash-zeros : (n : ℕ) → window_hash (replicate n 0) ≡ 0
unfolding window_hash test_only_update
window_hash-zeros zero = refl
window_hash-zeros (suc n) = rw (window_hash, test_only_update, window_hash-zeros n) (omega arith)

-- The hash of a window of `n` items.
abbrev pub window_state : ℕ → List ℕ → RollingHash
window_state n items = record {
  value = window_hash items;
  multiplier_power_window_size = multiply n 1;
}

pub update_hash-window_state :
    (items : List ℕ) (n new_item : ℕ)
    → length items ≡ suc n
    → update_hash (window_state (suc n) items) new_item (get_or items n 0)
      ≡ window_state (suc n) (new_item ∷ take n items)
unfolding update_hash
update_hash-window_state items n new_item l =
    let o = get_or items n 0 in
    let taken : length (take n items) ≡ n = omega (arith, length-take n items) in
    let e : updated (window_state (suc n) items) (window_hash (take n items ++ (o ∷ []))) new_item o
        ≡ window_hash (new_item ∷ take n items) =
      subst
        (λ (k : ℕ).
          updated
            (record {
              value = window_hash items;
              multiplier_power_window_size = multiply (suc k) 1;
            })
            (window_hash (take n items ++ (o ∷ []))) new_item o
          ≡ window_hash (new_item ∷ take n items))
        taken (updated_lem (take n items) o new_item (window_hash items)) in
    let f : updated (window_state (suc n) items) (window_hash items) new_item o
        ≡ window_hash (new_item ∷ take n items) =
      ap (λ (t : List ℕ). updated (window_state (suc n) items) (window_hash t) new_item o)
        (split_last n items l)
      ∙ e in
    ap (λ (v : ℕ). record { value = v; multiplier_power_window_size = multiply (suc n) 1 }) f

pub take-take : (n : ℕ) (xs : List ℕ) → take n (take (suc n) xs) ≡ take n xs
take-take zero xs = refl
take-take (suc n) [] = refl
take-take (suc n) (x ∷ xs) = ap (λ (t : List ℕ). x ∷ t) (take-take n xs)
