-- ===== src/Knobs.antt =====
-- centipede/knobs.{h,cc}: knobs, the weights of the random choices of the engine. A KnobId is its
-- number; the registry holds the static members of Knobs.
pub mod Choice
mod Examples
use fuzztest.Common.{
  ℕ, zero, suc, ◌+◌, ◌-◌, ◌%◌, ◌^◌, Bool, true, false, not, List, [], ◌∷◌, ◌++◌, ltb, leb, ◌==◌,
  if◌then◌else◌, length, set, get_or, take, drop, replicate, min, map,
}
use fuzztest.Common.Abort.{Outcome, aborted, done, ◌>>=◌, ◌>>◌, check}
use fuzztest.Common.Bytes.{ByteArray}

abbrev pub num_knobs : ℕ
num_knobs = 32

pub record Registry : Type 0 where
  pub next_id : ℕ
  pub knob_names : List ByteArray

unfoldable pub new_id : Registry → ByteArray → Outcome (ℕ × Registry)
new_id r knob_name =
    if leb num_knobs r.next_id
    then aborted
    else done (
      r.next_id,
      record r { knob_names = set r.knob_names r.next_id knob_name; next_id = suc r.next_id },
    )

abbrev pub name : Registry → ℕ → ByteArray
name r knob_id = get_or r.knob_names knob_id []

-- The values of the knobs, 32 bytes.
pub record Knobs : Type 0 where
  pub knobs : List ℕ

unfoldable pub set_all : Knobs → ℕ → Knobs
set_all k value = record k { knobs = map (λ _. value) k.knobs }

unfoldable pub set_values : Knobs → List ℕ → Knobs
set_values k values =
    let n = min num_knobs (length values) in record k { knobs = take n values ++ drop n k.knobs }

unfoldable pub knob_value : Knobs → ℕ → Outcome ℕ
knob_value k knob_id = if leb num_knobs knob_id then aborted else done (get_or k.knobs knob_id 0)

-- What the callback of ForEachKnob is called with, from the knob `i` on, for `n` knobs.
unfoldable pub knobs_from : Registry → Knobs → ℕ → ℕ → Outcome (List (ByteArray × ℕ))
knobs_from r k zero i = done []
knobs_from r k (suc n) i =
    knob_value k i >>= λ value. knobs_from r k n (suc i) >>= λ rest. done ((name r i, value) ∷ rest)

unfoldable pub for_each_knob : Registry → Knobs → Outcome (List (ByteArray × ℕ))
for_each_knob r k = knobs_from r k r.next_id 0

unfoldable pub sum_of_values : Knobs → List ℕ → Outcome ℕ
sum_of_values k [] = done 0
sum_of_values k (id ∷ ids) =
    knob_value k id >>= λ value. sum_of_values k ids >>= λ rest. done (value + rest)

module _ {ℓ} {A : Type ℓ} where
  -- choices[idx]
  abbrev pub element : List A → ℕ → Outcome A
  element [] i = aborted
  element (x ∷ xs) zero = done x
  element (x ∷ xs) (suc i) = element xs i

  -- The second loop of Choose; its end is __builtin_unreachable.
  unfoldable pub choose_loop : Knobs → List ℕ → List A → ℕ → ℕ → Outcome A
  choose_loop k [] choices partial_sum random = aborted
  choose_loop k (id ∷ ids) [] partial_sum random = aborted
  choose_loop k (id ∷ ids) (choice ∷ choices) partial_sum random = knob_value k id >>= λ value.
      let rest = choose_loop k ids choices (partial_sum + value) random in
      if ltb random (partial_sum + value) then done choice else rest

  unfoldable pub choose : Knobs → List ℕ → List A → ℕ → Outcome A
  choose k knob_ids choices random =
      check (not (length choices == 0))
      >> check (length knob_ids == length choices)
      >> sum_of_values k knob_ids
      >>= λ sum.
          if sum == 0
          then element choices (random % length choices)
          else choose_loop k knob_ids choices 0 (random % sum)

-- a <= b for the bytes of two `int8_t`.
abbrev pub le_int8 : ℕ → ℕ → Bool
le_int8 a b = leb ((a + 128) % 256) ((b + 128) % 256)

unfoldable pub generate_bool : Knobs → ℕ → ℕ → Outcome Bool
generate_bool k knob_id random = knob_value k knob_id >>= λ signed_value.
    let rand = (random % 255 + 2 ^ 64 - 127) % 2 ^ 64 % 2 ^ 8 in done (le_int8 rand signed_value)
