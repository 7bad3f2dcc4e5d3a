-- ===== src/ForEachNonzero/Words.antt =====
-- The calls for single bytes and for the bytes of a word.
use fuzztest.Common.{
  ℕ, zero, suc, ◌+◌, ◌-◌, ◌*◌, ◌/◌, ◌%◌, ◌^◌, ◌<◌, ◌≡◌, ◌∙◌, inl, inr, refl, sym, ap, List, [], ◌∷◌,
  ◌++◌, ◌==◌, if◌then◌else◌, length, take, drop, replicate, All, arith, Bool-cases,
}
use fuzztest.Common.Bytes.{ByteArray, IsByte, of_le}
use native.Mathlib.Nat.{add-mul-div_left, div-eq_of_lt, pow-suc}
use fuzztest.ForEachNonzero.{Visited, visit_byte, tail_loop, word_calls}

-- The bytes that are not zero with their indices, from `idx` on.
unfoldable pub nonzero_bytes : ℕ → ByteArray → List (ℕ × ℕ)
nonzero_bytes idx [] = []
nonzero_bytes idx (byte ∷ bytes) =
    let rest = nonzero_bytes (suc idx) bytes in if byte == 0 then rest else (idx, byte) ∷ rest

abbrev pub expected : ℕ → ByteArray → Visited
expected idx bytes = (nonzero_bytes idx bytes, replicate (length bytes) 0)

pub visit_byte_lem :
    (idx byte : ℕ) (bytes : ByteArray)
    → visit_byte idx byte (expected (suc idx) bytes) ≡ expected idx (byte ∷ bytes)
unfolding visit_byte nonzero_bytes
visit_byte_lem idx byte bytes = elim (Bool-cases (byte == 0)) [
  | inl z ↦
      let e : byte ≡ 0 = ground arith in
      rw z (ap (λ (t : ℕ). (nonzero_bytes (suc idx) bytes, t ∷ replicate (length bytes) 0)) e)
  | inr z ↦ rw z refl
]

pub tail_loop_lem : (idx : ℕ) (bytes : ByteArray) → tail_loop idx bytes ≡ expected idx bytes
unfolding tail_loop nonzero_bytes
tail_loop_lem idx [] = refl
tail_loop_lem idx (byte ∷ bytes) =
    ap (visit_byte idx byte) (tail_loop_lem (suc idx) bytes) ∙ visit_byte_lem idx byte bytes

-- 256 ^ pos, the weight of a position in a word.
unfoldable place : ℕ → ℕ
place zero = 1
place (suc pos) = place pos * 256

place_lem : (pos : ℕ) → (2 ^ (pos * 8) ≡ place pos) × (0 < place pos)
unfolding place
place_lem zero = (refl, omega arith)
place_lem (suc pos) =
    let (e, h) = place_lem pos in
    let k = pos * 8 in
    let f : suc pos * 8 ≡ suc (suc (suc (suc (suc (suc (suc (suc k))))))) = omega arith in
    let twice : 2 ^ suc (suc (suc (suc (suc (suc (suc (suc k))))))) ≡ place pos * 256 = omega (
      arith,
      e,
      pow-suc 2 k,
      pow-suc 2 (suc k),
      pow-suc 2 (suc (suc k)),
      pow-suc 2 (suc (suc (suc k))),
      pow-suc 2 (suc (suc (suc (suc k)))),
      pow-suc 2 (suc (suc (suc (suc (suc k))))),
      pow-suc 2 (suc (suc (suc (suc (suc (suc k)))))),
      pow-suc 2 (suc (suc (suc (suc (suc (suc (suc k))))))),
    ) in
    (ap (λ (t : ℕ). 2 ^ t) f ∙ twice, omega arith)

-- The value at a position of a word is its byte there.
word_byte :
    (p low byte high : ℕ) → low < p → byte < 256 → (low + p * (byte + 256 * high)) / p % 256 ≡ byte
word_byte p low byte high h l =
    let e = add-mul-div_left low (byte + 256 * high) {y = p} (omega arith) in
    let z : low / p ≡ 0 = div-eq_of_lt h in rw (e, z) (omega arith)

below : (p low byte : ℕ) → low < p → byte < 256 → low + p * byte < p * 256
below p low byte h l =
    let d = 255 - byte in
    let e : p * (byte + d) ≡ p * byte + p * d = grind arith in
    let f : byte + d ≡ 255 = omega arith in
    let g : p * (byte + d) ≡ p * 255 = ap (λ (t : ℕ). p * t) f in omega (arith, e, g)

word_calls_lem :
    (bytes rest : ByteArray) (pos idx low : ℕ)
    → All IsByte bytes
    → low < place pos
    → word_calls
        (length bytes)
        pos
        idx
        (low + place pos * of_le bytes)
        (nonzero_bytes (idx + pos + length bytes) rest)
      ≡ nonzero_bytes (idx + pos) (bytes ++ rest)
unfolding word_calls nonzero_bytes of_le place
word_calls_lem [] rest pos idx low h l = ap (λ (t : ℕ). nonzero_bytes t rest) (omega arith)
word_calls_lem (byte ∷ bytes) rest pos idx low (b, h) l =
    let (e, positive) = place_lem pos in
    let r = of_le bytes in
    let value = word_byte (place pos) low byte r l b in
    let less : low + place pos * byte < place pos * 256 = below (place pos) low byte l b in
    let whole : low + place pos * (byte + 256 * r) ≡ low + place pos * byte + place pos * 256 * r =
      grind arith in
    let later = word_calls_lem bytes rest (suc pos) idx (low + place pos * byte) h less in
    let end : idx + suc pos + length bytes ≡ idx + pos + suc (length bytes) = omega arith in
    let next : idx + suc pos ≡ suc (idx + pos) = omega arith in
    let later' : word_calls (length bytes) (suc pos) idx (low + place pos * (byte + 256 * r))
          (nonzero_bytes (idx + pos + suc (length bytes)) rest)
        ≡ nonzero_bytes (suc (idx + pos)) (bytes ++ rest) =
      ap
        (λ (t : ℕ).
          word_calls (length bytes) (suc pos) idx t
            (nonzero_bytes (idx + pos + suc (length bytes)) rest))
        whole
      ∙ ap
          (λ (t : ℕ).
            word_calls (length bytes) (suc pos) idx (low + place pos * byte + place pos * 256 * r)
              (nonzero_bytes t rest))
          (sym end)
      ∙ later
      ∙ ap (λ (t : ℕ). nonzero_bytes t (bytes ++ rest)) next in
    rw (e, value, later') refl

pub whole_word :
    (bytes rest : ByteArray) (n idx : ℕ)
    → All IsByte bytes
    → length bytes ≡ n
    → word_calls n 0 idx (of_le bytes) (nonzero_bytes (idx + n) rest)
      ≡ nonzero_bytes idx (bytes ++ rest)
unfolding place
whole_word bytes rest n idx h l =
    let w : of_le bytes ≡ 0 + 1 * of_le bytes = omega arith in
    let start : idx + 0 ≡ idx = omega arith in
    let end : idx + n ≡ idx + 0 + length bytes = omega (arith, l) in
    ap (λ (t : ℕ). word_calls t 0 idx (of_le bytes) (nonzero_bytes (idx + n) rest)) (sym l)
    ∙ ap (λ (t : ℕ). word_calls (length bytes) 0 idx t (nonzero_bytes (idx + n) rest)) w
    ∙ ap (λ (t : ℕ). word_calls (length bytes) 0 idx (0 + 1 * of_le bytes) (nonzero_bytes t rest))
        end
    ∙ word_calls_lem bytes rest 0 idx 0 h (omega arith)
    ∙ ap (λ (t : ℕ). nonzero_bytes t (bytes ++ rest)) start

-- A loaded word is zero where all its bytes are.
pub All-take : (n : ℕ) (bytes : ByteArray) → All IsByte bytes → All IsByte (take n bytes)
All-take zero bytes h = tt
All-take (suc n) [] h = tt
All-take (suc n) (byte ∷ bytes) (b, h) = (b, All-take n bytes h)

pub All-drop : (n : ℕ) (bytes : ByteArray) → All IsByte bytes → All IsByte (drop n bytes)
All-drop zero bytes h = h
All-drop (suc n) [] h = tt
All-drop (suc n) (byte ∷ bytes) (b, h) = All-drop n bytes h

pub zero_word :
    (idx : ℕ) (bytes rest : ByteArray)
    → of_le bytes ≡ 0
    → (nonzero_bytes idx (bytes ++ rest) ≡ nonzero_bytes (idx + length bytes) rest)
      × (bytes ≡ replicate (length bytes) 0)
unfolding of_le nonzero_bytes
zero_word idx [] rest h = (ap (λ (t : ℕ). nonzero_bytes t rest) (omega arith), refl)
zero_word idx (byte ∷ bytes) rest h =
    let z : byte ≡ 0 = omega (arith, h) in
    let (e, f) = zero_word (suc idx) bytes rest (omega (arith, h)) in
    let end : suc idx + length bytes ≡ idx + suc (length bytes) = omega arith in
    (
      rw z (e ∙ ap (λ (t : ℕ). nonzero_bytes t rest) end),
      ap (λ (t : ℕ). t ∷ bytes) z ∙ ap (λ (t : ByteArray). 0 ∷ t) f,
    )
