-- ===== src/ForEachNonzero/Order.antt =====
-- The calls of ForEachNonZeroByte, in their order.
use fuzztest.Common.{
  ℕ, zero, suc, ◌+◌, ◌*◌, ◌/◌, ◌%◌, ◌≤◌, ◌≡◌, ◌∙◌, inl, inr, refl, sym, ap, List, [], ◌∷◌, ◌++◌,
  ◌==◌, length, take, drop, replicate, length-take, length-drop, take-append-drop, All, arith,
  Bool-cases,
}
use fuzztest.Common.Bytes.{ByteArray, IsByte, of_le}
use fuzztest.ForEachNonzero.{Visited, visit_byte, word_loop, head_loop, for_each_nonzero_byte}
use fuzztest.ForEachNonzero.Words.{
  nonzero_bytes, expected, visit_byte_lem, tail_loop_lem, whole_word, zero_word, All-take, All-drop,
}

replicate-add : (n k : ℕ) → replicate {A = ℕ} (n + k) 0 ≡ replicate n 0 ++ replicate k 0
replicate-add zero k = ap (λ (t : ℕ). replicate {A = ℕ} t 0) (omega arith)
replicate-add (suc n) k =
    let e : suc n + k ≡ suc (n + k) = omega arith in
    ap (λ (t : ℕ). replicate {A = ℕ} t 0) e ∙ ap (λ (t : ByteArray). 0 ∷ t) (replicate-add n k)

visited : {c d : List (ℕ × ℕ)} {b e : ByteArray} → c ≡ d → b ≡ e → ◌≡◌ {A = Visited} (c, b) (d, e)
visited p q = λ i. (p i, q i)

cleared_word :
    (word : ByteArray) (n total : ℕ)
    → word ≡ replicate {A = ℕ} (length word) 0
    → total ≡ length word + n
    → word ++ replicate {A = ℕ} n 0 ≡ replicate {A = ℕ} total 0
cleared_word word n total e f =
    ap (λ (t : ByteArray). t ++ replicate {A = ℕ} n 0) e
    ∙ sym (replicate-add (length word) n)
    ∙ ap (λ (t : ℕ). replicate {A = ℕ} t 0) (sym f)

pub word_loop_lem :
    (words idx : ℕ) (bytes : ByteArray)
    → All IsByte bytes
    → words * 8 ≤ length bytes
    → word_loop words idx bytes ≡ expected idx bytes
unfolding word_loop
word_loop_lem zero idx bytes h l = tail_loop_lem idx bytes
word_loop_lem (suc words) idx bytes h l =
    let word = take 8 bytes in
    let rest = drop 8 bytes in
    let size : length word ≡ 8 = omega (arith, length-take 8 bytes) in
    let left : length bytes ≡ 8 + length rest = omega (arith, length-drop 8 bytes) in
    let later = word_loop_lem words (idx + 8) rest (All-drop 8 bytes h) (omega arith) in
    let joined : word ++ rest ≡ bytes = take-append-drop 8 bytes in
    let cleared : replicate {A = ℕ} 8 0 ++ replicate (length rest) 0 ≡ replicate (length bytes) 0 =
      sym (replicate-add 8 (length rest)) ∙ ap (λ (t : ℕ). replicate {A = ℕ} t 0) (sym left) in
    let of_bytes = ap (λ (t : ByteArray). nonzero_bytes idx t) joined in
    elim (Bool-cases (of_le word == 0)) [
      | inl z ↦
          let (e, f) = zero_word idx word rest (ground arith) in
          let calls : nonzero_bytes (idx + 8) rest ≡ nonzero_bytes idx bytes =
            ap (λ (t : ℕ). nonzero_bytes (idx + t) rest) (sym size) ∙ sym e ∙ of_bytes in
          let zeros =
            cleared_word word (length rest) (length bytes) f
              (left ∙ ap (λ (t : ℕ). t + length rest) (sym size)) in
          rw (z, later) (visited calls zeros)
      | inr z ↦
          let calls = whole_word word rest 8 idx (All-take 8 bytes h) size ∙ of_bytes in
          rw (z, later) (visited calls cleared)
    ]

head_loop_lem :
    (alignment idx : ℕ) (bytes : ByteArray)
    → All IsByte bytes
    → head_loop alignment idx bytes ≡ expected idx bytes
unfolding head_loop nonzero_bytes
head_loop_lem alignment idx [] h = refl
head_loop_lem alignment idx (byte ∷ bytes) (b, h) = elim (Bool-cases (alignment == 0)) [
  | inl z ↦ rw z (word_loop_lem (length (byte ∷ bytes) / 8) idx (byte ∷ bytes) (b, h) (omega arith))
  | inr z ↦ rw z (
      ap (visit_byte idx byte) (head_loop_lem ((alignment + 1) % 8) (suc idx) bytes h)
      ∙ visit_byte_lem idx byte bytes)
]

-- Of bytes at any address: ForEachNonZeroByte calls the action once for each byte that is not zero,
-- with its index and its value, in the order of the indices, and leaves zeros only.
pub for_each_nonzero_byte_lem :
    (address : ℕ) (bytes : ByteArray)
    → All IsByte bytes
    → for_each_nonzero_byte address bytes ≡ (nonzero_bytes 0 bytes, replicate (length bytes) 0)
unfolding for_each_nonzero_byte
for_each_nonzero_byte_lem address bytes h = head_loop_lem (address % 8) 0 bytes h
