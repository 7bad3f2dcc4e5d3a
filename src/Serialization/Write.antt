-- ===== src/Serialization/Write.antt =====
-- The two passes of SerializeIRObject against the format.
use fuzztest.Common.{
  ℕ, ◌+◌, ◌≤◌, ◌≡◌, ◌∙◌, refl, sym, ap, [], ◌∷◌, ◌++◌, Option, none, some, arith, append_assoc,
  append-nil, length, drop, replicate, length-append, length-replicate, drop-drop, drop_all,
}
use fuzztest.Common.Bytes.{ByteArray, le_bytes, length-le_bytes, memcpy_at, memcpy_at-append}
use fuzztest.Serialization.{
  IrObject, empty, uint64, double, string, object, IrObjects, nil, cons, count, header_empty,
  header_uint64, header_double, header_string, header_object, BinaryOutput, store, advance, visit,
  visit_all, binary_header, serialize_binary,
}
use fuzztest.Serialization.Format.{encode, encode_all}

abbrev at : Option ByteArray → ℕ → BinaryOutput
at buf n = record { buf = buf; offset = n }

length-encode_string : (s : ByteArray) → length (le_bytes 8 (length s) ++ s) ≡ 8 + length s
length-encode_string s =
    omega (arith, length-append (le_bytes 8 (length s)) s, length-le_bytes 8 (length s))

-- The pass without a buffer measures the format.
mutual
  unfolding visit store advance encode

  measure : (o : IrObject) (n : ℕ) → visit o (at none n) ≡ at none (n + length (encode o))
  measure empty n = refl
  measure (uint64 v) n = ap (at none) (omega (arith, length-le_bytes 8 v))
  measure (double v) n = ap (at none) (omega (arith, length-le_bytes 8 v))
  measure (string s) n = ap (at none) (omega (arith, length-encode_string s))
  measure (object os) n =
      measure_all os (n + (1 + 8))
      ∙ ap (at none) (
          omega (
            arith,
            length-append (le_bytes 8 (count os)) (encode_all os),
            length-le_bytes 8 (count os),
          ))

  measure_all :
      (os : IrObjects) (n : ℕ) → visit_all os (at none n) ≡ at none (n + length (encode_all os))
  measure_all nil n = ap (at none) (omega arith)
  measure_all (cons o os) n = rw (measure o n) (
      measure_all os (n + length (encode o))
      ∙ ap (at none) (omega (arith, length-append (encode o) (encode_all os))))

-- A buffer `r` whose front is written.
filled : ByteArray → ByteArray → ByteArray
filled front r = front ++ drop (length front) r

memcpy_at-filled :
    (front r bytes : ByteArray) (k : ℕ)
    → k ≡ length front
    → memcpy_at (filled front r) k bytes ≡ filled (front ++ bytes) r
unfolding filled
memcpy_at-filled front r bytes k e =
    rw
      (
        memcpy_at-append front (drop (length front) r) k bytes (sym e),
        drop-drop (length front + length bytes) (length bytes) (length front) r refl,
        length-append front bytes,
      )
      (sym (append_assoc front bytes (drop (length front + length bytes) r)))

at_eq : {b b' : ByteArray} {n n' : ℕ} → b ≡ b' → n ≡ n' → at (some b) n ≡ at (some b') n'
at_eq e e' = rw (e, e') refl

-- A header byte and the word behind it.
head_word :
    (front r : ByteArray) (n h v : ℕ)
    → n ≡ length front
    → memcpy_at (memcpy_at (filled front r) (n + 0) (h ∷ [])) (n + 1) (le_bytes 8 v)
      ≡ filled (front ++ h ∷ le_bytes 8 v) r
head_word front r n h v e =
    rw
      (
        memcpy_at-filled front r (h ∷ []) (n + 0) (omega arith),
        memcpy_at-filled (front ++ h ∷ []) r (le_bytes 8 v) (n + 1)
            (omega (arith, length-append front (h ∷ []))),
        append_assoc front (h ∷ []) (le_bytes 8 v),
      )
      refl

length-head_word :
    (front : ByteArray) (h v : ℕ) → length (front ++ h ∷ le_bytes 8 v) ≡ length front + 9
length-head_word front h v =
    omega (arith, length-append front (h ∷ le_bytes 8 v), length-le_bytes 8 v)

memcpy_at-filled_front : (r bytes : ByteArray) → memcpy_at r 0 bytes ≡ filled bytes r
unfolding filled
memcpy_at-filled_front r bytes = memcpy_at-filled [] r bytes 0 refl

filled_all : (front r : ByteArray) → length r ≤ length front → filled front r ≡ front
unfolding filled
filled_all front r h = rw (drop_all (length front) r h) (append-nil front)

-- The pass with a buffer writes the format behind what is written.
mutual
  unfolding visit store advance encode

  write_behind :
      (o : IrObject) (front r : ByteArray) (n : ℕ)
      → n ≡ length front
      → visit o (at (some (filled front r)) n)
        ≡ at (some (filled (front ++ encode o) r)) (n + length (encode o))
  write_behind empty front r n e =
      at_eq (memcpy_at-filled front r (header_empty ∷ []) (n + 0) (omega arith)) refl
  write_behind (uint64 v) front r n e =
      at_eq (head_word front r n header_uint64 v e) (omega (arith, length-le_bytes 8 v))
  write_behind (double v) front r n e =
      at_eq (head_word front r n header_double v e) (omega (arith, length-le_bytes 8 v))
  write_behind (string s) front r n e =
      let front' = front ++ header_string ∷ le_bytes 8 (length s) in
      let head = head_word front r n header_string (length s) e in
      let body =
        memcpy_at-filled front' r s (n + 9)
          (omega (arith, length-head_word front header_string (length s))) in
      at_eq
        (rw (head, body)
          (ap (λ t. filled t r) (append_assoc front (header_string ∷ le_bytes 8 (length s)) s)))
        (omega (arith, length-encode_string s))
  write_behind (object os) front r n e =
      let front' = front ++ header_object ∷ le_bytes 8 (count os) in
      let head = head_word front r n header_object (count os) e in
      ap (visit_all os) (at_eq {n = n + 9} {n' = n + 9} head refl)
      ∙ (write_all_behind os front' r (n + 9)
          (omega (arith, length-head_word front header_object (count os))))
      ∙ at_eq
          (ap (λ t. filled t r)
            (append_assoc front (header_object ∷ le_bytes 8 (count os)) (encode_all os)))
          (omega (
            arith,
            length-append (le_bytes 8 (count os)) (encode_all os),
            length-le_bytes 8 (count os),
          ))

  write_all_behind :
      (os : IrObjects) (front r : ByteArray) (n : ℕ)
      → n ≡ length front
      → visit_all os (at (some (filled front r)) n)
        ≡ at (some (filled (front ++ encode_all os) r)) (n + length (encode_all os))
  write_all_behind nil front r n e = rw append-nil (ap (at (some (filled front r))) (omega arith))
  write_all_behind (cons o os) front r n e =
      let next =
        write_all_behind os (front ++ encode o) r (n + length (encode o))
          (omega (arith, length-append front (encode o))) in
      ap (visit_all os) (write_behind o front r n e)
      ∙ next
      ∙ at_eq (ap (λ t. filled t r) (append_assoc front (encode o) (encode_all os)))
          (omega (arith, length-append (encode o) (encode_all os)))

pub serialize_binary_lem : (o : IrObject) → serialize_binary o ≡ some (binary_header ++ encode o)
unfolding serialize_binary
serialize_binary_lem o =
    let r = replicate (11 + length (encode o)) 0 in
    let start : memcpy_at r 0 binary_header ≡ filled binary_header r =
      memcpy_at-filled_front r binary_header in
    rw (serialize_binary, measure o 11, start)
      (ap (λ (out : BinaryOutput). out.buf) (write_behind o binary_header r 11 refl)
        ∙ ap some (
            filled_all (binary_header ++ encode o) r (
              omega (
                arith,
                length-replicate {A = ℕ} (11 + length (encode o)) 0,
                length-append binary_header (encode o),
              ))))
