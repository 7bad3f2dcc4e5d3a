-- ===== src/RollingHash/RingBuffer.antt =====
-- centipede/hashed_ring_buffer.h: class HashedRingBuffer, with its capacity kSize as a parameter.
use fuzztest.Common.{
  ℕ, zero, suc, ◌+◌, ◌-◌, ◌<◌, ◌≤◌, ◌≡◌, ◌≢◌, ◌∙◌, refl, sym, ap, subst, false, List, [], ◌∷◌, ltb,
  leb, if◌then◌else◌, length, get_or, set, take, replicate, length-set, length-take,
  length-replicate, get_or-set_self, get_or-set_ne, arith,
}
use fuzztest.Common.Abort.{Outcome, aborted, done}
use fuzztest.RollingHash.{RollingHash, multiply, reset_hash, update_hash}
use fuzztest.RollingHash.Windows.{
  window_hash, get_or-take, take-take, window_hash-zeros, get_or-replicate, window_state,
  update_hash-window_state,
}

pub record HashedRingBuffer : Type 0 where
  pub buffer : List ℕ
  pub last_added_pos : ℕ
  pub size : ℕ
  pub hash : RollingHash

unfoldable pub reset_buffer : ℕ → ℕ → Outcome HashedRingBuffer
reset_buffer capacity size =
    if ltb capacity size
    then aborted
    else done (record {
      buffer = replicate capacity 0;
      last_added_pos = 0;
      size = size;
      hash = reset_hash size;
    })

-- The returned hash, and the buffer after the call.
unfoldable pub push_item : HashedRingBuffer → ℕ → ℕ × HashedRingBuffer
push_item b new_item =
    let new_pos = if leb b.size (b.last_added_pos + 1) then 0 else b.last_added_pos + 1 in
    let evicted_item = get_or b.buffer new_pos 0 in
    let hash = update_hash b.hash new_item evicted_item in
    (
      hash.value,
      record b { buffer = set b.buffer new_pos new_item; hash = hash; last_added_pos = new_pos },
    )

-- The position of the k-th newest of `n` items.
abbrev slot : ℕ → ℕ → ℕ → ℕ
slot last n k = if leb k last then last - k else last + n - k

-- The buffer holds `n` items, the newest first, and their hash.
unfoldable IsBuffer : HashedRingBuffer → ℕ → List ℕ → Type 0
IsBuffer b n items =
    (length items ≡ n)
    × (b.size ≡ n)
    × (b.last_added_pos < n)
    × (n ≤ length b.buffer)
    × ((k : ℕ) → k < n → get_or b.buffer (slot b.last_added_pos n k) 0 ≡ get_or items k 0)
    × (b.hash ≡ record { value = window_hash items; multiplier_power_window_size = multiply n 1 })

abbrev next_pos : ℕ → ℕ → ℕ
next_pos last size = if leb size (last + 1) then 0 else last + 1

next_pos_lem :
    (last n k : ℕ)
    → last < suc n
    → k < n
    → (slot (next_pos last (suc n)) (suc n) (suc k) ≡ slot last (suc n) k)
      × (slot last (suc n) k ≢ next_pos last (suc n))
next_pos_lem last n k h l = (ground arith, λ q. ground arith)

set_items :
    (buffer items : List ℕ) (last n new_item : ℕ)
    → last < suc n
    → suc n ≤ length buffer
    → ((k : ℕ) → k < suc n → get_or buffer (slot last (suc n) k) 0 ≡ get_or items k 0)
    → (k : ℕ) → k < suc n
    → get_or
        (set buffer (next_pos last (suc n)) new_item)
        (slot (next_pos last (suc n)) (suc n) k)
        0
      ≡ get_or (new_item ∷ take n items) k 0
set_items buffer items last n new_item h fits at zero l =
    let p = next_pos last (suc n) in
    let same : slot p (suc n) 0 ≡ p = ground arith in
    rw same (get_or-set_self buffer p new_item 0 (ground arith))
set_items buffer items last n new_item h fits at (suc k) l =
    let p = next_pos last (suc n) in
    let (e, ne) = next_pos_lem last n k h (omega arith) in
    let kept =
      get_or-set_ne buffer {i = p} {j = slot last (suc n) k} new_item 0 (λ q. ne (sym q)) in
    rw e (kept ∙ at k (omega arith) ∙ sym (get_or-take n k items (omega arith)))

-- A pushed item takes the place of the oldest.
push_item-IsBuffer :
    (b : HashedRingBuffer) (items : List ℕ) (n new_item : ℕ)
    → IsBuffer b (suc n) items
    → IsBuffer (push_item b new_item).1 (suc n) (new_item ∷ take n items)
unfolding push_item IsBuffer update_hash
push_item-IsBuffer b items n new_item (l, size, last, fits, at, hashed) =
    let p = next_pos b.last_added_pos (suc n) in
    let e : get_or b.buffer p 0 ≡ get_or items n 0 =
      ap (λ (i : ℕ). get_or b.buffer i 0) (ground arith) ∙ at n (omega arith) in
    let taken : length (take n items) ≡ n = omega (arith, length-take n items) in
    let oldest = get_or items n 0 in
    rw size (
      omega arith,
      refl,
      ground arith,
      rw (length-set b.buffer p new_item) fits,
      set_items b.buffer items b.last_added_pos n new_item last fits at,
      hash_lem e,
    )
  where
    hash_lem :
        get_or b.buffer (next_pos b.last_added_pos (suc n)) 0 ≡ get_or items n 0
        → update_hash b.hash new_item (get_or b.buffer (next_pos b.last_added_pos (suc n)) 0)
          ≡ window_state (suc n) (new_item ∷ take n items)
    hash_lem e =
        ap
          (λ (h : RollingHash).
            update_hash h new_item (get_or b.buffer (next_pos b.last_added_pos (suc n)) 0))
          hashed
        ∙ ap (λ (o : ℕ). update_hash (window_state (suc n) items) new_item o) e
        ∙ update_hash-window_state items n new_item l

-- Items pushed one after the other, the first of the list first.
unfoldable pub push_all : HashedRingBuffer → List ℕ → HashedRingBuffer
push_all b [] = b
push_all b (item ∷ items) = push_all (push_item b item).1 items

-- The items with the newest first, before those of `older`.
unfoldable pub newest_first : List ℕ → List ℕ → List ℕ
newest_first [] older = older
newest_first (item ∷ items) older = newest_first items (item ∷ older)

push_all-IsBuffer :
    (b : HashedRingBuffer) (n : ℕ) (items older : List ℕ)
    → IsBuffer b (suc n) (take (suc n) older)
    → IsBuffer (push_all b items) (suc n) (take (suc n) (newest_first items older))
unfolding push_all newest_first
push_all-IsBuffer b n [] older h = h
push_all-IsBuffer b n (item ∷ items) older h =
    let pushed = push_item-IsBuffer b (take (suc n) older) n item h in
    let pushed' =
      subst (λ (t : List ℕ). IsBuffer (push_item b item).1 (suc n) (item ∷ t)) (take-take n older)
        pushed in
    push_all-IsBuffer (push_item b item).1 n items (item ∷ older) pushed'

reset_buffer-IsBuffer :
    (capacity n : ℕ)
    → suc n ≤ capacity
    → (b : HashedRingBuffer) × (reset_buffer capacity (suc n) ≡ done b)
      × IsBuffer b (suc n) (take (suc n) (replicate (suc n) 0))
unfolding reset_buffer IsBuffer reset_hash
reset_buffer-IsBuffer capacity n h =
    let e : ltb capacity (suc n) ≡ false = ground arith in
    let b : HashedRingBuffer = record {
      buffer = replicate capacity 0;
      last_added_pos = 0;
      size = suc n;
      hash = reset_hash (suc n);
    } in
    let empty : IsBuffer b (suc n) (replicate (suc n) 0) = (
      length-replicate {A = ℕ} (suc n) 0,
      refl,
      omega arith,
      subst (λ (k : ℕ). suc n ≤ k) (sym (length-replicate {A = ℕ} capacity 0)) h,
      (λ k l. get_or-replicate capacity (slot 0 (suc n) k) ∙ sym (get_or-replicate (suc n) k)),
      ap (λ (v : ℕ). record { value = v; multiplier_power_window_size = multiply (suc n) 1 })
          (sym (window_hash-zeros (suc n))),
    ) in
    (b, rw e refl, subst (λ (t : List ℕ). IsBuffer b (suc n) t) (sym (take_all (suc n))) empty)
  where
    take_all : (n : ℕ) → take {A = ℕ} n (replicate n 0) ≡ replicate n 0
    take_all zero = refl
    take_all (suc n) = ap (λ (t : List ℕ). 0 ∷ t) (take_all n)

-- Of a positive size within the capacity: after Reset and any pushes, hash() is the hash of the
-- newest `size` items, where zeros stand for items that were not pushed, and the next push returns
-- the hash of the newest `size` items with the pushed one.
pub push_all_lem :
    (capacity size : ℕ) (items : List ℕ) (new_item : ℕ)
    → 0 < size
    → size ≤ capacity
    → (b : HashedRingBuffer) × (reset_buffer capacity size ≡ done b)
      × ((push_all b items).hash.value
          ≡ window_hash (take size (newest_first items (replicate size 0))))
      × ((push_item (push_all b items) new_item).0
          ≡ window_hash (take size (new_item ∷ newest_first items (replicate size 0))))
unfolding IsBuffer push_item
push_all_lem capacity zero items new_item h l = absurd (omega arith)
push_all_lem capacity (suc n) items new_item h l =
    let (b, e, reset) = reset_buffer-IsBuffer capacity n l in
    let older = replicate (suc n) 0 in
    let all = push_all-IsBuffer b n items older reset in
    let pushed =
      push_item-IsBuffer (push_all b items) (take (suc n) (newest_first items older)) n new_item
        all in
    (
      b,
      e,
      ap (λ (r : RollingHash). r.value) all.5,
      ap (λ (r : RollingHash). r.value) pushed.5
          ∙ ap (λ (t : List ℕ). window_hash (new_item ∷ t))
              (take-take n (newest_first items older)),
    )
