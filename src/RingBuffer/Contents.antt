-- ===== src/RingBuffer/Contents.antt =====
-- The abstract view of the ring: the queue of the bytes that it holds, oldest first, and how the
-- two positions index it.
use chatting_server.Base.{
  ℕ, ◌+◌, ◌-◌, ◌≤◌, ◌<◌, ◌≡◌, List, length, get_or, arith, ltb, take, drop, Bool-cases, inl, inr,
  ltb→lt, ltb→le, lt→ltb, ◌∙◌, wrap, ap, length-take, length-drop, get_or-take, get_or-drop,
}
use chatting_server.Base.Arrays.{
  tab, length-tab, write_bytes, length-write_bytes, get_or-write_bytes_inside,
  get_or-write_bytes_outside,
}
use chatting_server.RingBuffer.{RingBuffer, use_size, free_size, store}
use chatting_server.RingBuffer.Invariant.{IsValid}

-- The byte `k` places behind the oldest.
abbrev pub byte_at : RingBuffer → ℕ → ℕ
byte_at r k = get_or r.cells (wrap r.buf_size (r.front_pos + k)) 0

unfoldable pub contents : RingBuffer → List ℕ
contents r = tab (byte_at r) (use_size r)

pub length-contents : (r : RingBuffer) → length (contents r) ≡ use_size r
unfolding contents
length-contents r = length-tab (byte_at r) (use_size r)

-- The write position lies just behind the newest byte, and going on from it goes on from there.
pub rear_index :
    {r : RingBuffer} (k : ℕ)
    → IsValid r
    → k < free_size r
    → wrap r.buf_size (r.front_pos + (use_size r + k)) ≡ wrap r.buf_size (r.rear_pos + k)
unfolding use_size free_size
rear_index k v h = ground arith

-- How long the two pieces of a write that goes round the end are.
first_piece :
    {r : RingBuffer} (src : List ℕ) (n : ℕ)
    → IsValid r
    → n ≤ length src
    → r.buf_size < r.rear_pos + n
    → length (take (r.buf_size - r.rear_pos) src) ≡ r.buf_size - r.rear_pos
first_piece {r} src n v enough e = omega (arith, length-take (r.buf_size - r.rear_pos) src)

second_piece :
    {r : RingBuffer} (src : List ℕ) (n : ℕ)
    → IsValid r
    → n ≤ length src
    → r.buf_size < r.rear_pos + n
    → length (take (n - (r.buf_size - r.rear_pos)) (drop (r.buf_size - r.rear_pos) src))
      ≡ n - (r.buf_size - r.rear_pos)
second_piece {r} src n v enough e =
    let first : ℕ = r.buf_size - r.rear_pos in
    omega (arith, length-take (n - first) (drop first src), length-drop first src)

-- A write that goes round the end, at a place of its first or its second piece.
module _ {r : RingBuffer} (src : List ℕ) (n : ℕ) (v : IsValid r) (enough : n ≤ length src)
    (fits : n ≤ free_size r) (round : r.buf_size < r.rear_pos + n) where
  abbrev first : ℕ
  first = r.buf_size - r.rear_pos

  abbrev piece : List ℕ
  piece = take (n - first) (drop first src)

  abbrev once : List ℕ
  once = write_bytes r.cells r.rear_pos (take first src)

  length-once : length once ≡ r.buf_size
  length-once = length-write_bytes r.cells r.rear_pos (take first src) ∙ v.storage

  length-piece : length piece ≡ n - first
  length-piece = second_piece src n v enough round

  length-first : length (take first src) ≡ first
  length-first = first_piece src n v enough round

  round_first :
      (k : ℕ) → k < first → get_or (write_bytes once 0 piece) (r.rear_pos + k) 0 ≡ get_or src k 0
  unfolding use_size free_size
  round_first k h =
      get_or-write_bytes_outside once 0 piece (r.rear_pos + k) (ground (arith, length-piece))
      ∙ get_or-write_bytes_inside r.cells r.rear_pos (take first src) k
          (omega (arith, length-first)) (omega (arith, length-first))
      ∙ get_or-take first src k 0 h

  round_second :
      (k : ℕ)
      → first ≤ k
      → k < n
      → get_or (write_bytes once 0 piece) (r.rear_pos + k - r.buf_size) 0 ≡ get_or src k 0
  unfolding use_size free_size
  round_second k low high =
      ap (λ i. get_or (write_bytes once 0 piece) i 0) index
      ∙ get_or-write_bytes_inside once 0 piece (k - first)
          (ground (arith, length-piece, length-once)) (omega (arith, length-piece))
      ∙ get_or-take (n - first) (drop first src) (k - first) 0 (omega arith)
      ∙ get_or-drop first src (k - first) 0
      ∙ ap (λ i. get_or src i 0) back
    where
      index : r.rear_pos + k - r.buf_size ≡ 0 + (k - first)
      index = omega arith

      back : first + (k - first) ≡ k
      back = omega arith

  round_outside :
      (j : ℕ)
      → j < r.rear_pos
      → n - first ≤ j
      → get_or (write_bytes once 0 piece) j 0 ≡ get_or r.cells j 0
  round_outside j low high =
      get_or-write_bytes_outside once 0 piece j (omega (arith, length-piece))
      ∙ get_or-write_bytes_outside r.cells r.rear_pos (take first src) j (inl low)

-- Where the two copies of `Enqueue` write.
pub store-inside :
    {r : RingBuffer} (src : List ℕ) (n k : ℕ)
    → IsValid r
    → n ≤ free_size r
    → n ≤ length src
    → k < n
    → get_or (store r src n) (wrap r.buf_size (r.rear_pos + k)) 0 ≡ get_or src k 0
unfolding store
store-inside {r} src n k v fits enough h = elim (Bool-cases (ltb r.buf_size (r.rear_pos + n))) [
  | inl e ↦
      let round : r.buf_size < r.rear_pos + n = ltb→lt _ _ e in
      rw e (
        ground (
          arith,
          round_first src n v enough fits round k,
          round_second src n v enough fits round k,
        ))
  | inr e ↦
      let straight : r.rear_pos + n ≤ r.buf_size = ltb→le _ _ e in
      rw (e, lt→ltb (r.rear_pos + k) r.buf_size (omega arith))
        (get_or-write_bytes_inside r.cells r.rear_pos (take n src) k
            (omega (arith, length-take n src)) (omega (arith, length-take n src))
          ∙ get_or-take n src k 0 h)
]

pub store-outside :
    {r : RingBuffer} (src : List ℕ) (n k : ℕ)
    → IsValid r
    → n ≤ free_size r
    → n ≤ length src
    → k < use_size r
    → get_or (store r src n) (wrap r.buf_size (r.front_pos + k)) 0 ≡ byte_at r k
unfolding store use_size free_size
store-outside {r} src n k v fits enough h = elim (Bool-cases (ltb r.buf_size (r.rear_pos + n))) [
  | inl e ↦
      let round : r.buf_size < r.rear_pos + n = ltb→lt _ _ e in
      let j : ℕ = wrap r.buf_size (r.front_pos + k) in
      rw e (round_outside src n v enough fits round j (ground arith) (ground arith))
  | inr e ↦ rw e (
      get_or-write_bytes_outside r.cells r.rear_pos (take n src) (wrap r.buf_size (r.front_pos + k))
        (ground (arith, length-take n src)))
]
