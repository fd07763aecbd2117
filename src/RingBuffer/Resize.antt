-- ===== src/RingBuffer/Resize.antt =====
-- `ReSize`: what becomes of the bytes that the ring holds.
use chatting_server.Base.{
  ℕ, ◌+◌, ◌-◌, ◌%◌, ◌≤◌, ◌<◌, ◌≡◌, refl, List, length, get_or, arith, ◌∙◌, wrap, ap, some, inl, [],
  le→ltb,
}
use native.Mathlib.Nat.{mod-eq_of_lt, mod-eq-sub-mod}
use chatting_server.Base.Arrays.{
  write_bytes, read_bytes, tab, tab-ext, length-tab, get_or-tab, length-write_bytes,
  get_or-write_bytes_inside, get_or-write_bytes_outside,
}
use chatting_server.RingBuffer.{RingBuffer, use_size, move_contents, resize}
use chatting_server.RingBuffer.Invariant.{IsValid}
use chatting_server.RingBuffer.Contents.{byte_at, contents}

module _ {r : RingBuffer} (storage : List ℕ) (v : IsValid r)
    (room : use_size r ≤ length storage) where
  abbrev first : ℕ
  first = r.buf_size - r.front_pos

  abbrev once : List ℕ
  once = write_bytes storage 0 (read_bytes r.cells r.front_pos first)

  round_first :
      (k : ℕ)
      → r.rear_pos < r.front_pos
      → k < first
      → get_or (write_bytes once first (read_bytes r.cells 0 r.rear_pos)) k 0
        ≡ get_or r.cells (r.front_pos + k) 0
  unfolding read_bytes use_size
  round_first k bent h =
      get_or-write_bytes_outside once first (tab (λ i. get_or r.cells (0 + i) 0) r.rear_pos) k
        (inl h)
      ∙ ap (λ i. get_or once i 0) index
      ∙ get_or-write_bytes_inside storage 0 (tab (λ i. get_or r.cells (r.front_pos + i) 0) first) k
          (ground (arith, length-tab (λ i. get_or r.cells (r.front_pos + i) 0) first))
          (omega (arith, length-tab (λ i. get_or r.cells (r.front_pos + i) 0) first))
      ∙ get_or-tab (λ i. get_or r.cells (r.front_pos + i) 0) first k h
    where
      index : k ≡ 0 + k
      index = omega arith

  round_second :
      (k : ℕ)
      → r.rear_pos < r.front_pos
      → first ≤ k
      → k < use_size r
      → get_or (write_bytes once first (read_bytes r.cells 0 r.rear_pos)) k 0
        ≡ get_or r.cells (r.front_pos + k - r.buf_size) 0
  unfolding read_bytes use_size
  round_second k bent low high =
      ap (λ i. get_or (write_bytes once first (tab (λ i. get_or r.cells (0 + i) 0) r.rear_pos)) i 0)
        index
      ∙ get_or-write_bytes_inside once first (tab (λ i. get_or r.cells (0 + i) 0) r.rear_pos)
          (k - first)
          (ground (
            arith,
            length-tab (λ i. get_or r.cells (0 + i) 0) r.rear_pos,
            length-write_bytes storage 0 (tab (λ i. get_or r.cells (r.front_pos + i) 0) first),
          ))
          (ground (arith, length-tab (λ i. get_or r.cells (0 + i) 0) r.rear_pos))
      ∙ get_or-tab (λ i. get_or r.cells (0 + i) 0) r.rear_pos (k - first) (ground arith)
      ∙ ap (λ i. get_or r.cells i 0) back
    where
      index : k ≡ first + (k - first)
      index = omega arith

      back : 0 + (k - first) ≡ r.front_pos + k - r.buf_size
      back = omega arith

  straight :
      (k : ℕ)
      → r.front_pos ≤ r.rear_pos
      → k < use_size r
      → get_or (write_bytes storage 0 (read_bytes r.cells r.front_pos (use_size r))) k 0
        ≡ get_or r.cells (r.front_pos + k) 0
  unfolding read_bytes
  straight k ordered h =
      ap
        (λ i.
          get_or
            (write_bytes storage 0 (tab (λ j. get_or r.cells (r.front_pos + j) 0) (use_size r))) i
            0)
        index
      ∙ get_or-write_bytes_inside storage 0
          (tab (λ j. get_or r.cells (r.front_pos + j) 0) (use_size r)) k
          (omega (arith, length-tab (λ j. get_or r.cells (r.front_pos + j) 0) (use_size r)))
          (omega (arith, length-tab (λ j. get_or r.cells (r.front_pos + j) 0) (use_size r)))
      ∙ get_or-tab (λ j. get_or r.cells (r.front_pos + j) 0) (use_size r) k h
    where
      index : k ≡ 0 + k
      index = omega arith

  -- The new storage begins with the queue.
  pub move_contents_lem :
      (k : ℕ) → k < use_size r → get_or (move_contents r storage) k 0 ≡ byte_at r k
  unfolding move_contents
  move_contents_lem k h =
      unfold use_size in ground (arith, round_first k, round_second k, straight k)

  pub length-move_contents : length (move_contents r storage) ≡ length storage
  unfolding move_contents
  length-move_contents = ground (
    arith,
    length-write_bytes storage 0 (read_bytes r.cells r.front_pos (use_size r)),
    length-write_bytes storage 0 (read_bytes r.cells r.front_pos first),
    length-write_bytes once first (read_bytes r.cells 0 r.rear_pos),
  )

-- The ring that `ReSize` builds in the new storage, when it holds `n` bytes.
abbrev rebuilt : ℕ → ℕ → List ℕ → RingBuffer
rebuilt n size cs = record { front_pos = 0; rear_pos = n % size; buf_size = size; cells = cs }

resize_lem :
    (r : RingBuffer) (size : ℕ) (storage : List ℕ)
    → 0 < size
    → use_size r ≤ size
    → resize r size storage ≡ some (rebuilt (use_size r) size (move_contents r storage))
unfolding resize
resize_lem r size storage pos fits = rw (le→ltb size (use_size r) fits) (ground arith)

use_size-rebuilt : (n size : ℕ) (cs : List ℕ) → n < size → use_size (rebuilt n size cs) ≡ n
unfolding use_size
use_size-rebuilt n size cs h = rw (mod-eq_of_lt h) (ground arith)

mod_self : (n : ℕ) → 0 < n → n % n ≡ 0
mod_self n h = omega (
  arith,
  mod-eq-sub-mod {n = n} {m = n} (omega arith),
  mod-eq_of_lt {n = n - n} {m = n} (omega arith),
)

use_size-rebuilt_full :
    (n size : ℕ) (cs : List ℕ) → 0 < size → n ≡ size → use_size (rebuilt n size cs) ≡ 0
unfolding use_size
use_size-rebuilt_full n size cs pos e = rw (e, mod_self size pos) (ground arith)

-- Into a size above the number of bytes held, `ReSize` succeeds and keeps them all in their order,
-- whatever the new storage held, and the ring stays valid.
pub resize_keeps :
    {r : RingBuffer} (size : ℕ) (storage : List ℕ)
    → IsValid r
    → use_size r < size
    → length storage ≡ size
    → (r' : RingBuffer) × (resize r size storage ≡ some r')
      × (contents r' ≡ contents r)
      × IsValid r'
resize_keeps {r} size storage v more fits = (
  rebuilt (use_size r) size (move_contents r storage),
  resize_lem r size storage (omega arith) (omega arith),
  unfold contents in
      (rw (use_size-rebuilt (use_size r) size (move_contents r storage) more) (
        tab-ext _ (byte_at r) (use_size r) (λ k l.
          ap (λ i. get_or (move_contents r storage) i 0) (index k l)
          ∙ move_contents_lem storage v room k l))),
  record {
    front_in = omega arith;
    rear_in = rw (mod-eq_of_lt more) more;
    storage = length-move_contents storage v room ∙ fits;
  },
)
  where
    room : use_size r ≤ length storage
    room = omega arith

    index : (k : ℕ) → k < use_size r → wrap size (0 + k) ≡ k
    index k l = ground arith

-- Into a size equal to the number of bytes held, `ReSize` returns an empty ring: the write position
-- goes round to the read position, and all bytes are lost.
pub resize_exact :
    (r : RingBuffer) (size : ℕ) (storage : List ℕ)
    → 0 < size
    → use_size r ≡ size
    → (r' : RingBuffer) × (resize r size storage ≡ some r') × (contents r' ≡ [])
resize_exact r size storage pos exact = (
  rebuilt (use_size r) size (move_contents r storage),
  resize_lem r size storage pos (omega arith),
  unfold contents in rw empty (unfold tab in refl),
)
  where
    empty : use_size (rebuilt (use_size r) size (move_contents r storage)) ≡ 0
    empty = use_size-rebuilt_full (use_size r) size (move_contents r storage) pos exact
