-- ===== src/RingBuffer/Invariant.antt =====
-- The representation invariant of the ring, kept by every operation, and the sizes it reports.
use chatting_server.Base.{
  ℕ, ◌+◌, ◌-◌, ◌%◌, ◌≤◌, ◌<◌, ◌≡◌, refl, List, length, length-replicate, arith, ltb, leb, take,
  drop, if◌then◌else◌, some, Bool-cases, inl, inr, ◌∙◌, wrap, mod-eq-wrap,
}
use chatting_server.Base.Arrays.{length-write_bytes}
use chatting_server.RingBuffer.{
  RingBuffer, create, use_size, free_size, store, enqueue, dequeue, move_front, move_rear,
  clear_buffer,
}

pub record IsValid (r : RingBuffer) : Type 0 where
  pub front_in : r.front_pos < r.buf_size
  pub rear_in : r.rear_pos < r.buf_size
  pub storage : length r.cells ≡ r.buf_size

pub create-IsValid : (size : ℕ) → 0 < size → IsValid (create size)
unfolding create
create-IsValid size h = record { front_in = h; rear_in = h; storage = length-replicate size 0 }

-- The ring always keeps one cell free.
pub use_size-lt : {r : RingBuffer} → IsValid r → use_size r < r.buf_size
unfolding use_size
use_size-lt v = ground arith

-- What is used and what is free make up all cells but one.
pub use_size-add-free_size :
    {r : RingBuffer} → IsValid r → use_size r + free_size r + 1 ≡ r.buf_size
unfolding free_size
use_size-add-free_size {r} v = omega (arith, use_size-lt v)

pub length-store : (r : RingBuffer) (src : List ℕ) (n : ℕ) → length (store r src n) ≡ length r.cells
unfolding store
length-store r src n = elim (Bool-cases (ltb r.buf_size (r.rear_pos + n))) [
  | inl e ↦
      let first : ℕ = r.buf_size - r.rear_pos in
      rw e (
        length-write_bytes (write_bytes_first first) 0 (take (n - first) (drop first src))
        ∙ length-write_bytes r.cells r.rear_pos (take first src))
  | inr e ↦ rw e (length-write_bytes r.cells r.rear_pos (take n src))
]
  where
    write_bytes_first : ℕ → List ℕ
    write_bytes_first first =
        chatting_server.Base.Arrays.write_bytes r.cells r.rear_pos (take first src)

-- A position moved by at most the buffer's size stays inside it.
mod_in : (p n : ℕ) → 0 < n → p % n < n
mod_in p n h = grind arith

pub enqueue-IsValid :
    (r : RingBuffer) (src : List ℕ) (n : ℕ) → IsValid r → IsValid (enqueue r src n).0
unfolding enqueue
enqueue-IsValid r src n v = record {
  front_in = v.front_in;
  rear_in = mod_in _ r.buf_size (omega arith);
  storage = length-store r src _ ∙ v.storage;
}

pub dequeue-IsValid : (r : RingBuffer) (n : ℕ) → IsValid r → IsValid (dequeue r n).0
unfolding dequeue
dequeue-IsValid r n v = record {
  front_in = mod_in _ r.buf_size (omega arith);
  rear_in = v.rear_in;
  storage = v.storage;
}

pub move_front-IsValid : (r : RingBuffer) (n : ℕ) → IsValid r → IsValid (move_front r n).0
unfolding move_front
move_front-IsValid r n v = record {
  front_in = mod_in _ r.buf_size (omega arith);
  rear_in = v.rear_in;
  storage = v.storage;
}

pub move_rear-IsValid : (r : RingBuffer) (n : ℕ) → IsValid r → IsValid (move_rear r n).0
unfolding move_rear
move_rear-IsValid r n v = record {
  front_in = v.front_in;
  rear_in = mod_in _ r.buf_size (omega arith);
  storage = v.storage;
}

pub clear_buffer-IsValid : (r : RingBuffer) → IsValid r → IsValid (clear_buffer r)
unfolding clear_buffer
clear_buffer-IsValid r v = omega arith
