-- ===== src/RingBuffer.antt =====
-- The byte ring of a session's receive side, ConsoleApplication2/CRingBuffer.h and CRingBuffer.cpp.
-- A position is an `int` of the source that is never negative here, and the sizes that callers pass
-- are unsigned (`WORD`, `DWORD`, `sizeof`), so numbers are natural numbers; the invariant of
-- RingBuffer/Invariant shows that no subtraction goes below zero. `data` is the list `cells`.
pub mod Invariant
pub mod Contents
pub mod Transfer
pub mod Receive
pub mod Resize
mod Tests
use chatting_server.Base.{
  ℕ, ◌+◌, ◌-◌, ◌%◌, ltb, leb, ◌==◌, if◌then◌else◌, Bool, List, Option, some, none, take, drop,
  replicate, length, ◌++◌,
}
use chatting_server.Base.Arrays.{write_bytes, read_bytes}

pub record RingBuffer : Type 0 where
  pub front_pos : ℕ
  pub rear_pos : ℕ
  pub buf_size : ℕ
  pub cells : List ℕ

-- `BUF_SIZE`, the size of the default constructor
abbrev pub default_size : ℕ
default_size = 65536

-- The constructor with a size: the bytes are zeroed.
unfoldable pub create : ℕ → RingBuffer
create size = record { front_pos = 0; rear_pos = 0; buf_size = size; cells = replicate size 0 }

unfoldable pub use_size : RingBuffer → ℕ
use_size r =
    if leb r.front_pos r.rear_pos
    then r.rear_pos - r.front_pos
    else r.buf_size - r.front_pos + r.rear_pos

unfoldable pub free_size : RingBuffer → ℕ
unfolding use_size
free_size r = r.buf_size - 1 - use_size r

unfoldable pub direct_enqueue_size : RingBuffer → ℕ
direct_enqueue_size r =
    if ltb r.rear_pos r.front_pos
    then r.front_pos - r.rear_pos - 1
    else r.buf_size - r.rear_pos - (if r.front_pos == 0 then 1 else 0)

unfoldable pub direct_dequeue_size : RingBuffer → ℕ
direct_dequeue_size r =
    if leb r.front_pos r.rear_pos then r.rear_pos - r.front_pos else r.buf_size - r.front_pos

-- The two copies of `Enqueue`, the second one round the end of the storage.
pub store : RingBuffer → List ℕ → ℕ → List ℕ
store r src write_size =
    if ltb r.buf_size (r.rear_pos + write_size)
    then (let first = r.buf_size - r.rear_pos in
        write_bytes (write_bytes r.cells r.rear_pos (take first src)) 0
          (take (write_size - first) (drop first src)))
    else write_bytes r.cells r.rear_pos (take write_size src)

-- `Enqueue(chpData, iSize)`: the ring after the call and the number of bytes taken
unfoldable pub enqueue : RingBuffer → List ℕ → ℕ → RingBuffer × ℕ
unfolding free_size store
enqueue r src size =
    let write_size = if ltb (free_size r) size then free_size r else size in
    (
      record r {
        cells = store r src write_size;
        rear_pos = (r.rear_pos + write_size) % r.buf_size;
      },
      write_size,
    )

-- The two copies of `Dequeue` and `Peek`: the bytes that arrive at `chpDest`
pub load : RingBuffer → ℕ → List ℕ
load r read_size =
    if ltb r.buf_size (r.front_pos + read_size)
    then (let size = r.buf_size - r.front_pos in
        read_bytes r.cells r.front_pos size ++ read_bytes r.cells 0 (read_size - size))
    else read_bytes r.cells r.front_pos read_size

-- the number of bytes that `Dequeue` and `Peek` hand out
pub readable : RingBuffer → ℕ → ℕ
unfolding use_size
readable r size = if ltb (use_size r) size then use_size r else size

-- `Dequeue(chpDest, iSize)`: the ring after the call, the bytes copied and their number
unfoldable pub dequeue : RingBuffer → ℕ → RingBuffer × List ℕ × ℕ
unfolding readable load
dequeue r size =
    let read_size = readable r size in
    (record r { front_pos = (r.front_pos + read_size) % r.buf_size }, load r read_size, read_size)

-- `Peek(chpDest, iSize)`: as `Dequeue`, and the ring stays
unfoldable pub peek : RingBuffer → ℕ → List ℕ × ℕ
unfolding readable load
peek r size = let read_size = readable r size in (load r read_size, read_size)

-- `MoveFront(iSize)` and the position that it returns
unfoldable pub move_front : RingBuffer → ℕ → RingBuffer × ℕ
unfolding use_size
move_front r size =
    let moved = if ltb (use_size r) size then use_size r else size in
    let pos = (r.front_pos + moved) % r.buf_size in (record r { front_pos = pos }, pos)

-- `MoveRear(iSize)` and the position that it returns
unfoldable pub move_rear : RingBuffer → ℕ → RingBuffer × ℕ
unfolding free_size
move_rear r size =
    let moved = if ltb (free_size r) size then free_size r else size in
    let pos = (r.rear_pos + moved) % r.buf_size in (record r { rear_pos = pos }, pos)

unfoldable pub clear_buffer : RingBuffer → RingBuffer
clear_buffer r = record r { front_pos = 0; rear_pos = 0 }

-- The copies of `ReSize` into the new storage.
pub move_contents : RingBuffer → List ℕ → List ℕ
unfolding use_size
move_contents r storage =
    if leb r.front_pos r.rear_pos
    then write_bytes storage 0 (read_bytes r.cells r.front_pos (use_size r))
    else (let first = r.buf_size - r.front_pos in
        write_bytes (write_bytes storage 0 (read_bytes r.cells r.front_pos first)) first
          (read_bytes r.cells 0 r.rear_pos))

-- `ReSize(size)`. `storage` is what `new char[size]` returns, `size` bytes of any value. `none` is
-- a copy past the end of that storage, which C++ leaves undefined.
unfoldable pub resize : RingBuffer → ℕ → List ℕ → Option RingBuffer
unfolding use_size move_contents
resize r size storage =
    if size == 0
    then some r
    else (if ltb size (use_size r)
        then none
        else some (record {
          front_pos = 0;
          rear_pos = use_size r % size;
          buf_size = size;
          cells = move_contents r storage;
        }))
