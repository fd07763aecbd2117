-- ===== src/Packet.antt =====
-- The packet, ConsoleApplication2/CPacket.h and CPacket.cpp: one block of memory that holds a header
-- of five bytes and the payload behind it, two positions in the payload, and a reference count.
-- Sizes and positions are `int`s that are never negative here. A byte is a number below 256.
-- A call of `malloc` in `IncreaseBufferSize` may fail, which `has_memory` says; its loop runs on
-- `fuel`. What the object pool does with a packet is not part of this file.
pub mod Buffer
pub mod Value
pub mod Cipher
pub mod Coding
mod Tests
use chatting_server.Base.{
  ℕ, zero, suc, ◌+◌, ◌-◌, ◌*◌, ◌%◌, ◌^◌, ltb, leb, ◌==◌, if◌then◌else◌, Bool, true, false, List,
  Option, some, none, length, replicate, ◌++◌,
}
use chatting_server.Base.Arrays.{write_bytes, read_bytes}
use chatting_server.Base.Outcome.{Outcome, done, overrun, timed_out, ◌>>=◌}

-- `MESSAGE_HEADER_LEN` and `eBUFFER_HEADER_SIZE`
abbrev pub header_size : ℕ
header_size = 5

-- `eBUFFER_DEFAULT`
abbrev pub buffer_default : ℕ
buffer_default = 512

-- `block` is the memory at `m_cpHeadPtr`; the payload begins at `header_size`.
pub record Packet : Type 0 where
  pub max_size : ℕ
  pub front : ℕ
  pub rear : ℕ
  pub using_size : ℕ
  pub ref_count : ℕ
  pub block : List ℕ
  pub is_encoded : Bool

-- What the surroundings give to a call that may ask for memory.
pub record Machine : Type 0 where
  pub fuel : ℕ
  pub has_memory : Bool

-- The constructor
unfoldable pub create : Packet
create = record {
  max_size = buffer_default;
  front = 0;
  rear = 0;
  using_size = 0;
  ref_count = 0;
  block = replicate buffer_default 0;
  is_encoded = false;
}

-- `Clear()`
unfoldable pub clear : Packet → Packet
clear p = record p {
  front = 0;
  rear = 0;
  using_size = 0;
  is_encoded = false;
  block = replicate p.max_size 0;
}

abbrev pub payload_capacity : Packet → ℕ
payload_capacity p = p.max_size - header_size

-- `GetDataSize()`
abbrev pub data_size : Packet → ℕ
data_size p = p.using_size

-- `GetFreeSize()`
abbrev pub free_size : Packet → ℕ
free_size p = p.max_size - p.using_size

-- `MoveWritePos(size)` and the distance that it returns
unfoldable pub move_write_pos : Packet → ℕ → Packet × ℕ
move_write_pos p size =
    if size == 0
    then (p, 0)
    else (let move = if ltb (free_size p) size then free_size p else size in
        (record p { rear = p.rear + move; using_size = p.using_size + move }, move))

-- The end of `MoveReadPos`, `GetData` and `ReadValue`: the read position goes on by `n`, and both
-- positions go back to the start when they meet.
consume : Packet → ℕ → Packet
consume p n =
    if p.front + n == p.rear
    then record p { front = 0; rear = 0; using_size = p.using_size - n }
    else record p { front = p.front + n; using_size = p.using_size - n }

-- `MoveReadPos(size)` and the distance that it returns
unfoldable pub move_read_pos : Packet → ℕ → Packet × ℕ
unfolding consume
move_read_pos p size =
    if size == 0
    then (p, 0)
    else (let move = if ltb (data_size p) size then data_size p else size in (consume p move, move))

-- `while (payloadcap < size) newSize = (newSize <= 0) ? size : (newSize * 2);`
grow : ℕ → ℕ → ℕ → ℕ → Outcome ℕ
grow zero cap size new_size = timed_out
grow (suc fuel) cap size new_size =
    let rest = grow fuel cap size (if new_size == 0 then size else new_size * 2) in
    if ltb cap size then rest else done new_size

-- The new block of `IncreaseBufferSize`: zeroed, with the old block copied to its start.
grown : Packet → ℕ → Packet
grown p new_size = record p {
  block = write_bytes (replicate (header_size + new_size) 0) 0 p.block;
  max_size = header_size + new_size;
}

-- `IncreaseBufferSize(addSize)`
unfoldable pub increase_buffer_size : Machine → Packet → ℕ → Outcome Packet
unfolding grow grown
increase_buffer_size m p add =
    if add == 0
    then done p
    else (if leb (p.using_size + add) (payload_capacity p)
        then done p
        else (grow m.fuel (payload_capacity p) (p.using_size + add) (payload_capacity p)
            >>= λ new_size. if m.has_memory then done (grown p new_size) else done p))

-- `memcpy` to the write position, and the position and size moved on.
append_bytes : Packet → List ℕ → Outcome Packet
append_bytes p bs =
    if ltb p.max_size (header_size + p.rear + length bs)
    then overrun
    else done (record p {
      block = write_bytes p.block (header_size + p.rear) bs;
      rear = p.rear + length bs;
      using_size = p.using_size + length bs;
    })

-- `PutData(data, size)`; the list holds the `size` bytes.
unfoldable pub put_data : Machine → Packet → List ℕ → Outcome Packet
unfolding increase_buffer_size append_bytes
put_data m p bs =
    (if ltb (free_size p) (length bs) then increase_buffer_size m p (length bs) else done p)
    >>= λ q. append_bytes q bs

-- `WriteValue(val)`; the list holds the bytes of the value.
unfoldable pub write_value : Machine → Packet → List ℕ → Outcome Packet
unfolding increase_buffer_size append_bytes
write_value m p bs =
    (if ltb (free_size p) (length bs) then increase_buffer_size m p (length bs * 2) else done p)
    >>= λ q. append_bytes q bs

-- `GetData(data, size)`: the packet after the call and the bytes stored at `data`, none if the
-- packet holds fewer; `ReadValue` does the same for the bytes of a value.
unfoldable pub get_data : Packet → ℕ → Outcome (Packet × Option (List ℕ))
unfolding consume
get_data p size =
    if ltb (data_size p) size
    then done (p, none)
    else (if ltb p.max_size (header_size + p.front + size)
        then overrun
        else done (consume p size, some (read_bytes p.block (header_size + p.front) size)))

-- `Alloc()` on the packet that the pool hands out
unfoldable pub alloc : Packet → Packet
unfolding clear
alloc p = record (clear p) { ref_count = 1 }

-- `AddRef()`, on a `LONG`
unfoldable pub add_ref : Packet → Packet
add_ref p = record p { ref_count = (p.ref_count + 1) % 2 ^ 32 }

-- `SubRef()`: the packet after the call, and whether it goes back to the pool
unfoldable pub sub_ref : Packet → Packet × Bool
sub_ref p =
    let count = (p.ref_count + 2 ^ 32 - 1) % 2 ^ 32 in (record p { ref_count = count }, count == 0)
