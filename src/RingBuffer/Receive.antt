-- ===== src/RingBuffer/Receive.antt =====
-- Where `IOCPServer::PostRecv` (ConsoleApplication2/IOCPServer.cpp) lets the network write into the
-- ring, and what `MoveRear` then makes of the bytes that arrived. `WSARecv` is Windows's: here it is
-- any change of the cells that does what its documentation says, `IsReceived`.
use chatting_server.Base.{
  ℕ, ◌+◌, ◌-◌, ◌%◌, ◌≤◌, ◌<◌, ◌≡◌, ◌≢◌, refl, List, [], ◌∷◌, length, get_or, arith, ltb, ◌++◌,
  take_all, le→ltb, if◌then◌else◌, ◌∙◌, wrap, mod-eq-wrap, sym, ap, subst,
}
use chatting_server.RingBuffer.{
  RingBuffer, use_size, free_size, direct_enqueue_size, move_front, move_rear, dequeue, peek,
  readable,
}
use chatting_server.RingBuffer.Invariant.{IsValid, use_size-add-free_size, move_rear-IsValid}
use chatting_server.RingBuffer.Contents.{contents}
use chatting_server.RingBuffer.Transfer.{contents-rear}

-- A `WSABUF`: a position in the ring's storage and a length.
pub record WsaBuf : Type 0 where
  pub buf : ℕ
  pub len : ℕ

-- The buffers of `PostRecv`: the free cells behind the write position, and those at the start of
-- the storage if that is not all.
unfoldable pub recv_buffers : RingBuffer → List WsaBuf
unfolding direct_enqueue_size free_size
recv_buffers r =
    let direct = direct_enqueue_size r in
    let behind : WsaBuf = record { buf = r.rear_pos; len = direct } in
    let start : WsaBuf = record { buf = 0; len = free_size r - direct } in
    if ltb direct (free_size r) then behind ∷ start ∷ [] else behind ∷ []

-- The cell that byte `k` of what arrives goes to, buffer after buffer.
abbrev pub place : List WsaBuf → ℕ → ℕ
place [] k = 0
place (b ∷ bs) k = if ltb k b.len then b.buf + k else place bs (k - b.len)

abbrev pub total_len : List WsaBuf → ℕ
total_len [] = 0
total_len (b ∷ bs) = b.len + total_len bs

-- What `WSARecv` documents: the bytes fill the buffers in their order, and nothing else changes.
pub record IsReceived (bufs : List WsaBuf) (bytes before after : List ℕ) : Type 0 where
  pub same_length : length after ≡ length before
  pub stored : (k : ℕ) → k < length bytes → get_or after (place bufs k) 0 ≡ get_or bytes k 0
  pub kept :
      (j : ℕ)
      → ((k : ℕ) → k < length bytes → place bufs k ≢ j)
      → get_or after j 0 ≡ get_or before j 0

-- The buffers offer exactly the free cells.
pub total_len-recv_buffers : {r : RingBuffer} → IsValid r → total_len (recv_buffers r) ≡ free_size r
unfolding recv_buffers use_size
total_len-recv_buffers v = ground arith

-- They stand in the order in which the ring goes on.
pub place-recv_buffers :
    {r : RingBuffer} (k : ℕ)
    → IsValid r
    → k < free_size r
    → place (recv_buffers r) k ≡ wrap r.buf_size (r.rear_pos + k)
unfolding recv_buffers use_size
place-recv_buffers k v h = ground arith

-- The places of the free cells are not those of the queue.
free_ne_used :
    {r : RingBuffer} (i k : ℕ)
    → IsValid r
    → i < use_size r
    → k < free_size r
    → wrap r.buf_size (r.rear_pos + k) ≢ wrap r.buf_size (r.front_pos + i)
unfolding use_size free_size
free_ne_used i k v hi hk e = ground arith

-- Whatever the network writes into the buffers of `PostRecv`, `MoveRear` by the number of bytes that
-- arrived appends exactly those bytes to the queue, and loses none that was there; the ring stays
-- valid.
pub move_rear-received :
    {r : RingBuffer} (bytes after : List ℕ)
    → IsValid r
    → length bytes ≤ total_len (recv_buffers r)
    → IsReceived (recv_buffers r) bytes r.cells after
    → let r' = (move_rear (record r { cells = after }) (length bytes)).0 in
      (contents r' ≡ contents r ++ bytes) × IsValid r'
unfolding move_rear
move_rear-received {r} bytes after v fits done =
    (rw moved appended, move_rear-IsValid (record r { cells = after }) (length bytes) valid)
  where
    valid : IsValid (record r { cells = after })
    valid = record {
      front_in = v.front_in;
      rear_in = v.rear_in;
      storage = done.same_length ∙ v.storage;
    }

    room : length bytes ≤ free_size r
    room = subst (λ n. length bytes ≤ n) (total_len-recv_buffers v) fits

    moved :
        (r.rear_pos + (if ltb (free_size r) (length bytes) then free_size r else length bytes))
          % r.buf_size
        ≡ wrap r.buf_size (r.rear_pos + length bytes)
    moved =
        ap (λ n. (r.rear_pos + n) % r.buf_size) unclamped
        ∙ mod-eq-wrap _ _ (omega (arith, use_size-add-free_size v, room))
      where
        unclamped :
            (if ltb (free_size r) (length bytes) then free_size r else length bytes) ≡ length bytes
        unclamped = rw (le→ltb (free_size r) (length bytes) room)

    appended :
        contents
          (record r { cells = after; rear_pos = wrap r.buf_size (r.rear_pos + length bytes) })
        ≡ contents r ++ bytes
    appended =
        contents-rear (length bytes) after bytes v room (omega arith)
          (λ i l. done.kept (wrap r.buf_size (r.front_pos + i)) (λ k h e.
            free_ne_used i k v l (omega (arith, room))
              (sym (place-recv_buffers k v (omega (arith, room))) ∙ e)))
          (λ k l.
            ap (λ i. get_or after i 0) (sym (place-recv_buffers k v (omega (arith, room))))
            ∙ done.stored k l)
        ∙ ap (◌++◌ (contents r)) (take_all (length bytes) bytes (omega arith))

-- `Peek` hands out what `Dequeue` would, and `MoveFront` drops it: the header of a frame is read by
-- the one and removed by the other.
pub peek-move_front :
    (r : RingBuffer) (n : ℕ)
    → let (r', out, count) = dequeue r n in (peek r n ≡ (out, count)) × ((move_front r n).0 ≡ r')
unfolding dequeue peek move_front readable
peek-move_front r n = (refl, refl)
