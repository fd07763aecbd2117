-- ===== src/IocpServer/Frames.antt =====
-- The loop of `IOCPServer::RecvComplete` (ConsoleApplication2/IOCPServer.cpp) that cuts the bytes of
-- a session's receive ring into packets. `fresh` is the packet that the pool hands out; `Alloc`
-- clears it, so only the size of its block matters. The loop with `OnRecv` in it is
-- `recv_rounds` of Worker: the loop here collects the packets that it hands over, in order.
pub mod Step
pub mod Stream
pub mod Limits
mod Tests
use chatting_server.Base.{
  ℕ, zero, suc, ◌+◌, ◌-◌, ltb, ◌==◌, if◌then◌else◌, Bool, true, false, List, [], ◌∷◌,
}
use chatting_server.Base.Arrays.{write_bytes}
use chatting_server.Base.Outcome.{Outcome, done, overrun, timed_out, ◌>>=◌}
use chatting_server.RingBuffer.{RingBuffer, use_size, peek, move_front, dequeue}
use chatting_server.Packet.{Packet, header_size, alloc, clear, move_write_pos}
use chatting_server.Packet.Coding.{
  PacketHeader, packet_code, header_of, set_message_header, set_decoding_code,
}

-- What a round of the loop comes to: wait for more bytes, disconnect, or a packet for `OnRecv`.
pub data Verdict : Type 0 where
  wait cut : Verdict
  got : Packet → Verdict

-- How the loop was left: by `break`, or by disconnecting the session.
pub data Ending : Type 0 where
  drained disconnected : Ending

-- `Dequeue(cPacket->GetBufferPtr(), stHeader.len)`: the bytes land at the start of the payload. A
-- frame longer than the payload's room runs over the end of the block.
unfoldable pub fill : RingBuffer → Packet → ℕ → Outcome (RingBuffer × Packet × ℕ)
fill r p len =
    let (r', bytes, count) = dequeue r len in
    if ltb p.max_size (header_size + count)
    then overrun
    else done (r', record p { block = write_bytes p.block header_size bytes }, count)

-- From `Dequeue` to the end of the round.
unfoldable pub accept : Packet → RingBuffer → ℕ → Outcome (RingBuffer × Verdict)
unfolding fill
accept p r len = fill r p len >>= λ (r', q, count).
    if len == count
    then (set_decoding_code (move_write_pos q len).0 >>= λ (opened, good).
        if good then done (r', got opened) else done (r', cut))
    else done (r', cut)

-- One round of the loop.
unfoldable pub recv_step : Packet → RingBuffer → Outcome (RingBuffer × Verdict)
recv_step fresh r =
    let bytes = (peek r header_size).0 in
    let header = header_of bytes in
    if ltb (use_size r) header_size
    then done (r, wait)
    else (if header.code == packet_code
        then (if header.len == 0
            then done (r, cut)
            else (if ltb (use_size r) (header_size + header.len)
                then done (r, wait)
                else accept (set_message_header (clear (alloc fresh)) bytes)
                    (move_front r header_size).0 header.len))
        else done (r, cut))

abbrev pub with_packet :
    Packet → RingBuffer × List Packet × Ending → RingBuffer × List Packet × Ending
with_packet p (r, ps, e) = (r, p ∷ ps, e)

-- The loop: the ring it leaves, the packets handed to `OnRecv`, and how it was left.
unfoldable pub recv_loop : ℕ → Packet → RingBuffer → Outcome (RingBuffer × List Packet × Ending)
recv_loop zero fresh r = timed_out
recv_loop (suc fuel) fresh r = recv_step fresh r >>= λ (r', verdict). elim verdict [
  | wait ↦ done (r', [], drained)
  | cut ↦ done (r', [], disconnected)
  | got p ↦ recv_loop fuel fresh r' >>= λ rest. done (with_packet p rest)
]
