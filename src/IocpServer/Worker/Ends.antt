-- ===== src/IocpServer/Worker/Ends.antt =====
-- The rounds of `WorkerThread` of ConsoleApplication2/IOCPServer.cpp end if the handler ends.
use chatting_server.Base.{ℕ, ◌≤◌}
use chatting_server.Base.Outcome.{Outcome}
use chatting_server.RingBuffer.{RingBuffer, use_size}
use chatting_server.RingBuffer.Invariant.{IsValid}
use chatting_server.Packet.{Packet}
use chatting_server.IocpServer.Sessions.{SessionTable}

-- A handler that puts no bytes into the ring of the session `i`: the ring stays valid, and holds at most
-- the bytes that it held.
abbrev pub Reads : {A : Type 0} → ℕ → SessionTable → SessionTable × A → Type 0
Reads i t r =
    IsValid (t.slots i).recv_buf
    → IsValid (r.0.slots i).recv_buf
      × (use_size (r.0.slots i).recv_buf ≤ use_size (t.slots i).recv_buf)
