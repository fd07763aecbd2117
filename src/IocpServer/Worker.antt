-- ===== src/IocpServer/Worker.antt =====
-- The receive path of ConsoleApplication2/IOCPServer.cpp and the threads that drive it: `PostRecv`,
-- `RecvComplete`, one round of `WorkerThread` and one of `AcceptThread`. `OnRecv` is an argument. What the overlapped calls come to is an argument too.
pub mod Release
pub mod Ends
pub mod Noted
pub mod Receive
pub mod Keeps
mod Tests
use chatting_server.Base.{
  ℕ, zero, suc, ◌+◌, ◌-◌, ◌%◌, ◌^◌, ltb, ◌==◌, if◌then◌else◌, not, ◌&&◌, Bool, true, false, List,
  [], ◌∷◌, Option, some, none,
}
use chatting_server.Base.Outcome.{Outcome, done, timed_out, ◌>>=◌}
use chatting_server.RingBuffer.{RingBuffer, move_rear}
use chatting_server.Packet.{Packet}
use chatting_server.IocpServer.Frames.{Ending, drained, disconnected, wait, cut, got, recv_step}
use chatting_server.IocpServer.Sessions.{
  Session, SessionTable, set_slot, with_io_count, release_session, close_session, create_session,
  count_low,
}
use chatting_server.IocpServer.Sending.{Posted, accepted, refused, less_io, more_io, send_complete}

-- `InterlockedDecrement(&session->ioCount)`
abbrev pub drop_io : SessionTable → ℕ → SessionTable
drop_io t i = set_slot t i (with_io_count (less_io (t.slots i)) (t.slots i))

-- The error path of `PostRecv`
unfoldable pub recv_refused : SessionTable → ℕ → SessionTable
recv_refused t i =
    let u = drop_io t i in
    close_session (if (u.slots i).io_count == 0 then release_session u i else u) i

-- `PostRecv(session)`, without the buffers that it offers, and what it returns
unfoldable pub post_recv : Posted → SessionTable → ℕ → SessionTable × Bool
unfolding recv_refused
post_recv accepted t i =
    if (t.slots i).is_released then (t, false) else (set_slot t i (more_io (t.slots i)), true)
post_recv refused t i =
    if (t.slots i).is_released
    then (t, false)
    else (recv_refused (set_slot t i (more_io (t.slots i))) i, false)

-- `InterlockedIncrement((LONG*)&recvTPS)`
abbrev pub counted : SessionTable → SessionTable
counted t = record t { recv_tps = count_low t.recv_tps }

-- The session's ring when a round has taken a frame off.
abbrev pub with_ring : SessionTable → ℕ → RingBuffer → SessionTable
with_ring t i ring = set_slot t i (record (t.slots i) { recv_buf = ring })

-- The loop of `RecvComplete`: each round cuts one frame, counts it in `recvTPS` and calls `OnRecv` with
-- the packet; `A` is what the handler keeps beside the table.
unfoldable pub recv_rounds :
    {A : Type 0}
    → (SessionTable → A → ℕ → Packet → Outcome (SessionTable × A))
    → ℕ
    → Packet
    → SessionTable
    → A
    → ℕ
    → Outcome (SessionTable × A × Ending)
recv_rounds on_recv zero fresh t a i = timed_out
recv_rounds on_recv (suc fuel) fresh t a i =
    recv_step fresh (t.slots i).recv_buf >>= λ (ring, verdict). elim verdict [
      | wait ↦ done (t, a, drained)
      | cut ↦ done (with_ring t i ring, a, disconnected)
      | got p ↦
          let u = counted (with_ring t i ring) in
          on_recv u a (u.slots i).session_id p >>= λ r. recv_rounds on_recv fuel fresh r.0 r.1 i
    ]

-- The session when the bytes are in its ring.
unfoldable pub received : Session → ℕ → ℕ → Session
received v now n = record v { last_recv_time = now; recv_buf = (move_rear v.recv_buf n).0 }

after_loop : Posted → SessionTable → ℕ → Ending → SessionTable
unfolding post_recv
after_loop r t i disconnected = close_session t i
after_loop r t i drained = if (t.slots i).is_released then t else (post_recv r t i).0

-- `RecvComplete(session, transferred)`; `fresh` is the packet that the pool hands out, and `fuel` is for
-- the loop.
unfoldable pub recv_complete :
    {A : Type 0}
    → (SessionTable → A → ℕ → Packet → Outcome (SessionTable × A))
    → ℕ
    → Packet
    → Posted
    → ℕ
    → ℕ
    → SessionTable
    → A
    → ℕ
    → Outcome (SessionTable × A)
unfolding received recv_rounds after_loop
recv_complete on_recv fuel fresh r now transferred t a i =
    if transferred == 0
    then done (close_session t i, a)
    else (recv_rounds on_recv fuel fresh (set_slot t i (received (t.slots i) now transferred)) a i
        >>= λ (v, b, ending). done (after_loop r v i ending, b))

-- The end of a round of `WorkerThread`
unfoldable pub settle_io : SessionTable → ℕ → SessionTable
settle_io t i =
    let u = drop_io t i in
    if (u.slots i).io_count == 0 && (u.slots i).is_released then release_session u i else u

-- What a worker takes out of the completion port: the completion of a receive or of a send.
pub data Completion : Type 0 where
  recv_done send_done : Completion

-- One round of `WorkerThread`: the table, what the handler keeps, and what the network was given
unfoldable pub worker_round :
    {A : Type 0}
    → (SessionTable → A → ℕ → Packet → Outcome (SessionTable × A))
    → (List ℕ → Bool)
    → ℕ
    → Packet
    → Posted
    → ℕ
    → Completion
    → ℕ
    → SessionTable
    → A
    → ℕ
    → Outcome (SessionTable × A × List ℕ)
unfolding recv_complete settle_io
worker_round on_recv room fuel fresh r now recv_done n t a i =
    recv_complete on_recv fuel fresh r now n t a i >>= λ (u, b). done (settle_io u i, b, [])
worker_round on_recv room fuel fresh r now send_done n t a i =
    let (u, sent) = send_complete room r n t i in done (settle_io u i, a, sent)

-- One round of `AcceptThread` for a socket that was accepted: `allowed` is what
-- `OnConnectionRequest` says, and `joined` is `OnClientJoin`.
unfoldable pub accept_round :
    {A : Type 0}
    → (SessionTable → A → ℕ → Outcome (SessionTable × A))
    → ℕ
    → Bool
    → Posted
    → ℕ
    → ℕ
    → SessionTable
    → A
    → Outcome (SessionTable × A)
unfolding post_recv
accept_round joined max_client_count allowed r sock now t a =
    if not (ltb t.session_count max_client_count)
    then done (t, a)
    else (if allowed
        then (create_session sock now t >>= λ (u, i).
            joined u a (u.slots i).session_id >>= λ (w, b). done ((post_recv r w i).0, b))
        else done (t, a))
