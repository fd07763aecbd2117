-- ===== src/Service.antt =====
-- The chat server on its network layer, ConsoleApplication2/ChatServer.cpp on IOCPServer.cpp:
-- `OnClientJoin`, `OnClientLeave` and `OnRecv` as IOCPServer calls them, with the calls of SendPacket and
-- Disconnect that they make in return. The packets of the queues are numbers; `packets` holds the packet
-- of each number. A handler's calls of the network happen when it is done, in their order; a session
-- that ends in such a call leaves the chat server at once.
pub mod Move
pub mod Reply
pub mod Answer
pub mod Validity
pub mod Reachable
mod Tests
use chatting_server.Base.{ℕ, ◌==◌, Bool, List, [], ◌∷◌, ◌++◌, length, Option, none, some}
use chatting_server.Base.Outcome.{Outcome, done, ◌>>=◌}
use chatting_server.Packet.{Packet, add_ref}
use chatting_server.Packet.Coding.{set_encoding_code}
use chatting_server.IocpServer.Sessions
use chatting_server.IocpServer.Sessions.{SessionTable}
use chatting_server.IocpServer.Sending
use chatting_server.IocpServer.Sending.{Posted}
use chatting_server.IocpServer.Worker.{Completion, worker_round, accept_round}
use chatting_server.ChatServer.{Server, Action, send_packet, disconnect}
use chatting_server.ChatServer.Lifecycle.{join_proc, leave_proc}
use chatting_server.ChatServer.Respond.{Surroundings}
use chatting_server.ChatServer.Login.{Redis, redis_round}
use chatting_server.ChatServer.Requests.{Garbage, on_recv, check_time_out}

-- The chat server, the packets that were queued so far, and those that the network was given while
-- handlers ran.
pub record Chat : Type 0 where
  pub server : Server
  pub packets : List Packet
  pub sent : List ℕ

-- `OnClientLeave` for each of the sessions, in order
unfoldable pub on_client_leave : List ℕ → Server → Server
on_client_leave [] s = s
on_client_leave (sid ∷ sids) s = on_client_leave sids (leave_proc sid s)

-- The sessions that a call of the network released leave the chat server.
unfoldable pub leave : SessionTable → Chat → SessionTable × Chat
unfolding on_client_leave
leave t c = (record t { left = [] }, record c { server = on_client_leave t.left c.server })

-- What the network is like: whether a queue has room, what `WSASend` and `WSARecv` come to.
pub record Network : Type 0 where
  pub room : List ℕ → Bool
  pub send_result : Posted
  pub recv_result : Posted

module _ (n : Network) (e : Surroundings) where
  -- `SendPacket(id, packet)` from `SessionLock` on: a packet for no session gets no reference and is
  -- not sealed. That the packet is queued comes after its seal.
  unfoldable pub send_to : SessionTable → Option ℕ → Chat → Packet → Outcome (SessionTable × Chat)
  unfolding leave
  send_to t none c p = done (leave t c)
  send_to t (some i) c p = set_encoding_code (add_ref p) e.rand >>= λ q.
      let r = Sending.send_locked n.room n.send_result t (some i) (length c.packets) in
      done (leave r.0 (record c { packets = c.packets ++ q ∷ []; sent = c.sent ++ r.1 }))

  -- `SendPacket(id, packet)`
  unfoldable pub send : SessionTable → Chat → ℕ → Packet → Outcome (SessionTable × Chat)
  unfolding send_to
  send t c sid p = let r = Sessions.session_lock t sid in send_to r.0 r.1 c p

  -- What a handler asks of the network, in order
  unfoldable pub perform : SessionTable → Chat → List Action → Outcome (SessionTable × Chat)
  unfolding send leave
  perform t c [] = done (t, c)
  perform t c (send_packet sid p ∷ rest) = send t c sid p >>= λ r. perform r.0 r.1 rest
  perform t c (disconnect sid ∷ rest) =
      let r = leave (Sessions.disconnect t sid) c in perform r.0 r.1 rest

  -- `OnRecv` as the network layer calls it
  unfoldable pub receive :
      Garbage → SessionTable → Chat → ℕ → Packet → Outcome (SessionTable × Chat)
  unfolding perform
  receive g t c sid p =
      on_recv e g sid p c.server >>= λ r. perform t (record c { server = r.0 }) r.1

  -- `OnClientJoin`, which does not look at what `JoinProc` returns
  unfoldable pub join : SessionTable → Chat → ℕ → Outcome (SessionTable × Chat)
  join t c sid = join_proc e.now sid c.server >>= λ r. done (t, record c { server = r.0 })

  -- One round of a worker of the chat server; `fresh` and `fuel` are for the loop over the frames.
  unfoldable pub serve :
      Garbage
      → ℕ
      → Packet
      → Completion
      → ℕ
      → SessionTable
      → Chat
      → ℕ
      → Outcome (SessionTable × Chat)
  unfolding receive leave
  serve g fuel fresh what transferred t c i =
      worker_round (receive g) n.room fuel fresh n.recv_result e.now what transferred t c i >>= λ r.
      done (leave r.0 (record r.1 { sent = r.1.sent ++ r.2 }))

  -- One round of the thread that accepts; `OnConnectionRequest` returns true.
  unfoldable pub admit : ℕ → ℕ → SessionTable → Chat → Outcome (SessionTable × Chat)
  unfolding join leave
  admit max_client_count sock t c =
      accept_round join max_client_count chatting_server.Base.true n.recv_result sock e.now t c
      >>= λ r. done (leave r.0 r.1)

  -- One round of `HeartbeatThread`
  unfoldable pub heartbeat : SessionTable → Chat → Outcome (SessionTable × Chat)
  unfolding perform
  heartbeat t c = perform t c (check_time_out e.now c.server)

  -- One round of `RedisThread`. Other programs write to the store too, so that each round has its own.
  unfoldable pub log_in :
      (R : Redis)
      → (ℕ → Surroundings)
      → List ℕ
      → R.Store
      → SessionTable
      → Chat
      → Outcome (SessionTable × Chat)
  unfolding perform
  log_in R e' unset st t c =
      redis_round R e' e' unset st c.server >>= λ r. perform t (record c { server = r.1 }) r.2
