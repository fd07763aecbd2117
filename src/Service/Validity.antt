-- ===== src/Service/Validity.antt =====
-- Every step of the chat server on its network layer leaves a valid server valid.
use chatting_server.Base.{
  ℕ, true, List, [], ◌∷◌, ◌++◌, length, Option, none, some, Option-cases, inl, inr,
}
use chatting_server.Base.Maps.{find}
use chatting_server.Base.Outcome.{Ensures, then_Ensures, both_Ensures, map_Ensures}
use chatting_server.Packet.{Packet, add_ref}
use chatting_server.Packet.Coding.{set_encoding_code}
use chatting_server.IocpServer.Sessions
use chatting_server.IocpServer.Sessions.{SessionTable}
use chatting_server.IocpServer.Sending
use chatting_server.IocpServer.Worker.{Completion, worker_round, accept_round}
use chatting_server.IocpServer.Worker.Keeps.{worker_round-keeps, accept_round-keeps}
use chatting_server.ChatServer.{Server, Action, send_packet, disconnect}
use chatting_server.ChatServer.Lifecycle.{join_proc, leave_proc}
use chatting_server.ChatServer.Lifecycle.Invariant.{IsValid}
use chatting_server.ChatServer.Lifecycle.Join.{join_proc_new, join_proc_known}
use chatting_server.ChatServer.Lifecycle.Validity.{leave_proc-IsValid}
use chatting_server.ChatServer.Respond.{Surroundings}
use chatting_server.ChatServer.Login.{Redis, redis_round}
use chatting_server.ChatServer.Login.Round.{redis_round-IsValid}
use chatting_server.ChatServer.Requests.{Garbage, on_recv, check_time_out}
use chatting_server.ChatServer.Requests.Receive.{on_recv-IsValid}
use chatting_server.Service.{
  Chat, Network, on_client_leave, leave, send_to, send, perform, receive, join, serve, admit,
  heartbeat, log_in,
}

-- The server is valid, whichever blocks it holds.
abbrev pub Valid : Server → Type 0
Valid s = (held : List ℕ) × IsValid held s

leave_proc-Valid : (sid : ℕ) (s : Server) → Valid s → Valid (leave_proc sid s)
leave_proc-Valid sid s (held, v) = elim (Option-cases (find sid s.players)) [
  | inl none_there ↦ unfold leave_proc in rw none_there (held, v)
  | inr (p, found) ↦ (held, (leave_proc-IsValid held sid p s v found).0)
]

on_client_leave-Valid : (sids : List ℕ) (s : Server) → Valid s → Valid (on_client_leave sids s)
unfolding on_client_leave
on_client_leave-Valid [] s v = v
on_client_leave-Valid (sid ∷ sids) s v =
    on_client_leave-Valid sids (leave_proc sid s) (leave_proc-Valid sid s v)

join_proc-Valid :
    (now sid : ℕ) (s : Server) → Valid s → Ensures (join_proc now sid s) (λ r. Valid r.0)
join_proc-Valid now sid s (held, v) = elim (Option-cases (find sid s.players)) [
  | inl absent ↦
      let (t, b, runs, _, _, _, w) = join_proc_new held now sid s v absent in rw runs (b ∷ held, w)
  | inr (p, known) ↦
      let (t, runs, _, _, w) = join_proc_known held now sid p s v known in rw runs (held, w)
]

module _ (n : Network) (e : Surroundings) where
  -- What a step leaves
  abbrev Good : SessionTable × Chat → Type 0
  Good r = Valid r.1.server

  leave-Valid : (t : SessionTable) (c : Chat) → Valid c.server → Good (leave t c)
  unfolding leave
  leave-Valid t c v = on_client_leave-Valid t.left c.server v

  send_to-Valid :
      (t : SessionTable) (at : Option ℕ) (c : Chat) (p : Packet)
      → Valid c.server
      → Ensures (send_to n e t at c p) Good
  unfolding send_to
  send_to-Valid t none c p v = leave-Valid t c v
  send_to-Valid t (some i) c p v = then_Ensures (set_encoding_code (add_ref p) e.rand) _ Good (λ q.
      let r = Sending.send_locked n.room n.send_result t (some i) (length c.packets) in
      leave-Valid r.0 (record c { packets = c.packets ++ q ∷ []; sent = c.sent ++ r.1 }) v)

  send-Valid :
      (t : SessionTable) (c : Chat) (sid : ℕ) (p : Packet)
      → Valid c.server
      → Ensures (send n e t c sid p) Good
  unfolding send
  send-Valid t c sid p v = let r = Sessions.session_lock t sid in send_to-Valid r.0 r.1 c p v

  pub perform-Valid :
      (t : SessionTable) (c : Chat) (acts : List Action)
      → Valid c.server
      → Ensures (perform n e t c acts) Good
  unfolding perform
  perform-Valid t c [] v = v
  perform-Valid t c (send_packet sid p ∷ rest) v =
      both_Ensures (send n e t c sid p) _ Good Good (λ r w. perform-Valid r.0 r.1 rest w)
        (send-Valid t c sid p v)
  perform-Valid t c (disconnect sid ∷ rest) v =
      let r = leave (Sessions.disconnect t sid) c in
      perform-Valid r.0 r.1 rest (leave-Valid (Sessions.disconnect t sid) c v)

  receive-Valid :
      (g : Garbage) (t : SessionTable) (c : Chat) (sid : ℕ) (p : Packet)
      → Valid c.server
      → Ensures (receive n e g t c sid p) Good
  unfolding receive
  receive-Valid g t c sid p (held, v) =
      both_Ensures (on_recv e g sid p c.server) _ (λ r. IsValid held r.0) Good
        (λ r w. perform-Valid t (record c { server = r.0 }) r.1 (held, w))
        (on_recv-IsValid held e g sid p c.server v)

  join-Valid :
      (t : SessionTable) (c : Chat) (sid : ℕ) → Valid c.server → Ensures (join n e t c sid) Good
  unfolding join
  join-Valid t c sid v =
      map_Ensures (join_proc e.now sid c.server) _ (λ r. Valid r.0) Good (λ r w. w)
        (join_proc-Valid e.now sid c.server v)

  pub serve-Valid :
      (g : Garbage) (fuel : ℕ) (fresh : Packet) (what : Completion) (transferred : ℕ)
      (t : SessionTable) (c : Chat) (i : ℕ)
      → Valid c.server
      → Ensures (serve n e g fuel fresh what transferred t c i) Good
  unfolding serve
  serve-Valid g fuel fresh what transferred t c i v =
      map_Ensures
        (worker_round (receive n e g) n.room fuel fresh n.recv_result e.now what transferred t c i)
        _ (λ r. Valid r.1.server) Good
        (λ r w. leave-Valid r.0 (record r.1 { sent = r.1.sent ++ r.2 }) w)
        (worker_round-keeps (λ a. Valid a.server) (receive n e g) (receive-Valid g) n.room fuel
          fresh n.recv_result e.now what transferred t c i v)

  pub admit-Valid :
      (max sock : ℕ) (t : SessionTable) (c : Chat)
      → Valid c.server
      → Ensures (admit n e max sock t c) Good
  unfolding admit
  admit-Valid max sock t c v =
      map_Ensures (accept_round (join n e) max true n.recv_result sock e.now t c) _
        (λ r. Valid r.1.server) Good (λ r w. leave-Valid r.0 r.1 w)
        (accept_round-keeps (λ a. Valid a.server) (join n e) join-Valid max true n.recv_result sock
          e.now t c v)

  pub log_in-Valid :
      (R : Redis) (e' : ℕ → Surroundings) (unset : List ℕ) (st : R.Store) (t : SessionTable)
      (c : Chat)
      → Valid c.server
      → Ensures (log_in n e R e' unset st t c) Good
  unfolding log_in
  log_in-Valid R e' unset st t c (held, v) =
      both_Ensures (redis_round R e' e' unset st c.server) _ (λ r. IsValid held r.1) Good
        (λ r w. perform-Valid t (record c { server = r.1 }) r.2 (held, w))
        (redis_round-IsValid R held e' e' unset st c.server v)

  pub heartbeat-Valid :
      (t : SessionTable) (c : Chat) → Valid c.server → Ensures (heartbeat n e t c) Good
  unfolding heartbeat
  heartbeat-Valid t c v = perform-Valid t c (check_time_out e.now c.server) v
