-- ===== src/Service/Reachable.antt =====
-- The states that the chat server and its network layer reach: any rounds of the threads, in any order,
-- on any network. `R` is the store of the logins.
use chatting_server.Base.{ℕ, ◌≡◌, List, [], arith}
use chatting_server.Base.Outcome.{done, done_Ensures}
use chatting_server.Packet.{Packet}
use chatting_server.Base.Maps.{find, member}
use chatting_server.FreeList.Ownership.{create-Owned}
use chatting_server.IocpServer.Sessions.{SessionTable}
use chatting_server.IocpServer.Worker.{Completion}
use chatting_server.ChatServer.{Player, new_server}
use chatting_server.ChatServer.Lifecycle.Invariant.{IsValid}
use chatting_server.ChatServer.Respond.{Surroundings}
use chatting_server.ChatServer.Login.{Redis}
use chatting_server.ChatServer.Requests.{Garbage}
use chatting_server.Service.{Chat, Network, serve, admit, heartbeat, log_in}
use chatting_server.Service.Validity.{
  Valid, serve-Valid, admit-Valid, heartbeat-Valid, log_in-Valid,
}

module _ (R : Redis) where
  -- A round of one thread: a worker, the thread that accepts, that of the time limit, or of the logins.
  pub data Step : SessionTable × Chat → SessionTable × Chat → Type 0 where
    served :
        (n : Network) (e : Surroundings) (g : Garbage) (fuel : ℕ) (fresh : Packet)
        (what : Completion) (transferred i : ℕ) {a b : SessionTable × Chat}
        → serve n e g fuel fresh what transferred a.0 a.1 i ≡ done b
        → Step a b
    admitted :
        (n : Network) (e : Surroundings) (max sock : ℕ) {a b : SessionTable × Chat}
        → admit n e max sock a.0 a.1 ≡ done b
        → Step a b
    timed :
        (n : Network) (e : Surroundings) {a b : SessionTable × Chat}
        → heartbeat n e a.0 a.1 ≡ done b
        → Step a b
    logged :
        (n : Network) (e : Surroundings) (e' : ℕ → Surroundings) (unset : List ℕ) (st : R.Store)
        {a b : SessionTable × Chat}
        → log_in n e R e' unset st a.0 a.1 ≡ done b
        → Step a b

  pub data Reaches (a : SessionTable × Chat) : SessionTable × Chat → Type 0 where
    here : Reaches a a
    next : {b c : SessionTable × Chat} → Reaches a b → Step b c → Reaches a c

  Step-Valid : {a b : SessionTable × Chat} → Step a b → Valid a.1.server → Valid b.1.server
  Step-Valid (served n e g fuel fresh what transferred i {a} {b} r) v =
      done_Ensures (λ s. Valid s.1.server) r
        (serve-Valid n e g fuel fresh what transferred a.0 a.1 i v)
  Step-Valid (admitted n e max sock {a} {b} r) v =
      done_Ensures (λ s. Valid s.1.server) r (admit-Valid n e max sock a.0 a.1 v)
  Step-Valid (timed n e {a} {b} r) v =
      done_Ensures (λ s. Valid s.1.server) r (heartbeat-Valid n e a.0 a.1 v)
  Step-Valid (logged n e e' unset st {a} {b} r) v =
      done_Ensures (λ s. Valid s.1.server) r (log_in-Valid n e R e' unset st a.0 a.1 v)

  Reaches-Valid : {a b : SessionTable × Chat} → Reaches a b → Valid a.1.server → Valid b.1.server
  Reaches-Valid here v = v
  Reaches-Valid (next r s) v = Step-Valid s (Reaches-Valid r v)

  new_server-IsValid : (heap : ℕ → Player) → IsValid [] (new_server heap)
  unfolding new_server
  new_server-IsValid heap = record {
    owned = create-Owned 0;
    mapped_held = λ sid p h. unfold find in cc;
    mapped_session = λ sid p h. unfold find in cc;
    mapped_ref = λ sid p h. unfold find in cc;
    mapped_open = λ sid p h. unfold find in cc;
    placed = λ p x y. unfold find member in ground arith;
  }

  -- From a chat server that was just made, with the network layer in any state, every state that
  -- rounds of the threads reach, in any order and whatever the clients, the network, the clock and the
  -- store do in them, has a valid chat server.
  pub Reaches-IsValid :
      (heap : ℕ → Player) (t : SessionTable) (b : SessionTable × Chat)
      → Reaches (t, record { server = new_server heap; packets = []; sent = [] }) b
      → (held : List ℕ) × IsValid held b.1.server
  Reaches-IsValid heap t b r = Reaches-Valid r ([], new_server-IsValid heap)
