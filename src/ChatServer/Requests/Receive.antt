-- ===== src/ChatServer/Requests/Receive.antt =====
-- `RecvProc` and `OnRecv` of ConsoleApplication2/ChatServer.cpp keep the server valid, whatever the
-- packet is.
use chatting_server.Base.{
  ℕ, ◌≡◌, refl, ap, if◌then◌else◌, List, Option, some, none, Option-cases, inl, inr, ◌∙◌,
}
use chatting_server.Base.Maps.{find, update_hit}
use chatting_server.Base.Outcome.{Ensures, then_Ensures, map_Ensures}
use chatting_server.Packet.{Packet}
use chatting_server.Packet.Value.{get_value}
use chatting_server.ChatServer.{Server}
use chatting_server.ChatServer.Lifecycle.{acquire_player, acquire_found, release_player}
use chatting_server.ChatServer.Lifecycle.Invariant.{IsValid}
use chatting_server.ChatServer.Lifecycle.Leave.{with_ref, add_ref_player-one}
use chatting_server.ChatServer.Respond.{Surroundings}
use chatting_server.ChatServer.Requests.{Garbage, dispatch, recv_found, recv_proc, on_recv}
use chatting_server.ChatServer.Requests.Validity.{
  counted, serving, dispatch-Kept, serving-Taken, served, Kept,
}

-- `AcquirePlayer` gives the player of the session, with one reference more.
pub acquire_player-counted :
    (held : List ℕ) (sid p : ℕ) (s : Server)
    → IsValid held s
    → find sid s.players ≡ some p
    → acquire_player s sid ≡ (counted s p, some p)
unfolding acquire_player acquire_found
acquire_player-counted held sid p s v found =
    ap (acquire_found s) found
    ∙ ap chosen (add_ref_player-one s p (v.mapped_ref sid p found))
    ∙ ap (λ w. if w.closing then (release_player (counted s p) p, none) else (counted s p, some p))
        (update_hit s.heap p (with_ref 2 (s.heap p)))
    ∙ rw (v.mapped_open sid p found) refl
  where
    chosen : Server → Server × Option ℕ
    chosen t = if (t.heap p).closing then (release_player t p, none) else (t, some p)

pub acquire_player-absent :
    (sid : ℕ) (s : Server) → find sid s.players ≡ none → acquire_player s sid ≡ (s, none)
unfolding acquire_player acquire_found
acquire_player-absent sid s absent = ap (acquire_found s) absent

recv_found-IsValid :
    (held : List ℕ) (e : Surroundings) (g : Garbage) (sid p : ℕ) (packet : Packet) (s : Server)
    → IsValid held s
    → find sid s.players ≡ some p
    → Ensures (recv_found e g sid packet (counted s p) (some p)) (λ r. IsValid held r.0)
unfolding recv_found
recv_found-IsValid held e g sid p packet s v found =
    then_Ensures (get_value packet 2 0) _ (λ r. IsValid held r.0)
      λ a.
        map_Ensures (dispatch e g a.1 sid p a.0 (serving s p e.now)) _
          (λ r. Kept p (serving s p e.now) r.0) (λ r. IsValid held r.0)
          (λ r k. served held sid p s (serving s p e.now) v found (serving-Taken p e.now s) r.0 k)
          (dispatch-Kept e g a.1 sid p a.0 (serving s p e.now))

pub recv_proc-IsValid :
    (held : List ℕ) (e : Surroundings) (g : Garbage) (sid : ℕ) (packet : Packet) (s : Server)
    → IsValid held s
    → Ensures (recv_proc e g sid packet s) (λ r. IsValid held r.0)
unfolding recv_proc
recv_proc-IsValid held e g sid packet s v = elim (Option-cases (find sid s.players)) [
  | inl absent ↦ rw (acquire_player-absent sid s absent) (unfold recv_found in v)
  | inr (p, found) ↦
      rw (acquire_player-counted held sid p s v found)
        (recv_found-IsValid held e g sid p packet s v found)
]

-- A packet that arrives, if its handling returns, leaves a valid server valid with the same blocks
-- held: each sector's set is that of the players in the map who are in it, and a player in the map has
-- the one reference of the map again.
pub on_recv-IsValid :
    (held : List ℕ) (e : Surroundings) (g : Garbage) (sid : ℕ) (packet : Packet) (s : Server)
    → IsValid held s
    → Ensures (on_recv e g sid packet s) (λ r. IsValid held r.0)
unfolding on_recv
on_recv-IsValid held e g sid packet s v =
    map_Ensures (recv_proc e g sid packet s) _ (λ r. IsValid held r.0) (λ r. IsValid held r.0)
      (λ r k. k) (recv_proc-IsValid held e g sid packet s v)
