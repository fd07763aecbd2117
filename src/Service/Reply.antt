-- ===== src/Service/Reply.antt =====
-- A handler of ConsoleApplication2/ChatServer.cpp that answers the session it serves.
use chatting_server.Base.{
  ℕ, ◌+◌, ◌%◌, ◌^◌, ◌≤◌, ◌<◌, ◌≡◌, refl, ap, subst, Bool, true, List, [], ◌∷◌, ◌++◌, length, Option,
  some, ◌∙◌,
}
use chatting_server.Base.Maps.{find}
use chatting_server.Base.Outcome.{Outcome, done, ◌>>=◌, Ensures}
use chatting_server.Packet.{Packet, header_size, add_ref}
use chatting_server.Packet.Buffer
use chatting_server.Packet.Buffer.{payload}
use chatting_server.Packet.Coding.{set_encoding_code, wire_bytes}
use chatting_server.Packet.Coding.Frame.{frame}
use chatting_server.IocpServer.Sessions.{SessionTable, session_index}
use chatting_server.IocpServer.Sending
use chatting_server.IocpServer.Sending.{accepted, loaded}
use chatting_server.IocpServer.Sending.Idle.{Idle, sending, locked, lock, send_idle}
use chatting_server.ChatServer.{Server, Action, send_packet}
use chatting_server.ChatServer.Sector.{is_valid_sector}
use chatting_server.ChatServer.Lifecycle.Invariant.{IsValid}
use chatting_server.ChatServer.Respond.{Surroundings}
use chatting_server.ChatServer.Respond.Wire.{move_body}
use chatting_server.ChatServer.Requests.{Garbage}
use chatting_server.ChatServer.Requests.Receive.{on_recv-IsValid}
use chatting_server.ChatServer.Requests.Sealed.{IsSealed, AllSealed, on_recv-AllSealed}
use chatting_server.Service.{Chat, Network, on_client_leave, leave, send_to, send, perform, receive}
use chatting_server.Service.Move.{move_request, moved, on_recv_move}

-- A network on which everything goes well
abbrev pub good_network : (List ℕ → Bool) → Network
good_network room = record { room = room; send_result = accepted; recv_result = accepted }

-- A sealed packet is queued as it is, with one reference more.
set_encoding_code-again :
    (q : Packet) (rand : ℕ) → IsSealed q → set_encoding_code (add_ref q) rand ≡ done (add_ref q)
unfolding set_encoding_code add_ref
set_encoding_code-again q rand h = rw h refl

-- With no session released, nobody leaves.
pub leave-nobody :
    (t : SessionTable) (c : Chat) → t.left ≡ [] → leave t c ≡ (record t { left = [] }, c)
unfolding leave on_client_leave
leave-nobody t c none_left = rw none_left refl

module _ (room : List ℕ → Bool) (law : room [] ≡ true) (e : Surroundings) where
  -- The chat server when the packet is queued and on its way.
  abbrev pub given : Chat → Packet → Chat
  given c q = record c {
    packets = c.packets ++ add_ref q ∷ [];
    sent = c.sent ++ length c.packets ∷ [];
  }

  -- A handler that answers its own session with one sealed packet
  perform-answer :
      (t : SessionTable) (c : Chat) (sid n : ℕ) (q : Packet)
      → Idle sid n (t.slots (session_index sid))
      → n + 2 < 2 ^ 32
      → t.left ≡ []
      → IsSealed q
      → (u : SessionTable) × (perform (good_network room) e t c (send_packet sid q ∷ [])
          ≡ done (u, given c q))
        × (u.slots (session_index sid)
            ≡ sending (length c.packets) (n + 1) (t.slots (session_index sid)))
        × (u.left ≡ [])
  unfolding perform send send_to
  perform-answer t c sid n q idle small none_left seal =
      let queued : Packet → SessionTable × List ℕ → SessionTable × Chat =
        λ p r. leave r.0 (record c { packets = c.packets ++ p ∷ []; sent = c.sent ++ r.1 }) in
      let (u, runs, here, _, left) = send_idle room law t sid n (length c.packets) idle small in
      let k : SessionTable = locked room law t sid n (length c.packets) idle small in
      let j : ℕ = session_index sid in
      (
        record u { left = [] },
        ap
              (λ (r : SessionTable × Option ℕ).
                send_to (good_network room) e r.0 r.1 c q >>= λ r. done (r.0, r.1))
              (lock room law t sid n (length c.packets) idle small)
            ∙ ap
                (λ (o : Outcome Packet).
                  (o >>= λ p.
                  done (queued p (Sending.send_locked room accepted k (some j) (length c.packets))))
                  >>= λ r. done (r.0, r.1))
                (set_encoding_code-again q e.rand seal)
            ∙ ap (λ r. done ((queued (add_ref q) r).0, (queued (add_ref q) r).1)) runs
            ∙ ap (λ (r : SessionTable × Chat). done (r.0, r.1))
                (leave-nobody u (given c q) (left ∙ none_left)),
        here,
        refl,
      )

  -- `OnRecv` with a request to move, from a session that is idle
  pub receive-move :
      (g : Garbage) (held : List ℕ) (t : SessionTable) (c : Chat) (sid p n account x y : ℕ)
      {packet : Packet}
      → Idle sid n (t.slots (session_index sid))
      → n + 2 < 2 ^ 32
      → t.left ≡ []
      → IsValid held c.server
      → find sid c.server.players ≡ some p
      → Buffer.IsValid packet
      → payload packet ≡ move_request account x y
      → account < 256 ^ 8
      → is_valid_sector x y ≡ true
      → header_size + 14 ≤ e.raw.max_size
      → (u : SessionTable) × (q : Packet) × (receive (good_network room) e g t c sid packet
          ≡ done (u, given (record c { server = moved c.server p x y e.now }) q))
        × (u.slots (session_index sid)
            ≡ sending (length c.packets) (n + 1) (t.slots (session_index sid)))
        × (u.left ≡ [])
        × IsValid held (moved c.server p x y e.now)
        × (wire_bytes q ≡ frame (e.rand % 256) (move_body account x y))
  unfolding receive
  receive-move g held t c sid p n account x y {packet} idle small none_left v found good said wide
        valid space =
      let s' = moved c.server p x y e.now in
      let (q, handled, wire) =
        on_recv_move e g held sid p account x y c.server v found good said wide valid space in
      let seals : AllSealed (send_packet sid q ∷ []) =
        subst (λ o. Ensures o (λ (r : Server × List Action). AllSealed r.1)) handled
          (on_recv-AllSealed e g sid packet c.server) in
      let kept : IsValid held s' =
        subst (λ o. Ensures o (λ (r : Server × List Action). IsValid held r.0)) handled
          (on_recv-IsValid held e g sid packet c.server v) in
      let (u, runs, here, left) =
        perform-answer t (record c { server = s' }) sid n q idle small none_left seals.0 in
      (
        u,
        q,
        ap
              (λ (o : Outcome (Server × List Action)).
                o >>= λ r. perform (good_network room) e t (record c { server = r.0 }) r.1)
              handled
            ∙ runs,
        here,
        left,
        kept,
        wire,
      )
