-- ===== src/Service/Move.antt =====
-- `OnRecv` of ConsoleApplication2/ChatServer.cpp for a request to move, from the packet to the answer.
use chatting_server.Base.{
  ℕ, ◌+◌, ◌%◌, ◌^◌, ◌≤◌, ◌<◌, ◌≡◌, refl, true, List, [], ◌∷◌, ◌++◌, some, arith,
}
use chatting_server.Base.Maps.{find}
use chatting_server.Base.Outcome.{done}
use chatting_server.Packet.{Packet, header_size}
use chatting_server.Packet.Buffer
use chatting_server.Packet.Buffer.{payload}
use chatting_server.Packet.Value.{bytes_of, get_value_lem}
use chatting_server.Packet.Coding.{wire_bytes}
use chatting_server.Packet.Coding.Frame.{frame}
use chatting_server.ChatServer.{Server, send_packet}
use chatting_server.ChatServer.Sector.{is_valid_sector}
use chatting_server.ChatServer.Lifecycle.{release_player}
use chatting_server.ChatServer.Lifecycle.Invariant.{IsValid}
use chatting_server.ChatServer.Respond.{Surroundings}
use chatting_server.ChatServer.Respond.Wire.{move_body}
use chatting_server.ChatServer.Requests.{
  Garbage, move_player, dispatch, recv_found, recv_proc, on_recv,
}
use chatting_server.ChatServer.Requests.Receive.{acquire_player-counted}
use chatting_server.ChatServer.Requests.Served.{req_sector_move_served}
use chatting_server.ChatServer.Requests.Validity.{serving}

-- The payload of a request to move, as Protocol.h lays it out
abbrev pub move_request : ℕ → ℕ → ℕ → List ℕ
move_request account x y =
    bytes_of 2 3 ++ (bytes_of 8 account ++ (bytes_of 2 x ++ (bytes_of 2 y ++ [])))

-- The server when the player `p` has moved and the handler is done.
abbrev pub moved : Server → ℕ → ℕ → ℕ → ℕ → Server
moved s p x y now = release_player (move_player (serving s p now) p x y now) p

pub on_recv_move :
    (e : Surroundings) (g : Garbage) (held : List ℕ) (sid p account x y : ℕ) {packet : Packet}
    (s : Server)
    → IsValid held s
    → find sid s.players ≡ some p
    → Buffer.IsValid packet
    → payload packet ≡ move_request account x y
    → account < 256 ^ 8
    → is_valid_sector x y ≡ true
    → header_size + 14 ≤ e.raw.max_size
    → (q : Packet) × (on_recv e g sid packet s ≡ done (moved s p x y e.now, send_packet sid q ∷ []))
      × (wire_bytes q ≡ frame (e.rand % 256) (move_body account x y))
unfolding on_recv recv_proc recv_found dispatch
on_recv_move e g held sid p account x y {packet} s v found good said wide valid room =
    let (p1, r1, left, good1) =
      get_value_lem 2 3 0 (bytes_of 8 account ++ (bytes_of 2 x ++ (bytes_of 2 y ++ []))) good
        (omega arith) said in
    let (q, answers, wire) =
      req_sector_move_served e g sid p account x y (serving s p e.now) good1 left wide valid room in
    (q, rw (acquire_player-counted held sid p s v found, r1, answers) refl, wire)
