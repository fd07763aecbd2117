-- ===== src/ChatServer/Requests/Served.antt =====
-- What `Req_SectorMove` and `Req_Chat` of ConsoleApplication2/ChatServer.cpp do with a request that is
-- as Protocol.h says.
use chatting_server.Base.{
  ℕ, ◌+◌, ◌%◌, ◌^◌, ◌≤◌, ◌<◌, ◌≡◌, refl, sym, ap, ◌==◌, true, false, List, [], ◌∷◌, ◌++◌, arith,
  length, append_inj, append-nil, ◌∙◌,
}
use chatting_server.Base.Outcome.{done}
use chatting_server.Packet.{Packet, header_size}
use chatting_server.Packet.Buffer.{IsValid, payload, get_data_cases}
use chatting_server.Packet.Value.{bytes_of, get_value_lem}
use chatting_server.Packet.Coding.{wire_bytes}
use chatting_server.Packet.Coding.Frame.{frame}
use chatting_server.ChatServer.{Server, send_packet}
use chatting_server.ChatServer.Sector.{is_valid_sector, make_around}
use chatting_server.ChatServer.Respond.{Surroundings}
use chatting_server.ChatServer.Respond.Wire.{
  move_body, res_sector_move-wire, chat_head, res_chat_cases,
}
use chatting_server.ChatServer.Requests.{
  Garbage, move_player, req_sector_move, req_chat, targets, send_each,
}

-- A request to move to a valid sector moves the player there and is answered with that sector.
pub req_sector_move_served :
    (e : Surroundings) (g : Garbage) (sid p account x y : ℕ) {packet : Packet} (s : Server)
    → IsValid packet
    → payload packet ≡ bytes_of 8 account ++ (bytes_of 2 x ++ (bytes_of 2 y ++ []))
    → account < 256 ^ 8
    → is_valid_sector x y ≡ true
    → header_size + 14 ≤ e.raw.max_size
    → (q : Packet) × (req_sector_move e g sid p packet s
        ≡ done (move_player s p x y e.now, true, send_packet sid q ∷ []))
      × (wire_bytes q ≡ frame (e.rand % 256) (move_body account x y))
unfolding req_sector_move
req_sector_move_served e g sid p account x y {packet} s v said wide valid room =
    let (p1, r1, left1, v1) =
      get_value_lem 8 account 0 (bytes_of 2 x ++ (bytes_of 2 y ++ [])) v wide said in
    let (p2, r2, left2, v2) = get_value_lem 2 x g.x (bytes_of 2 y ++ []) v1 (ground arith) left1 in
    let (p3, r3, left3, v3) = get_value_lem 2 y g.y [] v2 (ground arith) left2 in
    let (q, r4, wire) = res_sector_move-wire e account x y room in
    (q, rw (r1, r2, r3, valid, r4) refl, wire)

-- A request to move to a sector that is not valid changes nothing and fails.
pub req_sector_move_refused :
    (e : Surroundings) (g : Garbage) (sid p account x y : ℕ) {packet : Packet} (s : Server)
    → IsValid packet
    → payload packet ≡ bytes_of 8 account ++ (bytes_of 2 x ++ (bytes_of 2 y ++ []))
    → account < 256 ^ 8
    → x < 65536
    → y < 65536
    → is_valid_sector x y ≡ false
    → req_sector_move e g sid p packet s ≡ done (s, false, [])
unfolding req_sector_move
req_sector_move_refused e g sid p account x y {packet} s v said wide xs ys wrong =
    let (p1, r1, left1, v1) =
      get_value_lem 8 account 0 (bytes_of 2 x ++ (bytes_of 2 y ++ [])) v wide said in
    let (p2, r2, left2, v2) = get_value_lem 2 x g.x (bytes_of 2 y ++ []) v1 (omega arith) left1 in
    let (p3, r3, left3, v3) = get_value_lem 2 y g.y [] v2 (omega arith) left2 in
    rw (r1, r2, r3, wrong) refl

-- A chat message of 1 to 415 bytes from a logged-in player in a valid sector goes, in one frame with
-- the player's account, name and nick, to the targets around the player, and changes nothing else.
pub req_chat_served :
    (e : Surroundings) (g : Garbage) (sid p account : ℕ) (msg : List ℕ) {packet : Packet}
    (s : Server)
    → IsValid packet
    → payload packet ≡ bytes_of 8 account ++ (bytes_of 2 (length msg) ++ msg)
    → account < 256 ^ 8
    → 0 < length msg
    → length msg ≤ 415
    → (s.heap p).is_logined ≡ true
    → is_valid_sector (s.heap p).sector_x (s.heap p).sector_y ≡ true
    → length (s.heap p).id ≡ 40
    → length (s.heap p).nick ≡ 40
    → e.raw.max_size ≡ 512
    → (q : Packet) × (req_chat e g sid p packet s
        ≡ done (
          s,
          true,
          send_each q (targets s (make_around (s.heap p).sector_x (s.heap p).sector_y)),
        ))
      × (wire_bytes q ≡ frame (e.rand % 256) (chat_head (s.heap p) (length msg) ++ msg))
unfolding req_chat
req_chat_served e g sid p account msg {packet} s v said wide some_bytes short logged valid id nick
      full =
    let len = length msg in
    let (p1, r1, left1, v1) = get_value_lem 8 account 0 (bytes_of 2 len ++ msg) v wide said in
    let (p2, r2, left2, v2) = get_value_lem 2 len 0 msg v1 (omega arith) left1 in
    let (p3, out, r3, size, split, _) =
      (get_data_cases len v2).0 (omega (arith, ap length left2)) in
    let same : out ≡ msg =
      (append_inj out msg (payload p3) [] size (split ∙ left2 ∙ sym (append-nil msg))).0 in
    let (q, r4, wire) = (res_chat_cases e (s.heap p) msg id nick full).0 short in
    let positive : (len == 0) ≡ false = ground arith in
    (q, simp (logged, r1, r2, positive, r3, same, r4, valid), wire)
