-- ===== src/ChatServer/Requests.antt =====
-- The requests of a client, ConsoleApplication2/ChatServer.cpp: `RecvProc` and the handlers that it
-- calls, `OnRecv`, and the time limit of `CheckTimeOut`. Of the set of a sector the list gives the
-- order in which it is read.
pub mod Move
pub mod Validity
pub mod Receive
pub mod Targets
pub mod Sealed
pub mod Served
use chatting_server.Base.{
  ℕ, zero, ◌+◌, ◌-◌, ltb, ◌==◌, if◌then◌else◌, Bool, true, false, not, ◌&&◌, ◌||◌, List, [], ◌∷◌,
  ◌++◌, Option, some, none, length, take,
}
use chatting_server.Base.Maps.{find, update}
use chatting_server.Base.Outcome.{Outcome, done, ◌>>=◌}
use chatting_server.Packet.{Packet, get_data, add_ref}
use chatting_server.Packet.Value.{get_value}
use chatting_server.ChatServer.{Player, Server, RedisJob, Action, send_packet, disconnect}
use chatting_server.ChatServer.Sector.{is_valid_sector, make_around}
use chatting_server.ChatServer.Lifecycle.{
  set_player, acquire_player, release_player, erase_at, insert_at,
}
use chatting_server.ChatServer.Respond.{Surroundings, res_sector_move, res_chat}

-- What a request comes to: the server, what the handler returns, and what it asks of the network.
abbrev pub Handled : Type 0
Handled = Outcome (Server × Bool × List Action)

-- What the locals of a handler hold before they are set.
pub record Garbage : Type 0 where
  pub x : ℕ
  pub y : ℕ
  pub msg : List ℕ

-- The sectors and the player as `Req_SectorMove` changes them.
unfoldable pub move_player : Server → ℕ → ℕ → ℕ → ℕ → Server
move_player s p x y now =
    let v = s.heap p in
    let old =
      if is_valid_sector v.sector_x v.sector_y
      then erase_at s.sector v.sector_x v.sector_y p
      else s.sector in
    record s {
      sector = insert_at old x y p;
      heap = update s.heap p (record v { sector_x = x; sector_y = y; last_recv_time = now });
    }

-- `Req_SectorMove(sessionID, player, packet)`
unfoldable pub req_sector_move : Surroundings → Garbage → ℕ → ℕ → Packet → Server → Handled
unfolding move_player
req_sector_move e g sid p packet s = get_value packet 8 0 >>= λ a. get_value a.0 2 g.x >>= λ b.
    get_value b.0 2 g.y >>= λ c.
    if is_valid_sector b.1 c.1
    then (res_sector_move e a.1 b.1 c.1 >>= λ r.
        done (move_player s p b.1 c.1 e.now, true, send_packet sid r ∷ []))
    else done (s, false, [])

-- The sessions of those in the set of one sector who are logged in.
unfoldable pub logged_in : (ℕ → Player) → List ℕ → List ℕ
logged_in heap [] = []
logged_in heap (t ∷ ts) =
    if (heap t).is_logined then (heap t).session_id ∷ logged_in heap ts else logged_in heap ts

-- The sessions of those in the sectors of the list.
unfoldable pub targets : Server → List (ℕ × ℕ) → List ℕ
unfolding logged_in
targets s [] = []
targets s ((x, y) ∷ cells) = logged_in s.heap (s.sector y x) ++ targets s cells

-- `for (UINT64 sid : targets) SendPacket(sid, res);`
unfoldable pub send_each : Packet → List ℕ → List Action
send_each res [] = []
send_each res (sid ∷ sids) = send_packet sid res ∷ send_each res sids

-- The bytes at `msg` after `GetData`
abbrev read_msg : Garbage → ℕ → Option (List ℕ) → List ℕ
read_msg g len none = take len g.msg
read_msg g len (some bs) = bs

-- `Req_Chat(sessionID, player, packet)`
unfoldable pub req_chat : Surroundings → Garbage → ℕ → ℕ → Packet → Server → Handled
unfolding targets send_each
req_chat e g sid p packet s =
    let v = s.heap p in
    if not v.is_logined
    then done (s, false, [])
    else (get_value packet 8 0 >>= λ a. get_value a.0 2 0 >>= λ b.
        if b.1 == 0
        then done (s, false, [])
        else (get_data b.0 b.1 >>= λ c. res_chat e v (read_msg g b.1 c.1) b.1 >>= λ res.
            if is_valid_sector v.sector_x v.sector_y
            then done (s, true, send_each res (targets s (make_around v.sector_x v.sector_y)))
            else done (s, false, [])))

-- `EnqueueRedis(sessionID, packet)`: a job for which there is no room is lost.
unfoldable pub enqueue_redis : Surroundings → ℕ → Packet → Server → Server
enqueue_redis e sid packet s =
    if e.has_room
    then record s { redis_q = s.redis_q ++ record { session = sid; packet = packet } ∷ [] }
    else s

-- `Req_Login_Redis(sessionID, player, packet)`
unfoldable pub req_login_redis : Surroundings → ℕ → ℕ → Packet → Server → Handled
unfolding enqueue_redis
req_login_redis e sid p packet s =
    let v = s.heap p in
    if v.closing || not (v.session_id == sid)
    then done (s, false, [])
    else (if not (v.account_no == 0) || v.is_logined
        then done (s, false, [])
        else done (enqueue_redis e sid (add_ref packet) s, true, []))

-- The `switch` of `RecvProc`
unfoldable pub dispatch : Surroundings → Garbage → ℕ → ℕ → ℕ → Packet → Server → Handled
unfolding req_login_redis req_sector_move req_chat
dispatch e g type sid p packet s =
    if type == 1
    then req_login_redis e sid p packet s
    else (if type == 3
        then req_sector_move e g sid p packet s
        else (if type == 5 then req_chat e g sid p packet s else done (s, type == 7, [])))

unfoldable pub recv_found : Surroundings → Garbage → ℕ → Packet → Server → Option ℕ → Handled
unfolding release_player dispatch
recv_found e g sid packet s none = done (s, false, [])
recv_found e g sid packet s (some p) =
    let v = s.heap p in
    let t = set_player s p (record v { last_recv_time = e.now }) in
    get_value packet 2 0 >>= λ a.
    dispatch e g a.1 sid p a.0 t >>= λ r. done (release_player r.0 p, r.1, r.2)

-- `RecvProc(sessionID, packet)`
unfoldable pub recv_proc : Surroundings → Garbage → ℕ → Packet → Server → Handled
unfolding acquire_player recv_found
recv_proc e g sid packet s =
    let (t, player) = acquire_player s sid in recv_found e g sid packet t player

-- `OnRecv(sessionID, packet)`
unfoldable pub on_recv :
    Surroundings → Garbage → ℕ → Packet → Server → Outcome (Server × List Action)
unfolding recv_proc
on_recv e g sid packet s =
    recv_proc e g sid packet s >>= λ r. done (r.0, if r.1 then r.2 else r.2 ++ disconnect sid ∷ [])

-- The condition of `CheckTimeOut`
abbrev pub is_overdue : ℕ → Player → Bool
is_overdue now v = ltb v.last_recv_time now && ltb 40000 (now - v.last_recv_time)

kick_list : ℕ → (ℕ → Player) → List (ℕ × ℕ) → List Action
kick_list now heap [] = []
kick_list now heap ((sid, p) ∷ m) =
    if is_overdue now (heap p) then disconnect sid ∷ kick_list now heap m else kick_list now heap m

-- `CheckTimeOut()`
unfoldable pub check_time_out : ℕ → Server → List Action
unfolding kick_list
check_time_out now s = kick_list now s.heap s.players
