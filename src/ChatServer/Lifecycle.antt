-- ===== src/ChatServer/Lifecycle.antt =====
-- Players come and go, ConsoleApplication2/ChatServer.cpp: `AddRefPlayer`, `ReleasePlayer`,
-- `AcquirePlayer`, `JoinProc` and `LeaveProc`. `ref` is a `long` of 32 bits.
pub mod Invariant
pub mod Join
pub mod Leave
pub mod Validity
pub mod Ending
mod Tests
use chatting_server.Base.{
  ℕ, ◌+◌, ◌-◌, ◌%◌, ◌^◌, ltb, ◌==◌, if◌then◌else◌, Bool, true, false, not, ◌&&◌, List, [], ◌∷◌,
  Option, some, none,
}
use chatting_server.Base.Maps.{find, erase, insert, remove, add, update}
use chatting_server.Base.Outcome.{Outcome, done, ◌>>=◌}
use chatting_server.FreeList.{alloc, free}
use chatting_server.ChatServer.{Player, Server, reset}
use chatting_server.ChatServer.Sector.{is_valid_sector}

abbrev pub set_player : Server → ℕ → Player → Server
set_player s p v = record s { heap = update s.heap p v }

-- `AddRefPlayer(player)`
unfoldable pub add_ref_player : Server → ℕ → Server
add_ref_player s p = let v = s.heap p in set_player s p (record v { ref = (v.ref + 1) % 2 ^ 32 })

-- `ReleasePlayer(player)`
unfoldable pub release_player : Server → ℕ → Server
release_player s p =
    let v = s.heap p in
    let r = (v.ref + 2 ^ 32 - 1) % 2 ^ 32 in
    let t = set_player s p (record v { ref = r }) in
    if r == 0 then record t { pool = free t.pool p } else t

unfoldable pub acquire_found : Server → Option ℕ → Server × Option ℕ
unfolding add_ref_player release_player
acquire_found s none = (s, none)
acquire_found s (some p) =
    let t = add_ref_player s p in
    if (t.heap p).closing then (release_player t p, none) else (t, some p)

-- `AcquirePlayer(sessionID)`, with `none` for the null pointer
unfoldable pub acquire_player : Server → ℕ → Server × Option ℕ
unfolding acquire_found
acquire_player s sid = acquire_found s (find sid s.players)

-- The player after the first lines of `JoinProc`
unfoldable pub joined : ℕ → ℕ → Player
unfolding reset
joined now sid = record reset { session_id = sid; last_recv_time = now; ref = 1; closing = false }

join_new : ℕ → ℕ → Server → ℕ → Option ℕ → Server × Bool
join_new now sid s p none = (record s { players = insert sid p s.players }, true)
join_new now sid s p (some q) = (record s { pool = free s.pool p }, false)

-- `JoinProc(sessionID)`, and what it returns
unfoldable pub join_proc : ℕ → ℕ → Server → Outcome (Server × Bool)
unfolding join_new joined
join_proc now sid s = alloc s.pool >>= λ r.
    let t = record s { pool = r.0; heap = update s.heap r.1 (joined now sid) } in
    done (join_new now sid t r.1 (find sid t.players))

-- `sector[y][x].set.erase(player)`
abbrev pub erase_at : (ℕ → ℕ → List ℕ) → ℕ → ℕ → ℕ → ℕ → ℕ → List ℕ
erase_at sector x y p j i = if j == y && i == x then remove p (sector j i) else sector j i

-- `sector[y][x].set.insert(player)`
abbrev pub insert_at : (ℕ → ℕ → List ℕ) → ℕ → ℕ → ℕ → ℕ → ℕ → List ℕ
insert_at sector x y p j i = if j == y && i == x then add p (sector j i) else sector j i

abbrev pub points_to : ℕ → Option ℕ → Bool
points_to sid none = false
points_to sid (some owner) = owner == sid

-- The account is logged out, unless another session has it by now.
unfoldable pub forget_account : ℕ → Player → Server → Server
forget_account sid v s =
    if (v.is_logined && not (v.account_no == 0)) && points_to sid (find v.account_no s.accounts)
    then record s { accounts = erase v.account_no s.accounts }
    else s

-- The player leaves its sector.
unfoldable pub leave_sector : ℕ → Player → Server → Server
leave_sector p v s =
    if is_valid_sector v.sector_x v.sector_y
    then record s { sector = erase_at s.sector v.sector_x v.sector_y p }
    else s

abbrev pub close_player : Server → ℕ → Server
close_player s p = let v = s.heap p in set_player s p (record v { closing = true })

leave_found : ℕ → Server → Option ℕ → Server
unfolding add_ref_player forget_account leave_sector release_player
leave_found sid s none = s
leave_found sid s (some p) =
    let t = close_player (add_ref_player (record s { players = erase sid s.players }) p) p in
    let u = leave_sector p (t.heap p) (forget_account sid (t.heap p) t) in
    release_player (close_player u p) p

-- `LeaveProc(sessionID)`, which returns true whatever happens
unfoldable pub leave_proc : ℕ → Server → Server
unfolding leave_found
leave_proc sid s = leave_found sid s (find sid s.players)
