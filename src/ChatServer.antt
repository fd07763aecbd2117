-- ===== src/ChatServer.antt =====
-- The chat server, ConsoleApplication2/ChatServer.h and ChatServer.cpp: the players, the map from
-- session to player, the map from account to session, the sectors, and the queue of login jobs. A
-- `Player*` is the number of its block in the player pool, and `heap` holds the blocks. A handler is
-- one step. The clock, what `rand()` gives and what an uninitialised variable holds are arguments.
pub mod Sector
pub mod Lifecycle
pub mod Respond
pub mod Requests
pub mod Login
pub mod Sample
mod Tests
use chatting_server.Base.{ℕ, Bool, false, List, [], ◌∷◌, replicate}
use chatting_server.FreeList.{FreeList, create}
use chatting_server.Packet.{Packet}

-- `Player`; the strings are bytes.
pub record Player : Type 0 where
  pub ref : ℕ
  pub closing : Bool
  pub session_id : ℕ
  pub account_no : ℕ
  pub id : List ℕ
  pub nick : List ℕ
  pub session_key : List ℕ
  pub sector_x : ℕ
  pub sector_y : ℕ
  pub is_logined : Bool
  pub last_recv_time : ℕ

-- `st_Redis`
pub record RedisJob : Type 0 where
  pub session : ℕ
  pub packet : Packet

-- `sector y x` are the players in the set of `sector[y][x]`, and `redis_q` begins with the oldest
-- job.
pub record Server : Type 0 where
  pub heap : ℕ → Player
  pub pool : FreeList
  pub players : List (ℕ × ℕ)
  pub accounts : List (ℕ × ℕ)
  pub sector : ℕ → ℕ → List ℕ
  pub redis_q : List RedisJob

-- What a handler asks the network layer for.
pub data Action : Type 0 where
  send_packet : ℕ → Packet → Action
  disconnect : ℕ → Action

-- `Player::Reset()`
unfoldable pub reset : Player
reset = record {
  ref = 1;
  closing = false;
  session_id = 0;
  account_no = 0;
  id = replicate 40 0;
  nick = replicate 40 0;
  session_key = replicate 64 0;
  sector_x = 65535;
  sector_y = 65535;
  is_logined = false;
  last_recv_time = 0;
}

-- A new `ChatServer`: no player, no account, nobody in a sector, no job. `heap` is what the memory of the
-- players to come holds; the locks are left out.
unfoldable pub new_server : (ℕ → Player) → Server
new_server heap = record {
  heap = heap;
  pool = create 0;
  players = [];
  accounts = [];
  sector = λ y x. [];
  redis_q = [];
}
