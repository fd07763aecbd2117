-- ===== src/ChatServer/Respond.antt =====
-- The packets that the server sends, ConsoleApplication2/ChatServer.cpp: `Res_Login`,
-- `Res_SectorMove` and `Res_Chat`, and `MakeLoginResult`, which another thread reads.
pub mod Wire
use chatting_server.Base.{ℕ, Bool, List}
use chatting_server.Base.Outcome.{Outcome, done, ◌>>=◌}
use chatting_server.Packet.{Packet, Machine, alloc, put_data}
use chatting_server.Packet.Value.{put_value}
use chatting_server.Packet.Coding.{set_encoding_code}
use chatting_server.ChatServer.{Player}

-- What a handler takes from its surroundings: what `CPacket::Alloc` takes out of the packet pool,
-- the memory, what `rand()` gives, the clock, and whether `redisQ.push` finds room: it is the queue of
-- a library, which keeps its elements in order.
pub record Surroundings : Type 0 where
  pub raw : Packet
  pub machine : Machine
  pub rand : ℕ
  pub now : ℕ
  pub has_room : Bool

-- `Res_Login(account, status)`
unfoldable pub res_login : Surroundings → ℕ → ℕ → Outcome Packet
res_login e account status =
    put_value e.machine (alloc e.raw) 2 2
    >>= (λ p. put_value e.machine p 1 status)
    >>= (λ p. put_value e.machine p 8 account)
    >>= (λ p. set_encoding_code p e.rand)

-- `Res_SectorMove(account, x, y)`
unfoldable pub res_sector_move : Surroundings → ℕ → ℕ → ℕ → Outcome Packet
res_sector_move e account x y =
    put_value e.machine (alloc e.raw) 2 4
    >>= (λ p. put_value e.machine p 8 account)
    >>= (λ p. put_value e.machine p 2 x)
    >>= (λ p. put_value e.machine p 2 y)
    >>= (λ p. set_encoding_code p e.rand)

-- `Res_Chat(player, msg, len)`; the list holds the `len` bytes at `msg`.
unfoldable pub res_chat : Surroundings → Player → List ℕ → ℕ → Outcome Packet
res_chat e v msg len =
    put_value e.machine (alloc e.raw) 2 6
    >>= (λ p. put_value e.machine p 8 v.account_no)
    >>= (λ p. put_data e.machine p v.id)
    >>= (λ p. put_data e.machine p v.nick)
    >>= (λ p. put_value e.machine p 2 len)
    >>= (λ p. put_data e.machine p msg)
    >>= (λ p. set_encoding_code p e.rand)

-- `MakeLoginResult(account, id, nick)`
unfoldable pub make_login_result : Surroundings → ℕ → List ℕ → List ℕ → Outcome Packet
make_login_result e account id nick =
    put_value e.machine (alloc e.raw) 8 account
    >>= (λ p. put_data e.machine p id)
    >>= (λ p. put_data e.machine p nick)
