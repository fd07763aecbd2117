-- ===== src/ChatServer/Lifecycle/Tests.antt =====
-- The end of a chat server with two players.
use chatting_server.Base.{ℕ, ◌≡◌, refl, ◌||◌, []}
use chatting_server.Base.Maps.{member}
use chatting_server.FreeList.Ownership.{Distinct}
use chatting_server.ChatServer.Sample.{two, both, two-IsValid}
use chatting_server.ChatServer.Lifecycle.Ending.{shut_down, blocks, keys, shut_down-frees}

once : Distinct (keys two.players)
unfolding keys member
once = (refl, (refl, tt))

shut_down-frees_example :
    let (t, freed) = shut_down two in
    (t.players ≡ [])
    × (t.accounts ≡ [])
    × Distinct freed
    × ((b : ℕ) → member b freed ≡ (member b (blocks two.players) || member b two.pool.top))
shut_down-frees_example = shut_down-frees both two two-IsValid once
