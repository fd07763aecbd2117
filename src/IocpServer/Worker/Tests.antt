-- ===== src/IocpServer/Worker/Tests.antt =====
-- A worker that closes a session, and a receive that is refused, on a concrete table.
use chatting_server.Base.{ℕ, ◌≡◌, refl, true, Bool, List, [], ◌∷◌, arith}
use chatting_server.Base.Outcome.{Outcome, done}
use chatting_server.Packet.{Packet, create}
use chatting_server.IocpServer.Sessions.{Session, SessionTable, all_ones}
use chatting_server.IocpServer.Sample.{ring, live, table_of}
use chatting_server.IocpServer.Sending.{accepted, refused}
use chatting_server.IocpServer.Worker.{worker_round, recv_done, post_recv}
use chatting_server.IocpServer.Worker.Release.{Settled, worker_round_closes, post_recv_twice}

abbrev always : List ℕ → Bool
always q = true

abbrev lively : Session
lively = record live { recv_buf = record ring { cells = 119 ∷ 2 ∷ 0 ∷ 5 ∷ 6 ∷ 0 ∷ 0 ∷ 0 ∷ [] } }

abbrev ignored : SessionTable → ℕ → ℕ → Packet → Outcome (SessionTable × ℕ)
ignored t a sid p = done (t, a)

worker_round_closes_example :
    (u : SessionTable) × (worker_round ignored always 9 create accepted 0 recv_done 0
        (table_of live)
        5
        0
      ≡ done (u, 5, []))
    × Settled (table_of live) u 0 0
worker_round_closes_example =
    worker_round_closes ignored always 9 create accepted 0 (table_of live) 5 0 0 refl (omega arith)

abbrev fresh_session : SessionTable
fresh_session = table_of (record live { io_count = 0 })

post_recv_twice_example :
    ((post_recv refused fresh_session 0).0.index_stack ≡ 0 ∷ 0 ∷ 1 ∷ [])
    × ((post_recv refused fresh_session 0).0.left ≡ live.session_id ∷ all_ones ∷ [])
post_recv_twice_example = post_recv_twice fresh_session 0 refl refl
