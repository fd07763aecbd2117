-- ===== src/IocpServer/Sending/Tests.antt =====
-- The send path on a session that has sent packet 5 and has packets 6 and 7 queued.
use chatting_server.Base.{ℕ, ◌≡◌, refl, true, Bool, List, [], ◌∷◌, arith}
use chatting_server.IocpServer.Sessions.{SessionTable}
use chatting_server.IocpServer.Sample.{live, table_of}
use chatting_server.IocpServer.Sending.Rounds.{Slot, rounds, rounds_send_all}

abbrev always : List ℕ → Bool
always q = true

abbrev busy : SessionTable
busy = table_of (record live {
  is_send_flag = true;
  send_count = 1;
  send_buf = 6 ∷ 7 ∷ [];
  complete_send_buf = 5 ∷ [];
})

rounds_send_all_example :
    let (u, sent) = rounds always 2 512 busy 0 in
    (sent ≡ 6 ∷ 7 ∷ []) × Slot (u.slots 0) [] [] × (u.dropped ≡ 5 ∷ 6 ∷ 7 ∷ [])
rounds_send_all_example =
    rounds_send_all always (λ d h. refl) 1 512 busy 0 (6 ∷ 7 ∷ []) (5 ∷ []) refl (omega arith)
      (refl, refl, refl, refl)
