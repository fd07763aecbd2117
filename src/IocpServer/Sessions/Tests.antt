-- ===== src/IocpServer/Sessions/Tests.antt =====
-- Sessions on concrete inputs: slot 0 is live with one reference, slot 1 is free.
use chatting_server.Base.{ℕ, ◌≡◌, refl, ◌==◌, not, ◌||◌, true, false, some, none, arith}
use chatting_server.IocpServer.Sample.{live, table_of}
use chatting_server.IocpServer.Sessions.{
  Session, SessionTable, session_index, combine_id_index, session_lock, session_unlock, set_slot,
  with_io_count,
}
use chatting_server.IocpServer.Sessions.Locking.{session_lock_cases, restored, IsReleased}

abbrev table : SessionTable
table = table_of live

-- The id of a session that has left slot 1.
abbrev old_id : ℕ
old_id = combine_id_index 7 1

index_of_old : session_index old_id ≡ 1
index_of_old = refl

session_lock_cases_example :
    let slot : Session = table.slots (session_index old_id) in
    (slot.session_id ≡ old_id
      → slot.is_released ≡ false
      → (session_lock table old_id ≡ (
        set_slot table (session_index old_id) (with_io_count 1 slot),
        some (session_index old_id),
      ))
        × ((0 == 0) ≡ false
            → session_unlock
                (set_slot table (session_index old_id) (with_io_count 1 slot))
                (session_index old_id)
              ≡ restored table old_id 0 refl (omega arith))
        × ((0 == 0) ≡ true
            → IsReleased table
                (session_unlock
                  (set_slot table (session_index old_id) (with_io_count 1 slot))
                  (session_index old_id))
                (session_index old_id)))
    × ((not (old_id == slot.session_id) || slot.is_released) ≡ true
        → ((0 == 0) ≡ false
            → session_lock table old_id ≡ (restored table old_id 0 refl (omega arith), none))
          × ((0 == 0) ≡ true
              → IsReleased table (session_lock table old_id).0 (session_index old_id)
                × ((session_lock table old_id).1 ≡ none)))
session_lock_cases_example = session_lock_cases table old_id 0 refl (omega arith)
