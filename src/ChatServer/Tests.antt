-- ===== src/ChatServer/Tests.antt =====
-- The chat server on concrete inputs: two logged-in players in sectors next to each other, and the
-- theorems of the modules beside this one applied to them.
use chatting_server.Base.{
  ◌||◌, ℕ, ◌+◌, ◌-◌, ◌%◌, ◌≤◌, ◌<◌, ◌≡◌, refl, ap, ◌==◌, if◌then◌else◌, Bool, true, false, ◌&&◌,
  List, [], ◌∷◌, ◌++◌, length, replicate, Option, some, none, arith,
}
use chatting_server.Base.Maps.{find, member, erase}
use chatting_server.Base.Outcome.{done, overrun, timed_out, Ensures}
use chatting_server.Packet.{Packet}
use chatting_server.Packet.Buffer.{payload}
use chatting_server.Packet.Value.{bytes_of}
use chatting_server.Packet.Coding.{wire_bytes}
use chatting_server.Packet.Coding.Frame.{frame}
use chatting_server.ChatServer.{Player, Server, Action, reset, send_packet}
use chatting_server.ChatServer.Sample.{body, two, both, two-IsValid, around_us}
use chatting_server.ChatServer.Sector.{
  is_valid_sector, make_around, listed, near, lock_index, lock_two_sectors, unlock_two_sectors,
}
use chatting_server.ChatServer.Sector.Around.{
  listed-make_around, locks_held, lock_two_sectors-ordered,
}
use chatting_server.ChatServer.Lifecycle.{joined, join_proc, leave_proc}
use chatting_server.ChatServer.Lifecycle.Invariant.{IsValid, belongs}
use chatting_server.ChatServer.Lifecycle.Join.{join_proc_new, join_proc_known}
use chatting_server.ChatServer.Lifecycle.Leave.{left, vacated, logs_out, leave_proc_found}
use chatting_server.ChatServer.Lifecycle.Validity.{leave_proc-IsValid}
use chatting_server.ChatServer.Respond.{res_chat}
use chatting_server.ChatServer.Respond.Wire.{chat_head, res_chat_cases}
use chatting_server.ChatServer.Requests.{Garbage, req_chat, targets, send_each, on_recv}
use chatting_server.ChatServer.Requests.Receive.{on_recv-IsValid}
use chatting_server.ChatServer.Requests.Targets.{Hears, targets_around}
use chatting_server.ChatServer.Requests.Served.{req_chat_served}

abbrev unset : Garbage
unset = record { x = 0; y = 0; msg = [] }

-- A packet with twelve bytes of payload, read up to the account.
abbrev packet_of : ℕ → ℕ → ℕ → ℕ → Packet
packet_of a b c d = record {
  max_size = 17;
  front = 0;
  rear = 12;
  using_size = 12;
  ref_count = 1;
  block = 0 ∷ 0 ∷ 0 ∷ 0 ∷ 0 ∷ 70 ∷ 0 ∷ 0 ∷ 0 ∷ 0 ∷ 0 ∷ 0 ∷ 0 ∷ a ∷ b ∷ c ∷ d ∷ [];
  is_encoded = false;
}

listed-make_around_example :
    listed 1 0 (make_around 0 0) ≡ ((near 1 0 && near 0 0) && is_valid_sector 1 0)
listed-make_around_example = listed-make_around 1 0 0 0 (omega arith) (omega arith)

lock_two_sectors-ordered_example :
    ((held : List ℕ) × (locks_held (lock_two_sectors 3 5 4 5) [] ≡ some held)
      × ((k : ℕ) → member k held ≡ (lock_index 3 5 == k || lock_index 4 5 == k))
      × (locks_held (unlock_two_sectors 3 5 4 5) held ≡ some []))
    × (locks_held (lock_two_sectors 3 5 4 5 ++ unlock_two_sectors 3 5 4 5) [] ≡ some [])
    × (lock_two_sectors 3 5 4 5 ≡ lock_two_sectors 4 5 3 5)
    × (lock_index 3 5 ≡ lock_index 4 5 → (◌≡◌ {A = ℕ} 3 4) × (◌≡◌ {A = ℕ} 5 5))
lock_two_sectors-ordered_example = lock_two_sectors-ordered 3 5 4 5 (omega arith) (omega arith)

join_proc_new_example :
    (s' : Server) × (b : ℕ) × (join_proc 200 9 two ≡ done (s', true))
    × (member b both ≡ false)
    × ((k : ℕ) → find k s'.players ≡ (if 9 == k then some b else find k two.players))
    × (s'.sector ≡ two.sector)
    × chatting_server.ChatServer.Lifecycle.Invariant.IsValid (b ∷ both) s'
join_proc_new_example = join_proc_new both 200 9 two two-IsValid (unfold find in refl)

join_proc_known_example :
    (s' : Server) × (join_proc 200 7 two ≡ done (s', false))
    × (s'.players ≡ two.players)
    × (s'.sector ≡ two.sector)
    × chatting_server.ChatServer.Lifecycle.Invariant.IsValid both s'
join_proc_known_example = join_proc_known both 200 7 0 two two-IsValid (unfold find in refl)

leave_proc_found_example :
    ((leave_proc 7 two).heap 0 ≡ left (two.heap 0))
    × ((q : ℕ) → (0 == q) ≡ false → (leave_proc 7 two).heap q ≡ two.heap q)
    × ((leave_proc 7 two).players ≡ erase 7 two.players)
    × ((leave_proc 7 two).pool ≡ two.pool)
    × ((leave_proc 7 two).sector ≡ vacated two 0)
    × ((a : ℕ)
        → find a (leave_proc 7 two).accounts
          ≡ (if logs_out 7 (two.heap 0) a two.accounts then none else find a two.accounts))
leave_proc_found_example = leave_proc_found 7 0 two (unfold find in refl) refl

leave_proc-IsValid_example :
    chatting_server.ChatServer.Lifecycle.Invariant.IsValid both (leave_proc 7 two)
    × (find 7 (leave_proc 7 two).players ≡ none)
    × ((x y : ℕ) → member 0 ((leave_proc 7 two).sector y x) ≡ false)
    × ((leave_proc 7 two).pool ≡ two.pool)
leave_proc-IsValid_example = leave_proc-IsValid both 7 0 two two-IsValid (unfold find in refl)

on_recv-IsValid_example :
    Ensures
      (on_recv around_us unset 7 (packet_of 4 0 6 0) two)
      (λ r. chatting_server.ChatServer.Lifecycle.Invariant.IsValid both r.0)
on_recv-IsValid_example = on_recv-IsValid both around_us unset 7 (packet_of 4 0 6 0) two two-IsValid

-- A login of account 7: eight bytes of the account, the name, the nick and the key, all zeros.
abbrev login : Packet
login = record {
  max_size = 512;
  front = 5;
  rear = 157;
  using_size = 152;
  ref_count = 1;
  block = replicate 5 0 ++ 7 ∷ replicate 506 0;
  is_encoded = false;
}

targets_around_example :
    (member 8 (targets two (make_around 3 5)) ≡ true
      → (p : ℕ) × (find 8 two.players ≡ some p) × Hears (two.heap p) 3 5)
    × ((p : ℕ)
        → find 8 two.players ≡ some p
        → Hears (two.heap p) 3 5
        → member 8 (targets two (make_around 3 5)) ≡ true)
targets_around_example = targets_around both two 8 3 5 two-IsValid (omega arith) (omega arith)

res_chat_cases_example :
    let msg : List ℕ = 104 ∷ 105 ∷ [] in
    (length msg ≤ 415
      → (q : Packet) × (res_chat around_us (body 0) msg (length msg) ≡ done q)
        × (wire_bytes q ≡ frame 16 (chat_head (body 0) (length msg) ++ msg)))
    × (415 < length msg → length msg ≤ 420 → res_chat around_us (body 0) msg (length msg) ≡ overrun)
    × (420 < length msg → res_chat around_us (body 0) msg (length msg) ≡ timed_out)
res_chat_cases_example = res_chat_cases around_us (body 0) (104 ∷ 105 ∷ []) refl refl refl

req_chat_served_example :
    (q : Packet) × (req_chat around_us unset 7 0 (packet_of 2 0 104 105) two
      ≡ done (two, true, send_each q (targets two (make_around 3 5))))
    × (wire_bytes q ≡ frame 16 (chat_head (body 0) 2 ++ 104 ∷ 105 ∷ []))
req_chat_served_example =
    req_chat_served around_us unset 7 0 70 (104 ∷ 105 ∷ []) two (omega arith)
      (unfold payload chatting_server.Base.Arrays.read_bytes chatting_server.Base.Arrays.tab
          bytes_of in
        refl)
      (omega arith) (omega arith) (omega arith) refl refl refl refl refl
