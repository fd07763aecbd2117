-- ===== src/IocpServer/Lifetime/Tests.antt =====
-- `Start` and `Stop` of IOCPServer.cpp on concrete inputs: a server of two sessions that three
-- clients come to, and one that is stopped with packets queued.
use chatting_server.Base.{
  ◌*◌, ◌/◌, ◌%◌, Option, none, some, ℕ, ◌+◌, ◌-◌, ◌^◌, ◌≤◌, ◌<◌, ◌≡◌, ◌⊎◌, refl, true, false, List,
  [], ◌∷◌, ◌++◌, length, arith,
}
use chatting_server.Base.Outcome.{done, overrun}
use chatting_server.IocpServer.Sample.{live, table_of}
use chatting_server.IocpServer.Sessions.{SessionTable}
use chatting_server.IocpServer.Lifetime.{
  Winsock, ServerState, library, completion_port, failed, running, start, set_up, push_indices,
  stop, monitor_round, Listener, listener,
}
use chatting_server.IocpServer.Lifetime.Opening.{from, open_all, IsOpened, start_opens}
use chatting_server.IocpServer.Lifetime.Stopping.{given_back, leavers, IsEmptied, stop-drains}

push_indices-three : push_indices 3 [] ≡ 0 ∷ 1 ∷ 2 ∷ []
unfolding push_indices
push_indices-three = refl

-- An address that is given is read; no address leaves the field.
abbrev given_address : Option ℕ → ℕ → ℕ
given_address none before = before
given_address (some a) before = a

abbrev up : Winsock
up = record {
  startup = true;
  port = true;
  socket = true;
  bind = true;
  listen = true;
  htons = λ n. n % 256 * 256 + n / 256 % 256;
  inet_pton = given_address;
}

-- What was opened before the failure stays open.
start_without_socket :
    start (record up { socket = false }) none 6000 4 true 2 0 []
    ≡ failed (library ∷ completion_port ∷ [])
unfolding start
start_without_socket = refl

abbrev clients : List ℕ
clients = 7 ∷ 8 ∷ 9 ∷ []

-- 6000 is 0x1770, and 0x7017 is 28695; `nagle` turns the algorithm off.
abbrev at_port_6000 : Listener
at_port_6000 = record { port = 28695; address = 0; no_delay = true }

start_up : start up none 6000 4 true 2 0 [] ≡ running (set_up at_port_6000 4 2 0 [])
unfolding start listener
start_up = refl

start_opens_example :
    ((u : SessionTable) × (length clients ≤ 2)
      × (open_all 5 clients (set_up at_port_6000 4 2 0 []).table
          ≡ done (u, from 0 (length clients)))
      × IsOpened 5 0 (2 - length clients) clients (set_up at_port_6000 4 2 0 []).table u)
    ⊎ ((2 < length clients) × (open_all 5 clients (set_up at_port_6000 4 2 0 []).table ≡ overrun))
start_opens_example =
    start_opens up none 6000 4 true 2 0 5 (set_up at_port_6000 4 2 0 []) clients start_up
      (omega arith)

-- One session whose receive is under way, with a packet in each queue.
abbrev busy : ServerState
busy = record {
  table = table_of (record live { send_buf = 3 ∷ []; complete_send_buf = 4 ∷ [] });
  max_client_count = 2;
  workers = 4;
  listener = at_port_6000;
  held = [];
}

busy-sockets :
    (i : ℕ)
    → i < 2
    → (busy.table.slots i).is_released ≡ true
    → (busy.table.slots i).sock ≡ 2 ^ 64 - 1
busy-sockets i h r = ground arith

stop-drains_example :
    let (r, ends) = stop busy in
    (r.table.dropped ≡ busy.table.dropped ++ given_back 2 busy.table)
    × (r.table.left ≡ busy.table.left ++ leavers 2 busy.table)
    × ((i : ℕ) → i < 2 → IsEmptied (r.table.slots i))
    × (ends ≡ 4)
    × (r.workers ≡ 0)
stop-drains_example = stop-drains busy busy-sockets

-- Its packets are given back, and its player never leaves.
stop_busy : (given_back 2 busy.table ≡ 3 ∷ 4 ∷ []) × (leavers 2 busy.table ≡ [])
unfolding given_back leavers
stop_busy = (refl, refl)

-- A counter that has passed 32 bits does not go back to zero.
monitor_round-high :
    (monitor_round (record (table_of live) { send_tps = 2 ^ 32 + 5 })).1.send_tps ≡ 2 ^ 32
unfolding monitor_round
monitor_round-high = refl
