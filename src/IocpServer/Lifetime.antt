-- ===== src/IocpServer/Lifetime.antt =====
-- `Start` and `Stop` of ConsoleApplication2/IOCPServer.cpp. What the calls of Winsock come to is an
-- argument. The handles of threads are counted.
pub mod Opening
pub mod Stopping
mod Tests
use chatting_server.Base.{
  ℕ, zero, suc, ◌*◌, ◌/◌, ◌^◌, ◌==◌, if◌then◌else◌, not, Option, none, some, Bool, false, List, [],
  ◌∷◌, ◌++◌,
}
use chatting_server.RingBuffer.{create, clear_buffer, default_size}
use chatting_server.IocpServer.Sessions.{
  Session, SessionTable, init, set_slot, close_session, all_ones,
}

-- Whether `WSAStartup`, `CreateIoCompletionPort`, `WSASocket`, `bind` and `listen` succeed, what
-- `htons` gives, and what `InetPton` leaves of an address; a null pointer to the text is `none`.
pub record Winsock : Type 0 where
  pub startup : Bool
  pub port : Bool
  pub socket : Bool
  pub bind : Bool
  pub listen : Bool
  pub htons : ℕ → ℕ
  pub inet_pton : Option ℕ → ℕ → ℕ

-- What `Start` holds of the system.
pub data Held : Type 0 where
  library completion_port listen_socket : Held

-- What the listening socket is bound to, and whether `TCP_NODELAY` is set.
pub record Listener : Type 0 where
  pub port : ℕ
  pub address : ℕ
  pub no_delay : Bool

pub record ServerState : Type 0 where
  pub listener : Listener
  pub table : SessionTable
  pub max_client_count : ℕ
  pub workers : ℕ
  pub held : List Held

pub data Started : Type 0 where
  failed : List Held → Started
  running : ServerState → Started

-- An element of `new Session[maxUserCount]`, which its constructor has initialised
abbrev pub new_session : Session
new_session = init (record {
  sock = 0;
  session_id = 0;
  index = 0;
  is_send_flag = false;
  send_count = 0;
  is_released = false;
  io_count = 0;
  send_buf = [];
  complete_send_buf = [];
  recv_buf = create default_size;
  last_recv_time = 0;
})

-- The loop that pushes the indices below `n`, the greatest first.
unfoldable pub push_indices : ℕ → List ℕ → List ℕ
push_indices zero stack = stack
push_indices (suc n) stack = push_indices n (n ∷ stack)

-- The server after the last failure is past. `id` is what the member `sessionID` holds, which nothing
-- sets, and `stack` what the stack of indices holds.
unfoldable pub set_up : Listener → ℕ → ℕ → ℕ → List ℕ → ServerState
unfolding push_indices
set_up listener thread_count max_user_count id stack = record {
  listener = listener;
  table = record {
    slots = λ i. new_session;
    index_stack = push_indices max_user_count stack;
    session_id = id;
    session_count = 0;
    send_tps = 0;
    recv_tps = 0;
    accept_tps = 0;
    accept_count = 0;
    left = [];
    dropped = [];
  };
  max_client_count = max_user_count;
  workers = thread_count;
  held = library ∷ completion_port ∷ listen_socket ∷ [];
}

-- The address and the option that `Start` sets: a null `ip` gives `INADDR_ANY`, which is zero, and
-- `InetPton` is called in any case; `nagle` sets `TCP_NODELAY`.
unfoldable pub listener : Winsock → Option ℕ → ℕ → Bool → Listener
listener w ip port nagle =
    let address : ℕ = elim ip [ none ↦ 0 | some text ↦ w.inet_pton (some text) 0 ] in
    record { port = w.htons port; address = w.inet_pton ip address; no_delay = nagle }

-- `Start(ip, port, threadCount, nagle, maxUserCount)`
unfoldable pub start : Winsock → Option ℕ → ℕ → ℕ → Bool → ℕ → ℕ → List ℕ → Started
unfolding set_up listener
start w ip port thread_count nagle max_user_count id stack =
    if not w.startup
    then failed []
    else (if not w.port
        then failed (library ∷ [])
        else (if not w.socket
            then failed (library ∷ completion_port ∷ [])
            else (if not w.bind
                then failed (library ∷ completion_port ∷ listen_socket ∷ [])
                else (if not w.listen
                    then failed (library ∷ completion_port ∷ listen_socket ∷ [])
                    else running
                        (set_up (listener w ip port nagle) thread_count max_user_count id stack)))))

-- The loops of `Stop` that empty the two queues of a session, and `ClearBuffer`.
unfoldable pub drain : SessionTable → ℕ → SessionTable
unfolding clear_buffer
drain t i =
    let v = t.slots i in
    record (set_slot t i
      (record v { send_buf = []; complete_send_buf = []; recv_buf = clear_buffer v.recv_buf })) {
        dropped = t.dropped ++ v.send_buf ++ v.complete_send_buf;
      }

-- One round of the loop of `Stop` over the sessions.
unfoldable pub stop_session : SessionTable → ℕ → SessionTable
unfolding drain close_session
stop_session t i =
    let closed = close_session t i in drain (if (t.slots i).sock == all_ones then t else closed) i

-- The loop over the sessions below `n`
unfoldable pub stop_sessions : ℕ → SessionTable → SessionTable
unfolding stop_session
stop_sessions zero t = t
stop_sessions (suc n) t = stop_session (stop_sessions n t) n

-- `Stop()`: the server, and how many null completions the worker threads are sent to end them. The
-- array of the sessions is given back at the end, so that the table is what it was just before.
unfoldable pub stop : ServerState → ServerState × ℕ
unfolding stop_sessions
stop s = (
  record {
    table = record (stop_sessions s.max_client_count s.table) {
      session_count = 0;
      send_tps = 0;
      recv_tps = 0;
      accept_tps = 0;
      accept_count = 0;
    };
    listener = s.listener;
    max_client_count = s.max_client_count;
    workers = 0;
    held = [];
  },
  s.workers,
)

-- `InterlockedExchange((LONG*)&counter, 0)` on a counter of 64 bits: the lower half
abbrev pub reset_low : ℕ → ℕ
reset_low n = n / 2 ^ 32 * 2 ^ 32

-- A round of `MonitorThread`: the counters that it shows, and those that it leaves
unfoldable pub monitor_round : SessionTable → List ℕ × SessionTable
monitor_round t = (
  t.accept_count ∷ t.recv_tps ∷ t.send_tps ∷ t.accept_tps ∷ t.session_count ∷ [],
  record t {
    recv_tps = reset_low t.recv_tps;
    send_tps = reset_low t.send_tps;
    accept_tps = reset_low t.accept_tps;
  },
)
