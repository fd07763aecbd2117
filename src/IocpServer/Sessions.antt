-- ===== src/IocpServer/Sessions.antt =====
-- The sessions of ConsoleApplication2/IOCPServer.h and IOCPServer.cpp: the array with its stack of free
-- indices, `CreateSession`, `ReleaseSession`, `SessionLock`, `SessionUnLock` and `Disconnect`, each as
-- one step. The calls of the socket are left out; a packet is a number, the two queues of a session
-- are lists, and what `OnClientLeave` and `SubRef` are called with is kept in lists. The ids that come in
-- are those of sessions, whose index lies in the array, so the array is a function without an end.
pub mod Locking
mod Tests
use chatting_server.Base.{
  ℕ, ◌+◌, ◌-◌, ◌*◌, ◌/◌, ◌%◌, ◌^◌, bit_or, bit_and, ◌==◌, if◌then◌else◌, not, ◌||◌, Bool, true,
  false, List, [], ◌∷◌, ◌++◌, Option, some, none,
}
use chatting_server.Base.Maps.{update}
use chatting_server.Base.Outcome.{Outcome, done, overrun}
use chatting_server.RingBuffer.{RingBuffer, clear_buffer}

-- `COMBINE_ID_INDEX(ID, INDEX)` on 64 bits
abbrev pub combine_id_index : ℕ → ℕ → ℕ
combine_id_index id index = bit_or (id * 2 ^ 48 % 2 ^ 64) index

-- `GET_SESSION_INDEX(ID)`
abbrev pub session_index : ℕ → ℕ
session_index id = bit_and id 65535

pub record Session : Type 0 where
  pub sock : ℕ
  pub session_id : ℕ
  pub index : ℕ
  pub is_send_flag : Bool
  pub send_count : ℕ
  pub is_released : Bool
  pub io_count : ℕ
  pub send_buf : List ℕ
  pub complete_send_buf : List ℕ
  pub recv_buf : RingBuffer
  pub last_recv_time : ℕ

pub record SessionTable : Type 0 where
  pub slots : ℕ → Session
  pub index_stack : List ℕ
  pub session_id : ℕ
  pub session_count : ℕ
  pub send_tps : ℕ
  pub recv_tps : ℕ
  pub accept_tps : ℕ
  pub accept_count : ℕ
  pub left : List ℕ
  pub dropped : List ℕ

-- `InterlockedIncrement((LONG*)&counter)` on a counter of 64 bits: only the lower half counts on.
abbrev pub count_low : ℕ → ℕ
count_low n = n / 2 ^ 32 * 2 ^ 32 + (n % 2 ^ 32 + 1) % 2 ^ 32

-- `INVALID_SOCKET`, and -1 in 64 bits
abbrev pub all_ones : ℕ
all_ones = 2 ^ 64 - 1

-- `Session::Init()` on a session whose queues are empty
unfoldable pub init : Session → Session
init v = record v {
  sock = all_ones;
  session_id = all_ones;
  index = 0;
  is_send_flag = false;
  send_count = 0;
  last_recv_time = 0;
  is_released = false;
  io_count = 0;
}

-- `PushIndex(index)`
abbrev pub push_index : SessionTable → ℕ → SessionTable
push_index t i = record t { index_stack = i ∷ t.index_stack }

abbrev pub set_slot : SessionTable → ℕ → Session → SessionTable
set_slot t i v = record t { slots = update t.slots i v }

-- The session as `CreateSession` fills it.
unfoldable pub opened : Session → ℕ → ℕ → ℕ → ℕ → Session
unfolding clear_buffer
opened v id i sock now = record v {
  session_id = combine_id_index id i;
  index = i;
  sock = sock;
  recv_buf = clear_buffer v.recv_buf;
  last_recv_time = now;
}

unfoldable pub create_at : SessionTable → ℕ → ℕ → List ℕ → Outcome (SessionTable × ℕ)
unfolding opened
create_at t sock now [] = overrun
create_at t sock now (i ∷ is) =
    let id = (t.session_id + 1) % 2 ^ 64 in
    done (
      record (set_slot t i (opened (t.slots i) id i sock now)) {
        index_stack = is;
        session_id = id;
        session_count = (t.session_count + 1) % 2 ^ 64;
        accept_tps = (t.accept_tps + 1) % 2 ^ 64;
        accept_count = (t.accept_count + 1) % 2 ^ 64;
      },
      i,
    )

-- `CreateSession(socket)`, with `PopIndex`, which may not be called on an empty stack: the table and
-- the index of the session
unfoldable pub create_session : ℕ → ℕ → SessionTable → Outcome (SessionTable × ℕ)
unfolding create_at
create_session sock now t = create_at t sock now t.index_stack

-- `ReleaseSession(session)`
unfoldable pub release_session : SessionTable → ℕ → SessionTable
unfolding init clear_buffer
release_session t i =
    let v = t.slots i in
    let emptied = record v {
      send_buf = [];
      complete_send_buf = [];
      recv_buf = clear_buffer v.recv_buf;
    } in
    record (push_index (set_slot t i (init emptied)) v.index) {
      session_count = (t.session_count + 2 ^ 64 - 1) % 2 ^ 64;
      left = t.left ++ v.session_id ∷ [];
      dropped = t.dropped ++ v.send_buf ++ v.complete_send_buf;
    }

abbrev pub with_io_count : ℕ → Session → Session
with_io_count n v = record v { io_count = n }

-- `SessionUnLock(session)`, which `SessionLock` also has for a session that it does not lock
unfoldable pub session_unlock : SessionTable → ℕ → SessionTable
unfolding release_session
session_unlock t i =
    let n = ((t.slots i).io_count + 2 ^ 32 - 1) % 2 ^ 32 in
    let u = set_slot t i (with_io_count n (t.slots i)) in if n == 0 then release_session u i else u

-- `SessionLock(sessionID)`: the table and the index of the locked session
unfoldable pub session_lock : SessionTable → ℕ → SessionTable × Option ℕ
unfolding session_unlock
session_lock t sid =
    let i = session_index sid in
    let u = set_slot t i (with_io_count (((t.slots i).io_count + 1) % 2 ^ 32) (t.slots i)) in
    if not (sid == (u.slots i).session_id) || (u.slots i).is_released
    then (session_unlock u i, none)
    else (u, some i)

-- `DisConnect(session)`
unfoldable pub close_session : SessionTable → ℕ → SessionTable
unfolding release_session
close_session t i =
    let v = t.slots i in
    let u = set_slot t i (record v { is_released = true; sock = all_ones }) in
    if v.is_released then t else (if v.io_count == 0 then release_session u i else u)

disconnect_locked : SessionTable → Option ℕ → SessionTable
unfolding close_session session_unlock
disconnect_locked t none = t
disconnect_locked t (some i) = session_unlock (close_session t i) i

-- `Disconnect(sessionID)`
unfoldable pub disconnect : SessionTable → ℕ → SessionTable
unfolding session_lock disconnect_locked
disconnect t sid = let (u, locked) = session_lock t sid in disconnect_locked u locked
