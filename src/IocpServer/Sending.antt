-- ===== src/IocpServer/Sending.antt =====
-- The send path of ConsoleApplication2/IOCPServer.cpp: `SendPacket`, `PostSend` and `SendComplete`. The
-- two queues of a session are those of a library: they keep their order, and `room` says whether a push
-- finds room. What `WSASend` comes to is an argument, and what it is given is a result.
pub mod Batch
pub mod Rounds
pub mod Idle
mod Tests
use chatting_server.Base.{
  ℕ, zero, suc, ◌+◌, ◌-◌, ◌%◌, ◌^◌, ◌==◌, if◌then◌else◌, not, Bool, true, false, List, [], ◌∷◌,
  ◌++◌, length, Option, some, none,
}
use chatting_server.IocpServer.Sessions.{
  Session, SessionTable, set_slot, with_io_count, release_session, close_session, session_lock,
  session_unlock, count_low,
}

-- What an overlapped call returns: accepted, at once or pending, or refused by an error.
pub data Posted : Type 0 where
  accepted refused : Posted

-- The result of `push` is not looked at.
abbrev pub push : (List ℕ → Bool) → List ℕ → ℕ → List ℕ
push room q p = if room q then q ++ p ∷ [] else q

-- The loop of `PostSend`, which takes at most `k` more packets: those taken, and the two queues.
unfoldable pub batch : (List ℕ → Bool) → ℕ → List ℕ → List ℕ → List ℕ × List ℕ × List ℕ
batch room zero q c = ([], q, c)
batch room (suc k) [] c = ([], [], c)
batch room (suc k) (p ∷ q) c = let (ps, q', c') = batch room k q (push room c p) in (p ∷ ps, q', c')

-- The counter after `InterlockedDecrement(&session->ioCount)`
abbrev pub less_io : Session → ℕ
less_io v = (v.io_count + 2 ^ 32 - 1) % 2 ^ 32

abbrev pub more_io : Session → Session
more_io v = with_io_count ((v.io_count + 1) % 2 ^ 32) v

-- The end of `PostSend` on the slot that is ready: `WSASend`, and its error path.
unfoldable pub wsa_send : Posted → SessionTable → ℕ → List ℕ → SessionTable × Bool × List ℕ
wsa_send accepted t i ps = (t, true, ps)
wsa_send refused t i ps =
    let n = less_io (t.slots i) in
    let u = set_slot t i (with_io_count n (t.slots i)) in
    if n == 0 then (release_session u i, false, []) else (u, true, [])

-- The session that holds a batch.
unfoldable pub loaded : Session → List ℕ → List ℕ → ℕ → Session
loaded v q c count =
    more_io
      (record v { is_send_flag = true; send_buf = q; complete_send_buf = c; send_count = count })

post_batch : Posted → SessionTable → ℕ → List ℕ → List ℕ → List ℕ → SessionTable × Bool × List ℕ
unfolding wsa_send loaded
post_batch r t i [] q c =
    let v = t.slots i in
    (
      set_slot t i (record v { is_send_flag = false; send_buf = q; complete_send_buf = c }),
      false,
      [],
    )
post_batch r t i (p ∷ ps) q c =
    wsa_send r (set_slot t i (loaded (t.slots i) q c (length (p ∷ ps)))) i (p ∷ ps)

-- `PostSend(session)`: the table, what it returns, and the packets that the network has taken
unfoldable pub post_send :
    (List ℕ → Bool) → Posted → SessionTable → ℕ → SessionTable × Bool × List ℕ
unfolding batch post_batch
post_send room r t i =
    let v = t.slots i in
    let (ps, q, c) = batch room 100 v.send_buf v.complete_send_buf in
    if v.is_send_flag then (t, false, []) else post_batch r t i ps q c

-- The loop of `SendComplete`: the packets popped, those left, and whether the queue ran out.
unfoldable pub finish : ℕ → List ℕ → List ℕ × List ℕ × Bool
finish zero c = ([], c, false)
finish (suc k) [] = ([], [], true)
finish (suc k) (p ∷ c) = let (ps, c', short) = finish k c in (p ∷ ps, c', short)

-- `sendTPS` after as many increments
unfoldable pub count_sent : ℕ → ℕ → ℕ
count_sent zero n = n
count_sent (suc k) n = count_sent k (count_low n)

-- The session after the loop of `SendComplete`, and the calls of `SubRef`.
unfoldable pub finished : SessionTable → ℕ → SessionTable
unfolding finish count_sent
finished t i =
    let v = t.slots i in
    let (ps, c, short) = finish v.send_count v.complete_send_buf in
    let u = record (set_slot t i (record v { send_count = 0; complete_send_buf = c })) {
      dropped = t.dropped ++ ps;
      send_tps = count_sent (length ps) t.send_tps;
    } in
    if short then close_session u i else u

-- `SendComplete(session, transferred)`: the table, and the packets that the network has taken
unfoldable pub send_complete :
    (List ℕ → Bool) → Posted → ℕ → SessionTable → ℕ → SessionTable × List ℕ
unfolding finished post_send
send_complete room r transferred t i =
    let t1 = finished (if transferred == 0 then close_session t i else t) i in
    let t2 = set_slot t1 i (record (t1.slots i) { is_send_flag = false }) in
    let (t3, _, ps) = post_send room r t2 i in
    if (t2.slots i).is_released then (t2, []) else (t3, ps)

-- `SendPacket(id, packet)` between the seal of the packet and the return, for what `SessionLock` gave
unfoldable pub send_locked :
    (List ℕ → Bool) → Posted → SessionTable → Option ℕ → ℕ → SessionTable × List ℕ
unfolding post_send session_unlock
send_locked room r t none p = (t, [])
send_locked room r t (some i) p =
    let v = t.slots i in
    let u = set_slot t i (record v { send_buf = push room v.send_buf p }) in
    let (w, _, ps) = post_send room r u i in
    if v.is_released then (session_unlock u i, []) else (session_unlock w i, ps)
