-- ===== src/IocpServer/Sessions/Locking.antt =====
-- `SessionLock` and `SessionUnLock` of ConsoleApplication2/IOCPServer.cpp.
use chatting_server.Base.{
  ℕ, ◌+◌, ◌-◌, ◌%◌, ◌^◌, ◌<◌, ◌≡◌, refl, sym, subst, ap, ◌==◌, if◌then◌else◌, not, ◌||◌, true,
  false, [], ◌∷◌, ◌++◌, some, none, arith, ==_refl, ◌∙◌,
}
use chatting_server.Base.Maps.{update_hit}
use chatting_server.RingBuffer.{clear_buffer, use_size}
use chatting_server.IocpServer.Sessions.{
  Session, SessionTable, init, all_ones, session_index, set_slot, with_io_count, release_session,
  session_unlock, session_lock,
}

-- A session as `Init` leaves it, with an empty ring
pub record IsCleared (v : Session) : Type 0 where
  pub sock : v.sock ≡ all_ones
  pub session_id : v.session_id ≡ all_ones
  pub index : v.index ≡ 0
  pub is_send_flag : v.is_send_flag ≡ false
  pub send_count : v.send_count ≡ 0
  pub is_released : v.is_released ≡ false
  pub io_count : v.io_count ≡ 0
  pub send_buf : v.send_buf ≡ []
  pub complete_send_buf : v.complete_send_buf ≡ []
  pub bytes : use_size v.recv_buf ≡ 0
  pub last_recv_time : v.last_recv_time ≡ 0

-- From `t` to `u` slot `i` was released: `OnClientLeave` was called once, with the id in the slot, the
-- packets in its queues were given back, it was cleared, the index that it held went to the stack, and
-- the sessions were counted down. The other slots stay.
pub record IsReleased (t u : SessionTable) (i : ℕ) : Type 0 where
  pub stack : u.index_stack ≡ (t.slots i).index ∷ t.index_stack
  pub count : u.session_count ≡ (t.session_count + 2 ^ 64 - 1) % 2 ^ 64
  pub left : u.left ≡ t.left ++ (t.slots i).session_id ∷ []
  pub dropped : u.dropped ≡ t.dropped ++ (t.slots i).send_buf ++ (t.slots i).complete_send_buf
  pub slot : IsCleared (u.slots i)
  pub others : (j : ℕ) → (i == j) ≡ false → u.slots j ≡ t.slots j

module _ (t : SessionTable) (sid n : ℕ) (counted : (t.slots (session_index sid)).io_count ≡ n)
    (small : n + 1 < 2 ^ 32) where
  abbrev slot : Session
  slot = t.slots (session_index sid)

  abbrev taken : SessionTable
  taken = set_slot t (session_index sid) (with_io_count (n + 1) slot)

  inside : taken.slots (session_index sid) ≡ with_io_count (n + 1) slot
  inside = update_hit t.slots (session_index sid) (with_io_count (n + 1) slot)

  unlock_taken : session_unlock taken (session_index sid) ≡ (
      if n == 0
      then release_session
          (set_slot taken (session_index sid) (with_io_count n slot))
          (session_index sid)
      else set_slot taken (session_index sid) (with_io_count n slot))
  unfolding session_unlock
  unlock_taken =
      ap
        (λ v.
          let m = (v.io_count + 2 ^ 32 - 1) % 2 ^ 32 in
          let u = set_slot taken (session_index sid) (with_io_count m v) in
          if m == 0 then release_session u (session_index sid) else u)
        inside
      ∙ ap
          (λ m.
            let u = set_slot taken (session_index sid) (with_io_count m slot) in
            if m == 0 then release_session u (session_index sid) else u)
          less
    where
      less : (n + 1 + 2 ^ 32 - 1) % 2 ^ 32 ≡ n
      less = omega arith

  -- The slot when the reference has been given back.
  abbrev pub restored : SessionTable
  restored = set_slot taken (session_index sid) (with_io_count n slot)

  locked : session_lock t sid ≡ (
      if not (sid == slot.session_id) || slot.is_released
      then (session_unlock taken (session_index sid), none)
      else (taken, some (session_index sid)))
  unfolding session_lock
  locked =
      ap
        (λ m.
          let u = set_slot t (session_index sid) (with_io_count m slot) in
          let v = u.slots (session_index sid) in
          if not (sid == v.session_id) || v.is_released
          then (session_unlock u (session_index sid), none)
          else (u, some (session_index sid)))
        more
      ∙ ap
          (λ v.
            if not (sid == v.session_id) || v.is_released
            then (session_unlock taken (session_index sid), none)
            else (taken, some (session_index sid)))
          inside
    where
      more : (slot.io_count + 1) % 2 ^ 32 ≡ n + 1
      more = omega (arith, counted)

  locked_stale :
      (not (sid == slot.session_id) || slot.is_released) ≡ true
      → session_lock t sid ≡ (session_unlock taken (session_index sid), none)
  locked_stale stale = locked ∙ rw stale refl

  released_free :
      (n == 0) ≡ true
      → session_unlock taken (session_index sid) ≡ release_session restored (session_index sid)
  released_free free = unlock_taken ∙ rw free refl

  gone : IsReleased t (release_session restored (session_index sid)) (session_index sid)
  unfolding release_session init clear_buffer use_size
  gone =
      let i : ℕ = session_index sid in
      let v : Session = with_io_count n slot in
      let at : restored.slots i ≡ v = update_hit taken.slots i v in
      record {
        stack = ap (λ (w : Session). w.index ∷ t.index_stack) at;
        count = refl;
        left = ap (λ (w : Session). t.left ++ w.session_id ∷ []) at;
        dropped = ap (λ (w : Session). t.dropped ++ w.send_buf ++ w.complete_send_buf) at;
        slot = rw (==_refl i) (record {
          sock = refl;
          session_id = refl;
          index = refl;
          is_send_flag = refl;
          send_count = refl;
          is_released = refl;
          io_count = refl;
          send_buf = refl;
          complete_send_buf = refl;
          bytes = refl;
          last_recv_time = refl;
        });
        others = λ j h. rw h refl;
      }

  -- `SessionLock` in all cases, for a count that does not overflow. The session that the id names is
  -- locked; `SessionUnLock` then gives the count back and releases nothing if it was not zero, and
  -- releases the slot if it was. For an id that is out of date, or a session that is being closed, the
  -- count is as before if it was not zero; if it was zero, the slot is released, also if it was free.
  -- A release pushes the index that the slot holds, counts one session less, calls `OnClientLeave`,
  -- gives back the packets of both queues, clears the slot and leaves the others.
  pub session_lock_cases :
      (slot.session_id ≡ sid
        → slot.is_released ≡ false
        → (session_lock t sid ≡ (taken, some (session_index sid)))
          × ((n == 0) ≡ false → session_unlock taken (session_index sid) ≡ restored)
          × ((n == 0) ≡ true
              → IsReleased t (session_unlock taken (session_index sid)) (session_index sid)))
      × ((not (sid == slot.session_id) || slot.is_released) ≡ true
          → ((n == 0) ≡ false → session_lock t sid ≡ (restored, none))
            × ((n == 0) ≡ true
                → IsReleased t (session_lock t sid).0 (session_index sid)
                  × ((session_lock t sid).1 ≡ none)))
  session_lock_cases = (
    λ same alive. (
      locked ∙ rw (same, ==_refl sid, alive) refl,
      λ busy. unlock_taken ∙ rw busy refl,
      λ free. rw (released_free free) gone,
    ),
    λ stale. (
      λ busy. locked_stale stale ∙ ap (λ u. (u, none)) (unlock_taken ∙ rw busy refl),
      λ free. (
        subst (λ u. IsReleased t u (session_index sid))
            (sym (ap (λ r. r.0) (locked_stale stale) ∙ released_free free)) gone,
        ap (λ r. r.1) (locked_stale stale),
      ),
    ),
  )
