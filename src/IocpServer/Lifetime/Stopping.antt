-- ===== src/IocpServer/Lifetime/Stopping.antt =====
-- What `Stop` leaves of the sessions.
use chatting_server.Base.{
  ℕ, zero, suc, ◌<◌, ◌≤◌, ◌≡◌, refl, List, [], ◌∷◌, ◌++◌, ◌==◌, if◌then◌else◌, not, ◌&&◌,
  Bool-cases, false, inl, inr, arith, append_assoc, append-nil, ==_refl, ==_iff, true, sym, subst,
  ap, ap₂, ◌∙◌,
}
use chatting_server.Base.Maps.{update_hit}
use chatting_server.RingBuffer.{use_size, clear_buffer}
use chatting_server.IocpServer.Sessions.{
  Session, SessionTable, init, set_slot, close_session, release_session, all_ones,
}
use chatting_server.IocpServer.Lifetime.{ServerState, stop, drain, stop_session, stop_sessions}

-- The packets in the queues of a session, and whether `Stop` has it leave.
abbrev pub queued : Session → List ℕ
queued v = v.send_buf ++ v.complete_send_buf

abbrev pub leaver : Session → List ℕ
leaver v =
    if not (v.sock == all_ones) && (not v.is_released && v.io_count == 0)
    then v.session_id ∷ []
    else []

unfoldable pub given_back : ℕ → SessionTable → List ℕ
given_back zero t = []
given_back (suc n) t = given_back n t ++ queued (t.slots n)

unfoldable pub leavers : ℕ → SessionTable → List ℕ
leavers zero t = []
leavers (suc n) t = leavers n t ++ leaver (t.slots n)

pub record IsEmptied (v : Session) : Type 0 where
  pub no_send : v.send_buf ≡ []
  pub no_complete : v.complete_send_buf ≡ []
  pub no_bytes : use_size v.recv_buf ≡ 0
  pub closed : v.sock ≡ all_ones

-- From `t` to `u` the slot `i` alone is closed, and no packet of it is lost.
record IsClosed (t u : SessionTable) (i : ℕ) : Type 0 where
  account : u.dropped ++ queued (u.slots i) ≡ t.dropped ++ queued (t.slots i)
  left : u.left ≡ t.left ++ leaver (t.slots i)
  closed : (u.slots i).sock ≡ all_ones
  others : (j : ℕ) → (i == j) ≡ false → u.slots j ≡ t.slots j

-- The session that `DisConnect` has closed.
abbrev shut : Session → Session
shut v = record v { is_released = true; sock = all_ones }

-- A session that does not leave stays as it is, but for its socket.
kept-IsClosed :
    (t : SessionTable) (i : ℕ)
    → leaver (t.slots i) ≡ []
    → (t.slots i).sock ≡ all_ones
    → IsClosed t t i
kept-IsClosed t i no_leaver e = record {
  account = refl;
  left = rw no_leaver (sym (append-nil t.left));
  closed = e;
  others = λ j h. refl;
}

marked-IsClosed :
    (t : SessionTable) (i : ℕ)
    → leaver (t.slots i) ≡ []
    → IsClosed t (set_slot t i (shut (t.slots i))) i
marked-IsClosed t i no_leaver =
    let hit = update_hit t.slots i (shut (t.slots i)) in
    record {
      account = rw hit refl;
      left = rw no_leaver (sym (append-nil t.left));
      closed = rw hit refl;
      others = λ j h. rw h refl;
    }

released-IsClosed :
    (t : SessionTable) (i : ℕ)
    → leaver (t.slots i) ≡ (t.slots i).session_id ∷ []
    → IsClosed t (release_session (set_slot t i (shut (t.slots i))) i) i
unfolding release_session init
released-IsClosed t i a_leaver = record {
  account = rw (==_refl i) (simp (append_assoc, append-nil));
  left = rw (==_refl i, a_leaver) refl;
  closed = rw (==_refl i) refl;
  others = λ j h. rw h refl;
}

-- `DisConnect` of a session that is not closed yet.
close_session-open :
    (t : SessionTable) (i : ℕ)
    → (t.slots i).is_released ≡ false
    → close_session t i ≡ (
        let u = set_slot t i (shut (t.slots i)) in
        if (t.slots i).io_count == 0 then release_session u i else u)
unfolding close_session
close_session-open t i r =
    let u : SessionTable = set_slot t i (shut (t.slots i)) in
    ap (λ b. if b then t else (if (t.slots i).io_count == 0 then release_session u i else u)) r

close_session-IsClosed :
    (t : SessionTable) (i : ℕ)
    → ((t.slots i).sock == all_ones) ≡ false
    → ((t.slots i).is_released ≡ true → (t.slots i).sock ≡ all_ones)
    → IsClosed t (close_session t i) i
close_session-IsClosed t i e pair = elim (Bool-cases (t.slots i).is_released) [
  | inl r ↦ absurd (ground (arith, pair r))
  | inr r ↦ rw (close_session-open t i r) (elim (Bool-cases ((t.slots i).io_count == 0)) [
    | inl n ↦ rw n (released-IsClosed t i (rw (e, r, n) refl))
    | inr n ↦ rw n (marked-IsClosed t i (rw (e, r, n) refl))
  ])
]

-- What `Stop` does to a slot on the way to the loops that empty its queues.
closing : SessionTable → ℕ → SessionTable
closing t i = if (t.slots i).sock == all_ones then t else close_session t i

closing-IsClosed :
    (t : SessionTable) (i : ℕ)
    → ((t.slots i).is_released ≡ true → (t.slots i).sock ≡ all_ones)
    → IsClosed t (closing t i) i
unfolding closing
closing-IsClosed t i pair = elim (Bool-cases ((t.slots i).sock == all_ones)) [
  | inl e ↦ rw e (kept-IsClosed t i (rw e refl) ((==_iff (t.slots i).sock all_ones).0 e))
  | inr e ↦ rw e (close_session-IsClosed t i e pair)
]

record IsStopped (t u : SessionTable) (i : ℕ) : Type 0 where
  dropped : u.dropped ≡ t.dropped ++ queued (t.slots i)
  left : u.left ≡ t.left ++ leaver (t.slots i)
  slot : IsEmptied (u.slots i)
  others : (j : ℕ) → (i == j) ≡ false → u.slots j ≡ t.slots j

drain-IsStopped : (t u : SessionTable) (i : ℕ) → IsClosed t u i → IsStopped t (drain u i) i
unfolding drain clear_buffer use_size
drain-IsStopped t u i c = record {
  dropped = append_assoc u.dropped (u.slots i).send_buf (u.slots i).complete_send_buf ∙ c.account;
  left = c.left;
  slot =
      rw (==_refl i)
        (record { no_send = refl; no_complete = refl; no_bytes = refl; closed = c.closed });
  others = λ j h. rw h (c.others j h);
}

stop_session-IsStopped :
    (t : SessionTable) (i : ℕ)
    → ((t.slots i).is_released ≡ true → (t.slots i).sock ≡ all_ones)
    → IsStopped t (stop_session t i) i
unfolding stop_session closing
stop_session-IsStopped t i pair = drain-IsStopped t (closing t i) i (closing-IsClosed t i pair)

-- What the loop over the slots below `n` leaves.
pub record IsAllStopped (n : ℕ) (t u : SessionTable) : Type 0 where
  pub dropped : u.dropped ≡ t.dropped ++ given_back n t
  pub left : u.left ≡ t.left ++ leavers n t
  pub slot : (i : ℕ) → i < n → IsEmptied (u.slots i)
  pub others : (i : ℕ) → n ≤ i → u.slots i ≡ t.slots i

stop_sessions-IsAllStopped :
    (n : ℕ) (t : SessionTable)
    → ((i : ℕ) → i < n → (t.slots i).is_released ≡ true → (t.slots i).sock ≡ all_ones)
    → IsAllStopped n t (stop_sessions n t)
unfolding stop_sessions given_back leavers
stop_sessions-IsAllStopped zero t pair = record {
  dropped = sym (append-nil t.dropped);
  left = sym (append-nil t.left);
  slot = λ i h. absurd (omega arith);
  others = λ i h. refl;
}
stop_sessions-IsAllStopped (suc n) t pair =
    let u : SessionTable = stop_sessions n t in
    let rest = stop_sessions-IsAllStopped n t (λ i h. pair i (omega arith)) in
    let same : u.slots n ≡ t.slots n = rest.others n (omega arith) in
    let one : IsStopped u (stop_session u n) n =
      stop_session-IsStopped u n (rw same (pair n (omega arith))) in
    record {
      dropped =
          one.dropped
          ∙ ap₂ (λ ds v. ds ++ queued v) rest.dropped same
          ∙ append_assoc t.dropped (given_back n t) (queued (t.slots n));
      left =
          one.left
          ∙ ap₂ (λ ids v. ids ++ leaver v) rest.left same
          ∙ append_assoc t.left (leavers n t) (leaver (t.slots n));
      slot = λ i h. elim (Bool-cases (n == i)) [
        | inl e ↦ subst (λ j. IsEmptied ((stop_session u n).slots j)) ((==_iff n i).0 e) one.slot
        | inr e ↦ rw (one.others i e) (rest.slot i (ground arith))
      ];
      others = λ i h. one.others i (ground arith) ∙ rest.others i (omega arith);
    }

-- `Stop` of a server whose released sessions have no socket any more: every packet in a queue of a
-- session is given back once, in order; the sessions that leave are those that have a socket, are
-- not released and have no operation under way; every session ends without a socket, with empty
-- queues and an empty ring, and every worker thread is sent one completion that ends it.
pub stop-drains :
    (s : ServerState)
    → ((i : ℕ)
        → i < s.max_client_count
        → (s.table.slots i).is_released ≡ true
        → (s.table.slots i).sock ≡ all_ones)
    → let (r, ends) = stop s in
      (r.table.dropped ≡ s.table.dropped ++ given_back s.max_client_count s.table)
      × (r.table.left ≡ s.table.left ++ leavers s.max_client_count s.table)
      × ((i : ℕ) → i < s.max_client_count → IsEmptied (r.table.slots i))
      × (ends ≡ s.workers)
      × (r.workers ≡ 0)
unfolding stop
stop-drains s pair =
    let all = stop_sessions-IsAllStopped s.max_client_count s.table pair in
    (all.dropped, all.left, all.slot, refl, refl)
