-- ===== src/IocpServer/Worker/Release.antt =====
-- When a session is released, ConsoleApplication2/IOCPServer.cpp.
use chatting_server.Base.{
  ℕ, ◌+◌, ◌^◌, ◌<◌, ◌≡◌, refl, ap, ap₂, ◌∙◌, ◌==◌, if◌then◌else◌, ◌&&◌, Bool, true, false, List, [],
  ◌∷◌, ◌++◌, arith, Bool-cases, inl, inr,
}
use chatting_server.Base.Maps.{update_hit}
use chatting_server.Base.Outcome.{Outcome, done}
use chatting_server.Packet.{Packet}
use chatting_server.RingBuffer.{clear_buffer}
use chatting_server.IocpServer.Sessions.{
  Session, SessionTable, set_slot, with_io_count, release_session, close_session, init, all_ones,
}
use chatting_server.IocpServer.Sending.{Posted, refused, less_io, more_io}
use chatting_server.IocpServer.Worker.{
  drop_io, settle_io, recv_complete, worker_round, recv_done, post_recv, recv_refused,
}

-- What is the same after a step that does not release the session.
record Same (t u : SessionTable) (i : ℕ) : Type 0 where
  index : (u.slots i).index ≡ (t.slots i).index
  session_id : (u.slots i).session_id ≡ (t.slots i).session_id
  stack : u.index_stack ≡ t.index_stack
  left : u.left ≡ t.left

abbrev flagged : Session → Session
flagged v = record v { is_released = true; sock = all_ones }

-- `DisConnect` of a session with an operation under way only marks it.
close_session-busy :
    (t : SessionTable) (i : ℕ)
    → ((t.slots i).io_count == 0) ≡ false
    → let u = close_session t i in
      Same t u i × ((u.slots i).is_released ≡ true) × ((u.slots i).io_count ≡ (t.slots i).io_count)
unfolding close_session
close_session-busy t i busy = elim (Bool-cases (t.slots i).is_released) [
  | inl e ↦
      let kept : close_session t i ≡ t = rw e refl in
      rw kept (record { index = refl; session_id = refl; stack = refl; left = refl }, e, refl)
  | inr e ↦
      let at = update_hit t.slots i (flagged (t.slots i)) in
      let marked : close_session t i ≡ set_slot t i (flagged (t.slots i)) =
        ap
          (λ b.
            if b
            then t
            else (if (t.slots i).io_count == 0
                then release_session (set_slot t i (flagged (t.slots i))) i
                else set_slot t i (flagged (t.slots i))))
          e
        ∙ ap
            (λ b.
              if b
              then release_session (set_slot t i (flagged (t.slots i))) i
              else set_slot t i (flagged (t.slots i)))
            busy in
      rw marked (
        record {
          index = ap Session.index at;
          session_id = ap Session.session_id at;
          stack = refl;
          left = refl;
        },
        ap Session.is_released at,
        ap Session.io_count at,
      )
]

release_session-fields :
    (t : SessionTable) (i : ℕ)
    → let u = release_session t i in
      (u.index_stack ≡ (t.slots i).index ∷ t.index_stack)
      × (u.left ≡ t.left ++ (t.slots i).session_id ∷ [])
      × ((u.slots i).index ≡ 0)
      × ((u.slots i).session_id ≡ all_ones)
      × ((u.slots i).is_released ≡ false)
      × ((u.slots i).io_count ≡ 0)
unfolding release_session init
release_session-fields t i =
    let at = update_hit t.slots i (
      init (record (t.slots i) {
        send_buf = [];
        complete_send_buf = [];
        recv_buf = clear_buffer (t.slots i).recv_buf;
      })) in
    (
      refl,
      refl,
      ap Session.index at,
      ap Session.session_id at,
      ap Session.is_released at,
      ap Session.io_count at,
    )

dropped_io :
    (t : SessionTable) (i n : ℕ)
    → (t.slots i).io_count ≡ n + 1
    → n + 1 < 2 ^ 32
    → (drop_io t i).slots i ≡ with_io_count n (t.slots i)
dropped_io t i n count small =
    update_hit t.slots i (with_io_count (less_io (t.slots i)) (t.slots i))
    ∙ ap (λ m. with_io_count m (t.slots i)) less
  where
    less : less_io (t.slots i) ≡ n
    less = omega (arith, count)

-- What the end of a worker's round leaves of a session that is being closed.
abbrev pub Settled : SessionTable → SessionTable → ℕ → ℕ → Type 0
Settled t u i n =
    ((n == 0) ≡ true
      → (u.index_stack ≡ (t.slots i).index ∷ t.index_stack)
        × (u.left ≡ t.left ++ (t.slots i).session_id ∷ []))
    × ((n == 0) ≡ false
        → (u.index_stack ≡ t.index_stack)
          × (u.left ≡ t.left)
          × ((u.slots i).io_count ≡ n)
          × ((u.slots i).is_released ≡ true))

settle_io-Settled :
    (t : SessionTable) (i n : ℕ)
    → (t.slots i).io_count ≡ n + 1
    → n + 1 < 2 ^ 32
    → (t.slots i).is_released ≡ true
    → Settled t (settle_io t i) i n
unfolding settle_io
settle_io-Settled t i n count small closed =
    let u = drop_io t i in
    let at = dropped_io t i n count small in
    let chosen : settle_io t i ≡ (if n == 0 then release_session u i else u) =
      ap (λ v. if v.io_count == 0 && v.is_released then release_session u i else u) at
      ∙ rw closed (ground arith) in
    (
      λ last.
          let (stack, left, _, _, _, _) = release_session-fields u i in
          rw (chosen, last)
            (
              stack ∙ ap (λ (v : Session). v.index ∷ t.index_stack) at,
              left ∙ ap (λ (v : Session). t.left ++ v.session_id ∷ []) at,
            ),
      λ more.
          rw (chosen, more)
            (refl, refl, ap Session.io_count at, ap Session.is_released at ∙ closed),
    )

-- A worker that takes the completion of a receive of no bytes, for a session with `n` operations left
-- beside it: with none left the session is released, once, its index free and `OnClientLeave` called
-- with its id; else it is marked as closing and nothing is released.
pub worker_round_closes :
    {A : Type 0} (on_recv : SessionTable → A → ℕ → Packet → Outcome (SessionTable × A))
    (room : List ℕ → Bool) (fuel : ℕ) (fresh : Packet) (r : Posted) (now : ℕ) (t : SessionTable)
    (a : A) (i n : ℕ)
    → (t.slots i).io_count ≡ n + 1
    → n + 1 < 2 ^ 32
    → (u : SessionTable) × (worker_round on_recv room fuel fresh r now recv_done 0 t a i
        ≡ done (u, a, []))
      × Settled t u i n
unfolding worker_round recv_complete
worker_round_closes on_recv room fuel fresh r now t a i n count small =
    let (same, closed, busy) = close_session-busy t i (ground (arith, count)) in
    let c = close_session t i in
    let (last, more) = settle_io-Settled c i n (busy ∙ count) small closed in
    (
      settle_io c i,
      refl,
      (
        λ e.
            let (stack, left) = last e in
            (
              stack ∙ ap₂ (λ x xs. x ∷ xs) same.index same.stack,
              left ∙ ap₂ (λ xs x. xs ++ x ∷ []) same.left same.session_id,
            ),
        λ e.
            let (stack, left, io, released) = more e in
            (stack ∙ same.stack, left ∙ same.left, io, released),
      ),
    )

-- `DisConnect` of a session with no operation under way releases it.
close_session-idle :
    (t : SessionTable) (i : ℕ)
    → (t.slots i).is_released ≡ false
    → (t.slots i).io_count ≡ 0
    → close_session t i ≡ release_session (set_slot t i (flagged (t.slots i))) i
unfolding close_session
close_session-idle t i live idle =
    let u = set_slot t i (flagged (t.slots i)) in
    ap (λ b. if b then t else (if (t.slots i).io_count == 0 then release_session u i else u)) live
    ∙ ap (λ m. if m == 0 then release_session u i else u) idle

abbrev unless : Bool → SessionTable → SessionTable → SessionTable × Bool
unless b t u = if b then (t, false) else (u, false)

-- `PostRecv` on a live session with no operation under way, when `WSARecv` refuses: the session is released
-- twice, so that index 0 is freed beside its own index and `OnClientLeave` is called once more, with
-- no session's id.
pub post_recv_twice :
    (t : SessionTable) (i : ℕ)
    → (t.slots i).io_count ≡ 0
    → (t.slots i).is_released ≡ false
    → let u = (post_recv refused t i).0 in
      (u.index_stack ≡ 0 ∷ (t.slots i).index ∷ t.index_stack)
      × (u.left ≡ (t.left ++ (t.slots i).session_id ∷ []) ++ all_ones ∷ [])
unfolding post_recv recv_refused
post_recv_twice t i idle live =
    let whole : (post_recv refused t i).0 ≡ release_session w i =
      ap (λ b. (unless b t (recv_refused t1 i)).0) live
      ∙ ap (λ m. close_session (if m == 0 then release_session u i else u) i)
          (ap Session.io_count at)
      ∙ close_session-idle rel i (fields.4) (fields.5) in
    let again = release_session-fields w i in
    let slot : w.slots i ≡ flagged (rel.slots i) = update_hit rel.slots i (flagged (rel.slots i)) in
    rw whole (
      again.0
          ∙ ap₂ (λ x xs. x ∷ xs) (ap Session.index slot ∙ fields.2)
              (fields.0 ∙ ap (λ x. x ∷ t.index_stack) (ap Session.index before)),
      again.1
          ∙ ap₂ (λ xs x. xs ++ x ∷ [])
              (fields.1 ∙ ap (λ x. t.left ++ x ∷ []) (ap Session.session_id before))
              (ap Session.session_id slot ∙ fields.3),
    )
  where
    t1 : SessionTable
    t1 = set_slot t i (more_io (t.slots i))

    start_at : t1.slots i ≡ more_io (t.slots i)
    start_at = update_hit t.slots i (more_io (t.slots i))

    one : (more_io (t.slots i)).io_count ≡ 0 + 1
    one = omega (arith, idle)

    u : SessionTable
    u = drop_io t1 i

    at : u.slots i ≡ with_io_count 0 (t1.slots i)
    at = dropped_io t1 i 0 (ap Session.io_count start_at ∙ one) (omega arith)

    before : u.slots i ≡ with_io_count 0 (t.slots i)
    before = at ∙ ap (with_io_count 0) start_at

    rel : SessionTable
    rel = release_session u i

    fields :
        (rel.index_stack ≡ (u.slots i).index ∷ u.index_stack)
        × (rel.left ≡ u.left ++ (u.slots i).session_id ∷ [])
        × ((rel.slots i).index ≡ 0)
        × ((rel.slots i).session_id ≡ all_ones)
        × ((rel.slots i).is_released ≡ false)
        × ((rel.slots i).io_count ≡ 0)
    fields = release_session-fields u i

    w : SessionTable
    w = set_slot rel i (flagged (rel.slots i))
