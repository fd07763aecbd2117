-- ===== src/IocpServer/Worker/Receive.antt =====
-- A worker's round of ConsoleApplication2/IOCPServer.cpp for a receive that holds one packet.
use chatting_server.Base.{
  suc, ℕ, ◌+◌, ◌^◌, ◌<◌, ◌≡◌, refl, sym, ap, ◌==◌, if◌then◌else◌, ◌&&◌, Bool, true, false, List, [],
  arith, ◌∙◌,
}
use chatting_server.Base.Maps.{update_hit}
use chatting_server.Base.Outcome.{Outcome, done, ◌>>=◌}
use chatting_server.RingBuffer.{RingBuffer}
use chatting_server.Packet.{Packet}
use chatting_server.IocpServer.Frames.{Ending, drained, wait, got, recv_step}
use chatting_server.IocpServer.Sessions.{
  Session, SessionTable, set_slot, with_io_count, close_session, release_session,
}
use chatting_server.IocpServer.Sending.{accepted, less_io, more_io}
use chatting_server.IocpServer.Worker.{
  counted, drop_io, post_recv, received, recv_rounds, after_loop, recv_complete, settle_io,
  worker_round, recv_done,
}

-- The table when the bytes are in the ring of slot `i`, and when the loop has left `ring` of it.
abbrev pub arrived : SessionTable → ℕ → ℕ → ℕ → SessionTable
arrived t i now n = set_slot t i (received (t.slots i) now n)

abbrev pub cut_up : SessionTable → ℕ → RingBuffer → SessionTable
cut_up t i ring = set_slot t i (record (t.slots i) { recv_buf = ring })

abbrev posted : Bool → SessionTable → SessionTable → SessionTable × Bool
posted released t u = if released then (t, false) else (u, true)

after_loop-live :
    (t : SessionTable) (i : ℕ)
    → (t.slots i).is_released ≡ false
    → after_loop accepted t i drained ≡ set_slot t i (more_io (t.slots i))
unfolding after_loop post_recv
after_loop-live t i live =
    let u = set_slot t i (more_io (t.slots i)) in ap (λ b. if b then t else (posted b t u).0) live

settle_io-busy :
    (t : SessionTable) (i m : ℕ)
    → (t.slots i).io_count ≡ m + 2
    → m + 2 < 2 ^ 32
    → settle_io t i ≡ set_slot t i (with_io_count (m + 1) (t.slots i))
unfolding settle_io
settle_io-busy t i m count small =
    let less : less_io (t.slots i) ≡ m + 1 = omega (arith, count) in
    let at = update_hit t.slots i (with_io_count (less_io (t.slots i)) (t.slots i)) in
    let busy : (((drop_io t i).slots i).io_count == 0) ≡ false =
      ap (λ (v : Session). v.io_count == 0) at ∙ ground (arith, less) in
    ap
      (λ b.
        if b && ((drop_io t i).slots i).is_released
        then release_session (drop_io t i) i
        else drop_io t i)
      busy
    ∙ ap (λ k. set_slot t i (with_io_count k (t.slots i))) less

module _ {A : Type 0} (on_recv : SessionTable → A → ℕ → Packet → Outcome (SessionTable × A))
    (fuel : ℕ) (fresh : Packet) (now n : ℕ) (t : SessionTable) (a b : A) (i : ℕ) (ring : RingBuffer)
    (p : Packet) (v : SessionTable) where
  abbrev before : SessionTable
  before = counted (cut_up (arrived t i now n) i ring)

  recv_rounds-one :
      recv_step fresh ((arrived t i now n).slots i).recv_buf ≡ done (ring, got p)
      → on_recv before a (before.slots i).session_id p ≡ done (v, b)
      → recv_step fresh (v.slots i).recv_buf ≡ done (ring, wait)
      → recv_rounds on_recv (suc (suc fuel)) fresh (arrived t i now n) a i ≡ done (v, b, drained)
  unfolding recv_rounds
  recv_rounds-one first handled last = rw first (rw handled (rw last refl))

  recv_complete-one :
      (n == 0) ≡ false
      → recv_step fresh ((arrived t i now n).slots i).recv_buf ≡ done (ring, got p)
      → on_recv before a (before.slots i).session_id p ≡ done (v, b)
      → recv_step fresh (v.slots i).recv_buf ≡ done (ring, wait)
      → (v.slots i).is_released ≡ false
      → recv_complete on_recv (suc (suc fuel)) fresh accepted now n t a i
        ≡ done (set_slot v i (more_io (v.slots i)), b)
  unfolding recv_complete
  recv_complete-one some_bytes first handled last live =
      ap
        (λ z.
          if z
          then done (close_session t i, a)
          else (recv_rounds on_recv (suc (suc fuel)) fresh (arrived t i now n) a i
              >>= λ (w, d, ending). done (after_loop accepted w i ending, d)))
        some_bytes
      ∙ ap
          (λ (o : Outcome (SessionTable × A × Ending)).
            o >>= λ (w, d, ending). done (after_loop accepted w i ending, d))
          (recv_rounds-one first handled last)
      ∙ ap (λ w. done (w, b)) (after_loop-live v i live)

  -- The bytes of one packet arrive: the handler gets it, the next receive is posted, and the slot's
  -- counter is what the handler left of it.
  pub worker_round-one :
      (room : List ℕ → Bool) (m : ℕ)
      → (n == 0) ≡ false
      → recv_step fresh ((arrived t i now n).slots i).recv_buf ≡ done (ring, got p)
      → on_recv before a (before.slots i).session_id p ≡ done (v, b)
      → recv_step fresh (v.slots i).recv_buf ≡ done (ring, wait)
      → (v.slots i).is_released ≡ false
      → (v.slots i).io_count ≡ m + 1
      → m + 2 < 2 ^ 32
      → (w : SessionTable) × (worker_round on_recv room
            (suc (suc fuel))
            fresh
            accepted
            now
            recv_done
            n
            t
            a
            i
          ≡ done (w, b, []))
        × (w.slots i ≡ v.slots i)
        × (w.left ≡ v.left)
  unfolding worker_round
  worker_round-one room m some_bytes first handled last live count small =
      let w : SessionTable = set_slot v i (more_io (v.slots i)) in
      let at = update_hit v.slots i (more_io (v.slots i)) in
      let more : (more_io (v.slots i)).io_count ≡ m + 2 = omega (arith, count) in
      (
        set_slot w i (with_io_count (m + 1) (w.slots i)),
        ap (λ (o : Outcome (SessionTable × A)). o >>= λ (u, d). done (settle_io u i, d, []))
              (recv_complete-one some_bytes first handled last live)
            ∙ ap (λ u. done (u, b, []))
                (settle_io-busy w i m (ap Session.io_count at ∙ more) small),
        update_hit w.slots i _
            ∙ ap (with_io_count (m + 1)) at
            ∙ ap (λ k. with_io_count k (v.slots i)) (sym count),
        refl,
      )
