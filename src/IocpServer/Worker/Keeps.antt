-- ===== src/IocpServer/Worker/Keeps.antt =====
-- What a handler keeps, the rounds of the threads of ConsoleApplication2/IOCPServer.cpp keep.
use chatting_server.Base.{ℕ, zero, suc, ◌==◌, ltb, not, Bool, List}
use chatting_server.Base.Outcome.{
  Outcome, done, ◌>>=◌, Ensures, then_Ensures, both_Ensures, map_Ensures, if_Ensures,
}
use chatting_server.Packet.{Packet}
use chatting_server.IocpServer.Frames.{
  Ending, Verdict, drained, disconnected, wait, cut, got, recv_step,
}
use chatting_server.RingBuffer.{RingBuffer}
use chatting_server.IocpServer.Sessions.{SessionTable, create_session}
use chatting_server.IocpServer.Sending.{Posted}
use chatting_server.IocpServer.Worker.{
  Completion, recv_done, send_done, counted, with_ring, recv_rounds, recv_complete, worker_round,
  accept_round,
}

-- What the loop does after a step.
abbrev pub after_step :
    {A : Type 0}
    → (SessionTable → A → ℕ → Packet → Outcome (SessionTable × A))
    → ℕ
    → Packet
    → SessionTable
    → A
    → ℕ
    → RingBuffer × Verdict
    → Outcome (SessionTable × A × Ending)
after_step on_recv fuel fresh t a i = λ (ring, verdict). elim verdict [
  | wait ↦ done (t, a, drained)
  | cut ↦ done (with_ring t i ring, a, disconnected)
  | got p ↦
      let u = counted (with_ring t i ring) in
      on_recv u a (u.slots i).session_id p >>= λ r. recv_rounds on_recv fuel fresh r.0 r.1 i
]

module _ {A : Type 0} (P : A → Type 0) where
  module _ (on_recv : SessionTable → A → ℕ → Packet → Outcome (SessionTable × A))
      (keeps : (t : SessionTable) (a : A) (sid : ℕ) (p : Packet)
        → P a
        → Ensures (on_recv t a sid p) (λ r. P r.1)) where
    after_step-keeps :
        (fuel : ℕ) (fresh : Packet) (t : SessionTable) (a : A) (i : ℕ) (x : RingBuffer × Verdict)
        → P a
        → ((u : SessionTable) (b : A)
            → P b
            → Ensures (recv_rounds on_recv fuel fresh u b i) (λ r. P r.1))
        → Ensures (after_step on_recv fuel fresh t a i x) (λ r. P r.1)
    after_step-keeps fuel fresh t a i (ring, wait) h rest = h
    after_step-keeps fuel fresh t a i (ring, cut) h rest = h
    after_step-keeps fuel fresh t a i (ring, got p) h rest =
        let u : SessionTable = counted (with_ring t i ring) in
        both_Ensures (on_recv u a (u.slots i).session_id p) _ (λ r. P r.1) (λ r. P r.1)
          (λ r k. rest r.0 r.1 k) (keeps u a _ p h)

    recv_rounds-keeps :
        (fuel : ℕ) (fresh : Packet) (t : SessionTable) (a : A) (i : ℕ)
        → P a
        → Ensures (recv_rounds on_recv fuel fresh t a i) (λ r. P r.1)
    unfolding recv_rounds
    recv_rounds-keeps zero fresh t a i h = tt
    recv_rounds-keeps (suc fuel) fresh t a i h =
        then_Ensures (recv_step fresh (t.slots i).recv_buf) (after_step on_recv fuel fresh t a i)
          (λ r. P r.1)
          (λ x.
            after_step-keeps fuel fresh t a i x h (λ u b k. recv_rounds-keeps fuel fresh u b i k))

    recv_complete-keeps :
        (fuel : ℕ) (fresh : Packet) (r : Posted) (now n : ℕ) (t : SessionTable) (a : A) (i : ℕ)
        → P a
        → Ensures (recv_complete on_recv fuel fresh r now n t a i) (λ r. P r.1)
    unfolding recv_complete
    recv_complete-keeps fuel fresh r now n t a i h =
        if_Ensures (n == 0) _ _ (λ r. P r.1) (λ e. h)
          (λ e.
            map_Ensures (recv_rounds on_recv fuel fresh _ a i) _ (λ r. P r.1) (λ r. P r.1)
              (λ r k. k) (recv_rounds-keeps fuel fresh _ a i h))

    pub worker_round-keeps :
        (room : List ℕ → Bool) (fuel : ℕ) (fresh : Packet) (r : Posted) (now : ℕ)
        (what : Completion) (n : ℕ) (t : SessionTable) (a : A) (i : ℕ)
        → P a
        → Ensures (worker_round on_recv room fuel fresh r now what n t a i) (λ r. P r.1)
    unfolding worker_round
    worker_round-keeps room fuel fresh r now recv_done n t a i h =
        map_Ensures (recv_complete on_recv fuel fresh r now n t a i) _ (λ r. P r.1) (λ r. P r.1)
          (λ r k. k) (recv_complete-keeps fuel fresh r now n t a i h)
    worker_round-keeps room fuel fresh r now send_done n t a i h = h

  pub accept_round-keeps :
      (joined : SessionTable → A → ℕ → Outcome (SessionTable × A))
      → ((t : SessionTable) (a : A) (sid : ℕ) → P a → Ensures (joined t a sid) (λ r. P r.1))
      → (max : ℕ) (allowed : Bool) (r : Posted) (sock now : ℕ) (t : SessionTable) (a : A) → P a
      → Ensures (accept_round joined max allowed r sock now t a) (λ r. P r.1)
  unfolding accept_round
  accept_round-keeps joined keeps max allowed r sock now t a h =
      if_Ensures (not (ltb t.session_count max)) _ _ (λ r. P r.1) (λ e. h)
        (λ e.
          if_Ensures allowed _ _ (λ r. P r.1)
            (λ f.
              then_Ensures (create_session sock now t) _ (λ r. P r.1)
                (λ (u, i).
                  map_Ensures (joined u a (u.slots i).session_id) _ (λ r. P r.1) (λ r. P r.1)
                    (λ r k. k) (keeps u a (u.slots i).session_id h)))
            (λ f. h))
