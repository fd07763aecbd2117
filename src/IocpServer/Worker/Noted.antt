-- ===== src/IocpServer/Worker/Noted.antt =====
-- The loop of `RecvComplete` (ConsoleApplication2/IOCPServer.cpp) under a handler that only notes the
-- packets it gets: what `recv_loop` of Frames speaks of.
use chatting_server.Base.{
  ℕ, zero, suc, ◌≡◌, refl, ap, ap₂, sym, subst, List, [], ◌∷◌, ◌++◌, append-nil, append_assoc,
  arith, ◌∙◌,
}
use chatting_server.Base.Maps.{update_hit}
use chatting_server.Base.Outcome.{Outcome, done, overrun, timed_out, ◌>>=◌}
use chatting_server.RingBuffer.{RingBuffer}
use chatting_server.RingBuffer.Invariant.{IsValid}
use chatting_server.Packet.{Packet}
use chatting_server.IocpServer.Frames.{
  Verdict, Ending, wait, cut, got, recv_step, recv_loop, drained, disconnected, with_packet,
}
use chatting_server.IocpServer.Frames.Limits.{Progress, recv_step-Progress, go_on}
use chatting_server.IocpServer.Sessions.{Session, SessionTable}
use chatting_server.IocpServer.Worker.{counted, with_ring, recv_rounds}
use chatting_server.IocpServer.Worker.Keeps.{after_step}

abbrev pub noted : SessionTable → List Packet → ℕ → Packet → Outcome (SessionTable × List Packet)
noted t ps sid p = done (t, ps ++ p ∷ [])

-- The rounds leave the ring, the packets behind those noted before, and the ending.
abbrev pub Notes :
    ℕ
    → List Packet
    → RingBuffer × List Packet × Ending
    → Outcome (SessionTable × List Packet × Ending)
    → Type 0
Notes i before (r, ps, e) out =
    (u : SessionTable) × (out ≡ done (u, before ++ ps, e)) × ((u.slots i).recv_buf ≡ r)

done-same {ℓ} : {A : Type ℓ} {a b : A} → done a ≡ done b → a ≡ b
done-same e = ground arith

bind-done {ℓ κ} :
    {A : Type ℓ} {B : Type κ} (out : Outcome A) (f : A → B) {x : B}
    → (out >>= λ y. done (f y)) ≡ done x
    → (y : A) × (out ≡ done y) × (f y ≡ x)
bind-done (done y) f e = (y, refl, done-same e)
bind-done overrun f e = cc
bind-done timed_out f e = cc

module _ (i : ℕ) (fresh : Packet) where
  update_ring :
      (t : SessionTable) (ring : RingBuffer) → ((with_ring t i ring).slots i).recv_buf ≡ ring
  update_ring t ring =
      ap Session.recv_buf (update_hit t.slots i (record (t.slots i) { recv_buf = ring }))

  after_step-Notes :
      (fuel : ℕ) (t : SessionTable) (before : List Packet) (out : Outcome (RingBuffer × Verdict))
      (x : RingBuffer × List Packet × Ending)
      → Progress (t.slots i).recv_buf out
      → ((u : SessionTable) (b : List Packet) (y : RingBuffer × List Packet × Ending)
          → IsValid (u.slots i).recv_buf
          → recv_loop fuel fresh (u.slots i).recv_buf ≡ done y
          → Notes i b y (recv_rounds noted fuel fresh u b i))
      → (out >>= go_on fuel fresh) ≡ done x
      → Notes i before x (out >>= after_step noted fuel fresh t before i)
  after_step-Notes fuel t before timed_out x h rest e = absurd h
  after_step-Notes fuel t before overrun x h rest e = cc
  after_step-Notes fuel t before (done (ring, wait)) (r, ps, k) h rest e =
      let same : (ring, [], drained) ≡ (r, ps, k) = done-same e in
      (
        t,
        ap₂ (λ l m. done (t, l, m)) (sym (append-nil before) ∙ ap (λ z. before ++ z.1) same)
            (ap (λ z. z.2) same),
        sym h ∙ ap (λ z. z.0) same,
      )
  after_step-Notes fuel t before (done (ring, cut)) (r, ps, k) h rest e =
      let same : (ring, [], disconnected) ≡ (r, ps, k) = done-same e in
      (
        with_ring t i ring,
        ap₂ (λ l m. done (with_ring t i ring, l, m))
            (sym (append-nil before) ∙ ap (λ z. before ++ z.1) same) (ap (λ z. z.2) same),
        update_ring t ring ∙ ap (λ z. z.0) same,
      )
  after_step-Notes fuel t before (done (ring, got p)) x (v, less) rest e =
      let (y, loops, same) = bind-done (recv_loop fuel fresh ring) (with_packet p) e in
      let u : SessionTable = counted (with_ring t i ring) in
      let at : (u.slots i).recv_buf ≡ ring = update_ring t ring in
      let (w, runs, left) =
        rest u (before ++ p ∷ []) y (subst IsValid (sym at) v)
          (ap (recv_loop fuel fresh) at ∙ loops) in
      subst (λ z. Notes i before z (recv_rounds noted fuel fresh u (before ++ p ∷ []) i)) same
        (w, runs ∙ ap (λ l. done (w, l, y.2)) (append_assoc before (p ∷ []) y.1), left)

  -- On a ring that is valid, the loop with a handler that only notes the packets notes those that
  -- `recv_loop` hands over, in order, behind the others, and leaves the ring that it leaves.
  pub recv_rounds-noted :
      (fuel : ℕ) (t : SessionTable) (before : List Packet) (x : RingBuffer × List Packet × Ending)
      → IsValid (t.slots i).recv_buf
      → recv_loop fuel fresh (t.slots i).recv_buf ≡ done x
      → Notes i before x (recv_rounds noted fuel fresh t before i)
  unfolding recv_rounds recv_loop
  recv_rounds-noted zero t before x v e = cc
  recv_rounds-noted (suc fuel) t before x v e =
      after_step-Notes fuel t before (recv_step fresh (t.slots i).recv_buf) x
        (recv_step-Progress fresh v) (recv_rounds-noted fuel) e
