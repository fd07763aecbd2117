-- ===== src/IocpServer/Frames/Limits.antt =====
-- The cutting of frames on any bytes at all: it ends, and what it does with a bad header.
use chatting_server.Base.{
  ℕ, zero, suc, ◌+◌, ◌-◌, ◌≤◌, ◌<◌, ◌≡◌, ◌≢◌, refl, Bool, true, false, List, [], ◌++◌, length,
  arith, ap, sym, ◌∙◌, inl, inr, lt→ltb, ltb, ltb→le, Bool-cases, subst, ◌==◌, length-append,
  if◌then◌else◌, min,
}
use chatting_server.Base.Outcome.{Outcome, done, overrun, timed_out, ◌>>=◌}
use chatting_server.RingBuffer.{RingBuffer, use_size, peek, dequeue, move_front}
use chatting_server.RingBuffer.Invariant.{IsValid}
use chatting_server.RingBuffer.Contents.{contents, length-contents}
use chatting_server.RingBuffer.Transfer.{dequeue_refines}
use chatting_server.RingBuffer.Receive.{peek-move_front}
use chatting_server.Packet.{Packet, header_size, alloc, clear}
use chatting_server.Packet.Coding.{packet_code, header_of, set_decoding_code, set_message_header}
use chatting_server.IocpServer.Frames.{
  Verdict, wait, cut, got, Ending, drained, disconnected, fill, accept, recv_step, recv_loop,
  with_packet,
}
use chatting_server.IocpServer.Frames.Step.{dequeue-known, recv_step-accept, cleared}

set_decoding_code-ne-timed_out : (p : Packet) → set_decoding_code p ≢ timed_out
unfolding set_decoding_code
set_decoding_code-ne-timed_out p e = ground arith

-- Taking bytes off.
dequeue-shorter :
    {r : RingBuffer} (n : ℕ)
    → IsValid r
    → IsValid (dequeue r n).0 × (use_size (dequeue r n).0 ≡ use_size r - min n (use_size r))
dequeue-shorter {r} n v =
    let (count, size, split, kept) = dequeue_refines {r = r} n v in
    (
      kept,
      omega (
        arith,
        ap length split,
        length-append (dequeue r n).1 (contents (dequeue r n).0),
        length-contents r,
        length-contents (dequeue r n).0,
      ),
    )

-- The ring that a round leaves once it has taken the payload off.
abbrev Leaves : RingBuffer → Outcome (RingBuffer × Verdict) → Type 0
Leaves r timed_out = ⊥
Leaves r overrun = Unit {0}
Leaves r (done (r', wait)) = ⊥
Leaves r (done (r', cut)) = r' ≡ r
Leaves r (done (r', got p)) = r' ≡ r

decoded-Leaves :
    (r : RingBuffer) (out : Outcome (Packet × Bool))
    → out ≢ timed_out
    → Leaves r (out >>= λ (opened, good). if good then done (r, got opened) else done (r, cut))
decoded-Leaves r (done (opened, true)) h = refl
decoded-Leaves r (done (opened, false)) h = refl
decoded-Leaves r overrun h = tt
decoded-Leaves r timed_out h = absurd (h refl)

accept-Leaves : (p : Packet) (r : RingBuffer) (len : ℕ) → Leaves (dequeue r len).0 (accept p r len)
unfolding accept fill
accept-Leaves p r len =
    let d : RingBuffer × List ℕ × ℕ = dequeue r len in
    elim (Bool-cases (ltb p.max_size (header_size + d.2))) [
      | inl past ↦ rw past tt
      | inr room ↦ elim (Bool-cases (len == d.2)) [
        | inl all ↦ rw (room, all) (decoded-Leaves d.0 _ (set_decoding_code-ne-timed_out _))
        | inr some_only ↦ rw (room, some_only) refl
      ]
    ]

-- What a round may come to: the ring as it was, or shorter if a packet is handed over.
abbrev pub Progress : RingBuffer → Outcome (RingBuffer × Verdict) → Type 0
Progress r timed_out = ⊥
Progress r overrun = Unit {0}
Progress r (done (r', wait)) = r' ≡ r
Progress r (done (r', cut)) = Unit {0}
Progress r (done (r', got p)) = IsValid r' × (use_size r' < use_size r)

Leaves-Progress :
    (r : RingBuffer) {r1 : RingBuffer} (out : Outcome (RingBuffer × Verdict))
    → IsValid r1
    → use_size r1 < use_size r
    → Leaves r1 out
    → Progress r out
Leaves-Progress r timed_out v less l = l
Leaves-Progress r overrun v less l = tt
Leaves-Progress r (done (r', wait)) v less l = absurd l
Leaves-Progress r (done (r', cut)) v less l = tt
Leaves-Progress r {r1} (done (r', got p)) v less l =
    (subst IsValid (sym l) v, subst (λ x. use_size x < use_size r) (sym l) less)

accept-Progress :
    (p : Packet) {r : RingBuffer} (len : ℕ)
    → IsValid r
    → 0 < len
    → header_size + len ≤ use_size r
    → Progress r (accept p (move_front r header_size).0 len)
accept-Progress p {r} len v pos held =
    let same : (move_front r header_size).0 ≡ (dequeue r header_size).0 =
      (peek-move_front r header_size).1 in
    let (v1, size1) = dequeue-shorter header_size v in
    let (v2, size2) = dequeue-shorter {r = (dequeue r header_size).0} len v1 in
    rw same (
      Leaves-Progress r (accept p (dequeue r header_size).0 len) v2 (omega (arith, size1, size2))
        (accept-Leaves p (dequeue r header_size).0 len))

pub recv_step-Progress :
    (fresh : Packet) {r : RingBuffer} → IsValid r → Progress r (recv_step fresh r)
unfolding recv_step
recv_step-Progress fresh {r} v =
    let bytes : List ℕ = (peek r header_size).0 in
    let len : ℕ = (header_of bytes).len in
    elim (Bool-cases (ltb (use_size r) header_size)) [
      | inl few ↦ rw few refl
      | inr more ↦ elim (Bool-cases ((header_of bytes).code == packet_code)) [
        | inr other ↦ rw (more, other) tt
        | inl code ↦ elim (Bool-cases (len == 0)) [
          | inl empty ↦ rw (more, code, empty) tt
          | inr some_bytes ↦ elim (Bool-cases (ltb (use_size r) (header_size + len))) [
            | inl part ↦ rw (more, code, some_bytes, part) refl
            | inr whole ↦
                rw (more, code, some_bytes, whole)
                  (accept-Progress _ len v (ground arith) (ltb→le _ _ whole))
          ]
        ]
      ]
    ]

-- What the loop does after a round.
abbrev pub go_on : ℕ → Packet → RingBuffer × Verdict → Outcome (RingBuffer × List Packet × Ending)
go_on fuel fresh = λ (r', verdict). elim verdict [
  | wait ↦ done (r', [], drained)
  | cut ↦ done (r', [], disconnected)
  | got p ↦ recv_loop fuel fresh r' >>= λ rest. done (with_packet p rest)
]

loop-ends :
    (fuel : ℕ) (fresh : Packet) (r : RingBuffer) (out : Outcome (RingBuffer × Verdict))
    → Progress r out
    → ((r' : RingBuffer)
        → IsValid r'
        → use_size r' < use_size r
        → recv_loop fuel fresh r' ≢ timed_out)
    → (out >>= go_on fuel fresh) ≢ timed_out
loop-ends fuel fresh r timed_out h rest e = h
loop-ends fuel fresh r overrun h rest e = cc
loop-ends fuel fresh r (done (r', wait)) h rest e = cc
loop-ends fuel fresh r (done (r', cut)) h rest e = cc
loop-ends fuel fresh r (done (r', got p)) (v, less) rest e =
    rest r' v less (bind-timed_out (recv_loop fuel fresh r') (with_packet p) e)
  where
    bind-timed_out :
        (out : Outcome (RingBuffer × List Packet × Ending))
        (f : RingBuffer × List Packet × Ending → RingBuffer × List Packet × Ending)
        → (out >>= λ x. done (f x)) ≡ timed_out
        → out ≡ timed_out
    bind-timed_out timed_out f e = refl
    bind-timed_out overrun f e = cc
    bind-timed_out (done x) f e = cc

-- The cutting of frames ends on any bytes that the ring may hold: one round more than there are bytes is
-- enough.
pub recv_loop-ends :
    (fuel : ℕ) (fresh : Packet) {r : RingBuffer}
    → IsValid r
    → use_size r < fuel
    → recv_loop fuel fresh r ≢ timed_out
unfolding recv_loop
recv_loop-ends zero fresh v h = absurd (omega arith)
recv_loop-ends (suc fuel) fresh {r} v h =
    loop-ends fuel fresh r (recv_step fresh r) (recv_step-Progress fresh v)
      (λ r' v' less. recv_loop-ends fuel fresh {r = r'} v' (omega arith))

accept-overrun :
    (p : Packet) (r : RingBuffer) (len : ℕ)
    → p.max_size < header_size + (dequeue r len).2
    → accept p r len ≡ overrun
unfolding accept fill
accept-overrun p r len past = rw (lt→ltb p.max_size (header_size + (dequeue r len).2) past)

-- A frame whose length is more than the packet has room for, and that has arrived whole, is copied
-- past the end of the packet's block: nothing compares the length with that room.
pub recv_step-overrun :
    (fresh : Packet) {r : RingBuffer} (hb rest : List ℕ)
    → IsValid r
    → contents r ≡ hb ++ rest
    → length hb ≡ header_size
    → (header_of hb).code ≡ packet_code
    → 0 < (header_of hb).len
    → (header_of hb).len ≤ length rest
    → fresh.max_size < header_size + (header_of hb).len
    → recv_step fresh r ≡ overrun
recv_step-overrun fresh {r} hb rest v begins five code pos arrived long =
    let (r1, taken, left, kept) = dequeue-known hb rest v begins in
    let took : dequeue r header_size ≡ (r1, hb, header_size) =
      subst (λ k. dequeue r k ≡ (r1, hb, k)) five taken in
    let len : ℕ = (header_of hb).len in
    let (count, _, _, _) = dequeue_refines {r = r1} len kept in
    let all : (dequeue r1 len).2 ≡ len = omega (arith, count, ap length left) in
    recv_step-accept fresh r r1 hb (header_of hb)
      (ap (λ t. t.0) (peek-move_front r header_size).0 ∙ ap (λ t. t.1) took)
      ((peek-move_front r header_size).1 ∙ ap (λ t. t.0) took) refl code pos
      (omega (arith, length-contents r, ap length begins, length-append hb rest))
    ∙ accept-overrun (cleared fresh hb) r1 len
        (unfold cleared set_message_header clear alloc in (omega (arith, all)))
