-- ===== src/IocpServer/Frames/Stream.antt =====
-- The receive loop on any sequence of whole frames with an unfinished one behind them.
use chatting_server.Base.{
  ℕ, zero, suc, ◌+◌, ◌≤◌, ◌<◌, ◌≡◌, refl, List, [], ◌∷◌, ◌++◌, length, map, arith, ap, ap₂, sym,
  ◌∙◌, ◌⊎◌, inl, inr, lt→ltb, ltb, ltb→le, Bool-cases, append_assoc, take, drop, take-append-drop,
  subst, length-take, ◌==◌, false,
}
use chatting_server.Base.Outcome.{done}
use chatting_server.RingBuffer.{RingBuffer, use_size, peek, dequeue}
use chatting_server.RingBuffer.Invariant.{IsValid}
use chatting_server.RingBuffer.Contents.{contents, length-contents}
use chatting_server.RingBuffer.Receive.{peek-move_front}
use chatting_server.Packet.{Packet, header_size}
use chatting_server.Packet.Buffer
use chatting_server.Packet.Buffer.{payload}
use chatting_server.Packet.Coding.{packet_code, header_of}
use chatting_server.Packet.Coding.Frame.{frame}
use chatting_server.IocpServer.Frames.{wait, drained, recv_step, recv_loop}
use chatting_server.IocpServer.Frames.Step.{dequeue-known, recv_step-frame}

-- A message on the wire: the key drawn for it and its payload.
abbrev pub Message : Type 0
Message = ℕ × List ℕ

unfoldable pub stream : List Message → List ℕ
stream [] = []
stream ((key, plain) ∷ ms) = frame key plain ++ stream ms

-- Payloads that are not empty and fit the packet.
abbrev pub Sendable : Packet → List Message → Type 0
Sendable fresh [] = Unit {0}
Sendable fresh ((key, plain) ∷ ms) =
    ((0 < length plain) × (length plain < 65536) × (header_size + length plain ≤ fresh.max_size))
    × Sendable fresh ms

-- Fewer bytes than a header, or a good header and fewer bytes than it announces.
abbrev pub Unfinished : List ℕ → Type 0
Unfinished bs =
    (length bs < header_size)
    ⊎ (((header_of (take header_size bs)).code ≡ packet_code)
        × (0 < (header_of (take header_size bs)).len)
        × (length bs < header_size + (header_of (take header_size bs)).len))

-- With a header's worth of bytes in the ring, `Peek` shows the first five.
pub peek-header :
    {r : RingBuffer}
    → IsValid r
    → header_size ≤ use_size r
    → (peek r header_size).0 ≡ take header_size (contents r)
peek-header {r} v h =
    let five : length (take header_size (contents r)) ≡ header_size =
      omega (arith, length-take header_size (contents r), length-contents r) in
    let (r1, taken, _, _) =
      dequeue-known (take header_size (contents r)) (drop header_size (contents r)) v
        (sym (take-append-drop header_size (contents r))) in
    let took : dequeue r header_size ≡ (r1, take header_size (contents r), header_size) =
      subst (λ k. dequeue r k ≡ (r1, take header_size (contents r), k)) five taken in
    ap (λ t. t.0) (peek-move_front r header_size).0 ∙ ap (λ t. t.1) took

-- On an unfinished frame the round waits, and leaves the ring as it is.
pub recv_step-Unfinished :
    (fresh : Packet) {r : RingBuffer}
    → IsValid r
    → Unfinished (contents r)
    → recv_step fresh r ≡ done (r, wait)
unfolding recv_step
recv_step-Unfinished fresh {r} v u = elim (Bool-cases (ltb (use_size r) header_size)) [
  | inl few ↦ rw few
  | inr more ↦ elim u [
    | inl few ↦ absurd (omega (arith, length-contents r, ltb→le _ _ more))
    | inr (code, pos, part) ↦
        rw (more, peek-header v (ltb→le _ _ more), code)
          (rw (
            not_zero _ pos,
            lt→ltb (use_size r) (header_size + (header_of (take header_size (contents r))).len)
                (omega (arith, length-contents r)),
          ))
  ]
]
  where
    not_zero : (n : ℕ) → 0 < n → (n == 0) ≡ false
    not_zero n pos = ground arith

-- Packets in order inside
abbrev pub Delivered : List Packet → Type 0
Delivered [] = Unit {0}
Delivered (p ∷ ps) = Buffer.IsValid p × Delivered ps

-- From a ring that holds whole frames and an unfinished one, the loop hands over the payloads of the
-- whole frames, all of them and in their order, in valid packets, keeps the unfinished one in the ring for the next
-- completion, and does not disconnect the session.
pub recv_loop-stream :
    (fuel : ℕ) (fresh : Packet) (ms : List Message) (tail : List ℕ) {r : RingBuffer}
    → IsValid r
    → length ms < fuel
    → Sendable fresh ms
    → Unfinished tail
    → contents r ≡ stream ms ++ tail
    → (r' : RingBuffer) × (ps : List Packet) × (recv_loop fuel fresh r ≡ done (r', ps, drained))
      × (map payload ps ≡ map (λ m. m.1) ms)
      × (contents r' ≡ tail)
      × IsValid r'
      × Delivered ps
unfolding recv_loop stream
recv_loop-stream zero fresh ms tail v h s u e = absurd (omega arith)
recv_loop-stream (suc fuel) fresh [] tail {r} v h s u e =
    (r, [], rw (recv_step-Unfinished fresh v (subst Unfinished (sym e) u)), refl, e, v, tt)
recv_loop-stream (suc fuel) fresh ((key, plain) ∷ ms) tail {r} v h ((pos, short, room), s) u e =
    let (r1, p, runs, found, left, kept, sound) =
      recv_step-frame fresh key plain (stream ms ++ tail) v
        (e ∙ append_assoc (frame key plain) (stream ms) tail) pos short room in
    let (r', ps, loops, all, behind, good, rest) =
      recv_loop-stream fuel fresh ms tail kept (omega arith) s u left in
    (r', p ∷ ps, rw (runs, loops), ap₂ ◌∷◌ found all, behind, good, (sound, rest))
