-- ===== src/IocpServer/Frames/Step.antt =====
-- One round of the receive loop on a ring that begins with a whole frame.
use chatting_server.Base.{
  ℕ, ◌+◌, ◌≤◌, ◌<◌, ◌≡◌, refl, false, List, ◌++◌, length, arith, ap, ap₂, sym, ◌∙◌, le→ltb,
  append_inj, ==_refl, length-append, append_assoc, ◌==◌, length-replicate, subst, replicate, inl,
}
use chatting_server.Base.Arrays.{
  write_bytes, read_bytes, length-write_bytes, read_bytes-write_bytes_self,
  read_bytes-write_bytes_apart,
}
use chatting_server.Base.Outcome.{done}
use chatting_server.RingBuffer.{RingBuffer, use_size, peek, move_front, dequeue}
use chatting_server.RingBuffer.Invariant.{IsValid}
use chatting_server.RingBuffer.Contents.{contents, length-contents}
use chatting_server.RingBuffer.Transfer.{dequeue_refines}
use chatting_server.RingBuffer.Receive.{peek-move_front}
use chatting_server.Packet.{Packet, header_size, alloc, clear, move_write_pos}
use chatting_server.Packet.Buffer
use chatting_server.Packet.Buffer.{payload}
use chatting_server.Packet.Cipher.{encrypt, length-encrypt}
use chatting_server.Packet.Coding.{
  PacketHeader, packet_code, header_of, header_bytes, set_message_header, wire_bytes,
}
use chatting_server.Packet.Coding.Frame.{frame, frame_header, header_of-header_bytes}
use chatting_server.Packet.Coding.RoundTrip.{set_decoding_code-frame}
use chatting_server.IocpServer.Frames.{got, fill, accept, recv_step}

-- Taking `n` bytes off a ring that begins with `n` known bytes.
pub dequeue-known :
    {r : RingBuffer} (head rest : List ℕ)
    → IsValid r
    → contents r ≡ head ++ rest
    → (r' : RingBuffer) × (dequeue r (length head) ≡ (r', head, length head))
      × (contents r' ≡ rest)
      × IsValid r'
dequeue-known {r} head rest v begins =
    let (count, size, split, kept) = dequeue_refines {r = r} (length head) v in
    let taken : (dequeue r (length head)).2 ≡ length head =
      omega (arith, count, ap length begins, length-append head rest) in
    let same : ((dequeue r (length head)).1 ≡ head)
        × (contents (dequeue r (length head)).0 ≡ rest) =
      append_inj _ head _ rest (size ∙ taken) (split ∙ begins) in
    (
      (dequeue r (length head)).0,
      (λ i. ((dequeue r (length head)).0, same.0 i, taken i)),
      same.1,
      kept,
    )

fill_lem :
    (p : Packet) (r r' : RingBuffer) (cs : List ℕ) (n : ℕ)
    → dequeue r n ≡ (r', cs, n)
    → header_size + n ≤ p.max_size
    → fill r p n ≡ done (r', record p { block = write_bytes p.block header_size cs }, n)
unfolding fill
fill_lem p r r' cs n taken room = rw (taken, le→ltb p.max_size (header_size + n) room)

-- A packet with `n` bytes stored behind its write position, which is moved past them.
abbrev loaded : Packet → List ℕ → ℕ → Packet
loaded p cs n = record p {
  block = write_bytes p.block header_size cs;
  rear = p.rear + n;
  using_size = p.using_size + n;
}

move_write_pos-loaded :
    (p : Packet) (cs : List ℕ) (n : ℕ)
    → 0 < n
    → p.using_size + n ≤ p.max_size
    → (move_write_pos (record p { block = write_bytes p.block header_size cs }) n).0 ≡ loaded p cs n
unfolding move_write_pos
move_write_pos-loaded p cs n pos room = ground arith

module _ {p : Packet} (key : ℕ) (plain : List ℕ) (pv : Buffer.IsValid p) (start : p.front ≡ 0)
    (empty : p.using_size ≡ 0)
    (header : read_bytes p.block 0 header_size ≡ header_bytes (frame_header key plain))
    (room : header_size + length plain ≤ p.max_size) where
  abbrev cs : List ℕ
  cs = encrypt key 0 0 0 plain

  size : length cs ≡ length plain
  size = length-encrypt key 0 0 0 plain

  loaded-IsValid : Buffer.IsValid (loaded p cs (length plain))
  loaded-IsValid = record {
    storage = length-write_bytes p.block header_size cs ∙ pv.storage;
    inside = omega arith;
    counted = omega arith;
  }

  wire_bytes-loaded : wire_bytes (loaded p cs (length plain)) ≡ frame key plain
  unfolding wire_bytes frame
  wire_bytes-loaded =
      ap₂ ◌++◌
        (read_bytes-write_bytes_apart p.block header_size cs 0 header_size (inl (omega arith))
          ∙ header)
        (ap (read_bytes (write_bytes p.block header_size cs) header_size) (omega (arith, size))
          ∙ read_bytes-write_bytes_self p.block header_size cs (omega (arith, size)))

-- From the filling of a cleared packet to the end of the round.
pub accept-frame :
    {p : Packet} {r : RingBuffer} (key : ℕ) (plain rest : List ℕ)
    → Buffer.IsValid p
    → p.front ≡ 0
    → p.using_size ≡ 0
    → read_bytes p.block 0 header_size ≡ header_bytes (frame_header key plain)
    → IsValid r
    → contents r ≡ encrypt key 0 0 0 plain ++ rest
    → 0 < length plain
    → length plain < 65536
    → header_size + length plain ≤ p.max_size
    → (r' : RingBuffer) × (q : Packet) × (accept p r (length plain) ≡ done (r', got q))
      × (payload q ≡ plain)
      × (contents r' ≡ rest)
      × IsValid r'
      × Buffer.IsValid q
unfolding accept
accept-frame {p} {r} key plain rest pv start empty header v begins some_bytes short room =
    let n : ℕ = length plain in
    let ks : List ℕ = encrypt key 0 0 0 plain in
    let (r', taken, left, kept) = dequeue-known ks rest v begins in
    let took : dequeue r n ≡ (r', ks, n) =
      subst (λ k. dequeue r k ≡ (r', ks, k)) (length-encrypt key 0 0 0 plain) taken in
    let (q, opens, found, good) =
      set_decoding_code-frame {p = loaded p ks n} key plain
        (loaded-IsValid key plain pv start empty header room) start short
        (wire_bytes-loaded key plain pv start empty header room) in
    (
      r',
      q,
      rw (
        fill_lem p r r' ks n took room,
        ==_refl n,
        move_write_pos-loaded p ks n some_bytes (omega arith),
        opens,
      ),
      found,
      left,
      kept,
      good,
    )

-- The packet that a frame goes into: cleared, with the header copied in.
unfoldable pub cleared : Packet → List ℕ → Packet
cleared fresh hb = set_message_header (clear (alloc fresh)) hb

cleared-IsValid :
    (fresh : Packet) (hb : List ℕ)
    → header_size ≤ fresh.max_size
    → Buffer.IsValid (cleared fresh hb)
unfolding cleared set_message_header clear alloc
cleared-IsValid fresh hb h = record {
  storage = length-write_bytes _ 0 hb ∙ length-replicate fresh.max_size 0;
  inside = omega arith;
  counted = omega arith;
}

cleared-header :
    (fresh : Packet) (hb : List ℕ)
    → header_size ≤ fresh.max_size
    → length hb ≡ header_size
    → read_bytes (cleared fresh hb).block 0 header_size ≡ hb
unfolding cleared set_message_header clear alloc
cleared-header fresh hb h five =
    ap (read_bytes (write_bytes (replicate fresh.max_size 0) 0 hb) 0) (sym five)
    ∙ read_bytes-write_bytes_self (replicate fresh.max_size 0) 0 hb
        (omega (arith, five, length-replicate {A = ℕ} fresh.max_size 0))

-- The tests of a round, passed.
pub recv_step-accept :
    (fresh : Packet) (r r1 : RingBuffer) (hb : List ℕ) (h : PacketHeader)
    → (peek r header_size).0 ≡ hb
    → (move_front r header_size).0 ≡ r1
    → header_of hb ≡ h
    → h.code ≡ packet_code
    → 0 < h.len
    → header_size + h.len ≤ use_size r
    → recv_step fresh r ≡ accept (cleared fresh hb) r1 h.len
unfolding recv_step cleared
recv_step-accept fresh r r1 hb h peeked moved known code some_bytes held =
    rw (peeked, moved, known, code, le→ltb (use_size r) header_size (omega arith))
      (rw (le→ltb (use_size r) (header_size + h.len) held, not_zero h.len some_bytes))
  where
    not_zero : (n : ℕ) → 0 < n → (n == 0) ≡ false
    not_zero n pos = ground arith

-- A ring that begins with a whole frame, whose payload is not empty and fits a packet: the round
-- hands the payload over and leaves the ring with the bytes behind the frame.
pub recv_step-frame :
    (fresh : Packet) {r : RingBuffer} (key : ℕ) (plain rest : List ℕ)
    → IsValid r
    → contents r ≡ frame key plain ++ rest
    → 0 < length plain
    → length plain < 65536
    → header_size + length plain ≤ fresh.max_size
    → (r' : RingBuffer) × (q : Packet) × (recv_step fresh r ≡ done (r', got q))
      × (payload q ≡ plain)
      × (contents r' ≡ rest)
      × IsValid r'
      × Buffer.IsValid q
recv_step-frame fresh {r} key plain rest v begins some_bytes short room =
    let hb : List ℕ = header_bytes (frame_header key plain) in
    let ks : List ℕ = encrypt key 0 0 0 plain in
    let five : length hb ≡ header_size = unfold header_bytes in refl in
    let parts : contents r ≡ hb ++ (ks ++ rest) =
      begins ∙ unfold frame in append_assoc hb ks rest in
    let (r1, taken, left, kept) = dequeue-known hb (ks ++ rest) v parts in
    let took : dequeue r header_size ≡ (r1, hb, header_size) =
      subst (λ k. dequeue r k ≡ (r1, hb, k)) five taken in
    let held : use_size r ≡ header_size + (length plain + length rest) = omega (
      arith,
      length-contents r,
      ap length parts,
      length-append hb (ks ++ rest),
      length-append ks rest,
      length-encrypt key 0 0 0 plain,
      five,
    ) in
    let peeked : (peek r header_size).0 ≡ hb =
      ap (λ t. t.0) ((peek-move_front r header_size).0) ∙ ap (λ t. t.1) took in
    let moved : (move_front r header_size).0 ≡ r1 =
      (peek-move_front r header_size).1 ∙ ap (λ t. t.0) took in
    let known : header_of hb ≡ frame_header key plain =
      header_of-header_bytes (frame_header key plain) (unfold frame_header in short) in
    let (r', q, runs, found, behind, good, sound) =
      accept-frame {p = cleared fresh hb} key plain rest (cleared-IsValid fresh hb (omega arith))
        (unfold cleared set_message_header clear alloc in refl)
        (unfold cleared set_message_header clear alloc in refl)
        (cleared-header fresh hb (omega arith) five) kept left some_bytes short
        (unfold cleared set_message_header clear alloc in room) in
    let entered : recv_step fresh r ≡ accept (cleared fresh hb) r1 (length plain) =
      unfold frame_header in
      (recv_step-accept fresh r r1 hb (frame_header key plain) peeked moved known refl some_bytes
        (omega (arith, held))) in
    (r', q, entered ∙ runs, found, behind, good, sound)
