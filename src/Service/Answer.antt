-- ===== src/Service/Answer.antt =====
-- A request on its way through the server, ConsoleApplication2/IOCPServer.cpp and ChatServer.cpp: from
-- the bytes that arrive to the bytes of the answer.
use chatting_server.Base.{
  suc, ◌-◌, ℕ, ◌+◌, ◌%◌, ◌^◌, ◌≤◌, ◌<◌, ◌≡◌, refl, sym, ap, subst, ◌==◌, Bool, true, false, List,
  [], ◌∷◌, ◌++◌, length, some, arith, append-nil, length-append, inl, ◌∙◌,
}
use chatting_server.Base.Maps.{find, update_hit}
use chatting_server.Base.Outcome.{Outcome, done, ◌>>=◌}
use chatting_server.RingBuffer.{RingBuffer, move_rear}
use chatting_server.RingBuffer.Invariant
use chatting_server.RingBuffer.Contents.{contents}
use chatting_server.Packet.{Packet, header_size, add_ref}
use chatting_server.Packet.Buffer
use chatting_server.Packet.Buffer.{payload}
use chatting_server.Packet.Value.{bytes_of, length-bytes_of}
use chatting_server.Packet.Coding.{wire_bytes}
use chatting_server.Packet.Coding.Frame.{frame}
use chatting_server.IocpServer.Frames.{wait, got, recv_step}
use chatting_server.IocpServer.Frames.Step.{recv_step-frame}
use chatting_server.IocpServer.Frames.Stream.{Unfinished, recv_step-Unfinished}
use chatting_server.IocpServer.Sessions.{Session, SessionTable, session_index}
use chatting_server.IocpServer.Sending.{loaded}
use chatting_server.IocpServer.Sending.Idle.{Idle, sending}
use chatting_server.IocpServer.Worker.{counted, received, recv_done}
use chatting_server.IocpServer.Worker.Receive.{arrived, cut_up, worker_round-one}
use chatting_server.ChatServer.Sector.{is_valid_sector}
use chatting_server.ChatServer.Lifecycle.Invariant.{IsValid}
use chatting_server.ChatServer.Respond.{Surroundings}
use chatting_server.ChatServer.Respond.Wire.{move_body}
use chatting_server.ChatServer.Requests.{Garbage}
use chatting_server.Service.{Chat, leave, receive, serve}
use chatting_server.Service.Move.{move_request, moved}
use chatting_server.Service.Reply.{good_network, leave-nobody, given, receive-move}

-- What `given` queues is on the wire as the handler sealed it.
wire_bytes-add_ref : (q : Packet) → wire_bytes (add_ref q) ≡ wire_bytes q
unfolding wire_bytes add_ref
wire_bytes-add_ref q = refl

length-move_request : (account x y : ℕ) → length (move_request account x y) ≡ 14
length-move_request account x y = omega (
  arith,
  length-append (bytes_of 2 3) (bytes_of 8 account ++ (bytes_of 2 x ++ (bytes_of 2 y ++ []))),
  length-append (bytes_of 8 account) (bytes_of 2 x ++ (bytes_of 2 y ++ [])),
  length-append (bytes_of 2 x) (bytes_of 2 y ++ []),
  length-append (bytes_of 2 y) [],
  length-bytes_of 2 3,
  length-bytes_of 8 account,
  length-bytes_of 2 x,
  length-bytes_of 2 y,
)

-- One frame in the ring gives one packet, and the next round waits.
frame-one :
    (fresh : Packet) (key : ℕ) (plain : List ℕ) {ring : RingBuffer}
    → Invariant.IsValid ring
    → 0 < length plain
    → length plain < 65536
    → header_size + length plain ≤ fresh.max_size
    → contents ring ≡ frame key plain
    → (r : RingBuffer) × (p : Packet) × (recv_step fresh ring ≡ done (r, got p))
      × (recv_step fresh r ≡ done (r, wait))
      × (payload p ≡ plain)
      × Buffer.IsValid p
      × (contents r ≡ [])
frame-one fresh key plain {ring} v some_bytes short space framed =
    let (r, p, runs, said, behind, kept, good) =
      recv_step-frame fresh key plain [] v (framed ∙ sym (append-nil _)) some_bytes short space in
    (
      r,
      p,
      runs,
      recv_step-Unfinished fresh kept (subst Unfinished (sym behind) (inl (omega arith))),
      said,
      good,
      behind,
    )

-- A round of a worker whose handler answers one packet
serve-one :
    (room : List ℕ → Bool) (e : Surroundings) (g : Garbage) (fuel : ℕ) (fresh : Packet) (size : ℕ)
    (t : SessionTable) (c : Chat) (i : ℕ) (ring : RingBuffer) (packet : Packet) (u : SessionTable)
    (d : Chat) (m : ℕ)
    → (size == 0) ≡ false
    → recv_step fresh ((arrived t i e.now size).slots i).recv_buf ≡ done (ring, got packet)
    → recv_step fresh ring ≡ done (ring, wait)
    → let w = counted (cut_up (arrived t i e.now size) i ring) in
      receive (good_network room) e g w c (w.slots i).session_id packet ≡ done (u, d)
      → (u.slots i).recv_buf ≡ ring
      → (u.slots i).is_released ≡ false
      → (u.slots i).io_count ≡ m + 1
      → m + 2 < 2 ^ 32
      → u.left ≡ []
      → (k : SessionTable) × (serve
            (good_network room)
            e
            g
            (suc (suc fuel))
            fresh
            recv_done
            size
            t
            c
            i
          ≡ done (k, record d { sent = d.sent ++ [] }))
        × (k.slots i ≡ u.slots i)
unfolding serve
serve-one room e g fuel fresh size t c i ring packet u d m some_bytes first last handled same_ring
      live count small left =
    let (k, runs, same, gone) =
      worker_round-one (receive (good_network room) e g) fuel fresh e.now size t c d i ring packet u
        room m some_bytes first handled (ap (recv_step fresh) same_ring ∙ last) live count small in
    (
      record k { left = [] },
      ap
            (λ (o : Outcome (SessionTable × Chat × List ℕ)).
              o >>= λ r. done (leave r.0 (record r.1 { sent = r.1.sent ++ r.2 })))
            runs
          ∙ ap (λ (r : SessionTable × Chat). done r)
              (leave-nobody k (record d { sent = d.sent ++ [] }) (gone ∙ left)),
      same,
    )

module _ (room : List ℕ → Bool) (law : room [] ≡ true) (e : Surroundings) (g : Garbage)
    (held : List ℕ) (fuel : ℕ) (fresh : Packet) (size : ℕ) (t : SessionTable) (c : Chat)
    (sid p n account x y key : ℕ) where
  abbrev i : ℕ
  i = session_index sid

  -- The request of one player to move, in one frame and in one receive, from a live session with
  -- nothing else to send, to a valid sector, in a valid server: the worker's round ends well; the
  -- player has moved and the server is valid with the same blocks held; the network was given one
  -- packet more, whose bytes are the frame of the answer with the account and that sector; the session
  -- is live, with the receive that was posted and the send under way beside what it had.
  pub move_request_answered :
      Idle sid (n + 1) (t.slots i)
      → n + 3 < 2 ^ 32
      → t.left ≡ []
      → IsValid held c.server
      → find sid c.server.players ≡ some p
      → (size == 0) ≡ false
      → Invariant.IsValid (move_rear (t.slots i).recv_buf size).0
      → contents (move_rear (t.slots i).recv_buf size).0 ≡ frame key (move_request account x y)
      → account < 256 ^ 8
      → is_valid_sector x y ≡ true
      → header_size + 14 ≤ e.raw.max_size
      → header_size + 14 ≤ fresh.max_size
      → 1 < fuel
      → (u : SessionTable) × (d : Chat) × (q : Packet) × (serve
            (good_network room)
            e
            g
            fuel
            fresh
            recv_done
            size
            t
            c
            i
          ≡ done (u, d))
        × (d.server ≡ moved c.server p x y e.now)
        × IsValid held d.server
        × (d.packets ≡ c.packets ++ q ∷ [])
        × (d.sent ≡ c.sent ++ length c.packets ∷ [])
        × (wire_bytes q ≡ frame (e.rand % 256) (move_body account x y))
        × ((u.slots i).is_released ≡ false)
        × ((u.slots i).io_count ≡ n + 2)
        × (contents (u.slots i).recv_buf ≡ [])
  unfolding received loaded
  move_request_answered idle small none_left v found some_bytes sound framed wide valid space fits
        enough =
      let plain : List ℕ = move_request account x y in
      let at : (arrived t i e.now size).slots i ≡ received (t.slots i) e.now size =
        update_hit t.slots i _ in
      let there : ((arrived t i e.now size).slots i).recv_buf
          ≡ (move_rear (t.slots i).recv_buf size).0 =
        ap Session.recv_buf at in
      let (ring, packet, first, last, said, good, empty) =
        frame-one fresh key plain (subst Invariant.IsValid (sym there) sound)
          (omega (arith, length-move_request account x y))
          (omega (arith, length-move_request account x y))
          (omega (arith, fits, length-move_request account x y)) (ap contents there ∙ framed) in
      let w : SessionTable = counted (cut_up (arrived t i e.now size) i ring) in
      let inside : w.slots i ≡ record (received (t.slots i) e.now size) { recv_buf = ring } =
        update_hit (arrived t i e.now size).slots i _
        ∙ ap (λ (s : Session). record s { recv_buf = ring }) at in
      let ready : Idle sid (n + 1) (w.slots i) = record {
        named = ap Session.session_id inside ∙ idle.named;
        live = ap Session.is_released inside ∙ idle.live;
        count = ap Session.io_count inside ∙ idle.count;
        flag = ap Session.is_send_flag inside ∙ idle.flag;
        queue = ap Session.send_buf inside ∙ idle.queue;
        given = ap Session.complete_send_buf inside ∙ idle.given;
      } in
      let (u, q, answers, here, left, kept, wire) =
        receive-move room law e g held w c sid p (n + 1) account x y ready (omega (arith, small))
          none_left v found good said wide valid space in
      let d : Chat = given room law e (record c { server = moved c.server p x y e.now }) q in
      let two : n + 1 + 1 ≡ n + 2 = omega arith in
      let (k, runs, same) =
        serve-one room e g (fuel - 2) fresh size t c i ring packet u d (n + 1) some_bytes first last
          (ap (λ j. receive (good_network room) e g w c j packet) ready.named ∙ answers)
          (ap Session.recv_buf here ∙ (unfold loaded in ap Session.recv_buf inside))
          (ap Session.is_released here ∙ ready.live) (ap Session.io_count here)
          (omega (arith, small)) left in
      (
        k,
        record d { sent = d.sent ++ [] },
        add_ref q,
        subst
            (λ f.
              serve (good_network room) e g f fresh recv_done size t c i
              ≡ done (k, record d { sent = d.sent ++ [] }))
            (omega arith) runs,
        refl,
        kept,
        refl,
        append-nil _,
        wire_bytes-add_ref q ∙ wire,
        ap Session.is_released (same ∙ here) ∙ ready.live,
        ap Session.io_count (same ∙ here) ∙ two,
        ap (λ (s : Session). contents s.recv_buf)
              (same ∙ here ∙ ap (sending (length c.packets) (n + 1 + 1)) inside)
            ∙ empty,
      )
