-- ===== src/ChatServer/Respond/Wire.antt =====
-- What the responses of ConsoleApplication2/ChatServer.cpp look like on the wire, and how long a
-- chat message may be.
use chatting_server.Base.{
  ℕ, ◌+◌, ◌-◌, ◌%◌, ◌≤◌, ◌<◌, ◌≡◌, refl, ap, false, List, [], ◌∷◌, ◌++◌, length, arith, ◌∙◌,
  length-append,
}
use chatting_server.Base.Outcome.{done, overrun, timed_out}
use chatting_server.Packet.{Packet, Machine, header_size, alloc, clear, put_data}
use chatting_server.Packet.Buffer.{IsValid, payload, clear-IsValid, put_data_cases}
use chatting_server.Packet.Value.{bytes_of, put_value, put_value_lem}
use chatting_server.Packet.Coding.{set_encoding_code, wire_bytes}
use chatting_server.Packet.Coding.Frame.{frame, set_encoding_code-frame}
use chatting_server.ChatServer.{Player}
use chatting_server.ChatServer.Respond.{Surroundings, res_login, res_sector_move, res_chat}

-- A packet that is being written, with the `n` bytes `bs` in it so far.
record Holds (p : Packet) (bs : List ℕ) (n cap : ℕ) : Type 0 where
  valid : IsValid p
  inside : payload p ≡ bs
  rear : p.rear ≡ n
  size : p.max_size ≡ cap
  front : p.front ≡ 0
  fresh : p.is_encoded ≡ false

alloc-Holds : (raw : Packet) → header_size ≤ raw.max_size → Holds (alloc raw) [] 0 raw.max_size
unfolding alloc clear payload
alloc-Holds raw room =
    let v = clear-IsValid raw room in
    record {
      valid = record { storage = v.storage; inside = v.inside; counted = v.counted };
      inside =
          unfold chatting_server.Base.Arrays.read_bytes chatting_server.Base.Arrays.tab in refl;
      rear = refl;
      size = refl;
      front = refl;
      fresh = refl;
    }

module _ (m : Machine) (p : Packet) (bs : List ℕ) (n cap : ℕ) (h : Holds p bs n cap) where
  put_value-Holds :
      (w v : ℕ)
      → header_size + n + w ≤ cap
      → (q : Packet) × (put_value m p w v ≡ done q) × Holds q (bs ++ bytes_of w v) (n + w) cap
  put_value-Holds w v room =
      let (q, runs, held, kept, rear, size, front, flag) =
        put_value_lem m w v h.valid (omega (arith, h.rear, h.size)) in
      (
        q,
        runs,
        record {
          valid = kept;
          inside = held ∙ ap (λ cs. cs ++ bytes_of w v) h.inside;
          rear = omega (arith, rear, h.rear);
          size = size ∙ h.size;
          front = front ∙ h.front;
          fresh = flag ∙ h.fresh;
        },
      )

  put_data-Holds :
      (cs : List ℕ)
      → header_size + n + length cs ≤ cap
      → (q : Packet) × (put_data m p cs ≡ done q) × Holds q (bs ++ cs) (n + length cs) cap
  put_data-Holds cs room =
      let (q, runs, held, kept, rear, size, front, flag) =
        (put_data_cases m cs h.valid).0 (omega (arith, h.rear, h.size)) in
      (
        q,
        runs,
        record {
          valid = kept;
          inside = held ∙ ap (λ ds. ds ++ cs) h.inside;
          rear = omega (arith, rear, h.rear);
          size = size ∙ h.size;
          front = front ∙ h.front;
          fresh = flag ∙ h.fresh;
        },
      )

  -- Sealing what was written.
  seal-Holds :
      (rand : ℕ)
      → n < 65536
      → (q : Packet) × (set_encoding_code p rand ≡ done q) × (wire_bytes q ≡ frame (rand % 256) bs)
  seal-Holds rand short =
      let (q, runs, wire, _, _, _, _) =
        set_encoding_code-frame rand h.valid h.front h.fresh
          (omega (arith, h.rear, h.front, h.valid.counted)) in
      (q, runs, wire ∙ ap (frame (rand % 256)) h.inside)

-- The bytes of the responses.
abbrev pub move_body : ℕ → ℕ → ℕ → List ℕ
move_body account x y = ((bytes_of 2 4 ++ bytes_of 8 account) ++ bytes_of 2 x) ++ bytes_of 2 y

abbrev pub login_body : ℕ → ℕ → List ℕ
login_body account status = (bytes_of 2 2 ++ bytes_of 1 status) ++ bytes_of 8 account

abbrev pub chat_head : Player → ℕ → List ℕ
chat_head v len = (((bytes_of 2 6 ++ bytes_of 8 v.account_no) ++ v.id) ++ v.nick) ++ bytes_of 2 len

-- The answer to a move has the type, the account and the sector in one frame, as Protocol.h lays
-- them out.
pub res_sector_move-wire :
    (e : Surroundings) (account x y : ℕ)
    → header_size + 14 ≤ e.raw.max_size
    → (q : Packet) × (res_sector_move e account x y ≡ done q)
      × (wire_bytes q ≡ frame (e.rand % 256) (move_body account x y))
unfolding res_sector_move
res_sector_move-wire e account x y room =
    let m = e.machine in
    let cap = e.raw.max_size in
    let (p1, r1, h1) =
      put_value-Holds m _ _ _ cap (alloc-Holds e.raw (omega arith)) 2 4 (omega arith) in
    let (p2, r2, h2) = put_value-Holds m _ _ _ cap h1 8 account (omega arith) in
    let (p3, r3, h3) = put_value-Holds m _ _ _ cap h2 2 x (omega arith) in
    let (p4, r4, h4) = put_value-Holds m _ _ _ cap h3 2 y (omega arith) in
    let (q, r5, wire) = seal-Holds m _ _ _ cap h4 e.rand (omega arith) in
    (q, rw (r1, r2, r3, r4) r5, wire)

-- The answer to a login has the type, the status and the account in one frame.
pub res_login-wire :
    (e : Surroundings) (account status : ℕ)
    → header_size + 11 ≤ e.raw.max_size
    → (q : Packet) × (res_login e account status ≡ done q)
      × (wire_bytes q ≡ frame (e.rand % 256) (login_body account status))
unfolding res_login
res_login-wire e account status room =
    let m = e.machine in
    let cap = e.raw.max_size in
    let (p1, r1, h1) =
      put_value-Holds m _ _ _ cap (alloc-Holds e.raw (omega arith)) 2 2 (omega arith) in
    let (p2, r2, h2) = put_value-Holds m _ _ _ cap h1 1 status (omega arith) in
    let (p3, r3, h3) = put_value-Holds m _ _ _ cap h2 8 account (omega arith) in
    let (q, r4, wire) = seal-Holds m _ _ _ cap h3 e.rand (omega arith) in
    (q, rw (r1, r2, r3) r4, wire)

-- `Res_Chat` in all cases, for a player whose name and nick are 40 bytes in a packet of 512: a
-- message of up to 415 bytes goes out in one frame; one of 416 to 420 bytes is copied past the end of
-- the packet's block; for a longer one the function never returns.
pub res_chat_cases :
    (e : Surroundings) (v : Player) (msg : List ℕ)
    → length v.id ≡ 40
    → length v.nick ≡ 40
    → e.raw.max_size ≡ 512
    → (length msg ≤ 415
        → (q : Packet) × (res_chat e v msg (length msg) ≡ done q)
          × (wire_bytes q ≡ frame (e.rand % 256) (chat_head v (length msg) ++ msg)))
      × (415 < length msg → length msg ≤ 420 → res_chat e v msg (length msg) ≡ overrun)
      × (420 < length msg → res_chat e v msg (length msg) ≡ timed_out)
unfolding res_chat
res_chat_cases e v msg id nick full =
    let m = e.machine in
    let len = length msg in
    let cap = e.raw.max_size in
    let (p1, r1, h1) =
      put_value-Holds m _ _ _ cap (alloc-Holds e.raw (omega arith)) 2 6 (omega arith) in
    let (p2, r2, h2) = put_value-Holds m _ _ _ cap h1 8 v.account_no (omega arith) in
    let (p3, r3, h3) = put_data-Holds m _ _ _ cap h2 v.id (omega arith) in
    let (p4, r4, h4) = put_data-Holds m _ _ _ cap h3 v.nick (omega arith) in
    let (p5, r5, h5) = put_value-Holds m _ _ _ cap h4 2 len (omega arith) in
    let (fits, past, long) = put_data_cases m msg h5.valid in
    (
      λ short.
          let (p6, r6, h6) = put_data-Holds m _ _ _ cap h5 msg (omega arith) in
          let (q, r7, wire) = seal-Holds m _ _ _ cap h6 e.rand (omega arith) in
          (q, rw (r1, r2, r3, r4, r5, r6) r7, wire),
      λ over within.
          rw
            (
              r1,
              r2,
              r3,
              r4,
              r5,
              past (omega (arith, h5.rear, h5.size))
                  (omega (arith, h5.rear, h5.size, h5.front, h5.valid.counted)),
            )
            refl,
      λ over.
          rw
            (r1, r2, r3, r4, r5, long (omega (arith, h5.rear, h5.size, h5.front, h5.valid.counted)))
            refl,
    )
