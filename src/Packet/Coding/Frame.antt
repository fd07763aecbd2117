-- ===== src/Packet/Coding/Frame.antt =====
-- The bytes that a sealed packet puts on the wire.
use chatting_server.Base.{
  ℕ, ◌+◌, ◌%◌, ◌≤◌, ◌<◌, ◌≡◌, refl, true, false, List, ◌++◌, length, arith, ap, ap₂, sym, ◌∙◌,
  le→ltb, inl, inr,
}
use native.Mathlib.Nat.{mod-eq_of_lt}
use chatting_server.Base.Arrays.{
  write_bytes, read_bytes, length-read_bytes, length-write_bytes, read_bytes-write_bytes_self,
  read_bytes-write_bytes_apart, tab,
}
use chatting_server.Base.Outcome.{done}
use chatting_server.Packet.{Packet, header_size}
use chatting_server.Packet.Buffer.{IsValid, payload}
use chatting_server.Packet.Cipher.{
  encrypt, sum_bytes, dword_to_byte, length-encrypt, checksums_agree,
}
use chatting_server.Packet.Coding.{
  PacketHeader, packet_code, header_bytes, header_of, payload_bytes, set_encoding_code, wire_bytes,
}

-- The header of the frame for `plain` under a key.
unfoldable pub frame_header : ℕ → List ℕ → PacketHeader
frame_header key plain = record {
  code = packet_code;
  len = length plain;
  rand_key = key;
  check_sum = dword_to_byte (sum_bytes 0 plain);
}

-- The frame for `plain` under a key, independent of buffers and positions.
unfoldable pub frame : ℕ → List ℕ → List ℕ
unfolding frame_header
frame key plain = header_bytes (frame_header key plain) ++ encrypt key 0 0 0 plain

pub length-header_bytes : (h : PacketHeader) → length (header_bytes h) ≡ header_size
unfolding header_bytes
length-header_bytes h = refl

-- The five bytes of a header give it back, if its length fits a `WORD`.
pub header_of-header_bytes : (h : PacketHeader) → h.len < 65536 → header_of (header_bytes h) ≡ h
unfolding header_of header_bytes
header_of-header_bytes h fits = ground arith

pub header_of-block :
    (cells : List ℕ) → header_of (read_bytes cells 0 header_size) ≡ header_of cells
unfolding header_of read_bytes tab
header_of-block cells = refl

-- With the read position at the start, the payload is what `GetBufferPtr()` points at.
pub payload-front : (p : Packet) → p.front ≡ 0 → payload p ≡ payload_bytes p p.using_size
unfolding payload
payload-front p e = ap (λ n. read_bytes p.block (header_size + n) p.using_size) e

-- A block into which a header and a payload behind it have been written holds both.
module _ (cells hb cs : List ℕ) (fits : header_size + length cs ≤ length cells)
    (five : length hb ≡ header_size) where
  abbrev pub filled : List ℕ
  filled = write_bytes (write_bytes cells 0 hb) header_size cs

  pub length-filled : length filled ≡ length cells
  length-filled =
      length-write_bytes (write_bytes cells 0 hb) header_size cs ∙ length-write_bytes cells 0 hb

  pub header-filled : read_bytes filled 0 header_size ≡ hb
  header-filled =
      read_bytes-write_bytes_apart (write_bytes cells 0 hb) header_size cs 0 header_size
        (inl (omega arith))
      ∙ ap (read_bytes (write_bytes cells 0 hb) 0) (sym five)
      ∙ read_bytes-write_bytes_self cells 0 hb (omega arith)

  pub payload-filled : read_bytes filled header_size (length cs) ≡ cs
  payload-filled =
      read_bytes-write_bytes_self (write_bytes cells 0 hb) header_size cs
        (omega (arith, length-write_bytes cells 0 hb))

-- The packet that `SetEncodingCode` leaves behind.
pub sealed : Packet → ℕ → Packet
sealed p rand =
    let plain = payload_bytes p p.using_size in
    record p {
      block =
          write_bytes (write_bytes p.block 0 (header_bytes (frame_header (rand % 256) plain)))
            header_size (encrypt (rand % 256) 0 0 0 plain);
      is_encoded = true;
    }

pub set_encoding_code-sealed :
    (p : Packet) (rand : ℕ)
    → p.is_encoded ≡ false
    → p.using_size < 65536
    → header_size + p.using_size ≤ p.max_size
    → set_encoding_code p rand ≡ done (sealed p rand)
unfolding set_encoding_code sealed frame_header
set_encoding_code-sealed p rand fresh fits room =
    rw
      (
        fresh,
        mod-eq_of_lt fits,
        le→ltb p.max_size (header_size + p.using_size) room,
        checksums_agree (payload_bytes p p.using_size),
        length-read_bytes p.block header_size p.using_size,
      )
      (ap (λ bs. done (resealed bs)) under_header)
  where
    plain : List ℕ
    plain = payload_bytes p p.using_size

    hb : List ℕ
    hb = header_bytes (record {
      code = packet_code;
      len = p.using_size;
      rand_key = rand % 256;
      check_sum = dword_to_byte (sum_bytes 0 plain);
    })

    resealed : List ℕ → Packet
    resealed bs = record p {
      block = write_bytes (write_bytes p.block 0 hb) header_size (encrypt (rand % 256) 0 0 0 bs);
      is_encoded = true;
    }

    under_header : read_bytes (write_bytes p.block 0 hb) header_size p.using_size ≡ plain
    under_header =
        read_bytes-write_bytes_apart p.block 0 hb header_size p.using_size (inr (omega arith))

wire_bytes-sealed :
    (p : Packet) (rand : ℕ)
    → header_size + p.using_size ≤ length p.block
    → wire_bytes (sealed p rand) ≡ frame (rand % 256) (payload_bytes p p.using_size)
unfolding wire_bytes sealed frame header_bytes
wire_bytes-sealed p rand room = ap₂ ◌++◌ (header-filled p.block hb cs fits refl) (
    ap (read_bytes (filled p.block hb cs fits refl) header_size) (sym size)
    ∙ payload-filled p.block hb cs fits refl)
  where
    plain : List ℕ
    plain = payload_bytes p p.using_size

    hb : List ℕ
    hb = header_bytes (frame_header (rand % 256) plain)

    cs : List ℕ
    cs = encrypt (rand % 256) 0 0 0 plain

    size : length cs ≡ p.using_size
    size =
        length-encrypt (rand % 256) 0 0 0 plain ∙ length-read_bytes p.block header_size p.using_size

    fits : header_size + length cs ≤ length p.block
    fits = omega (arith, size)

-- Sealing a packet that has not been read from and is not sealed yet puts the frame of its payload
-- on the wire, under the key drawn; the packet stays valid, and its sizes and positions stay.
pub set_encoding_code-frame :
    {p : Packet} (rand : ℕ)
    → IsValid p
    → p.front ≡ 0
    → p.is_encoded ≡ false
    → p.using_size < 65536
    → (q : Packet) × (set_encoding_code p rand ≡ done q)
      × (wire_bytes q ≡ frame (rand % 256) (payload p))
      × IsValid q
      × (q.front ≡ 0)
      × (q.using_size ≡ p.using_size)
      × (q.is_encoded ≡ true)
set_encoding_code-frame {p} rand v start fresh fits = (
  sealed p rand,
  set_encoding_code-sealed p rand fresh fits (omega arith),
  wire_bytes-sealed p rand (omega arith) ∙ ap (frame (rand % 256)) (sym (payload-front p start)),
  (unfold sealed in
      record {
        storage = length-write_bytes _ header_size _ ∙ length-write_bytes p.block 0 _ ∙ v.storage;
        inside = v.inside;
        counted = v.counted;
      }),
  (unfold sealed in start),
  (unfold sealed in refl),
  (unfold sealed in refl),
)
