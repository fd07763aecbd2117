-- ===== src/Packet/Coding/RoundTrip.antt =====
-- A receiver gets back what was sent.
use chatting_server.Base.{
  ℕ, ◌+◌, ◌%◌, ◌≤◌, ◌<◌, ◌≡◌, true, false, List, length, arith, ap, sym, ◌∙◌, le→ltb, append_inj,
  ==_refl,
}
use chatting_server.Base.Arrays.{
  write_bytes, read_bytes, length-read_bytes, length-write_bytes, read_bytes-write_bytes_self,
}
use chatting_server.Base.Outcome.{done}
use chatting_server.Packet.{Packet, header_size}
use chatting_server.Packet.Buffer.{IsValid, payload, length-payload}
use chatting_server.Packet.Cipher.{
  encrypt, sum_bytes, dword_to_byte, decrypt-encrypt, length-encrypt,
}
use chatting_server.Packet.Coding.{
  header_bytes, header_of, payload_bytes, set_encoding_code, set_decoding_code, wire_bytes,
}
use chatting_server.Packet.Coding.Frame.{
  frame_header, frame, header_of-header_bytes, header_of-block, payload-front,
  set_encoding_code-frame,
}

-- What a receiver finds in a packet whose bytes are a frame.
module _ (p : Packet) (key : ℕ) (plain : List ℕ) (framed : wire_bytes p ≡ frame key plain) where
  frame_parts :
      (read_bytes p.block 0 header_size ≡ header_bytes (frame_header key plain))
      × (payload_bytes p p.using_size ≡ encrypt key 0 0 0 plain)
  unfolding wire_bytes frame header_bytes
  frame_parts = append_inj _ _ _ _ (length-read_bytes p.block 0 header_size) framed

  frame_size : p.using_size ≡ length plain
  frame_size =
      sym (length-read_bytes p.block header_size p.using_size)
      ∙ ap length frame_parts.1
      ∙ length-encrypt key 0 0 0 plain

  found_header : length plain < 65536 → header_of p.block ≡ frame_header key plain
  found_header fits =
      sym (header_of-block p.block)
      ∙ ap header_of frame_parts.0
      ∙ header_of-header_bytes (frame_header key plain) (unfold frame_header in fits)

-- The packet that `SetDecodingCode` leaves behind when it finds `plain`.
opened : Packet → List ℕ → Packet
opened p plain = record p { block = write_bytes p.block header_size plain }

set_decoding_code-opened :
    (p : Packet) (key : ℕ) (plain : List ℕ)
    → header_size + p.using_size ≤ p.max_size
    → length plain < 65536
    → wire_bytes p ≡ frame key plain
    → set_decoding_code p ≡ done (opened p plain, true)
unfolding set_decoding_code opened frame_header
set_decoding_code-opened p key plain room fits framed = rw (
  found_header p key plain framed fits,
  le→ltb p.max_size (header_size + p.using_size) room,
  (frame_parts p key plain framed).1,
  decrypt-encrypt key 0 0 0 plain,
  ==_refl (dword_to_byte (sum_bytes 0 plain)),
)

-- Opening a packet whose bytes are a frame succeeds and leaves the payload of the frame; the packet
-- stays valid.
pub set_decoding_code-frame :
    {p : Packet} (key : ℕ) (plain : List ℕ)
    → IsValid p
    → p.front ≡ 0
    → length plain < 65536
    → wire_bytes p ≡ frame key plain
    → (q : Packet) × (set_decoding_code p ≡ done (q, true)) × (payload q ≡ plain) × IsValid q
set_decoding_code-frame {p} key plain v start fits framed = (
  opened p plain,
  set_decoding_code-opened p key plain (omega arith) fits framed,
  payload-front (opened p plain) (unfold opened in start)
      ∙ unfold opened in
        (ap (read_bytes (write_bytes p.block header_size plain) header_size) size
          ∙ read_bytes-write_bytes_self p.block header_size plain (omega (arith, size))),
  (unfold opened in
      record {
        storage = length-write_bytes p.block header_size plain ∙ v.storage;
        inside = v.inside;
        counted = v.counted;
      }),
)
  where
    size : p.using_size ≡ length plain
    size = frame_size p key plain framed

-- What `SetEncodingCode` seals, `SetDecodingCode` opens: the payload comes back and the checksum
-- agrees, whatever the key that was drawn.
pub set_decoding_code-set_encoding_code :
    {p : Packet} (rand : ℕ)
    → IsValid p
    → p.front ≡ 0
    → p.is_encoded ≡ false
    → p.using_size < 65536
    → (q r : Packet) × (set_encoding_code p rand ≡ done q)
      × (set_decoding_code q ≡ done (r, true))
      × (payload r ≡ payload p)
set_decoding_code-set_encoding_code {p} rand v start fresh fits =
    let (q, runs, wire, valid, front, size, _) = set_encoding_code-frame rand v start fresh fits in
    let (r, opens, back, _) =
      set_decoding_code-frame {p = q} (rand % 256) (payload p) valid front
        (omega (arith, length-payload p)) wire in
    (q, r, runs, opens, back)
