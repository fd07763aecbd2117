-- ===== src/Packet/Coding/Checks.antt =====
-- What `SetEncodingCode` and `SetDecodingCode` do to any packet, sealed by this program or not.
use chatting_server.Base.{ℕ, ◌≡◌, true, List, length, arith, ◌∙◌}
use chatting_server.Base.Arrays.{length-read_bytes, read_bytes-write_bytes_self}
use chatting_server.Base.Outcome.{done}
use chatting_server.Packet.{Packet, header_size}
use chatting_server.Packet.Buffer.{IsValid}
use chatting_server.Packet.Cipher.{decrypt, sum_bytes, dword_to_byte, length-decrypt}
use chatting_server.Packet.Coding.{
  packet_code, header_of, payload_bytes, set_encoding_code, set_decoding_code,
}

-- A sealed packet is not sealed a second time: `SendPacket` calls `SetEncodingCode` for each receiver.
pub set_encoding_code_again :
    (p q : Packet) (rand rand' : ℕ)
    → set_encoding_code p rand ≡ done q
    → set_encoding_code q rand' ≡ done q
unfolding set_encoding_code
set_encoding_code_again p q rand rand' e = rw marked
  where
    marked : q.is_encoded ≡ true
    marked = ground arith

-- Only a packet whose first byte is `PACKET_CODE` is accepted, and its header holds the checksum of
-- the payload that was decoded.
pub set_decoding_code_sound :
    (p q : Packet)
    → IsValid p
    → set_decoding_code p ≡ done (q, true)
    → ((header_of p.block).code ≡ packet_code)
      × ((header_of p.block).check_sum ≡ dword_to_byte (sum_bytes 0 (payload_bytes q p.using_size)))
unfolding set_decoding_code
set_decoding_code_sound p q v e =
    ground (arith, size, read_bytes-write_bytes_self p.block header_size plain)
  where
    plain : List ℕ
    plain = decrypt (header_of p.block).rand_key 0 0 0 (payload_bytes p p.using_size)

    size : length plain ≡ p.using_size
    size =
        length-decrypt (header_of p.block).rand_key 0 0 0 (payload_bytes p p.using_size)
        ∙ length-read_bytes p.block header_size p.using_size
