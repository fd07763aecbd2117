-- ===== src/Packet/Coding.antt =====
-- `SetMessageHeader`, `SetEncodingCode` and `SetDecodingCode` of ConsoleApplication2/CPacket.cpp, and
-- the bytes that `IOCPServer::PostSend` hands to the network for a packet.
pub mod Frame
pub mod RoundTrip
pub mod Checks
use chatting_server.Base.{
  ℕ, ◌+◌, ◌-◌, ◌*◌, ◌/◌, ◌%◌, ltb, ◌==◌, if◌then◌else◌, Bool, true, false, List, [], ◌∷◌, ◌++◌,
  length, get_or,
}
use chatting_server.Base.Arrays.{write_bytes, read_bytes}
use chatting_server.Base.Outcome.{Outcome, done, overrun, ◌>>=◌}
use chatting_server.Packet.{Packet, header_size}
use chatting_server.Packet.Cipher.{encrypt, decrypt, sum_bytes, long_to_byte, dword_to_byte}

-- `PACKET_CODE`
abbrev pub packet_code : ℕ
packet_code = 0x77

-- `st_PACKET_HEADER`
pub record PacketHeader : Type 0 where
  pub code : ℕ
  pub len : ℕ
  pub rand_key : ℕ
  pub check_sum : ℕ

-- Its five bytes: the members without padding, a `WORD` with its low byte first.
unfoldable pub header_bytes : PacketHeader → List ℕ
header_bytes h = h.code ∷ (h.len % 256) ∷ (h.len / 256 % 256) ∷ h.rand_key ∷ h.check_sum ∷ []

-- The header that five bytes stand for.
unfoldable pub header_of : List ℕ → PacketHeader
header_of bs = record {
  code = get_or bs 0 0;
  len = get_or bs 1 0 + 256 * get_or bs 2 0;
  rand_key = get_or bs 3 0;
  check_sum = get_or bs 4 0;
}

-- `SetMessageHeader(header, len)`; the list holds the `len` bytes.
unfoldable pub set_message_header : Packet → List ℕ → Packet
set_message_header p header = record p { block = write_bytes p.block 0 header }

-- The first `len` bytes at `GetBufferPtr()`, which is the start of the payload.
abbrev pub payload_bytes : Packet → ℕ → List ℕ
payload_bytes p len = read_bytes p.block header_size len

-- The header that `SetEncodingCode` writes; `rand` is what `rand()` returns.
unfoldable pub encoding_header : Packet → ℕ → PacketHeader
encoding_header p rand =
    let len = p.using_size % 65536 in
    record {
      code = packet_code;
      len = len;
      rand_key = rand % 256;
      check_sum = long_to_byte (sum_bytes 0 (payload_bytes p len));
    }

-- `SetEncodingCode()`
unfoldable pub set_encoding_code : Packet → ℕ → Outcome Packet
unfolding encoding_header set_message_header header_bytes
set_encoding_code p rand =
    if p.is_encoded
    then done p
    else (let len = p.using_size % 65536 in
        let header = encoding_header p rand in
        let q = set_message_header p (header_bytes header) in
        if ltb p.max_size (header_size + len)
        then overrun
        else done (record q {
          block =
              write_bytes q.block header_size (encrypt header.rand_key 0 0 0 (payload_bytes q len));
          is_encoded = true;
        }))

-- `SetDecodingCode()`: the packet after the call and the result
unfoldable pub set_decoding_code : Packet → Outcome (Packet × Bool)
set_decoding_code p =
    let header = header_of p.block in
    if header.code == packet_code
    then (if ltb p.max_size (header_size + p.using_size)
        then overrun
        else (let plain = decrypt header.rand_key 0 0 0 (payload_bytes p p.using_size) in
            done (
              record p { block = write_bytes p.block header_size plain },
              header.check_sum == dword_to_byte (sum_bytes 0 plain),
            )))
    else done (p, false)

-- What `PostSend` hands to `WSASend` for a packet: `MESSAGE_HEADER_LEN` bytes from `GetHeaderPtr()`
-- and `GetDataSize()` bytes from `GetBufferPtr()`.
unfoldable pub wire_bytes : Packet → List ℕ
wire_bytes p = read_bytes p.block 0 header_size ++ payload_bytes p p.using_size
