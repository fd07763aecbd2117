-- ===== src/Packet/Tests.antt =====
-- The packet of CPacket.cpp on concrete inputs: tests by evaluation, and the theorems of the modules
-- beside this one applied to a packet that holds three bytes.
use chatting_server.Base.{
  ℕ, ◌+◌, ◌%◌, ◌≤◌, ◌<◌, ◌≡◌, refl, List, [], ◌∷◌, ◌++◌, length, arith, some, none, true, false,
}
use chatting_server.Base.Arrays.{read_bytes, tab}
use chatting_server.Base.Outcome.{done, overrun, timed_out}
use chatting_server.Packet.{Packet, Machine, header_size, increase_buffer_size, put_data, get_data}
use chatting_server.Packet.Buffer.{
  IsValid, payload, increase_buffer_size_stuck, put_data_cases, get_data_cases,
}
use chatting_server.Packet.Value.{
  bytes_of, put_value, get_value, get_value_lem, get_value-put_value,
}
use chatting_server.Packet.Cipher.{encrypt, decrypt, decrypt-encrypt, encrypt-decrypt}
use chatting_server.Packet.Coding.{set_encoding_code, set_decoding_code, wire_bytes}
use chatting_server.Packet.Coding.Frame.{frame, set_encoding_code-frame}
use chatting_server.Packet.Coding.RoundTrip.{set_decoding_code-set_encoding_code}

abbrev machine : Machine
machine = record { fuel = 100; has_memory = true }

-- A small block with three bytes of payload.
abbrev small : Packet
small = record {
  max_size = 10;
  front = 0;
  rear = 3;
  using_size = 3;
  ref_count = 1;
  block = 0 ∷ 0 ∷ 0 ∷ 0 ∷ 0 ∷ 65 ∷ 200 ∷ 7 ∷ 0 ∷ 0 ∷ [];
  is_encoded = false;
}

small-IsValid : IsValid small
small-IsValid = omega arith

payload-small : payload small ≡ 65 ∷ 200 ∷ 7 ∷ []
unfolding payload read_bytes tab
payload-small = refl

increase_buffer_size_stuck_example : increase_buffer_size machine small 10 ≡ timed_out
increase_buffer_size_stuck_example =
    increase_buffer_size_stuck machine small 10 (omega arith) (omega arith)

-- Four bytes are no more than `GetFreeSize()`, and reach past the block.
put_data_cases_example :
    (header_size + 3 + 4 ≤ 10
      → (q : Packet) × (put_data machine small (1 ∷ 2 ∷ 3 ∷ 4 ∷ []) ≡ done q)
        × (payload q ≡ payload small ++ 1 ∷ 2 ∷ 3 ∷ 4 ∷ [])
        × IsValid q
        × (q.rear ≡ 7)
        × (q.max_size ≡ 10)
        × (q.front ≡ 0)
        × (q.is_encoded ≡ false))
    × (10 < header_size + 3 + 4 → 4 ≤ 7 → put_data machine small (1 ∷ 2 ∷ 3 ∷ 4 ∷ []) ≡ overrun)
    × (7 < 4 → put_data machine small (1 ∷ 2 ∷ 3 ∷ 4 ∷ []) ≡ timed_out)
put_data_cases_example = put_data_cases machine (1 ∷ 2 ∷ 3 ∷ 4 ∷ []) small-IsValid

get_data_cases_example :
    (2 ≤ length (payload small)
      → (q : Packet) × (out : List ℕ) × (get_data small 2 ≡ done (q, some out))
        × (length out ≡ 2)
        × (out ++ payload q ≡ payload small)
        × IsValid q)
    × (length (payload small) < 2 → get_data small 2 ≡ done (small, none))
get_data_cases_example = get_data_cases 2 small-IsValid

get_value_lem_example :
    (q : Packet) × (get_value small 2 9 ≡ done (q, 51265)) × (payload q ≡ 7 ∷ []) × IsValid q
get_value_lem_example =
    get_value_lem 2 51265 9 (7 ∷ []) small-IsValid (omega arith)
      (unfold payload read_bytes tab bytes_of in refl)

abbrev nothing : Packet
nothing = record small { rear = 0; using_size = 0 }

get_value-put_value_example :
    (q r : Packet) × (put_value machine nothing 2 513 ≡ done q)
    × (get_value q 2 0 ≡ done (r, 513))
    × (payload r ≡ [])
get_value-put_value_example =
    get_value-put_value machine {p = nothing} 2 513 0 (omega arith)
      (unfold payload read_bytes tab in refl) (omega arith) (omega arith)

decrypt-encrypt_example : decrypt 77 0 0 0 (encrypt 77 0 0 0 (1 ∷ 2 ∷ [])) ≡ 1 ∷ 2 ∷ []
decrypt-encrypt_example = decrypt-encrypt 77 0 0 0 (1 ∷ 2 ∷ [])

encrypt-decrypt_example : encrypt 77 0 0 0 (decrypt 77 0 0 0 (1 ∷ 2 ∷ [])) ≡ 1 ∷ 2 ∷ []
encrypt-decrypt_example = encrypt-decrypt 77 0 0 0 (1 ∷ 2 ∷ [])

-- The first byte under key 16: 65 xor 17, then xor 51.
encrypt_first : encrypt 16 0 0 0 (65 ∷ []) ≡ 99 ∷ []
unfolding encrypt
encrypt_first = refl

set_encoding_code-frame_example :
    (q : Packet) × (set_encoding_code small 300 ≡ done q)
    × (wire_bytes q ≡ frame (300 % 256) (payload small))
    × IsValid q
    × (q.front ≡ 0)
    × (q.using_size ≡ 3)
    × (q.is_encoded ≡ true)
set_encoding_code-frame_example = set_encoding_code-frame 300 small-IsValid refl refl (omega arith)

set_decoding_code-set_encoding_code_example :
    (q r : Packet) × (set_encoding_code small 300 ≡ done q)
    × (set_decoding_code q ≡ done (r, true))
    × (payload r ≡ payload small)
set_decoding_code-set_encoding_code_example =
    set_decoding_code-set_encoding_code 300 small-IsValid refl refl (omega arith)

-- The frame of one byte, 65, under key 16.
abbrev framed_packet : Packet
framed_packet = record small {
  rear = 1;
  using_size = 1;
  block = 0x77 ∷ 1 ∷ 0 ∷ 16 ∷ 65 ∷ 99 ∷ 0 ∷ 0 ∷ 0 ∷ 0 ∷ [];
}
