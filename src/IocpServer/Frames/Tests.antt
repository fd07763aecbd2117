-- ===== src/IocpServer/Frames/Tests.antt =====
-- The receive loop on concrete rings: one whole frame with a byte of the next behind it, and a frame
-- that is too long for its packet.
use chatting_server.Base.{
  ℕ, ◌+◌, ◌<◌, ◌≡◌, ◌≢◌, refl, List, [], ◌∷◌, ◌++◌, length, arith, map, inl, replicate,
}
use chatting_server.Base.Arrays.{tab}
use chatting_server.Base.Outcome.{done, overrun, timed_out}
use chatting_server.RingBuffer.{RingBuffer, use_size}
use chatting_server.RingBuffer.Invariant.{IsValid}
use chatting_server.RingBuffer.Contents.{contents}
use chatting_server.Packet.{Packet}
use chatting_server.Packet.Buffer.{payload}
use chatting_server.Packet.Cipher.{encrypt, sum_bytes, dword_to_byte}
use chatting_server.Packet.Coding.{header_bytes, header_of}
use chatting_server.Packet.Coding.Frame.{frame}
use chatting_server.IocpServer.Frames.{drained, recv_step, recv_loop}
use chatting_server.IocpServer.Frames.Stream.{stream, Delivered, recv_loop-stream}
use chatting_server.IocpServer.Frames.Limits.{recv_loop-ends, recv_step-overrun}

-- The frame of one byte, 65, under key 16, and the first byte of the next frame.
abbrev received : RingBuffer
received = record {
  front_pos = 6;
  rear_pos = 5;
  buf_size = 8;
  cells = 0 ∷ 16 ∷ 65 ∷ 99 ∷ 0x77 ∷ 0 ∷ 0x77 ∷ 1 ∷ [];
}

received-IsValid : IsValid received
received-IsValid = omega arith

abbrev small : Packet
small = record {
  max_size = 10;
  front = 0;
  rear = 0;
  using_size = 0;
  ref_count = 0;
  block = [];
  is_encoded = chatting_server.Base.false;
}

recv_loop-stream_example :
    (r' : RingBuffer) × (ps : List Packet) × (recv_loop 2 small received ≡ done (r', ps, drained))
    × (map payload ps ≡ (65 ∷ []) ∷ [])
    × (contents r' ≡ 0x77 ∷ [])
    × IsValid r'
    × Delivered ps
recv_loop-stream_example =
    recv_loop-stream 2 small ((16, 65 ∷ []) ∷ []) (0x77 ∷ []) received-IsValid (omega arith)
      (omega arith) (inl (omega arith))
      (unfold contents use_size tab stream frame header_bytes encrypt sum_bytes dword_to_byte in
        refl)

recv_loop-ends_example : recv_loop 9 small received ≢ timed_out
recv_loop-ends_example = recv_loop-ends 9 small received-IsValid (unfold use_size in omega arith)

-- A header that announces six bytes, and six bytes.
abbrev too_long : RingBuffer
too_long = record {
  front_pos = 0;
  rear_pos = 11;
  buf_size = 16;
  cells = 0x77 ∷ 6 ∷ 0 ∷ 16 ∷ 65 ∷ 1 ∷ 2 ∷ 3 ∷ 4 ∷ 5 ∷ 6 ∷ 0 ∷ 0 ∷ 0 ∷ 0 ∷ 0 ∷ [];
}

recv_step-overrun_example : recv_step small too_long ≡ overrun
recv_step-overrun_example =
    recv_step-overrun small (0x77 ∷ 6 ∷ 0 ∷ 16 ∷ 65 ∷ []) (1 ∷ 2 ∷ 3 ∷ 4 ∷ 5 ∷ 6 ∷ []) (omega arith)
      (unfold contents use_size tab in refl) refl (unfold header_of in refl)
      (unfold header_of in omega arith) (unfold header_of in omega arith)
      (unfold header_of in omega arith)
