-- ===== src/IocpServer/Sample.antt =====
-- A session table for the tests: slot 0 is live with one operation under way.
use chatting_server.Base.{◌==◌, if◌then◌else◌, false, [], ◌∷◌}
use chatting_server.RingBuffer.{RingBuffer}
use chatting_server.IocpServer.Sessions.{Session, SessionTable, combine_id_index, all_ones}

abbrev pub ring : RingBuffer
ring = record { front_pos = 0; rear_pos = 0; buf_size = 8; cells = [] }

abbrev pub live : Session
live = record {
  sock = 4;
  session_id = combine_id_index 1 0;
  index = 0;
  is_send_flag = false;
  send_count = 0;
  is_released = false;
  io_count = 1;
  send_buf = [];
  complete_send_buf = [];
  recv_buf = ring;
  last_recv_time = 0;
}

abbrev pub unused : Session
unused = record live { sock = all_ones; session_id = all_ones; io_count = 0 }

-- The table with `v` in slot 0.
abbrev pub table_of : Session → SessionTable
table_of v = record {
  slots = λ i. if i == 0 then v else unused;
  index_stack = 1 ∷ [];
  session_id = 1;
  session_count = 1;
  send_tps = 0;
  recv_tps = 0;
  accept_tps = 0;
  accept_count = 0;
  left = [];
  dropped = [];
}
