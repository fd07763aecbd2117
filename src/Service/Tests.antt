-- ===== src/Service/Tests.antt =====
-- The chat server on its network: a request to move arrives for session 7.
use chatting_server.Base.{
  ℕ, ◌==◌, ◌≡◌, refl, if◌then◌else◌, Bool, true, false, List, [], ◌∷◌, ◌++◌, replicate, arith,
}
use chatting_server.Base.Arrays.{tab}
use chatting_server.Base.Maps.{find, insert, erase}
use chatting_server.Base.Outcome.{Outcome, done, overrun, timed_out}
use chatting_server.RingBuffer.{RingBuffer, use_size, move_rear}
use chatting_server.RingBuffer.Contents.{contents}
use chatting_server.Packet.{Packet, create}
use chatting_server.Packet.Value.{bytes_of}
use chatting_server.Packet.Cipher.{encrypt, sum_bytes, dword_to_byte}
use chatting_server.Packet.Coding.{wire_bytes, header_bytes}
use chatting_server.Packet.Coding.Frame.{frame, frame_header}
use chatting_server.IocpServer.Sample.{live, unused}
use chatting_server.IocpServer.Sessions.{
  Session, SessionTable, combine_id_index, create_session, create_at,
}
use chatting_server.IocpServer.Worker.{recv_done, accept_round, post_recv}
use chatting_server.FreeList
use chatting_server.FreeList.{alloc}
use chatting_server.ChatServer.{new_server, reset}
use chatting_server.ChatServer.Login.Keys.{keys}
use chatting_server.ChatServer.Lifecycle.{join_proc}
use chatting_server.ChatServer.Lifecycle.Invariant.{IsValid}
use chatting_server.ChatServer.Sample.{two, both, two-IsValid, around_us}
use chatting_server.ChatServer.Respond.Wire.{move_body}
use chatting_server.ChatServer.Requests.{Garbage}
use chatting_server.Service.{Chat, serve, admit, join}
use chatting_server.Service.Reachable.{Reaches, here, next, admitted, Reaches-IsValid}
use chatting_server.Service.Move.{move_request, moved}
use chatting_server.Service.Reply.{good_network}
use chatting_server.Service.Answer.{move_request_answered}

abbrev always : List ℕ → Bool
always q = true

abbrev unset : Garbage
unset = record { x = 0; y = 0; msg = [] }

-- The ring into which the network has written the frame of the request
abbrev ring : RingBuffer
ring = record {
  front_pos = 0;
  rear_pos = 0;
  buf_size = 24;
  cells = frame 16 (move_request 70 4 6) ++ replicate 5 0;
}

abbrev session : Session
session = record live { session_id = 7; index = 7; recv_buf = ring }

abbrev table : SessionTable
table = record {
  slots = λ i. if i == 7 then session else unused;
  index_stack = 1 ∷ [];
  session_id = 1;
  session_count = 1;
  send_tps = 0;
  recv_tps = 0;
  accept_tps = 0;
  accept_count = 0;
  left = [];
  dropped = [];
}

abbrev chat : Chat
chat = record { server = two; packets = []; sent = [] }

move_request_answered_example :
    (u : SessionTable) × (d : Chat) × (q : Packet) × (serve
        (good_network always)
        around_us
        unset
        9
        create
        recv_done
        19
        table
        chat
        7
      ≡ done (u, d))
    × (d.server ≡ moved two 0 4 6 200)
    × IsValid both d.server
    × (d.packets ≡ q ∷ [])
    × (d.sent ≡ 0 ∷ [])
    × (wire_bytes q ≡ frame 16 (move_body 70 4 6))
    × ((u.slots 7).is_released ≡ false)
    × ((u.slots 7).io_count ≡ 2)
    × (contents (u.slots 7).recv_buf ≡ [])
move_request_answered_example =
    move_request_answered always refl around_us unset both 9 create 19 table chat 7 0 0 70 4 6 16
      (record { named = refl; live = refl; count = refl; flag = refl; queue = refl; given = refl })
      (omega arith) refl two-IsValid (unfold find in refl) refl
      (unfold move_rear frame frame_header header_bytes encrypt sum_bytes dword_to_byte bytes_of in
        record { storage = refl; rear_in = omega arith; front_in = omega arith })
      (unfold contents use_size tab move_rear frame frame_header header_bytes encrypt sum_bytes
          dword_to_byte bytes_of in
        refl)
      (omega arith) refl (omega arith) (unfold create in omega arith) (omega arith)

-- A client comes to a chat server that was just made.
abbrev empty_table : SessionTable
empty_table = record {
  slots = λ i. unused;
  index_stack = 7 ∷ [];
  session_id = 1;
  session_count = 0;
  send_tps = 0;
  recv_tps = 0;
  accept_tps = 0;
  accept_count = 0;
  left = [];
  dropped = [];
}

abbrev empty : SessionTable × Chat
empty = (empty_table, record { server = new_server (λ p. reset); packets = []; sent = [] })

abbrev or_empty : Outcome (SessionTable × Chat) → SessionTable × Chat
or_empty (done r) = r
or_empty overrun = empty
or_empty timed_out = empty

entered : SessionTable × Chat
unfolding admit accept_round create_session new_server join_proc alloc
entered = or_empty (admit (good_network always) around_us 1 4 empty_table empty.1)

Reaches-entered : Reaches keys empty entered
unfolding entered admit accept_round create_session create_at join join_proc new_server alloc insert
    erase post_recv FreeList.create find
Reaches-entered = next here (admitted (good_network always) around_us 1 4 refl)

Reaches-IsValid_example : (held : List ℕ) × IsValid held entered.1.server
Reaches-IsValid_example = Reaches-IsValid keys (λ p. reset) empty_table entered Reaches-entered

entered-players : entered.1.server.players ≡ (combine_id_index 2 7, 0) ∷ []
unfolding entered admit accept_round create_session create_at join join_proc new_server alloc insert
    erase post_recv FreeList.create find
entered-players = refl
