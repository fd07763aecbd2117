-- ===== src/ChatServer/Login/Tests.antt =====
-- A login job on a concrete store: a function from keys to values.
use chatting_server.Base.{◌≡◌, refl, true, false, [], ◌∷◌}
use chatting_server.Base.Outcome.{done, ◌>>=◌}
use chatting_server.Packet.{create}
use chatting_server.ChatServer.{Server, RedisJob, reset}
use chatting_server.ChatServer.Respond.{Surroundings, make_login_result}
use chatting_server.ChatServer.Login.{
  read_login, complete_login, check_key, redis_job, same_bytes, wide_copy,
}
use chatting_server.ChatServer.Login.Keys.{keys, stored}
use chatting_server.ChatServer.Login.Accepted.{redis_job-accepts}

abbrev around_us : Surroundings
around_us = record {
  raw = create;
  machine = record { fuel = 10; has_memory = true };
  rand = 16;
  now = 200;
  has_room = true;
}

abbrev waiting : Server
waiting = record {
  heap = λ p. reset;
  pool = record { top = []; max_count = 1; use_count = 1 };
  players = (0, 0) ∷ [];
  accounts = [];
  sector = λ y x. [];
  redis_q = [];
}

abbrev job : RedisJob
job = record { session = 0; packet = create }

same_bytes-differ : same_bytes (1 ∷ 2 ∷ []) (1 ∷ 3 ∷ []) ≡ false
unfolding same_bytes
same_bytes-differ = refl

wide_copy-short : wide_copy (9 ∷ 9 ∷ 9 ∷ 9 ∷ []) (65 ∷ 0 ∷ 0 ∷ 0 ∷ []) ≡ done (65 ∷ 0 ∷ 0 ∷ 0 ∷ [])
unfolding wide_copy
wide_copy-short = refl

redis_job-accepts_example : redis_job keys around_us around_us [] job stored waiting ≡ (
    read_login create >>= λ q. make_login_result around_us q.account q.id q.nick >>= λ result.
    complete_login around_us 0 result true [] waiting >>= λ r.
    done ((check_key keys stored q).0, r.0, r.1))
redis_job-accepts_example = redis_job-accepts keys around_us around_us [] job stored waiting
