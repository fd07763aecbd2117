-- ===== src/ChatServer/Sample.antt =====
-- A chat server for tests of ConsoleApplication2/ChatServer.cpp: two logged-in players in sectors next
-- to each other.
use chatting_server.Base.{
  ℕ, refl, ◌==◌, if◌then◌else◌, true, false, ◌&&◌, List, [], ◌∷◌, replicate, arith,
}
use chatting_server.Base.Maps.{find, member}
use chatting_server.FreeList.Ownership.{Owned}
use chatting_server.ChatServer.{Player, Server}
use chatting_server.ChatServer.Lifecycle.Invariant.{IsValid}
use chatting_server.ChatServer.Respond.{Surroundings}
use chatting_server.ChatServer.Requests.Move.{Placed}

-- Block 0 is the player of session 7, block 1 that of session 8.
abbrev pub body : ℕ → Player
body p = record {
  ref = 1;
  closing = false;
  session_id = if p == 0 then 7 else 8;
  account_no = if p == 0 then 70 else 80;
  id = replicate 40 1;
  nick = replicate 40 2;
  session_key = replicate 64 0;
  sector_x = if p == 0 then 3 else 4;
  sector_y = 5;
  is_logined = true;
  last_recv_time = 100;
}

abbrev sets : ℕ → ℕ → List ℕ
sets y x = if y == 5 && x == 3 then 0 ∷ [] else (if y == 5 && x == 4 then 1 ∷ [] else [])

abbrev pub two : Server
two = record {
  heap = body;
  pool = record { top = []; max_count = 2; use_count = 2 };
  players = (7, 0) ∷ (8, 1) ∷ [];
  accounts = (70, 7) ∷ (80, 8) ∷ [];
  sector = sets;
  redis_q = [];
}

abbrev pub both : List ℕ
both = 0 ∷ 1 ∷ []

two-Owned : Owned two.pool both
unfolding member
two-Owned = record {
  free_distinct = tt;
  held_distinct = (refl, (refl, tt));
  apart = λ b h. ground arith;
  free_made = λ b h. ground arith;
  held_made = λ b h. ground arith;
  in_use = refl;
  made = refl;
}

two-Placed : Placed two
unfolding member find
two-Placed p x y = ground arith

pub two-IsValid : IsValid both two
unfolding find member
two-IsValid = record {
  owned = two-Owned;
  mapped_held = λ k p e. ground arith;
  mapped_session = λ k p e. ground arith;
  mapped_ref = λ k p e. refl;
  mapped_open = λ k p e. refl;
  placed = two-Placed;
}

abbrev pub around_us : Surroundings
around_us = record {
  raw = record {
    max_size = 512;
    front = 0;
    rear = 0;
    using_size = 0;
    ref_count = 0;
    block = [];
    is_encoded = false;
  };
  machine = record { fuel = 10; has_memory = true };
  rand = 16;
  now = 200;
  has_room = true;
}
