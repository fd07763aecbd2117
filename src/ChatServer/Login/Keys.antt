-- ===== src/ChatServer/Login/Keys.antt =====
-- A store for tests of the logins of ConsoleApplication2/ChatServer.cpp: a function from keys to
-- values, in which one value is stored under every key.
use chatting_server.Base.{ℕ, List, [], ◌∷◌, Option, some}
use chatting_server.Base.Maps.{update, update_hit}
use chatting_server.ChatServer.Login.{Redis}

abbrev pub keys : Redis
keys = record {
  Store = ℕ → Option (List ℕ);
  assign = λ st k v. update st k (some v);
  lookup = λ st k. st k;
  lookup-assign = λ st k v. update_hit st k (some v);
}

abbrev pub stored : ℕ → Option (List ℕ)
stored k = some (1 ∷ 2 ∷ [])
