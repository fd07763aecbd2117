-- ===== src/ChatServer/Login.antt =====
-- Logins, ConsoleApplication2/ChatServer.cpp: the body of the loop of `RedisThread` and
-- `CompleteLogin`. The store that redis keeps is an interface: a value that was stored under a key is
-- the one that is read under it. A key is the account that `_i64toa_s` prints.
pub mod Accepted
pub mod Keys
pub mod Validity
pub mod Round
mod Tests
use chatting_server.Base.{
  ℕ, ◌+◌, ◌≡◌, ◌==◌, if◌then◌else◌, not, Bool, true, false, ◌&&◌, List, [], ◌∷◌, Option, some, none,
  replicate, take, length, ◌++◌,
}
use chatting_server.Base.Maps.{insert}
use chatting_server.Base.Outcome.{Outcome, done, overrun, ◌>>=◌}
use chatting_server.Packet.{Packet, get_data}
use chatting_server.Packet.Value.{get_value}
use chatting_server.ChatServer.{Player, Server, RedisJob, Action, send_packet}
use chatting_server.ChatServer.Lifecycle.{set_player, acquire_player, release_player}
use chatting_server.ChatServer.Respond.{Surroundings, res_login, make_login_result}

-- The store of redis after `set` and what `get` replies, each with its commit.
pub record Redis : Type 1 where
  pub Store : Type 0
  pub assign : Store → ℕ → List ℕ → Store
  pub lookup : Store → ℕ → Option (List ℕ)
  pub lookup-assign : (st : Store) (k : ℕ) (v : List ℕ) → lookup (assign st k v) k ≡ some v

-- The comparison in the reply: equal sizes and `memcmp`.
unfoldable pub same_bytes : List ℕ → List ℕ → Bool
same_bytes [] [] = true
same_bytes [] (b ∷ bs) = false
same_bytes (a ∷ xs) [] = false
same_bytes (a ∷ xs) (b ∷ bs) = a == b && same_bytes xs bs

abbrev is_reply : List ℕ → Option (List ℕ) → Bool
is_reply key none = false
is_reply key (some v) = same_bytes v key

-- A buffer of zeros after `GetData` into it.
abbrev bytes_or : List ℕ → Option (List ℕ) → List ℕ
bytes_or old none = old
bytes_or old (some bs) = bs

-- What a job's packet holds.
pub record LoginRequest : Type 0 where
  pub account : ℕ
  pub id : List ℕ
  pub nick : List ℕ
  pub session_key : List ℕ

-- The reads at the head of the loop's body
unfoldable pub read_login : Packet → Outcome LoginRequest
read_login packet = get_value packet 8 0 >>= λ a. get_data a.0 40 >>= λ b. get_data b.0 40 >>= λ c.
    get_data c.0 64 >>= λ d. done (record {
      account = a.1;
      id = bytes_or (replicate 40 0) b.1;
      nick = bytes_or (replicate 40 0) c.1;
      session_key = bytes_or (replicate 64 0) d.1;
    })

-- `wcscpy_s` on the bytes of the wide characters: up to the first zero; without one it stops the
-- program.
unfoldable pub wide_copy : List ℕ → List ℕ → Outcome (List ℕ)
wide_copy (c ∷ d ∷ old) (a ∷ b ∷ src) =
    let rest = wide_copy old src in
    if a == 0 && b == 0 then done (0 ∷ 0 ∷ old) else (rest >>= λ r. done (a ∷ b ∷ r))
wide_copy _ _ = overrun

-- The branch of `CompleteLogin` for a login that succeeded.
unfoldable pub accept_login :
    Surroundings → ℕ → ℕ → ℕ → List ℕ → List ℕ → Server → Outcome (Server × List Action)
accept_login e sid p account id nick s =
    let v = s.heap p in
    wide_copy v.id id >>= λ i. wide_copy v.nick nick >>= λ n. res_login e account 1 >>= λ res.
    done (
      set_player (record s { accounts = insert account sid s.accounts }) p
          (record v { is_logined = true; account_no = account; id = i; nick = n }),
      send_packet sid res ∷ [],
    )

-- The branch for one that failed.
unfoldable pub refuse_login : Surroundings → ℕ → ℕ → Server → Outcome (Server × List Action)
refuse_login e sid account s = res_login e account 0 >>= λ res. done (s, send_packet sid res ∷ [])

unfoldable pub complete_found :
    Surroundings → ℕ → Packet → Bool → List ℕ → Server → Option ℕ → Outcome (Server × List Action)
unfolding accept_login refuse_login release_player
complete_found e sid packet success unset s none = done (s, [])
complete_found e sid packet success unset s (some p) =
    if not ((s.heap p).session_id == sid)
    then done (s, [])
    else (if (s.heap p).closing
        then done (release_player s p, [])
        else (get_value packet 8 0 >>= λ a. get_data a.0 40 >>= λ b. get_data b.0 40 >>= λ c.
            (if success
              then accept_login e sid p a.1 (bytes_or unset b.1) (bytes_or unset c.1) s
              else refuse_login e sid a.1 s)
            >>= λ r. done (release_player r.0 p, r.1)))

-- `CompleteLogin(sessionID, packet, success)`; `unset` is what its locals hold before `GetData`.
unfoldable pub complete_login :
    Surroundings → ℕ → Packet → Bool → List ℕ → Server → Outcome (Server × List Action)
unfolding acquire_player complete_found
complete_login e sid packet success unset s =
    let (t, player) = acquire_player s sid in complete_found e sid packet success unset t player

module _ (R : Redis) where
  -- `redis->set`, `redis->get` and the comparison of its reply: the store and `ok`
  unfoldable pub check_key : R.Store → LoginRequest → R.Store × Bool
  check_key st q =
      let st' = R.assign st q.account q.session_key in
      (st', is_reply q.session_key (R.lookup st' q.account))

  -- The body of the loop of `RedisThread` for one job; `e` is for the result packet, `e'` for the
  -- response.
  unfoldable pub redis_job :
      Surroundings
      → Surroundings
      → List ℕ
      → RedisJob
      → R.Store
      → Server
      → Outcome (R.Store × Server × List Action)
  unfolding complete_login check_key read_login
  redis_job e e' unset job st s = read_login job.packet >>= λ q.
      make_login_result e q.account q.id q.nick >>= λ result.
      complete_login e' job.session result (check_key st q).1 unset s >>= λ r.
      done ((check_key st q).0, r.0, r.1)

  -- The inner loop of `RedisThread` over the jobs in the queue; `e` and `e'` give what surrounds the
  -- job behind which so many wait.
  unfoldable pub redis_jobs :
      (ℕ → Surroundings)
      → (ℕ → Surroundings)
      → List ℕ
      → List RedisJob
      → R.Store
      → Server
      → Outcome (R.Store × Server × List Action)
  unfolding redis_job
  redis_jobs e e' unset [] st s = done (st, s, [])
  redis_jobs e e' unset (job ∷ jobs) st s =
      redis_job (e (length jobs)) (e' (length jobs)) unset job st s >>= λ r.
      redis_jobs e e' unset jobs r.0 r.1 >>= λ q. done (q.0, q.1, r.2 ++ q.2)

  -- A round of `RedisThread` when the event wakes it: all jobs are taken out of the queue.
  unfoldable pub redis_round :
      (ℕ → Surroundings)
      → (ℕ → Surroundings)
      → List ℕ
      → R.Store
      → Server
      → Outcome (R.Store × Server × List Action)
  unfolding redis_jobs
  redis_round e e' unset st s = redis_jobs e e' unset s.redis_q st (record s { redis_q = [] })
