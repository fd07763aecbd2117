-- ===== src/ChatServer/Login/Round.antt =====
-- A round of the thread of the logins, ConsoleApplication2/ChatServer.cpp, keeps the server valid.
use chatting_server.Base.{ℕ, List, [], ◌∷◌, length}
use chatting_server.Base.Outcome.{Ensures, both_Ensures, map_Ensures}
use chatting_server.ChatServer.{Server, RedisJob}
use chatting_server.ChatServer.Respond.{Surroundings}
use chatting_server.ChatServer.Lifecycle.Invariant.{IsValid}
use chatting_server.ChatServer.Login.{Redis, redis_job, redis_jobs, redis_round}
use chatting_server.ChatServer.Login.Validity.{redis_job-IsValid}

module _ (R : Redis) where
  redis_jobs-IsValid :
      (held : List ℕ) (e e' : ℕ → Surroundings) (unset : List ℕ) (jobs : List RedisJob)
      (st : R.Store) (s : Server)
      → IsValid held s
      → Ensures (redis_jobs R e e' unset jobs st s) (λ r. IsValid held r.1)
  unfolding redis_jobs
  redis_jobs-IsValid held e e' unset [] st s v = v
  redis_jobs-IsValid held e e' unset (job ∷ jobs) st s v =
      both_Ensures (redis_job R (e (length jobs)) (e' (length jobs)) unset job st s) _
        (λ r. IsValid held r.1) (λ r. IsValid held r.1)
        (λ r w.
          map_Ensures (redis_jobs R e e' unset jobs r.0 r.1) _ (λ q. IsValid held q.1)
            (λ q. IsValid held q.1) (λ q k. k) (redis_jobs-IsValid held e e' unset jobs r.0 r.1 w))
        (redis_job-IsValid R held (e (length jobs)) (e' (length jobs)) unset job st s v)

  -- A round of the thread of the logins, if it returns, leaves a valid server valid with the same
  -- blocks held, whatever the jobs in the queue hold and whatever is in the store.
  pub redis_round-IsValid :
      (held : List ℕ) (e e' : ℕ → Surroundings) (unset : List ℕ) (st : R.Store) (s : Server)
      → IsValid held s
      → Ensures (redis_round R e e' unset st s) (λ r. IsValid held r.1)
  unfolding redis_round
  redis_round-IsValid held e e' unset st s v =
      redis_jobs-IsValid held e e' unset s.redis_q st (record s { redis_q = [] })
        (record {
          owned = v.owned;
          mapped_held = v.mapped_held;
          mapped_session = v.mapped_session;
          mapped_ref = v.mapped_ref;
          mapped_open = v.mapped_open;
          placed = v.placed;
        })
