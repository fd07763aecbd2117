-- ===== src/ChatServer/Login/Accepted.antt =====
-- What a login job comes to, ConsoleApplication2/ChatServer.cpp.
use chatting_server.Base.{ℕ, ◌≡◌, refl, ap, fun_ext, true, List, [], ◌∷◌, ==_refl, arith}
use chatting_server.Base.Outcome.{done, ◌>>=◌}
use chatting_server.ChatServer.{Server, RedisJob}
use chatting_server.ChatServer.Respond.{Surroundings, make_login_result}
use chatting_server.ChatServer.Login.{
  Redis, same_bytes, LoginRequest, read_login, complete_login, check_key, redis_job,
}

same_bytes_refl : (bs : List ℕ) → same_bytes bs bs ≡ true
unfolding same_bytes
same_bytes_refl [] = refl
same_bytes_refl (b ∷ bs) = ground (arith, same_bytes_refl bs, ==_refl b)

check_key-accepts : (R : Redis) (st : R.Store) (q : LoginRequest) → (check_key R st q).1 ≡ true
unfolding check_key
check_key-accepts R st q =
    rw (R.lookup-assign st q.account q.session_key) (same_bytes_refl q.session_key)

-- The thread of the logins accepts every job, whatever the store held for the account and whatever
-- session key the client sent: the job does what it would do without the comparison.
pub redis_job-accepts :
    (R : Redis) (e e' : Surroundings) (unset : List ℕ) (job : RedisJob) (st : R.Store) (s : Server)
    → redis_job R e e' unset job st s ≡ (
        read_login job.packet >>= λ q. make_login_result e q.account q.id q.nick >>= λ result.
        complete_login e' job.session result true unset s >>= λ r.
        done ((check_key R st q).0, r.0, r.1))
unfolding redis_job
redis_job-accepts R e e' unset job st s =
    ap (λ f. read_login job.packet >>= f)
      (fun_ext λ q.
        ap
          (λ ok. make_login_result e q.account q.id q.nick >>= λ result.
            complete_login e' job.session result ok unset s >>= λ r.
            done ((check_key R st q).0, r.0, r.1))
          (check_key-accepts R st q))
