-- ===== src/ChatServer/Login/Validity.antt =====
-- `CompleteLogin` and the body of the loop of `RedisThread`, ConsoleApplication2/ChatServer.cpp, keep
-- the server valid, whatever the job holds and whatever redis replies.
use chatting_server.Base.{
  ℕ, ◌≡◌, refl, sym, ap, Bool, true, false, not, ◌==◌, if◌then◌else◌, List, some, Option-cases, inl,
  inr, arith, ◌∙◌,
}
use chatting_server.Base.Maps.{find, update, update_hit, update_keeps}
use chatting_server.Base.Outcome.{Ensures, then_Ensures, if_Ensures, map_Ensures}
use chatting_server.Packet.{Packet, get_data}
use chatting_server.Packet.Value.{get_value}
use chatting_server.ChatServer.{Player, Server, RedisJob}
use chatting_server.ChatServer.Lifecycle.Invariant.{IsValid, belongs-kept}
use chatting_server.ChatServer.Respond.{Surroundings, res_login, make_login_result}
use chatting_server.ChatServer.Requests.Receive.{acquire_player-counted, acquire_player-absent}
use chatting_server.ChatServer.Requests.Validity.{
  Kept, unchanged, Taken, counted, counted-Taken, served,
}
use chatting_server.ChatServer.Login.{
  Redis, read_login, wide_copy, bytes_or, check_key, accept_login, refuse_login, complete_found,
  complete_login, redis_job,
}

accept_login-Kept :
    (e : Surroundings) (sid p account : ℕ) (id nick : List ℕ) (s : Server)
    → Ensures (accept_login e sid p account id nick s) (λ r. Kept p s r.0)
unfolding accept_login
accept_login-Kept e sid p account id nick s =
    then_Ensures (wide_copy (s.heap p).id id) _ (λ r. Kept p s r.0)
      λ i.
        then_Ensures (wide_copy (s.heap p).nick nick) _ (λ r. Kept p s r.0)
          λ n.
            then_Ensures (res_login e account 1) _ (λ r. Kept p s r.0)
              λ res.
                let v : Player = record (s.heap p) {
                  is_logined = true;
                  account_no = account;
                  id = i;
                  nick = n;
                } in
                record {
                  players = refl;
                  pool = refl;
                  others = λ q d. rw d refl;
                  session = ap Player.session_id (update_hit s.heap p v);
                  ref = ap Player.ref (update_hit s.heap p v);
                  closing = ap Player.closing (update_hit s.heap p v);
                  placed = λ h m q x y.
                      h q x y
                      ∙ sym (
                          belongs-kept s.heap (update s.heap p v) s.players q x y
                            (update_keeps Player.session_id s.heap p v q refl)
                            (update_keeps Player.sector_x s.heap p v q refl)
                            (update_keeps Player.sector_y s.heap p v q refl));
                }

refuse_login-Kept :
    (e : Surroundings) (sid p account : ℕ) (s : Server)
    → Ensures (refuse_login e sid account s) (λ r. Kept p s r.0)
unfolding refuse_login
refuse_login-Kept e sid p account s =
    then_Ensures (res_login e account 0) _ (λ r. Kept p s r.0) (λ res. unchanged p s)

reply-Kept :
    (e : Surroundings) (sid p account : ℕ) (success : Bool) (id nick : List ℕ) (s : Server)
    → Ensures
        (if success then accept_login e sid p account id nick s else refuse_login e sid account s)
        (λ r. Kept p s r.0)
reply-Kept e sid p account success id nick s =
    if_Ensures success _ _ (λ r. Kept p s r.0) (λ _. accept_login-Kept e sid p account id nick s)
      (λ _. refuse_login-Kept e sid p account s)

complete_found-IsValid :
    (held : List ℕ) (e : Surroundings) (sid p : ℕ) (packet : Packet) (success : Bool)
    (unset : List ℕ) (s : Server)
    → IsValid held s
    → find sid s.players ≡ some p
    → Ensures
        (complete_found e sid packet success unset (counted s p) (some p))
        (λ r. IsValid held r.0)
unfolding complete_found
complete_found-IsValid held e sid p packet success unset s v found =
    if_Ensures (not (((counted s p).heap p).session_id == sid)) _ _ (λ r. IsValid held r.0)
      (λ other. ground (arith, other, session))
      (λ _.
        if_Ensures ((counted s p).heap p).closing _ _ (λ r. IsValid held r.0)
          (λ closed. ground (arith, closed, open_yet))
          (λ _.
            then_Ensures (get_value packet 8 0) _ (λ r. IsValid held r.0)
              λ x.
                then_Ensures (get_data x.0 40) _ (λ r. IsValid held r.0)
                  λ y.
                    then_Ensures (get_data y.0 40) _ (λ r. IsValid held r.0)
                      λ z.
                        map_Ensures _ _ (λ r. Kept p (counted s p) r.0) (λ r. IsValid held r.0)
                          (λ r k. served held sid p s (counted s p) v found b r.0 k)
                          (reply-Kept e sid p x.1 success (bytes_or unset y.1) (bytes_or unset z.1)
                            (counted s p))))
  where
    b : Taken p s (counted s p)
    b = counted-Taken p s

    session : ((counted s p).heap p).session_id ≡ sid
    session = b.session ∙ v.mapped_session sid p found

    open_yet : ((counted s p).heap p).closing ≡ false
    open_yet = b.closing ∙ v.mapped_open sid p found

complete_login-IsValid :
    (held : List ℕ) (e : Surroundings) (sid : ℕ) (packet : Packet) (success : Bool) (unset : List ℕ)
    (s : Server)
    → IsValid held s
    → Ensures (complete_login e sid packet success unset s) (λ r. IsValid held r.0)
unfolding complete_login
complete_login-IsValid held e sid packet success unset s v =
    elim (Option-cases (find sid s.players)) [
      | inl absent ↦ rw (acquire_player-absent sid s absent) (unfold complete_found in v)
      | inr (p, found) ↦
          rw (acquire_player-counted held sid p s v found)
            (complete_found-IsValid held e sid p packet success unset s v found)
    ]

module _ (R : Redis) where
  -- A job of the thread of the logins, if its handling returns, leaves a valid server valid with the
  -- same blocks held, whatever the job's packet holds and whatever is in the store.
  pub redis_job-IsValid :
      (held : List ℕ) (e e' : Surroundings) (unset : List ℕ) (job : RedisJob) (st : R.Store)
      (s : Server)
      → IsValid held s
      → Ensures (redis_job R e e' unset job st s) (λ r. IsValid held r.1)
  unfolding redis_job
  redis_job-IsValid held e e' unset job st s v =
      then_Ensures (read_login job.packet) _ (λ r. IsValid held r.1)
        λ q.
          then_Ensures (make_login_result e q.account q.id q.nick) _ (λ r. IsValid held r.1)
            λ result.
              map_Ensures (complete_login e' job.session result (check_key R st q).1 unset s) _
                (λ r. IsValid held r.0) (λ r. IsValid held r.1) (λ r k. k)
                (complete_login-IsValid held e' job.session result (check_key R st q).1 unset s v)
