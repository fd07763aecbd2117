-- ===== src/ChatServer/Requests/Sealed.antt =====
-- Every packet that a request of ConsoleApplication2/ChatServer.cpp sends is sealed.
use chatting_server.Base.{
  ℕ, ◌+◌, ◌%◌, ◌≡◌, refl, ◌==◌, Bool, true, not, ◌||◌, ltb, Bool-cases, inl, inr, List, [], ◌∷◌,
  ◌++◌, Option, some, none,
}
use chatting_server.Base.Outcome.{
  Outcome, done, ◌>>=◌, Ensures, then_Ensures, if_Ensures, map_Ensures,
}
use chatting_server.Packet.{Packet, get_data, header_size}
use chatting_server.Packet.Value.{get_value}
use chatting_server.Packet.Coding.{set_encoding_code}
use chatting_server.ChatServer.{Player, Server, Action, send_packet, disconnect}
use chatting_server.ChatServer.Sector.{is_valid_sector}
use chatting_server.ChatServer.Lifecycle.{set_player, acquire_player}
use chatting_server.ChatServer.Respond.{Surroundings, res_sector_move, res_chat}
use chatting_server.ChatServer.Requests.{
  Garbage, req_sector_move, req_chat, req_login_redis, dispatch, recv_found, recv_proc, on_recv,
  send_each,
}

abbrev pub IsSealed : Packet → Type 0
IsSealed q = q.is_encoded ≡ true

abbrev pub AllSealed : List Action → Type 0
AllSealed [] = Unit {0}
AllSealed (send_packet sid q ∷ rest) = IsSealed q × AllSealed rest
AllSealed (disconnect sid ∷ rest) = AllSealed rest

AllSealed-append : (xs ys : List Action) → AllSealed xs → AllSealed ys → AllSealed (xs ++ ys)
AllSealed-append [] ys h k = k
AllSealed-append (send_packet sid q ∷ xs) ys h k = (h.0, AllSealed-append xs ys h.1 k)
AllSealed-append (disconnect sid ∷ xs) ys h k = AllSealed-append xs ys h k

send_each-AllSealed : (q : Packet) (sids : List ℕ) → IsSealed q → AllSealed (send_each q sids)
unfolding send_each
send_each-AllSealed q [] h = tt
send_each-AllSealed q (sid ∷ sids) h = (h, send_each-AllSealed q sids h)

set_encoding_code-IsSealed : (p : Packet) (rand : ℕ) → Ensures (set_encoding_code p rand) IsSealed
unfolding set_encoding_code
set_encoding_code-IsSealed p rand =
    if_Ensures p.is_encoded _ _ IsSealed (λ e. e)
      (λ _.
        if_Ensures (ltb p.max_size (header_size + p.using_size % 65536)) _ _ IsSealed (λ _. tt)
          (λ _. refl))

res_sector_move-IsSealed :
    (e : Surroundings) (account x y : ℕ) → Ensures (res_sector_move e account x y) IsSealed
unfolding res_sector_move
res_sector_move-IsSealed e account x y =
    then_Ensures _ (λ p. set_encoding_code p e.rand) IsSealed
      (λ p. set_encoding_code-IsSealed p e.rand)

res_chat-IsSealed :
    (e : Surroundings) (v : Player) (msg : List ℕ) (len : ℕ)
    → Ensures (res_chat e v msg len) IsSealed
unfolding res_chat
res_chat-IsSealed e v msg len =
    then_Ensures _ (λ p. set_encoding_code p e.rand) IsSealed
      (λ p. set_encoding_code-IsSealed p e.rand)

-- If the first has the property and the second turns it into the other.
chain_Ensures {ℓ κ} :
    {A : Type ℓ} {B : Type κ} (o : Outcome A) (f : A → Outcome B) (P : A → Type 0) (Q : B → Type 0)
    → Ensures o P
    → ((a : A) → P a → Ensures (f a) Q)
    → Ensures (o >>= f) Q
chain_Ensures (done a) f P Q h k = k a h
chain_Ensures Outcome.overrun f P Q h k = tt
chain_Ensures Outcome.timed_out f P Q h k = tt

abbrev Sends : Server × Bool × List Action → Type 0
Sends r = AllSealed r.2

req_sector_move-Sends :
    (e : Surroundings) (g : Garbage) (sid p : ℕ) (packet : Packet) (s : Server)
    → Ensures (req_sector_move e g sid p packet s) Sends
unfolding req_sector_move
req_sector_move-Sends e g sid p packet s = then_Ensures (get_value packet 8 0) _ Sends λ a.
    then_Ensures (get_value a.0 2 g.x) _ Sends λ b. then_Ensures (get_value b.0 2 g.y) _ Sends λ c.
      if_Ensures (is_valid_sector b.1 c.1) _ _ Sends
        (λ _.
          map_Ensures (res_sector_move e a.1 b.1 c.1) _ IsSealed Sends (λ r h. (h, tt))
            (res_sector_move-IsSealed e a.1 b.1 c.1))
        (λ _. tt)

req_chat-Sends :
    (e : Surroundings) (g : Garbage) (sid p : ℕ) (packet : Packet) (s : Server)
    → Ensures (req_chat e g sid p packet s) Sends
unfolding req_chat
req_chat-Sends e g sid p packet s =
    if_Ensures (not (s.heap p).is_logined) _ _ Sends (λ _. tt)
      (λ _. then_Ensures (get_value packet 8 0) _ Sends λ a.
        then_Ensures (get_value a.0 2 0) _ Sends λ b.
          if_Ensures (b.1 == 0) _ _ Sends (λ _. tt)
            (λ _. then_Ensures (get_data b.0 b.1) _ Sends λ c.
              chain_Ensures _ _ IsSealed Sends (res_chat-IsSealed e (s.heap p) _ b.1) λ res h.
                if_Ensures (is_valid_sector (s.heap p).sector_x (s.heap p).sector_y) _ _ Sends
                  (λ _. send_each-AllSealed res _ h) (λ _. tt)))

req_login_redis-Sends :
    (e : Surroundings) (sid p : ℕ) (packet : Packet) (s : Server)
    → Ensures (req_login_redis e sid p packet s) Sends
unfolding req_login_redis
req_login_redis-Sends e sid p packet s =
    if_Ensures ((s.heap p).closing || not ((s.heap p).session_id == sid)) _ _ Sends (λ _. tt)
      (λ _.
        if_Ensures (not ((s.heap p).account_no == 0) || (s.heap p).is_logined) _ _ Sends (λ _. tt)
          (λ _. tt))

dispatch-Sends :
    (e : Surroundings) (g : Garbage) (type sid p : ℕ) (packet : Packet) (s : Server)
    → Ensures (dispatch e g type sid p packet s) Sends
unfolding dispatch
dispatch-Sends e g type sid p packet s =
    if_Ensures (type == 1) _ _ Sends (λ _. req_login_redis-Sends e sid p packet s)
      (λ _.
        if_Ensures (type == 3) _ _ Sends (λ _. req_sector_move-Sends e g sid p packet s)
          (λ _.
            if_Ensures (type == 5) _ _ Sends (λ _. req_chat-Sends e g sid p packet s) (λ _. tt)))

recv_found-Sends :
    (e : Surroundings) (g : Garbage) (sid : ℕ) (packet : Packet) (s : Server) (player : Option ℕ)
    → Ensures (recv_found e g sid packet s player) Sends
unfolding recv_found
recv_found-Sends e g sid packet s none = tt
recv_found-Sends e g sid packet s (some p) =
    let t = set_player s p (record (s.heap p) { last_recv_time = e.now }) in
    then_Ensures (get_value packet 2 0) _ Sends λ a.
      map_Ensures (dispatch e g a.1 sid p a.0 t) _ Sends Sends (λ r h. h)
        (dispatch-Sends e g a.1 sid p a.0 t)

-- Every packet that `OnRecv` asks to send, whatever it was given, is sealed: `SendPacket`, which seals
-- it for each receiver, does not change it.
pub on_recv-AllSealed :
    (e : Surroundings) (g : Garbage) (sid : ℕ) (packet : Packet) (s : Server)
    → Ensures (on_recv e g sid packet s) (λ r. AllSealed r.1)
unfolding on_recv recv_proc
on_recv-AllSealed e g sid packet s =
    map_Ensures (recv_proc e g sid packet s) _ Sends (λ (r : Server × List Action). AllSealed r.1)
      (λ r h. elim (Bool-cases r.1) [
        | inl ok ↦ rw ok h
        | inr failed ↦ rw failed (AllSealed-append r.2 (disconnect sid ∷ []) h tt)
      ])
      (recv_found-Sends e g sid packet (acquire_player s sid).0 (acquire_player s sid).1)
