-- ===== src/ChatServer/Requests/Validity.antt =====
-- What every request keeps, ConsoleApplication2/ChatServer.cpp: `RecvProc` takes a reference on the
-- player, lets the handler of the request run, and gives the reference back.
use chatting_server.Base.{
  ℕ, ◌≡◌, refl, sym, ap, subst, ◌==◌, Bool, true, false, not, ◌||◌, List, some, arith, ==_refl,
  Bool-cases, inl, inr, ◌∙◌,
}
use chatting_server.Base.Maps.{find, member, update, update_hit, update_keeps}
use chatting_server.Base.Outcome.{Ensures, then_Ensures, if_Ensures}
use chatting_server.FreeList.Ownership.{Owned}
use chatting_server.Packet.{Packet, get_data, add_ref}
use chatting_server.Packet.Value.{get_value}
use chatting_server.ChatServer.{Player, Server, Action}
use chatting_server.ChatServer.Sector.{is_valid_sector}
use chatting_server.ChatServer.Lifecycle.{set_player, release_player}
use chatting_server.ChatServer.Lifecycle.Invariant.{IsValid, belongs, belongs-kept, owns}
use chatting_server.ChatServer.Lifecycle.Leave.{with_ref, release_player-two}
use chatting_server.ChatServer.Respond.{Surroundings, res_sector_move}
use chatting_server.ChatServer.Requests.{
  Garbage, move_player, req_sector_move, req_chat, req_login_redis, enqueue_redis, dispatch,
}
use chatting_server.ChatServer.Requests.Move.{Placed, move_player-Placed}

-- What a handler may not change while it serves the player `p`.
pub record Kept (p : ℕ) (s t : Server) : Type 0 where
  pub players : t.players ≡ s.players
  pub pool : t.pool ≡ s.pool
  pub others : (q : ℕ) → (p == q) ≡ false → t.heap q ≡ s.heap q
  pub session : (t.heap p).session_id ≡ (s.heap p).session_id
  pub ref : (t.heap p).ref ≡ (s.heap p).ref
  pub closing : (t.heap p).closing ≡ (s.heap p).closing
  pub placed : Placed s → owns s.heap s.players p ≡ true → Placed t

pub unchanged : (p : ℕ) (s : Server) → Kept p s s
unchanged p s = record {
  players = refl;
  pool = refl;
  others = λ q e. refl;
  session = refl;
  ref = refl;
  closing = refl;
  placed = λ h m. h;
}

abbrev pub Serves : ℕ → Server → Server × Bool × List Action → Type 0
Serves p s r = Kept p s r.0

move_player-Kept :
    (p x y now : ℕ) (s : Server) → is_valid_sector x y ≡ true → Kept p s (move_player s p x y now)
unfolding move_player
move_player-Kept p x y now s valid = record {
  players = refl;
  pool = refl;
  others = λ q e. rw e refl;
  session = ap Player.session_id (update_hit s.heap p _);
  ref = ap Player.ref (update_hit s.heap p _);
  closing = ap Player.closing (update_hit s.heap p _);
  placed = λ h m. move_player-Placed s p x y now h m valid;
}

req_sector_move-Kept :
    (e : Surroundings) (g : Garbage) (sid p : ℕ) (packet : Packet) (s : Server)
    → Ensures (req_sector_move e g sid p packet s) (Serves p s)
unfolding req_sector_move
req_sector_move-Kept e g sid p packet s = then_Ensures (get_value packet 8 0) _ (Serves p s) λ a.
    then_Ensures (get_value a.0 2 g.x) _ (Serves p s) λ b.
      then_Ensures (get_value b.0 2 g.y) _ (Serves p s) λ c.
        if_Ensures (is_valid_sector b.1 c.1) _ _ (Serves p s)
          (λ valid.
            then_Ensures (res_sector_move e a.1 b.1 c.1) _ (Serves p s)
              (λ r. move_player-Kept p b.1 c.1 e.now s valid))
          (λ _. unchanged p s)

req_chat-Kept :
    (e : Surroundings) (g : Garbage) (sid p : ℕ) (packet : Packet) (s : Server)
    → Ensures (req_chat e g sid p packet s) (Serves p s)
unfolding req_chat
req_chat-Kept e g sid p packet s =
    if_Ensures (not (s.heap p).is_logined) _ _ (Serves p s) (λ _. unchanged p s)
      (λ _. then_Ensures (get_value packet 8 0) _ (Serves p s) λ a.
        then_Ensures (get_value a.0 2 0) _ (Serves p s) λ b.
          if_Ensures (b.1 == 0) _ _ (Serves p s) (λ _. unchanged p s)
            (λ _. then_Ensures (get_data b.0 b.1) _ (Serves p s) λ c.
              then_Ensures _ _ (Serves p s) λ res.
                if_Ensures (is_valid_sector (s.heap p).sector_x (s.heap p).sector_y) _ _
                  (Serves p s) (λ _. unchanged p s) (λ _. unchanged p s)))

enqueue_redis-Kept :
    (e : Surroundings) (sid p : ℕ) (packet : Packet) (s : Server)
    → Kept p s (enqueue_redis e sid packet s)
unfolding enqueue_redis
enqueue_redis-Kept e sid p packet s = elim (Bool-cases e.has_room) [
  | inl h ↦ rw h (record {
    players = refl;
    pool = refl;
    others = λ q d. refl;
    session = refl;
    ref = refl;
    closing = refl;
    placed = λ h m. h;
  })
  | inr h ↦ rw h (unchanged p s)
]

req_login_redis-Kept :
    (e : Surroundings) (sid p : ℕ) (packet : Packet) (s : Server)
    → Ensures (req_login_redis e sid p packet s) (Serves p s)
unfolding req_login_redis
req_login_redis-Kept e sid p packet s =
    if_Ensures ((s.heap p).closing || not ((s.heap p).session_id == sid)) _ _ (Serves p s)
      (λ _. unchanged p s)
      (λ _.
        if_Ensures (not ((s.heap p).account_no == 0) || (s.heap p).is_logined) _ _ (Serves p s)
          (λ _. unchanged p s) (λ _. enqueue_redis-Kept e sid p (add_ref packet) s))

pub dispatch-Kept :
    (e : Surroundings) (g : Garbage) (type sid p : ℕ) (packet : Packet) (s : Server)
    → Ensures (dispatch e g type sid p packet s) (Serves p s)
unfolding dispatch
dispatch-Kept e g type sid p packet s =
    if_Ensures (type == 1) _ _ (Serves p s) (λ _. req_login_redis-Kept e sid p packet s)
      (λ _.
        if_Ensures (type == 3) _ _ (Serves p s) (λ _. req_sector_move-Kept e g sid p packet s)
          (λ _.
            if_Ensures (type == 5) _ _ (Serves p s) (λ _. req_chat-Kept e g sid p packet s)
              (λ _. unchanged p s)))

-- The server while `RecvProc` serves the player.
abbrev pub counted : Server → ℕ → Server
counted s p = set_player s p (with_ref 2 (s.heap p))

abbrev pub at_time : ℕ → Player → Player
at_time now v = record v { last_recv_time = now }

abbrev pub serving : Server → ℕ → ℕ → Server
serving s p now = set_player (counted s p) p (at_time now ((counted s p).heap p))

-- The server `t` is `s` with a second reference taken on the player `p`.
pub record Taken (p : ℕ) (s t : Server) : Type 0 where
  players : t.players ≡ s.players
  pool : t.pool ≡ s.pool
  sector : t.sector ≡ s.sector
  others : (q : ℕ) → (p == q) ≡ false → t.heap q ≡ s.heap q
  pub session : (t.heap p).session_id ≡ (s.heap p).session_id
  column : (t.heap p).sector_x ≡ (s.heap p).sector_x
  row : (t.heap p).sector_y ≡ (s.heap p).sector_y
  ref : (t.heap p).ref ≡ 2
  pub closing : (t.heap p).closing ≡ (s.heap p).closing

pub counted-Taken : (p : ℕ) (s : Server) → Taken p s (counted s p)
counted-Taken p s = record {
  players = refl;
  pool = refl;
  sector = refl;
  others = λ q e. rw e refl;
  session = ap Player.session_id body;
  column = ap Player.sector_x body;
  row = ap Player.sector_y body;
  ref = ap Player.ref body;
  closing = ap Player.closing body;
}
  where
    body : (counted s p).heap p ≡ with_ref 2 (s.heap p)
    body = update_hit s.heap p (with_ref 2 (s.heap p))

pub serving-Taken : (p now : ℕ) (s : Server) → Taken p s (serving s p now)
serving-Taken p now s = record {
  players = refl;
  pool = refl;
  sector = refl;
  others = λ q e. rw e refl;
  session = ap Player.session_id body;
  column = ap Player.sector_x body;
  row = ap Player.sector_y body;
  ref = ap Player.ref body;
  closing = ap Player.closing body;
}
  where
    body : (serving s p now).heap p ≡ at_time now (with_ref 2 (s.heap p))
    body =
        update_hit (counted s p).heap p _
        ∙ ap (at_time now) (update_hit s.heap p (with_ref 2 (s.heap p)))

module _ (held : List ℕ) (sid p : ℕ) (s t : Server) (v : IsValid held s)
    (found : find sid s.players ≡ some p) (b : Taken p s t) where
  -- What the player `p` and all others keep, every player keeps.
  everywhere :
      {B : Type 0} (g : Player → B)
      → g (t.heap p) ≡ g (s.heap p)
      → (q : ℕ) → g (t.heap q) ≡ g (s.heap q)
  everywhere g h q = elim (Bool-cases (p == q)) [
    | inl e ↦ let same : p ≡ q = ground arith in subst (λ r. g (t.heap r) ≡ g (s.heap r)) same h
    | inr e ↦ ap g (b.others q e)
  ]

  taken-Placed : Placed t
  taken-Placed q x y =
      ap (λ c. member q (c y x)) b.sector
      ∙ v.placed q x y
      ∙ sym (
          belongs-kept s.heap t.heap s.players q x y (everywhere Player.session_id b.session q)
            (everywhere Player.sector_x b.column q) (everywhere Player.sector_y b.row q))
      ∙ ap (λ m. belongs t.heap m q x y) (sym b.players)

  taken-owns : owns t.heap t.players p ≡ true
  taken-owns = rw (b.players, b.session, v.mapped_session sid p found, found) (==_refl p)

  pub served : (u : Server) → Kept p t u → IsValid held (release_player u p)
  served u k = rw (release_player-two u p two) (record {
    owned = subst (λ f. Owned f held) (sym (k.pool ∙ b.pool)) v.owned;
    mapped_held = λ j q e. v.mapped_held j q (entry j q e);
    mapped_session = λ j q e.
        kept Player.session_id (k.session ∙ b.session) q ∙ v.mapped_session j q (entry j q e);
    mapped_ref = λ j q e.
        kept Player.ref (sym (v.mapped_ref sid p found)) q ∙ v.mapped_ref j q (entry j q e);
    mapped_open =
        λ j q e. kept Player.closing (k.closing ∙ b.closing) q ∙ v.mapped_open j q (entry j q e);
    placed = λ q x y.
        k.placed taken-Placed taken-owns q x y
        ∙ sym (
            belongs-kept u.heap (update u.heap p (with_ref 1 (u.heap p))) u.players q x y
              (update_keeps Player.session_id u.heap p (with_ref 1 (u.heap p)) q refl)
              (update_keeps Player.sector_x u.heap p (with_ref 1 (u.heap p)) q refl)
              (update_keeps Player.sector_y u.heap p (with_ref 1 (u.heap p)) q refl));
  })
    where
      two : (u.heap p).ref ≡ 2
      two = k.ref ∙ b.ref

      entry : (j q : ℕ) → find j u.players ≡ some q → find j s.players ≡ some q
      entry j q e = sym (ap (find j) (k.players ∙ b.players)) ∙ e

      kept :
          {B : Type 0} (g : Player → B)
          → g (with_ref 1 (u.heap p)) ≡ g (s.heap p)
          → (q : ℕ) → g (update u.heap p (with_ref 1 (u.heap p)) q) ≡ g (s.heap q)
      kept g h q = elim (Bool-cases (p == q)) [
        | inl e ↦ let same : p ≡ q = ground arith in rw e (h ∙ ap (λ r. g (s.heap r)) same)
        | inr e ↦ rw e (ap g (k.others q e ∙ b.others q e))
      ]
