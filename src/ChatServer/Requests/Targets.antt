-- ===== src/ChatServer/Requests/Targets.antt =====
-- Who hears a chat message, ConsoleApplication2/ChatServer.cpp: the sessions that `Req_Chat` collects
-- from the sectors around the player.
use chatting_server.Base.{
  ℕ, ◌<◌, ◌≡◌, refl, sym, ap, subst, ◌==◌, true, ◌&&◌, ◌||◌, List, [], ◌∷◌, ◌++◌, Option, some,
  none, arith, ==_refl, Bool-cases, inl, inr, ◌∙◌,
}
use chatting_server.Base.Maps.{find, member}
use chatting_server.ChatServer.{Player, Server}
use chatting_server.ChatServer.Sector.{is_valid_sector, make_around, listed, near}
use chatting_server.ChatServer.Sector.Around.{listed-make_around}
use chatting_server.ChatServer.Lifecycle.Invariant.{IsValid, owns, holds}
use chatting_server.ChatServer.Requests.{logged_in, targets}

member-append : (q : ℕ) (ps qs : List ℕ) → member q (ps ++ qs) ≡ (member q ps || member q qs)
unfolding member
member-append q [] qs = refl
member-append q (p ∷ ps) qs = ground (arith, member-append q ps qs)

-- A logged-in player among `ps` whose session is `sid`.
abbrev Logged : (ℕ → Player) → ℕ → List ℕ → ℕ → Type 0
Logged heap sid ps p =
    (member p ps ≡ true) × ((heap p).is_logined ≡ true) × ((heap p).session_id ≡ sid)

logged_in_sound :
    (heap : ℕ → Player) (sid : ℕ) (ps : List ℕ)
    → member sid (logged_in heap ps) ≡ true
    → (p : ℕ) × Logged heap sid ps p
unfolding logged_in member
logged_in_sound heap sid [] h = cc
logged_in_sound heap sid (p ∷ ps) h =
    elim (Bool-cases (((heap p).session_id == sid) && (heap p).is_logined)) [
      | inl e ↦ (p, (ground (arith, ==_refl p), ground arith, ground arith))
      | inr e ↦
          let (q, (among, logged, session)) = logged_in_sound heap sid ps (ground arith) in
          (q, (ground (arith, among), logged, session))
    ]

logged_in_complete :
    (heap : ℕ → Player) (p : ℕ) (ps : List ℕ)
    → member p ps ≡ true
    → (heap p).is_logined ≡ true
    → member (heap p).session_id (logged_in heap ps) ≡ true
unfolding logged_in member
logged_in_complete heap p [] h logged = cc
logged_in_complete heap p (q ∷ ps) h logged = elim (Bool-cases (q == p)) [
  | inl e ↦ let same : q ≡ p = ground arith in rw (same, logged, ==_refl (heap p).session_id) refl
  | inr e ↦
      let rest = logged_in_complete heap p ps (ground arith) logged in
      elim (Bool-cases (heap q).is_logined) [
        | inl l ↦ rw l (ground (arith, rest))
        | inr l ↦ rw l rest
      ]
]

targets_sound :
    (s : Server) (sid : ℕ) (cells : List (ℕ × ℕ))
    → member sid (targets s cells) ≡ true
    → (x y p : ℕ) × (listed x y cells ≡ true) × Logged s.heap sid (s.sector y x) p
unfolding targets listed
targets_sound s sid [] h = unfold member in cc
targets_sound s sid ((x, y) ∷ cells) h =
    elim (Bool-cases (member sid (logged_in s.heap (s.sector y x)))) [
      | inl e ↦
          let (p, here) = logged_in_sound s.heap sid (s.sector y x) e in
          (x, y, p, ground (arith, ==_refl x, ==_refl y), here)
      | inr e ↦
          let (a, b, p, among, here) = targets_sound s sid cells (
            ground
              (arith, member-append sid (logged_in s.heap (s.sector y x)) (targets s cells))) in
          (a, b, p, ground (arith, among), here)
    ]

targets_complete :
    (s : Server) (a b p : ℕ) (cells : List (ℕ × ℕ))
    → listed a b cells ≡ true
    → member p (s.sector b a) ≡ true
    → (s.heap p).is_logined ≡ true
    → member (s.heap p).session_id (targets s cells) ≡ true
unfolding targets listed
targets_complete s a b p [] h within logged = cc
targets_complete s a b p ((x, y) ∷ cells) h within logged =
    member-append (s.heap p).session_id (logged_in s.heap (s.sector y x)) (targets s cells)
    ∙ elim (Bool-cases (x == a && y == b)) [
      | inl e ↦
          let column : x ≡ a = ground arith in
          let row : y ≡ b = ground arith in
          rw (column, row, logged_in_complete s.heap p (s.sector b a) within logged) refl
      | inr e ↦ ground (arith, targets_complete s a b p cells (ground arith) within logged)
    ]

holds-some : (p : ℕ) (o : Option ℕ) → holds p o ≡ true → o ≡ some p
holds-some p none h = cc
holds-some p (some q) h = let same : q ≡ p = ground arith in ap some same

-- The player is in a sector that is valid and next to `x`, `y` or that one itself.
abbrev pub Hears : Player → ℕ → ℕ → Type 0
Hears v x y =
    (v.is_logined ≡ true)
    × (is_valid_sector v.sector_x v.sector_y ≡ true)
    × ((near v.sector_x x && near v.sector_y y) ≡ true)

-- A message said in a sector goes to the sessions whose player is in the map, is logged in, and is in
-- that sector or one next to it, and to no others.
pub targets_around :
    (held : List ℕ) (s : Server) (sid x y : ℕ)
    → IsValid held s
    → x < 50
    → y < 50
    → (member sid (targets s (make_around x y)) ≡ true
        → (p : ℕ) × (find sid s.players ≡ some p) × Hears (s.heap p) x y)
      × ((p : ℕ)
          → find sid s.players ≡ some p
          → Hears (s.heap p) x y
          → member sid (targets s (make_around x y)) ≡ true)
targets_around held s sid x y v h l = (heard, hearing)
  where
    heard :
        member sid (targets s (make_around x y)) ≡ true
        → (p : ℕ) × (find sid s.players ≡ some p) × Hears (s.heap p) x y
    heard m =
        let (a, b, p, around, (within, logged, session)) =
          targets_sound s sid (make_around x y) m in
        let placed = v.placed p a b in
        let there = listed-make_around a b x y h l in
        let mapped : owns s.heap s.players p ≡ true = ground arith in
        let column : (s.heap p).sector_x ≡ a = ground arith in
        let row : (s.heap p).sector_y ≡ b = ground arith in
        (
          p,
          ap (λ i. find i s.players) (sym session)
              ∙ holds-some p (find (s.heap p).session_id s.players) mapped,
          (logged, rw (column, row) (ground arith), rw (column, row) (ground arith)),
        )

    hearing :
        (p : ℕ)
        → find sid s.players ≡ some p
        → Hears (s.heap p) x y
        → member sid (targets s (make_around x y)) ≡ true
    hearing p found (logged, valid, close) =
        let session = v.mapped_session sid p found in
        let there = listed-make_around (s.heap p).sector_x (s.heap p).sector_y x y h l in
        subst (λ i. member i (targets s (make_around x y)) ≡ true) session
          (targets_complete s (s.heap p).sector_x (s.heap p).sector_y p (make_around x y)
            (there ∙ rw (close, valid) refl)
            (v.placed p (s.heap p).sector_x (s.heap p).sector_y
              ∙ rw
                  (
                    session,
                    found,
                    ==_refl p,
                    ==_refl (s.heap p).sector_x,
                    ==_refl (s.heap p).sector_y,
                    valid,
                  )
                  refl)
            logged)
