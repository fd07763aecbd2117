-- ===== src/ChatServer/Requests/Move.antt =====
-- `Req_SectorMove` of ConsoleApplication2/ChatServer.cpp: where the player is afterwards.
use chatting_server.Base.{
  ℕ, ◌≡◌, subst, ◌==◌, if◌then◌else◌, true, false, List, arith, ==_refl, Bool-cases, inl, inr,
}
use chatting_server.Base.Maps.{member, member-remove, member-add}
use chatting_server.ChatServer.{Server}
use chatting_server.ChatServer.Sector.{is_valid_sector}
use chatting_server.ChatServer.Lifecycle.{insert_at, erase_at}
use chatting_server.ChatServer.Lifecycle.Invariant.{belongs, owns}
use chatting_server.ChatServer.Requests.{move_player}

-- The sets of the sectors are those of the players in the map.
abbrev pub Placed : Server → Type 0
Placed s = (p x y : ℕ) → member p (s.sector y x) ≡ belongs s.heap s.players p x y

module _ (s : Server) (p x y now : ℕ) (placed : Placed s) (mapped : owns s.heap s.players p ≡ true)
    (valid : is_valid_sector x y ≡ true) where
  abbrev old : ℕ → ℕ → List ℕ
  old =
      if is_valid_sector (s.heap p).sector_x (s.heap p).sector_y
      then erase_at s.sector (s.heap p).sector_x (s.heap p).sector_y p
      else s.sector

  member-old :
      (q a b : ℕ) → member q (old b a) ≡ (if p == q then false else member q (s.sector b a))
  member-old q a b = elim (Bool-cases (p == q)) [
    | inl g ↦
        let same : p ≡ q = ground arith in
        subst (λ r. member r (old b a) ≡ (if p == r then false else member r (s.sector b a))) same
          (rw (==_refl p) gone)
    | inr g ↦ rw g (ground (arith, member-remove q p (s.sector b a), g))
  ]
    where
      gone : member p (old b a) ≡ false
      gone = ground (arith, member-remove p p (s.sector b a), ==_refl p, placed p a b)

  -- Afterwards the player of the request is in the sector that it asked for and in no other, and
  -- every other player is where it was.
  pub move_player-Placed : Placed (move_player s p x y now)
  unfolding move_player
  move_player-Placed q a b = elim (Bool-cases (p == q)) [
    | inl g ↦
        let same : p ≡ q = ground arith in
        subst
          (λ r.
            member r (insert_at old x y p b a)
            ≡ belongs (move_player s p x y now).heap s.players r a b)
          same
          (rw (==_refl p, mapped)
            (ground (arith, member-add p p (old b a), member-old p a b, ==_refl p, valid)))
    | inr g ↦ rw g (ground (arith, member-add q p (old b a), member-old q a b, g, placed q a b))
  ]
