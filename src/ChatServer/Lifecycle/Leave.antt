-- ===== src/ChatServer/Lifecycle/Leave.antt =====
-- `LeaveProc` of ConsoleApplication2/ChatServer.cpp: what is left of a player whose session ends.
use chatting_server.Base.{
  ℕ, ◌≡◌, refl, ap, ◌==◌, if◌then◌else◌, Bool, true, false, not, ◌&&◌, List, some, none, arith,
  ==_refl, Bool-cases, inl, inr, ◌∙◌,
}
use chatting_server.Base.Maps.{find, erase, update, update_hit, find-erase}
use chatting_server.ChatServer.{Player, Server}
use chatting_server.ChatServer.Sector.{is_valid_sector}
use chatting_server.ChatServer.Lifecycle.{
  close_player, set_player, leave_found, leave_proc, forget_account, leave_sector, add_ref_player,
  release_player, erase_at, points_to,
}

forget_account-kept :
    (sid : ℕ) (v : Player) (s : Server)
    → ((forget_account sid v s).heap ≡ s.heap)
      × ((forget_account sid v s).players ≡ s.players)
      × ((forget_account sid v s).pool ≡ s.pool)
      × ((forget_account sid v s).sector ≡ s.sector)
unfolding forget_account
forget_account-kept sid v s =
    elim (Bool-cases
      ((v.is_logined && not (v.account_no == 0)) && points_to sid (find v.account_no s.accounts))) [
        | inl e ↦ rw e (refl, refl, refl, refl)
        | inr e ↦ rw e (refl, refl, refl, refl)
      ]

-- The account `a` is the player's, which is logged in, and still leads to its session.
abbrev pub logs_out : ℕ → Player → ℕ → List (ℕ × ℕ) → Bool
logs_out sid v a accounts =
    (v.account_no == a && (v.is_logined && not (a == 0))) && points_to sid (find a accounts)

find-forget_account :
    (sid : ℕ) (v : Player) (s : Server) (a : ℕ)
    → find a (forget_account sid v s).accounts
      ≡ (if logs_out sid v a s.accounts then none else find a s.accounts)
unfolding forget_account
find-forget_account sid v s a = elim (Bool-cases (v.account_no == a)) [
  | inl e ↦
      let same : v.account_no ≡ a = ground arith in
      rw (same, ==_refl a)
        (elim (Bool-cases ((v.is_logined && not (a == 0)) && points_to sid (find a s.accounts))) [
          | inl f ↦ rw f (find-erase a a s.accounts ∙ rw (==_refl a) refl)
          | inr f ↦ rw f refl
        ])
  | inr e ↦
      let other : find a (erase v.account_no s.accounts) ≡ find a s.accounts =
        find-erase v.account_no a s.accounts ∙ rw e refl in
      rw e
        (elim (Bool-cases (
          (v.is_logined && not (v.account_no == 0))
          && points_to sid (find v.account_no s.accounts))) [
            | inl f ↦ rw f other
            | inr f ↦ rw f refl
          ])
]

leave_sector-kept :
    (p : ℕ) (v : Player) (s : Server)
    → ((leave_sector p v s).heap ≡ s.heap)
      × ((leave_sector p v s).players ≡ s.players)
      × ((leave_sector p v s).pool ≡ s.pool)
      × ((leave_sector p v s).accounts ≡ s.accounts)
unfolding leave_sector
leave_sector-kept p v s = elim (Bool-cases (is_valid_sector v.sector_x v.sector_y)) [
  | inl e ↦ rw e (refl, refl, refl, refl)
  | inr e ↦ rw e (refl, refl, refl, refl)
]

-- The player that has left: closed, and with the reference that the map had.
abbrev pub left : Player → Player
left v = record v { closing = true; ref = 1 }

-- The last reference that `LeaveProc` gives back is not the last one.
pub release_player-two :
    (s : Server) (p : ℕ)
    → (s.heap p).ref ≡ 2
    → release_player s p ≡ record s { heap = update s.heap p (record (s.heap p) { ref = 1 }) }
unfolding release_player
release_player-two s p two = rw two refl

-- The sectors without the player.
abbrev pub vacated : Server → ℕ → ℕ → ℕ → List ℕ
vacated s p =
    if is_valid_sector (s.heap p).sector_x (s.heap p).sector_y
    then erase_at s.sector (s.heap p).sector_x (s.heap p).sector_y p
    else s.sector

-- What `LeaveProc` does to the player's block.
abbrev shut : Player → Player
shut v = record v { closing = true }

abbrev pub with_ref : ℕ → Player → Player
with_ref n v = record v { ref = n }

pub add_ref_player-one :
    (s : Server) (p : ℕ)
    → (s.heap p).ref ≡ 1
    → add_ref_player s p ≡ set_player s p (with_ref 2 (s.heap p))
unfolding add_ref_player
add_ref_player-one s p one = rw one refl

-- The end of `LeaveProc`, with the player read once.
abbrev part_with : ℕ → ℕ → Server → Player → Server
part_with sid p t v = release_player (close_player (leave_sector p v (forget_account sid v t)) p) p

-- The steps of `LeaveProc` for a player that only the map refers to.
module _ (sid p : ℕ) (s : Server) (found : find sid s.players ≡ some p)
    (one : (s.heap p).ref ≡ 1) where
  abbrev erased : Server
  erased = record s { players = erase sid s.players }

  abbrev counted : Server
  counted = set_player erased p (with_ref 2 (s.heap p))

  abbrev closed : Player
  closed = shut (with_ref 2 (s.heap p))

  abbrev unmapped : Server
  unmapped = set_player counted p closed

  abbrev leaving : Server
  leaving = leave_sector p closed (forget_account sid closed unmapped)

  heap-leaving : leaving.heap ≡ unmapped.heap
  heap-leaving =
      (leave_sector-kept p closed (forget_account sid closed unmapped)).0
      ∙ (forget_account-kept sid closed unmapped).0

  close_player-counted : close_player (add_ref_player erased p) p ≡ unmapped
  close_player-counted =
      ap (λ t. close_player t p) (add_ref_player-one erased p one)
      ∙ ap (λ v. set_player counted p (shut v)) (update_hit s.heap p (with_ref 2 (s.heap p)))

  leave_proc-leaving : leave_proc sid s ≡ release_player (close_player leaving p) p
  unfolding leave_proc leave_found
  leave_proc-leaving =
      ap (leave_found sid s) found
      ∙ ap (λ t. part_with sid p t (t.heap p)) close_player-counted
      ∙ ap (part_with sid p unmapped) (update_hit counted.heap p closed)

  hit : leaving.heap p ≡ closed
  hit = ap (λ h. h p) heap-leaving ∙ update_hit counted.heap p closed

  hit-close_player : (close_player leaving p).heap p ≡ closed
  hit-close_player = update_hit leaving.heap p (shut (leaving.heap p)) ∙ ap shut hit

  abbrev last : Server
  last = set_player (close_player leaving p) p (with_ref 1 ((close_player leaving p).heap p))

  leave_proc-last : leave_proc sid s ≡ last
  leave_proc-last =
      leave_proc-leaving
      ∙ release_player-two (close_player leaving p) p (ap Player.ref hit-close_player)

  heap-last : last.heap p ≡ left (s.heap p)
  heap-last =
      update_hit (close_player leaving p).heap p (with_ref 1 ((close_player leaving p).heap p))
      ∙ ap (with_ref 1) hit-close_player

  heap-others : (q : ℕ) → (p == q) ≡ false → last.heap q ≡ s.heap q
  heap-others q e = rw e (ap (λ h. h q) heap-leaving ∙ rw e refl)

  pool-leaving : leaving.pool ≡ s.pool
  pool-leaving =
      (leave_sector-kept p closed (forget_account sid closed unmapped)).2
      ∙ (forget_account-kept sid closed unmapped).2

  players-leaving : leaving.players ≡ erase sid s.players
  players-leaving =
      (leave_sector-kept p closed (forget_account sid closed unmapped)).1
      ∙ (forget_account-kept sid closed unmapped).1

  sector-leaving : leaving.sector ≡ vacated s p
  unfolding leave_sector
  sector-leaving = elim (Bool-cases (is_valid_sector (s.heap p).sector_x (s.heap p).sector_y)) [
    | inl e ↦ rw e (
        ap (λ c. erase_at c (s.heap p).sector_x (s.heap p).sector_y p)
          (forget_account-kept sid closed unmapped).3)
    | inr e ↦ rw e (forget_account-kept sid closed unmapped).3
  ]

  accounts-leaving :
      (a : ℕ)
      → find a leaving.accounts
        ≡ (if logs_out sid (s.heap p) a s.accounts then none else find a s.accounts)
  accounts-leaving a =
      ap (find a) (leave_sector-kept p closed (forget_account sid closed unmapped)).3
      ∙ find-forget_account sid closed unmapped a

  -- `LeaveProc` on a session whose player has the one reference of the map: the session leaves the
  -- map and the player its sector, the player is closed, its account is forgotten if it is logged in
  -- under one that still leads to this session, all else stays, and so does the pool: the player has
  -- one reference left and its block is not given back.
  pub leave_proc_found :
      (let t = leave_proc sid s in
        (t.heap p ≡ left (s.heap p))
        × ((q : ℕ) → (p == q) ≡ false → t.heap q ≡ s.heap q)
        × (t.players ≡ erase sid s.players)
        × (t.pool ≡ s.pool)
        × (t.sector ≡ vacated s p)
        × ((a : ℕ)
            → find a t.accounts
              ≡ (if logs_out sid (s.heap p) a s.accounts then none else find a s.accounts)))
  leave_proc_found =
      rw leave_proc-last
        (heap-last, heap-others, players-leaving, pool-leaving, sector-leaving, accounts-leaving)
