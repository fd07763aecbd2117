-- ===== src/ChatServer/Lifecycle/Invariant.antt =====
-- What holds between two handlers: who is in the player map, in which sector, and who owns a block.
use chatting_server.Base.{
  ℕ, ◌≡◌, refl, sym, ap, subst, ◌==◌, if◌then◌else◌, Bool, true, false, ◌&&◌, List, Option, some,
  none, arith, ==_refl, Bool-cases, Option-cases, inl, inr, ◌∙◌,
}
use chatting_server.Base.Maps.{find, erase, insert, update, member, find-erase, find-insert}
use chatting_server.FreeList.Ownership.{Owned}
use chatting_server.ChatServer.{Player, Server, reset}
use chatting_server.ChatServer.Sector.{is_valid_sector}
use chatting_server.ChatServer.Lifecycle.{joined}

abbrev pub holds : ℕ → Option ℕ → Bool
holds p none = false
holds p (some q) = q == p

-- The player map leads from the session of block `p` to `p`.
abbrev pub owns : (ℕ → Player) → List (ℕ × ℕ) → ℕ → Bool
owns heap players p = holds p (find (heap p).session_id players)

-- The player is in the map, and the sector is valid and the one the player is in.
abbrev pub belongs : (ℕ → Player) → List (ℕ × ℕ) → ℕ → ℕ → ℕ → Bool
belongs heap players p x y =
    owns heap players p
    && (((heap p).sector_x == x && (heap p).sector_y == y) && is_valid_sector x y)

-- `held` are the blocks that the server took from the pool and did not give back.
pub record IsValid (held : List ℕ) (s : Server) : Type 0 where
  pub owned : Owned s.pool held
  pub mapped_held : (sid p : ℕ) → find sid s.players ≡ some p → member p held ≡ true
  pub mapped_session : (sid p : ℕ) → find sid s.players ≡ some p → (s.heap p).session_id ≡ sid
  pub mapped_ref : (sid p : ℕ) → find sid s.players ≡ some p → (s.heap p).ref ≡ 1
  pub mapped_open : (sid p : ℕ) → find sid s.players ≡ some p → (s.heap p).closing ≡ false
  pub placed : (p x y : ℕ) → member p (s.sector y x) ≡ belongs s.heap s.players p x y

-- A block that nobody holds is in no session's entry of the map.
unheld-owns :
    (held : List ℕ) (s : Server) (p : ℕ)
    → IsValid held s
    → member p held ≡ false
    → owns s.heap s.players p ≡ false
unheld-owns held s p v h = elim (Option-cases (find (s.heap p).session_id s.players)) [
  | inl e ↦ rw e refl
  | inr (q, e) ↦ rw e (ground (arith, v.mapped_held _ q e))
]

-- A heap that keeps session and sector of every player keeps who belongs where.
pub belongs-kept :
    (h h' : ℕ → Player) (players : List (ℕ × ℕ)) (p x y : ℕ)
    → (h' p).session_id ≡ (h p).session_id
    → (h' p).sector_x ≡ (h p).sector_x
    → (h' p).sector_y ≡ (h p).sector_y
    → belongs h' players p x y ≡ belongs h players p x y
belongs-kept h h' players p x y a b c = rw (a, b, c) refl

-- A new entry for another block is not an entry for `p`.
holds-insert :
    (p sid b k : ℕ) (m : List (ℕ × ℕ))
    → (b == p) ≡ false
    → find sid m ≡ none
    → holds p (if sid == k then some b else find k m) ≡ holds p (find k m)
holds-insert p sid b k m other absent = elim (Bool-cases (sid == k)) [
  | inl e ↦
      let same : sid ≡ k = ground arith in
      rw (e, subst (λ i. find i m ≡ none) same absent) (ground arith)
  | inr e ↦ rw e refl
]

-- `JoinProc` of a new session puts a player in the map, in no sector.
pub joined-placed :
    (held : List ℕ) (now sid b p x y : ℕ) (s : Server)
    → IsValid held s
    → member b held ≡ false
    → find sid s.players ≡ none
    → member p (s.sector y x)
      ≡ belongs (update s.heap b (joined now sid)) (insert sid b s.players) p x y
joined-placed held now sid b p x y s v fresh absent = elim (Bool-cases (b == p)) [
  | inl e ↦
      let same : b ≡ p = ground arith in
      v.placed p x y
      ∙ rw (unheld-owns held s p v (subst (λ q. member q held ≡ false) same fresh), e)
          (unfold joined reset in ground arith)
  | inr e ↦
      v.placed p x y
      ∙ rw (e, find-insert sid b (s.heap p).session_id s.players)
          (rw (sym (holds-insert p sid b (s.heap p).session_id s.players e absent)) refl)
]

-- `LeaveProc` takes the player out of the map and out of its sector, for all others nothing changes.

-- What is written to a block that nobody holds is seen by nobody.
pub unheld-placed :
    (held : List ℕ) (now sid b p x y : ℕ) (s : Server)
    → IsValid held s
    → member b held ≡ false
    → member p (s.sector y x) ≡ belongs (update s.heap b (joined now sid)) s.players p x y
unheld-placed held now sid b p x y s v fresh = elim (Bool-cases (b == p)) [
  | inl e ↦
      let same : b ≡ p = ground arith in
      v.placed p x y
      ∙ rw (unheld-owns held s p v (subst (λ q. member q held ≡ false) same fresh), e)
          (unfold joined reset in ground arith)
  | inr e ↦ v.placed p x y ∙ rw e refl
]

-- Without its entry the player of `sid` belongs nowhere, and the others stay.
pub owns-erase :
    (held : List ℕ) (s : Server) (sid q p : ℕ)
    → IsValid held s
    → find sid s.players ≡ some q
    → owns s.heap (erase sid s.players) p ≡ (if q == p then false else owns s.heap s.players p)
owns-erase held s sid q p v found = elim (Bool-cases (q == p)) [
  | inl e ↦
      let same : q ≡ p = ground arith in
      let session : (s.heap p).session_id ≡ sid = v.mapped_session sid p (found ∙ ap some same) in
      rw (find-erase sid (s.heap p).session_id s.players, e, session, ==_refl sid) refl
  | inr e ↦
      rw (find-erase sid (s.heap p).session_id s.players, e)
        (elim (Bool-cases (sid == (s.heap p).session_id)) [
          | inl f ↦
              let same : sid ≡ (s.heap p).session_id = ground arith in
              rw (f, subst (λ i. find i s.players ≡ some q) same found, e) refl
          | inr f ↦ rw f refl
        ])
]
