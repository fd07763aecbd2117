-- ===== src/ChatServer/Lifecycle/Join.antt =====
-- `JoinProc` of ConsoleApplication2/ChatServer.cpp, for a session that is new and for one that is
-- not.
use chatting_server.Base.{
  ℕ, ◌≡◌, refl, sym, ap, subst, ◌==◌, if◌then◌else◌, Bool, true, false, List, ◌∷◌, some, none,
  arith, ==_refl, Bool-cases, inl, inr, ◌∙◌,
}
use mathlib.Core.Bool.{false≢true}
use chatting_server.Base.Maps.{
  find, insert, remove, update, member, find-insert, update_hit, remove_absent,
}
use chatting_server.Base.Outcome.{done}
use chatting_server.FreeList.{free}
use chatting_server.FreeList.Ownership.{Owned, alloc-Owned, free-Owned}
use chatting_server.ChatServer.{Player, Server, reset}
use chatting_server.ChatServer.Lifecycle.{joined, join_new, join_proc}
use chatting_server.ChatServer.Lifecycle.Invariant.{IsValid, joined-placed, unheld-placed}

-- A held block is not the new one.
apart_from :
    (held : List ℕ) (b p : ℕ) → member b held ≡ false → member p held ≡ true → (b == p) ≡ false
apart_from held b p fresh h = elim (Bool-cases (b == p)) [
  | inl e ↦
      let same : b ≡ p = ground arith in
      absurd (false≢true (sym fresh ∙ ap (λ q. member q held) same ∙ h))
  | inr e ↦ e
]

-- What an entry of the map after `JoinProc` leads to: the new player, or one that was there.
entry :
    (held : List ℕ) (now sid b k p : ℕ) (s : Server)
    → IsValid held s
    → member b held ≡ false
    → find k (insert sid b s.players) ≡ some p
    → let w = update s.heap b (joined now sid) p in
      (member p (b ∷ held) ≡ true) × (w.session_id ≡ k) × (w.ref ≡ 1) × (w.closing ≡ false)
entry held now sid b k p s v fresh e = elim (Bool-cases (sid == k)) [
  | inl f ↦
      let hit : some b ≡ some p = picked f e in
      let same : b ≡ p = ground arith in
      let new : update s.heap b (joined now sid) p ≡ joined now sid =
        ap (update s.heap b (joined now sid)) (sym same) ∙ update_hit s.heap b (joined now sid) in
      rw new (unfold member joined reset in (ground arith, ground arith, refl, refl))
  | inr f ↦
      let old : find k s.players ≡ some p = picked f e in
      let other : (b == p) ≡ false = apart_from held b p fresh (v.mapped_held k p old) in
      rw other (
        (unfold member in ground (arith, v.mapped_held k p old)),
        v.mapped_session k p old,
        v.mapped_ref k p old,
        v.mapped_open k p old,
      )
]
  where
    picked :
        {c : Bool}
        → (sid == k) ≡ c
        → find k (insert sid b s.players) ≡ some p
        → (if c then some b else find k s.players) ≡ some p
    picked f e =
        sym (ap (λ c. if c then some b else find k s.players) f)
        ∙ (sym (find-insert sid b k s.players) ∙ e)

-- A new session is given a block that nobody had, which its entry in the map leads to; the entries
-- of the other sessions and all sectors stay, and the server stays valid.
pub join_proc_new :
    (held : List ℕ) (now sid : ℕ) (s : Server)
    → IsValid held s
    → find sid s.players ≡ none
    → (s' : Server) × (b : ℕ) × (join_proc now sid s ≡ done (s', true))
      × (member b held ≡ false)
      × ((k : ℕ) → find k s'.players ≡ (if sid == k then some b else find k s.players))
      × (s'.sector ≡ s.sector)
      × IsValid (b ∷ held) s'
unfolding join_proc join_new
join_proc_new held now sid s v absent =
    let (f, b, runs, fresh, own) = alloc-Owned s.pool held v.owned in
    let new : Server = record s {
      pool = f;
      heap = update s.heap b (joined now sid);
      players = insert sid b s.players;
    } in
    (
      new,
      b,
      rw (runs, absent) refl,
      fresh,
      (λ k. find-insert sid b k s.players),
      refl,
      record {
        owned = own;
        mapped_held = λ k p e. (entry held now sid b k p s v fresh e).0;
        mapped_session = λ k p e. (entry held now sid b k p s v fresh e).1;
        mapped_ref = λ k p e. (entry held now sid b k p s v fresh e).2;
        mapped_open = λ k p e. (entry held now sid b k p s v fresh e).3;
        placed = λ p x y. joined-placed held now sid b p x y s v fresh absent;
      },
    )

-- A session that has a player already: `JoinProc` fails, the block that it took goes back to the
-- pool, map and sectors stay, and the server stays valid with the same blocks held.
pub join_proc_known :
    (held : List ℕ) (now sid q : ℕ) (s : Server)
    → IsValid held s
    → find sid s.players ≡ some q
    → (s' : Server) × (join_proc now sid s ≡ done (s', false))
      × (s'.players ≡ s.players)
      × (s'.sector ≡ s.sector)
      × IsValid held s'
unfolding join_proc join_new
join_proc_known held now sid q s v known =
    let (f, b, runs, fresh, own) = alloc-Owned s.pool held v.owned in
    let miss : (p : ℕ) → member p held ≡ true → update s.heap b (joined now sid) p ≡ s.heap p =
      λ p h. rw (apart_from held b p fresh h) refl in
    let kept : remove b (b ∷ held) ≡ held =
      unfold remove in rw (==_refl b) (remove_absent b held fresh) in
    (
      record s { pool = free f b; heap = update s.heap b (joined now sid) },
      rw (runs, known) refl,
      refl,
      refl,
      record {
        owned =
            subst (λ bs. Owned (free f b) bs) kept
              (free-Owned f (b ∷ held) b own (unfold member in rw (==_refl b) refl));
        mapped_held = v.mapped_held;
        mapped_session =
            λ k p e. ap Player.session_id (miss p (v.mapped_held k p e)) ∙ v.mapped_session k p e;
        mapped_ref = λ k p e. ap Player.ref (miss p (v.mapped_held k p e)) ∙ v.mapped_ref k p e;
        mapped_open =
            λ k p e. ap Player.closing (miss p (v.mapped_held k p e)) ∙ v.mapped_open k p e;
        placed = λ p x y. unheld-placed held now sid b p x y s v fresh;
      },
    )
