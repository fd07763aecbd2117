-- ===== src/ChatServer/Lifecycle/Ending.antt =====
-- The end of the chat server, `~ChatServer` of ConsoleApplication2/ChatServer.cpp, and of its pool.
use chatting_server.Base.{
  ℕ, zero, suc, ◌≤◌, ◌≡◌, refl, sym, ap, ◌==◌, true, false, ◌||◌, List, [], ◌∷◌, length, some, none,
  arith, ==_refl, Bool-cases, inl, inr, ◌∙◌,
}
use chatting_server.Base.Maps.{find, member, remove, member-remove}
use chatting_server.FreeList.{FreeList, free, unlink, destroy}
use chatting_server.FreeList.Ownership.{Owned, Distinct, free-Owned}
use chatting_server.ChatServer.{Server}
use chatting_server.ChatServer.Lifecycle.{release_player}
use chatting_server.ChatServer.Lifecycle.Invariant.{IsValid}

-- The loop of the destructor over the map
unfoldable pub release_all : List (ℕ × ℕ) → Server → Server
unfolding release_player
release_all [] s = s
release_all ((sid, p) ∷ m) s = release_all m (release_player s p)

-- `~ChatServer()`, then that of the pool of players: the server, and the blocks whose memory goes back
unfoldable pub shut_down : Server → Server × List ℕ
unfolding release_all destroy
shut_down s =
    let t = record (release_all s.players s) { players = []; accounts = [] } in (t, destroy t.pool)

unfoldable pub keys : List (ℕ × ℕ) → List ℕ
keys [] = []
keys ((k, p) ∷ m) = k ∷ keys m

unlink_all : (count : ℕ) (top : List ℕ) → length top ≤ count → unlink count top ≡ (top, [])
unfolding unlink
unlink_all zero [] h = refl
unlink_all zero (b ∷ bs) h = absurd (omega arith)
unlink_all (suc count) [] h = unlink_all count [] (omega arith)
unlink_all (suc count) (b ∷ bs) h = rw (unlink_all count bs (omega arith)) refl

-- A key that is not in the map has no entry.
find-absent : (k : ℕ) (m : List (ℕ × ℕ)) → member k (keys m) ≡ false → find k m ≡ none
unfolding find member keys
find-absent k [] h = refl
find-absent k ((j, v) ∷ m) h = ground (arith, find-absent k m)

-- What the entries that are still to be released are: one reference each, to a held block.
record Pending (m : List (ℕ × ℕ)) (held : List ℕ) (s : Server) : Type 0 where
  owned : Owned s.pool held
  distinct : Distinct (keys m)
  in_held : (sid p : ℕ) → find sid m ≡ some p → member p held ≡ true
  session : (sid p : ℕ) → find sid m ≡ some p → (s.heap p).session_id ≡ sid
  one_ref : (sid p : ℕ) → find sid m ≡ some p → (s.heap p).ref ≡ 1

release_player-last :
    (s : Server) (p : ℕ) → (s.heap p).ref ≡ 1 → (release_player s p).pool ≡ free s.pool p
unfolding release_player
release_player-last s p one = rw one refl

release_player-other :
    (s : Server) (p q : ℕ) → (p == q) ≡ false → (release_player s p).heap q ≡ s.heap q
unfolding release_player
release_player-other s p q other = ground arith

-- An entry behind the first one is another session's, and leads to another block.
others :
    (sid p : ℕ) (m : List (ℕ × ℕ)) (held : List ℕ) (s : Server) (k q : ℕ)
    → Pending ((sid, p) ∷ m) held s
    → find k m ≡ some q
    → (find k ((sid, p) ∷ m) ≡ some q) × ((p == q) ≡ false)
unfolding find keys
others sid p m held s k q v e = (
  entry,
  elim (Bool-cases (p == q)) [
    | inl same ↦
        let one : (s.heap p).session_id ≡ sid = v.session sid p (rw (==_refl sid) refl) in
        let two : (s.heap q).session_id ≡ k = v.session k q entry in
        let block : p ≡ q = ground arith in
        let both : sid ≡ k = sym one ∙ ap (λ b. (s.heap b).session_id) block ∙ two in
        absurd (grind (arith, key, both))
    | inr different ↦ different
  ],
)
  where
    absent : find sid m ≡ none
    absent = find-absent sid m v.distinct.0

    key : (sid == k) ≡ false
    key = elim (Bool-cases (sid == k)) [
      | inl same ↦
          let both : sid ≡ k = ground arith in
          absurd (none-some (sym absent ∙ ap (λ i. find i m) both ∙ e))
      | inr different ↦ different
    ]
      where
        none-some : none ≡ some q → ⊥
        none-some h = cc

    entry : find k ((sid, p) ∷ m) ≡ some q
    entry = rw key e

Pending-step :
    (sid p : ℕ) (m : List (ℕ × ℕ)) (held : List ℕ) (s : Server)
    → Pending ((sid, p) ∷ m) held s
    → Pending m (remove p held) (release_player s p)
unfolding find keys
Pending-step sid p m held s v = record {
  owned =
      rw (release_player-last s p (v.one_ref sid p here))
        (free-Owned s.pool held p v.owned (v.in_held sid p here));
  distinct = v.distinct.1;
  in_held = λ k q e.
      let (entry, other) = others sid p m held s k q v e in
      member-remove q p held ∙ rw other (v.in_held k q entry);
  session = λ k q e.
      let (entry, other) = others sid p m held s k q v e in
      ap (λ b. b.session_id) (release_player-other s p q other) ∙ v.session k q entry;
  one_ref = λ k q e.
      let (entry, other) = others sid p m held s k q v e in
      ap (λ b. b.ref) (release_player-other s p q other) ∙ v.one_ref k q entry;
}
  where
    here : find sid ((sid, p) ∷ m) ≡ some p
    here = rw (==_refl sid) refl

-- The blocks that the entries of a map lead to
unfoldable pub blocks : List (ℕ × ℕ) → List ℕ
blocks [] = []
blocks ((k, p) ∷ m) = p ∷ blocks m

-- The pool after the loop
record Released (m : List (ℕ × ℕ)) (s t : Server) : Type 0 where
  rest : (held : List ℕ) × Owned t.pool held
  linked : (b : ℕ) → member b t.pool.top ≡ (member b (blocks m) || member b s.pool.top)

release_all-Released :
    (m : List (ℕ × ℕ)) (held : List ℕ) (s : Server)
    → Pending m held s
    → Released m s (release_all m s)
unfolding release_all blocks
release_all-Released [] held s v = record {
  rest = (held, v.owned);
  linked = λ b. unfold member in refl;
}
release_all-Released ((sid, p) ∷ m) held s v =
    let t : Server = release_player s p in
    let r = release_all-Released m (remove p held) t (Pending-step sid p m held s v) in
    let last : t.pool ≡ free s.pool p = release_player-last s p (v.one_ref sid p here) in
    record {
      rest = r.rest;
      linked = λ b.
          r.linked b
          ∙ ap (λ f. member b (blocks m) || member b f.top) last
          ∙ unfold free member in ground arith;
    }
  where
    here : find sid ((sid, p) ∷ m) ≡ some p
    here = unfold find in rw (==_refl sid) refl

-- When the chat server ends in a valid state, with each session once in the map: the maps are empty,
-- and the memory that goes back is that of the blocks in the pool and of the players in the map, each
-- once, and no other.
pub shut_down-frees :
    (held : List ℕ) (s : Server)
    → IsValid held s
    → Distinct (keys s.players)
    → let (t, freed) = shut_down s in
      (t.players ≡ [])
      × (t.accounts ≡ [])
      × Distinct freed
      × ((b : ℕ) → member b freed ≡ (member b (blocks s.players) || member b s.pool.top))
unfolding shut_down destroy
shut_down-frees held s v once =
    let r = release_all-Released s.players held s (record {
      owned = v.owned;
      distinct = once;
      in_held = v.mapped_held;
      session = v.mapped_session;
      one_ref = v.mapped_ref;
    }) in
    let pool : FreeList = (release_all s.players s).pool in
    let (still, o) = r.rest in
    let all : (unlink pool.max_count pool.top).0 ≡ pool.top =
      ap (λ u. u.0) (unlink_all pool.max_count pool.top (omega (arith, o.made))) in
    (refl, refl, rw all o.free_distinct, λ b. rw all (r.linked b))
