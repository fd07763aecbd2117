-- ===== src/ChatServer/Lifecycle/Validity.antt =====
-- `LeaveProc` of ConsoleApplication2/ChatServer.cpp keeps the server valid.
use chatting_server.Base.{
  ℕ, ◌≡◌, refl, sym, ap, subst, ◌==◌, if◌then◌else◌, Bool, false, List, some, none, arith, ==_refl,
  Bool-cases, inl, inr, ◌∙◌,
}
use mathlib.Core.Bool.{false≢true}
use chatting_server.Base.Maps.{find, erase, member, find-erase, member-remove}
use chatting_server.FreeList.Ownership.{Owned}
use chatting_server.ChatServer.{Player, Server}
use chatting_server.ChatServer.Lifecycle.{leave_proc}
use chatting_server.ChatServer.Lifecycle.Invariant.{IsValid, owns-erase}
use chatting_server.ChatServer.Lifecycle.Leave.{left, vacated, leave_proc_found}

-- A session with an entry after the player `p` of `sid` has left is another player's.
still_mapped :
    (held : List ℕ) (sid p k q : ℕ) (s : Server)
    → IsValid held s
    → find sid s.players ≡ some p
    → find k (erase sid s.players) ≡ some q
    → (find k s.players ≡ some q) × ((p == q) ≡ false)
still_mapped held sid p k q s v found e = elim (Bool-cases (sid == k)) [
  | inl f ↦ absurd (none-some (picked f))
  | inr f ↦ (
    picked f,
    elim (Bool-cases (p == q)) [
      | inl g ↦
          let same : p ≡ q = ground arith in
          let one : (s.heap p).session_id ≡ sid = v.mapped_session sid p found in
          let two : (s.heap q).session_id ≡ k = v.mapped_session k q (picked f) in
          let both : sid ≡ k = sym one ∙ ap (λ r. (s.heap r).session_id) same ∙ two in
          absurd (false≢true (sym f ∙ ap (λ i. sid == i) (sym both) ∙ ==_refl sid))
      | inr g ↦ g
    ],
  )
]
  where
    picked : {c : Bool} → (sid == k) ≡ c → (if c then none else find k s.players) ≡ some q
    picked f =
        sym (ap (λ c. if c then none else find k s.players) f)
        ∙ (sym (find-erase sid k s.players) ∙ e)

    none-some : none ≡ some q → ⊥
    none-some h = cc

vacated-placed :
    (held : List ℕ) (sid p q x y : ℕ) (s : Server)
    → IsValid held s
    → find sid s.players ≡ some p
    → member q (vacated s p y x) ≡ (if p == q then false else member q (s.sector y x))
vacated-placed held sid p q x y s v found = elim (Bool-cases (p == q)) [
  | inl g ↦
      let same : p ≡ q = ground arith in
      subst (λ r. member r (vacated s p y x) ≡ (if p == r then false else member r (s.sector y x)))
        same (rw (==_refl p) gone)
  | inr g ↦ rw g (ground (arith, member-remove q p (s.sector y x), g))
]
  where
    gone : member p (vacated s p y x) ≡ false
    gone = ground (arith, member-remove p p (s.sector y x), ==_refl p, v.placed p x y)

-- When a session with a player ends, the server stays valid with the same blocks held: the player's
-- block is not given back to the pool.
pub leave_proc-IsValid :
    (held : List ℕ) (sid p : ℕ) (s : Server)
    → IsValid held s
    → find sid s.players ≡ some p
    → IsValid held (leave_proc sid s)
      × (find sid (leave_proc sid s).players ≡ none)
      × ((x y : ℕ) → member p ((leave_proc sid s).sector y x) ≡ false)
      × ((leave_proc sid s).pool ≡ s.pool)
leave_proc-IsValid held sid p s v found =
    let (own, others, map, pool, sector, _) =
      leave_proc_found sid p s found (v.mapped_ref sid p found) in
    let kept : (k q : ℕ)
        → find k (leave_proc sid s).players ≡ some q
        → (find k s.players ≡ some q) × ((leave_proc sid s).heap q ≡ s.heap q) =
      λ k q e.
        let (old, other) = still_mapped held sid p k q s v found (sym (ap (find k) map) ∙ e) in
        (old, others q other) in
    let member_after : (q x y : ℕ)
        → member q ((leave_proc sid s).sector y x)
          ≡ (if p == q then false else member q (s.sector y x)) =
      λ q x y. ap (λ f. member q (f y x)) sector ∙ vacated-placed held sid p q x y s v found in
    (
      record {
        owned = subst (λ f. Owned f held) (sym pool) v.owned;
        mapped_held = λ k q e. v.mapped_held k q (kept k q e).0;
        mapped_session =
            λ k q e. ap Player.session_id (kept k q e).1 ∙ v.mapped_session k q (kept k q e).0;
        mapped_ref = λ k q e. ap Player.ref (kept k q e).1 ∙ v.mapped_ref k q (kept k q e).0;
        mapped_open = λ k q e. ap Player.closing (kept k q e).1 ∙ v.mapped_open k q (kept k q e).0;
        placed = λ q x y. member_after q x y ∙ elim (Bool-cases (p == q)) [
          | inl g ↦
              let same : p ≡ q = ground arith in
              let body : (leave_proc sid s).heap q ≡ left (s.heap q) =
                subst (λ r. (leave_proc sid s).heap r ≡ left (s.heap r)) same own in
              rw (map, body, owns-erase held s sid p q v found, g) refl
          | inr g ↦ rw (map, others q g, owns-erase held s sid p q v found, g) (v.placed q x y)
        ];
      },
      ap (find sid) map ∙ find-erase sid sid s.players ∙ rw (==_refl sid) refl,
      (λ x y. member_after p x y ∙ rw (==_refl p) refl),
      pool,
    )
