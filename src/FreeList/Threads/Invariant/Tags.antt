-- ===== src/FreeList/Threads/Invariant/Tags.antt =====
-- A step of one call keeps what the invariant says of the numbers drawn and the tags read.
use chatting_server.Base.{
  ℕ, ◌+◌, ◌≤◌, ◌≡◌, ◌≢◌, ◌==◌, ◌⊎◌, inl, inr, refl, sym, ap, ◌∙◌, Bool-cases, List, some, arith,
}
use chatting_server.Base.Maps.{update}
use chatting_server.FreeList.Threads.{
  Shared, Pc, Move, read_max, pop, pop_null, push, draw, draw_free,
}
use chatting_server.FreeList.Threads.Invariant.Steps.{guard}
use chatting_server.FreeList.Threads.Invariant.{drawn, saved, Inv}

-- A number that a call has after its step it had before, or it is the next of `m_lCount`.
Move-draws :
    {s s' : Shared} {p p' : Pc}
    → Move s p s' p'
    → (u : ℕ) → drawn p' ≡ some u
    → (drawn p ≡ some u) ⊎ (u ≡ s.count + 1)
Move-draws draw u e = inr (ground (arith, e))
Move-draws draw_free u e = inr (ground (arith, e))
Move-draws mv u e = ground (arith, e)

module _ {n : ℕ} {s : Shared} {pc : ℕ → Pc} {stack : List ℕ} (inv : Inv n s pc stack) (i : ℕ) where
  open inv use {
    own_made, own_stack, own_held, own_unique, drawn_le, drawn_tag, drawn_unique, saved_le,
    saved_drawn, fresh,
  }

  draws_at :
      {p p' : Pc} {s' : Shared}
      → Move s p s' p'
      → pc i ≡ p
      → (a u : ℕ) → drawn (update pc i p' a) ≡ some u
      → (drawn (pc a) ≡ some u) ⊎ ((i ≡ a) × (u ≡ s.count + 1))
  draws_at {p} {p'} mv here a u q = elim (Bool-cases (i == a)) [
    | inl e ↦
        let same : i ≡ a = ground arith in
        let now : drawn p' ≡ some u = ap drawn (sym (rw e refl)) ∙ q in
        elim (Move-draws mv u now) [
          | inl x ↦ inl (sym (ap (λ k. drawn (pc k)) same) ∙ ap drawn here ∙ x)
          | inr x ↦ inr (same, x)
        ]
    | inr e ↦ inl (ap drawn (sym (rw e refl)) ∙ q)
  ]

  pub Move-drawn_unique :
      {p p' : Pc} {s' : Shared}
      → Move s p s' p'
      → pc i ≡ p
      → (a j u : ℕ) → drawn (update pc i p' a) ≡ some u
      → drawn (update pc i p' j) ≡ some u
      → a ≡ j
  Move-drawn_unique {p' = p'} mv here a j u qa qj = elim (draws_at mv here a u qa) [
    | inl x ↦ elim (draws_at mv here j u qj) [
      | inl y ↦ drawn_unique a j u x y
      | inr (_, y) ↦ omega (arith, drawn_le a u x, y)
    ]
    | inr (e, x) ↦ elim (draws_at mv here j u qj) [
      | inl y ↦ omega (arith, drawn_le j u y, x)
      | inr (f, _) ↦ sym e ∙ f
    ]
  ]

  pub Move-tags : {p p' : Pc} {s' : Shared} → Move s p s' p' → pc i ≡ p → s'.tag ≤ s'.count
  Move-tags read_max here = inv.tag_old
  Move-tags (pop {u} _ _ _) here = ground (arith, drawn_le i u)
  Move-tags (pop_null {u} _ _ _) here = ground (arith, drawn_le i u)
  Move-tags (push {u} _ _) here = ground (arith, drawn_le i u)
  Move-tags mv here = ground (arith, inv.tag_old)

  pub Move-drawn :
      {p p' : Pc} {s' : Shared}
      → Move s p s' p'
      → pc i ≡ p
      → (j u : ℕ) → drawn (update pc i p' j) ≡ some u
      → (u ≤ s'.count) × (s'.tag ≢ u)
  Move-drawn read_max here j u q = ground (arith, drawn_le j u, drawn_tag j u)
  Move-drawn mv here j u q =
      ground (arith, guard mv, inv.tag_old, drawn_le j u, drawn_tag j u, drawn_unique i j u)

  pub Move-saved_le :
      {p p' : Pc} {s' : Shared}
      → Move s p s' p'
      → pc i ≡ p
      → (j c : ℕ) → saved (update pc i p' j) ≡ some c
      → c ≤ s'.count
  Move-saved_le read_max here j c q = ground (arith, saved_le j c)
  Move-saved_le mv here j c q = ground (arith, inv.tag_old, saved_le j c)

  pub Move-saved-drawn :
      {p p' : Pc} {s' : Shared}
      → Move s p s' p'
      → pc i ≡ p
      → (a j c u : ℕ) → saved (update pc i p' a) ≡ some c
      → drawn (update pc i p' j) ≡ some u
      → c ≢ u
  Move-saved-drawn read_max here a j c u qa qj = ground (arith, saved_drawn a j c u)
  Move-saved-drawn mv here a j c u qa qj =
      ground (arith, inv.tag_old, saved_drawn a j c u, drawn_tag j u, saved_le a c, drawn_le j u)
