-- ===== src/FreeList/Threads/Invariant/Locals.antt =====
-- A step of one call keeps what the locals of each say about the shared words.
use chatting_server.Base.{
  ℕ, ◌≤◌, ◌≡◌, refl, true, false, List, some, arith, ◌==◌, subst, Bool-cases, inl, inr, ap, sym,
  ◌∙◌,
}
use mathlib.Core.Bool.{false≢true}
use chatting_server.Base.Maps.{member, update, update_hit}
use chatting_server.FreeList.Threads.{
  Shared, Pc, Move, idle, got_max, pop_next, pop_cas, push_link, push_cas, read_max, read_again,
  read_next, pop, pop_null, free_again, link, push,
}
use chatting_server.FreeList.Threads.Invariant.Steps.{popped}
use chatting_server.FreeList.Threads.Invariant.{drawn, saved, own, IsFresh, Inv}

-- What `q` knows is kept by a step that leaves alone the words that it knows about.
IsFresh-kept :
    (s s' : Shared) (q : Pc)
    → s.max_count ≤ s'.max_count
    → ((c : ℕ)
        → saved q ≡ some c
        → s'.tag ≡ c
        → (s.tag ≡ c) × (s'.top ≡ s.top) × ((a : ℕ) → s.top ≡ some a → s'.next a ≡ s.next a))
    → ((b : ℕ) → own q ≡ some b → s'.next b ≡ s.next b)
    → IsFresh s q
    → IsFresh s' q
IsFresh-kept s s' (got_max m) more tags links f = omega arith
IsFresh-kept s s' (pop_next u t c a) more tags links f =
    λ e. let (old, top, _) = tags c refl e in top ∙ f old
IsFresh-kept s s' (pop_cas u t c n) more tags links f = λ e.
    let (old, top, next) = tags c refl e in
    let (a, at, after) = f old in (a, top ∙ at, next a at ∙ after)
IsFresh-kept s s' (push_link u b t c r) more tags links f =
    λ e. let (old, top, _) = tags c refl e in top ∙ f old
IsFresh-kept s s' (push_cas u b t c r) more tags links f =
    (links b refl ∙ f.0, λ e. let (old, top, _) = tags c refl e in top ∙ f.1 old)
IsFresh-kept s s' idle more tags links f = tt
IsFresh-kept s s' _ more tags links f = tt

apart_of :
    (b a : ℕ) (stack : List ℕ) → member b stack ≡ false → member a stack ≡ true → (b == a) ≡ false
apart_of b a stack m k = elim (Bool-cases (b == a)) [
  | inl e ↦
      let same : b ≡ a = ground arith in
      absurd (false≢true (sym m ∙ ap (λ x. member x stack) same ∙ k))
  | inr e ↦ e
]

module _ {n : ℕ} {s : Shared} {pc : ℕ → Pc} {stack : List ℕ} (inv : Inv n s pc stack) (i : ℕ) where
  open inv use {
    own_made, own_stack, own_held, own_unique, drawn_le, drawn_tag, drawn_unique, saved_le,
    saved_drawn, fresh,
  }

  Move-max : {p p' : Pc} {s' : Shared} → Move s p s' p' → s.max_count ≤ s'.max_count
  Move-max read_max = omega arith
  Move-max mv = omega arith

  -- The words that a call knows of while its tag is there, under a step of another call.
  Move-tag :
      {p p' : Pc} {s' : Shared}
      → Move s p s' p'
      → pc i ≡ p
      → (j c : ℕ) → saved (pc j) ≡ some c
      → s'.tag ≡ c
      → (s.tag ≡ c) × (s'.top ≡ s.top) × ((a : ℕ) → s.top ≡ some a → s'.next a ≡ s.next a)
  Move-tag read_max here j c q e = (e, refl, λ a t. refl)
  Move-tag (pop {u} x y z) here j c q e = absurd (saved_drawn j i c u q (ap drawn here) (sym e))
  Move-tag (pop_null {u} x y z) here j c q e =
      absurd (saved_drawn j i c u q (ap drawn here) (sym e))
  Move-tag (push {u} x y) here j c q e = absurd (saved_drawn j i c u q (ap drawn here) (sym e))
  Move-tag (link {b}) here j c q e = (
    e,
    refl,
    λ a t.
        let mine : member b stack ≡ false = own_stack i b (ap own here) in
        let top : member a stack ≡ true =
          (popped s.next s.top a stack inv.chain inv.stack_distinct t).was_in in
        rw (apart_of b a stack mine top) refl,
  )
  Move-tag mv here j c q e = (e, refl, λ a t. refl)

  Move-link :
      {p p' : Pc} {s' : Shared}
      → Move s p s' p'
      → pc i ≡ p
      → (j b : ℕ) → (i == j) ≡ false
      → own (pc j) ≡ some b
      → s'.next b ≡ s.next b
  Move-link read_max here j b d q = refl
  Move-link (link {b = x}) here j b d q = ground (arith, own_unique i j b)
  Move-link mv here j b d q = refl

  -- What the call itself knows after its step.
  Move-self : {p p' : Pc} {s' : Shared} → Move s p s' p' → IsFresh s p → IsFresh s' p'
  Move-self read_max f = omega arith
  Move-self (read_again t) f = λ e. t
  Move-self (read_next {a}) f = λ e. (a, f e, refl)
  Move-self free_again f = λ e. refl
  Move-self (link {b} {r}) f = (update_hit s.next b r, f)
  Move-self mv f = tt

  pub Move-IsFresh :
      {p p' : Pc} {s' : Shared}
      → Move s p s' p'
      → pc i ≡ p
      → (j : ℕ) → IsFresh s' (update pc i p' j)
  Move-IsFresh {p} {p'} {s'} mv here j = elim (Bool-cases (i == j)) [
    | inl e ↦ rw e (Move-self mv (subst (IsFresh s) here (fresh i)))
    | inr e ↦ rw e (
        IsFresh-kept s s' (pc j) (Move-max mv) (Move-tag mv here j)
          (λ b q. Move-link mv here j b e q) (fresh j))
  ]
