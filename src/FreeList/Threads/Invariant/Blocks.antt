-- ===== src/FreeList/Threads/Invariant/Blocks.antt =====
-- A step of one call keeps what the invariant says of who has which block.
use chatting_server.Base.{
  ℕ, ◌<◌, ◌≡◌, refl, true, false, List, some, none, arith, drop, subst, ap, sym, ◌∙◌,
}
use chatting_server.Base.Maps.{member, update, member-remove}
use chatting_server.FreeList.Ownership.{Distinct, remove-Distinct}
use chatting_server.FreeList.Threads.{
  Shared, Pc, Move, read_max, malloc, return_made, pop, pop_null, start_free, link, push,
}
use chatting_server.FreeList.Threads.Invariant.Steps.{
  guard, stack_after, Popped, popped, Chain-update,
}
use chatting_server.FreeList.Threads.Invariant.{Chain, own, IsFresh, Inv}

none-some : (a : ℕ) → none ≡ some a → ⊥
none-some a e = cc

module _ {n : ℕ} {s : Shared} {pc : ℕ → Pc} {stack : List ℕ} (inv : Inv n s pc stack) (i : ℕ) where
  open inv use {
    own_made, own_stack, own_held, own_unique, drawn_le, drawn_tag, drawn_unique, saved_le,
    saved_drawn, fresh,
  }

  pub Move-own_unique :
      {p p' : Pc} {s' : Shared}
      → Move s p s' p'
      → pc i ≡ p
      → (a j b : ℕ) → own (update pc i p' a) ≡ some b
      → own (update pc i p' j) ≡ some b
      → a ≡ j
  Move-own_unique read_max here a j b qa qj = ground (arith, own_unique a j b)
  Move-own_unique mv here a j b qa qj =
      ground
        (arith, guard mv, own_unique a j b, own_held a b, own_held j b, own_made a b, own_made j b)

  tops : (b : ℕ) → s.top ≡ some b → Popped s.next b stack
  tops b e = popped s.next s.top b stack inv.chain inv.stack_distinct e

  pub Move-own :
      {p p' : Pc} {s' : Shared} (mv : Move s p s' p')
      → pc i ≡ p
      → (j b : ℕ) → own (update pc i p' j) ≡ some b
      → (b < s'.made) × (member b (stack_after mv stack) ≡ false) × (member b s'.held ≡ false)
  unfolding member
  Move-own read_max here j b q = ground (arith, own_made j b, own_stack j b, own_held j b)
  Move-own malloc here j b q =
      ground (arith, own_made j b, own_stack j b, own_held j b, inv.stack_made b, inv.held_made b)
  Move-own (return_made {b = x}) here j b q =
      ground (arith, own_made j b, own_stack j b, own_held j b, own_unique i j b)
  Move-own (pop {b = x} e g h) here j b q =
      ground
        (arith, own_made j b, own_stack j b, own_held j b, (tops x g).was_in, (tops x g).rest b)
  Move-own (start_free {b = x} g) here j b q = ground (
    arith,
    own_made j b,
    own_stack j b,
    own_held j b,
    inv.apart b,
    inv.held_made b,
    member-remove b x s.held,
  )
  Move-own (push {b = x} g h) here j b q =
      ground (arith, own_made j b, own_stack j b, own_held j b, own_unique i j b)
  Move-own mv here j b q = ground (arith, own_made j b, own_stack j b, own_held j b)

  pub Move-stack :
      {p p' : Pc} {s' : Shared} (mv : Move s p s' p')
      → pc i ≡ p
      → (b : ℕ) → member b (stack_after mv stack) ≡ true
      → (b < s'.made) × (member b s'.held ≡ false)
  unfolding member
  Move-stack read_max here b q = ground (arith, inv.stack_made b, inv.apart b)
  Move-stack (return_made {b = x}) here b q =
      ground (arith, inv.stack_made b, inv.apart b, own_stack i x)
  Move-stack (pop {b = x} e g h) here b q =
      ground (arith, inv.stack_made b, inv.apart b, (tops x g).rest b)
  Move-stack (start_free {b = x} g) here b q =
      ground (arith, inv.stack_made b, inv.apart b, member-remove b x s.held)
  Move-stack (push {b = x} g h) here b q =
      ground (arith, inv.stack_made b, inv.apart b, own_made i x, own_held i x)
  Move-stack mv here b q = ground (arith, inv.stack_made b, inv.apart b)

  pub Move-held :
      {p p' : Pc} {s' : Shared}
      → Move s p s' p'
      → pc i ≡ p
      → (b : ℕ) → member b s'.held ≡ true
      → b < s'.made
  unfolding member
  Move-held read_max here b q = inv.held_made b q
  Move-held (return_made {b = x}) here b q = ground (arith, inv.held_made b, own_made i x)
  Move-held (pop {b = x} e g h) here b q =
      ground (arith, inv.held_made b, inv.stack_made x, (tops x g).was_in)
  Move-held (start_free {b = x} g) here b q =
      ground (arith, inv.held_made b, member-remove b x s.held)
  Move-held mv here b q = ground (arith, inv.held_made b)

  pub Move-Distinct :
      {p p' : Pc} {s' : Shared} (mv : Move s p s' p')
      → pc i ≡ p
      → Distinct (stack_after mv stack) × Distinct s'.held
  Move-Distinct read_max here = (inv.stack_distinct, inv.held_distinct)
  Move-Distinct (return_made {b}) here =
      (inv.stack_distinct, (own_held i b (ap own here), inv.held_distinct))
  Move-Distinct (pop {b} e g h) here =
      ((tops b g).distinct, (inv.apart b (tops b g).was_in, inv.held_distinct))
  Move-Distinct (start_free {b} g) here =
      (inv.stack_distinct, remove-Distinct b s.held inv.held_distinct)
  Move-Distinct (push {b} g h) here =
      ((own_stack i b (ap own here), inv.stack_distinct), inv.held_distinct)
  Move-Distinct mv here = (inv.stack_distinct, inv.held_distinct)

  pub Move-Chain :
      {p p' : Pc} {s' : Shared} (mv : Move s p s' p')
      → pc i ≡ p
      → IsFresh s p
      → Chain s'.next s'.top (stack_after mv stack)
  Move-Chain read_max here f = inv.chain
  Move-Chain (pop {b} {n} e g h) here f =
      let (a, top, next) = f h in
      let same : a ≡ b = ground arith in
      subst (λ t. Chain s.next t (drop 1 stack)) (sym (ap s.next same) ∙ next) (tops b g).chain
  Move-Chain (link {b} {r}) here f =
      Chain-update s.next s.top r b stack (own_stack i b (ap own here)) inv.chain
  Move-Chain (push {b} {r} g h) here f =
      (refl, subst (λ t. Chain s.next t stack) (f.1 h ∙ sym f.0) inv.chain)
  Move-Chain (pop_null e g h) here f =
      let (a, top, next) = f h in absurd (none-some a (sym g ∙ top))
  Move-Chain mv here f = inv.chain
