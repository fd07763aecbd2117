-- ===== src/FreeList/Threads/Invariant/Covered.antt =====
-- No step loses a block.
use chatting_server.Base.{
  ℕ, ◌<◌, ◌≡◌, true, List, some, arith, ap, sym, ◌==◌, ◌⊎◌, inl, inr, Bool-cases, ◌∙◌,
}
use chatting_server.Base.Maps.{member, update, update_hit, member-remove}
use chatting_server.FreeList.Threads.{
  Shared, Pc, idle, got_max, built, freeing, freed, Move, read_max, malloc, return_made, pop,
  start_free, push,
}
use chatting_server.FreeList.Threads.Invariant.Steps.{stack_after, Popped, popped}
use chatting_server.FreeList.Threads.Invariant.{own, Inv}

-- Where a block is: free, with a caller, or in one of the `n` calls that has it to itself.
abbrev pub Somewhere : ℕ → Shared → (ℕ → Pc) → List ℕ → ℕ → Type 0
Somewhere n s pc stack b =
    (member b stack ≡ true)
    ⊎ ((member b s.held ≡ true) ⊎ ((j : ℕ) × (j < n) × (own (pc j) ≡ some b)))

abbrev pub Covered : ℕ → Shared → (ℕ → Pc) → List ℕ → Type 0
Covered n s pc stack = (b : ℕ) → b < s.made → Somewhere n s pc stack b

module _ {n : ℕ} {s : Shared} {pc : ℕ → Pc} {stack : List ℕ} (inv : Inv n s pc stack) (i : ℕ)
    (below : i < n) where
  -- The call that moves has the block after the step.
  mine : (b : ℕ) (p' : Pc) → own p' ≡ some b → (j : ℕ) × (j < n) × (own (update pc i p' j) ≡ some b)
  mine b p' e = (i, below, ap own (update_hit pc i p') ∙ e)

  -- A call keeps its block when another one moves, or when the step leaves it the block.
  kept :
      (b : ℕ) (p' : Pc)
      → (own (pc i) ≡ some b → own p' ≡ some b)
      → (j : ℕ) × (j < n) × (own (pc j) ≡ some b)
      → (j : ℕ) × (j < n) × (own (update pc i p' j) ≡ some b)
  kept b p' same (j, l, e) = elim (Bool-cases (i == j)) [
    | inl q ↦ let at : j ≡ i = ground arith in mine b p' (same (ap (λ k. own (pc k)) (sym at) ∙ e))
    | inr q ↦ (j, l, rw q e)
  ]

  tops : (b : ℕ) → s.top ≡ some b → Popped s.next b stack
  tops b e = popped s.next s.top b stack inv.chain inv.stack_distinct e

  -- Nothing but the call that moves changes hands.
  carry :
      (b : ℕ) (p' : Pc)
      → (own (pc i) ≡ some b → own p' ≡ some b)
      → Somewhere n s pc stack b
      → Somewhere n s (update pc i p') stack b
  carry b p' keeps (inl a) = inl a
  carry b p' keeps (inr (inl a)) = inr (inl a)
  carry b p' keeps (inr (inr w)) = inr (inr (kept b p' keeps w))

  pub Move-Covered :
      {p p' : Pc} {s' : Shared} (mv : Move s p s' p')
      → pc i ≡ p
      → Covered n s pc stack
      → Covered n s' (update pc i p') (stack_after mv stack)
  unfolding member
  Move-Covered read_max here c b l = carry b (got_max s.max_count) (λ q. ground arith) (c b l)
  Move-Covered malloc here c b l = elim (Bool-cases (b == s.made)) [
    | inl q ↦ inr (inr (mine b (built s.made) (ground arith)))
    | inr q ↦ carry b (built s.made) (λ q. ground arith) (c b (ground arith))
  ]
  Move-Covered (return_made {b = x}) here c b l = elim (Bool-cases (x == b)) [
    | inl q ↦ inr (inl (ground arith))
    | inr q ↦ elim (c b l) [
      | inl a ↦ inl a
      | inr (inl a) ↦ inr (inl (ground arith))
      | inr (inr w) ↦ inr (inr (kept b idle (λ e. ground arith) w))
    ]
  ]
  Move-Covered (pop {b = x} e g h) here c b l = elim (Bool-cases (x == b)) [
    | inl q ↦ inr (inl (ground arith))
    | inr q ↦ elim (c b l) [
      | inl a ↦ inl (ground (arith, (tops x g).rest b))
      | inr (inl a) ↦ inr (inl (ground arith))
      | inr (inr w) ↦ inr (inr (kept b idle (λ e. ground arith) w))
    ]
  ]
  Move-Covered (start_free {b = x} g) here c b l = elim (Bool-cases (x == b)) [
    | inl q ↦ inr (inr (mine b (freeing x) (ground arith)))
    | inr q ↦ elim (c b l) [
      | inl a ↦ inl a
      | inr (inl a) ↦ inr (inl (ground (arith, member-remove b x s.held)))
      | inr (inr w) ↦ inr (inr (kept b (freeing x) (λ e. ground arith) w))
    ]
  ]
  Move-Covered (push {b = x} g h) here c b l = elim (Bool-cases (x == b)) [
    | inl q ↦ inl (ground arith)
    | inr q ↦ elim (c b l) [
      | inl a ↦ inl (ground arith)
      | inr (inl a) ↦ inr (inl a)
      | inr (inr w) ↦ inr (inr (kept b freed (λ e. ground arith) w))
    ]
  ]
  Move-Covered mv here c b l = carry b _ (λ q. ground arith) (c b l)
