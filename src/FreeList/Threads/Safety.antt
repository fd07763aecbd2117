-- ===== src/FreeList/Threads/Safety.antt =====
-- What holds of the pool of ConsoleApplication2/CLFFreeList.h however many threads use it at once.
use chatting_server.Base.{
  ℕ, zero, suc, ◌+◌, ◌<◌, ◌≡◌, ◌≢◌, refl, ap, true, false, List, [], ◌∷◌, Option, some, length,
  arith, drop, ◌⊎◌, inl, inr,
}
use chatting_server.Base.Maps.{member, update}
use chatting_server.Base.Family.{total, total-le}
use chatting_server.FreeList.Ownership.{Distinct}
use chatting_server.FreeList.Threads.{
  Shared, Pc, Move, crashed, idle, System, Step, pick, init, Reach, start, later, read_max, pop,
  push,
}
use chatting_server.FreeList.Threads.Invariant.{
  Chain, own, returns, reserves, makes, settles, is_built, fails, Inv,
}
use chatting_server.FreeList.Threads.Invariant.Steps.{stack_after}
use chatting_server.FreeList.Threads.Invariant.Tags.{
  Move-drawn_unique, Move-tags, Move-drawn, Move-saved_le, Move-saved-drawn,
}
use chatting_server.FreeList.Threads.Invariant.Counts.{moved, Move-counts}
use chatting_server.FreeList.Threads.Invariant.Blocks.{
  Move-own_unique, Move-own, Move-stack, Move-held, Move-Distinct, Move-Chain,
}
use chatting_server.FreeList.Threads.Invariant.Covered.{Covered, Move-Covered}
use chatting_server.FreeList.Threads.Invariant.Locals.{Move-IsFresh}

Move-Inv :
    {n : ℕ} {s s' : Shared} {pc : ℕ → Pc} {p' : Pc} {stack : List ℕ}
    → Inv n s pc stack
    → (i : ℕ) → i < n
    → (mv : Move s (pc i) s' p') → Inv n s' (update pc i p') (stack_after mv stack)
Move-Inv {n} {pc} {p'} inv i lt mv = record {
  chain = Move-Chain inv i mv refl (inv.fresh i);
  stack_distinct = (Move-Distinct inv i mv refl).0;
  held_distinct = (Move-Distinct inv i mv refl).1;
  stack_made = λ b q. (Move-stack inv i mv refl b q).0;
  held_made = Move-held inv i mv refl;
  apart = λ b q. (Move-stack inv i mv refl b q).1;
  own_made = λ j b q. (Move-own inv i mv refl j b q).0;
  own_stack = λ j b q. (Move-own inv i mv refl j b q).1;
  own_held = λ j b q. (Move-own inv i mv refl j b q).2;
  own_unique = Move-own_unique inv i mv refl;
  tag_old = Move-tags inv i mv refl;
  drawn_le = λ j u q. (Move-drawn inv i mv refl j u q).0;
  drawn_tag = λ j u q. (Move-drawn inv i mv refl j u q).1;
  drawn_unique = Move-drawn_unique inv i mv refl;
  saved_le = Move-saved_le inv i mv refl;
  saved_drawn = Move-saved-drawn inv i mv refl;
  fresh = Move-IsFresh inv i mv refl;
  all_made = all_made;
  in_use = in_use;
  all_owned = all_owned;
  reserved = reserved;
  safe = safe;
}
  where
    open (Move-counts inv i mv (moved inv i lt p')) use {
      all_made, in_use, all_owned, reserved, safe,
    }

total_idle : (f : Pc → ℕ) (n : ℕ) → f idle ≡ 0 → total f n (λ i. idle) ≡ 0
unfolding total
total_idle f zero e = refl
total_idle f (suc n) e = omega (arith, e, total_idle f n e)

init-Inv : (n : ℕ) → Inv n init.shared init.calls []
unfolding member
init-Inv n = record {
  chain = refl;
  stack_distinct = tt;
  held_distinct = tt;
  stack_made = λ b q. cc;
  held_made = λ b q. cc;
  apart = λ b q. cc;
  own_made = λ i b q. cc;
  own_stack = λ i b q. cc;
  own_held = λ i b q. cc;
  own_unique = λ i j b q r. cc;
  tag_old = omega arith;
  drawn_le = λ i u q. cc;
  drawn_tag = λ i u q. cc;
  drawn_unique = λ i j u q r. cc;
  saved_le = λ i c q. cc;
  saved_drawn = λ i j c u q r. cc;
  fresh = λ i. tt;
  all_made = omega (arith, total_idle is_built n refl);
  in_use = omega (
    arith,
    total_idle returns n refl,
    total_idle reserves n refl,
    total_idle makes n refl,
    total_idle settles n refl,
  );
  all_owned = omega (arith, total_idle returns n refl);
  reserved = omega (arith, total_idle reserves n refl);
  safe = total_idle fails n refl;
}

-- Every state that is reached has a stack for which the invariant holds.
Reach-Inv : {n : ℕ} {s : System} → Reach n s → (stack : List ℕ) × Inv n s.shared s.calls stack
Reach-Inv {n} start = ([], init-Inv n)
Reach-Inv (later r (pick i lt mv)) =
    let (stack, inv) = Reach-Inv r in (stack_after mv stack, Move-Inv inv i lt mv)

-- However the threads interleave, if malloc succeeds: no call reads through a null pointer, no block is with two callers,
-- none is with a caller while a call still gives it back, and no two calls give back the same block.
pub no_double_use :
    {n : ℕ} {s : System}
    → Reach n s
    → ((i : ℕ) → i < n → s.calls i ≢ crashed)
      × Distinct s.shared.held
      × ((i b : ℕ) → own (s.calls i) ≡ some b → member b s.shared.held ≡ false)
      × ((i j b : ℕ) → own (s.calls i) ≡ some b → own (s.calls j) ≡ some b → i ≡ j)
no_double_use {n} {s} r =
    let (stack, inv) = Reach-Inv r in
    (
      λ i lt e. absurd (omega (arith, inv.safe, total-le fails n i s.calls lt, ap fails e)),
      inv.held_distinct,
      inv.own_held,
      inv.own_unique,
    )

-- What a step may do to the stack of free blocks.
abbrev pub Effect : Shared → Shared → List ℕ → List ℕ → Type 0
Effect s s' before after =
    (after ≡ before)
    ⊎ (((b : ℕ) × (before ≡ b ∷ after) × (s'.held ≡ b ∷ s.held))
        ⊎ ((b : ℕ) × (after ≡ b ∷ before) × (member b before ≡ false)))

drop_one :
    (next : ℕ → Option ℕ) (t : Option ℕ) (b : ℕ) (stack : List ℕ)
    → Chain next t stack
    → t ≡ some b
    → stack ≡ b ∷ drop 1 stack
drop_one next t b [] c e = cc
drop_one next t b (x ∷ xs) c e = let same : x ≡ b = ground arith in ap (λ y. y ∷ xs) same

Move-Effect :
    {n : ℕ} {s s' : Shared} {pc : ℕ → Pc} {p p' : Pc} {stack : List ℕ}
    → Inv n s pc stack
    → (i : ℕ) → pc i ≡ p
    → (mv : Move s p s' p') → Effect s s' stack (stack_after mv stack)
Move-Effect inv i here read_max = inl refl
Move-Effect {s} {stack} inv i here (pop {b} e g h) =
    inr (inl (b, drop_one s.next s.top b stack inv.chain g, refl))
Move-Effect inv i here (push {b} g h) = inr (inr (b, refl, inv.own_stack i b (ap own here)))
Move-Effect inv i here mv = inl refl

-- If malloc succeeds, the linked blocks are a stack, whatever stale pointers the calls have read: a step leaves it alone,
-- or takes the block on its top and gives it to the caller, or puts a block on it that was not there.
pub steps_refine_stack :
    {n : ℕ} {s t : System}
    → Reach n s
    → Step n s t
    → (before after : List ℕ) × Chain s.shared.next s.shared.top before
      × Chain t.shared.next t.shared.top after
      × Effect s.shared t.shared before after
steps_refine_stack r (pick i lt mv) =
    let (stack, inv) = Reach-Inv r in
    (
      stack,
      stack_after mv stack,
      inv.chain,
      (Move-Inv inv i lt mv).chain,
      Move-Effect inv i refl mv,
    )

Reach-Covered : {n : ℕ} {s : System} (r : Reach n s) → Covered n s.shared s.calls (Reach-Inv r).0
unfolding Reach-Inv
Reach-Covered start = λ b l. absurd (omega arith)
Reach-Covered (later r (pick i lt mv)) = Move-Covered (Reach-Inv r).1 i lt mv refl (Reach-Covered r)

-- If malloc succeeds, no block is lost: each that was made is linked, with a caller, or in a call that
-- has it to itself, in one of these only, and there are as many as that makes.
pub blocks_accounted :
    {n : ℕ} {s : System}
    → Reach n s
    → (stack : List ℕ) × Chain s.shared.next s.shared.top stack
      × ((b : ℕ)
          → b < s.shared.made
          → (member b stack ≡ true)
            ⊎ ((member b s.shared.held ≡ true) ⊎ ((j : ℕ) × (j < n) × (own (s.calls j) ≡ some b))))
      × ((b : ℕ) → member b stack ≡ true → member b s.shared.held ≡ false)
      × ((j b : ℕ)
          → own (s.calls j) ≡ some b
          → (member b stack ≡ false) × (member b s.shared.held ≡ false))
      × (s.shared.made
          ≡ length stack
            + length s.shared.held
            + total returns n s.calls
            + total is_built n s.calls)
blocks_accounted r =
    let (stack, inv) = Reach-Inv r in
    (
      stack,
      inv.chain,
      Reach-Covered r,
      inv.apart,
      λ j b q. (inv.own_stack j b q, inv.own_held j b q),
      omega (arith, inv.all_made, inv.all_owned),
    )
