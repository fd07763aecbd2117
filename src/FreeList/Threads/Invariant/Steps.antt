-- ===== src/FreeList/Threads/Invariant/Steps.antt =====
-- The premises of a step of one call, and the stack that it leaves.
use chatting_server.Base.{
  ℕ, ◌+◌, ◌≤◌, ◌<◌, ◌≡◌, refl, true, false, List, [], ◌∷◌, Option, some, none, length, arith, ◌==◌,
  if◌then◌else◌, drop, subst, Bool-cases, inl, inr,
}
use chatting_server.Base.Maps.{member, update}
use chatting_server.FreeList.Ownership.{Distinct}
use chatting_server.FreeList.Threads.{
  Shared, Pc, Move, make, reserve, read_again, read_null, pop, pop_null, start_free, push,
}
use chatting_server.FreeList.Threads.Invariant.{Chain}

-- The premises of a step, for the clauses below that cannot name them.
abbrev pub Guard : {s s' : Shared} {p p' : Pc} → Move s p s' p' → Type 0
Guard {s} (make {m} _) = m < s.use_count + 1
Guard {s} (reserve {m} _) = s.use_count + 1 ≤ m
Guard {s} (read_again {a} _) = s.top ≡ some a
Guard {s} (read_null _) = s.top ≡ none
Guard {s} (pop {c} {b} {t} _ _ _) = (t ≡ some b) × (s.top ≡ some b) × (s.tag ≡ c)
Guard {s} (pop_null {c} {t} _ _ _) = (t ≡ none) × (s.top ≡ none) × (s.tag ≡ c)
Guard {s} (start_free {b} _) = member b s.held ≡ true
Guard {s} (push {c} {t} _ _) = (s.top ≡ t) × (s.tag ≡ c)
Guard _ = Unit

pub guard : {s s' : Shared} {p p' : Pc} (mv : Move s p s' p') → Guard mv
guard (make g) = g
guard (reserve g) = g
guard (read_again g) = g
guard (read_null g) = g
guard (pop g h k) = (g, h, k)
guard (pop_null g h k) = (g, h, k)
guard (start_free g) = g
guard (push g h) = (g, h)
guard _ = tt

-- The stack after a step.
abbrev pub stack_after : {s s' : Shared} {p p' : Pc} → Move s p s' p' → List ℕ → List ℕ
stack_after (pop _ _ _) bs = drop 1 bs
stack_after (push {b} _ _) bs = b ∷ bs
stack_after _ bs = bs

-- What is left of the stack when the block `b` on its top is taken.
pub record Popped (next : ℕ → Option ℕ) (b : ℕ) (stack : List ℕ) : Type 0 where
  pub chain : Chain next (next b) (drop 1 stack)
  pub distinct : Distinct (drop 1 stack)
  pub shorter : length (drop 1 stack) + 1 ≡ length stack
  pub was_in : member b stack ≡ true
  pub rest : (x : ℕ) → member x (drop 1 stack) ≡ (if b == x then false else member x stack)

pub popped :
    (next : ℕ → Option ℕ) (t : Option ℕ) (b : ℕ) (stack : List ℕ)
    → Chain next t stack
    → Distinct stack
    → t ≡ some b
    → Popped next b stack
unfolding member
popped next t b [] c d e = cc
popped next t b (x ∷ xs) c d e = record {
  chain = subst (λ y. Chain next (next y) xs) same c.1;
  distinct = d.1;
  shorter = omega arith;
  was_in = ground arith;
  rest = λ y. elim (Bool-cases (b == y)) [
    | inl q ↦ let at : x ≡ y = ground arith in rw q (subst (λ z. member z xs ≡ false) at d.0)
    | inr q ↦ ground arith
  ];
}
  where
    same : x ≡ b
    same = ground arith

-- A stack that is not empty has a top.
pub Chain-none :
    (next : ℕ → Option ℕ) (t : Option ℕ) (stack : List ℕ)
    → Chain next t stack
    → t ≡ none
    → length stack ≡ 0
Chain-none next t [] c e = refl
Chain-none next t (x ∷ xs) c e = cc

-- Writing to a block that is not on the stack leaves the stack alone.
pub Chain-update :
    (next : ℕ → Option ℕ) (t r : Option ℕ) (b : ℕ) (stack : List ℕ)
    → member b stack ≡ false
    → Chain next t stack
    → Chain (update next b r) t stack
unfolding member
Chain-update next t r b [] h c = c
Chain-update next t r b (x ∷ xs) h c =
    let other : (b == x) ≡ false = ground arith in
    (c.0, rw other (Chain-update next (next x) r b xs (ground arith) c.1))
