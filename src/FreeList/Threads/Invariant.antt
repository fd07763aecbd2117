-- ===== src/FreeList/Threads/Invariant.antt =====
-- What holds of the pool of CLFFreeList.h between any two shared accesses.
pub mod Steps
pub mod Tags
pub mod Counts
pub mod Blocks
pub mod Covered
pub mod Locals
use chatting_server.Base.{
  ℕ, ◌+◌, ◌≤◌, ◌<◌, ◌≡◌, ◌≢◌, true, false, List, [], ◌∷◌, Option, some, none, length,
}
use chatting_server.Base.Maps.{member}
use chatting_server.Base.Family.{total}
use chatting_server.FreeList.Ownership.{Distinct}
use chatting_server.FreeList.Threads.{
  Shared, Pc, idle, got_max, making, built, popping, pop_top, pop_tag, pop_again, pop_next, pop_cas,
  crashed, freeing, push_top, push_tag, push_again, push_link, push_cas, freed,
}

-- The blocks that hang together from `t` on.
abbrev pub Chain : (ℕ → Option ℕ) → Option ℕ → List ℕ → Type 0
Chain next t [] = t ≡ none
Chain next t (b ∷ bs) = (t ≡ some b) × Chain next (next b) bs

-- The number that a call has drawn and not yet used.
abbrev pub drawn : Pc → Option ℕ
drawn (pop_top u) = some u
drawn (pop_tag u _) = some u
drawn (pop_again u _ _) = some u
drawn (pop_next u _ _ _) = some u
drawn (pop_cas u _ _ _) = some u
drawn (push_top u _) = some u
drawn (push_tag u _ _) = some u
drawn (push_again u _ _ _) = some u
drawn (push_link u _ _ _ _) = some u
drawn (push_cas u _ _ _ _) = some u
drawn _ = none

-- The tag that a call has read.
abbrev pub saved : Pc → Option ℕ
saved (pop_again _ _ c) = some c
saved (pop_next _ _ c _) = some c
saved (pop_cas _ _ c _) = some c
saved (push_again _ _ _ c) = some c
saved (push_link _ _ _ c _) = some c
saved (push_cas _ _ _ c _) = some c
saved _ = none

-- The block that a call has to itself.
abbrev pub own : Pc → Option ℕ
own (built b) = some b
own (freeing b) = some b
own (push_top _ b) = some b
own (push_tag _ b _) = some b
own (push_again _ b _ _) = some b
own (push_link _ b _ _ _) = some b
own (push_cas _ b _ _ _) = some b
own _ = none

-- A block that is counted in m_lMaxCount and given back, on its way to the stack.
abbrev pub returns : Pc → ℕ
returns (freeing _) = 1
returns (push_top _ _) = 1
returns (push_tag _ _ _) = 1
returns (push_again _ _ _ _) = 1
returns (push_link _ _ _ _ _) = 1
returns (push_cas _ _ _ _ _) = 1
returns _ = 0

-- A call that may take a block off the stack.
abbrev pub reserves : Pc → ℕ
reserves popping = 1
reserves (pop_top _) = 1
reserves (pop_tag _ _) = 1
reserves (pop_again _ _ _) = 1
reserves (pop_next _ _ _ _) = 1
reserves (pop_cas _ _ _ _) = 1
reserves _ = 0

-- A call that makes a block, and one that has still to settle m_lUseCount.
abbrev pub makes : Pc → ℕ
makes making = 1
makes (built _) = 1
makes _ = 0

abbrev pub settles : Pc → ℕ
settles freed = 1
settles _ = 0

abbrev pub is_built : Pc → ℕ
is_built (built _) = 1
is_built _ = 0

abbrev pub fails : Pc → ℕ
fails crashed = 1
fails _ = 0

-- What the locals of a call say about the shared words while the tag that it read is still there.
abbrev pub IsFresh : Shared → Pc → Type 0
IsFresh s (got_max m) = m ≤ s.max_count
IsFresh s (pop_next u t c a) = s.tag ≡ c → s.top ≡ some a
IsFresh s (pop_cas u t c n) = s.tag ≡ c → (a : ℕ) × (s.top ≡ some a) × (s.next a ≡ n)
IsFresh s (push_link u b t c r) = s.tag ≡ c → s.top ≡ r
IsFresh s (push_cas u b t c r) = (s.next b ≡ r) × (s.tag ≡ c → s.top ≡ r)
IsFresh s _ = Unit

-- `stack` are the free blocks from the top down.
pub record Inv (n : ℕ) (s : Shared) (pc : ℕ → Pc) (stack : List ℕ) : Type 0 where
  pub chain : Chain s.next s.top stack
  pub stack_distinct : Distinct stack
  pub held_distinct : Distinct s.held
  pub stack_made : (b : ℕ) → member b stack ≡ true → b < s.made
  pub held_made : (b : ℕ) → member b s.held ≡ true → b < s.made
  pub apart : (b : ℕ) → member b stack ≡ true → member b s.held ≡ false
  pub own_made : (i b : ℕ) → own (pc i) ≡ some b → b < s.made
  pub own_stack : (i b : ℕ) → own (pc i) ≡ some b → member b stack ≡ false
  pub own_held : (i b : ℕ) → own (pc i) ≡ some b → member b s.held ≡ false
  pub own_unique : (i j b : ℕ) → own (pc i) ≡ some b → own (pc j) ≡ some b → i ≡ j
  pub tag_old : s.tag ≤ s.count
  pub drawn_le : (i u : ℕ) → drawn (pc i) ≡ some u → u ≤ s.count
  pub drawn_tag : (i u : ℕ) → drawn (pc i) ≡ some u → s.tag ≢ u
  pub drawn_unique : (i j u : ℕ) → drawn (pc i) ≡ some u → drawn (pc j) ≡ some u → i ≡ j
  pub saved_le : (i c : ℕ) → saved (pc i) ≡ some c → c ≤ s.count
  pub saved_drawn : (i j c u : ℕ) → saved (pc i) ≡ some c → drawn (pc j) ≡ some u → c ≢ u
  pub fresh : (i : ℕ) → IsFresh s (pc i)
  pub all_made : s.made ≡ s.max_count + total is_built n pc
  pub in_use :
      s.use_count
      ≡ length s.held
        + total returns n pc
        + total reserves n pc
        + total makes n pc
        + total settles n pc
  pub all_owned : s.max_count ≡ length stack + length s.held + total returns n pc
  pub reserved : total reserves n pc ≤ length stack
  pub safe : total fails n pc ≡ 0
