-- ===== src/FreeList/Threads.antt =====
-- `Alloc` and `Free` of ConsoleApplication2/CLFFreeList.h as many threads run them at once: each shared
-- access is one step, in any order (sequential consistency). A call is a program counter with its live
-- locals; a block is named by the number of blocks made before it. `held` are the blocks that callers
-- have. `malloc` succeeds, counters are not bounded, and `bPlacementNew` is off. A read through a null pointer leads to `crashed`.
pub mod Invariant
pub mod Safety
mod Tests
use chatting_server.Base.{ℕ, ◌+◌, ◌-◌, ◌≤◌, ◌<◌, ◌≡◌, ◌≢◌, true, List, [], ◌∷◌, Option, some, none}
use chatting_server.Base.Maps.{member, remove, update}

-- The members of `CLFFreeList`, with the two words of `_pTop` and the `stpNextBlock` of every block.
pub record Shared : Type 0 where
  pub top : Option ℕ
  pub tag : ℕ
  pub next : ℕ → Option ℕ
  pub count : ℕ  -- m_lCount
  pub max_count : ℕ
  pub use_count : ℕ
  pub made : ℕ
  pub held : List ℕ

-- Where a call stands. `u` is the number that it drew from `m_lCount`, `t` and `c` are `CloneTop`.
pub data Pc : Type 0 where
  idle : Pc
  got_max : (m : ℕ) → Pc  -- before the increment of m_lUseCount
  making : Pc  -- before malloc
  built : (b : ℕ) → Pc  -- before the increment of m_lMaxCount
  popping : Pc  -- before the increment of m_lCount
  pop_top : (u : ℕ) → Pc  -- head of the loop of Alloc
  pop_tag : (u : ℕ) (t : Option ℕ) → Pc
  pop_again : (u : ℕ) (t : Option ℕ) (c : ℕ) → Pc  -- before the second read of pTopNode
  pop_next : (u : ℕ) (t : Option ℕ) (c a : ℕ) → Pc  -- before the read of stpNextBlock
  pop_cas : (u : ℕ) (t : Option ℕ) (c : ℕ) (n : Option ℕ) → Pc
  crashed : Pc
  freeing : (b : ℕ) → Pc  -- start of Free
  push_top : (u b : ℕ) → Pc  -- head of the loop of Free
  push_tag : (u b : ℕ) (t : Option ℕ) → Pc
  push_again : (u b : ℕ) (t : Option ℕ) (c : ℕ) → Pc
  push_link : (u b : ℕ) (t : Option ℕ) (c : ℕ) (r : Option ℕ) → Pc  -- before the write of stpNextBlock
  push_cas : (u b : ℕ) (t : Option ℕ) (c : ℕ) (r : Option ℕ) → Pc
  freed : Pc  -- before the decrement of m_lUseCount

-- One step of one call.
pub data Move (s : Shared) : Pc → Shared → Pc → Type 0 where
  read_max : Move s idle s (got_max s.max_count)
  make :
      {m : ℕ}
      → m < s.use_count + 1
      → Move s (got_max m) (record s { use_count = s.use_count + 1 }) making
  reserve :
      {m : ℕ}
      → s.use_count + 1 ≤ m
      → Move s (got_max m) (record s { use_count = s.use_count + 1 }) popping
  malloc : Move s making (record s { made = s.made + 1 }) (built s.made)
  return_made :
      {b : ℕ} → Move s (built b) (record s { max_count = s.max_count + 1; held = b ∷ s.held }) idle
  draw : Move s popping (record s { count = s.count + 1 }) (pop_top (s.count + 1))
  read_top : {u : ℕ} → Move s (pop_top u) s (pop_tag u s.top)
  read_tag : {u : ℕ} {t : Option ℕ} → Move s (pop_tag u t) s (pop_again u t s.tag)
  read_again :
      {u c a : ℕ} {t : Option ℕ} → s.top ≡ some a → Move s (pop_again u t c) s (pop_next u t c a)
  read_null : {u c : ℕ} {t : Option ℕ} → s.top ≡ none → Move s (pop_again u t c) s crashed
  read_next : {u c a : ℕ} {t : Option ℕ} → Move s (pop_next u t c a) s (pop_cas u t c (s.next a))
  pop :
      {u c b : ℕ} {t n : Option ℕ}
      → t ≡ some b
      → s.top ≡ some b
      → s.tag ≡ c
      → Move s (pop_cas u t c n) (record s { top = n; tag = u; held = b ∷ s.held }) idle
  pop_null :
      {u c : ℕ} {t n : Option ℕ}
      → t ≡ none
      → s.top ≡ none
      → s.tag ≡ c
      → Move s (pop_cas u t c n) (record s { top = n; tag = u }) crashed
  pop_lost :
      {u c : ℕ} {t n : Option ℕ} → (s.top ≡ t → s.tag ≢ c) → Move s (pop_cas u t c n) s (pop_top u)
  start_free :
      {b : ℕ}
      → member b s.held ≡ true
      → Move s idle (record s { held = remove b s.held }) (freeing b)
  draw_free :
      {b : ℕ} → Move s (freeing b) (record s { count = s.count + 1 }) (push_top (s.count + 1) b)
  free_top : {u b : ℕ} → Move s (push_top u b) s (push_tag u b s.top)
  free_tag : {u b : ℕ} {t : Option ℕ} → Move s (push_tag u b t) s (push_again u b t s.tag)
  free_again : {u b c : ℕ} {t : Option ℕ} → Move s (push_again u b t c) s (push_link u b t c s.top)
  link :
      {u b c : ℕ} {t r : Option ℕ}
      → Move s (push_link u b t c r) (record s { next = update s.next b r }) (push_cas u b t c r)
  push :
      {u b c : ℕ} {t r : Option ℕ}
      → s.top ≡ t
      → s.tag ≡ c
      → Move s (push_cas u b t c r) (record s { top = some b; tag = u }) freed
  push_lost :
      {u b c : ℕ} {t r : Option ℕ}
      → (s.top ≡ t → s.tag ≢ c)
      → Move s (push_cas u b t c r) s (push_top u b)
  settle : Move s freed (record s { use_count = s.use_count - 1 }) idle

-- The pool and the calls of the threads
pub record System : Type 0 where
  pub shared : Shared
  pub calls : ℕ → Pc

-- One of so many threads takes a step.
pub data Step (threads : ℕ) (before : System) : System → Type 0 where
  pick :
      (who : ℕ)
      → who < threads
      → {after : Shared} {goes : Pc} → Move before.shared (before.calls who) after goes
      → Step threads before (record { shared = after; calls = update before.calls who goes })

-- A pool that starts with no block, as the server's pools do.
abbrev pub init : System
init = record {
  shared = record {
    top = none;
    tag = 0;
    next = λ b. none;
    count = 0;
    max_count = 0;
    use_count = 0;
    made = 0;
    held = [];
  };
  calls = λ who. idle;
}

pub data Reach (n : ℕ) : System → Type 0 where
  start : Reach n init
  later : {s t : System} → Reach n s → Step n s t → Reach n t
