-- ===== src/FreeList/Threads/Tests.antt =====
-- Concrete schedules of the pool: one thread makes a block and gives it back; then two threads take
-- from the pool, and the one that read its tag first loses.
use chatting_server.Base.{
  ℕ, ◌+◌, ◌<◌, ◌≡◌, ◌≢◌, refl, true, false, ◌⊎◌, List, [], ◌∷◌, some, length, arith,
}
use chatting_server.Base.Maps.{member, remove}
use chatting_server.Base.Family.{total}
use chatting_server.FreeList.Ownership.{Distinct}
use chatting_server.FreeList.Threads.{
  System, Step, pick, Reach, start, later, crashed, read_max, make, reserve, malloc, return_made,
  draw, read_top, read_tag, read_again, read_next, pop, start_free, draw_free, free_top, free_tag,
  free_again, link, push, settle,
}
use chatting_server.FreeList.Threads.Invariant.{Chain, own, returns, is_built}
use chatting_server.FreeList.Threads.Safety.{
  no_double_use, steps_refine_stack, blocks_accounted, Effect,
}

-- Thread 0 makes block 0.
taken : (s : System) × Reach 2 s × (s.shared.held ≡ 0 ∷ [])
taken = (
  _,
  later
      (later
        (later (later start (pick 0 (omega arith) read_max))
          (pick 0 (omega arith) (make (omega arith))))
        (pick 0 (omega arith) malloc))
      (pick 0 (omega arith) return_made),
  refl,
)

-- It gives the block back, up to the exchange.
linked : (s : System) × Reach 2 s
unfolding taken member
linked = (
  _,
  later
      (later
        (later
          (later
            (later (later taken.1 (pick 0 (omega arith) (start_free {b = 0} refl)))
              (pick 0 (omega arith) draw_free))
            (pick 0 (omega arith) free_top))
          (pick 0 (omega arith) free_tag))
        (pick 0 (omega arith) free_again))
      (pick 0 (omega arith) link),
)

pushed : (s : System) × Step 2 linked.0 s
unfolding linked taken member
pushed = (_, pick 0 (omega arith) (push refl refl))

no_double_use_example :
    ((i : ℕ) → i < 2 → linked.0.calls i ≢ crashed)
    × Distinct linked.0.shared.held
    × ((i b : ℕ) → own (linked.0.calls i) ≡ some b → member b linked.0.shared.held ≡ false)
    × ((i j b : ℕ) → own (linked.0.calls i) ≡ some b → own (linked.0.calls j) ≡ some b → i ≡ j)
no_double_use_example = no_double_use linked.1

steps_refine_stack_example :
    (before after : List ℕ) × Chain linked.0.shared.next linked.0.shared.top before
    × Chain pushed.0.shared.next pushed.0.shared.top after
    × Effect linked.0.shared pushed.0.shared before after
steps_refine_stack_example = steps_refine_stack linked.1 pushed.1

blocks_accounted_example :
    (stack : List ℕ) × Chain linked.0.shared.next linked.0.shared.top stack
    × ((b : ℕ)
        → b < linked.0.shared.made
        → (member b stack ≡ true)
          ⊎ ((member b linked.0.shared.held ≡ true)
              ⊎ ((j : ℕ) × (j < 2) × (own (linked.0.calls j) ≡ some b))))
    × ((b : ℕ) → member b stack ≡ true → member b linked.0.shared.held ≡ false)
    × ((j b : ℕ)
        → own (linked.0.calls j) ≡ some b
        → (member b stack ≡ false) × (member b linked.0.shared.held ≡ false))
    × (linked.0.shared.made
        ≡ length stack
          + length linked.0.shared.held
          + total returns 2 linked.0.calls
          + total is_built 2 linked.0.calls)
blocks_accounted_example = blocks_accounted linked.1

-- The other thread takes the same block from the stack.
popped : (s : System) × Reach 2 s
unfolding pushed linked taken member remove
popped = (
  _,
  later
      (later
        (later
          (later
            (later
              (later
                (later
                  (later (later (later linked.1 pushed.1) (pick 0 (omega arith) settle))
                    (pick 1 (omega arith) read_max))
                  (pick 1 (omega arith) (reserve (omega arith))))
                (pick 1 (omega arith) draw))
              (pick 1 (omega arith) read_top))
            (pick 1 (omega arith) read_tag))
          (pick 1 (omega arith) (read_again refl)))
        (pick 1 (omega arith) read_next))
      (pick 1 (omega arith) (pop refl refl refl)),
)

popped_held : popped.0.shared.held ≡ 0 ∷ []
unfolding popped pushed linked taken remove
popped_held = refl
