-- ===== src/FreeList/Threads/Invariant/Counts.antt =====
-- A step of one call keeps the counts of the invariant.
use chatting_server.Base.{ℕ, ◌+◌, ◌≤◌, ◌<◌, ◌≡◌, refl, List, some, length, arith}
use chatting_server.Base.Maps.{update}
use chatting_server.Base.Family.{total, total-update, total-le}
use chatting_server.FreeList.Ownership.{length-remove}
use chatting_server.FreeList.Threads.{
  Shared, Pc, Move, read_max, reserve, read_null, pop, pop_null, start_free,
}
use chatting_server.FreeList.Threads.Invariant.Steps.{stack_after, Popped, popped, Chain-none}
use chatting_server.FreeList.Threads.Invariant.{
  returns, reserves, makes, settles, is_built, fails, IsFresh, Inv,
}

module _ {n : ℕ} {s : Shared} {pc : ℕ → Pc} {stack : List ℕ} (inv : Inv n s pc stack) (i : ℕ) where
  open inv use {
    own_made, own_stack, own_held, own_unique, drawn_le, drawn_tag, drawn_unique, saved_le,
    saved_drawn, fresh,
  }

  -- Call `i` goes from `p` to `p'`.
  pub record Moved (p p' : Pc) : Type 0 where
    was : pc i ≡ p
    fresh_here : IsFresh s p
    returning : total returns n (update pc i p') + returns p ≡ total returns n pc + returns p'
    reserving : total reserves n (update pc i p') + reserves p ≡ total reserves n pc + reserves p'
    building : total makes n (update pc i p') + makes p ≡ total makes n pc + makes p'
    settling : total settles n (update pc i p') + settles p ≡ total settles n pc + settles p'
    completed : total is_built n (update pc i p') + is_built p ≡ total is_built n pc + is_built p'
    failing : total fails n (update pc i p') + fails p ≡ total fails n pc + fails p'
    within : reserves p ≤ total reserves n pc
    returns_within : returns p ≤ total returns n pc

  pub moved : i < n → (p' : Pc) → Moved (pc i) p'
  moved below p' = record {
    was = refl;
    fresh_here = fresh i;
    returning = total-update returns n i pc p' below;
    reserving = total-update reserves n i pc p' below;
    building = total-update makes n i pc p' below;
    settling = total-update settles n i pc p' below;
    completed = total-update is_built n i pc p' below;
    failing = total-update fails n i pc p' below;
    within = total-le reserves n i pc below;
    returns_within = total-le returns n i pc below;
  }

  tops : (b : ℕ) → s.top ≡ some b → Popped s.next b stack
  tops b e = popped s.next s.top b stack inv.chain inv.stack_distinct e

  pub Move-counts : {p p' : Pc} {s' : Shared} (mv : Move s p s' p') → Moved p p' → record {
    all_made : s'.made ≡ s'.max_count + total is_built n (update pc i p');
    in_use :
        s'.use_count
        ≡ length s'.held
          + total returns n (update pc i p')
          + total reserves n (update pc i p')
          + total makes n (update pc i p')
          + total settles n (update pc i p');
    all_owned :
        s'.max_count
        ≡ length (stack_after mv stack) + length s'.held + total returns n (update pc i p');
    reserved : total reserves n (update pc i p') ≤ length (stack_after mv stack);
    safe : total fails n (update pc i p') ≡ 0;
  }
  Move-counts read_max f = omega (arith, inv, f)
  Move-counts (read_null g) f =
      absurd (omega (arith, inv, f, Chain-none s.next s.top stack inv.chain g))
  Move-counts (pop_null e g h) f =
      absurd (omega (arith, inv, f, Chain-none s.next s.top stack inv.chain g))
  Move-counts (pop {b} e g h) f = omega (arith, inv, f, (tops b g).shorter)
  Move-counts (start_free {b} g) f =
      omega (arith, inv, f, length-remove b s.held inv.held_distinct g)
  Move-counts (reserve g) f = omega (arith, inv, f)
  Move-counts mv f = omega (arith, inv, f)
