-- ===== src/FreeList/Tests.antt =====
-- The object pool on concrete inputs: a pool of two blocks, of which one is taken.
use chatting_server.Base.{refl, [], ◌∷◌, arith}
use chatting_server.Base.Maps.{member}
use chatting_server.FreeList.{FreeList}
use chatting_server.FreeList.Ownership.{Owned}

abbrev one_taken : FreeList
one_taken = record { top = 0 ∷ []; max_count = 2; use_count = 1 }

one_taken-Owned : Owned one_taken (1 ∷ [])
unfolding member
one_taken-Owned = record {
  free_distinct = (refl, tt);
  held_distinct = (refl, tt);
  apart = λ b h. ground arith;
  free_made = λ b h. ground arith;
  held_made = λ b h. ground arith;
  in_use = refl;
  made = refl;
}
