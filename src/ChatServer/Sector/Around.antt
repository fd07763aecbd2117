-- ===== src/ChatServer/Sector/Around.antt =====
-- Which cells `MakeAround` gives, and in which order two sectors are locked.
use chatting_server.Base.{
  ℕ, ◌<◌, ◌≡◌, refl, ltb, ◌==◌, if◌then◌else◌, Bool, true, ◌&&◌, ◌||◌, List, [], ◌∷◌, ◌++◌, arith,
  Bool-cases, inl, inr, ap, ap₂, ◌∙◌, Option, some, none,
}
use chatting_server.Base.Maps.{member, remove}
use chatting_server.ChatServer.Sector.{
  is_valid_sector, beside, around_cell, around_row, make_around, lock_index, LockEvent, lock,
  unlock, lock_two_sectors, unlock_two_sectors, listed, near,
}

listed-append :
    (a b : ℕ) (cs ds : List (ℕ × ℕ)) → listed a b (cs ++ ds) ≡ (listed a b cs || listed a b ds)
unfolding listed
listed-append a b [] ds = refl
listed-append a b ((x, y) ∷ cs) ds = ground (arith, listed-append a b cs ds)

listed-around_cell :
    (a b x y k l : ℕ)
    → listed a b (around_cell x y k l)
      ≡ ((beside x k == a && beside y l == b) && is_valid_sector a b)
unfolding listed around_cell
listed-around_cell a b x y k l = ground arith

-- The three columns of a row are those within one of `x`.
columns :
    (a x : ℕ)
    → a < 50
    → x < 50
    → ((beside x 0 == a || beside x 1 == a) || beside x 2 == a) ≡ near a x
columns a x h l = ground arith

-- The cells of the Boolean algebra that the loops come to.
nine :
    (p q r s t u v : Bool)
    → ((((p && s) && v) || (((q && s) && v) || ((r && s) && v)))
        || ((((p && t) && v) || (((q && t) && v) || ((r && t) && v)))
            || (((p && u) && v) || (((q && u) && v) || ((r && u) && v)))))
      ≡ ((((p || q) || r) && ((s || t) || u)) && v)
nine p q r s t u v = ground arith

listed-around_row :
    (a b x y l : ℕ)
    → listed a b (around_row x y l) ≡ (
        listed a b (around_cell x y 0 l)
        || (listed a b (around_cell x y 1 l) || listed a b (around_cell x y 2 l)))
unfolding around_row
listed-around_row a b x y l =
    listed-append a b (around_cell x y 0 l) (around_cell x y 1 l ++ around_cell x y 2 l)
    ∙ ap (λ c. listed a b (around_cell x y 0 l) || c)
        (listed-append a b (around_cell x y 1 l) (around_cell x y 2 l))

listed-rows :
    (a b x y : ℕ)
    → listed a b (make_around x y) ≡ (
        listed a b (around_row x y 0)
        || (listed a b (around_row x y 1) || listed a b (around_row x y 2)))
unfolding make_around
listed-rows a b x y =
    listed-append a b (around_row x y 0) (around_row x y 1 ++ around_row x y 2)
    ∙ ap (λ c. listed a b (around_row x y 0) || c)
        (listed-append a b (around_row x y 1) (around_row x y 2))

-- What the loops list, as a condition on the column and one on the row.
listed-axes :
    (a b x y : ℕ)
    → listed a b (make_around x y) ≡ (
        (((beside x 0 == a || beside x 1 == a) || beside x 2 == a)
          && ((beside y 0 == b || beside y 1 == b) || beside y 2 == b))
        && is_valid_sector a b)
listed-axes a b x y =
    listed-rows a b x y
    ∙ rw
        (
          listed-around_row a b x y 0,
          listed-around_row a b x y 1,
          listed-around_row a b x y 2,
          listed-around_cell a b x y 0 0,
          listed-around_cell a b x y 1 0,
          listed-around_cell a b x y 2 0,
          listed-around_cell a b x y 0 1,
          listed-around_cell a b x y 1 1,
          listed-around_cell a b x y 2 1,
          listed-around_cell a b x y 0 2,
          listed-around_cell a b x y 1 2,
          listed-around_cell a b x y 2 2,
        )
        (nine (beside x 0 == a) (beside x 1 == a) (beside x 2 == a) (beside y 0 == b)
          (beside y 1 == b) (beside y 2 == b) (is_valid_sector a b))

-- `MakeAround` of a valid sector lists exactly the valid sectors that are no more than one column and
-- one row away, itself among them.
pub listed-make_around :
    (a b x y : ℕ)
    → x < 50
    → y < 50
    → listed a b (make_around x y) ≡ ((near a x && near b y) && is_valid_sector a b)
listed-make_around a b x y h l = listed-axes a b x y ∙ elim (Bool-cases (is_valid_sector a b)) [
  | inl valid ↦
      ap₂ (λ c d. (c && d) && is_valid_sector a b) (columns a x (ground arith) h)
        (columns b y (ground arith) l)
  | inr wrong ↦ ground arith
]

unfoldable pub all_below : ℕ → List ℕ → Bool
all_below i [] = true
all_below i (j ∷ js) = ltb j i && all_below i js

-- The locks held after the events, the last one taken first; `none` if a lock is taken that is not
-- above all that are held, or given back without being held.
unfoldable pub locks_held : List LockEvent → List ℕ → Option (List ℕ)
unfolding member remove all_below
locks_held [] held = some held
locks_held (lock i ∷ es) held =
    let rest = locks_held es (i ∷ held) in if all_below i held then rest else none
locks_held (unlock i ∷ es) held =
    let rest = locks_held es (remove i held) in if member i held then rest else none

-- `LockTwoSectorsExclusive` takes the locks of the two sectors and no others, each once, always one with
-- a greater index after one with a smaller, whichever sector comes first in the call, and
-- `UnlockTwoSectorsExclusive` gives back all that was taken. Different sectors have different indices.
pub lock_two_sectors-ordered :
    (x1 y1 x2 y2 : ℕ)
    → x1 < 50
    → x2 < 50
    → ((held : List ℕ) × (locks_held (lock_two_sectors x1 y1 x2 y2) [] ≡ some held)
        × ((k : ℕ) → member k held ≡ (lock_index x1 y1 == k || lock_index x2 y2 == k))
        × (locks_held (unlock_two_sectors x1 y1 x2 y2) held ≡ some []))
      × (locks_held (lock_two_sectors x1 y1 x2 y2 ++ unlock_two_sectors x1 y1 x2 y2) [] ≡ some [])
      × (lock_two_sectors x1 y1 x2 y2 ≡ lock_two_sectors x2 y2 x1 y1)
      × (lock_index x1 y1 ≡ lock_index x2 y2 → (x1 ≡ x2) × (y1 ≡ y2))
unfolding lock_two_sectors unlock_two_sectors locks_held member remove all_below
lock_two_sectors-ordered x1 y1 x2 y2 a b =
    let i : ℕ = lock_index x1 y1 in
    let j : ℕ = lock_index x2 y2 in
    let same : lock_index x1 y1 ≡ lock_index x2 y2 → (x1 ≡ x2) × (y1 ≡ y2) =
      λ e. (omega arith, omega arith) in
    let taken : List ℕ = if i == j then i ∷ [] else (if ltb i j then j ∷ i ∷ [] else i ∷ j ∷ []) in
    ((taken, ground arith, λ k. ground arith, ground arith), ground arith, ground arith, same)
