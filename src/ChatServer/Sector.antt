-- ===== src/ChatServer/Sector.antt =====
-- The sectors of ConsoleApplication2/ChatServer.cpp: `IsValidSector`, `MakeAround` and the locks of
-- one or two sectors. The locks that a piece of code takes and gives back are a list of events.
pub mod Around
use chatting_server.Base.{
  ℕ, zero, suc, ◌+◌, ◌-◌, ◌*◌, ◌%◌, ◌≤◌, ◌<◌, ◌≡◌, refl, ltb, ◌==◌, if◌then◌else◌, Bool, true,
  false, ◌&&◌, ◌||◌, List, [], ◌∷◌, ◌++◌, arith,
}

-- `dfSECTOR_MAX_X` and `dfSECTOR_MAX_Y`
abbrev pub sector_max : ℕ
sector_max = 50

-- `IsValidSector(x, y)`
abbrev pub is_valid_sector : ℕ → ℕ → Bool
is_valid_sector x y = ltb x sector_max && ltb y sector_max

-- `x + dx` for `dx = k - 1`, as the `WORD` that `IsValidSector` is given and that `Req_Chat` takes
-- back out of the `int` that is stored.
abbrev pub beside : ℕ → ℕ → ℕ
beside x k = (x + 65535 + k) % 65536

-- The body of the inner loop of `MakeAround`
unfoldable pub around_cell : ℕ → ℕ → ℕ → ℕ → List (ℕ × ℕ)
around_cell x y k l =
    if is_valid_sector (beside x k) (beside y l) then (beside x k, beside y l) ∷ [] else []

-- `for (int dx = -1; dx <= 1; ++dx)`
unfoldable pub around_row : ℕ → ℕ → ℕ → List (ℕ × ℕ)
unfolding around_cell
around_row x y l = around_cell x y 0 l ++ (around_cell x y 1 l ++ around_cell x y 2 l)

-- `MakeAround(x, y)`: the cells in `map`, of which `count` is the number
unfoldable pub make_around : ℕ → ℕ → List (ℕ × ℕ)
unfolding around_row
make_around x y = around_row x y 0 ++ (around_row x y 1 ++ around_row x y 2)

-- `lockIndex` as the constructor numbers the sectors
abbrev pub lock_index : ℕ → ℕ → ℕ
lock_index x y = y * sector_max + x

pub data LockEvent : Type 0 where
  lock : ℕ → LockEvent
  unlock : ℕ → LockEvent

-- `LockTwoSectorsExclusive(x1, y1, x2, y2)`
unfoldable pub lock_two_sectors : ℕ → ℕ → ℕ → ℕ → List LockEvent
lock_two_sectors x1 y1 x2 y2 =
    let i = lock_index x1 y1 in
    let j = lock_index x2 y2 in
    if i == j then lock i ∷ [] else (if ltb i j then lock i ∷ lock j ∷ [] else lock j ∷ lock i ∷ [])

-- `UnlockTwoSectorsExclusive(x1, y1, x2, y2)`
unfoldable pub unlock_two_sectors : ℕ → ℕ → ℕ → ℕ → List LockEvent
unlock_two_sectors x1 y1 x2 y2 =
    let i = lock_index x1 y1 in
    let j = lock_index x2 y2 in if i == j then unlock i ∷ [] else unlock i ∷ unlock j ∷ []

-- The cell is in the list.
unfoldable pub listed : ℕ → ℕ → List (ℕ × ℕ) → Bool
listed a b [] = false
listed a b ((x, y) ∷ cs) = (x == a && y == b) || listed a b cs

-- `a` and `b` are no more than one apart.
abbrev pub near : ℕ → ℕ → Bool
near a b = ltb a (b + 2) && ltb b (a + 2)
