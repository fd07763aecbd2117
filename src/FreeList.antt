-- ===== src/FreeList.antt =====
-- The object pool of ConsoleApplication2/CLFFreeList.h, with each call of `Alloc` and `Free` taken as
-- one step. A block is named by the number of blocks that were made before it; `top` is the stack
-- of free blocks.
pub mod Ownership
pub mod Threads
mod Tests
use chatting_server.Base.{ℕ, zero, suc, ◌+◌, ◌-◌, ltb, if◌then◌else◌, List, [], ◌∷◌}
use chatting_server.Base.Outcome.{Outcome, done, overrun}

pub record FreeList : Type 0 where
  pub top : List ℕ
  pub max_count : ℕ
  pub use_count : ℕ

-- The constructor's loop: `count` blocks are made, and each goes on the top of those before it.
unfoldable pub make_blocks : ℕ → List ℕ
make_blocks zero = []
make_blocks (suc count) = count ∷ make_blocks count

-- The constructor with `iBlockNum`
unfoldable pub create : ℕ → FreeList
unfolding make_blocks
create block_num = record { top = make_blocks block_num; max_count = block_num; use_count = 0 }

-- The branch of `Alloc` that takes the top block off; with no block there it reads through a null
-- pointer.
pop_block : FreeList → List ℕ → Outcome (FreeList × ℕ)
pop_block f [] = overrun
pop_block f (b ∷ bs) = done (record f { top = bs; use_count = f.use_count + 1 }, b)

-- `Alloc()`: the pool after the call and the block
unfoldable pub alloc : FreeList → Outcome (FreeList × ℕ)
unfolding pop_block
alloc f =
    if ltb f.max_count (f.use_count + 1)
    then done (record f { max_count = f.max_count + 1; use_count = f.use_count + 1 }, f.max_count)
    else pop_block f f.top

-- `Free(pData)`
unfoldable pub free : FreeList → ℕ → FreeList
free f b = record f { top = b ∷ f.top; use_count = f.use_count - 1 }

-- The loop of the destructor, `count` rounds on the linked blocks: those whose memory goes back, and
-- those that stay linked.
unfoldable pub unlink : ℕ → List ℕ → List ℕ × List ℕ
unlink zero top = ([], top)
unlink (suc count) [] = unlink count []
unlink (suc count) (b ∷ bs) = let (freed, rest) = unlink count bs in (b ∷ freed, rest)

-- The destructor: the blocks whose memory goes back
unfoldable pub destroy : FreeList → List ℕ
unfolding unlink
destroy f = (unlink f.max_count f.top).0
