-- ===== src/IocpServer/Sending/Batch.antt =====
-- What one round of the send path does, ConsoleApplication2/IOCPServer.cpp.
use chatting_server.Base.{
  ℕ, zero, suc, ◌+◌, ◌≤◌, ◌<◌, ◌≡◌, refl, Bool, true, false, List, [], ◌∷◌, ◌++◌, length, take,
  drop, arith, append-nil, append_assoc, length-append,
}
use chatting_server.IocpServer.Sending.{batch, finish}

-- With room for all of them, a batch is the first packets of the queue, in order.
pub batch-take :
    (room : List ℕ → Bool) (k : ℕ) (q c : List ℕ)
    → ((d : List ℕ) → length d < 4096 → room d ≡ true)
    → length c + k ≤ 4096
    → batch room k q c ≡ (take k q, drop k q, c ++ take k q)
unfolding batch
batch-take room zero q c law few = rw (append-nil c) refl
batch-take room (suc k) [] c law few = rw (append-nil c) refl
batch-take room (suc k) (p ∷ q) c law few =
    rw
      (
        law c (omega arith),
        batch-take room k q (c ++ p ∷ []) law (omega (arith, length-append c (p ∷ []))),
        append_assoc c (p ∷ []) (take k q),
      )
      refl

-- Popping as many packets as there are pops them all.
pub finish-all : (c : List ℕ) → finish (length c) c ≡ (c, [], false)
unfolding finish
finish-all [] = refl
finish-all (p ∷ c) = rw (finish-all c) refl
