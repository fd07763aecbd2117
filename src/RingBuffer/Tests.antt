-- ===== src/RingBuffer/Tests.antt =====
-- The ring of CRingBuffer.cpp on concrete inputs: tests by evaluation, and the theorems of the
-- modules beside this one applied to a ring of four cells whose bytes go round the end.
use chatting_server.Base.{
  ℕ, zero, suc, ◌<◌, ◌≡◌, ◌≢◌, refl, List, [], ◌∷◌, length, arith, some, ◌++◌, min, take, get_or,
}
use chatting_server.Base.Arrays.{write_bytes, read_bytes, tab}
use chatting_server.RingBuffer.{
  RingBuffer, create, use_size, free_size, enqueue, dequeue, peek, move_front, move_rear, resize,
}
use chatting_server.RingBuffer.Invariant.{IsValid}
use chatting_server.RingBuffer.Contents.{contents}
use chatting_server.RingBuffer.Transfer.{enqueue_refines, dequeue_refines}
use chatting_server.RingBuffer.Receive.{
  recv_buffers, place, IsReceived, move_rear-received, peek-move_front,
}
use chatting_server.RingBuffer.Resize.{resize_keeps, resize_exact}

-- 8, then 9, round the end of four cells
abbrev bent : RingBuffer
bent = record { front_pos = 3; rear_pos = 1; buf_size = 4; cells = 9 ∷ 5 ∷ 6 ∷ 8 ∷ [] }

bent-IsValid : IsValid bent
bent-IsValid = omega arith

contents-bent : contents bent ≡ 8 ∷ 9 ∷ []
unfolding contents use_size tab
contents-bent = refl

-- One of two bytes fits.
enqueue-bent : (enqueue bent (1 ∷ 2 ∷ []) 2).1 ≡ 1
unfolding enqueue
enqueue-bent = refl

enqueue_then_dequeue : (dequeue (enqueue (create 4) (1 ∷ 2 ∷ 3 ∷ []) 3).0 2).1 ≡ 1 ∷ 2 ∷ []
unfolding enqueue dequeue create write_bytes read_bytes
enqueue_then_dequeue = refl

enqueue_refines_example :
    let (r', taken) = enqueue bent (1 ∷ 2 ∷ []) 2 in
    (taken ≡ min 2 (free_size bent))
    × (contents r' ≡ contents bent ++ take taken (1 ∷ 2 ∷ []))
    × IsValid r'
enqueue_refines_example = enqueue_refines (1 ∷ 2 ∷ []) 2 bent-IsValid (omega arith)

dequeue_refines_example :
    let (r', out, count) = dequeue bent 5 in
    (count ≡ min 5 (length (contents bent)))
    × (length out ≡ count)
    × (out ++ contents r' ≡ contents bent)
    × IsValid r'
dequeue_refines_example = dequeue_refines 5 bent-IsValid

-- An empty ring whose free cells go round the end: two bytes arrive in two buffers.
abbrev waiting : RingBuffer
waiting = record { front_pos = 3; rear_pos = 3; buf_size = 4; cells = 0 ∷ 0 ∷ 0 ∷ 0 ∷ [] }

waiting-IsValid : IsValid waiting
waiting-IsValid = omega arith

waiting_buffers :
    recv_buffers waiting ≡ record { buf = 3; len = 1 } ∷ record { buf = 0; len = 2 } ∷ []
unfolding recv_buffers use_size
waiting_buffers = refl

abbrev two_bytes : List ℕ
two_bytes = 7 ∷ 8 ∷ []

abbrev filled : List ℕ
filled = 8 ∷ 0 ∷ 0 ∷ 7 ∷ []

arrived : IsReceived (recv_buffers waiting) two_bytes waiting.cells filled
unfolding recv_buffers use_size
arrived = record { same_length = refl; stored = stored; kept = kept }
  where
    stored :
        (k : ℕ) → k < 2 → get_or filled (place (recv_buffers waiting) k) 0 ≡ get_or two_bytes k 0
    stored zero h = refl
    stored (suc zero) h = refl
    stored (suc (suc k)) h = absurd (omega arith)

    kept :
        (j : ℕ)
        → ((k : ℕ) → k < 2 → place (recv_buffers waiting) k ≢ j)
        → get_or filled j 0 ≡ get_or waiting.cells j 0
    kept zero h = absurd (h 1 (omega arith) refl)
    kept (suc zero) h = refl
    kept (suc (suc zero)) h = refl
    kept (suc (suc (suc zero))) h = absurd (h 0 (omega arith) refl)
    kept (suc (suc (suc (suc j)))) h = refl

move_rear-received_example :
    let r' = (move_rear (record waiting { cells = filled }) 2).0 in
    (contents r' ≡ contents waiting ++ two_bytes) × IsValid r'
move_rear-received_example =
    move_rear-received two_bytes filled waiting-IsValid
      (unfold recv_buffers use_size in omega arith) arrived

peek-move_front_example :
    let (r', out, count) = dequeue bent 1 in
    (peek bent 1 ≡ (out, count)) × ((move_front bent 1).0 ≡ r')
peek-move_front_example = peek-move_front bent 1

resize_keeps_example :
    (r' : RingBuffer) × (resize bent 3 (4 ∷ 4 ∷ 4 ∷ []) ≡ some r')
    × (contents r' ≡ contents bent)
    × IsValid r'
resize_keeps_example =
    resize_keeps 3 (4 ∷ 4 ∷ 4 ∷ []) bent-IsValid (unfold use_size in omega arith) refl

resize_exact_example :
    (r' : RingBuffer) × (resize bent 2 (4 ∷ 4 ∷ []) ≡ some r') × (contents r' ≡ [])
resize_exact_example = resize_exact bent 2 (4 ∷ 4 ∷ []) (omega arith) (unfold use_size in refl)
