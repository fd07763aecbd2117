-- ===== src/RingBuffer/Transfer.antt =====
-- `Enqueue`, `Dequeue` and `Peek` against the queue of the bytes that the ring holds.
use chatting_server.Base.{
  ℕ, ◌+◌, ◌-◌, ◌%◌, ◌≤◌, ◌<◌, ◌≡◌, List, length, get_or, arith, ltb, min, ◌++◌, take, if◌then◌else◌,
  Bool-cases, inl, inr, ltb→lt, ltb→le, ◌∙◌, wrap, mod-eq-wrap, ap, ap₂, sym,
}
use chatting_server.Base.Arrays.{tab, tab-ext, tab-append, tab-get_or, length-tab, read_bytes}
use chatting_server.RingBuffer.{
  RingBuffer, use_size, free_size, store, load, readable, enqueue, dequeue,
}
use chatting_server.RingBuffer.Invariant.{
  IsValid, use_size-lt, use_size-add-free_size, enqueue-IsValid, dequeue-IsValid,
}
use chatting_server.RingBuffer.Contents.{
  byte_at, contents, length-contents, rear_index, store-inside, store-outside,
}

-- The bytes that the two copies of `Dequeue` and `Peek` collect are the oldest of the queue.
pub load-tab : {r : RingBuffer} (m : ℕ) → IsValid r → m ≤ use_size r → load r m ≡ tab (byte_at r) m
unfolding load read_bytes use_size
load-tab {r} m v h = elim (Bool-cases (ltb r.buf_size (r.front_pos + m))) [
  | inl e ↦
      let round : r.buf_size < r.front_pos + m = ltb→lt _ _ e in
      let first : ℕ = r.buf_size - r.front_pos in
      let straight : tab (λ k. get_or r.cells (r.front_pos + k) 0) first ≡ tab (byte_at r) first =
        tab-ext _ _ first (λ k l. ap (λ i. get_or r.cells i 0) (straight_index k l)) in
      let bent : tab (λ k. get_or r.cells (0 + k) 0) (m - first)
          ≡ tab (λ k. byte_at r (first + k)) (m - first) =
        tab-ext _ _ (m - first) (λ k l. ap (λ i. get_or r.cells i 0) (bent_index k l)) in
      rw e (
        ap₂ ◌++◌ straight bent
        ∙ sym (tab-append (byte_at r) first (m - first))
        ∙ ap (tab (byte_at r)) (whole round))
  | inr e ↦
      let fits : r.front_pos + m ≤ r.buf_size = ltb→le _ _ e in
      rw e (tab-ext _ _ m (λ k l. ap (λ i. get_or r.cells i 0) (inside_index fits k l)))
]
  where
    straight_index :
        (k : ℕ) → k < r.buf_size - r.front_pos → r.front_pos + k ≡ wrap r.buf_size (r.front_pos + k)
    straight_index k l = ground arith

    bent_index :
        (k : ℕ)
        → k < m - (r.buf_size - r.front_pos)
        → 0 + k ≡ wrap r.buf_size (r.front_pos + (r.buf_size - r.front_pos + k))
    bent_index k l = ground arith

    whole :
        r.buf_size < r.front_pos + m
        → r.buf_size - r.front_pos + (m - (r.buf_size - r.front_pos)) ≡ m
    whole l = omega arith

    inside_index :
        r.front_pos + m ≤ r.buf_size
        → (k : ℕ) → k < m
        → r.front_pos + k ≡ wrap r.buf_size (r.front_pos + k)
    inside_index f k l = ground arith

-- How many bytes a read of `n` hands out.
pub readable-min : (r : RingBuffer) (n : ℕ) → readable r n ≡ min n (use_size r)
unfolding readable
readable-min r n = ground arith

-- The size after the read position has moved by `m`, and after the write position has.
pub use_size-front :
    {r : RingBuffer} (m : ℕ)
    → IsValid r
    → m ≤ use_size r
    → use_size (record r { front_pos = wrap r.buf_size (r.front_pos + m) }) ≡ use_size r - m
unfolding use_size
use_size-front m v h = ground arith

pub use_size-rear :
    {r : RingBuffer} (m : ℕ) (cs : List ℕ)
    → IsValid r
    → m ≤ free_size r
    → use_size (record r { cells = cs; rear_pos = wrap r.buf_size (r.rear_pos + m) })
      ≡ use_size r + m
unfolding use_size free_size
use_size-rear m cs v h = ground arith

-- A queue splits where the read position is moved to.
pub contents-front :
    {r : RingBuffer} (m : ℕ)
    → IsValid r
    → m ≤ use_size r
    → tab (byte_at r) m ++ contents (record r { front_pos = wrap r.buf_size (r.front_pos + m) })
      ≡ contents r
unfolding contents
contents-front {r} m v h =
    let rest : ℕ = use_size r - m in
    rw (use_size-front m v h) (
      ap (◌++◌ (tab (byte_at r) m)) (tab-ext _ (λ k. byte_at r (m + k)) rest (λ k l. shifted k l))
      ∙ sym (tab-append (byte_at r) m rest)
      ∙ ap (tab (byte_at r)) whole)
  where
    index :
        (k : ℕ)
        → k < use_size r - m
        → wrap r.buf_size (wrap r.buf_size (r.front_pos + m) + k)
          ≡ wrap r.buf_size (r.front_pos + (m + k))
    index k l = ground (arith, use_size-lt v)

    shifted :
        (k : ℕ)
        → k < use_size r - m
        → byte_at (record r { front_pos = wrap r.buf_size (r.front_pos + m) }) k ≡ byte_at r (m + k)
    shifted k l = ap (λ i. get_or r.cells i 0) (index k l)

    whole : m + (use_size r - m) ≡ use_size r
    whole = omega arith

-- A queue grows by the bytes that lie behind its last one when the write position is moved.
pub contents-rear :
    {r : RingBuffer} (m : ℕ) (cs added : List ℕ)
    → IsValid r
    → m ≤ free_size r
    → m ≤ length added
    → ((k : ℕ) → k < use_size r → get_or cs (wrap r.buf_size (r.front_pos + k)) 0 ≡ byte_at r k)
    → ((k : ℕ) → k < m → get_or cs (wrap r.buf_size (r.rear_pos + k)) 0 ≡ get_or added k 0)
    → contents (record r { cells = cs; rear_pos = wrap r.buf_size (r.rear_pos + m) })
      ≡ contents r ++ take m added
unfolding contents
contents-rear {r} m cs added v h enough old new = rw (use_size-rear m cs v h) (
    tab-append _ (use_size r) m
    ∙ ap₂ ◌++◌ (tab-ext _ (byte_at r) (use_size r) old) (
        tab-ext _ (λ k. get_or added k 0) m (λ k l. ap (λ i. get_or cs i 0) (index k l) ∙ new k l)
        ∙ tab-get_or added m enough))
  where
    index :
        (k : ℕ)
        → k < m
        → wrap r.buf_size (r.front_pos + (use_size r + k)) ≡ wrap r.buf_size (r.rear_pos + k)
    index k l = rear_index k v (omega arith)

-- `Enqueue` takes as many of the bytes as there is room for, reports that number, and appends
-- exactly those bytes in order behind the ones that the ring holds; the ring stays valid.
pub enqueue_refines :
    {r : RingBuffer} (src : List ℕ) (n : ℕ)
    → IsValid r
    → n ≤ length src
    → let (r', taken) = enqueue r src n in
      (taken ≡ min n (free_size r)) × (contents r' ≡ contents r ++ take taken src) × IsValid r'
unfolding enqueue
enqueue_refines {r} src n v enough = (count, appended, enqueue-IsValid r src n v)
  where
    w : ℕ
    w = if ltb (free_size r) n then free_size r else n

    count : w ≡ min n (free_size r)
    count = ground arith

    no_wrap : (r.rear_pos + w) % r.buf_size ≡ wrap r.buf_size (r.rear_pos + w)
    no_wrap = mod-eq-wrap _ _ (omega (arith, count, use_size-add-free_size v))

    appended :
        contents (record r { cells = store r src w; rear_pos = (r.rear_pos + w) % r.buf_size })
        ≡ contents r ++ take w src
    appended = rw no_wrap (
        contents-rear w (store r src w) src v (omega (arith, count)) (omega (arith, count))
          (λ k l. store-outside src w k v (omega (arith, count)) (omega (arith, count)) l)
          (λ k l. store-inside src w k v (omega (arith, count)) (omega (arith, count)) l))

-- `Dequeue` hands out as many bytes as were asked for and are there, reports that number, and what
-- it hands out followed by what stays is the queue before; the ring stays valid.
pub dequeue_refines :
    {r : RingBuffer} (n : ℕ)
    → IsValid r
    → let (r', out, count) = dequeue r n in
      (count ≡ min n (length (contents r)))
      × (length out ≡ count)
      × (out ++ contents r' ≡ contents r)
      × IsValid r'
unfolding dequeue
dequeue_refines {r} n v = (
  readable-min r n ∙ ap (min n) (sym (length-contents r)),
  ap length loaded ∙ length-tab (byte_at r) m,
  rw (no_wrap, loaded) (contents-front m v small),
  dequeue-IsValid r n v,
)
  where
    m : ℕ
    m = readable r n

    small : m ≤ use_size r
    small = omega (arith, readable-min r n)

    loaded : load r m ≡ tab (byte_at r) m
    loaded = load-tab m v small

    no_wrap : (r.front_pos + m) % r.buf_size ≡ wrap r.buf_size (r.front_pos + m)
    no_wrap = mod-eq-wrap _ _ (omega (arith, small, use_size-lt v))
