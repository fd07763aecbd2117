-- ===== src/Packet/Buffer.antt =====
-- A packet as a queue of bytes.
use chatting_server.Base.{
  ℕ, zero, suc, ◌+◌, ◌-◌, ◌*◌, ◌≤◌, ◌<◌, ◌≡◌, refl, ◌==◌, if◌then◌else◌, List, [], some, none,
  length, ◌++◌, arith, length-replicate, ap, ap₂, ◌∙◌, sym, take_all, get_or, lt→ltb, le→ltb, inl,
  inr, Bool-cases, append-nil,
}
use chatting_server.Base.Arrays.{
  write_bytes, read_bytes, tab, tab-ext, tab-append, tab-get_or, length-tab, length-write_bytes,
  get_or-write_bytes_inside, get_or-write_bytes_outside,
}
use chatting_server.Base.Outcome.{done, overrun, timed_out}
use chatting_server.Packet.{
  Packet, Machine, header_size, payload_capacity, data_size, free_size, create, clear, grow,
  increase_buffer_size, append_bytes, put_data, write_value, get_data, consume,
}

-- The block has the size on record, holds the header and the payload up to the write position, and
-- the sizes and positions agree.
pub record IsValid (p : Packet) : Type 0 where
  pub storage : length p.block ≡ p.max_size
  pub inside : header_size + p.rear ≤ p.max_size
  pub counted : p.front + p.using_size ≡ p.rear

pub create-IsValid : IsValid create
unfolding create
create-IsValid = omega arith

pub clear-IsValid : (p : Packet) → header_size ≤ p.max_size → IsValid (clear p)
unfolding clear
clear-IsValid p h = record {
  storage = length-replicate p.max_size 0;
  inside = omega arith;
  counted = omega arith;
}

-- The bytes that the packet holds, oldest first.
unfoldable pub payload : Packet → List ℕ
unfolding read_bytes
payload p = read_bytes p.block (header_size + p.front) p.using_size

pub length-payload : (p : Packet) → length (payload p) ≡ p.using_size
unfolding payload
length-payload p = length-tab _ p.using_size

-- The packet after `bs` has been copied to the write position.
abbrev appended : Packet → List ℕ → Packet
appended p bs = record p {
  block = write_bytes p.block (header_size + p.rear) bs;
  rear = p.rear + length bs;
  using_size = p.using_size + length bs;
}

append_bytes_fits :
    (p : Packet) (bs : List ℕ)
    → header_size + p.rear + length bs ≤ p.max_size
    → append_bytes p bs ≡ done (appended p bs)
unfolding append_bytes
append_bytes_fits p bs fits = rw (le→ltb p.max_size (header_size + p.rear + length bs) fits)

payload-appended :
    {p : Packet} (bs : List ℕ)
    → IsValid p
    → header_size + p.rear + length bs ≤ p.max_size
    → payload (appended p bs) ≡ payload p ++ bs
unfolding payload
payload-appended {p} bs v fits =
    tab-append _ p.using_size (length bs)
    ∙ ap₂ ◌++◌
        (tab-ext _ _ p.using_size (λ k l.
          get_or-write_bytes_outside p.block (header_size + p.rear) bs (header_size + p.front + k)
            (inl (omega arith))))
        (tab-ext _ (λ k. get_or bs k 0) (length bs)
            (λ k l.
              ap (λ i. get_or (write_bytes p.block (header_size + p.rear) bs) i 0) (index k)
              ∙ get_or-write_bytes_inside p.block (header_size + p.rear) bs k (omega arith) l)
          ∙ tab-get_or bs (length bs) (omega arith)
          ∙ take_all (length bs) bs (omega arith))
  where
    index : (k : ℕ) → header_size + p.front + (p.using_size + k) ≡ header_size + p.rear + k
    index k = omega arith

appended-IsValid :
    {p : Packet} (bs : List ℕ)
    → IsValid p
    → header_size + p.rear + length bs ≤ p.max_size
    → IsValid (appended p bs)
appended-IsValid {p} bs v fits = record {
  storage = length-write_bytes p.block (header_size + p.rear) bs ∙ v.storage;
  inside = omega arith;
  counted = omega arith;
}

-- The loop of `IncreaseBufferSize` tests two variables that its body does not change.
grow_stuck : (fuel cap size new_size : ℕ) → cap < size → grow fuel cap size new_size ≡ timed_out
unfolding grow
grow_stuck zero cap size new_size h = refl
grow_stuck (suc fuel) cap size new_size h =
    rw (lt→ltb cap size h)
      (grow_stuck fuel cap size (if new_size == 0 then size else new_size * 2) h)

-- Asked for more room than the payload has, `IncreaseBufferSize` does not end, whatever the fuel.
pub increase_buffer_size_stuck :
    (m : Machine) (p : Packet) (add : ℕ)
    → 0 < add
    → payload_capacity p < p.using_size + add
    → increase_buffer_size m p add ≡ timed_out
unfolding increase_buffer_size
increase_buffer_size_stuck m p add pos h =
    ground (arith, grow_stuck m.fuel (payload_capacity p) (p.using_size + add) (payload_capacity p))

-- `PutData` in all cases. What fits behind the write position is appended to the payload. What does
-- not, and is no larger than `GetFreeSize()`, is copied past the end of the block, since that size
-- counts the header. What is larger never returns, since the block cannot grow.
pub put_data_cases :
    (m : Machine) {p : Packet} (bs : List ℕ)
    → IsValid p
    → (header_size + p.rear + length bs ≤ p.max_size
        → (q : Packet) × (put_data m p bs ≡ done q)
          × (payload q ≡ payload p ++ bs)
          × IsValid q
          × (q.rear ≡ p.rear + length bs)
          × (q.max_size ≡ p.max_size)
          × (q.front ≡ p.front)
          × (q.is_encoded ≡ p.is_encoded))
      × (p.max_size < header_size + p.rear + length bs
          → length bs ≤ free_size p
          → put_data m p bs ≡ overrun)
      × (free_size p < length bs → put_data m p bs ≡ timed_out)
unfolding put_data
put_data_cases m {p} bs v = (
  λ fits. (
    appended p bs,
    rw (le→ltb (free_size p) (length bs) (omega arith)) (append_bytes_fits p bs fits),
    payload-appended bs v fits,
    appended-IsValid bs v fits,
    refl,
    refl,
    refl,
    refl,
  ),
  λ past room.
      rw (le→ltb (free_size p) (length bs) room)
        (unfold append_bytes in rw (lt→ltb p.max_size (header_size + p.rear + length bs) past)),
  λ full. rw (
    lt→ltb (free_size p) (length bs) full,
    increase_buffer_size_stuck m p (length bs) (omega arith) (omega arith),
  ),
)

-- `operator<<` for one value appends its bytes, if they fit behind the write position.
pub write_value_fits :
    (m : Machine) {p : Packet} (bs : List ℕ)
    → IsValid p
    → header_size + p.rear + length bs ≤ p.max_size
    → (q : Packet) × (write_value m p bs ≡ done q)
      × (payload q ≡ payload p ++ bs)
      × IsValid q
      × (q.rear ≡ p.rear + length bs)
      × (q.max_size ≡ p.max_size)
      × (q.front ≡ p.front)
      × (q.is_encoded ≡ p.is_encoded)
unfolding write_value
write_value_fits m {p} bs v fits = (
  appended p bs,
  rw (le→ltb (free_size p) (length bs) (omega arith)) (append_bytes_fits p bs fits),
  payload-appended bs v fits,
  appended-IsValid bs v fits,
  refl,
  refl,
  refl,
  refl,
)

-- What is read is the front of the payload, and reading moves on to the rest.
payload-drained :
    (p : Packet) (n : ℕ) → n ≡ 0 → payload (record p { front = 0; rear = 0; using_size = n }) ≡ []
unfolding payload tab
payload-drained p n e = rw e

payload-advanced :
    (p : Packet) (n : ℕ)
    → n ≤ p.using_size
    → read_bytes p.block (header_size + p.front) n
        ++ payload (record p { front = p.front + n; using_size = p.using_size - n })
      ≡ payload p
unfolding payload
payload-advanced p n h =
    ap (◌++◌ (tab byte n)) (tab-ext _ (λ k. byte (n + k)) (p.using_size - n) shifted)
    ∙ sym (tab-append byte n (p.using_size - n))
    ∙ ap (tab byte) whole
  where
    byte : ℕ → ℕ
    byte k = get_or p.block (header_size + p.front + k) 0

    index : (k : ℕ) → header_size + (p.front + n) + k ≡ header_size + p.front + (n + k)
    index k = omega arith

    shifted :
        (k : ℕ)
        → k < p.using_size - n
        → get_or p.block (header_size + (p.front + n) + k) 0 ≡ byte (n + k)
    shifted k l = ap (λ i. get_or p.block i 0) (index k)

    whole : n + (p.using_size - n) ≡ p.using_size
    whole = omega arith

payload-consume :
    {p : Packet} (n : ℕ)
    → IsValid p
    → n ≤ p.using_size
    → read_bytes p.block (header_size + p.front) n ++ payload (consume p n) ≡ payload p
unfolding consume
payload-consume {p} n v h = elim (Bool-cases (p.front + n == p.rear)) [
  | inl e ↦
      let all : p.using_size ≡ n = ground arith in
      rw (e, payload-drained p (p.using_size - n) (omega arith))
        (append-nil _ ∙ unfold payload in ap (read_bytes p.block (header_size + p.front)) (sym all))
  | inr e ↦ rw e (payload-advanced p n h)
]

consume-IsValid : {p : Packet} (n : ℕ) → IsValid p → n ≤ p.using_size → IsValid (consume p n)
unfolding consume
consume-IsValid n v h = ground arith

-- `GetData` and `operator>>`: with enough bytes in the packet, the oldest are handed out and the
-- rest stays; with fewer, nothing is read and the packet stays as it was.
pub get_data_cases :
    {p : Packet} (n : ℕ)
    → IsValid p
    → (n ≤ length (payload p)
        → (q : Packet) × (out : List ℕ) × (get_data p n ≡ done (q, some out))
          × (length out ≡ n)
          × (out ++ payload q ≡ payload p)
          × IsValid q)
      × (length (payload p) < n → get_data p n ≡ done (p, none))
unfolding get_data
get_data_cases {p} n v = (
  λ h.
      let held : n ≤ p.using_size = omega (arith, length-payload p) in
      (
        consume p n,
        read_bytes p.block (header_size + p.front) n,
        rw (
          le→ltb (data_size p) n held,
          le→ltb p.max_size (header_size + p.front + n) (omega arith),
        ),
        (unfold read_bytes in length-tab _ n),
        payload-consume n v held,
        consume-IsValid n v held,
      ),
  λ h. rw (lt→ltb (data_size p) n (omega (arith, length-payload p))),
)
