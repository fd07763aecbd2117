-- ===== src/IocpServer/Lifetime/Opening.antt =====
-- After `Start`, the sessions that `CreateSession` opens.
use chatting_server.Base.{
  Option, Bool, ℕ, zero, suc, ◌+◌, ◌-◌, ◌%◌, ◌^◌, ◌≤◌, ◌<◌, ◌≡◌, refl, List, [], ◌∷◌, length,
  get_or, arith, ap, ap₂, ◌∙◌, sym, ◌⊎◌, inl, inr, ◌-◌, Bool-cases, ltb, ltb→lt, ltb→le,
}
use chatting_server.Base.Outcome.{Outcome, done, overrun, ◌>>=◌}
use chatting_server.Base.Maps.{update_hit}
use chatting_server.IocpServer.Sessions.{SessionTable, create_session, create_at, opened, set_slot}
use chatting_server.IocpServer.Lifetime.{
  Winsock, ServerState, running, start, set_up, Listener, listener, push_indices, new_session,
}

-- The indices from `a` on, `n` of them.
unfoldable pub from : ℕ → ℕ → List ℕ
from a zero = []
from a (suc n) = a ∷ from (a + 1) n

push_indices-from : (n m : ℕ) → push_indices n (from n m) ≡ from 0 (n + m)
unfolding push_indices from
push_indices-from zero m = ap (from 0) zero_plus
  where
    zero_plus : m ≡ 0 + m
    zero_plus = omega arith
push_indices-from (suc n) m =
    ap (λ b. push_indices n (n ∷ from b m)) suc_one
    ∙ push_indices-from n (suc m)
    ∙ ap (from 0) plus_suc
  where
    suc_one : suc n ≡ n + 1
    suc_one = omega arith

    plus_suc : n + suc m ≡ suc n + m
    plus_suc = omega arith

-- Sessions for the sockets in turn: the table, and the indices given out.
unfoldable pub open_all : ℕ → List ℕ → SessionTable → Outcome (SessionTable × List ℕ)
open_all now [] t = done (t, [])
open_all now (sock ∷ socks) t =
    create_session sock now t >>= λ (u, i). open_all now socks u >>= λ (w, is). done (w, i ∷ is)

-- The indices from `a` on go to the sockets in order; the slots before stay.
pub record IsOpened (now a m : ℕ) (socks : List ℕ) (t u : SessionTable) : Type 0 where
  pub free : u.index_stack ≡ from (a + length socks) m
  pub count : u.session_count ≡ t.session_count + length socks
  pub slot :
      (k : ℕ)
      → k < length socks
      → u.slots (a + k)
        ≡ opened new_session ((t.session_id + 1 + k) % 2 ^ 64) (a + k) (get_or socks k 0) now
  pub before : (i : ℕ) → i < a → u.slots i ≡ t.slots i

-- The table when the index on top has gone to `sock`.
abbrev next : ℕ → ℕ → ℕ → List ℕ → SessionTable → SessionTable
next sock now i is t =
    let id = (t.session_id + 1) % 2 ^ 64 in
    record (set_slot t i (opened (t.slots i) id i sock now)) {
      index_stack = is;
      session_id = id;
      session_count = (t.session_count + 1) % 2 ^ 64;
      accept_tps = (t.accept_tps + 1) % 2 ^ 64;
      accept_count = (t.accept_count + 1) % 2 ^ 64;
    }

create_session-top :
    (sock now i : ℕ) (is : List ℕ) (t : SessionTable)
    → t.index_stack ≡ i ∷ is
    → create_session sock now t ≡ done (next sock now i is t, i)
unfolding create_session create_at
create_session-top sock now i is t stack = rw stack refl

-- The slot of the first socket, and the slots of the others.
next-slot :
    (now a m sock : ℕ) (socks is : List ℕ) (t u : SessionTable)
    → t.slots a ≡ new_session
    → IsOpened now (a + 1) m socks (next sock now a is t) u
    → (k : ℕ) → k < suc (length socks)
    → u.slots (a + k)
      ≡ opened new_session ((t.session_id + 1 + k) % 2 ^ 64) (a + k) (get_or (sock ∷ socks) k 0) now
next-slot now a m sock socks is t u fresh o zero h =
    ap u.slots here
    ∙ o.before a (omega arith)
    ∙ update_hit t.slots a (opened (t.slots a) ((t.session_id + 1) % 2 ^ 64) a sock now)
    ∙ rw (fresh, here, same) refl
  where
    here : a + 0 ≡ a
    here = omega arith

    same : t.session_id + 1 + 0 ≡ t.session_id + 1
    same = omega arith
next-slot now a m sock socks is t u fresh o (suc k) h =
    ap u.slots there
    ∙ o.slot k (omega arith)
    ∙ ap₂ (λ id i. opened new_session id i (get_or socks k 0) now) id_again (sym there)
  where
    there : a + suc k ≡ a + 1 + k
    there = omega arith

    id_again : ((t.session_id + 1) % 2 ^ 64 + 1 + k) % 2 ^ 64 ≡ (t.session_id + 1 + suc k) % 2 ^ 64
    id_again = omega arith

pub open_all-from :
    (now a m : ℕ) (socks : List ℕ) (t : SessionTable)
    → t.index_stack ≡ from a (length socks + m)
    → ((i : ℕ) → a ≤ i → t.slots i ≡ new_session)
    → t.session_count + length socks < 2 ^ 64
    → (u : SessionTable) × (open_all now socks t ≡ done (u, from a (length socks)))
      × IsOpened now a m socks t u
unfolding open_all from
open_all-from now a m [] t stack fresh small = (
  t,
  refl,
  record {
    free = stack ∙ ap₂ from (omega arith) (omega arith);
    count = omega arith;
    slot = λ k h. absurd (omega arith);
    before = λ i h. refl;
  },
)
open_all-from now a m (sock ∷ socks) t stack fresh small =
    let is : List ℕ = from (a + 1) (length socks + m) in
    let v : SessionTable = next sock now a is t in
    let top : t.index_stack ≡ a ∷ is = stack ∙ ap (from a) suc_plus in
    let (u, e, o) =
      open_all-from now (a + 1) m socks v refl (λ i h. ground (arith, fresh i (omega arith)))
        (ground arith) in
    (
      u,
      rw (create_session-top sock now a is t top, e) refl,
      record {
        free = o.free ∙ ap (λ b. from b m) (omega arith);
        count = ground (arith, o.count);
        slot = next-slot now a m sock socks is t u (fresh a (omega arith)) o;
        before = λ i h. o.before i (omega arith) ∙ ground arith;
      },
    )
  where
    suc_plus : suc (length socks) + m ≡ suc (length socks + m)
    suc_plus = omega arith

pub open_all-overrun :
    (now a m : ℕ) (socks : List ℕ) (t : SessionTable)
    → t.index_stack ≡ from a m
    → m < length socks
    → open_all now socks t ≡ overrun
unfolding open_all create_session create_at from
open_all-overrun now a m [] t stack h = absurd (omega arith)
open_all-overrun now a zero (sock ∷ socks) t stack h = rw stack refl
open_all-overrun now a (suc m) (sock ∷ socks) t stack h =
    let is : List ℕ = from (a + 1) m in
    rw
      (
        create_session-top sock now a is t stack,
        open_all-overrun now (a + 1) m socks (next sock now a is t) refl (omega arith),
      )
      refl

start-running :
    (w : Winsock) (ip : Option ℕ) (port threads : ℕ) (nagle : Bool) (max id : ℕ) (stack : List ℕ)
    (s : ServerState)
    → start w ip port threads nagle max id stack ≡ running s
    → s ≡ set_up (listener w ip port nagle) threads max id stack
unfolding start
start-running w ip port threads nagle max id stack s h = ground arith

set_up-stack :
    (l : Listener) (threads max id n m : ℕ)
    → n + m ≡ max
    → (set_up l threads max id []).table.index_stack ≡ from 0 (n + m)
unfolding set_up from
set_up-stack l threads max id n m h = push_indices-from max 0 ∙ ap (from 0) (omega arith)

-- A server that `Start` has brought up, on a stack of indices that was empty, opens sessions for as
-- many sockets as it was given room for: they get the indices from 0 on, in order, each with its
-- socket and the next id, they are counted, and the other indices stay free. If more sockets come than
-- there is room for, an index is taken from an empty stack.
pub start_opens :
    (w : Winsock) (ip : Option ℕ) (port threads : ℕ) (nagle : Bool) (max id now : ℕ)
    (s : ServerState) (socks : List ℕ)
    → start w ip port threads nagle max id [] ≡ running s
    → length socks < 2 ^ 64
    → ((u : SessionTable) × (length socks ≤ max)
        × (open_all now socks s.table ≡ done (u, from 0 (length socks)))
        × IsOpened now 0 (max - length socks) socks s.table u)
      ⊎ ((max < length socks) × (open_all now socks s.table ≡ overrun))
unfolding set_up
start_opens w ip port threads nagle max id now s socks up small =
    let l : Listener = listener w ip port nagle in
    rw (start-running w ip port threads nagle max id [] s up)
      (elim (Bool-cases (ltb max (length socks))) [
        | inl e ↦
            let many : max < length socks = ltb→lt _ _ e in
            let stack = set_up-stack l threads max id max 0 (omega arith) in
            inr (many, open_all-overrun now 0 (max + 0) socks _ stack (omega arith))
        | inr e ↦
            let few : length socks ≤ max = ltb→le _ _ e in
            let m : ℕ = max - length socks in
            let stack = set_up-stack l threads max id (length socks) m (omega arith) in
            let (u, opening, o) =
              open_all-from now 0 m socks (set_up l threads max id []).table stack (λ i h. refl)
                (omega arith) in
            inl (u, few, opening, o)
      ])
