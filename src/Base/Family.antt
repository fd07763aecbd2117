-- ===== src/Base/Family.antt =====
-- Sums over a family of agents, of which one moves at a time.
use Prim.Native.Nat.{ℕ, zero, suc, ◌+◌, ◌≤◌, ◌<◌}
use mathlib.Core.Path.{◌≡◌, refl}
use mathlib.Core.Logic.{inl, inr}
use native.Mathlib.Omega.{arith}
use chatting_server.Base.Tests.{◌==◌, Bool-cases}
use chatting_server.Base.Maps.{update}

-- The sum of `f` over the agents below `n`.
unfoldable pub total {ℓ} : {A : Type ℓ} → (A → ℕ) → ℕ → (ℕ → A) → ℕ
total f zero pc = 0
total f (suc n) pc = f (pc n) + total f n pc

total_beyond {ℓ} :
    {A : Type ℓ} (f : A → ℕ) (n i : ℕ) (pc : ℕ → A) (p : A)
    → n ≤ i
    → total f n (update pc i p) ≡ total f n pc
unfolding total
total_beyond f zero i pc p h = refl
total_beyond f (suc n) i pc p h = ground (arith, total_beyond f n i pc p (omega arith))

-- What a move of one agent does to the sum.
pub total-update {ℓ} :
    {A : Type ℓ} (f : A → ℕ) (n i : ℕ) (pc : ℕ → A) (p : A)
    → i < n
    → total f n (update pc i p) + f (pc i) ≡ total f n pc + f p
unfolding total
total-update f zero i pc p h = absurd (omega arith)
total-update f (suc n) i pc p h = elim (Bool-cases (i == n)) [
  | inl e ↦
      let same : i ≡ n = ground arith in
      rw same (ground (arith, total_beyond f n n pc p (omega arith)))
  | inr e ↦ ground (arith, total-update f n i pc p (ground arith))
]

-- One agent's share is within the sum.
pub total-le {ℓ} : {A : Type ℓ} (f : A → ℕ) (n i : ℕ) (pc : ℕ → A) → i < n → f (pc i) ≤ total f n pc
unfolding total
total-le f zero i pc h = absurd (omega arith)
total-le f (suc n) i pc h = elim (Bool-cases (i == n)) [
  | inl e ↦ let same : i ≡ n = ground arith in rw same (omega arith)
  | inr e ↦ omega (arith, total-le f n i pc (ground arith))
]
