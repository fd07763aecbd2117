-- ===== src/Base/Xor.antt =====
-- Exclusive or: from the digit recursion of the native operation, that the same mask applied twice
-- cancels, and that the result of two bytes is a byte.
use Prim.Native.Nat.{
  ℕ, zero, suc, ◌+◌, ◌*◌, ◌/◌, ◌%◌, ◌≤◌, ◌<◌, ◌^◌, bit_xor, digits, differ, bit_xor-bitwise,
}
use mathlib.Core.Path.{◌≡◌, refl, ◌∙◌}
use native.Mathlib.Nat.{le_refl, pow-suc}
use native.Mathlib.Omega.{arith}

abbrev xor_digits : ℕ → ℕ → ℕ → ℕ
xor_digits n a b = digits (λ y. y) differ n a b

-- The digit recursion does not depend on its fuel, once that is enough.
xor_digits_fuel : (n m a b : ℕ) → a ≤ n → a ≤ m → xor_digits n a b ≡ xor_digits m a b
xor_digits_fuel zero zero a b p q = refl
xor_digits_fuel zero (suc m) zero b p q = refl
xor_digits_fuel zero (suc m) (suc a) b p q = absurd (omega arith)
xor_digits_fuel (suc n) zero zero b p q = refl
xor_digits_fuel (suc n) zero (suc a) b p q = absurd (omega arith)
xor_digits_fuel (suc n) (suc m) zero b p q = refl
xor_digits_fuel (suc n) (suc m) (suc a) b p q =
    rw (xor_digits_fuel n m (suc a / 2) (b / 2) (omega arith) (omega arith))

pub bit_xor_step : (a b : ℕ) → bit_xor a b ≡ bit_xor (a / 2) (b / 2) * 2 + differ (a % 2) (b % 2)
bit_xor_step zero b = simp bit_xor-bitwise (omega arith)
bit_xor_step (suc a) b =
    simp bit_xor-bitwise
      (rw (xor_digits_fuel a (suc a / 2) (suc a / 2) (b / 2) (omega arith) (le_refl _)) refl)

differ-lt : (p q : ℕ) → p < 2 → q < 2 → differ p q < 2
differ-lt zero q hp hq = hq
differ-lt (suc zero) zero hp hq = omega arith
differ-lt (suc zero) (suc zero) hp hq = omega arith
differ-lt (suc zero) (suc (suc q)) hp hq = absurd (omega arith)
differ-lt (suc (suc p)) q hp hq = absurd (omega arith)

differ-differ : (p q : ℕ) → p < 2 → q < 2 → differ (differ p q) q ≡ p
differ-differ zero zero hp hq = refl
differ-differ zero (suc zero) hp hq = refl
differ-differ zero (suc (suc q)) hp hq = absurd (omega arith)
differ-differ (suc zero) zero hp hq = refl
differ-differ (suc zero) (suc zero) hp hq = refl
differ-differ (suc zero) (suc (suc q)) hp hq = absurd (omega arith)
differ-differ (suc (suc p)) q hp hq = absurd (omega arith)

bit_xor-half : (a b : ℕ) → bit_xor a b / 2 ≡ bit_xor (a / 2) (b / 2)
bit_xor-half a b =
    omega (arith, bit_xor_step a b, differ-lt (a % 2) (b % 2) (omega arith) (omega arith))

bit_xor-low : (a b : ℕ) → bit_xor a b % 2 ≡ differ (a % 2) (b % 2)
bit_xor-low a b =
    omega (arith, bit_xor_step a b, differ-lt (a % 2) (b % 2) (omega arith) (omega arith))

xor_cancel_fuel : (n a b : ℕ) → a ≤ n → b ≤ n → bit_xor (bit_xor a b) b ≡ a
xor_cancel_fuel zero zero zero ha hb = refl
xor_cancel_fuel zero (suc a) b ha hb = absurd (omega arith)
xor_cancel_fuel zero zero (suc b) ha hb = absurd (omega arith)
xor_cancel_fuel (suc n) a b ha hb =
    bit_xor_step (bit_xor a b) b
    ∙ rw
        (
          bit_xor-half a b,
          bit_xor-low a b,
          xor_cancel_fuel n (a / 2) (b / 2) (omega arith) (omega arith),
          differ-differ (a % 2) (b % 2) (omega arith) (omega arith),
        )
        (omega arith)

-- The same mask applied twice gives the number back.
pub bit_xor_cancel : (a b : ℕ) → bit_xor (bit_xor a b) b ≡ a
bit_xor_cancel a b = xor_cancel_fuel (a + b) a b (omega arith) (omega arith)

pub bit_xor-lt-pow : (k a b : ℕ) → a < 2 ^ k → b < 2 ^ k → bit_xor a b < 2 ^ k
bit_xor-lt-pow zero zero zero ha hb = omega arith
bit_xor-lt-pow zero (suc a) b ha hb = absurd (omega arith)
bit_xor-lt-pow zero zero (suc b) ha hb = absurd (omega arith)
bit_xor-lt-pow (suc k) a b ha hb = omega (
  arith,
  pow-suc 2 k,
  bit_xor_step a b,
  differ-lt (a % 2) (b % 2) (omega arith) (omega arith),
  bit_xor-lt-pow k (a / 2) (b / 2) (omega (arith, pow-suc 2 k)) (omega (arith, pow-suc 2 k)),
)

-- Bytes stay bytes.
pub bit_xor-lt : (a b : ℕ) → a < 256 → b < 256 → bit_xor a b < 256
bit_xor-lt a b ha hb = bit_xor-lt-pow 8 a b ha hb
