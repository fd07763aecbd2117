-- ===== src/CpuMonitor.antt =====
-- A number with its digits in groups, `CpuMonitor::GetBigNumberStr` of
-- ConsoleApplication2/CpuMonitor.cpp; Instances, Name and Times have other parts of that file. Characters are their codes: 48 to 57 are the digits, 44 is the
-- comma, 45 the minus sign. What `swprintf_s` prints for "%llu", "%03llu" and "%lld" is written out; a
-- text that does not fit with the zero behind it stops the program.
pub mod Digits
pub mod Groups
pub mod Instances
pub mod Name
pub mod Times
mod Tests
use chatting_server.Base.{
  ℕ, zero, suc, ◌+◌, ◌-◌, ◌/◌, ◌%◌, ltb, leb, ◌==◌, if◌then◌else◌, not, ◌||◌, Bool, true, false,
  List, [], ◌∷◌, ◌++◌, length, replicate, Option, some, none,
}
use chatting_server.Base.Outcome.{Outcome, done, overrun, ◌>>=◌}

-- A `LONGLONG`: a natural number, or one less than its negative
pub data ℤ : Type 0 where
  pos : ℕ → ℤ
  negsuc : ℕ → ℤ

-- The digits of a number of at most that many and one.
unfoldable pub decimal : ℕ → ℕ → List ℕ
decimal zero n = (48 + n) ∷ []
decimal (suc most) n =
    let higher = decimal most (n / 10) in
    if ltb n 10 then (48 + n) ∷ [] else higher ++ (48 + n % 10) ∷ []

-- "%llu"
unfoldable pub plain : ℕ → List ℕ
unfolding decimal
plain n = decimal 19 n

-- "%03llu"
unfoldable pub padded : ℕ → List ℕ
unfolding plain
padded n = let d = plain n in replicate (3 - length d) 48 ++ d

-- `s` up to `idx`, and `first`
pub record Line : Type 0 where
  pub text : List ℕ
  pub first : Bool

-- `swprintf_s(s + idx, size - idx, ...)`
unfoldable pub print : ℕ → List ℕ → List ℕ → Outcome (List ℕ)
print size s piece = if ltb (length s + length piece) size then done (s ++ piece) else overrun

-- One of the three tests of `value` against a power of a thousand.
unfoldable pub group : ℕ → ℕ → ℕ → Line → Outcome Line
unfolding plain padded print
group size bound value l =
    if leb bound value
    then (print size l.text
          ((if l.first then plain (value / bound) else padded (value / bound)) ++ 44 ∷ [])
        >>= λ s. done (record { text = s; first = false }))
    else done l

-- The last group, without a test
unfoldable pub last_group : ℕ → ℕ → Line → Outcome (List ℕ)
unfolding plain padded print
last_group size value l =
    print size l.text (if l.first then plain (value % 1000) else padded (value % 1000))

-- A value that is not negative
unfoldable pub grouped : ℕ → ℕ → Outcome (List ℕ)
unfolding group last_group
grouped value size = group size 1000000000 value (record { text = []; first = true }) >>= λ a.
    group size 1000000 (value % 1000000000) a >>= λ b.
    group size 1000 (value % 1000000000 % 1000000) b >>= λ c.
    last_group size (value % 1000000000 % 1000000) c

-- The text for either sign
unfoldable pub shown : ℤ → ℕ → Outcome (List ℕ)
unfolding grouped print plain
shown (pos n) size = grouped n size
shown (negsuc n) size = print size [] (45 ∷ plain (n + 1))

-- `GetBigNumberStr(value, s, size)`: what it leaves in `s`, if it writes; `has_buffer` is that `s` is
-- not null, and a `size` below zero is one of zero.
unfoldable pub get_big_number_str : ℤ → Bool → ℕ → Outcome (Option (List ℕ))
unfolding shown
get_big_number_str value has_buffer size =
    if not has_buffer || size == 0 then done none else (shown value size >>= λ s. done (some s))
