-- ===== src/CpuMonitor/Digits.antt =====
-- Digits, as `GetBigNumberStr` of ConsoleApplication2/CpuMonitor.cpp prints them, and how a text of
-- them is read.
use chatting_server.Base.{
  ℕ, zero, suc, ◌+◌, ◌-◌, ◌*◌, ◌/◌, ◌%◌, ◌^◌, ◌<◌, ◌≤◌, ◌≡◌, refl, ap, ltb, ◌==◌, if◌then◌else◌,
  true, false, Bool-cases, inl, inr, List, [], ◌∷◌, ◌++◌, length, length-append, arith, ◌∙◌,
}
use chatting_server.CpuMonitor.{decimal, plain, padded}

-- A text read from left to right behind the number that was read before it; commas are passed over.
unfoldable pub read_on : ℕ → List ℕ → ℕ
read_on n [] = n
read_on n (c ∷ cs) = read_on (if c == 44 then n else n * 10 + (c - 48)) cs

pub read_on-append : (n : ℕ) (xs ys : List ℕ) → read_on n (xs ++ ys) ≡ read_on (read_on n xs) ys
unfolding read_on
read_on-append n [] ys = refl
read_on-append n (x ∷ xs) ys = read_on-append (if x == 44 then n else n * 10 + (x - 48)) xs ys

-- One digit more
read_on-digit :
    (n d : ℕ) (cs : List ℕ) → d < 10 → read_on n ((48 + d) ∷ cs) ≡ read_on (n * 10 + d) cs
unfolding read_on
read_on-digit n d cs small =
    let e : (48 + d == 44) ≡ false = ground arith in
    let f : 48 + d - 48 ≡ d = omega arith in rw (e, f) refl

-- The end of the text
pub read_on-end : (n : ℕ) → read_on n [] ≡ n
unfolding read_on
read_on-end n = refl

read_on-last : (n d : ℕ) → d < 10 → read_on n ((48 + d) ∷ []) ≡ n * 10 + d
read_on-last n d small = read_on-digit n d [] small ∙ read_on-end (n * 10 + d)

decimal-one : (most n : ℕ) → n < 10 → decimal most n ≡ (48 + n) ∷ []
unfolding decimal
decimal-one zero n small = refl
decimal-one (suc most) n small = let e : ltb n 10 ≡ true = ground arith in rw e refl

decimal-more :
    (most n : ℕ) → 10 ≤ n → decimal (suc most) n ≡ decimal most (n / 10) ++ (48 + n % 10) ∷ []
unfolding decimal
decimal-more most n large = let e : ltb n 10 ≡ false = ground arith in rw e refl

pub read_on-decimal : (most n : ℕ) → n < 10 ^ suc most → read_on 0 (decimal most n) ≡ n
read_on-decimal zero n small =
    ap (read_on 0) (decimal-one 0 n (omega (arith, small)))
    ∙ read_on-last 0 n (omega (arith, small))
    ∙ omega arith
read_on-decimal (suc most) n small = elim (Bool-cases (ltb n 10)) [
  | inl e ↦
      let one : n < 10 = ground arith in
      ap (read_on 0) (decimal-one (suc most) n one) ∙ read_on-last 0 n one ∙ omega arith
  | inr e ↦
      ap (read_on 0) (decimal-more most n (ground arith))
      ∙ read_on-append 0 (decimal most (n / 10)) ((48 + n % 10) ∷ [])
      ∙ ap (λ m. read_on m ((48 + n % 10) ∷ []))
          (read_on-decimal most (n / 10) (omega (arith, small)))
      ∙ read_on-last (n / 10) (n % 10) (omega arith)
      ∙ omega arith
]

pub length-decimal : (most n : ℕ) → length (decimal most n) ≤ suc most
unfolding decimal
length-decimal zero n = omega arith
length-decimal (suc most) n = elim (Bool-cases (ltb n 10)) [
  | inl e ↦ rw (decimal-one (suc most) n (ground arith)) (omega arith)
  | inr e ↦
      rw
        (
          decimal-more most n (ground arith),
          length-append (decimal most (n / 10)) ((48 + n % 10) ∷ []),
        )
        (omega (arith, length-decimal most (n / 10)))
]

three_digits :
    {a b c a' b' c' : ℕ} → a ≡ a' → b ≡ b' → c ≡ c' → (a ∷ b ∷ c ∷ []) ≡ a' ∷ b' ∷ c' ∷ []
three_digits p q r = rw (p, q, r) refl

pub padded-digits :
    (q : ℕ) → q < 1000 → padded q ≡ (48 + q / 100) ∷ (48 + q / 10 % 10) ∷ (48 + q % 10) ∷ []
unfolding padded plain
padded-digits q small = elim (Bool-cases (ltb q 10)) [
  | inl e ↦
      rw (decimal-one 19 q (ground arith))
        (three_digits (ground arith) (ground arith) (ground arith))
  | inr e ↦ elim (Bool-cases (ltb q 100)) [
    | inl d ↦
        rw (decimal-more 18 q (ground arith), decimal-one 18 (q / 10) (ground arith))
          (three_digits (ground arith) (ground arith) refl)
    | inr d ↦
        rw
          (
            decimal-more 18 q (ground arith),
            decimal-more 17 (q / 10) (ground arith),
            decimal-one 17 (q / 10 / 10) (ground arith),
          )
          (three_digits (omega arith) refl refl)
  ]
]

pub read_on-padded : (n q : ℕ) → q < 1000 → read_on n (padded q) ≡ n * 1000 + q
read_on-padded n q small =
    ap (read_on n) (padded-digits q small)
    ∙ read_on-digit n (q / 100) _ (omega (arith, small))
    ∙ read_on-digit (n * 10 + q / 100) (q / 10 % 10) _ (omega arith)
    ∙ read_on-last ((n * 10 + q / 100) * 10 + q / 10 % 10) (q % 10) (omega arith)
    ∙ omega arith
