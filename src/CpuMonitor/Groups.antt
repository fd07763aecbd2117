-- ===== src/CpuMonitor/Groups.antt =====
-- What number the text of `GetBigNumberStr` says, ConsoleApplication2/CpuMonitor.cpp.
use chatting_server.Base.{
  ℕ, ◌+◌, ◌*◌, ◌/◌, ◌%◌, ◌^◌, ◌<◌, ◌≤◌, ◌≡◌, refl, sym, ap, ap₂, ltb, leb, ◌==◌, if◌then◌else◌, not,
  Bool, true, false, Bool-cases, inl, inr, List, [], ◌∷◌, ◌++◌, length, length-append, append-nil,
  some, arith, ◌∙◌,
}
use chatting_server.Base.Outcome.{Outcome, done, ◌>>=◌}
use chatting_server.CpuMonitor.{
  pos, plain, padded, Line, print, group, last_group, grouped, shown, get_big_number_str,
}
use chatting_server.CpuMonitor.Digits.{
  read_on, read_on-append, read_on-end, length-decimal, read_on-decimal, padded-digits,
  read_on-padded,
}

-- A group of three digits more, unless they are all zero.
abbrev pub append_group : ℕ → ℕ → ℕ
append_group n q = if q == 0 then n else n * 1000 + q

-- The number that is left of `v` without the groups of zeros before the last.
abbrev pub without_zero_groups : ℕ → ℕ
without_zero_groups v =
    append_group (append_group (v / 1000000000) (v % 1000000000 / 1000000)) (v % 1000000 / 1000)
      * 1000
    + v % 1000

-- The text so far says `n`, and has at most `k` characters.
record Says (k n : ℕ) (l : Line) : Type 0 where
  said : read_on 0 l.text ≡ n
  fresh : l.first ≡ true → n ≡ 0
  written : length l.text ≤ k

-- A group as it is printed
abbrev piece : Bool → ℕ → List ℕ
piece first q = if first then plain q else padded q

module _ {k n : ℕ} {l : Line} (says : Says k n l) (q : ℕ) (held : q < 10 ^ 20)
    (narrow : l.first ≡ false → q < 1000) where
  length-piece : length (piece l.first q) ≤ 20
  unfolding plain
  length-piece = elim (Bool-cases l.first) [
    | inl e ↦ rw e (length-decimal 19 q)
    | inr e ↦ rw (e, padded-digits q (narrow e)) (omega arith)
  ]

  read_on-piece : read_on n (piece l.first q) ≡ n * 1000 + q
  unfolding plain
  read_on-piece = elim (Bool-cases l.first) [
    | inl e ↦
        let none_yet = says.fresh e in rw (e, none_yet) (read_on-decimal 19 q held ∙ omega arith)
    | inr e ↦ rw e (read_on-padded n q (narrow e))
  ]

  print-piece :
      (size : ℕ) (end : List ℕ)
      → k + 20 + length end < size
      → print size l.text (piece l.first q ++ end) ≡ done (l.text ++ (piece l.first q ++ end))
  unfolding print
  print-piece size end room =
      let fits : ltb (length l.text + length (piece l.first q ++ end)) size ≡ true =
        rw (length-append (piece l.first q) end) (ground (arith, says.written, length-piece)) in
      rw fits refl

  read_on-line :
      (end : List ℕ) → read_on 0 (l.text ++ (piece l.first q ++ end)) ≡ read_on (n * 1000 + q) end
  read_on-line end =
      read_on-append 0 l.text _
      ∙ ap (λ m. read_on m (piece l.first q ++ end)) says.said
      ∙ read_on-append n (piece l.first q) end
      ∙ ap (λ m. read_on m end) read_on-piece

  module _ (size bound value : ℕ) (quotient : value / bound ≡ q)
      (test : leb bound value ≡ not (q == 0)) where
    group-skips : (q == 0) ≡ true → group size bound value l ≡ done l
    unfolding group
    group-skips none_of_it = rw (test, none_of_it) refl

    group-prints :
        (q == 0) ≡ false
        → k + 21 < size
        → group size bound value l
          ≡ done (record { text = l.text ++ (piece l.first q ++ 44 ∷ []); first = false })
    unfolding group
    group-prints some_of_it room =
        rw (test, some_of_it, quotient, print-piece size (44 ∷ []) (omega (arith, room))) refl

    group-Says :
        k + 21 < size
        → (m : Line) × (group size bound value l ≡ done m) × Says (k + 21) (append_group n q) m
    unfolding read_on
    group-Says room = elim (Bool-cases (q == 0)) [
      | inl e ↦ (
        l,
        group-skips e,
        rw e (record {
          said = says.said;
          fresh = says.fresh;
          written = omega (arith, says.written);
        }),
      )
      | inr e ↦ (
        _,
        group-prints e room,
        rw e (record {
          said = read_on-line (44 ∷ []);
          fresh = λ first. ground (arith, first);
          written =
              rw
                (
                  length-append l.text (piece l.first q ++ 44 ∷ []),
                  length-append (piece l.first q) (44 ∷ []),
                )
                (omega (arith, says.written, length-piece));
        }),
      )
    ]

  last_group-reads :
      (size value : ℕ)
      → value % 1000 ≡ q
      → k + 20 < size
      → (s : List ℕ) × (last_group size value l ≡ done s) × (read_on 0 s ≡ n * 1000 + q)
  unfolding last_group
  last_group-reads size value rest room = (
    l.text ++ (piece l.first q ++ []),
    rw rest (
        ap (print size l.text) (sym (append-nil (piece l.first q)))
        ∙ print-piece size [] (omega (arith, room))),
    read_on-line [] ∙ read_on-end (n * 1000 + q),
  )

-- A value is below a power of a thousand when its quotient by it is zero.
below_billion : (v : ℕ) → leb 1000000000 v ≡ not (v / 1000000000 == 0)
below_billion v = ground arith

below_million : (v : ℕ) → leb 1000000 v ≡ not (v / 1000000 == 0)
below_million v = ground arith

below_thousand : (v : ℕ) → leb 1000 v ≡ not (v / 1000 == 0)
below_thousand v = ground arith

first_group : (q : ℕ) → append_group 0 q ≡ q
first_group q = ground arith

below_billions : (v : ℕ) → v % 1000000000 % 1000000 ≡ v % 1000000
below_billions v = omega arith

bind-done :
    {A B : Type 0} {o : Outcome A} {a : A} {r : Outcome B} (f : A → Outcome B)
    → o ≡ done a
    → f a ≡ r
    → (o >>= f) ≡ r
bind-done f e h = ap (λ x. x >>= f) e ∙ h

grouped-reads :
    (v size : ℕ)
    → v < 2 ^ 63
    → 83 < size
    → (s : List ℕ) × (grouped v size ≡ done s) × (read_on 0 s ≡ without_zero_groups v)
unfolding grouped
grouped-reads v size fits room =
    let start : Says 0 0 (record { text = []; first = true }) = record {
      said = read_on-end 0;
      fresh = λ e. refl;
      written = omega arith;
    } in
    let (a, made_a, says_a) =
      group-Says start (v / 1000000000) (omega (arith, fits)) (λ e. ground (arith, e)) size
        1000000000 v refl (below_billion v) (omega (arith, room)) in
    let (b, made_b, says_b) =
      group-Says says_a (v % 1000000000 / 1000000) (omega arith) (λ e. omega arith) size 1000000
        (v % 1000000000) refl (below_million (v % 1000000000)) (omega (arith, room)) in
    let (c, made_c, says_c) =
      group-Says says_b (v % 1000000000 % 1000000 / 1000) (omega arith) (λ e. omega arith) size 1000
        (v % 1000000000 % 1000000) refl (below_thousand (v % 1000000000 % 1000000))
        (omega (arith, room)) in
    let (s, made, reads) =
      last_group-reads says_c (v % 1000) (omega arith) (λ e. omega arith) size
        (v % 1000000000 % 1000000) (omega arith) (omega (arith, room)) in
    (
      s,
      bind-done _ made_a (bind-done _ made_b (bind-done _ made_c made)),
      reads
          ∙ ap₂
              (λ q r.
                append_group (append_group q (v % 1000000000 / 1000000)) (r / 1000) * 1000
                + v % 1000)
              (first_group (v / 1000000000)) (below_billions v),
    )

-- For a value that is not negative and fits the type, and a buffer of more than 83 characters,
-- `GetBigNumberStr` writes a text; read without its commas, it says the value without its groups of
-- three zeros: the last group counts always, the ones before it only if they are not zero.
pub get_big_number_str-reads :
    (v size : ℕ)
    → v < 2 ^ 63
    → 83 < size
    → (s : List ℕ) × (get_big_number_str (pos v) true size ≡ done (some s))
      × (read_on 0 s ≡ without_zero_groups v)
unfolding get_big_number_str shown grouped
get_big_number_str-reads v size fits room =
    let (s, made, reads) = grouped-reads v size fits room in
    let some_room : (size == 0) ≡ false = ground (arith, room) in
    (s, rw some_room (bind-done _ made refl), reads)

without_zero_groups-all :
    (v : ℕ)
    → (1000000000 ≤ v → 1000000 ≤ v % 1000000000)
    → (1000000 ≤ v → 1000 ≤ v % 1000000)
    → without_zero_groups v ≡ v
without_zero_groups-all v millions thousands = elim (Bool-cases (v % 1000000 / 1000 == 0)) [
  | inl e ↦
      let low : v < 1000 = ground arith in
      let zero_millions : (v % 1000000000 / 1000000 == 0) ≡ true = ground (arith, low) in
      rw (e, zero_millions) (omega (arith, low))
  | inr e ↦ elim (Bool-cases (v % 1000000000 / 1000000 == 0)) [
    | inl d ↦
        let low : v < 1000000000 = ground arith in
        let none_such : v % 1000000000 / 1000000 ≡ 0 = ground (arith, d) in
        rw (e, d) (omega (arith, low, none_such))
    | inr d ↦ rw (e, d) (omega arith)
  ]
]

-- For a value that is not negative and fits the type, a buffer of more than 83 characters, and no group
-- of three zeros, but the last, behind a group that is not zero: `GetBigNumberStr` writes a text that,
-- read without its commas, says the value.
pub get_big_number_str-exact :
    (v size : ℕ)
    → v < 2 ^ 63
    → 83 < size
    → (1000000000 ≤ v → 1000000 ≤ v % 1000000000)
    → (1000000 ≤ v → 1000 ≤ v % 1000000)
    → (s : List ℕ) × (get_big_number_str (pos v) true size ≡ done (some s)) × (read_on 0 s ≡ v)
get_big_number_str-exact v size fits room millions thousands =
    let (s, made, reads) = get_big_number_str-reads v size fits room in
    (s, made, reads ∙ without_zero_groups-all v millions thousands)
