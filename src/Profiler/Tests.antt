-- ===== src/Profiler/Tests.antt =====
-- The profiler of ConsoleApplication2/monitor.cpp with whole microseconds for doubles, ten ticks each.
use chatting_server.Base.{
  ℕ, ◌+◌, ◌/◌, ◌^◌, ◌==◌, ◌≡◌, refl, ltb, if◌then◌else◌, true, false, List, [], ◌∷◌, get_elem?, set,
  replicate, some, none,
}
use chatting_server.Base.Outcome.{Outcome, done}
use chatting_server.Profiler.{
  Doubles, Sample, Profiler, same_name, register, named, locate, profile_begin, profile_end,
  new_table,
}
use chatting_server.Profiler.Counted.{Counted}
use chatting_server.Profiler.Measured.{begin_end-Counted}

abbrev whole : Doubles
whole = record {
  Double = ℕ;
  nought = 0;
  largest = 2 ^ 64;
  plus = λ a b. a + b;
  micros = λ t. t / 10;
  below = λ d t. ltb d t;
  above = λ d t. ltb t d;
}

abbrev unset : Sample whole
unset = record {
  flag = true;
  name = 9 ∷ [];
  start = 9;
  total = 9;
  min_0 = 9;
  min_1 = 9;
  max_0 = 9;
  max_1 = 9;
  calls = 9;
}

abbrev copied : List ℕ → Outcome (List ℕ)
copied name = done name

abbrev send : List ℕ
send = 83 ∷ 101 ∷ []

-- Thread 5 has a table with nothing in it.
abbrev made : Profiler whole
made = record {
  tls = λ t. if t == 5 then some (new_table whole copied unset) else none;
  threads = (5, some 5) ∷ (0, none) ∷ [];
}

abbrev after : List (Sample whole)
after = named whole copied send unset ∷ replicate 49 (record unset { flag = false; name = [] })

register-second :
    register 7 ((5, some 5) ∷ (0, none) ∷ (0, none) ∷ [])
    ≡ (5, some 5) ∷ (7, some 7) ∷ (0, none) ∷ []
unfolding register
register-second = refl

begin_end-Counted_example :
    (t : Sample whole) × (st1 st2 : Profiler whole) × (profile_begin whole copied 5 send 1000 true
        unset made
      ≡ done (st1, true))
    × (profile_end whole copied 5 send 1250 true unset st1 ≡ done (st2, true))
    × Counted whole 250 (named whole copied send unset) t
    × (st2.tls 5 ≡ some (set after 0 t))
    × ((j : ℕ)
        → (0 == j) ≡ false
        → get_elem? (set after 0 t) j ≡ get_elem? (new_table whole copied unset) j)
    × ((u : ℕ) → (5 == u) ≡ false → st2.tls u ≡ made.tls u)
    × (st2.threads ≡ made.threads)
begin_end-Counted_example =
    begin_end-Counted whole copied send refl 5 true unset (new_table whole copied unset) after 0
      (named whole copied send unset) made refl (unfold locate same_name in refl) refl 1000 1250
      refl
