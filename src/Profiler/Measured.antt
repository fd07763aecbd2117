-- ===== src/Profiler/Measured.antt =====
-- What a pair of `ProfileBegin` and `ProfileEnd` of ConsoleApplication2/monitor.cpp measures.
use chatting_server.Base.{
  ℕ, zero, suc, ◌-◌, ◌==◌, ◌≡◌, refl, ap, subst, ◌&&◌, Bool, true, false, ==_refl, List, [], ◌∷◌,
  get_elem?, set, Option, some, none, arith, ◌∙◌,
}
use chatting_server.Base.Maps.{update, update_hit}
use chatting_server.Base.Outcome.{Outcome, done, ◌>>=◌, Ensures, if_Ensures, map_Ensures}
use chatting_server.Profiler.{
  Doubles, Sample, Profiler, named, same_name, locate, with_table, search_table, search_or_make,
  get_sample, put_sample, with_read, with_sample, begin_sample, end_sample, profile_begin,
  profile_end, shifted, table_of,
}
use chatting_server.Profiler.Counted.{Counted, end_sample-Counted}

same_name_refl : (n : List ℕ) → same_name n n ≡ true
unfolding same_name
same_name_refl [] = refl
same_name_refl (a ∷ n) = rw (==_refl a, same_name_refl n) refl

get_elem?-set :
    {A : Type 0} (xs : List A) (i : ℕ) (x y : A)
    → get_elem? xs i ≡ some x
    → get_elem? (set xs i y) i ≡ some y
get_elem?-set [] i x y h = ground (arith, h)
get_elem?-set (z ∷ xs) zero x y h = refl
get_elem?-set (z ∷ xs) (suc i) x y h = get_elem?-set xs i x y h

set_again : {A : Type 0} (xs : List A) (i : ℕ) (x y : A) → set (set xs i x) i y ≡ set xs i y
set_again [] i x y = refl
set_again (z ∷ xs) zero x y = refl
set_again (z ∷ xs) (suc i) x y = ap (λ s. z ∷ s) (set_again xs i x y)

get_elem?-set_other :
    {A : Type 0} (xs : List A) (i j : ℕ) (y : A)
    → (i == j) ≡ false
    → get_elem? (set xs i y) j ≡ get_elem? xs j
get_elem?-set_other [] i j y h = refl
get_elem?-set_other (z ∷ xs) zero zero y h = absurd (ground (arith, h))
get_elem?-set_other (z ∷ xs) zero (suc j) y h = refl
get_elem?-set_other (z ∷ xs) (suc i) zero y h = refl
get_elem?-set_other (z ∷ xs) (suc i) (suc j) y h = get_elem?-set_other xs i j y (ground (arith, h))

-- A search of `samples` that ends at an entry leaves all other entries.
abbrev Others : {D : Doubles} → List (Sample D) → List (Sample D) × Option ℕ → Type 0
Others samples (ss, none) = Unit {0}
Others samples (ss, some i) = (j : ℕ) → (i == j) ≡ false → get_elem? ss j ≡ get_elem? samples j

shifted-Others :
    {D : Doubles} (s : Sample D) (samples : List (Sample D)) (r : List (Sample D) × Option ℕ)
    → Others samples r
    → Others (s ∷ samples) (s ∷ r.0, shifted r.1)
shifted-Others s samples (ss, none) h = tt
shifted-Others s samples (ss, some i) h = behind
  where
    behind : (j : ℕ) → (suc i == j) ≡ false → get_elem? (s ∷ ss) j ≡ get_elem? (s ∷ samples) j
    behind zero e = refl
    behind (suc j) e = h j (ground (arith, e))

-- The first entry that has the name is at `i`, and no entry before it is without a name.
data Found (D : Doubles) (name : List ℕ) : ℕ → List (Sample D) → Type 0 where
  here :
      {s : Sample D} {ss : List (Sample D)}
      → s.flag ≡ true
      → same_name s.name name ≡ true
      → Found D name 0 (s ∷ ss)
  later :
      {s : Sample D} {ss : List (Sample D)} {i : ℕ}
      → (s.flag && same_name s.name name) ≡ false
      → same_name s.name [] ≡ false
      → Found D name i ss
      → Found D name (suc i) (s ∷ ss)

module _ (D : Doubles) (format : List ℕ → Outcome (List ℕ)) (name : List ℕ)
    (printed : format name ≡ done name) where
  abbrev FoundAt : List (Sample D) × Option ℕ → Type 0
  FoundAt (ss, none) = Unit {0}
  FoundAt (ss, some i) = Found D name i ss

  shifted-FoundAt :
      (s : Sample D) (r : List (Sample D) × Option ℕ)
      → (s.flag && same_name s.name name) ≡ false
      → same_name s.name [] ≡ false
      → FoundAt r
      → FoundAt (s ∷ r.0, shifted r.1)
  shifted-FoundAt s (ss, none) a b h = tt
  shifted-FoundAt s (ss, some i) a b h = later a b h

  locate-FoundAt : (ss : List (Sample D)) → Ensures (locate D format name ss) FoundAt
  unfolding locate
  locate-FoundAt [] = tt
  locate-FoundAt (s ∷ ss) =
      if_Ensures (s.flag && same_name s.name name) _ _ FoundAt
        (λ e. here (ground (arith, e)) (ground (arith, e)))
        (λ other.
          if_Ensures (same_name s.name []) _ _ FoundAt
            (λ _. rw printed (here refl (same_name_refl name)))
            (λ taken.
              map_Ensures (locate D format name ss) _ FoundAt FoundAt
                (λ r h. shifted-FoundAt s r other taken h) (locate-FoundAt ss)))

  locate-Others : (ss : List (Sample D)) → Ensures (locate D format name ss) (Others ss)
  unfolding locate
  locate-Others [] = tt
  locate-Others (s ∷ ss) =
      if_Ensures (s.flag && same_name s.name name) _ _ (Others (s ∷ ss)) (λ e j h. refl)
        (λ other.
          if_Ensures (same_name s.name []) _ _ (Others (s ∷ ss))
            (λ _. rw printed (first s (named D format name s) ss))
            (λ taken.
              map_Ensures (locate D format name ss) _ (Others ss) (Others (s ∷ ss))
                (λ r h. shifted-Others s ss r h) (locate-Others ss)))
    where
      first :
          (s t : Sample D) (ss : List (Sample D)) (j : ℕ)
          → (0 == j) ≡ false
          → get_elem? (t ∷ ss) j ≡ get_elem? (s ∷ ss) j
      first s t ss zero e = absurd (ground (arith, e))
      first s t ss (suc j) e = refl

  Found-locate :
      {i : ℕ} {ss : List (Sample D)}
      → Found D name i ss
      → locate D format name ss ≡ done (ss, some i)
  unfolding locate
  Found-locate (here flag same) = rw (flag, same) refl
  Found-locate (later other taken h) = rw (other, taken, Found-locate h) refl

  Found-set :
      {i : ℕ} {ss : List (Sample D)} (t : Sample D)
      → Found D name i ss
      → t.flag ≡ true
      → same_name t.name name ≡ true
      → Found D name i (set ss i t)
  Found-set t (here flag same) f e = here f e
  Found-set t (later other taken h) f e = later other taken (Found-set t h f e)

  abbrev Bears : Option (Sample D) → Type 0
  Bears none = Unit {0}
  Bears (some s) = (s.flag ≡ true) × (same_name s.name name ≡ true)

  Found-Bears : {i : ℕ} {ss : List (Sample D)} → Found D name i ss → Bears (get_elem? ss i)
  Found-Bears (here flag same) = (flag, same)
  Found-Bears (later other taken h) = Found-Bears h

  module _ (me : ℕ) (tls_set : Bool) (unset : Sample D) where
    get_sample-table :
        (samples ss : List (Sample D)) (at : Option ℕ) (st : Profiler D)
        → st.tls me ≡ some samples
        → locate D format name samples ≡ done (ss, at)
        → get_sample D format me name tls_set unset st ≡ done (with_table D format me ss st, at)
    unfolding get_sample search_or_make search_table
    get_sample-table samples ss at st table located = rw (table, located) refl

    with_sample-at :
        (samples : List (Sample D)) (i : ℕ) (s : Sample D) (st : Profiler D)
        (f : Sample D → Sample D × Bool)
        → get_elem? samples i ≡ some s
        → with_sample D format me f (with_table D format me samples st, some i)
          ≡ done (put_sample D format me i (f s).0 (with_table D format me samples st), (f s).1)
    unfolding with_sample with_read
    with_sample-at samples i s st f e =
        ap (with_read D format me i f (with_table D format me samples st))
          (ap (λ o. get_elem? (table_of D format o) i) (update_hit st.tls me (some samples)) ∙ e)

    -- What either function leaves of a thread with a table, in which `GetSample` finds entry `i`.
    runs :
        (samples ss : List (Sample D)) (i : ℕ) (s t : Sample D) (st : Profiler D)
        (f : Sample D → Sample D × Bool) (ok : Bool)
        → st.tls me ≡ some samples
        → locate D format name samples ≡ done (ss, some i)
        → get_elem? ss i ≡ some s
        → f s ≡ (t, ok)
        → (get_sample D format me name tls_set unset st >>= λ r. with_sample D format me f r)
          ≡ done (put_sample D format me i t (with_table D format me ss st), ok)
    runs samples ss i s t st f ok table located e left =
        ap (λ o. o >>= λ r. with_sample D format me f r)
          (get_sample-table samples ss (some i) st table located)
        ∙ with_sample-at ss i s st f e
        ∙ ap (λ x. done (put_sample D format me i x.0 (with_table D format me ss st), x.1)) left

    put_sample-table :
        (ss : List (Sample D)) (i : ℕ) (t : Sample D) (st : Profiler D)
        → (put_sample D format me i t (with_table D format me ss st)).tls me ≡ some (set ss i t)
    put_sample-table ss i t st =
        update_hit (update st.tls me (some ss)) me _
        ∙ ap (λ o. some (set (table_of D format o) i t)) (update_hit st.tls me (some ss))

    begin_sample-free :
        (now : ℕ) (s : Sample D)
        → s.start ≡ 0
        → begin_sample D format now s ≡ (record s { start = now }, true)
    unfolding begin_sample
    begin_sample-free now s free = rw free refl

    put_sample-threads :
        (ss : List (Sample D)) (i : ℕ) (t : Sample D) (st : Profiler D) (u : ℕ)
        → (me == u) ≡ false
        → (put_sample D format me i t (with_table D format me ss st)).tls u ≡ st.tls u
    put_sample-threads ss i t st u other = rw other refl

    module _ (samples ss : List (Sample D)) (i : ℕ) (s : Sample D) (st : Profiler D)
        (table : st.tls me ≡ some samples)
        (located : locate D format name samples ≡ done (ss, some i))
        (read : get_elem? ss i ≡ some s) where
      place : Found D name i ss
      place = subst (λ o. Ensures o FoundAt) located (locate-FoundAt samples)

      bears : Bears (some s)
      bears = subst Bears read (Found-Bears place)

      -- In a thread that has a table, for a name that the formatting leaves as it is: if the sample
      -- that `GetSample` gives has no start time, `ProfileBegin` and then `ProfileEnd` succeed; the
      -- sample counts one call more and the time between the two more, has no start time again, and
      -- all other samples of the thread's table are as they were before; the other threads' tables and
      -- the array of threads stay.
      pub begin_end-Counted :
          (t0 t1 : ℕ)
          → s.start ≡ 0
          → (t : Sample D) × (st1 st2 : Profiler D) × (profile_begin D format me name t0 tls_set
                unset st
              ≡ done (st1, true))
            × (profile_end D format me name t1 tls_set unset st1 ≡ done (st2, true))
            × Counted D (t1 - t0) s t
            × (st2.tls me ≡ some (set ss i t))
            × ((j : ℕ) → (i == j) ≡ false → get_elem? (set ss i t) j ≡ get_elem? samples j)
            × ((u : ℕ) → (me == u) ≡ false → st2.tls u ≡ st.tls u)
            × (st2.threads ≡ st.threads)
      unfolding profile_begin profile_end
      begin_end-Counted t0 t1 free =
          let begun : Sample D = record s { start = t0 } in
          let ended : Sample D = (end_sample D format t1 begun).0 in
          let mid : Profiler D = put_sample D format me i begun (with_table D format me ss st) in
          let again : locate D format name (set ss i begun) ≡ done (set ss i begun, some i) =
            Found-locate (Found-set begun place bears.0 bears.1) in
          let counted = end_sample-Counted D format t1 begun in
          (
            ended,
            mid,
            put_sample D format me i ended (with_table D format me (set ss i begun) mid),
            runs samples ss i s begun st (begin_sample D format t0) true table located read
                (begin_sample-free t0 s free),
            runs (set ss i begun) (set ss i begun) i begun ended mid (end_sample D format t1) true
                (put_sample-table ss i begun st) again (get_elem?-set ss i s begun read)
                (unfold end_sample in refl),
            record {
              flag = counted.flag;
              name = counted.name;
              start = counted.start;
              total = counted.total;
              calls = counted.calls;
            },
            put_sample-table (set ss i begun) i ended mid ∙ ap some (set_again ss i begun ended),
            λ j h.
                get_elem?-set_other ss i j ended h
                ∙ subst (λ o. Ensures o (Others samples)) located (locate-Others samples) j h,
            λ u other.
                put_sample-threads (set ss i begun) i ended mid u other
                ∙ put_sample-threads ss i begun st u other,
            refl,
          )
