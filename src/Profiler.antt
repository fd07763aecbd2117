-- ===== src/Profiler.antt =====
-- The profiler of ConsoleApplication2/monitor.h and monitor.cpp: `ProfileBegin`, `ProfileEnd` and
-- `GetSample`, on the tables of samples that the threads keep and the array of threads. `double`, the
-- formatting of a name by `wsprintf`, and the values of the performance counter, which does not run
-- backwards, come from outside.
pub mod Counted
pub mod Measured
mod Tests
use chatting_server.Base.{
  ℕ, suc, ◌+◌, ◌-◌, ◌==◌, if◌then◌else◌, not, ◌&&◌, Bool, true, false, List, [], ◌∷◌, get_elem?,
  set, replicate, Option, some, none,
}
use chatting_server.Base.Maps.{update}
use chatting_server.Base.Outcome.{Outcome, done, overrun, ◌>>=◌}

-- What the code uses of `double`.
pub record Doubles : Type 1 where
  pub Double : Type 0
  pub nought : Double
  pub largest : Double
  pub plus : Double → Double → Double
  -- `(double)ticks / _dMicroFrequency`
  pub micros : ℕ → Double
  -- `value < ticks` and `value > ticks`
  pub below : Double → ℕ → Bool
  pub above : Double → ℕ → Bool

-- `PROFILE_SAMPLE`; the two entries of `dMin` and `dMax` are fields.
pub record Sample (D : Doubles) : Type 0 where
  pub flag : Bool
  pub name : List ℕ
  pub start : ℕ
  pub total : D.Double
  pub min_0 : D.Double
  pub min_1 : D.Double
  pub max_0 : D.Double
  pub max_1 : D.Double
  pub calls : ℕ

-- The thread-local values and `_stProfileThread`: each entry has a thread's id, and whose table
-- `pSample` points to.
pub record Profiler (D : Doubles) : Type 0 where
  pub tls : ℕ → Option (List (Sample D))
  pub threads : List (ℕ × Option ℕ)

-- `wcscmp(a, b) == 0`
unfoldable pub same_name : List ℕ → List ℕ → Bool
same_name [] [] = true
same_name [] (b ∷ bs) = false
same_name (a ∷ xs) [] = false
same_name (a ∷ xs) (b ∷ bs) = a == b && same_name xs bs

abbrev is_free : ℕ × Option ℕ → Bool
is_free (t, none) = t == 0
is_free (t, some owner) = false

-- The first free entry of `_stProfileThread` becomes the thread's.
unfoldable pub register : ℕ → List (ℕ × Option ℕ) → List (ℕ × Option ℕ)
register me [] = []
register me (t ∷ ts) = if is_free t then (me, some me) ∷ ts else t ∷ register me ts

abbrev shifted : Option ℕ → Option ℕ
shifted none = none
shifted (some i) = some (suc i)

module _ (D : Doubles) (format : List ℕ → Outcome (List ℕ)) where
  -- An entry that gets its name
  abbrev pub named : List ℕ → Sample D → Sample D
  named name s = record {
    flag = true;
    name = name;
    start = 0;
    total = D.nought;
    min_0 = D.largest;
    min_1 = D.largest;
    max_0 = D.nought;
    max_1 = D.nought;
    calls = 0;
  }

  -- The loop of `GetSample` over the samples, and which one it finds
  unfoldable pub locate : List ℕ → List (Sample D) → Outcome (List (Sample D) × Option ℕ)
  unfolding same_name
  locate name [] = done ([], none)
  locate name (s ∷ ss) =
      let rest = locate name ss in
      if s.flag && same_name s.name name
      then done (s ∷ ss, some 0)
      else (if same_name s.name []
          then (format name >>= λ n. done (named n s ∷ ss, some 0))
          else (rest >>= λ r. done (s ∷ r.0, shifted r.1)))

  abbrev pub with_table : ℕ → List (Sample D) → Profiler D → Profiler D
  with_table me samples st = record st { tls = update st.tls me (some samples) }

  unfoldable pub search_table :
      ℕ → List ℕ → List (Sample D) → Profiler D → Outcome (Profiler D × Option ℕ)
  unfolding locate
  search_table me name samples st = locate name samples >>= λ r. done (with_table me r.0 st, r.1)

  -- What `new` and `memset` leave: the first four bytes, flag and first character, are zero.
  abbrev pub new_table : Sample D → List (Sample D)
  new_table unset = replicate 50 (record unset { flag = false; name = [] })

  unfoldable pub search_or_make :
      ℕ
      → List ℕ
      → Bool
      → Sample D
      → Profiler D
      → Option (List (Sample D))
      → Outcome (Profiler D × Option ℕ)
  unfolding search_table register
  search_or_make me name tls_set unset st (some samples) = search_table me name samples st
  search_or_make me name tls_set unset st none =
      if tls_set
      then (let t = with_table me (new_table unset) st in
          search_table me name (new_table unset) (record t { threads = register me st.threads }))
      else done (st, none)

  -- `GetSample(pszName, pOutSample)` of the thread `me`; `tls_set` is what `TlsSetValue` returns, and
  -- `unset` what a sample holds before it is written.
  unfoldable pub get_sample :
      ℕ → List ℕ → Bool → Sample D → Profiler D → Outcome (Profiler D × Option ℕ)
  unfolding search_or_make
  get_sample me name tls_set unset st = search_or_make me name tls_set unset st (st.tls me)

  abbrev table_of : Option (List (Sample D)) → List (Sample D)
  table_of none = []
  table_of (some samples) = samples

  abbrev pub put_sample : ℕ → ℕ → Sample D → Profiler D → Profiler D
  put_sample me i s st = with_table me (set (table_of (st.tls me)) i s) st

  with_read :
      ℕ
      → ℕ
      → (Sample D → Sample D × Bool)
      → Profiler D
      → Option (Sample D)
      → Outcome (Profiler D × Bool)
  with_read me i f st none = overrun
  with_read me i f st (some s) = let r = f s in done (put_sample me i r.0 st, r.1)

  -- Goes on with the sample that `GetSample` found; `false` if it is null.
  unfoldable pub with_sample :
      ℕ → (Sample D → Sample D × Bool) → Profiler D × Option ℕ → Outcome (Profiler D × Bool)
  unfolding with_read
  with_sample me f (st, none) = done (st, false)
  with_sample me f (st, some i) = with_read me i f st (get_elem? (table_of (st.tls me)) i)

  -- The rest of `ProfileBegin`
  unfoldable pub begin_sample : ℕ → Sample D → Sample D × Bool
  begin_sample now s = if not (s.start == 0) then (s, false) else (record s { start = now }, true)

  unfoldable pub with_max : ℕ → Sample D → Sample D
  with_max ticks s =
      if D.below s.max_1 ticks then record s { max_0 = s.max_1; max_1 = D.micros ticks } else s

  unfoldable pub with_min : ℕ → Sample D → Sample D
  with_min ticks s =
      if D.above s.min_1 ticks then record s { min_0 = s.min_1; min_1 = D.micros ticks } else s

  -- The rest of `ProfileEnd`, which returns true
  unfoldable pub end_sample : ℕ → Sample D → Sample D × Bool
  unfolding with_max with_min
  end_sample now s =
      let ticks = now - s.start in
      let t = with_min ticks (with_max ticks s) in
      (record t { total = D.plus t.total (D.micros ticks); calls = t.calls + 1; start = 0 }, true)

  -- `ProfileBegin(szName)` at the counter's value `now`
  unfoldable pub profile_begin :
      ℕ → List ℕ → ℕ → Bool → Sample D → Profiler D → Outcome (Profiler D × Bool)
  unfolding get_sample with_sample begin_sample
  profile_begin me name now tls_set unset st =
      get_sample me name tls_set unset st >>= λ r. with_sample me (begin_sample now) r

  -- `ProfileEnd(szName)` at the counter's value `now`
  unfoldable pub profile_end :
      ℕ → List ℕ → ℕ → Bool → Sample D → Profiler D → Outcome (Profiler D × Bool)
  unfolding get_sample with_sample end_sample
  profile_end me name now tls_set unset st =
      get_sample me name tls_set unset st >>= λ r. with_sample me (end_sample now) r
