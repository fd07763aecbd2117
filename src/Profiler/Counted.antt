-- ===== src/Profiler/Counted.antt =====
-- What `ProfileEnd` of ConsoleApplication2/monitor.cpp does to a sample.
use chatting_server.Base.{ℕ, ◌+◌, ◌-◌, ◌≡◌, refl, ap, if◌then◌else◌, Bool, true, false, List, ◌∙◌}
use chatting_server.Base.Outcome.{Outcome}
use chatting_server.Profiler.{Doubles, Sample, with_max, with_min, end_sample}

-- The sample `t` is `s` after a time of so many ticks.
pub record Counted (D : Doubles) (ticks : ℕ) (s t : Sample D) : Type 0 where
  pub flag : t.flag ≡ s.flag
  pub name : t.name ≡ s.name
  pub start : t.start ≡ 0
  pub total : t.total ≡ D.plus s.total (D.micros ticks)
  pub calls : t.calls ≡ s.calls + 1

-- What the two extremes leave of a sample
record Same {D : Doubles} (s t : Sample D) : Type 0 where
  flag : t.flag ≡ s.flag
  name : t.name ≡ s.name
  total : t.total ≡ s.total
  calls : t.calls ≡ s.calls

if_Same :
    {D : Doubles} (c : Bool) (s t u : Sample D) → Same s t → Same s u → Same s (if c then t else u)
if_Same true s t u h k = h
if_Same false s t u h k = k

with_max-Same :
    (D : Doubles) (format : List ℕ → Outcome (List ℕ)) (ticks : ℕ) (s : Sample D)
    → Same s (with_max D format ticks s)
unfolding with_max
with_max-Same D format ticks s =
    if_Same (D.below s.max_1 ticks) s _ s
      (record { flag = refl; name = refl; total = refl; calls = refl })
      (record { flag = refl; name = refl; total = refl; calls = refl })

with_min-Same :
    (D : Doubles) (format : List ℕ → Outcome (List ℕ)) (ticks : ℕ) (s : Sample D)
    → Same s (with_min D format ticks s)
unfolding with_min
with_min-Same D format ticks s =
    if_Same (D.above s.min_1 ticks) s _ s
      (record { flag = refl; name = refl; total = refl; calls = refl })
      (record { flag = refl; name = refl; total = refl; calls = refl })

pub end_sample-Counted :
    (D : Doubles) (format : List ℕ → Outcome (List ℕ)) (now : ℕ) (s : Sample D)
    → Counted D (now - s.start) s (end_sample D format now s).0
unfolding end_sample
end_sample-Counted D format now s =
    let ticks = now - s.start in
    let a = with_max-Same D format ticks s in
    let b = with_min-Same D format ticks (with_max D format ticks s) in
    record {
      flag = b.flag ∙ a.flag;
      name = b.name ∙ a.name;
      start = refl;
      total = ap (λ x. D.plus x (D.micros ticks)) (b.total ∙ a.total);
      calls = ap (λ n. n + 1) (b.calls ∙ a.calls);
    }
