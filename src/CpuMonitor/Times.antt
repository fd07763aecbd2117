-- ===== src/CpuMonitor/Times.antt =====
-- The shares of the processor time, the first two parts of `CpuMonitor::Update` in
-- ConsoleApplication2/CpuMonitor.cpp. The times are numbers of 64 bits that the system hands out, and
-- the arithmetic on floating-point numbers is an argument: `share a b` is `(float)((double)a /
-- (double)b * 100.0)`, and `scaled a n b` the same with `(double)n * (double)b` below the bar.
use chatting_server.Base.{
  ℕ, ◌+◌, ◌-◌, ◌%◌, ◌^◌, ◌≤◌, ◌<◌, ◌≡◌, refl, ◌==◌, if◌then◌else◌, ◌||◌, Option, none, some, arith,
}

pub record Floats (F : Type 0) : Type 0 where
  pub zero_share : F
  pub share : ℕ → ℕ → F
  pub scaled : ℕ → ℕ → ℕ → F

-- What `GetSystemTimes` hands out
pub record SystemTimes : Type 0 where
  pub idle : ℕ
  pub kernel : ℕ
  pub user : ℕ

-- `mProcessorTotal`, `mProcessorUser` and `mProcessorKernel`, or those of the process
pub record Shares (F : Type 0) : Type 0 where
  pub total : F
  pub user : F
  pub kernel : F

-- The fields for the system, with `none` as long as `mSysCpuInitialized` is false
pub record SystemCpu (F : Type 0) : Type 0 where
  pub last : Option SystemTimes
  pub shares : Shares F

-- What the process has used, and when
pub record ProcessTimes : Type 0 where
  pub now : ℕ
  pub kernel : ℕ
  pub user : ℕ

pub record ProcessCpu (F : Type 0) : Type 0 where
  pub last : Option ProcessTimes
  pub shares : Shares F

-- The difference of two numbers of 64 bits
abbrev pub diff : ℕ → ℕ → ℕ
diff a b = (a + 2 ^ 64 - b) % 2 ^ 64

module _ {F : Type 0} (f : Floats F) where
  abbrev pub no_shares : Shares F
  no_shares = record { total = f.zero_share; user = f.zero_share; kernel = f.zero_share }

  -- The shares between two times of the system
  unfoldable pub system_shares : SystemTimes → SystemTimes → Shares F
  system_shares r now =
      let k = diff now.kernel r.kernel in
      let u = diff now.user r.user in
      let i = diff now.idle r.idle in
      let total = (k + u) % 2 ^ 64 in
      if total == 0 then no_shares else record {
        total = f.share (diff total i) total;
        user = f.share u total;
        kernel = f.share (diff k i) total;
      }

  system_since : Shares F → Option SystemTimes → SystemTimes → Shares F
  unfolding system_shares
  system_since v none now = v
  system_since v (some r) now = system_shares r now

  -- The first part of `Update`; `none` is a call of `GetSystemTimes` that fails.
  unfoldable pub update_system : Option SystemTimes → SystemCpu F → SystemCpu F
  unfolding system_since
  update_system none c = c
  update_system (some now) c = record { last = some now; shares = system_since c.shares c.last now }

  -- The shares of a process between two times, on `processors` processors
  unfoldable pub process_shares : ℕ → ProcessTimes → ProcessTimes → Shares F
  process_shares processors r now =
      let time = diff now.now r.now in
      let u = diff now.user r.user in
      let k = diff now.kernel r.kernel in
      let total = (u + k) % 2 ^ 64 in
      if time == 0 || processors == 0 then no_shares else record {
        total = f.scaled total processors time;
        user = f.scaled u processors time;
        kernel = f.scaled k processors time;
      }

  process_since : ℕ → Shares F → Option ProcessTimes → ProcessTimes → Shares F
  unfolding process_shares
  process_since processors v none now = v
  process_since processors v (some r) now = process_shares processors r now

  -- The second part of `Update`; `none` is a call of `GetProcessTimes` that fails.
  unfoldable pub update_process : ℕ → Option ProcessTimes → ProcessCpu F → ProcessCpu F
  unfolding process_since
  update_process processors none c = c
  update_process processors (some now) c = record {
    last = some now;
    shares = process_since processors c.shares c.last now;
  }

-- The times of the system go forward, the idle time is part of the kernel's, and no difference
-- leaves 64 bits.
pub record IsLater (r now : SystemTimes) : Type 0 where
  pub idle : r.idle ≤ now.idle
  pub kernel : r.kernel ≤ now.kernel
  pub user : r.user ≤ now.user
  pub idle_kernel : now.idle - r.idle ≤ now.kernel - r.kernel
  pub small : now.kernel + now.user < 2 ^ 64

-- The time in which the system did something.
abbrev pub busy : SystemTimes → SystemTimes → ℕ
busy r now = (now.kernel - r.kernel - (now.idle - r.idle)) + (now.user - r.user)

abbrev pub elapsed : SystemTimes → SystemTimes → ℕ
elapsed r now = (now.kernel - r.kernel) + (now.user - r.user)

-- Two updates with times that were read, and one between them that fails: the shares are
-- those of the busy time, of the user's and of the kernel's less the idle time in the time elapsed, or
-- all zero if no time has; no more than all of it is busy.
pub update_system-measures :
    {F : Type 0} (f : Floats F) (r now : SystemTimes) (c : SystemCpu F)
    → IsLater r now
    → let u = update_system f (some now) (update_system f none (update_system f (some r) c)) in
      (u.shares ≡ (
        if elapsed r now == 0 then no_shares f else record {
          total = f.share (busy r now) (elapsed r now);
          user = f.share (now.user - r.user) (elapsed r now);
          kernel = f.share (now.kernel - r.kernel - (now.idle - r.idle)) (elapsed r now);
        }))
      × (u.last ≡ some now)
      × (busy r now ≤ elapsed r now)
unfolding update_system system_since system_shares
update_system-measures f r now c v = (rw (total, working, user, kernel) refl, refl, omega arith)
  where
    total : (diff now.kernel r.kernel + diff now.user r.user) % 2 ^ 64 ≡ elapsed r now
    total = omega arith

    working : diff (elapsed r now) (diff now.idle r.idle) ≡ busy r now
    working = omega arith

    user : diff now.user r.user ≡ now.user - r.user
    user = omega arith

    kernel :
        diff (diff now.kernel r.kernel) (diff now.idle r.idle)
        ≡ now.kernel - r.kernel - (now.idle - r.idle)
    kernel = omega arith
