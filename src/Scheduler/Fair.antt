-- ===== src/Scheduler/Fair.antt =====
-- Every process that is ready gets the CPU after at most as many ticks of the scheduler as there are processes in
-- front of it.
use lightstreak_os.Base.{ℕ, ◌≤◌, ◌<◌, ◌≡◌, ◌≢◌, true}
use lightstreak_os.Scheduler.{is_ready, Sched}
use lightstreak_os.Scheduler.Choice.{hop}
use lightstreak_os.Scheduler.Links.{Links}
use lightstreak_os.Scheduler.Zombies.{ticks}

-- `q` is `d` steps in front of the current process along the ring, for the first time, no process on
-- the way is NULL, and the search reaches it.
record IsAhead (s : Sched) (d q : ℕ) : Type 0 where
  there : hop s.procs d s.current ≡ q
  fresh : (j : ℕ) → j < d → hop s.procs j s.current ≢ q
  solid : (j : ℕ) → j < d → hop s.procs j s.current ≢ 0
  ready : 0 < d → is_ready (s.procs q).state ≡ true
  near : d ≤ 65
  queue : s.run_queue ≢ 0

pub record RunsWithin (s : Sched) (m q : ℕ) : Type 0 where
  pub count : ℕ
  pub bound : count ≤ m
  pub runs : (ticks count s).current ≡ q

-- After the tick, `q` is nearer.
record IsCloser (t : Sched) (d q : ℕ) : Type 0 where
  distance : ℕ
  closer : distance ≤ d
  ahead : IsAhead t distance q
