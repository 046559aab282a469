-- ===== src/Scheduler.antt =====
-- kernel/proc/scheduler.c with the tick counter of kernel/drivers/timer.c: the ring of processes and
-- the choice of the next one. A process is its address, 0 is NULL; `context_switch` is a result: the
-- process that was left and the one that runs.
pub mod Choice
pub mod Zombies
pub mod Links
pub mod Queue
pub mod Removal
pub mod Members
pub mod Fair
pub mod Pit
mod Tests
use lightstreak_os.Base.{
  ℕ, zero, suc, ◌+◌, ◌%◌, ◌^◌, ◌/◌, Bool, true, false, ◌&&◌, ◌||◌, not, Option, none, some, ◌==◌,
  if◌then◌else◌, update, add32, bit_and, List, [], ◌∷◌,
}
use lightstreak_os.Base.Int.{ℤ}

pub data ProcState : Type 0 where
  proc_ready : ProcState
  proc_running : ProcState
  proc_blocked : ProcState
  proc_zombie : ProcState

pub is_ready : ProcState → Bool
is_ready proc_ready = true
is_ready proc_running = false
is_ready proc_blocked = false
is_ready proc_zombie = false

-- The fields of the process control block that the scheduler and the system calls use.
pub record Pcb : Type 0 where
  pub pid : ℕ
  pub kernel_stack_top : ℕ
  pub state : ProcState
  pub exit_code : ℤ
  pub next : ℕ

pub record Sched : Type 0 where
  pub procs : ℕ → Pcb
  pub current : ℕ
  pub run_queue : ℕ
  pub tick_count : ℕ
  pub ticks_per_second : ℕ
  pub esp0 : ℕ

unfoldable pub timer_tick : Sched → Sched
timer_tick s = record s { tick_count = add32 s.tick_count 1 }

abbrev pub pit_base_freq : ℕ
pit_base_freq = 1193182

-- The divisor that the timer's chip gets for `hz` ticks a second.
unfoldable pub pit_divisor : ℕ → ℕ
pit_divisor hz = pit_base_freq / hz

-- The result has the bytes sent to the ports.
unfoldable pub timer_init : ℕ → Sched → List (ℕ × ℕ) × Sched
timer_init hz s =
    let divisor = pit_divisor hz in
    (
      (0x43, 0x36) ∷ (0x40, bit_and divisor 0xFF) ∷ (0x40, bit_and (divisor / 2 ^ 8) 0xFF) ∷ [],
      record s { ticks_per_second = hz },
    )

pub timer_get_seconds : Sched → ℕ
timer_get_seconds s = s.tick_count / s.ticks_per_second

abbrev pub set_state : ℕ → ProcState → (ℕ → Pcb) → ℕ → Pcb
set_state p st procs = update procs p (record (procs p) { state = st })

abbrev pub set_next : ℕ → ℕ → (ℕ → Pcb) → ℕ → Pcb
set_next p q procs = update procs p (record (procs p) { next = q })

pub scheduler_add : ℕ → Sched → Sched
scheduler_add p s =
    let readied = set_state p proc_ready s.procs in
    if p == 0
    then s
    else if s.run_queue == 0
    then record s { run_queue = p; procs = set_next p p readied }
    else record s { procs = set_next s.run_queue p (set_next p (readied s.run_queue).next readied) }

-- The walk to the process in front of `p`; the fuel is the number of processes that it looks at.
pub find_prev : ℕ → ℕ → ℕ → Sched → Option ℕ
find_prev zero p prev s = none
find_prev (suc n) p prev s =
    let q = (s.procs prev).next in
    let rest = find_prev n p q s in if q == p || q == s.run_queue then some prev else rest

-- `prev` leads to what is behind `p`, and `p` to nothing.
pub unlink : ℕ → ℕ → Sched → Sched
unlink p prev s =
    let q = (s.procs p).next in
    if q == p then record s { run_queue = 0; procs = set_next p 0 s.procs } else record s {
      run_queue = if s.run_queue == p then q else s.run_queue;
      procs = set_next p 0 (set_next prev q s.procs);
    }

-- The end of the removal, once the walk has stopped.
pub finish_remove : ℕ → Sched → Option ℕ → Option Sched
finish_remove p s none = none
finish_remove p s (some prev) = if (s.procs prev).next == p then some (unlink p prev s) else some s

pub scheduler_remove : ℕ → ℕ → Sched → Option Sched
scheduler_remove fuel p s =
    if p == 0 || s.run_queue == 0
    then some s
    else finish_remove p s (find_prev fuel p s.run_queue s)

-- At most `n` steps along the ring, to a process that is ready or to the current one.
pub find_next : ℕ → ℕ → Sched → ℕ
find_next zero p s = p
find_next (suc n) p s =
    let rest = find_next n (s.procs p).next s in
    if not (is_ready (s.procs p).state) && not (p == s.current) then rest else p

-- `if (current->state == PROC_RUNNING) current->state = PROC_READY`
pub preempted : ProcState → ProcState
preempted proc_running = proc_ready
preempted proc_ready = proc_ready
preempted proc_blocked = proc_blocked
preempted proc_zombie = proc_zombie

pub switch_to : ℕ → Sched → Sched
switch_to p s =
    let left = set_state s.current (preempted (s.procs s.current).state) s.procs in
    record s {
      procs = set_state p proc_running left;
      current = p;
      esp0 = (s.procs p).kernel_stack_top;
    }

-- The bound of 64 steps is that of the source.
pub scheduler_tick : Sched → Sched × Option (ℕ × ℕ)
scheduler_tick s =
    let t = timer_tick s in
    let p = find_next 64 (s.procs s.current).next s in
    if s.run_queue == 0 || s.current == 0
    then (t, none)
    else if p == s.current
    then (t, none)
    else if not (is_ready (s.procs p).state)
    then (t, none)
    else (switch_to p t, some (s.current, p))
