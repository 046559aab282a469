-- ===== src/Syscall/Exit.antt =====
-- sys_exit and the scheduler: the process that exits never runs again.
use lightstreak_os.Base.{ℕ, ◌≡◌, ◌≢◌, refl, sym, subst, Option, ==_self, ==_ne, if◌then◌else◌}
use lightstreak_os.Base.Int.{ℤ, to_int32}
use lightstreak_os.Scheduler.{Sched, timer_tick, proc_zombie, scheduler_tick}
use lightstreak_os.Scheduler.Zombies.{
  counts, goes, scheduler_tick-Tick, IsGone, switch_to-IsGone, ticks, ticks-IsGone,
}
use lightstreak_os.Syscall.Machine.{Machine, exited, sys_exit, finish_exit}
use lightstreak_os.Syscall.Handler.{
  Registers, Outcome, switched, halted, call_exit, syscall_handler,
}

module _ {F : Type 0} where
  -- How a call of exit ends for the process `z`.
  pub data Exited (z : ℕ) (code : ℤ) : Outcome F → Type 0 where
    gone :
        (t : Machine F) → ((n : ℕ) → IsGone z code (ticks n t.sched)) → Exited z code (switched t)
    stopped :
        (t : Machine F)
        → (t.sched.procs z).state ≡ proc_zombie
        → (t.sched.procs z).exit_code ≡ code
        → Exited z code (halted t)

  finish_exit-Exited :
      (m : Machine F) (z : ℕ) (code : ℤ) (s : Sched)
      → (s.procs z).state ≡ proc_zombie
      → (s.procs z).exit_code ≡ code
      → let (t, other) = finish_exit m (scheduler_tick s) in
        Exited z code (if other then switched t else halted t)
  unfolding timer_tick
  finish_exit-Exited m z code s zs zc = elim (scheduler_tick-Tick s) [
    | counts e ↦ subst P (sym e) (stopped _ zs zc)
    | goes q ne r e ↦
        subst P (sym e)
          (gone _ (λ n. ticks-IsGone n z code _ (switch_to-IsGone z code s q zs zc r)))
  ]
    where
      P : Sched × Option (ℕ × ℕ) → Type 0
      P out =
          let (t, other) = finish_exit m out in
          Exited z code (if other then switched t else halted t)

  -- With a current process, the call with number 1 never returns to it: it becomes a zombie with
  -- the exit code in EBX, and either the processor halts or another process runs, and then, after
  -- any number of calls of `scheduler_tick`, the process is still a zombie with that code and not
  -- the current one.
  pub exit_is_final :
      (regs : Registers) (m : Machine F)
      → regs.eax ≡ 1
      → m.sched.current ≢ 0
      → Exited m.sched.current (to_int32 regs.ebx) (syscall_handler regs m)
  unfolding syscall_handler call_exit sys_exit
  exit_is_final regs m e h =
      rw (e, ==_ne m.sched.current 0 h)
        (finish_exit-Exited m m.sched.current (to_int32 regs.ebx)
          (exited (to_int32 regs.ebx) m.sched) (rw (==_self m.sched.current) refl)
          (rw (==_self m.sched.current) refl))
