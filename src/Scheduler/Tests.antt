-- ===== src/Scheduler/Tests.antt =====
-- kernel/proc/scheduler.c: the theorems at a ring of two processes.
use lightstreak_os.Base.{false, [], ◌∷◌, ℕ, ◌≡◌, ◌≢◌, refl, arith, ◌==◌, if◌then◌else◌}
use lightstreak_os.Base.Int.{pos}
use lightstreak_os.Scheduler.{proc_ready, proc_running, Pcb, Sched, scheduler_add, scheduler_remove}
use lightstreak_os.Scheduler.Links.{Links, NotIn, AreApart}
use lightstreak_os.Scheduler.Members.{add_remove}
use lightstreak_os.Scheduler.Queue.{IsRing, IsRemoved}
use lightstreak_os.Scheduler.Removal.{scheduler_remove-IsRemoved}

abbrev idle : Pcb
idle = record {
  pid = 0;
  kernel_stack_top = 0x9000;
  state = proc_running;
  exit_code = pos 0;
  next = 2;
}

abbrev shell : Pcb
shell = record {
  pid = 1;
  kernel_stack_top = 0xB000;
  state = proc_ready;
  exit_code = pos 0;
  next = 1;
}

abbrev two : Sched
two = record {
  procs = λ p. if p == 1 then idle else shell;
  current = 1;
  run_queue = 1;
  tick_count = 0;
  ticks_per_second = 100;
  esp0 = 0;
}

differ : (a b : ℕ) → (a == b) ≡ false → a ≢ b
differ a b h e = absurd (ground (arith, h, e))

two-IsRing : IsRing two (1 ∷ 2 ∷ [])
unfolding Links NotIn AreApart
two-IsRing = record {
  head = refl;
  links = (refl, (refl, refl));
  apart = ((differ 1 2 refl, tt), (tt, tt));
  nonzero = (differ 0 1 refl, (differ 0 2 refl, tt));
}

scheduler_remove-IsRemoved_example : IsRemoved two 2 (1 ∷ []) (scheduler_remove 2 2 two)
scheduler_remove-IsRemoved_example =
    scheduler_remove-IsRemoved two 2 2 (1 ∷ []) [] two-IsRing (omega arith)

absent : NotIn 3 (1 ∷ 2 ∷ [])
unfolding NotIn
absent = (differ 3 1 refl, (differ 3 2 refl, tt))

add_remove_example :
    IsRemoved (scheduler_add 3 two) 3 (1 ∷ 2 ∷ []) (scheduler_remove 3 3 (scheduler_add 3 two))
add_remove_example =
    add_remove two 3 3 (1 ∷ 2 ∷ []) two-IsRing (differ 3 0 refl) absent (omega arith)
