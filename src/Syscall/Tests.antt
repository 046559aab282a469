-- ===== src/Syscall/Tests.antt =====
-- kernel/syscall/syscall.c: the theorems at a process with two open descriptors.
use lightstreak_os.Base.{
  ℕ, ◌+◌, ◌≡◌, ◌≢◌, refl, true, some, [], ◌∷◌, arith, ltb, leb, ◌&&◌, if◌then◌else◌, ◌==◌, sym,
  subst, ◌<◌,
}
use lightstreak_os.Base.Int.{pos, minus_one}
use lightstreak_os.Keyboard.{Keyboard}
use lightstreak_os.Ramfs.{Ramfs, RamfsFile}
use lightstreak_os.Ramfs.Data.{IsLive}
use lightstreak_os.Scheduler.{proc_ready, proc_running, Sched}
use lightstreak_os.Scheduler.Choice.{hop}
use lightstreak_os.Syscall.Machine.{Machine, ps_from}
use lightstreak_os.Syscall.Handler.{Registers, syscall_handler}
use lightstreak_os.Syscall.Effects.{Handled, syscall_handler-Handled}
use lightstreak_os.Syscall.Exit.{Exited, exit_is_final}
use lightstreak_os.Syscall.Ring.{IsRing, along, ps_lists_ring}
use lightstreak_os.Vfs.{Vfs, ramfs_ops}
use lightstreak_os.Syscall.{
  FdEntry, Process, Sys, closed, set_entry, sys_close, sys_read, sys_write,
}
use lightstreak_os.Syscall.Descriptors.{close_once}
use lightstreak_os.Syscall.Files.{Points, write_then_read}

abbrev empty_file : RamfsFile
empty_file = record { name = b'a' ∷ []; bytes = λ _. 0; size = 0; used = true }

abbrev one_file : Vfs Ramfs
one_file = record { mounted_fs = some ramfs_ops; disk = record { files = λ _. empty_file } }

abbrev quiet : Keyboard
quiet = record { kbd_buffer = λ _. 0; kbd_head = 0; kbd_tail = 0; shift_held = 0 }

abbrev at_start : FdEntry
at_start = record { file_idx = pos 0; offset = 0; in_use = true }

-- Descriptors 3 and 4 point to the file.
abbrev shell : Process
shell = record { pid = 1; fd_table = λ j. if leb 3 j && ltb j 5 then at_start else closed }

abbrev running : Sys Ramfs
running = record { current = some shell; vfs = one_file; console = []; keyboard = quiet; keys = [] }

close_once_test :
    let (r, t) = sys_close 4 running in
    let after = set_entry 4 closed shell in
    (r ≡ pos 0)
    × (t.current ≡ some after)
    × ((j : ℕ) → ◌≢◌ {A = ℕ} 4 j → after.fd_table j ≡ shell.fd_table j)
    × (t.vfs ≡ running.vfs)
    × (sys_close 4 t ≡ (minus_one, t))
close_once_test = close_once 4 running shell refl (omega arith) (omega arith) refl

points_3 : Points running shell 3 0 0
points_3 = record {
  runs = refl;
  above = omega arith;
  below = omega arith;
  file = refl;
  position = refl;
  used = refl;
}

points_4 : Points running shell 4 0 0
points_4 = record {
  runs = refl;
  above = omega arith;
  below = omega arith;
  file = refl;
  position = refl;
  used = refl;
}

file-IsLive : IsLive one_file.disk 0
file-IsLive = record { in_range = omega arith; used = refl; sized = omega arith }

write_then_read_example :
    let (written, t) = sys_write 3 (λ x. x + 65) 10 running in
    (written ≡ pos 10)
    × ((got : ℕ → ℕ) × (u : Sys Ramfs) × (after : Process) × (sys_read 4 (λ _. 0) 10 t
          ≡ some (pos 10, got, u))
        × ((x : ℕ) → x < 10 → got x ≡ x + 65)
        × Points u after 3 0 (0 + 10)
        × Points u after 4 0 (0 + 10)
        × ((j : ℕ) → ◌≢◌ {A = ℕ} 3 j → ◌≢◌ {A = ℕ} 4 j → after.fd_table j ≡ shell.fd_table j))
write_then_read_example =
    write_then_read running shell 3 4 0 0 10 (λ x. x + 65) (λ _. 0) refl file-IsLive points_3
      points_4 (λ e. absurd (omega arith)) (omega arith) (omega arith)

-- Two processes, 1 and 2, of which the first runs.
abbrev ring : Sched
ring = record {
  procs = λ p. record {
    pid = p;
    kernel_stack_top = 0x9000;
    state = if p == 1 then proc_running else proc_ready;
    exit_code = pos 0;
    next = if p == 1 then 2 else 1;
  };
  current = 1;
  run_queue = 1;
  tick_count = 0;
  ticks_per_second = 100;
  esp0 = 0;
}

abbrev machine : Machine Ramfs
machine = record {
  sched = ring;
  fd_tables = λ p fd. closed;
  vfs = one_file;
  console = [];
  keyboard = quiet;
  keys = [];
  pmm = record { bitmap = λ i. 0; total_pages = 65536; used_pages = 0 };
  memory = λ a. 0;
}

abbrev call : ℕ → Registers
call n = record { eax = n; ebx = 7; ecx = 0x2000; edx = 0 }

unknown_call_test : Handled (call 77) machine (syscall_handler (call 77) machine)
unknown_call_test = syscall_handler-Handled (call 77) machine

exit_is_final_example : Exited 1 (pos 7) (syscall_handler (call 1) machine)
exit_is_final_example = exit_is_final (call 1) machine refl (λ e. absurd (omega (arith, e)))

ring-IsRing : IsRing ring 2
unfolding hop
ring-IsRing = record {
  back = refl;
  apart = λ j lo hi.
      let one : j ≡ 1 = omega (arith, lo, hi) in
      subst (λ x. (hop ring.procs x 1 ≢ 1) × (hop ring.procs x 1 ≢ 0)) (sym one)
        (λ e. absurd (omega (arith, e)), λ e. absurd (omega (arith, e)));
}

ps_lists_ring_example : ps_from 32 1 ring ≡ along ring 2 1
ps_lists_ring_example = ps_lists_ring ring 1 32 ring-IsRing (omega arith)
