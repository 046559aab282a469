-- ===== src/Wrappers/Tests.antt =====
-- userspace/lib/syscall_wrappers.h: the theorem at a machine with ramfs mounted, and a call that no
-- wrapper makes.
use lightstreak_os.Base.{◌^◌, ◌≡◌, false, some, [], arith, add32, if◌then◌else◌}
use lightstreak_os.Base.Int.{pos, to_int32, to_uint32}
use lightstreak_os.Ramfs.{Ramfs, RamfsFile}
use lightstreak_os.Scheduler.{proc_running, Pcb}
use lightstreak_os.Vfs.{ramfs_ops}
use lightstreak_os.Base.Memory.{string_at}
use lightstreak_os.Syscall.{closed, sys_write, sys_read, sys_open, sys_close, sys_getpid}
use lightstreak_os.Syscall.Machine.{
  Machine, view, put, sys_readdir, sys_uptime, sys_meminfo, sys_ps, sys_exit,
}
use lightstreak_os.Syscall.Handler.{Registers, after_read, switched, halted}
use lightstreak_os.Wrappers.{
  int_of, exit, write, read, open_path, close, getpid, readdir, uptime, meminfo, ps,
}
use lightstreak_os.Wrappers.Reach.{wrappers_agree}

abbrev only : Pcb
only = record {
  pid = 1;
  kernel_stack_top = 0xB000;
  state = proc_running;
  exit_code = pos 0;
  next = 1;
}

abbrev empty_slot : RamfsFile
empty_slot = record { name = []; bytes = λ i. 0; size = 0; used = false }

abbrev machine : Machine Ramfs
machine = record {
  sched = record {
    procs = λ p. only;
    current = 1;
    run_queue = 1;
    tick_count = 250;
    ticks_per_second = 100;
    esp0 = 0;
  };
  fd_tables = λ p fd. closed;
  vfs = record { mounted_fs = some ramfs_ops; disk = record { files = λ i. empty_slot } };
  console = [];
  keyboard = record { kbd_buffer = λ i. 0; kbd_head = 0; kbd_tail = 0; shift_held = 0 };
  keys = [];
  pmm = record { bitmap = λ i. 0; total_pages = 65536; used_pages = 0 };
  memory = λ a. 0;
}

abbrev idle_cpu : Registers
idle_cpu = record { eax = 0; ebx = 0; ecx = 0; edx = 0 }

wrappers_agree_example :
    (write idle_cpu machine (pos 1) 16 2 ≡ (
      let (v, t) =
        sys_write (to_uint32 (pos 1)) (λ i. machine.memory (add32 16 i)) 2 (view machine) in
      some (to_int32 (to_uint32 v), put t machine)))
    × (read idle_cpu machine (pos 1) 16 2
        ≡ int_of (
            after_read
              (record idle_cpu { eax = 3; ebx = to_uint32 (pos 1); ecx = 16; edx = 2 })
              machine
              (sys_read (to_uint32 (pos 1)) (λ i. machine.memory (add32 16 i)) 2 (view machine))))
    × (open_path idle_cpu machine 16 ≡ (
        let (v, t) = sys_open (string_at (2 ^ 32) machine.memory 16) (view machine) in
        some (to_int32 (to_uint32 v), put t machine)))
    × (close idle_cpu machine (pos 1) ≡ (
        let (v, t) = sys_close (to_uint32 (pos 1)) (view machine) in
        some (to_int32 (to_uint32 v), put t machine)))
    × (getpid idle_cpu machine ≡ some (to_int32 (sys_getpid (view machine)), machine))
    × (uptime idle_cpu machine ≡ some (sys_uptime machine, machine))
    × (readdir idle_cpu machine 16 (pos 4)
        ≡ (let (v, t) = sys_readdir 16 (pos 4) machine in some (to_int32 (to_uint32 v), t)))
    × (meminfo idle_cpu machine 16
        ≡ (let (v, t) = sys_meminfo 16 machine in some (to_int32 (to_uint32 v), t)))
    × (ps idle_cpu machine 16 (pos 4)
        ≡ (let (v, t) = sys_ps 16 (pos 4) machine in some (to_int32 (to_uint32 v), t)))
    × (exit idle_cpu machine (pos 7)
        ≡ (let (t, other) = sys_exit (pos 7) machine in if other then switched t else halted t))
wrappers_agree_example =
    wrappers_agree idle_cpu machine (pos 1) (pos 4) (pos 7) 16 2 (omega arith) (omega arith)
