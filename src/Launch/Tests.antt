-- ===== src/Launch/Tests.antt =====
-- kernel/kernel.c and kernel/proc/exec.c: a module of one file, the shell, behind the kernel.
use lightstreak_os.Base.{
  ℕ, ◌+◌, ◌-◌, ◌<◌, ◌≤◌, ◌≡◌, ◌≢◌, refl, ap, true, false, none, some, List, [], ◌∷◌, arith, length,
  get_or, ◌==◌, ◌%◌, ◌⊎◌,
}
use lightstreak_os.Base.Int.{pos, minus_one}
use lightstreak_os.Base.Text.{text}
use lightstreak_os.Heap.{Heap, heap_init}
use lightstreak_os.Heap.Blocks.{IsHeap}
use lightstreak_os.Heap.Release.{heap_init-IsHeap}
use lightstreak_os.Mkramfs.{
  DirEntry, collect, word_bytes, padded, entry_table, file_data, image, mkramfs,
}
use lightstreak_os.Mkramfs.Held.{Held_of_bytes, IsText}
use lightstreak_os.Mkramfs.RoundTrip.{ArePlain}
use lightstreak_os.Ramfs.{Ramfs, RamfsFile, ramfs_open, find_file, skip_slash, str_eq, first_index}
use lightstreak_os.Ramfs.Image.{HostFile, AreDistinct}
use lightstreak_os.Scheduler.{Sched, proc_ready}
use lightstreak_os.Vfs.{ramfs_ops}
use lightstreak_os.Launch.{Launch, exec}
use lightstreak_os.Launch.Programs.{Executed, exec_runs}
use lightstreak_os.Launch.Startup.{BootModule, BootInfo, heap_base, startup}
use lightstreak_os.Launch.Startup.Packed.{HasShell, IsModule, shell_bin}
use lightstreak_os.Launch.Startup.Placement.{EndBelow, IsFlagged, IsIn, heap_base_behind}
use lightstreak_os.Launch.Startup.Shell.{IsStarted, startup_loads_shell}

abbrev shell : HostFile
shell = record { name = text "shell.bin"; content = 0xEB ∷ 0xFE ∷ [] }

abbrev directory : List DirEntry
directory =
    record {
      d_name = text "shell.bin";
      is_regular = true;
      is_readable = true;
      content = 0xEB ∷ 0xFE ∷ [];
    }
    ∷ []

abbrev boot_memory : ℕ → ℕ
boot_memory a = get_or (mkramfs directory) (a - 0x200000) 0

image_size : length (mkramfs directory) ≡ 82
unfolding mkramfs image collect entry_table padded word_bytes file_data
image_size = refl

abbrev first_module : BootModule
first_module = record { mod_start = 0x200000; mod_end = 0x200052 }

abbrev boot_info : BootInfo
boot_info = record { flags = 8; mods = first_module ∷ [] }

abbrev blank : Heap
blank = record {
  hdr = λ _. record { magic = 0; size = 0; used = 0; next = 0 };
  bytes = boot_memory;
  heap_head = 0;
  heap_start_addr = 0;
  heap_end_addr = 0;
  heap_used = 0;
}

abbrev no_processes : Sched
no_processes = record {
  procs = λ _. record {
    pid = 0;
    kernel_stack_top = 0;
    state = proc_ready;
    exit_code = pos 0;
    next = 0;
  };
  current = 0;
  run_queue = 0;
  tick_count = 0;
  ticks_per_second = 100;
  esp0 = 0;
}

abbrev free_slot : RamfsFile
free_slot = record { name = []; bytes = λ i. 0; size = 0; used = false }

abbrev power_on : Launch Ramfs
power_on = record {
  kernel = record { heap = blank; words = λ _. 0; next_pid = 0 };
  vfs = record { mounted_fs = none; disk = record { files = λ i. free_slot } };
  sched = no_processes;
  fd_tables = λ _ _. record { file_idx = minus_one; offset = 0; in_use = false };
}

nonzero : {c : ℕ} → (c == 0) ≡ false → ◌≢◌ {A = ℕ} c 0
nonzero {c} h e = absurd (ground (arith, h, e))

shell_text : IsText (text "shell.bin")
unfolding IsText
shell_text = (
  nonzero refl,
  (
    nonzero refl,
    (
      nonzero refl,
      (
        nonzero refl,
        (nonzero refl, (nonzero refl, (nonzero refl, (nonzero refl, (nonzero refl, tt))))),
      ),
    ),
  ),
)

packed : HasShell directory [] shell []
unfolding collect ArePlain AreDistinct
packed = record {
  files = refl;
  plain = (record { text = shell_text; fits = omega arith }, tt);
  distinct = (tt, tt);
  no_hello = ((λ e. absurd (omega (arith, ap (λ l. get_or l 0 0) e))), tt);
  named = refl;
  nonempty = omega arith;
  room = omega arith;
}

loaded : IsModule boot_memory boot_info directory first_module
loaded = record {
  flagged = refl;
  others = [];
  first = refl;
  held =
      Held_of_bytes boot_memory (mkramfs directory) 0x200000
        (λ x l. ap (λ j. get_or (mkramfs directory) j 0) (omega arith));
  ends = omega (arith, image_size);
}

startup_loads_shell_example :
    IsStarted shell (startup 0x100100 0x9000 0x100200 0x100300 0x180000 boot_info power_on)
startup_loads_shell_example =
    startup_loads_shell 0x100100 0x9000 0x100200 0x100300 directory [] [] shell first_module
      0x180000 boot_info power_on packed loaded (omega arith) (omega arith) (omega arith, tt) refl

heap_base_behind_example :
    let base = heap_base 0x180000 boot_info in
    (base % 4096 ≡ 0)
    × (0x180000 ≤ base)
    × (IsFlagged boot_info → EndBelow base boot_info.mods)
    × ((base < 0x180000 + 4096)
        ⊎ (IsFlagged boot_info
            × ((m : BootModule) × IsIn m boot_info.mods × (base < m.mod_end + 4096))))
heap_base_behind_example = heap_base_behind 0x180000 boot_info (omega arith) (omega arith, tt)

-- A kernel with ramfs mounted that holds the shell, and a heap of 256 KB.
abbrev shell_slot : RamfsFile
shell_slot = record {
  name = text "shell.bin";
  bytes = λ i. get_or shell.content i 0;
  size = 2;
  used = true;
}

abbrev running : Launch Ramfs
running = record {
  kernel = record { heap = heap_init 0x201000 0x40000 blank; words = λ _. 0; next_pid = 2 };
  vfs = record { mounted_fs = some ramfs_ops; disk = record { files = λ i. shell_slot } };
  sched = no_processes;
  fd_tables = λ _ _. record { file_idx = minus_one; offset = 0; in_use = false };
}

running-IsHeap : IsHeap running.kernel.heap (record { size = 0x40000 - 16; used = false } ∷ [])
running-IsHeap =
    heap_init-IsHeap 0x201000 0x40000 blank (omega arith) refl refl (omega arith) (omega arith)

finds : ramfs_open shell_bin running.vfs.disk ≡ some 0
unfolding ramfs_open find_file skip_slash str_eq first_index
finds = refl

low : running.kernel.heap.heap_end_addr ≤ 0x600000
unfolding heap_init
low = omega arith

exec_runs_example :
    Executed 0x100100 0x9000 0x100300 running 0 (exec 0x100100 0x9000 0x100300 shell_bin running)
exec_runs_example =
    exec_runs 0x100100 0x9000 0x100300 shell_bin running 0
      (record { size = 0x40000 - 16; used = false } ∷ []) running-IsHeap low refl finds
      (record { in_range = omega arith; used = refl; sized = omega arith }) (omega arith)
