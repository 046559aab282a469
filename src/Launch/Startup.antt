-- ===== src/Launch/Startup.antt =====
-- kernel/kernel.c: what `kmain` does with the heap, the processes and the file system, in its order.
-- The processor's tables, the page allocator, paging and the devices, which it starts in between, have
-- models of their own and do not touch this state.
pub mod Placement
pub mod Files
pub mod Packed
pub mod Readied
pub mod Shell
use lightstreak_os.Base.{
  ℕ, ◌+◌, ◌-◌, ◌*◌, bit_and, Bool, true, false, ◌&&◌, not, Option, none, some, List, [], ◌∷◌, ltb,
  ◌==◌, if◌then◌else◌, update, add32, all_ones, length, get_or,
}
use lightstreak_os.Base.Int.{pos}
use lightstreak_os.Base.Text.{text}
use lightstreak_os.Heap.{heap_init}
use lightstreak_os.Process.{process_init}
use lightstreak_os.Ramfs.{Ramfs}
use lightstreak_os.Ramfs.Initramfs.{initramfs_load}
use lightstreak_os.Scheduler.{timer_init}
use lightstreak_os.Vfs.{Vfs, vfs_init, vfs_create, vfs_open, vfs_write, mount_ramfs}
use lightstreak_os.Launch.{Launch, standard_fds, exec, scheduler_init}

pub record BootModule : Type 0 where
  pub mod_start : ℕ
  pub mod_end : ℕ

-- The modules that the boot loader put into memory, and the flags that say whether they count.
pub record BootInfo : Type 0 where
  pub flags : ℕ
  pub mods : List BootModule

-- `mbi->flags & (1u << 3) && mbi->mods_count > 0`
unfoldable pub has_modules : BootInfo → Bool
has_modules mbi = not (bit_and mbi.flags 8 == 0) && ltb 0 (length mbi.mods)

unfoldable pub highest_end : List BootModule → ℕ → ℕ
highest_end [] safe = safe
highest_end (m ∷ ms) safe = highest_end ms (if ltb safe m.mod_end then m.mod_end else safe)

unfoldable pub safe_end : ℕ → BootInfo → ℕ
safe_end kernel_end mbi = if has_modules mbi then highest_end mbi.mods kernel_end else kernel_end

-- `(safe_end + 0xFFFu) & ~0xFFFu`
unfoldable pub heap_base : ℕ → BootInfo → ℕ
heap_base kernel_end mbi = bit_and (add32 (safe_end kernel_end mbi) 0xFFF) (all_ones - 0xFFF)

abbrev pub heap_bytes : ℕ
heap_bytes = 2 * 1024 * 1024

pub start_heap : ℕ → BootInfo → Launch Ramfs → Launch Ramfs
start_heap kernel_end mbi s = record s {
  kernel = record s.kernel { heap = heap_init (heap_base kernel_end mbi) heap_bytes s.kernel.heap };
}

abbrev pub hello : List ℕ
hello = text "hello.txt"

abbrev pub greeting : List ℕ
greeting = text "Hello from AnubhavOS!\n"

-- The file that the kernel writes to try the file system; that it is read back is only printed.
pub try_vfs : Vfs Ramfs → Vfs Ramfs
try_vfs v =
    let made = (vfs_create hello v).1 in
    elim (vfs_open hello made) [
      | none ↦ made
      | some idx ↦ (vfs_write (pos idx) (λ i. get_or greeting i 0) 0 (length greeting) made).1
    ]

-- `PIT_HZ_DEFAULT` is 100.
pub start_timer : Launch Ramfs → Launch Ramfs
start_timer s = record s { sched = (timer_init 100 s.sched).1 }

pub start_files : Launch Ramfs → Launch Ramfs
start_files s = record s { vfs = try_vfs (mount_ramfs (vfs_init s.vfs)) }

-- The descriptors of the current process, which is the idle process.
pub open_console : Launch Ramfs → Launch Ramfs
open_console s =
    let cur = s.sched.current in
    if cur == 0
    then s
    else record s { fd_tables = update s.fd_tables cur (standard_fds (s.fd_tables cur)) }

-- The files of the first module.
pub unpack : BootModule → Launch Ramfs → Launch Ramfs
unpack m s = record s {
  vfs = record s.vfs { disk = initramfs_load s.kernel.heap.bytes m.mod_start s.vfs.disk };
}

module _ (kthread_entry kernel_dir idle_fn shell_trampoline : ℕ) where
  -- Whether the shell could be loaded is not asked.
  pub load_module : BootModule → Launch Ramfs → Option (Launch Ramfs)
  load_module m s =
      elim (exec kthread_entry kernel_dir shell_trampoline (text "shell.bin") (unpack m s)) [
        | none ↦ none
        | some (p, t) ↦ some t
      ]

  pub load_shell : BootInfo → Launch Ramfs → Option (Launch Ramfs)
  load_shell mbi s = elim mbi.mods [
    | [] ↦ some s
    | m ∷ ms ↦ let run = load_module m s in if has_modules mbi then run else some s
  ]

  -- `none` inside means that the kernel halts without an idle process.
  pub startup : ℕ → BootInfo → Launch Ramfs → Option (Option (Launch Ramfs))
  startup kernel_end mbi s =
      let heaped = start_heap kernel_end mbi s in
      let counted = record heaped { kernel = process_init heaped.kernel } in
      elim (scheduler_init kthread_entry kernel_dir idle_fn counted) [
        | none ↦ none
        | some none ↦ some none
        | some (some idle) ↦ elim (load_shell mbi (open_console (start_files (start_timer idle)))) [
          | none ↦ none
          | some t ↦ some (some t)
        ]
      ]
