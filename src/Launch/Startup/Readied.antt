-- ===== src/Launch/Startup/Readied.antt =====
-- kernel/kernel.c: the states between the steps of the start: the fresh heap for the idle process, and
-- the files and the console for the module.
use lightstreak_os.Base.{
  ℕ, ◌+◌, ◌-◌, ◌%◌, ◌^◌, ◌<◌, ◌≡◌, refl, false, [], ◌∷◌, arith, ◌==◌, Bool-cases, inl, inr,
}
use lightstreak_os.Heap.{hdr_size}
use lightstreak_os.Heap.Blocks.{IsHeap}
use lightstreak_os.Heap.Release.{heap_init-IsHeap}
use lightstreak_os.Process.{process_init}
use lightstreak_os.Ramfs.{Ramfs}
use lightstreak_os.Scheduler.{timer_init}
use lightstreak_os.Launch.{Launch}
use lightstreak_os.Launch.Startup.{
  BootInfo, heap_base, heap_bytes, start_heap, start_files, start_timer, open_console,
}
use lightstreak_os.Launch.Startup.Files.{IsReady, try_vfs-IsReady}

-- The state in which the module is unpacked: as the idle process left it, with the files.
unfoldable pub readied : Launch Ramfs → Launch Ramfs
readied idle = open_console (start_files (start_timer idle))

-- The state in which the idle process is made, on a heap behind the module.
unfoldable pub counted : ℕ → BootInfo → Launch Ramfs → Launch Ramfs
counted kernel_end mbi s =
    let heaped = start_heap kernel_end mbi s in
    record heaped { kernel = process_init heaped.kernel }

module _ (idle : Launch Ramfs) where
  pub readied-kernel : (readied idle).kernel ≡ idle.kernel
  unfolding readied open_console start_files start_timer timer_init
  readied-kernel = elim (Bool-cases (idle.sched.current == 0)) [
    | inl e ↦ rw (e) refl
    | inr n ↦ rw (n) refl
  ]

  pub readied-run_queue : (readied idle).sched.run_queue ≡ idle.sched.run_queue
  unfolding readied open_console start_files start_timer timer_init
  readied-run_queue = elim (Bool-cases (idle.sched.current == 0)) [
    | inl e ↦ rw (e) refl
    | inr n ↦ rw (n) refl
  ]

  pub readied-IsReady : IsReady (readied idle).vfs
  unfolding readied open_console start_files start_timer timer_init
  readied-IsReady = elim (Bool-cases (idle.sched.current == 0)) [
    | inl e ↦ rw (e) (try_vfs-IsReady idle.vfs)
    | inr n ↦ rw (n) (try_vfs-IsReady idle.vfs)
  ]

module _ (kernel_end : ℕ) (mbi : BootInfo) (s : Launch Ramfs) where
  pub counted-IsHeap :
      0 < heap_base kernel_end mbi
      → heap_base kernel_end mbi % 4096 ≡ 0
      → heap_base kernel_end mbi + heap_bytes < 2 ^ 32
      → IsHeap
          (counted kernel_end mbi s).kernel.heap
          (record { size = heap_bytes - hdr_size; used = false } ∷ [])
  unfolding counted start_heap process_init
  counted-IsHeap pos al below =
      heap_init-IsHeap (heap_base kernel_end mbi) heap_bytes s.kernel.heap pos (omega (arith, al))
        refl (omega arith) below
