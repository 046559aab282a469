-- ===== src/Launch/Startup/Shell.antt =====
-- tools/mkramfs.c, kernel/kernel.c, kernel/fs/ramfs.c and kernel/proc/exec.c together: from the
-- directory that was packed to the program in memory.
use lightstreak_os.Base.{
  ℕ, ◌+◌, ◌-◌, ◌^◌, ◌<◌, ◌≤◌, ◌≡◌, ◌≢◌, refl, ap, sym, subst, ◌∙◌, false, Option, some, List, [],
  ◌∷◌, arith, length, get_or, inl, ltb, update, if◌then◌else◌,
}
use lightstreak_os.Heap.{heap_init, hdr_size}
use lightstreak_os.Heap.Blocks.{Block, IsHeap}
use lightstreak_os.Heap.Frame.{IsWithin}
use lightstreak_os.Mkramfs.{DirEntry, collect, mkramfs, max_files}
use lightstreak_os.Mkramfs.Held.{Held}
use lightstreak_os.Mkramfs.RoundTrip.{mkramfs_loads}
use lightstreak_os.Process.{process_init}
use lightstreak_os.Ramfs.{Ramfs}
use lightstreak_os.Ramfs.Image.{HostFile, IsNew, AreDistinct, IsStored, AreStored}
use lightstreak_os.Ramfs.Initramfs.{initramfs_load}
use lightstreak_os.Scheduler.{proc_ready, scheduler_add}
use lightstreak_os.Scheduler.Members.{scheduler_add-behind}
use lightstreak_os.Syscall.{max_fds}
use lightstreak_os.Launch.{
  user_load_addr, Launch, pcb_of, closed_fd, standard_fd, exec, scheduler_init,
}
use lightstreak_os.Launch.Idle.{halts, idles, scheduler_init-Idling}
use lightstreak_os.Launch.Room.{exec_room, no_halt, scheduler_init-IsRoomy}
use lightstreak_os.Heap.Room.{HasRoom, HasRoom-le, IsRoomy}
use lightstreak_os.Process.Room.{process_room}
use lightstreak_os.Launch.Programs.{IsRunning, Executed, unable, runs, exec_runs}
use lightstreak_os.Launch.Startup.{
  BootModule, BootInfo, heap_base, heap_bytes, hello, start_heap, start_files, start_timer,
  open_console, unpack, load_module, load_shell, startup,
}
use lightstreak_os.Launch.Startup.Files.{IsReady, ready-AreFresh, Held-frame}
use lightstreak_os.Launch.Startup.Placement.{
  EndBelow, EndBelow-le, flagged-has_modules, heap_base-le, heap_base_behind,
}
use lightstreak_os.Launch.Startup.Readied.{
  readied, counted, readied-kernel, readied-run_queue, readied-IsReady, counted-IsHeap,
}
use lightstreak_os.Launch.Startup.Packed.{shell_bin, HasShell, IsModule, loaded_shell}

-- The kernel has started: the bytes of the shell stand where it jumps to, and its process is ready
-- in the run queue, behind the head, with standard input, output and error open.
pub record IsStarted (f : HostFile) (out : Option (Option (Launch Ramfs))) : Type 0 where
  pub process : ℕ
  pub after : Launch Ramfs
  pub solid : process ≢ 0
  pub program :
      (x : ℕ)
      → x < length f.content
      → after.kernel.heap.bytes (user_load_addr + x) ≡ get_or f.content x 0
  pub ready : (after.sched.procs process).state ≡ proc_ready
  pub queued : (after.sched.procs after.sched.run_queue).next ≡ process
  pub console :
      (fd : ℕ)
      → fd < max_fds
      → after.fd_tables process fd ≡ (if ltb fd 3 then standard_fd else closed_fd)
  pub result : out ≡ some (some after)

module _ (kthread_entry kernel_dir idle_fn shell_trampoline : ℕ) where
  -- What `load_module` comes to, on the state in which the idle process runs.
  module_loads :
      (es : List DirEntry) (front back : List HostFile) (f : HostFile) (m : BootModule)
      (s : Launch Ramfs) (bs : List Block)
      → HasShell es front f back
      → IsReady s.vfs
      → Held s.kernel.heap.bytes m.mod_start (mkramfs es)
      → m.mod_start + length (mkramfs es) < 2 ^ 32
      → IsHeap s.kernel.heap bs
      → s.kernel.heap.heap_end_addr ≤ user_load_addr
      → Executed kthread_entry kernel_dir shell_trampoline
          (unpack m s)
          (1 + length front)
          (exec kthread_entry kernel_dir shell_trampoline shell_bin (unpack m s))
        × IsStored f ((unpack m s).vfs.disk.files (1 + length front))
  unfolding unpack
  module_loads es front back f m s bs h r held below v low =
      let (st, before) =
        mkramfs_loads es s.kernel.heap.bytes m.mod_start 1 s.vfs.disk h.plain
          (subst AreDistinct (sym h.files) h.distinct) held below r.prefix
          (ready-AreFresh s.vfs (collect max_files es) r
            (subst (IsNew record { name = hello; content = [] }) (sym h.files) h.no_hello))
          (omega (arith, h.room, ap length h.files)) in
      let (opens, live, here) =
        loaded_shell es front back f h s.vfs.disk
          (initramfs_load s.kernel.heap.bytes m.mod_start s.vfs.disk) r.first
          (subst (AreStored (initramfs_load s.kernel.heap.bytes m.mod_start s.vfs.disk) 1) h.files
            st)
          before in
      (
        exec_runs kthread_entry kernel_dir shell_trampoline shell_bin (unpack m s)
            (1 + length front) bs v low r.mounted opens live
            (omega (arith, here.sized, h.nonempty)),
        here,
      )

  load_shell_lem :
      (mbi : BootInfo) (es : List DirEntry) (m : BootModule) (bytes : ℕ → ℕ) (s t : Launch Ramfs)
      (p : ℕ)
      → IsModule bytes mbi es m
      → exec kthread_entry kernel_dir shell_trampoline shell_bin (unpack m s) ≡ some (p, t)
      → load_shell kthread_entry kernel_dir idle_fn shell_trampoline mbi s ≡ some t
  unfolding load_shell load_module
  load_shell_lem mbi es m bytes s t p i e =
      rw (load_shell, i.first)
        (rw (flagged-has_modules mbi m i.others i.flagged i.first) (rw (load_module, e) refl))

  startup_goes_on :
      (kernel_end : ℕ) (mbi : BootInfo) (s idle t : Launch Ramfs)
      → let heaped = start_heap kernel_end mbi s in
        scheduler_init kthread_entry kernel_dir idle_fn
            (record heaped { kernel = process_init heaped.kernel })
          ≡ some (some idle)
        → load_shell kthread_entry kernel_dir idle_fn shell_trampoline mbi
            (open_console (start_files (start_timer idle)))
          ≡ some t
        → startup kthread_entry kernel_dir idle_fn shell_trampoline kernel_end mbi s ≡ some (some t)
  unfolding startup
  startup_goes_on kernel_end mbi s idle t e l = rw (startup, e) (rw (l) refl)

  module _ (kernel_end : ℕ) (mbi : BootInfo) (s : Launch Ramfs) where
    after_idle :
        (es : List DirEntry) (front back : List HostFile) (f : HostFile) (m : BootModule)
        (idle : Launch Ramfs)
        → HasShell es front f back
        → IsModule s.kernel.heap.bytes mbi es m
        → m.mod_end ≤ heap_base kernel_end mbi
        → heap_base kernel_end mbi + heap_bytes ≤ user_load_addr
        → IsWithin (counted kernel_end mbi s).kernel.heap idle.kernel.heap
        → IsRoomy (heap_bytes - hdr_size - process_room) idle.kernel.heap
        → idle.sched.run_queue ≢ 0
        → scheduler_init kthread_entry kernel_dir idle_fn (counted kernel_end mbi s)
          ≡ some (some idle)
        → IsStarted f (startup kthread_entry kernel_dir idle_fn shell_trampoline kernel_end mbi s)
    unfolding counted start_heap process_init heap_init open_console readied unpack start_files
    after_idle es front back f m idle h i ends low w r q e =
        let (done, here) =
          module_loads es front back f m (readied idle) w.blocks h (readied-IsReady idle) held
            (omega (arith, i.ends, ends, low))
            (subst (λ k. IsHeap k.heap w.blocks) (sym kept) w.valid)
            (omega (arith, low, w.end, ap (λ k. k.heap.heap_end_addr) kept)) in
        elim done [
          | unable t sched full e2 ↦ absurd (
              full r.blocks (subst (λ k. IsHeap k.heap r.blocks) (sym kept) r.valid) (
                HasRoom-le (heap_bytes - hdr_size - process_room) exec_room r.blocks (omega arith)
                  r.room))
          | runs p t run e2 ↦ record {
            process = p;
            after = t;
            solid = run.solid;
            program = λ x l. run.program x (omega (arith, l, here.sized)) ∙ here.held x l;
            ready = subst (λ d. (d.procs p).state ≡ proc_ready) (sym run.queued) (behind p run).1;
            queued = subst (λ d. (d.procs d.run_queue).next ≡ p) (sym run.queued) (behind p run).0;
            console = run.console;
            result = goes_on p t e2;
          }
        ]
      where
        kept : (readied idle).kernel ≡ idle.kernel
        kept = readied-kernel idle

        behind :
            (p : ℕ) {t : Launch Ramfs}
            (run : IsRunning kthread_entry kernel_dir shell_trampoline
              (unpack m (readied idle))
              (1 + length front)
              p
              t)
            → let d = scheduler_add p (record (unpack m (readied idle)).sched {
              procs = update (unpack m (readied idle)).sched.procs p (pcb_of run.pcb);
            }) in
              ((d.procs d.run_queue).next ≡ p) × ((d.procs p).state ≡ proc_ready)
        behind p run =
            scheduler_add-behind p
              (record (unpack m (readied idle)).sched {
                procs = update (unpack m (readied idle)).sched.procs p (pcb_of run.pcb);
              })
              run.solid (subst (λ x. x ≢ 0) (sym (readied-run_queue idle)) q)

        held : Held (readied idle).kernel.heap.bytes m.mod_start (mkramfs es)
        held =
            Held-frame s.kernel.heap.bytes (readied idle).kernel.heap.bytes (mkramfs es) m.mod_start
              (λ x l.
                ap (λ k. k.heap.bytes x) kept ∙ w.outside x (inl (omega (arith, l, i.ends, ends))))
              i.held

        goes_on :
            (p : ℕ) (t : Launch Ramfs)
            → exec kthread_entry kernel_dir shell_trampoline shell_bin (unpack m (readied idle))
              ≡ some (p, t)
            → startup kthread_entry kernel_dir idle_fn shell_trampoline kernel_end mbi s
              ≡ some (some t)
        goes_on p t e2 =
            startup_goes_on kernel_end mbi s idle t e
              (load_shell_lem mbi es m s.kernel.heap.bytes (readied idle) t p i e2)

  -- For a kernel that starts with an empty run queue, whose first module holds the image that
  -- `mkramfs` makes of a directory with a program named `shell.bin` that is not empty (no file
  -- named `hello.txt`, different names without a NUL, contents of at most 32 KB, at most 63 files),
  -- with bit 3 of the flags set, where neither the kernel nor a module ends above 0x400000 and the
  -- kernel does not end at 0: the start returns and does not halt, the bytes of the program stand
  -- at 0x600000, and a process for it stands ready in the run queue, next behind the head, with the
  -- first three of its 32 descriptors open and the others closed.
  pub startup_loads_shell :
      (es : List DirEntry) (front back : List HostFile) (f : HostFile) (m : BootModule)
      (kernel_end : ℕ) (mbi : BootInfo) (s : Launch Ramfs)
      → HasShell es front f back
      → IsModule s.kernel.heap.bytes mbi es m
      → 0 < kernel_end
      → kernel_end ≤ 0x400000
      → EndBelow 0x400000 mbi.mods
      → s.sched.run_queue ≡ 0
      → IsStarted f (startup kthread_entry kernel_dir idle_fn shell_trampoline kernel_end mbi s)
  unfolding counted start_heap
  startup_loads_shell es front back f m kernel_end mbi s h i pos low mods_low empty =
      let (al, behind, modules, _) =
        heap_base_behind kernel_end mbi (omega (arith, low))
          (EndBelow-le 0x400000 0xFFFFF000 mbi.mods (omega arith) mods_low) in
      let ends = subst (EndBelow (heap_base kernel_end mbi)) i.first (modules i.flagged) in
      let fits : heap_base kernel_end mbi + heap_bytes ≤ user_load_addr =
        omega (arith, heap_base-le kernel_end mbi low mods_low) in
      let whole : Block = record { size = heap_bytes - hdr_size; used = false } in
      let valid =
        counted-IsHeap kernel_end mbi s (omega (arith, pos, behind)) al (omega (arith, fits)) in
      let room : HasRoom (heap_bytes - hdr_size) (whole ∷ []) = inl (refl, omega arith) in
      elim (scheduler_init-Idling kthread_entry kernel_dir idle_fn (counted kernel_end mbi s)
        (whole ∷ []) valid empty) [
          | halts k e out ↦ absurd (
              no_halt kthread_entry kernel_dir idle_fn (heap_bytes - hdr_size)
                (counted kernel_end mbi s) (whole ∷ []) k valid (omega arith) room e)
          | idles p idle ready out ↦
              after_idle kernel_end mbi s es front back f m idle h i ends.0 fits ready.heap
                (scheduler_init-IsRoomy kthread_entry kernel_dir idle_fn (heap_bytes - hdr_size)
                  (counted kernel_end mbi s) idle (whole ∷ []) valid (omega arith) room out)
                (λ z. ready.solid (sym ready.ring.head ∙ z)) out
        ]
