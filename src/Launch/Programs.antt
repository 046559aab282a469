-- ===== src/Launch/Programs.antt =====
-- kernel/proc/exec.c: a file of ramfs becomes a process.
use lightstreak_os.Base.{
  ℕ, zero, suc, ◌+◌, ◌-◌, ◌<◌, ◌≤◌, ◌≡◌, ◌≢◌, refl, ap, ◌∙◌, inl, inr, Option, some, List, min,
  arith, ◌&&◌, leb, ltb, ==_ne, ==_self, if◌then◌else◌, update, for_range,
}
use lightstreak_os.Base.Int.{ℤ, pos}
use lightstreak_os.Base.Memory.{Memory}
use lightstreak_os.Heap.{Heap, kmalloc}
use lightstreak_os.Heap.Blocks.{Block, UsedAt, IsHeap}
use lightstreak_os.Heap.Frame.{IsWithin, IsGiven, kmalloc-IsGiven, rewritten-IsHeap, kfree-IsWithin}
use lightstreak_os.Process.{NewProcess, Kernel}
use lightstreak_os.Process.Creation.{used-ne}
use lightstreak_os.Syscall.Files.{vfs_read_lem}
use lightstreak_os.Ramfs.{Ramfs, ramfs_open}
use lightstreak_os.Ramfs.Data.{IsLive, read_bounds}
use lightstreak_os.Scheduler.{scheduler_add}
use lightstreak_os.Syscall.{FdEntry, max_fds}
use lightstreak_os.Vfs.{Vfs, ramfs_ops, vfs_open, vfs_read}
use lightstreak_os.Launch.{
  user_load_addr, buffer_size, Launch, pcb_of, closed_fd, standard_fd, standard_fds, count_of,
  with_heap, free_buffer, admit, spawn, load, exec,
}
use lightstreak_os.Launch.Room.{IsFull, no_buffer, no_process, Refused-IsFull}
use lightstreak_os.Launch.Loaded.{copied, copied-loaded, not_spawned, spawned, spawn-Spawned}

reset_loop :
    (n i x : ℕ) (fds : ℕ → FdEntry)
    → for_range n i (λ j t. update t j closed_fd) fds x
      ≡ (if leb i x && ltb x (i + n) then closed_fd else fds x)
unfolding for_range
reset_loop zero i x fds = ground arith
reset_loop (suc n) i x fds = ground (arith, reset_loop n (suc i) x (update fds i closed_fd))

-- The first three of the 32 descriptors are open, the others closed.
standard_fds_lem :
    (fds : ℕ → FdEntry) (fd : ℕ)
    → fd < max_fds
    → standard_fds fds fd ≡ (if ltb fd 3 then standard_fd else closed_fd)
unfolding standard_fds
standard_fds_lem fds fd h = ground (arith, reset_loop max_fds 0 fd fds)

vfs_open_lem :
    (filename : List ℕ) (v : Vfs Ramfs)
    → v.mounted_fs ≡ some ramfs_ops
    → vfs_open filename v ≡ ramfs_open filename v.disk
unfolding vfs_open
vfs_open_lem filename v m = rw (m, vfs_open) refl

-- The buffer has room for any file.
reads_all :
    (v : Vfs Ramfs) (i : ℕ) (buf : ℕ → ℕ)
    → v.mounted_fs ≡ some ramfs_ops
    → IsLive v.disk i
    → let got = vfs_read (pos i) buf 0 buffer_size v in
      (got.0 ≡ pos (v.disk.files i).size)
      × ((x : ℕ) → x < (v.disk.files i).size → got.1 x ≡ (v.disk.files i).bytes x)
reads_all v i buf m l =
    let (r, _, out) = read_bounds v.disk i buf 0 buffer_size l in
    let size : min buffer_size ((v.disk.files i).size - 0) ≡ (v.disk.files i).size =
      omega (arith, l.sized) in
    rw (vfs_read_lem v (pos i) buf 0 buffer_size m)
      (r ∙ ap pos size, λ x h. ground (arith, out x, h, l.sized))

module _ (kthread_entry kernel_dir entry : ℕ) where
  -- The file in slot `i` runs as process `p`.
  pub record IsRunning (s : Launch Ramfs) (i p : ℕ) (t : Launch Ramfs) : Type 0 where
    pub pcb : NewProcess
    pub solid : p ≢ 0
    pub pid : pcb.pid ≡ s.kernel.next_pid
    pub program :
        (x : ℕ)
        → x < (s.vfs.disk.files i).size
        → t.kernel.heap.bytes (user_load_addr + x) ≡ (s.vfs.disk.files i).bytes x
    pub queued :
        t.sched ≡ scheduler_add p (record s.sched { procs = update s.sched.procs p (pcb_of pcb) })
    pub console :
        (fd : ℕ) → fd < max_fds → t.fd_tables p fd ≡ (if ltb fd 3 then standard_fd else closed_fd)
    pub files : t.vfs ≡ s.vfs
    pub blocks : List Block
    pub valid : IsHeap t.kernel.heap blocks

  pub data Executed (s : Launch Ramfs) (i : ℕ) (out : Option (ℕ × Launch Ramfs)) : Type 0 where
    unable :
        (t : Launch Ramfs) → t.sched ≡ s.sched → IsFull s → out ≡ some (0, t) → Executed s i out
    runs : (p : ℕ) (t : Launch Ramfs) → IsRunning s i p t → out ≡ some (p, t) → Executed s i out

  -- A file that is not empty goes through the buffer, and a process is made.
  load-spawn :
      (s : Launch Ramfs) (i tmpbuf n : ℕ)
      → let got = vfs_read (pos i) (λ x. s.kernel.heap.bytes (tmpbuf + x)) 0 buffer_size s.vfs in
        got.0 ≡ pos n
        → 0 < n
        → load kthread_entry kernel_dir entry i tmpbuf s
          ≡ spawn kthread_entry kernel_dir entry
              (free_buffer tmpbuf (copied tmpbuf n got.1 s.kernel.heap.bytes) s)
  unfolding load count_of copied
  load-spawn s i tmpbuf n e h =
      rw (load, e) (rw (==_ne n 0 (λ z. absurd (omega (arith, z, h)))) refl)

  module _ (filename : List ℕ) (s : Launch Ramfs) (i : ℕ)
      (o : vfs_open filename s.vfs ≡ some i) where
    exec_full :
        (h : Heap)
        → kmalloc buffer_size s.kernel.heap ≡ some (0, h)
        → exec kthread_entry kernel_dir entry filename s ≡ some (0, with_heap h s)
    unfolding exec
    exec_full h e = rw (exec, o) (rw (e) refl)

    exec-load :
        (p : ℕ) (h : Heap)
        → kmalloc buffer_size s.kernel.heap ≡ some (p, h)
        → p ≢ 0
        → exec kthread_entry kernel_dir entry filename s
          ≡ load kthread_entry kernel_dir entry i p (with_heap h s)
    unfolding exec
    exec-load p h e np = rw (exec, o) (rw (e) (rw (==_ne p 0 np) refl))

  -- What follows the allocation of the buffer.
  load-Executed :
      (s : Launch Ramfs) (i tmpbuf k : ℕ) (h : Heap) (bs : List Block)
      (out : Option (ℕ × Launch Ramfs))
      → IsHeap h bs
      → UsedAt h.heap_start_addr bs tmpbuf k
      → tmpbuf + buffer_size ≤ h.heap_end_addr
      → h.heap_end_addr ≤ user_load_addr
      → s.vfs.mounted_fs ≡ some ramfs_ops
      → IsLive s.vfs.disk i
      → 0 < (s.vfs.disk.files i).size
      → kmalloc buffer_size s.kernel.heap ≡ some (tmpbuf, h)
      → out ≡ load kthread_entry kernel_dir entry i tmpbuf (with_heap h s)
      → Executed s i out
  unfolding free_buffer admit
  load-Executed s i tmpbuf k h bs out v u below low m l n got_buffer e =
      elim (spawn-Spawned kthread_entry kernel_dir entry s2 w.blocks w.valid) [
        | not_spawned t w2 full e2 ↦
            unable (with_heap t s2) refl
              (Refused-IsFull kthread_entry kernel_dir entry s
                (no_process tmpbuf h mem (record s2.kernel { heap = t }) got_buffer full))
              (e ∙ (loads ∙ e2))
        | spawned p r t w2 np pid e2 ↦
            runs p (admit p r t s2) (running p r t w2 np pid) (e ∙ (loads ∙ e2))
      ]
    where
      size : ℕ
      size = (s.vfs.disk.files i).size

      buf0 : ℕ → ℕ
      buf0 = λ x. h.bytes (tmpbuf + x)

      got : ℤ × (ℕ → ℕ)
      got = vfs_read (pos i) buf0 0 buffer_size s.vfs

      count : got.0 ≡ pos size
      count = (reads_all s.vfs i buf0 m l).0

      content : (x : ℕ) → x < size → got.1 x ≡ (s.vfs.disk.files i).bytes x
      content = (reads_all s.vfs i buf0 m l).1

      mem : Memory
      mem = copied tmpbuf size got.1 h.bytes

      s2 : Launch Ramfs
      s2 = free_buffer tmpbuf mem (with_heap h s)

      loads :
          load kthread_entry kernel_dir entry i tmpbuf (with_heap h s)
          ≡ spawn kthread_entry kernel_dir entry s2
      loads = load-spawn (with_heap h s) i tmpbuf size count n

      w : IsWithin (record h { bytes = mem }) s2.kernel.heap
      w = kfree-IsWithin tmpbuf k (record h { bytes = mem }) bs (rewritten-IsHeap mem h bs v) u

      running :
          (p : ℕ) (r : NewProcess) (t : Kernel)
          → IsWithin s2.kernel.heap t.heap
          → p ≢ 0
          → r.pid ≡ s2.kernel.next_pid
          → IsRunning s i p (admit p r t s2)
      running p r t w2 np pid = record {
        pcb = r;
        solid = np;
        pid = pid;
        program = λ x b.
            w2.outside (user_load_addr + x) (inr (omega (arith, low, w.end)))
            ∙ (w.outside (user_load_addr + x) (inr (omega (arith, low)))
                ∙ (copied-loaded tmpbuf size got.1 h.bytes (omega (arith, below, low))
                      (omega (arith, l.sized)) x b
                    ∙ content x b));
        queued = refl;
        console = λ fd b. rw (==_self p) (standard_fds_lem (s.fd_tables p) fd b);
        files = refl;
        blocks = w2.blocks;
        valid = w2.valid;
      }

  -- On a valid heap that ends at or below 0x600000, with ramfs mounted, `exec` of the name of a
  -- live file that is not empty returns: NULL, with the scheduler unchanged, and then the heap has
  -- no free block of 48 KB; or a process with the next number, which `scheduler_add` put into the
  -- run queue, with the first three of its 32 descriptors open and the others closed, the bytes of
  -- the file at 0x600000, the files unchanged and the heap valid.
  pub exec_runs :
      (filename : List ℕ) (s : Launch Ramfs) (i : ℕ) (bs : List Block)
      → IsHeap s.kernel.heap bs
      → s.kernel.heap.heap_end_addr ≤ user_load_addr
      → s.vfs.mounted_fs ≡ some ramfs_ops
      → ramfs_open filename s.vfs.disk ≡ some i
      → IsLive s.vfs.disk i
      → 0 < (s.vfs.disk.files i).size
      → Executed s i (exec kthread_entry kernel_dir entry filename s)
  exec_runs filename s i bs v low m o l n =
      start (kmalloc-IsGiven buffer_size s.kernel.heap bs v (omega arith) (omega arith))
    where
      found : vfs_open filename s.vfs ≡ some i
      found = vfs_open_lem filename s.vfs m ∙ o

      start :
          IsGiven buffer_size s.kernel.heap (kmalloc buffer_size s.kernel.heap)
          → Executed s i (exec kthread_entry kernel_dir entry filename s)
      start g = elim g.payload [
        | inl (null, same) ↦
            let e = g.result ∙ ap (λ q. some (q, g.after)) null in
            unable (with_heap g.after s) refl
              (Refused-IsFull kthread_entry kernel_dir entry s (no_buffer g.after e))
              (exec_full filename s i found g.after e)
        | inr (k, u, below) ↦
            load-Executed s i g.pointer k g.after g.within.blocks
              (exec kthread_entry kernel_dir entry filename s) g.within.valid u
              (omega (arith, below, g.within.end)) (omega (arith, low, g.within.end)) m l n g.result
              (exec-load filename s i found g.pointer g.after g.result
                (used-ne g.after.heap_start_addr g.pointer k g.within.blocks u))
      ]
