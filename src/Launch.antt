-- ===== src/Launch.antt =====
-- The start of programs: kernel/proc/exec.c, `scheduler_init` of kernel/proc/scheduler.c, and, in
-- Launch/Startup, what `kmain` of kernel/kernel.c does with the heap, the file system and the
-- processes. A process is its address, 0 is NULL; `heap.bytes` are the bytes of all of memory, those
-- behind the heap included; the addresses of assembly routines and of the entry functions are
-- arguments. `none` as a whole means that the heap ran out of fuel; messages are not modelled.
pub mod Startup
pub mod Loaded
pub mod Programs
pub mod Idle
pub mod Room
mod Tests
use lightstreak_os.Base.{
  ℕ, zero, suc, ◌+◌, ◌*◌, Bool, true, false, Option, none, some, List, ◌==◌, if◌then◌else◌, update,
  for_range,
}
use lightstreak_os.Base.Int.{ℤ, pos, negsuc, minus_one}
use lightstreak_os.Base.Memory.{Memory, store_bytes}
use lightstreak_os.Heap.{Heap, kmalloc, kfree}
use lightstreak_os.Process.{NewProcess, Kernel, process_create}
use lightstreak_os.Scheduler.{Pcb, Sched, proc_ready, proc_running, set_state, scheduler_add}
use lightstreak_os.Syscall.{FdEntry, max_fds}
use lightstreak_os.Vfs.{Vfs, vfs_open, vfs_read}

abbrev pub user_load_addr : ℕ
user_load_addr = 0x600000

abbrev pub buffer_size : ℕ
buffer_size = 32 * 1024

pub record Launch (F : Type 0) : Type 0 where
  pub kernel : Kernel
  pub vfs : Vfs F
  pub sched : Sched
  pub fd_tables : ℕ → ℕ → FdEntry

-- The fields that `process_create` sets; the others are those of zeroed memory.
pub pcb_of : NewProcess → Pcb
pcb_of r = record {
  pid = r.pid;
  kernel_stack_top = r.kernel_stack_top;
  state = proc_ready;
  exit_code = pos 0;
  next = 0;
}

abbrev pub closed_fd : FdEntry
closed_fd = record { file_idx = minus_one; offset = 0; in_use = false }

abbrev pub standard_fd : FdEntry
standard_fd = record closed_fd { in_use = true }

-- All descriptors are closed, then those for standard input, output and error opened.
pub standard_fds : (ℕ → FdEntry) → ℕ → FdEntry
standard_fds fds =
    let closed = for_range max_fds 0 (λ i t. update t i closed_fd) fds in
    update (update (update closed 0 standard_fd) 1 standard_fd) 2 standard_fd

-- The bytes are in one memory, where the two regions may overlap.
pub mem_copy_exec : ℕ → ℕ → ℕ → Memory → Memory
mem_copy_exec dst src n mem = for_range n 0 (λ i m. update m (dst + i) (m (src + i))) mem

-- `(int)n > 0` as the number of bytes, else 0.
pub count_of : ℤ → ℕ
count_of (pos n) = n
count_of (negsuc n) = 0

abbrev pub idle_pcb : Pcb → Pcb
idle_pcb c = record c { pid = 0 }

module _ {F : Type 0} where
  abbrev pub with_heap : Heap → Launch F → Launch F
  with_heap h s = record s { kernel = record s.kernel { heap = h } }

  -- `kfree(tmpbuf)` with the memory `mem`.
  pub free_buffer : ℕ → Memory → Launch F → Launch F
  free_buffer tmpbuf mem s = with_heap (kfree tmpbuf (record s.kernel.heap { bytes = mem })) s

  -- The new process gets its descriptors and joins the run queue.
  pub admit : ℕ → NewProcess → Kernel → Launch F → Launch F
  admit p r k s = record s {
    kernel = k;
    sched = scheduler_add p (record s.sched { procs = update s.sched.procs p (pcb_of r) });
    fd_tables = update s.fd_tables p (standard_fds (s.fd_tables p));
  }

  module _ (kthread_entry kernel_dir entry : ℕ) where
    -- The kernel thread for the program that is loaded.
    pub spawn : Launch F → Option (ℕ × Launch F)
    spawn s = elim (process_create kthread_entry kernel_dir entry s.kernel) [
      | none ↦ none
      | some (none, k) ↦ some (0, record s { kernel = k })
      | some (some (p, r), k) ↦ some (p, admit p r k s)
    ]

    -- The file goes through the buffer at `tmpbuf` to the address where programs run.
    pub load : ℕ → ℕ → Launch F → Option (ℕ × Launch F)
    load file_idx tmpbuf s =
        let bytes = s.kernel.heap.bytes in
        let (size, buf) = vfs_read (pos file_idx) (λ i. bytes (tmpbuf + i)) 0 buffer_size s.vfs in
        let n = count_of size in
        let read = store_bytes tmpbuf buffer_size buf bytes in
        let copied = mem_copy_exec user_load_addr tmpbuf n read in
        let spawned = spawn (free_buffer tmpbuf copied s) in
        if n == 0 then some (0, free_buffer tmpbuf read s) else spawned

    pub exec : List ℕ → Launch F → Option (ℕ × Launch F)
    exec filename s = elim (vfs_open filename s.vfs) [
      | none ↦ some (0, s)
      | some file_idx ↦ elim (kmalloc buffer_size s.kernel.heap) [
        | none ↦ none
        | some (tmpbuf, h) ↦
            if tmpbuf == 0 then some (0, with_heap h s) else load file_idx tmpbuf (with_heap h s)
      ]
    ]

    -- The idle process gets the number 0 and is the current one; `none` inside means that the
    -- kernel halts without it.
    pub scheduler_init : Launch F → Option (Option (Launch F))
    scheduler_init s = elim (process_create kthread_entry kernel_dir entry s.kernel) [
      | none ↦ none
      | some (none, k) ↦ some none
      | some (some (p, r), k) ↦
          let created = update s.sched.procs p (idle_pcb (pcb_of r)) in
          let added = scheduler_add p (record s.sched { procs = created }) in
          let running = set_state p proc_running added.procs in
          some
            (some (record s { kernel = k; sched = record added { current = p; procs = running } }))
    ]
