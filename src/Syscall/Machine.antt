-- ===== src/Syscall/Machine.antt =====
-- kernel/syscall/syscall.c: the state that all system calls share, and the calls on processes and
-- memory. The running process of the calls on descriptors is the scheduler's current one; `memory`
-- has the bytes of the address space it runs in, kept apart from the state of the kernel: what a call
-- would overwrite there through a pointer into the data of the kernel is not modelled.
use lightstreak_os.Base.{
  ℕ, zero, suc, Bool, true, false, ◌||◌, Option, none, some, List, [], ◌∷◌, ◌==◌, if◌then◌else◌,
  update, add32, length,
}
use lightstreak_os.Base.Memory.{Memory, store_word, store_string}
use lightstreak_os.Base.Int.{ℤ, pos, negsuc, minus_one}
use lightstreak_os.Vfs.{Vfs, vfs_readdir}
use lightstreak_os.Ramfs.{Dirent}
use lightstreak_os.Keyboard.{Keyboard}
use lightstreak_os.Pmm.{Pmm, pmm_get_free_pages}
use lightstreak_os.Scheduler.{
  ProcState, proc_ready, proc_running, proc_blocked, proc_zombie, Sched, timer_get_seconds,
  scheduler_tick,
}
use lightstreak_os.Syscall.{FdEntry, Process, Sys}

pub record Machine (F : Type 0) : Type 0 where
  pub sched : Sched
  pub fd_tables : ℕ → ℕ → FdEntry
  pub vfs : Vfs F
  pub console : List ℕ
  pub keyboard : Keyboard
  pub keys : List ℕ
  pub pmm : Pmm
  pub memory : ℕ → ℕ

-- An entry of a directory is 64 characters and the size.
pub store_dirents : ℕ → List Dirent → Memory → Memory
store_dirents a [] mem = mem
store_dirents a (d ∷ ds) mem =
    store_dirents (add32 a 68) ds (store_word (add32 a 64) d.size (store_string a d.name mem))

pub record PsEntry : Type 0 where
  pub pid : ℕ
  pub state : ℕ

pub store_ps : ℕ → List PsEntry → Memory → Memory
store_ps a [] mem = mem
store_ps a (e ∷ es) mem =
    store_ps (add32 a 8) es (store_word (add32 a 4) e.state (store_word a e.pid mem))

unfoldable pub state_number : ProcState → ℕ
state_number proc_ready = 0
state_number proc_running = 1
state_number proc_blocked = 2
state_number proc_zombie = 3

abbrev pub ps_entry : Sched → ℕ → PsEntry
ps_entry s p = record { pid = (s.procs p).pid; state = state_number (s.procs p).state }

-- The loop of `sys_ps` from the process `p` on, with room for `room` entries.
unfoldable pub ps_from : ℕ → ℕ → Sched → List PsEntry
ps_from zero p s = []
ps_from (suc room) p s =
    let q = (s.procs p).next in
    let rest = ps_from room q s in ps_entry s p ∷ (if q == 0 || q == s.current then [] else rest)

-- `int` as the number of places in an array.
pub places : ℤ → ℕ
places (pos n) = n
places (negsuc n) = 0

abbrev pub exited : ℤ → Sched → Sched
exited code s = record s {
  procs =
      update s.procs s.current
        (record (s.procs s.current) { state = proc_zombie; exit_code = code });
}

module _ {F : Type 0} where
  -- What the calls on descriptors see of the machine, and what they change.
  unfoldable pub view : Machine F → Sys F
  view m =
      let cur = m.sched.current in
      let p : Process = record { pid = (m.sched.procs cur).pid; fd_table = m.fd_tables cur } in
      record {
        current = if cur == 0 then none else some p;
        vfs = m.vfs;
        console = m.console;
        keyboard = m.keyboard;
        keys = m.keys;
      }

  -- The descriptors of the running process.
  unfoldable pub put_fds : Option Process → Machine F → Machine F
  put_fds none m = m
  put_fds (some p) m = record m { fd_tables = update m.fd_tables m.sched.current p.fd_table }

  unfoldable pub put : Sys F → Machine F → Machine F
  put t m = record (put_fds t.current m) {
    vfs = t.vfs;
    console = t.console;
    keyboard = t.keyboard;
    keys = t.keys;
  }

  -- The entries in the caller's memory, and their number.
  abbrev pub listing : ℕ → Machine F → Option (List Dirent) → ℤ × Machine F
  listing entries m none = (minus_one, m)
  listing entries m (some ds) =
      (pos (length ds), record m { memory = store_dirents entries ds m.memory })

  unfoldable pub sys_readdir : ℕ → ℤ → Machine F → ℤ × Machine F
  sys_readdir entries max m = listing entries m (vfs_readdir (places max) m.vfs)

  pub sys_uptime : Machine F → ℕ
  sys_uptime m = timer_get_seconds m.sched

  unfoldable pub sys_meminfo : ℕ → Machine F → ℤ × Machine F
  sys_meminfo info m =
      let total = store_word info m.pmm.total_pages m.memory in
      let free = store_word (add32 info 4) (pmm_get_free_pages m.pmm) total in
      let all = store_word (add32 info 8) m.pmm.used_pages free in
      if info == 0 then (minus_one, m) else (pos 0, record m { memory = all })

  unfoldable pub sys_ps : ℕ → ℤ → Machine F → ℤ × Machine F
  sys_ps entries max m =
      let es = ps_from (places max) m.sched.current m.sched in
      if entries == 0 || places max == 0
      then (minus_one, m)
      else if m.sched.current == 0
      then (pos 0, m)
      else (pos (length es), record m { memory = store_ps entries es m.memory })

  -- The machine behind the scheduler's tick, and whether another process runs.
  abbrev pub finish_exit : Machine F → Sched × Option (ℕ × ℕ) → Machine F × Bool
  finish_exit m (t, none) = (record m { sched = t }, false)
  finish_exit m (t, some pq) = (record m { sched = t }, true)

  unfoldable pub sys_exit : ℤ → Machine F → Machine F × Bool
  sys_exit code m =
      let s = if m.sched.current == 0 then m.sched else exited code m.sched in
      finish_exit m (scheduler_tick s)
