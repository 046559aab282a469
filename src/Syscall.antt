-- ===== src/Syscall.antt =====
-- kernel/syscall/syscall.c: the system calls on file descriptors, over the file system switch. The
-- console is the list of the characters given to `vga_putchar`, the last one in front; a file
-- system call takes the running process, the switch and the console as one state.
pub mod Descriptors
pub mod Files
pub mod Machine
pub mod Handler
pub mod Effects
pub mod Exit
pub mod Ring
mod Tests
use lightstreak_os.Base.{
  ℕ, zero, suc, ◌+◌, ◌-◌, ◌*◌, ◌%◌, ◌^◌, Bool, true, false, ◌&&◌, ◌||◌, not, Option, none, some,
  List, [], ◌∷◌, ltb, leb, ◌==◌, if◌then◌else◌, update, for_range, add32,
}
use lightstreak_os.Base.Int.{ℤ, pos, negsuc, minus_one, to_int32, is_neg}
use lightstreak_os.Vfs.{Vfs, vfs_open, vfs_read, vfs_write, vfs_close}
use lightstreak_os.Keyboard.{Keyboard, keyboard_getchar}
use lightstreak_os.Ramfs.{first_index}

abbrev pub max_fds : ℕ
max_fds = 32

pub record FdEntry : Type 0 where
  pub file_idx : ℤ
  pub offset : ℕ
  pub in_use : Bool

-- The part of the process control block that these calls use.
pub record Process : Type 0 where
  pub pid : ℕ
  pub fd_table : ℕ → FdEntry

pub record Sys (F : Type 0) : Type 0 where
  pub current : Option Process
  pub vfs : Vfs F
  pub console : List ℕ
  pub keyboard : Keyboard
  pub keys : List ℕ

-- The running process with another entry at `fd`.
abbrev pub set_entry : ℕ → FdEntry → Process → Process
set_entry fd e cur = record cur { fd_table = update cur.fd_table fd e }

-- `if (n > 0) offset += (uint32_t)n`
abbrev pub advance : ℤ → FdEntry → FdEntry
advance (negsuc n) e = e
advance (pos n) e = if n == 0 then e else record e { offset = add32 e.offset n }

-- The first free descriptor behind those for standard input and output.
pub free_fd : Process → Option ℕ
free_fd cur = first_index (λ i. not (cur.fd_table i).in_use) (max_fds - 3) 3

abbrev pub closed : FdEntry
closed = record { file_idx = minus_one; offset = 0; in_use = false }

-- The entry that `fd >= MAX_FDS || !in_use || file_idx < 0` lets pass.
pub file_entry_of : ℕ → Process → Option (Process × FdEntry)
file_entry_of fd cur =
    let e = cur.fd_table fd in
    if leb max_fds fd
    then none
    else if not e.in_use
    then none
    else if is_neg e.file_idx
    then none
    else some (cur, e)

module _ {F : Type 0} where
  abbrev pub file_entry : ℕ → Sys F → Option (Process × FdEntry)
  file_entry fd s = elim s.current [ none ↦ none | some cur ↦ file_entry_of fd cur ]

  unfoldable pub sys_write : ℕ → (ℕ → ℕ) → ℕ → Sys F → ℤ × Sys F
  sys_write fd buf len s =
      let printed = for_range len 0 (λ i out. buf i ∷ out) s.console in
      if fd == 1 || fd == 2
      then (to_int32 len, record s { console = printed })
      else elim (file_entry fd s) [
        | none ↦ (minus_one, s)
        | some (cur, e) ↦
            let (written, v) = vfs_write e.file_idx buf e.offset len s.vfs in
            (written, record s { current = some (set_entry fd (advance written e) cur); vfs = v })
      ]

  -- `len` characters from the keyboard into the buffer from place `i` on. `none` means that the
  -- keys run out, and the call waits on.
  unfoldable pub read_keys : ℕ → ℕ → (ℕ → ℕ) → Sys F → Option ((ℕ → ℕ) × Sys F)
  read_keys zero i buf s = some (buf, s)
  read_keys (suc n) i buf s = elim (keyboard_getchar s.keys s.keyboard) [
    | none ↦ none
    | some (c, k, keys) ↦
        read_keys n (suc i) (update buf i c) (record s { keyboard = k; keys = keys })
  ]

  -- The result is the count, the buffer and the state after the call.
  unfoldable pub sys_read : ℕ → (ℕ → ℕ) → ℕ → Sys F → Option (ℤ × (ℕ → ℕ) × Sys F)
  sys_read fd buf len s =
      if fd == 0
      then elim (read_keys len 0 buf s) [
        | none ↦ none
        | some (out, t) ↦ some (to_int32 len, out, t)
      ]
      else elim (file_entry fd s) [
        | none ↦ some (minus_one, buf, s)
        | some (cur, e) ↦
            let (bytes, out) = vfs_read e.file_idx buf e.offset len s.vfs in
            some (bytes, out, record s { current = some (set_entry fd (advance bytes e) cur) })
      ]

  -- `sys_open` of the running process.
  pub open_for : Process → List ℕ → Sys F → ℤ × Sys F
  open_for cur path s = elim (free_fd cur) [
    | none ↦ (minus_one, s)
    | some fd ↦ elim (vfs_open path s.vfs) [
      | none ↦ (minus_one, s)
      | some i ↦
          let e : FdEntry = record { file_idx = pos i; offset = 0; in_use = true } in
          (pos fd, record s { current = some (set_entry fd e cur) })
    ]
  ]

  pub sys_open : List ℕ → Sys F → ℤ × Sys F
  sys_open path s = elim s.current [ none ↦ (minus_one, s) | some cur ↦ open_for cur path s ]

  -- `sys_close` of the running process; the result of `vfs_close` is not looked at.
  pub close_for : Process → ℕ → Sys F → ℤ × Sys F
  close_for cur fd s =
      if ltb fd 3 || leb max_fds fd
      then (minus_one, s)
      else if not (cur.fd_table fd).in_use
      then (minus_one, s)
      else (pos 0, record s { current = some (set_entry fd closed cur) })

  pub sys_close : ℕ → Sys F → ℤ × Sys F
  sys_close fd s = elim s.current [ none ↦ (minus_one, s) | some cur ↦ close_for cur fd s ]

  pub sys_getpid : Sys F → ℕ
  sys_getpid s = elim s.current [ none ↦ 0 | some cur ↦ cur.pid ]
