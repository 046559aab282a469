-- ===== src/Wrappers.antt =====
-- userspace/lib/syscall_wrappers.h: a wrapper puts the number of its call in EAX and the arguments in
-- EBX, ECX and EDX, and takes the result from EAX; the other registers are those of `cpu`. `none` is
-- a call that does not return to its caller.
pub mod Reach
mod Tests
use lightstreak_os.Base.{ℕ, ◌^◌, Option, none, some}
use lightstreak_os.Base.Int.{ℤ, to_int32, to_uint32}
use lightstreak_os.Syscall.Machine.{Machine}
use lightstreak_os.Syscall.Handler.{
  Registers, Outcome, returned, waiting, switched, halted, syscall_handler,
}

abbrev pub sys_exit_no : ℕ
sys_exit_no = 1

abbrev pub sys_write_no : ℕ
sys_write_no = 2

abbrev pub sys_read_no : ℕ
sys_read_no = 3

abbrev pub sys_open_no : ℕ
sys_open_no = 4

abbrev pub sys_close_no : ℕ
sys_close_no = 5

abbrev pub sys_getpid_no : ℕ
sys_getpid_no = 6

abbrev pub sys_readdir_no : ℕ
sys_readdir_no = 7

abbrev pub sys_uptime_no : ℕ
sys_uptime_no = 8

abbrev pub sys_meminfo_no : ℕ
sys_meminfo_no = 9

abbrev pub sys_ps_no : ℕ
sys_ps_no = 10

module _ {F : Type 0} where
  -- EAX behind the call, and the machine.
  abbrev pub eax_of : Outcome F → Option (ℕ × Machine F)
  eax_of (returned regs m) = some (regs.eax, m)
  eax_of waiting = none
  eax_of (switched m) = none
  eax_of (halted m) = none

  -- EAX as an `int`.
  abbrev pub int_of : Outcome F → Option (ℤ × Machine F)
  int_of (returned regs m) = some (to_int32 regs.eax, m)
  int_of waiting = none
  int_of (switched m) = none
  int_of (halted m) = none

module _ {F : Type 0} (cpu : Registers) (m : Machine F) where
  -- The wrapper does not look at EAX.
  pub exit : ℤ → Outcome F
  exit code = syscall_handler (record cpu { eax = sys_exit_no; ebx = to_uint32 code }) m

  pub write : ℤ → ℕ → ℕ → Option (ℤ × Machine F)
  write fd buf len = int_of (
      syscall_handler (record cpu { eax = sys_write_no; ebx = to_uint32 fd; ecx = buf; edx = len })
        m)

  pub read : ℤ → ℕ → ℕ → Option (ℤ × Machine F)
  read fd buf len = int_of (
      syscall_handler (record cpu { eax = sys_read_no; ebx = to_uint32 fd; ecx = buf; edx = len })
        m)

  pub open_path : ℕ → Option (ℤ × Machine F)
  open_path path = int_of (syscall_handler (record cpu { eax = sys_open_no; ebx = path }) m)

  pub close : ℤ → Option (ℤ × Machine F)
  close fd = int_of (syscall_handler (record cpu { eax = sys_close_no; ebx = to_uint32 fd }) m)

  pub getpid : Option (ℤ × Machine F)
  getpid = int_of (syscall_handler (record cpu { eax = sys_getpid_no }) m)

  pub readdir : ℕ → ℤ → Option (ℤ × Machine F)
  readdir entries max =
      int_of (
        syscall_handler (record cpu { eax = sys_readdir_no; ebx = entries; ecx = to_uint32 max }) m)

  pub uptime : Option (ℕ × Machine F)
  uptime = eax_of (syscall_handler (record cpu { eax = sys_uptime_no }) m)

  pub meminfo : ℕ → Option (ℤ × Machine F)
  meminfo info = int_of (syscall_handler (record cpu { eax = sys_meminfo_no; ebx = info }) m)

  pub ps : ℕ → ℤ → Option (ℤ × Machine F)
  ps entries max =
      int_of
        (syscall_handler (record cpu { eax = sys_ps_no; ebx = entries; ecx = to_uint32 max }) m)
