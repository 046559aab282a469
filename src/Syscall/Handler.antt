-- ===== src/Syscall/Handler.antt =====
-- kernel/syscall/syscall.c: `syscall_handler` reads the number of the call from EAX and its arguments
-- from EBX, ECX and EDX, with the numbers of kernel/syscall/syscall_table.h. A path has at most 2^32
-- characters, as many as there are addresses.
use lightstreak_os.Base.{ℕ, ◌-◌, ◌^◌, Option, none, some, ◌==◌, if◌then◌else◌, add32}
use lightstreak_os.Base.Int.{ℤ, to_int32, to_uint32}
use lightstreak_os.Base.Memory.{store_bytes, string_at}
use lightstreak_os.Syscall.{Sys, sys_write, sys_read, sys_open, sys_close, sys_getpid}
use lightstreak_os.Syscall.Machine.{
  Machine, view, put, sys_readdir, sys_uptime, sys_meminfo, sys_ps, sys_exit,
}

-- The registers that a call uses.
pub record Registers : Type 0 where
  pub eax : ℕ
  pub ebx : ℕ
  pub ecx : ℕ
  pub edx : ℕ

-- A call returns to its caller with the registers, waits for a key that does not come, leaves the
-- caller for another process, or halts the processor.
pub data Outcome (F : Type 0) : Type 0 where
  returned : Registers → Machine F → Outcome F
  waiting : Outcome F
  switched : Machine F → Outcome F
  halted : Machine F → Outcome F

module _ {F : Type 0} where
  -- `regs->eax = (uint32_t)result`
  abbrev pub give : Registers → ℤ → Machine F → Outcome F
  give regs v m = returned (record regs { eax = to_uint32 v }) m

  unfoldable pub call_write : Registers → Machine F → Outcome F
  call_write regs m =
      let (v, t) = sys_write regs.ebx (λ i. m.memory (add32 regs.ecx i)) regs.edx (view m) in
      give regs v (put t m)

  -- What `sys_read` put in its buffer goes to the caller's memory.
  abbrev pub after_read : Registers → Machine F → Option (ℤ × (ℕ → ℕ) × Sys F) → Outcome F
  after_read regs m none = waiting
  after_read regs m (some (v, out, t)) =
      give regs v (record (put t m) { memory = store_bytes regs.ecx regs.edx out m.memory })

  unfoldable pub call_read : Registers → Machine F → Outcome F
  call_read regs m =
      after_read regs m (sys_read regs.ebx (λ i. m.memory (add32 regs.ecx i)) regs.edx (view m))

  unfoldable pub call_open : Registers → Machine F → Outcome F
  call_open regs m =
      let (v, t) = sys_open (string_at (2 ^ 32) m.memory regs.ebx) (view m) in give regs v (put t m)

  unfoldable pub call_close : Registers → Machine F → Outcome F
  call_close regs m = let (v, t) = sys_close regs.ebx (view m) in give regs v (put t m)

  unfoldable pub call_exit : Registers → Machine F → Outcome F
  call_exit regs m =
      let (t, other) = sys_exit (to_int32 regs.ebx) m in if other then switched t else halted t

  unfoldable pub syscall_handler : Registers → Machine F → Outcome F
  syscall_handler regs m =
      let (listed, dir) = sys_readdir regs.ebx (to_int32 regs.ecx) m in
      let (informed, info) = sys_meminfo regs.ebx m in
      let (walked, ps) = sys_ps regs.ebx (to_int32 regs.ecx) m in
      if regs.eax == 2
      then call_write regs m
      else if regs.eax == 3
      then call_read regs m
      else if regs.eax == 4
      then call_open regs m
      else if regs.eax == 5
      then call_close regs m
      else if regs.eax == 1
      then call_exit regs m
      else if regs.eax == 6
      then returned (record regs { eax = sys_getpid (view m) }) m
      else if regs.eax == 7
      then give regs listed dir
      else if regs.eax == 8
      then returned (record regs { eax = sys_uptime m }) m
      else if regs.eax == 9
      then give regs informed info
      else if regs.eax == 10
      then give regs walked ps
      else returned (record regs { eax = 2 ^ 32 - 1 }) m
