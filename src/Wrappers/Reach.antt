-- ===== src/Wrappers/Reach.antt =====
-- The wrappers and the dispatcher agree on the numbers of the calls and on their arguments.
use lightstreak_os.Base.{
  ℕ, ◌^◌, ◌-◌, ◌%◌, ◌≡◌, ◌<◌, refl, ap, some, arith, false, if◌then◌else◌, ltb, add32,
}
use lightstreak_os.Base.Int.{ℤ, pos, negsuc, to_int32, to_uint32}
use lightstreak_os.Base.Memory.{string_at}
use lightstreak_os.Syscall.{sys_write, sys_read, sys_open, sys_close, sys_getpid}
use lightstreak_os.Syscall.Machine.{
  Machine, view, put, sys_readdir, sys_uptime, sys_meminfo, sys_ps, sys_exit,
}
use lightstreak_os.Syscall.Handler.{
  Registers, switched, halted, after_read, call_write, call_read, call_open, call_close, call_exit,
  syscall_handler,
}
use lightstreak_os.Wrappers.{
  int_of, exit, write, read, open_path, close, getpid, readdir, uptime, meminfo, ps,
}

-- A number that an `int32_t` holds.
abbrev pub IsInt32 : ℤ → Type 0
IsInt32 (pos n) = n < 2 ^ 31
IsInt32 (negsuc n) = n < 2 ^ 31

int32_round : (n : ℤ) → IsInt32 n → to_int32 (to_uint32 n) ≡ n
int32_round (pos n) h = ground (arith, h)
int32_round (negsuc n) h = rw (high) (ap negsuc (omega (arith, h)))
  where
    high : ltb (2 ^ 32 - 1 - n % 2 ^ 32) (2 ^ 31) ≡ false
    high = ground (arith, h)

exit_lem :
    {F : Type 0}
    → (cpu : Registers) (m : Machine F) (code : ℤ) → IsInt32 code
    → exit cpu m code ≡ (let (t, other) = sys_exit code m in if other then switched t else halted t)
unfolding exit syscall_handler call_exit
exit_lem cpu m code h =
    ap (λ k. if (sys_exit k m).1 then switched (sys_exit k m).0 else halted (sys_exit k m).0)
      (int32_round code h)

-- For every state of the registers and of the machine, and for a maximum and an exit code that an
-- `int32_t` holds, each of the ten wrappers of the user library, through `syscall_handler`, has the
-- result and the effect of the kernel function of its name on its own arguments; the wrapper of
-- exit does not return, and leaves the machine halted or with another process running, as
-- `sys_exit` of its code does.
pub wrappers_agree :
    {F : Type 0}
    → (cpu : Registers) (m : Machine F) (fd max code : ℤ) (a len : ℕ) → IsInt32 max
    → IsInt32 code
    → (write cpu m fd a len ≡ (
        let (v, t) = sys_write (to_uint32 fd) (λ i. m.memory (add32 a i)) len (view m) in
        some (to_int32 (to_uint32 v), put t m)))
      × (read cpu m fd a len
          ≡ int_of (
              after_read
                (record cpu { eax = 3; ebx = to_uint32 fd; ecx = a; edx = len })
                m
                (sys_read (to_uint32 fd) (λ i. m.memory (add32 a i)) len (view m))))
      × (open_path cpu m a ≡ (
          let (v, t) = sys_open (string_at (2 ^ 32) m.memory a) (view m) in
          some (to_int32 (to_uint32 v), put t m)))
      × (close cpu m fd ≡ (
          let (v, t) = sys_close (to_uint32 fd) (view m) in some (to_int32 (to_uint32 v), put t m)))
      × (getpid cpu m ≡ some (to_int32 (sys_getpid (view m)), m))
      × (uptime cpu m ≡ some (sys_uptime m, m))
      × (readdir cpu m a max
          ≡ (let (v, t) = sys_readdir a max m in some (to_int32 (to_uint32 v), t)))
      × (meminfo cpu m a ≡ (let (v, t) = sys_meminfo a m in some (to_int32 (to_uint32 v), t)))
      × (ps cpu m a max ≡ (let (v, t) = sys_ps a max m in some (to_int32 (to_uint32 v), t)))
      × (exit cpu m code
          ≡ (let (t, other) = sys_exit code m in if other then switched t else halted t))
unfolding write read open_path close getpid uptime readdir meminfo ps syscall_handler call_write
    call_read call_open call_close
wrappers_agree cpu m fd max code a len h c = (
  refl,
  refl,
  refl,
  refl,
  refl,
  refl,
  ap (λ k. some (to_int32 (to_uint32 (sys_readdir a k m).0), (sys_readdir a k m).1))
      (int32_round max h),
  refl,
  ap (λ k. some (to_int32 (to_uint32 (sys_ps a k m).0), (sys_ps a k m).1)) (int32_round max h),
  exit_lem cpu m code c,
)
