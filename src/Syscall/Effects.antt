-- ===== src/Syscall/Effects.antt =====
-- What a system call leaves alone, and what exit comes to.
use lightstreak_os.Base.{
  ℕ, ◌^◌, ◌-◌, ◌≤◌, ◌<◌, ◌≡◌, ◌≢◌, refl, sym, ◌||◌, inl, inr, Bool, true, false, Option, none, some,
  arith, ◌==◌, ==_ne, ==_iff, Bool-cases, if◌then◌else◌,
}
use lightstreak_os.Base.Int.{ℤ, to_int32}
use lightstreak_os.Syscall.{Sys, Process}
use lightstreak_os.Syscall.Machine.{
  Machine, put_fds, put, sys_readdir, sys_meminfo, sys_ps, sys_exit, places, listing,
}
use lightstreak_os.Vfs.{vfs_readdir}
use lightstreak_os.Syscall.Handler.{
  Registers, Outcome, returned, waiting, switched, halted, call_write, call_read, call_open,
  call_close, call_exit, after_read, syscall_handler,
}

module _ {F : Type 0} where
  -- A call changed no process but the running one, and no page of the allocator.
  pub record IsConfined (m t : Machine F) : Type 0 where
    pub sched : t.sched ≡ m.sched
    pub pmm : t.pmm ≡ m.pmm
    pub others : (p : ℕ) → p ≢ m.sched.current → t.fd_tables p ≡ m.fd_tables p

  unmoved : (m : Machine F) → IsConfined m m
  unmoved m = record { sched = refl; pmm = refl; others = λ p h. refl }

  put_fds-IsConfined : (o : Option Process) (m : Machine F) → IsConfined m (put_fds o m)
  unfolding put_fds
  put_fds-IsConfined none m = unmoved m
  put_fds-IsConfined (some q) m = record {
    sched = refl;
    pmm = refl;
    others = λ p h. rw (==_ne m.sched.current p (λ e. h (sym e))) refl;
  }

  put-IsConfined : (t : Sys F) (m : Machine F) → IsConfined m (put t m)
  unfolding put
  put-IsConfined t m =
      let c = put_fds-IsConfined t.current m in
      record { sched = c.sched; pmm = c.pmm; others = c.others }

  stored-IsConfined : (m : Machine F) (mem : ℕ → ℕ) → IsConfined m (record m { memory = mem })
  stored-IsConfined m mem = record { sched = refl; pmm = refl; others = λ p h. refl }

  either-IsConfined :
      (m : Machine F) (b : Bool) (x y : ℤ × Machine F)
      → IsConfined m x.1
      → IsConfined m y.1
      → IsConfined m (if b then x else y).1
  either-IsConfined m true x y p q = p
  either-IsConfined m false x y p q = q

  readdir-IsConfined : (a : ℕ) (max : ℤ) (m : Machine F) → IsConfined m (sys_readdir a max m).1
  unfolding sys_readdir
  readdir-IsConfined a max m =
      elim (vfs_readdir (places max) m.vfs) as (λ o. IsConfined m (listing a m o).1) [
        | none ↦ unmoved m
        | some ds ↦ stored-IsConfined m _
      ]

  meminfo-IsConfined : (a : ℕ) (m : Machine F) → IsConfined m (sys_meminfo a m).1
  unfolding sys_meminfo
  meminfo-IsConfined a m = either-IsConfined m (a == 0) _ _ (unmoved m) (stored-IsConfined m _)

  ps-IsConfined : (a : ℕ) (max : ℤ) (m : Machine F) → IsConfined m (sys_ps a max m).1
  unfolding sys_ps
  ps-IsConfined a max m =
      either-IsConfined m (a == 0 || places max == 0) _ _ (unmoved m)
        (either-IsConfined m (m.sched.current == 0) _ _ (unmoved m) (stored-IsConfined m _))

  -- What a call comes to: it answers in EAX and is confined, it waits for a key, or it ends.
  pub data Handled (regs : Registers) (m : Machine F) : Outcome F → Type 0 where
    answers :
        (v : ℕ) (t : Machine F)
        → IsConfined m t
        → (10 < regs.eax → (v ≡ 2 ^ 32 - 1) × (t ≡ m))
        → Handled regs m (returned (record regs { eax = v }) t)
    waits : regs.eax ≡ 3 → Handled regs m waiting
    leaves : (t : Machine F) → regs.eax ≡ 1 → Handled regs m (switched t)
    stops : (t : Machine F) → regs.eax ≡ 1 → Handled regs m (halted t)

  -- One test of the dispatcher for the number `n` of a call.
  case_of :
      (regs : Registers) (m : Machine F) (n : ℕ) (x y : Outcome F)
      → (regs.eax ≡ n → Handled regs m x)
      → Handled regs m y
      → Handled regs m (if regs.eax == n then x else y)
  case_of regs m n x y p q = elim (Bool-cases (regs.eax == n)) [
    | inl e ↦ rw (e) (p ((==_iff regs.eax n).0 e))
    | inr f ↦ rw (f) q
  ]

  -- A known call that answers.
  known :
      (regs : Registers) (m : Machine F) (v : ℕ) (t : Machine F) (n : ℕ)
      → n ≤ 10
      → IsConfined m t
      → regs.eax ≡ n
      → Handled regs m (returned (record regs { eax = v }) t)
  known regs m v t n h c e = answers v t c (λ above. absurd (omega (arith, e, h, above)))

  read-Handled :
      (regs : Registers) (m : Machine F) → regs.eax ≡ 3 → Handled regs m (call_read regs m)
  unfolding call_read
  read-Handled regs m e = after _
    where
      after : (o : Option (ℤ × (ℕ → ℕ) × Sys F)) → Handled regs m (after_read regs m o)
      after none = waits e
      after (some (v, out, t)) =
          let c = put-IsConfined t m in
          known regs m _ _ 3 (omega arith)
            (record { sched = c.sched; pmm = c.pmm; others = c.others }) e

  exit-Handled :
      (regs : Registers) (m : Machine F) → regs.eax ≡ 1 → Handled regs m (call_exit regs m)
  unfolding call_exit
  exit-Handled regs m e = elim (Bool-cases (sys_exit (to_int32 regs.ebx) m).1) [
    | inl p ↦ rw (p) (leaves _ e)
    | inr p ↦ rw (p) (stops _ e)
  ]

  -- `syscall_handler` returns a value in EAX, waits for a key (number 3 only), or leaves the caller
  -- (number 1 only). Where it returns, it sets no other register, nothing in the scheduler or the
  -- page allocator and no descriptor of a process but the current one; what it stores through the
  -- caller's pointers is kept apart as memory. A number above 10 gives 0xFFFFFFFF and changes nothing.
  pub syscall_handler-Handled :
      (regs : Registers) (m : Machine F) → Handled regs m (syscall_handler regs m)
  unfolding syscall_handler call_write call_open call_close
  syscall_handler-Handled regs m =
      case_of regs m 2 _ _ (known regs m _ _ 2 (omega arith) (put-IsConfined _ m)) (
        case_of regs m 3 _ _ (read-Handled regs m) (
          case_of regs m 4 _ _ (known regs m _ _ 4 (omega arith) (put-IsConfined _ m)) (
            case_of regs m 5 _ _ (known regs m _ _ 5 (omega arith) (put-IsConfined _ m)) (
              case_of regs m 1 _ _ (exit-Handled regs m) (
                case_of regs m 6 _ _ (known regs m _ _ 6 (omega arith) (unmoved m)) (
                  case_of regs m 7 _ _
                    (known regs m _ _ 7 (omega arith)
                      (readdir-IsConfined regs.ebx (to_int32 regs.ecx) m))
                    (case_of regs m 8 _ _ (known regs m _ _ 8 (omega arith) (unmoved m)) (
                      case_of regs m 9 _ _
                        (known regs m _ _ 9 (omega arith) (meminfo-IsConfined regs.ebx m))
                        (case_of regs m 10 _ _
                          (known regs m _ _ 10 (omega arith)
                            (ps-IsConfined regs.ebx (to_int32 regs.ecx) m))
                          (answers (2 ^ 32 - 1) m (unmoved m) (λ above. (refl, refl))))))))))))
