-- ===== src/Shell/Kernel.antt =====
-- The shell on this kernel: the system calls that the shell makes are those of kernel/syscall, on
-- the machine with ramfs mounted.
use lightstreak_os.Base.{
  ℕ, zero, suc, ◌+◌, ◌≡◌, refl, ap, ◌∙◌, Option, none, some, List, [], ◌∷◌, arith, ◌==◌,
  if◌then◌else◌, length, get_or, for_range,
}
use lightstreak_os.Base.Int.{ℤ, pos, negsuc}
use lightstreak_os.Keyboard.{Keyboard, keyboard_getchar}
use lightstreak_os.Vfs.{vfs_readdir}
use lightstreak_os.Pmm.{pmm_get_free_pages}
use lightstreak_os.Syscall.{Sys, read_keys, sys_write, sys_read, sys_open, sys_close}
use lightstreak_os.Syscall.Machine.{Machine, view, put, sys_uptime, ps_from}
use lightstreak_os.Shell.{Calls}
use lightstreak_os.Shell.Editing.{show_on, Terminal}

-- A call that returns 0 or more, as the index that it returns.
abbrev pub index : ℤ → Option ℕ
index (pos n) = some n
index (negsuc n) = none

-- The first `n` bytes of a buffer from `i` on.
abbrev pub bytes_of : ℕ → ℕ → (ℕ → ℕ) → List ℕ
bytes_of zero i buf = []
bytes_of (suc n) i buf = buf i ∷ bytes_of n (suc i) buf

abbrev pub got : ℤ → (ℕ → ℕ) → List ℕ
got (pos n) buf = bytes_of n 0 buf
got (negsuc n) buf = []

module _ {F : Type 0} where
  -- The bytes that a read returned, and the machine behind it.
  abbrev pub read_result : Machine F → Option (ℤ × (ℕ → ℕ) × Sys F) → Option (List ℕ × Machine F)
  read_result m none = none
  read_result m (some (n, buf, t)) = some (got n buf, put t m)

  abbrev pub write_bytes : ℕ → List ℕ → Machine F → Machine F
  write_bytes fd str m = put (sys_write fd (λ i. get_or str i 0) (length str) (view m)).1 m

  abbrev pub kernel_calls : Calls (Machine F)
  kernel_calls = record {
    sys_write = write_bytes;
    sys_read = λ fd len m. read_result m (sys_read fd (λ i. 0) len (view m));
    sys_open = λ path m. let (fd, t) = sys_open path (view m) in (index fd, put t m);
    sys_close = λ fd m. put (sys_close fd (view m)).1 m;
    sys_readdir = λ max m. vfs_readdir max m.vfs;
    sys_uptime = sys_uptime;
    sys_meminfo = λ m. some (record {
      total_pages = m.pmm.total_pages;
      free_pages = pmm_get_free_pages m.pmm;
      used_pages = m.pmm.used_pages;
    });
    sys_ps = λ max m.
        if m.sched.current == 0 then some [] else some (ps_from max m.sched.current m.sched);
    sys_exit = λ code m. none;
  }

-- The reads from the keyboard give `cs`, with the scan codes `keys` still to come.
unfoldable pub Typed : List ℕ → List ℕ → Keyboard → Type 0
Typed [] keys k = Unit {0}
Typed (c ∷ cs) keys k =
    (later : Keyboard) × (rest : List ℕ) × (keyboard_getchar keys k ≡ some (c, later, rest))
    × Typed cs rest later

-- The console's loop over a list.
console_loop :
    (str : List ℕ) (i : ℕ) (buf : ℕ → ℕ) (shown : List ℕ)
    → ((j : ℕ) → buf (i + j) ≡ get_or str j 0)
    → for_range (length str) i (λ j out. buf j ∷ out) shown ≡ show_on str shown
unfolding for_range show_on
console_loop [] i buf shown h = refl
console_loop (c ∷ str) i buf shown h =
    ap (λ x. for_range (length str) (suc i) (λ j out. buf j ∷ out) (x ∷ shown))
      (ap buf (omega arith) ∙ h 0)
    ∙ console_loop str (suc i) buf (c ∷ shown) (λ j. ap buf (omega arith) ∙ h (suc j))

module _ {F : Type 0} where
  pub next_key :
      (c : ℕ) (cs : List ℕ) (m : Machine F)
      → Typed (c ∷ cs) m.keys m.keyboard
      → (t : Machine F) × (kernel_calls.sys_read 0 1 m ≡ some (c ∷ [], t))
        × Typed cs t.keys t.keyboard
        × (t.console ≡ m.console)
  unfolding Typed view put sys_read read_keys
  next_key c cs m (k, keys, e, more) =
      (put (record (view m) { keyboard = k; keys = keys }) m, rw (e) refl, more, refl)

  pub console_shown :
      (str : List ℕ) (m : Machine F) → (write_bytes 1 str m).console ≡ show_on str m.console
  unfolding sys_write view put
  console_shown str m =
      console_loop str 0 (λ i. get_or str i 0) m.console
        (λ j. ap (λ k. get_or str k 0) (omega arith))

  -- The keyboard and the text screen are a terminal for the shell.
  unfoldable pub terminal : Terminal (kernel_calls {F = F})
  unfolding sys_write view put
  terminal = record {
    typed = λ cs m. Typed cs m.keys m.keyboard;
    shown = λ m. m.console;
    read_key = next_key;
    write_shown = console_shown;
    write_typed = λ str cs m t. t;
  }
