-- ===== src/Shell/Session.antt =====
-- The command cat on this kernel, from the name of a file to its text on the screen.
use lightstreak_os.Base.{
  ℕ, zero, suc, ◌+◌, ◌*◌, ◌≤◌, ◌<◌, ◌≡◌, ◌≢◌, refl, ap, sym, subst, ◌∙◌, false, Option, none, some,
  List, ◌∷◌, length, arith, ==_self,
}
use lightstreak_os.Base.Int.{ℤ, pos}
use lightstreak_os.Ramfs.{Ramfs}
use lightstreak_os.Ramfs.Data.{IsLive}
use lightstreak_os.Vfs.{vfs_open, ramfs_ops}
use lightstreak_os.Syscall.{Sys, max_fds, set_entry}
use lightstreak_os.Syscall.Descriptors.{
  IsLeastFree, full, missing, opened, opened_entry, open_outcome, close-console,
}
use lightstreak_os.Syscall.Machine.{Machine, view, put_fds, put}
use lightstreak_os.Shell.Editing.{show_on}
use lightstreak_os.Shell.Commands.{cat_opened, cmd_cat}
use lightstreak_os.Shell.Cat.{cat_loop_ends}
use lightstreak_os.Shell.Kernel.{bytes_of, index, kernel_calls}
use lightstreak_os.Shell.Reading.{running, view_runs, IsOpen, open_file}

-- The whole text of the file `i`.
abbrev pub text_of : ℕ → Machine Ramfs → List ℕ
text_of i m = bytes_of (m.vfs.disk.files i).size 0 (m.vfs.disk.files i).bytes

-- What a command leaves: it has returned, and has shown a text.
pub record IsPrinted (o : Option (Machine Ramfs)) (m : Machine Ramfs) (str : List ℕ) : Type 0 where
  pub after : Machine Ramfs
  pub result : o ≡ some after
  pub screen : after.console ≡ show_on str m.console

length-bytes_of : (n i : ℕ) (buf : ℕ → ℕ) → length (bytes_of n i buf) ≡ n
length-bytes_of zero i buf = refl
length-bytes_of (suc n) i buf = ap suc (length-bytes_of n (suc i) buf)

-- The machine with the file `i` at its start at the descriptor `fd`.
opened_at : ℕ → ℕ → Machine Ramfs → Machine Ramfs
opened_at fd i m =
    put (record (view m) { current = some (set_entry fd (opened_entry i) (running m)) }) m

opened_at-IsOpen :
    (fd i : ℕ) (m : Machine Ramfs)
    → m.sched.current ≢ 0
    → m.vfs.mounted_fs ≡ some ramfs_ops
    → IsLive m.vfs.disk i
    → IsLeastFree (running m) fd
    → IsOpen fd i (text_of i m) (opened_at fd i m)
unfolding opened_at view put put_fds
opened_at-IsOpen fd i m runs mounted live free = record {
  at = 0;
  runs = runs;
  mounted = mounted;
  live = live;
  above = free.above;
  below = free.below;
  file = rw (==_self m.sched.current, ==_self fd) refl;
  place = rw (==_self m.sched.current, ==_self fd) refl;
  used = rw (==_self m.sched.current, ==_self fd) refl;
  within = omega arith;
  rest = ap (λ a. bytes_of a 0 (m.vfs.disk.files i).bytes) (omega arith);
}

abbrev close_after : ℕ → Option (Machine Ramfs) → Option (Machine Ramfs)
close_after fd none = none
close_after fd (some t) = some (kernel_calls.sys_close fd t)

opened-IsPrinted :
    (n fd i : ℕ) (name : List ℕ) (m : Machine Ramfs)
    → IsOpen fd i (text_of i m) (opened_at fd i m)
    → (m.vfs.disk.files i).size + 512 ≤ 512 * n
    → IsPrinted (cat_opened kernel_calls n name (some fd) (opened_at fd i m)) m (text_of i m)
unfolding cat_opened open_file opened_at view put
opened-IsPrinted n fd i name m o h =
    let size : length (text_of i m) ≡ (m.vfs.disk.files i).size = length-bytes_of _ 0 _ in
    let r =
      cat_loop_ends (open_file fd i) n (text_of i m) (opened_at fd i m) (omega (arith, h, size))
        o in
    record {
      after = kernel_calls.sys_close fd r.after;
      result = ap (close_after fd) r.result;
      screen = close-console fd (view r.after) ∙ r.screen;
    }

-- On the kernel with ramfs mounted and a current process with a free descriptor from 3 to 31: for a
-- name that the file system finds as a live file, the command `cat` returns, with as many reads as
-- the size of the file needs and one more, and has printed exactly the bytes of the file.
pub cat_prints_file :
    (n i j c : ℕ) (name : List ℕ) (m : Machine Ramfs)
    → m.sched.current ≢ 0
    → m.vfs.mounted_fs ≡ some ramfs_ops
    → vfs_open (c ∷ name) m.vfs ≡ some i
    → IsLive m.vfs.disk i
    → 3 ≤ j
    → j < max_fds
    → (m.fd_tables m.sched.current j).in_use ≡ false
    → (m.vfs.disk.files i).size + 512 ≤ 512 * n
    → IsPrinted (cmd_cat kernel_calls n (c ∷ name) m) m (text_of i m)
unfolding cmd_cat opened_at view
cat_prints_file n i j c name m runs mounted found live lo hi free h =
    elim (open_outcome (c ∷ name) (view m) (running m) here) [
      | full none_left e ↦ absurd (ground (arith, none_left j lo hi, free))
      | missing absent e ↦ absurd (some-none i (sym found ∙ absent))
      | opened fd k least o e ↦
          let same : k ≡ i = ap (index_or 0) (sym o ∙ found) in
          subst P (sym (e ∙ ap (result fd) same)) (
            opened-IsPrinted n fd i (c ∷ name) m (opened_at-IsOpen fd i m runs mounted live least)
              h)
    ]
  where
    here : (view m).current ≡ some (running m)
    here = view_runs m runs

    index_or : ℕ → Option ℕ → ℕ
    index_or d none = d
    index_or d (some x) = x

    some-none : (x : ℕ) → ◌≢◌ {A = Option ℕ} (some x) none
    some-none x e = cc

    result : ℕ → ℕ → ℤ × Sys Ramfs
    result fd k =
        (pos fd, record (view m) { current = some (set_entry fd (opened_entry k) (running m)) })

    P : ℤ × Sys Ramfs → Type 0
    P out =
        IsPrinted (cat_opened kernel_calls n (c ∷ name) (index out.0) (put out.1 m)) m (text_of i m)
