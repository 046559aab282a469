-- ===== src/Shell/Reading.antt =====
-- An open file of ramfs as what the command cat reads.
use lightstreak_os.Base.{
  ℕ, ◌+◌, ◌-◌, ◌^◌, ◌≤◌, ◌<◌, ◌≡◌, ◌≢◌, refl, ap, sym, subst, ◌∙◌, true, false, some, List, arith,
  ltb, ◌==◌, ==_self, ==_ne, ==_iff, Bool, length, take, drop, get_or, min,
}
use lightstreak_os.Base.Int.{ℤ, pos}
use lightstreak_os.Ramfs.{Ramfs, ramfs_read}
use lightstreak_os.Ramfs.Data.{IsLive, read_bounds}
use lightstreak_os.Vfs.{ramfs_ops}
use lightstreak_os.Syscall.{FdEntry, Process, Sys, max_fds, set_entry, advance, sys_write, sys_read}
use lightstreak_os.Syscall.Files.{Points, read_file_lem, vfs_read_lem}
use lightstreak_os.Syscall.Machine.{Machine, view, put_fds, put}
use lightstreak_os.Shell.Cat.{Reader}
use lightstreak_os.Shell.Bytes.{take-bytes_of, drop-bytes_of, bytes_of-same, bytes_of-behind}
use lightstreak_os.Shell.Kernel.{bytes_of, got, read_result, kernel_calls, console_shown}

-- The entry of a descriptor behind a read of `n` bytes.
record IsAdvanced (e d : FdEntry) (n : ℕ) : Type 0 where
  place : d.offset ≡ e.offset + n
  file : d.file_idx ≡ e.file_idx
  used : d.in_use ≡ e.in_use

advance-IsAdvanced :
    (r : ℤ) (n : ℕ) (e : FdEntry) → r ≡ pos n → e.offset + n < 2 ^ 32 → IsAdvanced e (advance r e) n
advance-IsAdvanced r n e q h =
    subst (λ x. IsAdvanced e (advance x e) n) (sym q) (moved (n == 0) refl)
  where
    moved : (b : Bool) → n == 0 ≡ b → IsAdvanced e (advance (pos n) e) n
    moved true z =
        rw (z) (record { place = omega (arith, (==_iff n 0).0 z); file = refl; used = refl })
    moved false z = rw (z) (record { place = omega arith; file = refl; used = refl })

abbrev pub running : Machine Ramfs → Process
running m = record {
  pid = (m.sched.procs m.sched.current).pid;
  fd_table = m.fd_tables m.sched.current;
}

pub view_runs : (m : Machine Ramfs) → m.sched.current ≢ 0 → (view m).current ≡ some (running m)
unfolding view
view_runs m h = rw (==_ne m.sched.current 0 h) refl

-- The descriptor `fd` of the running process is open at a place of the live file `i`, and the file
-- has `content` from there on.
pub record IsOpen (fd i : ℕ) (content : List ℕ) (m : Machine Ramfs) : Type 0 where
  pub at : ℕ
  pub runs : m.sched.current ≢ 0
  pub mounted : m.vfs.mounted_fs ≡ some ramfs_ops
  pub live : IsLive m.vfs.disk i
  pub above : 3 ≤ fd
  pub below : fd < max_fds
  pub file : (m.fd_tables m.sched.current fd).file_idx ≡ pos i
  pub place : (m.fd_tables m.sched.current fd).offset ≡ at
  pub used : (m.fd_tables m.sched.current fd).in_use ≡ true
  pub within : at ≤ (m.vfs.disk.files i).size
  pub rest : content ≡ bytes_of ((m.vfs.disk.files i).size - at) at (m.vfs.disk.files i).bytes

module _ (fd i : ℕ) (content : List ℕ) (m : Machine Ramfs) (o : IsOpen fd i content m) where
  points : Points (view m) (running m) fd i o.at
  points = record {
    runs = view_runs m o.runs;
    above = o.above;
    below = o.below;
    file = o.file;
    position = o.place;
    used = o.used;
  }

  size : ℕ
  size = (m.vfs.disk.files i).size

  chunk : ℤ × (ℕ → ℕ)
  chunk = ramfs_read (pos i) (λ x. 0) o.at 512 m.vfs.disk

  count : ℕ
  count = min 512 (size - o.at)

  behind : Sys Ramfs
  behind = record (view m) {
    current = some (set_entry fd (advance chunk.0 (m.fd_tables m.sched.current fd)) (running m));
  }

  read_call : sys_read fd (λ x. 0) 512 (view m) ≡ some (chunk.0, chunk.1, behind)
  unfolding view chunk behind
  read_call =
      read_file_lem (view m) (running m) fd i o.at 512 (λ x. 0) points
      ∙ ap
          (λ x. some (
            x.0,
            x.1,
            record (view m) {
              current =
                  some (set_entry fd (advance x.0 (m.fd_tables m.sched.current fd)) (running m));
            },
          ))
          (vfs_read_lem m.vfs (pos i) (λ x. 0) o.at 512 o.mounted)

  chunk-count : chunk.0 ≡ pos count
  unfolding chunk count size
  chunk-count = (read_bounds m.vfs.disk i (λ x. 0) o.at 512 o.live).0

  chunk-bytes : (x : ℕ) → x < count → chunk.1 (0 + x) ≡ (m.vfs.disk.files i).bytes (o.at + x)
  unfolding chunk count size
  chunk-bytes x l =
      let (_, _, out) = read_bounds m.vfs.disk i (λ x. 0) o.at 512 o.live in
      ap chunk.1 (omega arith) ∙ out x ∙ rw (in_chunk) refl
    where
      in_chunk : ltb x (min 512 ((m.vfs.disk.files i).size - o.at)) ≡ true
      in_chunk = ground (arith, l)

  chunk-content : got chunk.0 chunk.1 ≡ take 512 content
  unfolding count size
  chunk-content =
      ap (λ r. got r chunk.1) chunk-count
      ∙ bytes_of-same count 0 o.at chunk.1 (m.vfs.disk.files i).bytes chunk-bytes
      ∙ sym (take-bytes_of 512 (size - o.at) o.at (m.vfs.disk.files i).bytes)
      ∙ ap (take 512) (sym o.rest)

  moved_on :
      IsAdvanced
        (m.fd_tables m.sched.current fd)
        (advance chunk.0 (m.fd_tables m.sched.current fd))
        count
  unfolding count size
  moved_on =
      let sized = o.live.sized in
      advance-IsAdvanced chunk.0 count (m.fd_tables m.sched.current fd) chunk-count
        (omega (arith, sized, o.within, o.place))

  behind-IsOpen : IsOpen fd i (drop 512 content) (put behind m)
  unfolding behind put put_fds view count size
  behind-IsOpen = record {
    at = o.at + count;
    runs = o.runs;
    mounted = o.mounted;
    live = o.live;
    above = o.above;
    below = o.below;
    file = rw (==_self m.sched.current, ==_self fd) (moved_on.file ∙ o.file);
    place = rw (==_self m.sched.current, ==_self fd) (moved_on.place ∙ ap (λ x. x + count) o.place);
    used = rw (==_self m.sched.current, ==_self fd) (moved_on.used ∙ o.used);
    within = omega (arith, o.within);
    rest =
        ap (drop 512) o.rest
        ∙ drop-bytes_of 512 (size - o.at) o.at (m.vfs.disk.files i).bytes
        ∙ bytes_of-behind (size - o.at) count o.at (m.vfs.disk.files i).bytes refl
        ∙ ap (λ a. bytes_of a (o.at + count) (m.vfs.disk.files i).bytes) (omega arith);
  }

  pub next_chunk :
      (t : Machine Ramfs) × (kernel_calls.sys_read fd 512 m ≡ some (take 512 content, t))
      × IsOpen fd i (drop 512 content) t
      × (t.console ≡ m.console)
  unfolding behind put view
  next_chunk = (
    put behind m,
    ap (read_result m) read_call ∙ ap (λ l. some (l, put behind m)) chunk-content,
    behind-IsOpen,
    refl,
  )

printed-IsOpen :
    (fd i : ℕ) (content out : List ℕ) (m : Machine Ramfs)
    → IsOpen fd i content m
    → IsOpen fd i content (put (record (view m) { current = some (running m); console = out }) m)
unfolding view put put_fds
printed-IsOpen fd i content out m o = record {
  at = o.at;
  runs = o.runs;
  mounted = o.mounted;
  live = o.live;
  above = o.above;
  below = o.below;
  file = rw (==_self m.sched.current) o.file;
  place = rw (==_self m.sched.current) o.place;
  used = rw (==_self m.sched.current) o.used;
  within = o.within;
  rest = o.rest;
}

-- Writing to the screen leaves the file open where it is.
pub write-IsOpen :
    (fd i : ℕ) (str content : List ℕ) (m : Machine Ramfs)
    → IsOpen fd i content m
    → IsOpen fd i content (kernel_calls.sys_write 1 str m)
unfolding sys_write view
write-IsOpen fd i str content m o =
    subst
      (λ c. IsOpen fd i content (
        put
          (record (view m) {
            current = c;
            console = (sys_write 1 (λ j. get_or str j 0) (length str) (view m)).1.console;
          })
          m))
      (sym (points fd i content m o).runs) (printed-IsOpen fd i content _ m o)

-- An open file of ramfs is one that cat reads.
unfoldable pub open_file : (fd i : ℕ) → Reader (kernel_calls {F = Ramfs}) fd
open_file fd i = record {
  pending = IsOpen fd i;
  shown = λ m. m.console;
  read_chunk = λ content m o. next_chunk fd i content m o;
  write_shown = console_shown;
  write_pending = λ str content m o. write-IsOpen fd i str content m o;
}
