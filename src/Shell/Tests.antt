-- ===== src/Shell/Tests.antt =====
-- userspace/shell/shell.c: the theorems at a machine with one file and a line that has been typed.
use lightstreak_os.Base.{ℕ, ◌+◌, ◌≡◌, refl, true, some, List, [], ◌∷◌, arith, get_or}
use lightstreak_os.Base.Int.{pos}
use lightstreak_os.Keyboard.{Keyboard, keyboard_getchar}
use lightstreak_os.Ramfs.{Ramfs, RamfsFile, first_index, find_file, str_eq, skip_slash, ramfs_open}
use lightstreak_os.Ramfs.Data.{IsLive}
use lightstreak_os.Scheduler.{proc_running, Pcb}
use lightstreak_os.Vfs.{vfs_open, ramfs_ops}
use lightstreak_os.Syscall.{closed}
use lightstreak_os.Syscall.Machine.{Machine}
use lightstreak_os.Shell.{readline}
use lightstreak_os.Shell.Commands.{cmd_cat}
use lightstreak_os.Shell.Editing.{Edited, newline, erase, insert, IsRead, readline_edits}
use lightstreak_os.Shell.Kernel.{Typed, kernel_calls, terminal}
use lightstreak_os.Shell.Session.{text_of, IsPrinted, cat_prints_file}

-- The keys `l`, `x`, backspace, `s` and enter.
abbrev typed_line : List ℕ
typed_line = b'l' ∷ b'x' ∷ 8 ∷ b's' ∷ 10 ∷ []

abbrev filled : ℕ → Keyboard
filled tail = record {
  kbd_buffer = λ i. get_or typed_line i 0;
  kbd_head = 5;
  kbd_tail = tail;
  shift_held = 0;
}

abbrev note : RamfsFile
note = record { name = b'a' ∷ []; bytes = λ i. 65 + i; size = 700; used = true }

abbrev shell : Pcb
shell = record {
  pid = 1;
  kernel_stack_top = 0xB000;
  state = proc_running;
  exit_code = pos 0;
  next = 1;
}

abbrev booted : Machine Ramfs
booted = record {
  sched = record {
    procs = λ p. shell;
    current = 1;
    run_queue = 1;
    tick_count = 0;
    ticks_per_second = 100;
    esp0 = 0;
  };
  fd_tables = λ p fd. closed;
  vfs = record { mounted_fs = some ramfs_ops; disk = record { files = λ i. note } };
  console = [];
  keyboard = filled 0;
  keys = [];
  pmm = record { bitmap = λ i. 0; total_pages = 65536; used_pages = 0 };
  memory = λ a. 0;
}

line-Typed : Typed typed_line [] (filled 0)
unfolding Typed keyboard_getchar
line-Typed = (
  filled 1,
  [],
  refl,
  (filled 2, [], refl, (filled 3, [], refl, (filled 4, [], refl, (filled 5, [], refl, tt)))),
)

line-Edited :
    Edited 255 [] typed_line (b's' ∷ b'l' ∷ []) [] (b'l' ∷ b'x' ∷ 8 ∷ b' ' ∷ 8 ∷ b's' ∷ 10 ∷ [])
line-Edited = insert _ _ _ _ _ _ refl refl refl (
    insert _ _ _ _ _ _ refl refl refl (
      erase _ _ _ _ _ _ _ refl refl refl
        (insert _ _ _ _ _ _ refl refl refl (newline _ _ _ refl refl))))

readline_edits_example :
    IsRead terminal
      (readline kernel_calls 5 256 [] booted)
      booted
      (b's' ∷ b'l' ∷ [])
      []
      (b'l' ∷ b'x' ∷ 8 ∷ b' ' ∷ 8 ∷ b's' ∷ 10 ∷ [])
unfolding terminal
readline_edits_example =
    readline_edits terminal 256 [] typed_line (b's' ∷ b'l' ∷ []) []
      (b'l' ∷ b'x' ∷ 8 ∷ b' ' ∷ 8 ∷ b's' ∷ 10 ∷ []) 5 booted line-Edited (omega arith) line-Typed

note-IsLive : IsLive booted.vfs.disk 0
note-IsLive = record { in_range = omega arith; used = refl; sized = omega arith }

note_found : vfs_open (b'a' ∷ []) booted.vfs ≡ some 0
unfolding vfs_open ramfs_open skip_slash find_file first_index str_eq
note_found = refl

cat_prints_file_example :
    IsPrinted (cmd_cat kernel_calls 3 (b'a' ∷ []) booted) booted (text_of 0 booted)
cat_prints_file_example =
    cat_prints_file 3 0 3 b'a' [] booted (λ e. absurd (omega (arith, e))) refl note_found
      note-IsLive (omega arith) (omega arith) refl (omega arith)
