-- ===== src/Shell/Commands.antt =====
-- userspace/shell/shell.c: the commands, and the loop that reads and runs them.
use Prim.Native.String.{String}
use lightstreak_os.Base.{
  ℕ, zero, suc, Bool, false, Option, none, some, List, [], ◌∷◌, ◌==◌, if◌then◌else◌, drop, mul32,
}
use lightstreak_os.Base.Text.{text}
use lightstreak_os.Base.Int.{ℤ, pos, negsuc}
use lightstreak_os.Ramfs.{Dirent}
use lightstreak_os.Syscall.Machine.{PsEntry}
use lightstreak_os.Strings.{strcmp, strncmp}
use lightstreak_os.Shell.{Calls, print, print_text, print_num, print_prompt, readline}

abbrev pub is_zero : ℤ → Bool
is_zero (pos n) = n == 0
is_zero (negsuc n) = false

-- `strcmp(cmd, name) == 0` and `strncmp(cmd, name, n) == 0`
abbrev pub is_command : List ℕ → String → Bool
is_command cmd name = is_zero (strcmp cmd (text name))

abbrev pub starts_with : ℕ → List ℕ → String → Bool
starts_with n cmd name = is_zero (strncmp n cmd (text name))

pub state_name : ℕ → List ℕ
state_name state =
    if state == 0
    then text "READY"
    else if state == 1
    then text "RUNNING"
    else if state == 2
    then text "BLOCKED"
    else if state == 3
    then text "ZOMBIE"
    else text "?"

module _ {S : Type 0} (os : Calls S) where
  pub cmd_help : S → S
  cmd_help s =
      let s1 = print_text os "AnubhavOS Shell Commands:\n" s in
      let s2 = print_text os "  help     â\u{80}\u{94} show this help\n" s1 in
      let s3 = print_text os "  ls       â\u{80}\u{94} list files in ramfs\n" s2 in
      let s4 = print_text os "  cat FILE â\u{80}\u{94} display file contents\n" s3 in
      let s5 = print_text os "  echo ... â\u{80}\u{94} print arguments\n" s4 in
      let s6 = print_text os "  clear    â\u{80}\u{94} clear the screen\n" s5 in
      let s7 = print_text os "  uptime   â\u{80}\u{94} seconds since boot\n" s6 in
      let s8 = print_text os "  meminfo  â\u{80}\u{94} physical memory usage\n" s7 in
      print_text os "  ps       â\u{80}\u{94} list running processes\n" s8

  pub list_entries : List Dirent → S → S
  list_entries [] s = s
  list_entries (d ∷ ds) s =
      let named = print os d.name (print_text os "  " s) in
      let sized = print_num os d.size (print_text os "  (" named) in
      list_entries ds (print_text os " bytes)\n" sized)

  pub cmd_ls : S → S
  cmd_ls s = elim (os.sys_readdir 32 s) [
    | none ↦ print_text os "ls: readdir failed\n" s
    | some [] ↦ print_text os "  (no files)\n" s
    | some (d ∷ ds) ↦ list_entries (d ∷ ds) s
  ]

  -- The loop of `cmd_cat`, in chunks of 512 bytes; the fuel is the number of reads.
  unfoldable pub cat_loop : ℕ → ℕ → S → Option S
  cat_loop zero fd s = none
  cat_loop (suc n) fd s = elim (os.sys_read fd 512 s) [
    | none ↦ none
    | some ([], t) ↦ some t
    | some (c ∷ bytes, t) ↦ cat_loop n fd (os.sys_write 1 (c ∷ bytes) t)
  ]

  pub cat_missing : List ℕ → S → S
  cat_missing filename s =
      print_text os "\n" (print os filename (print_text os "cat: file not found: " s))

  -- What `cmd_cat` does with the result of `sys_open`.
  unfoldable pub cat_opened : ℕ → List ℕ → Option ℕ → S → Option S
  cat_opened fuel filename none s = some (cat_missing filename s)
  cat_opened fuel filename (some fd) s = elim (cat_loop fuel fd s) [
    | none ↦ none
    | some t ↦ some (os.sys_close fd t)
  ]

  unfoldable pub cmd_cat : ℕ → List ℕ → S → Option S
  cmd_cat fuel [] s = some (print_text os "cat: usage: cat <filename>\n" s)
  cmd_cat fuel (c ∷ name) s =
      let (fd, t) = os.sys_open (c ∷ name) s in cat_opened fuel (c ∷ name) fd t

  pub cmd_echo : List ℕ → S → S
  cmd_echo [] s = print_text os "\n" s
  cmd_echo (c ∷ args) s = print_text os "\n" (print os (c ∷ args) s)

  abbrev pub spaces : ℕ → List ℕ
  spaces zero = []
  spaces (suc n) = b' ' ∷ spaces n

  pub blank_lines : ℕ → S → S
  blank_lines zero s = s
  blank_lines (suc n) s = blank_lines n (os.sys_write 1 (spaces 80) s)

  pub cmd_clear : S → S
  cmd_clear s = print_text os "\r" (blank_lines 25 s)

  pub cmd_uptime : S → S
  cmd_uptime s =
      let told = print_num os (os.sys_uptime s) (print_text os "Uptime: " s) in
      print_text os " seconds\n" told

  -- A line of `cmd_meminfo`, four KB for each page.
  pub page_line : String → ℕ → S → S
  page_line name pages s =
      print_text os " KB\n" (print_num os (mul32 pages 4) (print_text os name s))

  pub cmd_meminfo : S → S
  cmd_meminfo s = elim (os.sys_meminfo s) [
    | none ↦ print_text os "meminfo: failed\n" s
    | some info ↦
        let total = page_line "  Total: " info.total_pages (print_text os "Physical Memory:\n" s) in
        let free = page_line "  Free:  " info.free_pages total in
        page_line "  Used:  " info.used_pages free
  ]

  pub list_processes : List PsEntry → S → S
  list_processes [] s = s
  list_processes (e ∷ es) s =
      let numbered = print_num os e.pid (print_text os "  " s) in
      let named = print os (state_name e.state) (print_text os "   " numbered) in
      list_processes es (print_text os "\n" named)

  pub cmd_ps : S → S
  cmd_ps s = elim (os.sys_ps 32 s) [
    | none ↦ print_text os "ps: failed\n" s
    | some es ↦ list_processes es (print_text os "PID  STATE\n" s)
  ]

  pub unknown_command : List ℕ → S → S
  unknown_command cmd s =
      let named = print os cmd (print_text os "Unknown command: " s) in
      print_text os "\nType 'help' for a list of commands.\n" named

  -- The branches of the shell's loop; `none` is a command that does not return, or needs more reads
  -- than `fuel`.
  pub run_command : ℕ → List ℕ → S → Option S
  run_command fuel cmd s =
      if is_command cmd "help"
      then some (cmd_help s)
      else if is_command cmd "ls"
      then some (cmd_ls s)
      else if starts_with 4 cmd "cat "
      then cmd_cat fuel (drop 4 cmd) s
      else if starts_with 5 cmd "echo "
      then some (cmd_echo (drop 5 cmd) s)
      else if is_command cmd "echo"
      then some (cmd_echo [] s)
      else if is_command cmd "clear"
      then some (cmd_clear s)
      else if is_command cmd "uptime"
      then some (cmd_uptime s)
      else if is_command cmd "meminfo"
      then some (cmd_meminfo s)
      else if is_command cmd "ps"
      then some (cmd_ps s)
      else if is_command cmd "exit"
      then os.sys_exit 0 (print_text os "Goodbye!\n" s)
      else some (unknown_command cmd s)

  -- The line that `readline` leaves in the buffer, up to its first 0.
  pub c_string : List ℕ → List ℕ → List ℕ
  c_string [] str = str
  c_string (c ∷ line) str = c_string line (if c == 0 then [] else c ∷ str)

  -- One round of the loop.
  pub shell_round : ℕ → S → Option S
  shell_round fuel s = elim (readline os fuel 256 [] (print_prompt os s)) [
    | none ↦ none
    | some ([], t) ↦ some t
    | some (c ∷ line, t) ↦ run_command fuel (c_string (c ∷ line) []) t
  ]

  pub shell_loop : ℕ → ℕ → S → Option S
  shell_loop zero fuel s = some s
  shell_loop (suc n) fuel s = elim (shell_round fuel s) [
    | none ↦ none
    | some t ↦ shell_loop n fuel t
  ]

  pub print_banner : S → S
  print_banner s =
      let s1 = print_text os "\n" s in
      let s2 = print_text os "  ___                _                ___  ___\n" s1 in
      let s3 = print_text os " / _ \\              | |               |  \\/  |\n" s2 in
      let s4 = print_text os "/ /_\\ \\_ __  _   _| |__   __ ___   _| .  . |\n" s3 in
      let s5 = print_text os "|  _  | '_ \\| | | | '_ \\ / _` \\ \\ / / |\\/| |\n" s4 in
      let s6 = print_text os "| | | | | | | |_| | |_) | (_| |\\ V /| |  | |\n" s5 in
      let s7 = print_text os "\\_| |_/_| |_|\\__,_|_.__/ \\__,_| \\_/ \\_|  |_/\n" s6 in
      let s8 = print_text os "\n" s7 in
      print_text os "Welcome to AnubhavOS! Type 'help' for commands.\n\n" s8

  -- `_start` for `n` rounds of its loop.
  pub start_shell : ℕ → ℕ → S → Option S
  start_shell n fuel s = shell_loop n fuel (print_banner s)
