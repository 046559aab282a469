-- ===== src/Shell.antt =====
-- userspace/shell/shell.c: the shell over the system calls it makes. A buffer in memory is the list
-- of its bytes.
pub mod Commands
pub mod Editing
pub mod Cat
pub mod Kernel
pub mod Bytes
pub mod Reading
pub mod Session
mod Tests
use Prim.Native.String.{String}
use lightstreak_os.Base.{
  ℕ, zero, suc, ◌-◌, ◌||◌, Bool, Option, none, some, List, [], ◌∷◌, leb, ◌==◌, if◌then◌else◌,
  length,
}
use lightstreak_os.Base.Text.{text}
use lightstreak_os.Ramfs.{Dirent}
use lightstreak_os.Syscall.Machine.{PsEntry}
use lightstreak_os.Strings.{utoa}

-- meminfo_t
pub record MemInfo : Type 0 where
  pub total_pages : ℕ
  pub free_pages : ℕ
  pub used_pages : ℕ

-- The system calls as the shell uses them, over the state `S` of the kernel. The result of
-- `sys_write` and of `sys_close` is not looked at; `none` of `sys_open`, `sys_readdir`,
-- `sys_meminfo` and `sys_ps` is a negative result, and the length of a list is a result that is
-- not. The bytes of `sys_read` are `[]` for a result that is not positive; `none` of `sys_read` and
-- of `sys_exit` is a call that does not return.
pub record Calls (S : Type 0) : Type 0 where
  pub sys_write : ℕ → List ℕ → S → S
  pub sys_read : ℕ → ℕ → S → Option (List ℕ × S)
  pub sys_open : List ℕ → S → Option ℕ × S
  pub sys_close : ℕ → S → S
  pub sys_readdir : ℕ → S → Option (List Dirent)
  pub sys_uptime : S → ℕ
  pub sys_meminfo : S → Option MemInfo
  pub sys_ps : ℕ → S → Option (List PsEntry)
  pub sys_exit : ℕ → S → Option S

module _ {S : Type 0} (os : Calls S) where
  unfoldable pub print : List ℕ → S → S
  print str s = os.sys_write 1 str s

  abbrev pub print_text : String → S → S
  print_text str s = print (text str) s

  pub print_num : ℕ → S → S
  print_num n s = print (utoa n 10) s

  pub print_prompt : S → S
  print_prompt s = print_text "anubhav-os:/ $ " s

  -- A backspace takes the last character of the line, and another character is echoed. The line has
  -- its last character in front.
  unfoldable pub edit_line : ℕ → List ℕ → S → List ℕ × S
  edit_line c line s =
      if c == 8 || c == 127
      then elim line [ [] ↦ ([], s) | d ∷ before ↦ (before, os.sys_write 1 (text "\u{8} \u{8}") s) ]
      else (c ∷ line, os.sys_write 1 (c ∷ []) s)

  -- The loop of `readline` with the line so far: a newline or a full buffer ends it. The fuel is the
  -- number of characters that are read.
  unfoldable pub readline : ℕ → ℕ → List ℕ → S → Option (List ℕ × S)
  readline zero max line s = if leb (max - 1) (length line) then some (line, s) else none
  readline (suc n) max line s =
      if leb (max - 1) (length line) then some (line, s) else elim (os.sys_read 0 1 s) [
        | none ↦ none
        | some ([], t) ↦ readline n max line t
        | some (c ∷ more, t) ↦
            let (next, u) = edit_line c line t in
            let rest = readline n max next u in
            if c == 10 || c == 13 then some (line, print_text "\n" t) else rest
      ]
