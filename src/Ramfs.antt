-- ===== src/Ramfs.antt =====
-- kernel/fs/ramfs.c: the in-memory file system. A C string is the list of its characters in front of
-- the NUL; a buffer and a file's data are functions of the index. An `int` result that is an index
-- or -1 is an `Option`; an `int32_t` is a signed integer.
pub mod Copy
pub mod Data
pub mod Names
pub mod Initramfs
pub mod Image
pub mod Loaded
pub mod Slots
mod Tests
use lightstreak_os.Base.{
  ℕ, zero, suc, ◌+◌, ◌-◌, ◌*◌, ◌%◌, ◌^◌, Bool, true, false, ◌&&◌, ◌||◌, not, Option, none, some,
  List, [], ◌∷◌, ltb, leb, ◌==◌, if◌then◌else◌, update, take, for_range, add32, sub32,
}
use lightstreak_os.Base.Int.{ℤ, pos, negsuc, minus_one, to_int32}

abbrev pub ramfs_max_files : ℕ
ramfs_max_files = 64

abbrev pub ramfs_max_file_size : ℕ
ramfs_max_file_size = 32 * 1024

abbrev pub vfs_max_filename : ℕ
vfs_max_filename = 64

pub record RamfsFile : Type 0 where
  pub name : List ℕ
  pub bytes : ℕ → ℕ
  pub size : ℕ
  pub used : Bool

pub record Ramfs : Type 0 where
  pub files : ℕ → RamfsFile

unfoldable pub str_eq : List ℕ → List ℕ → Bool
str_eq [] [] = true
str_eq [] (y ∷ ys) = false
str_eq (x ∷ xs) [] = false
str_eq (x ∷ xs) (y ∷ ys) = let rest = str_eq xs ys in if not (x == y) then false else rest

-- `n` bytes from `src + from` to `dst + to`, both buffers apart; what a copy behind the end of a file
-- would overwrite is not modelled.
pub mem_copy : (ℕ → ℕ) → ℕ → (ℕ → ℕ) → ℕ → ℕ → ℕ → ℕ
mem_copy dst to src from n = for_range n 0 (λ i mem. update mem (to + i) (src (from + i))) dst

-- The first index from `i` on, of `n`, that passes the test.
unfoldable pub first_index : (ℕ → Bool) → ℕ → ℕ → Option ℕ
first_index test zero i = none
first_index test (suc n) i =
    let rest = first_index test n (suc i) in if test i then some i else rest

abbrev pub is_file : List ℕ → Ramfs → ℕ → Bool
is_file name s i = (s.files i).used && str_eq (s.files i).name name

unfoldable pub find_file : List ℕ → Ramfs → Option ℕ
find_file name s = first_index (is_file name s) ramfs_max_files 0

pub find_free_slot : Ramfs → Option ℕ
find_free_slot s = first_index (λ i. not (s.files i).used) ramfs_max_files 0

-- The slot's old data stays where it is.
abbrev pub new_file : List ℕ → RamfsFile → RamfsFile
new_file name f = record f { name = take (vfs_max_filename - 1) name; size = 0; used = true }

pub ramfs_create : List ℕ → Ramfs → Option ℕ × Ramfs
ramfs_create name s = elim (find_file name s) [
  | some i ↦ (none, s)
  | none ↦ elim (find_free_slot s) [
    | none ↦ (none, s)
    | some i ↦ (some i, record s { files = update s.files i (new_file name (s.files i)) })
  ]
]

-- A leading `/` is skipped.
unfoldable pub skip_slash : List ℕ → List ℕ
skip_slash [] = []
skip_slash (c ∷ path) = if c == b'/' then path else c ∷ path

unfoldable pub ramfs_open : List ℕ → Ramfs → Option ℕ
ramfs_open path s = find_file (skip_slash path) s

-- `file_idx < 0 || file_idx >= RAMFS_MAX_FILES || !files[file_idx].used` fails.
pub live_file : ℤ → Ramfs → Option ℕ
live_file (negsuc n) s = none
live_file (pos i) s =
    if leb ramfs_max_files i then none else if not (s.files i).used then none else some i

-- The result is the count and the buffer after the call.
pub ramfs_read : ℤ → (ℕ → ℕ) → ℕ → ℕ → Ramfs → ℤ × (ℕ → ℕ)
ramfs_read file_idx buf offset len s = elim (live_file file_idx s) [
  | none ↦ (minus_one, buf)
  | some i ↦
      let f = s.files i in
      let available = sub32 f.size offset in
      let n = if ltb available len then available else len in
      if leb f.size offset then (pos 0, buf) else (to_int32 n, mem_copy buf 0 f.bytes offset n)
]

-- The count that `ramfs_write` copies.
pub clamp : ℕ → ℕ → ℕ
clamp offset len =
    if ltb ramfs_max_file_size (add32 offset len) then sub32 ramfs_max_file_size offset else len

pub write_file : (ℕ → ℕ) → ℕ → ℕ → RamfsFile → RamfsFile
write_file buf offset n f = record f {
  bytes = mem_copy f.bytes offset buf 0 n;
  size = if ltb f.size (add32 offset n) then add32 offset n else f.size;
}

pub ramfs_write : ℤ → (ℕ → ℕ) → ℕ → ℕ → Ramfs → ℤ × Ramfs
ramfs_write file_idx buf offset len s = elim (live_file file_idx s) [
  | none ↦ (minus_one, s)
  | some i ↦
      let n = clamp offset len in
      (to_int32 n, record s { files = update s.files i (write_file buf offset n (s.files i)) })
]

pub ramfs_close : ℤ → Ramfs → ℤ
ramfs_close file_idx s = pos 0

pub record Dirent : Type 0 where
  pub name : List ℕ
  pub size : ℕ

-- The entries that the loop stores: from slot `i` on, of `n`, at most `room`.
pub readdir_from : ℕ → ℕ → ℕ → Ramfs → List Dirent
readdir_from zero i room s = []
readdir_from (suc n) i zero s = []
readdir_from (suc n) i (suc room) s =
    let f = s.files i in
    let skip = readdir_from n (suc i) (suc room) s in
    let here : Dirent = record { name = take (vfs_max_filename - 1) f.name; size = f.size } in
    let rest = readdir_from n (suc i) room s in if f.used then here ∷ rest else skip

pub ramfs_readdir : ℕ → Ramfs → List Dirent
ramfs_readdir max s = readdir_from ramfs_max_files 0 max s

-- `ramfs_init` empties the 64 slots.
pub ramfs_init : Ramfs → Ramfs
ramfs_init s =
    for_range ramfs_max_files 0
      (λ i t. record t {
        files = update t.files i (record (t.files i) { used = false; size = 0; name = [] });
      })
      s
