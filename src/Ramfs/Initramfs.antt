-- ===== src/Ramfs/Initramfs.antt =====
-- kernel/fs/ramfs.c: `initramfs_load` reads the image that the boot loader put into memory: a magic
-- number, the number of files, an entry of 72 bytes for each file, and the files' bytes. The name in
-- an entry ends with its first 0; 2^32 characters are as many as there are addresses.
use lightstreak_os.Base.{
  ℕ, zero, suc, ◌^◌, Option, none, some, ltb, ◌==◌, if◌then◌else◌, update, add32,
}
use lightstreak_os.Base.Memory.{Memory, load_word, string_at}
use lightstreak_os.Ramfs.{RamfsFile, Ramfs, ramfs_max_file_size, mem_copy, ramfs_create}

abbrev pub initramfs_magic : ℕ
initramfs_magic = 0x52414D46

-- The file with the first bytes from `src` on, at most 32 KB.
abbrev pub filled : Memory → ℕ → ℕ → RamfsFile → RamfsFile
filled mem src fsize f =
    let copy_len = if ltb ramfs_max_file_size fsize then ramfs_max_file_size else fsize in
    record f { bytes = mem_copy f.bytes 0 (λ j. mem (add32 src j)) 0 copy_len; size = copy_len }

-- What the loop does with the result of `ramfs_create`.
unfoldable pub fill_slot : Memory → ℕ → ℕ → Option ℕ × Ramfs → Ramfs
fill_slot mem src fsize (none, s) = s
fill_slot mem src fsize (some i, s) =
    if fsize == 0
    then s
    else record s { files = update s.files i (filled mem src fsize (s.files i)) }

-- The entry at `p` of the image at `start`.
unfoldable pub load_entry : Memory → ℕ → ℕ → Ramfs → Ramfs
load_entry mem start p s =
    fill_slot mem (add32 start (load_word mem (add32 p 64))) (load_word mem (add32 p 68))
      (ramfs_create (string_at (2 ^ 32) mem p) s)

unfoldable pub load_entries : ℕ → Memory → ℕ → ℕ → Ramfs → Ramfs
load_entries zero mem start p s = s
load_entries (suc n) mem start p s =
    load_entries n mem start (add32 p 72) (load_entry mem start p s)

unfoldable pub initramfs_load : Memory → ℕ → Ramfs → Ramfs
initramfs_load mem start s =
    let loaded = load_entries (load_word mem (add32 start 4)) mem start (add32 start 8) s in
    if load_word mem start == initramfs_magic then loaded else s
