-- ===== src/Mkramfs.antt =====
-- tools/mkramfs.c: the image with the files of a directory of the host. The entries of the directory,
-- with what `stat`, `fopen` and `malloc` say of them, are the argument; the file that is written is
-- the list of its bytes, with words as a little-endian host writes them.
pub mod Held
pub mod Table
pub mod RoundTrip
mod Tests
use lightstreak_os.Base.{
  ℕ, zero, suc, ◌+◌, ◌-◌, ◌*◌, ◌/◌, ◌%◌, ◌^◌, Bool, true, false, ◌&&◌, List, [], ◌∷◌, ◌++◌, ◌==◌,
  if◌then◌else◌, length, take, add32, not,
}
use lightstreak_os.Ramfs.Image.{HostFile}

abbrev pub magic : ℕ
magic = 0x52414D46

abbrev pub name_len : ℕ
name_len = 64

abbrev pub max_files : ℕ
max_files = 64

pub record DirEntry : Type 0 where
  pub d_name : List ℕ
  pub is_regular : Bool
  pub is_readable : Bool
  pub content : List ℕ

abbrev pub is_hidden : List ℕ → Bool
is_hidden [] = false
is_hidden (c ∷ name) = c == b'.'

abbrev pub host_file : DirEntry → HostFile
host_file e = record { name = take (name_len - 1) e.d_name; content = e.content }

abbrev pub is_packed : DirEntry → Bool
is_packed e = not (is_hidden e.d_name) && e.is_regular && e.is_readable

-- The loop over the directory, with room for `room` more files, behind which nothing is taken.
unfoldable pub collect : ℕ → List DirEntry → List HostFile
collect room [] = []
collect room (e ∷ es) =
    let keep = not (room == 0) && is_packed e in
    let rest = collect (if keep then room - 1 else room) es in
    if keep then host_file e ∷ rest else rest

unfoldable pub word_bytes : ℕ → List ℕ
word_bytes w = w % 2 ^ 8 ∷ w / 2 ^ 8 % 2 ^ 8 ∷ w / 2 ^ 16 % 2 ^ 8 ∷ w / 2 ^ 24 % 2 ^ 8 ∷ []

-- The first `n` characters of a name, filled up with zeros.
unfoldable pub padded : ℕ → List ℕ → List ℕ
padded zero name = []
padded (suc n) [] = 0 ∷ padded n []
padded (suc n) (c ∷ name) = c ∷ padded n name

abbrev pub file_size : HostFile → ℕ
file_size f = length f.content % 2 ^ 32

-- The table of entries, with the bytes of the first file at `offset`.
unfoldable pub entry_table : ℕ → List HostFile → List ℕ
entry_table offset [] = []
entry_table offset (f ∷ fs) =
    let rest = entry_table (add32 offset (file_size f)) fs in
    padded name_len f.name ++ (word_bytes offset ++ (word_bytes (file_size f) ++ rest))

unfoldable pub file_data : List HostFile → List ℕ
file_data [] = []
file_data (f ∷ fs) = take (file_size f) f.content ++ file_data fs

-- The header has the magic number and the number of files.
unfoldable pub image : List HostFile → List ℕ
image fs =
    let body = entry_table (8 + length fs * 72) fs ++ file_data fs in
    word_bytes magic ++ (word_bytes (length fs) ++ body)

unfoldable pub mkramfs : List DirEntry → List ℕ
mkramfs es = image (collect max_files es)
