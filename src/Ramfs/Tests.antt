-- ===== src/Ramfs/Tests.antt =====
-- kernel/fs/ramfs.c: runs of the file system, and its theorems at a concrete directory.
use lightstreak_os.Base.{
  ℕ, ◌+◌, ◌-◌, ◌<◌, ◌≡◌, ◌≢◌, refl, false, none, some, List, [], ◌∷◌, arith, ltb, get_or, ◌++◌,
  add32, true, ==_iff, ap, sym, ◌∙◌, ◌==◌, if◌then◌else◌, replicate,
}
use lightstreak_os.Base.Bits.{holds_below, holds_below_lem}
use lightstreak_os.Base.Memory.{Memory, load_word, string_at}
use lightstreak_os.Base.Int.{pos}
use lightstreak_os.Ramfs.{
  RamfsFile, Ramfs, str_eq, first_index, find_file, find_free_slot, ramfs_create, ramfs_read,
  ramfs_write, ramfs_open, skip_slash, new_file,
}
use lightstreak_os.Ramfs.Data.{IsLive, write_read, read_bounds}
use lightstreak_os.Ramfs.Initramfs.{initramfs_magic, initramfs_load}
use lightstreak_os.Ramfs.Image.{HostFile, IsEntry, AreEntries, AreDistinct, AreStored}
use lightstreak_os.Ramfs.Loaded.{initramfs_loads}
use lightstreak_os.Ramfs.Names.{Holds, IsDirectory, create_open, create_long}

abbrev no_file : RamfsFile
no_file = record { name = []; bytes = λ _. 0; size = 0; used = false }

abbrev empty : Ramfs
empty = record { files = λ _. no_file }

-- After `ramfs_create("a")`.
abbrev one : Ramfs
one = record { files = λ j. if 0 == j then new_file (b'a' ∷ []) no_file else no_file }

creates : ramfs_create (b'a' ∷ []) empty ≡ (some 0, one)
unfolding ramfs_create find_file find_free_slot first_index str_eq
creates = refl

opens : ramfs_open (b'/' ∷ b'a' ∷ []) one ≡ some 0
unfolding ramfs_open skip_slash find_file first_index str_eq
opens = refl

one-IsLive : IsLive one 0
one-IsLive = record { in_range = omega arith; used = refl; sized = omega arith }

empty-IsDirectory : IsDirectory empty
empty-IsDirectory name i j (_, u, _) h = cc

create_open_example :
    IsDirectory one
    × (find_file (b'a' ∷ []) one ≡ some 0)
    × ((one.files 0).size ≡ 0)
    × ((other : List ℕ) (j : ℕ) → Holds empty other j → find_file other one ≡ some j)
create_open_example = create_open (b'a' ∷ []) empty one 0 empty-IsDirectory (omega arith) creates

abbrev long_name : List ℕ
long_name = replicate 64 b'a'

-- After `ramfs_create` of a name of 64 characters.
abbrev cut_off : Ramfs
cut_off = record { files = λ j. if 0 == j then new_file long_name no_file else no_file }

creates_long : ramfs_create long_name empty ≡ (some 0, cut_off)
unfolding ramfs_create find_file find_free_slot first_index str_eq
creates_long = refl

create_long_test : find_file long_name cut_off ≡ none
create_long_test = create_long long_name empty cut_off 0 (omega arith) creates_long

-- 2^32 - 1 bytes from offset 1: the byte behind the file's 32 KB is overwritten.
write_read_test :
    let (r, t) = ramfs_write (pos 0) (λ i. i) 3 5 one in
    let (q, got) = ramfs_read (pos 0) (λ _. 0) 3 5 t in
    (r ≡ pos 5) × (q ≡ pos 5) × ((x : ℕ) → x < 5 → got x ≡ x)
write_read_test = write_read one 0 (λ i. i) (λ _. 0) 3 5 one-IsLive (omega arith)

read_bounds_test :
    let (r, out) = ramfs_read (pos 0) (λ _. 7) 3 5 one in
    (r ≡ pos 0) × ((x : ℕ) → x < 0 → 3 + x < 0) × ((x : ℕ) → out x ≡ (if ltb x 0 then 0 else 7))
read_bounds_test = read_bounds one 0 (λ _. 7) 3 5 one-IsLive

-- An image with the file `a`, whose bytes are `hi`, behind the file `b` that was there before.
abbrev image : List ℕ
image =
    0x46 ∷ 0x4D ∷ 0x41 ∷ 0x52 ∷ 1 ∷ 0 ∷ 0 ∷ 0 ∷ b'a' ∷ replicate 63 0
    ++ 80 ∷ 0 ∷ 0 ∷ 0 ∷ 2 ∷ 0 ∷ 0 ∷ 0 ∷ b'h' ∷ b'i' ∷ []

abbrev boot_memory : Memory
boot_memory a = get_or image (a - 0x200000) 0

abbrev with_b : Ramfs
with_b = record { files = λ j. if j == 0 then new_file (b'b' ∷ []) no_file else no_file }

abbrev greeting : HostFile
greeting = record { name = b'a' ∷ []; content = b'h' ∷ b'i' ∷ [] }

greeting-IsEntry : IsEntry boot_memory 0x200000 0x200008 greeting
unfolding string_at load_word holds_below
greeting-IsEntry = record {
  named = refl;
  short = omega arith;
  sized = refl;
  fits = omega arith;
  held = λ x l. (==_iff _ _).0 (
      holds_below_lem
        (λ x. boot_memory (add32 (add32 0x200000 80) x) == get_or (b'h' ∷ b'i' ∷ []) x 0) 2 x l
        same);
}
  where
    same :
        holds_below
          (λ x. boot_memory (add32 (add32 0x200000 80) x) == get_or (b'h' ∷ b'i' ∷ []) x 0)
          2
        ≡ true
    same = refl

entries : AreEntries boot_memory 0x200000 0x200008 (greeting ∷ [])
unfolding AreEntries
entries = (greeting-IsEntry, tt)

distinct : AreDistinct (greeting ∷ [])
unfolding AreDistinct
distinct = (tt, tt)

magic_there : load_word boot_memory 0x200000 ≡ initramfs_magic
unfolding load_word
magic_there = refl

count_there : load_word boot_memory 0x200004 ≡ 1
unfolding load_word
count_there = refl

b_not_a : (i : ℕ) → i ≡ 0 → (with_b.files i).name ≢ (b'a' ∷ [])
b_not_a i z e =
    absurd (omega (arith, ap (λ l. get_or l 0 0) (sym (ap (λ x. (with_b.files x).name) z) ∙ e)))

initramfs_loads_test :
    let t = initramfs_load boot_memory 0x200000 with_b in
    AreStored t 1 (greeting ∷ []) × ((i : ℕ) → i < 1 → t.files i ≡ with_b.files i)
initramfs_loads_test =
    initramfs_loads (greeting ∷ []) boot_memory 0x200000 1 with_b magic_there count_there entries
      distinct (λ i l. ground arith) (λ i l. b_not_a i (omega (arith, l)), tt) (omega arith)
