-- ===== src/Mkramfs/RoundTrip.antt =====
-- tools/mkramfs.c and kernel/fs/ramfs.c: the kernel loads what the tool has packed.
use lightstreak_os.Base.{
  ℕ, zero, suc, ◌+◌, ◌-◌, ◌^◌, ◌≤◌, ◌<◌, ◌≡◌, ◌&&◌, not, List, [], ◌∷◌, arith, ◌==◌, length,
  length-take, take, Bool-cases, inl, inr,
}
use lightstreak_os.Base.Memory.{Memory}
use lightstreak_os.Ramfs.{Ramfs, ramfs_max_files, ramfs_max_file_size}
use lightstreak_os.Ramfs.Initramfs.{initramfs_load}
use lightstreak_os.Ramfs.Image.{AreDistinct, AreStored, IsPrefix, AreFresh}
use lightstreak_os.Ramfs.Loaded.{initramfs_loads}
use lightstreak_os.Mkramfs.{DirEntry, is_packed, collect, mkramfs, max_files}
use lightstreak_os.Mkramfs.Table.{AreSmall, image-IsImage}
use lightstreak_os.Mkramfs.Held.{Held, IsText}

-- A name without a NUL, as every host has, and a content that fits a slot.
pub record IsPlain (e : DirEntry) : Type 0 where
  pub text : IsText e.d_name
  pub fits : length e.content ≤ ramfs_max_file_size

unfoldable pub ArePlain : List DirEntry → Type 0
ArePlain [] = Unit {0}
ArePlain (e ∷ es) = IsPlain e × ArePlain es

take-IsText : (n : ℕ) (name : List ℕ) → IsText name → IsText (take n name)
unfolding IsText
take-IsText zero name h = tt
take-IsText (suc n) [] h = tt
take-IsText (suc n) (c ∷ name) (nz, h) = (nz, take-IsText n name h)

pub collect-AreSmall : (room : ℕ) (es : List DirEntry) → ArePlain es → AreSmall (collect room es)
unfolding ArePlain AreSmall collect
collect-AreSmall room [] h = tt
collect-AreSmall room (e ∷ es) (p, h) = elim (Bool-cases (not (room == 0) && is_packed e)) [
  | inl k ↦ rw (k) (
    record {
      printable = take-IsText 63 e.d_name p.text;
      short = omega (arith, length-take 63 e.d_name);
      fits = p.fits;
    },
    collect-AreSmall (room - 1) es h,
  )
  | inr k ↦ rw (k) (collect-AreSmall room es h)
]

-- For memory that holds, from an address on, the image that `mkramfs` makes of a directory (names
-- without a NUL and contents of at most 32 KB; the files that are packed have different names),
-- with the first `k` slots in use under other names and room for the files: `initramfs_load` of
-- that address stores each file that was packed, with its name cut to 63 characters, its size and
-- its bytes, in the slots from `k` on, and leaves the first `k` slots as they are.
pub mkramfs_loads :
    (es : List DirEntry) (mem : Memory) (start k : ℕ) (s : Ramfs)
    → ArePlain es
    → AreDistinct (collect max_files es)
    → Held mem start (mkramfs es)
    → start + length (mkramfs es) < 2 ^ 32
    → IsPrefix s k
    → AreFresh s k (collect max_files es)
    → k + length (collect max_files es) ≤ ramfs_max_files
    → let t = initramfs_load mem start s in
      AreStored t k (collect max_files es) × ((i : ℕ) → i < k → t.files i ≡ s.files i)
unfolding mkramfs
mkramfs_loads es mem start k s plain distinct held below pre fresh room =
    let files = collect max_files es in
    let i = image-IsImage files mem start held below (collect-AreSmall max_files es plain) in
    initramfs_loads files mem start k s i.first i.second i.entries distinct pre fresh room
