-- ===== src/Mkramfs/Tests.antt =====
-- tools/mkramfs.c: a directory with a hidden file, a directory and a file.
use lightstreak_os.Base.{
  ℕ, ◌-◌, ◌<◌, ◌≡◌, refl, ap, true, false, List, [], ◌∷◌, arith, length, get_or, ◌≢◌, ◌==◌,
}
use lightstreak_os.Base.Memory.{Memory}
use lightstreak_os.Base.Text.{text}
use lightstreak_os.Ramfs.{Ramfs, RamfsFile}
use lightstreak_os.Ramfs.Initramfs.{initramfs_load}
use lightstreak_os.Ramfs.Image.{AreDistinct, AreStored}
use lightstreak_os.Mkramfs.{
  DirEntry, collect, word_bytes, padded, entry_table, file_data, image, mkramfs, max_files,
}
use lightstreak_os.Mkramfs.Held.{Held, Held_of_bytes, IsText}
use lightstreak_os.Mkramfs.RoundTrip.{ArePlain, mkramfs_loads}

abbrev directory : List DirEntry
directory =
    record { d_name = text ".git"; is_regular = true; is_readable = true; content = [] }
    ∷ record { d_name = text "dir"; is_regular = false; is_readable = true; content = [] }
    ∷ record { d_name = text "motd"; is_regular = true; is_readable = true; content = text "hello" }
    ∷ []

abbrev boot_memory : Memory
boot_memory a = get_or (mkramfs directory) (a - 0x200000) 0

abbrev free_slot : RamfsFile
free_slot = record { name = []; bytes = λ i. 0; size = 0; used = false }

abbrev empty : Ramfs
empty = record { files = λ i. free_slot }

packs : collect max_files directory ≡ record { name = text "motd"; content = text "hello" } ∷ []
unfolding collect
packs = refl

image_size : length (mkramfs directory) ≡ 85
unfolding mkramfs image collect entry_table padded word_bytes file_data
image_size = refl

nonzero : {c : ℕ} → (c == 0) ≡ false → ◌≢◌ {A = ℕ} c 0
nonzero {c} h e = absurd (ground (arith, h, e))

plain : ArePlain directory
unfolding ArePlain IsText
plain = (
  record {
    text = (nonzero refl, (nonzero refl, (nonzero refl, (nonzero refl, tt))));
    fits = omega arith;
  },
  (
    record { text = (nonzero refl, (nonzero refl, (nonzero refl, tt))); fits = omega arith },
    (
      record {
        text = (nonzero refl, (nonzero refl, (nonzero refl, (nonzero refl, tt))));
        fits = omega arith;
      },
      tt,
    ),
  ),
)

distinct : AreDistinct (collect max_files directory)
unfolding AreDistinct collect
distinct = (tt, tt)

held : Held boot_memory 0x200000 (mkramfs directory)
held =
    Held_of_bytes boot_memory (mkramfs directory) 0x200000
      (λ x l. ap (λ j. get_or (mkramfs directory) j 0) (omega arith))

fresh : (i : ℕ) → i < 0 → ◌≢◌ {A = List ℕ} (empty.files i).name (text "motd")
fresh i l = absurd (omega (arith, l))

mkramfs_loads_example :
    let t = initramfs_load boot_memory 0x200000 empty in
    AreStored t 0 (collect max_files directory) × ((i : ℕ) → i < 0 → t.files i ≡ empty.files i)
unfolding collect
mkramfs_loads_example =
    mkramfs_loads directory boot_memory 0x200000 0 empty plain distinct held
      (omega (arith, image_size)) (λ i l. ground arith) (fresh, tt) (omega arith)
