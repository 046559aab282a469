-- ===== src/Mkramfs/Table.antt =====
-- tools/mkramfs.c: the parts of an image, and that it has the format that the kernel reads.
use lightstreak_os.Base.{
  ℕ, zero, suc, ◌+◌, ◌*◌, ◌^◌, ◌≤◌, ◌<◌, ◌≡◌, refl, ap, subst, ◌∙◌, List, [], ◌∷◌, ◌++◌, arith,
  length, length-append, add32,
}
use lightstreak_os.Base.Memory.{Memory, load_word}
use lightstreak_os.Ramfs.{ramfs_max_file_size}
use lightstreak_os.Ramfs.Names.{take_short}
use lightstreak_os.Ramfs.Initramfs.{initramfs_magic}
use lightstreak_os.Ramfs.Image.{HostFile, IsEntry, AreEntries}
use lightstreak_os.Mkramfs.{word_bytes, padded, file_size, entry_table, file_data, image, magic}
use lightstreak_os.Mkramfs.Held.{
  Held, Held-append, Held-get_or, Held-load_word, IsText, Held-string_at,
}

-- A file that fits an entry and a slot.
pub record IsSmall (f : HostFile) : Type 0 where
  pub printable : IsText f.name
  pub short : length f.name < 64
  pub fits : length f.content ≤ ramfs_max_file_size

unfoldable pub AreSmall : List HostFile → Type 0
AreSmall [] = Unit {0}
AreSmall (f ∷ fs) = IsSmall f × AreSmall fs

length-padded : (n : ℕ) (name : List ℕ) → length (padded n name) ≡ n
unfolding padded
length-padded zero name = refl
length-padded (suc n) [] = ap suc (length-padded n [])
length-padded (suc n) (c ∷ name) = ap suc (length-padded n name)

length-word_bytes : (w : ℕ) → length (word_bytes w) ≡ 4
unfolding word_bytes
length-word_bytes w = refl

abbrev image_body : List HostFile → List ℕ
image_body fs = entry_table (8 + length fs * 72) fs ++ file_data fs

-- The parts of a table behind the name and the place of its first entry.
abbrev behind_place : ℕ → HostFile → List HostFile → List ℕ
behind_place offset f fs = word_bytes (file_size f) ++ entry_table (add32 offset (file_size f)) fs

abbrev behind_name : ℕ → HostFile → List HostFile → List ℕ
behind_name offset f fs = word_bytes offset ++ behind_place offset f fs

entry_table-cons :
    (offset : ℕ) (f : HostFile) (fs : List HostFile)
    → entry_table offset (f ∷ fs) ≡ padded 64 f.name ++ behind_name offset f fs
unfolding entry_table
entry_table-cons offset f fs = refl

length-entry_table :
    (offset : ℕ) (fs : List HostFile) → length (entry_table offset fs) ≡ length fs * 72
unfolding entry_table
length-entry_table offset [] = refl
length-entry_table offset (f ∷ fs) = omega (
  arith,
  ap (λ l. length l) (entry_table-cons offset f fs),
  length-append (padded 64 f.name) (behind_name offset f fs),
  length-append (word_bytes offset) (behind_place offset f fs),
  length-append (word_bytes (file_size f)) (entry_table (add32 offset (file_size f)) fs),
  length-padded 64 f.name,
  length-word_bytes offset,
  length-word_bytes (file_size f),
  length-entry_table (add32 offset (file_size f)) fs,
)

-- The four parts of a table with an entry in front.
record IsTable (mem : Memory) (p offset : ℕ) (f : HostFile) (fs : List HostFile) : Type 0 where
  name : Held mem p (padded 64 f.name)
  place : Held mem (p + 64) (word_bytes offset)
  size : Held mem (p + 68) (word_bytes (file_size f))
  rest : Held mem (p + 72) (entry_table (add32 offset (file_size f)) fs)

held-IsTable :
    (mem : Memory) (p offset : ℕ) (f : HostFile) (fs : List HostFile)
    → Held mem p (entry_table offset (f ∷ fs))
    → IsTable mem p offset f fs
held-IsTable mem p offset f fs h =
    let (name, h1) =
      Held-append mem (padded 64 f.name) (behind_name offset f fs) p
        (subst (Held mem p) (entry_table-cons offset f fs) h) in
    let (place, h2) = Held-append mem (word_bytes offset) (behind_place offset f fs) _ h1 in
    let (size, h3) =
      Held-append mem (word_bytes (file_size f)) (entry_table (add32 offset (file_size f)) fs) _
        h2 in
    record {
      name = name;
      place =
          subst (λ a. Held mem a (word_bytes offset)) (omega (arith, length-padded 64 f.name))
            place;
      size =
          subst (λ a. Held mem a (word_bytes (file_size f)))
            (omega (arith, length-padded 64 f.name, length-word_bytes offset)) size;
      rest =
          subst (λ a. Held mem a (entry_table (add32 offset (file_size f)) fs))
            (omega (
              arith,
              length-padded 64 f.name,
              length-word_bytes offset,
              length-word_bytes (file_size f),
            ))
            h3;
    }

-- The bytes of a small file are written whole.
file_data_cons :
    (f : HostFile) (fs : List HostFile)
    → length f.content ≤ ramfs_max_file_size
    → file_data (f ∷ fs) ≡ f.content ++ file_data fs
unfolding file_data
file_data_cons f fs h =
    ap (λ l. l ++ file_data fs) (take_short (file_size f) f.content (omega (arith, h)))

image-AreEntries :
    (fs : List HostFile) (mem : Memory) (start p offset : ℕ)
    → Held mem p (entry_table offset fs)
    → Held mem (start + offset) (file_data fs)
    → p + length fs * 72 < 2 ^ 32
    → start + offset + length (file_data fs) < 2 ^ 32
    → AreSmall fs
    → AreEntries mem start p fs
unfolding AreEntries AreSmall
image-AreEntries [] mem start p offset ht hd bp bd small = tt
image-AreEntries (f ∷ fs) mem start p offset ht hd0 bp bd0 (s, small) =
    let whole = file_data_cons f fs s.fits in
    let hd = subst (Held mem (start + offset)) whole hd0 in
    let bd = subst (λ l. start + offset + length l < 2 ^ 32) whole bd0 in
    let t = held-IsTable mem p offset f fs ht in
    let (here, behind) = Held-append mem f.content (file_data fs) (start + offset) hd in
    let sum = length-append f.content (file_data fs) in
    let fits = s.fits in
    let size : file_size f ≡ length f.content = omega (arith, fits) in
    let off : load_word mem (p + 64) ≡ offset =
      Held-load_word mem (p + 64) offset t.place (omega (arith, bp)) (omega (arith, bd)) in
    let entry : IsEntry mem start p f = record {
      named =
          Held-string_at mem f.name 64 (2 ^ 32) p t.name s.printable s.short
            (omega (arith, s.short)) (omega (arith, bp));
      short = s.short;
      sized =
          ap (load_word mem) (omega (arith, bp))
          ∙ Held-load_word mem (p + 68) (file_size f) t.size (omega (arith, bp)) (omega arith)
          ∙ size;
      fits = fits;
      held = λ x l.
          ap (λ a. mem (add32 (add32 start a) x)) (ap (load_word mem) (omega (arith, bp)) ∙ off)
          ∙ ap mem (omega (arith, bd, sum, l))
          ∙ Held-get_or mem f.content (start + offset) x here l;
    } in
    (
      entry,
      subst (λ a. AreEntries mem start a fs) (omega (arith, bp))
          (image-AreEntries fs mem start (p + 72) (add32 offset (file_size f)) t.rest
            (subst (λ a. Held mem a (file_data fs)) (omega (arith, bd, sum, size)) behind)
            (omega (arith, bp)) (omega (arith, bd, sum, size)) small),
    )

length-image : (fs : List HostFile) → length (image fs) ≡ 8 + length fs * 72 + length (file_data fs)
unfolding image
length-image fs = omega (
  arith,
  length-append (word_bytes magic) (word_bytes (length fs) ++ image_body fs),
  length-append (word_bytes (length fs)) (image_body fs),
  length-append (entry_table (8 + length fs * 72) fs) (file_data fs),
  length-entry_table (8 + length fs * 72) fs,
  length-word_bytes magic,
  length-word_bytes (length fs),
)

-- What memory holds that holds an image.
pub record IsImage (mem : Memory) (start : ℕ) (fs : List HostFile) : Type 0 where
  pub first : load_word mem start ≡ initramfs_magic
  pub second : load_word mem (add32 start 4) ≡ length fs
  pub entries : AreEntries mem start (add32 start 8) fs

pub image-IsImage :
    (fs : List HostFile) (mem : Memory) (start : ℕ)
    → Held mem start (image fs)
    → start + length (image fs) < 2 ^ 32
    → AreSmall fs
    → IsImage mem start fs
unfolding image
image-IsImage fs mem start h b small =
    let size = length-image fs in
    let (m, h1) =
      Held-append mem (word_bytes magic) (word_bytes (length fs) ++ image_body fs) start h in
    let (n, h2) = Held-append mem (word_bytes (length fs)) (image_body fs) (start + 4) (
      subst (λ a. Held mem a (word_bytes (length fs) ++ image_body fs))
        (omega (arith, length-word_bytes magic)) h1) in
    let (table, bytes) =
      Held-append mem (entry_table (8 + length fs * 72) fs) (file_data fs) (start + 8) (
        subst (λ a. Held mem a (image_body fs)) (omega (arith, length-word_bytes (length fs)))
          h2) in
    record {
      first = Held-load_word mem start magic m (omega (arith, b, size)) (omega arith);
      second =
          ap (load_word mem) (omega (arith, b, size))
          ∙ Held-load_word mem (start + 4) (length fs) n (omega (arith, b, size))
              (omega (arith, b, size));
      entries =
          subst (λ a. AreEntries mem start a fs) (omega (arith, b, size))
            (image-AreEntries fs mem start (start + 8) (8 + length fs * 72) table
              (subst (λ a. Held mem a (file_data fs))
                (omega (arith, length-entry_table (8 + length fs * 72) fs)) bytes)
              (omega (arith, b, size)) (omega (arith, b, size)) small);
    }
