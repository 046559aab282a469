-- ===== src/Ramfs/Image.antt =====
-- tools/mkramfs.c and kernel/fs/ramfs.c: the format of an image, and what one entry of it becomes.
use lightstreak_os.Base.{
  ℕ, suc, ◌+◌, ◌-◌, ◌^◌, ◌≤◌, ◌<◌, ◌≡◌, ◌≢◌, refl, ap, sym, subst, ◌∙◌, true, false, not, Bool,
  ◌&&◌, Option, none, some, List, [], ◌∷◌, arith, ltb, leb, ◌==◌, ==_self, ==_ne, ==_iff,
  if◌then◌else◌, Bool-cases, inl, inr, length, get_or, update, add32, ℕ_discrete,
}
use lightstreak_os.Base.Memory.{Memory, load_word, string_at}
use lightstreak_os.Ramfs.{
  RamfsFile, Ramfs, ramfs_max_files, ramfs_max_file_size, vfs_max_filename, mem_copy, find_file,
  find_free_slot, new_file, ramfs_create,
}
use lightstreak_os.Ramfs.Copy.{found, nothing, first_index_lem, mem_copy_lem}
use lightstreak_os.Ramfs.Names.{find_file_lem, take_short}
use lightstreak_os.Ramfs.Initramfs.{filled, fill_slot, load_entry}

-- A file of the host, as the image holds it.
pub record HostFile : Type 0 where
  pub name : List ℕ
  pub content : List ℕ

-- The entry at `p` of the image at `start` is that of the file.
pub record IsEntry (mem : Memory) (start p : ℕ) (f : HostFile) : Type 0 where
  pub named : string_at (2 ^ 32) mem p ≡ f.name
  pub short : length f.name < vfs_max_filename
  pub sized : load_word mem (add32 p 68) ≡ length f.content
  pub fits : length f.content ≤ ramfs_max_file_size
  pub held :
      (x : ℕ)
      → x < length f.content
      → mem (add32 (add32 start (load_word mem (add32 p 64))) x) ≡ get_or f.content x 0

unfoldable pub AreEntries : Memory → ℕ → ℕ → List HostFile → Type 0
AreEntries mem start p [] = Unit {0}
AreEntries mem start p (f ∷ fs) = IsEntry mem start p f × AreEntries mem start (add32 p 72) fs

-- The file `f` has another name than those behind it.
abbrev pub IsNew : HostFile → List HostFile → Type 0
IsNew f [] = Unit {0}
IsNew f (g ∷ gs) = (f.name ≢ g.name) × IsNew f gs

unfoldable pub AreDistinct : List HostFile → Type 0
AreDistinct [] = Unit {0}
AreDistinct (f ∷ fs) = IsNew f fs × AreDistinct fs

-- A slot that holds the file.
pub record IsStored (f : HostFile) (r : RamfsFile) : Type 0 where
  pub used : r.used ≡ true
  pub named : r.name ≡ f.name
  pub sized : r.size ≡ length f.content
  pub held : (x : ℕ) → x < length f.content → r.bytes x ≡ get_or f.content x 0

-- The files stand in the slots from `k` on.
unfoldable pub AreStored : Ramfs → ℕ → List HostFile → Type 0
AreStored s k [] = Unit {0}
AreStored s k (f ∷ fs) = IsStored f (s.files k) × AreStored s (suc k) fs

-- The first `k` slots are in use and the others are free.
abbrev pub IsPrefix : Ramfs → ℕ → Type 0
IsPrefix s k = (i : ℕ) → i < ramfs_max_files → (s.files i).used ≡ ltb i k

-- No file of the first `k` slots has a name of the list.
abbrev pub AreFresh : Ramfs → ℕ → List HostFile → Type 0
AreFresh s k [] = Unit {0}
AreFresh s k (f ∷ fs) = ((i : ℕ) → i < k → (s.files i).name ≢ f.name) × AreFresh s k fs

prefix-find_file :
    (s : Ramfs) (k : ℕ) (name : List ℕ)
    → IsPrefix s k
    → ((i : ℕ) → i < k → (s.files i).name ≢ name)
    → find_file name s ≡ none
prefix-find_file s k name p fresh = elim (find_file_lem name s) [
  | inl (i, e, (l, u, n)) ↦ absurd (fresh i (ground (arith, p i l, u)) n)
  | inr (e, absent) ↦ e
]

prefix-find_free_slot :
    (s : Ramfs) (k : ℕ) → IsPrefix s k → k < ramfs_max_files → find_free_slot s ≡ some k
unfolding find_free_slot
prefix-find_free_slot s k p h =
    elim (first_index_lem (λ i. not (s.files i).used) ramfs_max_files 0) [
      | found q lo hi t before e ↦ elim (ℕ_discrete q k) [
        | yes same ↦ e ∙ ap some same
        | no other ↦
            let behind : k ≤ q = ground (arith, p q (omega (arith, hi)), t) in
            absurd (ground (arith, p k h, before k (omega arith) (omega (arith, behind, other))))
      ]
      | nothing before e ↦ absurd (ground (arith, p k h, before k (omega arith) (omega (arith, h))))
    ]

pub prefix-create :
    (s : Ramfs) (k : ℕ) (name : List ℕ)
    → IsPrefix s k
    → k < ramfs_max_files
    → ((i : ℕ) → i < k → (s.files i).name ≢ name)
    → ramfs_create name s
      ≡ (some k, record s { files = update s.files k (new_file name (s.files k)) })
unfolding ramfs_create
prefix-create s k name p h fresh =
    rw (prefix-find_file s k name p fresh, ramfs_create)
      (rw (prefix-find_free_slot s k p h, ramfs_create) refl)

entry-IsStored :
    (mem : Memory) (start p : ℕ) (f : HostFile) (old : RamfsFile)
    → IsEntry mem start p f
    → let src = add32 start (load_word mem (add32 p 64)) in
      let made = new_file f.name old in
      IsStored f (if length f.content == 0 then made else filled mem src (length f.content) made)
entry-IsStored mem start p f old e = elim (Bool-cases (length f.content == 0)) [
  | inl z ↦
      let none_left = (==_iff (length f.content) 0).0 z in
      rw (z) (record {
        used = refl;
        named = take_short (vfs_max_filename - 1) f.name (omega (arith, e.short));
        sized = sym none_left;
        held = λ x l. absurd (omega (arith, l, none_left));
      })
  | inr nz ↦ rw (nz) (record {
    used = refl;
    named = take_short (vfs_max_filename - 1) f.name (omega (arith, e.short));
    sized = rw (whole) refl;
    held = λ x l. rw (whole) (copied x l ∙ e.held x l);
  })
]
  where
    whole : ltb ramfs_max_file_size (length f.content) ≡ false
    whole = ground (arith, e.fits)

    copied :
        (x : ℕ)
        → x < length f.content
        → mem_copy old.bytes 0
            (λ j. mem (add32 (add32 start (load_word mem (add32 p 64))) j))
            0
            (length f.content)
            x
          ≡ mem (add32 (add32 start (load_word mem (add32 p 64))) x)
    copied x l =
        mem_copy_lem old.bytes 0 (λ j. mem (add32 (add32 start (load_word mem (add32 p 64))) j)) 0
          (length f.content) x
        ∙ rw (inside) (ap (λ y. mem (add32 (add32 start (load_word mem (add32 p 64))) y)) same)
      where
        inside : (leb 0 x && ltb x (0 + length f.content)) ≡ true
        inside = ground (arith, l)

        same : 0 + (x - 0) ≡ x
        same = omega arith

-- The slot behind an entry, and the others.
pub load_entry_lem :
    (mem : Memory) (start p k : ℕ) (s : Ramfs) (f : HostFile)
    → IsEntry mem start p f
    → IsPrefix s k
    → k < ramfs_max_files
    → ((i : ℕ) → i < k → (s.files i).name ≢ f.name)
    → let t = load_entry mem start p s in
      IsStored f (t.files k) × ((i : ℕ) → i ≢ k → t.files i ≡ s.files i)
unfolding load_entry fill_slot
load_entry_lem mem start p k s f e pre h fresh =
    rw (e.named, e.sized) (subst P (sym (prefix-create s k f.name pre h fresh)) slot)
  where
    src : ℕ
    src = add32 start (load_word mem (add32 p 64))

    P : Option ℕ × Ramfs → Type 0
    P out =
        let t = fill_slot mem src (length f.content) out in
        IsStored f (t.files k) × ((i : ℕ) → i ≢ k → t.files i ≡ s.files i)

    made : RamfsFile
    made = new_file f.name (s.files k)

    stored :
        (b : Bool)
        → (length f.content == 0) ≡ b
        → IsStored f (if b then made else filled mem src (length f.content) made)
    stored b z =
        subst (λ x. IsStored f (if x then made else filled mem src (length f.content) made)) z
          (entry-IsStored mem start p f (s.files k) e)

    slot : P (some k, record s { files = update s.files k made })
    slot = elim (Bool-cases (length f.content == 0)) [
      | inl z ↦
          rw (z) (rw (==_self k) (stored true z), λ i ne. rw (==_ne k i (λ x. ne (sym x))) refl)
      | inr z ↦
          rw (z) (rw (==_self k) (stored false z), λ i ne. rw (==_ne k i (λ x. ne (sym x))) refl)
    ]
