-- ===== src/Ramfs/Loaded.antt =====
-- kernel/fs/ramfs.c: what `initramfs_load` makes of an image that has the format of
-- tools/mkramfs.c.
use lightstreak_os.Base.{
  ℕ, suc, ◌+◌, ◌≤◌, ◌<◌, ◌≡◌, ◌≢◌, refl, ap, sym, subst, ◌∙◌, true, List, [], ◌∷◌, arith, ltb,
  length, add32, ℕ_discrete,
}
use lightstreak_os.Base.Memory.{Memory, load_word}
use lightstreak_os.Ramfs.{Ramfs, ramfs_max_files}
use lightstreak_os.Ramfs.Image.{
  HostFile, AreEntries, IsNew, AreDistinct, IsStored, AreStored, IsPrefix, AreFresh, load_entry_lem,
}
use lightstreak_os.Ramfs.Initramfs.{initramfs_magic, load_entry, load_entries, initramfs_load}

next-IsPrefix :
    (s t : Ramfs) (k : ℕ)
    → IsPrefix s k
    → (t.files k).used ≡ true
    → ((i : ℕ) → i ≢ k → t.files i ≡ s.files i)
    → IsPrefix t (suc k)
next-IsPrefix s t k p u same i l = elim (ℕ_discrete i k) [
  | yes e ↦ ap (λ x. (t.files x).used) e ∙ u ∙ in_use i e
  | no ne ↦ ap (λ r. r.used) (same i ne) ∙ p i l ∙ further i ne
]
  where
    in_use : (i : ℕ) → i ≡ k → true ≡ ltb i (suc k)
    in_use i e = ground (arith, e)

    further : (i : ℕ) → i ≢ k → ltb i k ≡ ltb i (suc k)
    further i ne = ground (arith, ne)

next-AreFresh :
    (s t : Ramfs) (k : ℕ) (f : HostFile) (fs : List HostFile)
    → IsNew f fs
    → AreFresh s k fs
    → (t.files k).name ≡ f.name
    → ((i : ℕ) → i ≢ k → t.files i ≡ s.files i)
    → AreFresh t (suc k) fs
next-AreFresh s t k f [] n a u same = a
next-AreFresh s t k f (g ∷ gs) (d, n) (here, a) u same = (
  λ i l. elim (ℕ_discrete i k) [
    | yes e ↦ λ x. d (sym u ∙ ap (λ y. (t.files y).name) (sym e) ∙ x)
    | no ne ↦ λ x. here i (omega (arith, l, ne)) (sym (ap (λ r. r.name) (same i ne)) ∙ x)
  ],
  next-AreFresh s t k f gs n a u same,
)

record IsLoaded (s t : Ramfs) (k : ℕ) (fs : List HostFile) : Type 0 where
  stored : AreStored t k fs
  before : (i : ℕ) → i < k → t.files i ≡ s.files i

load_entries-IsLoaded :
    (fs : List HostFile) (mem : Memory) (start p k : ℕ) (s : Ramfs)
    → AreEntries mem start p fs
    → AreDistinct fs
    → IsPrefix s k
    → AreFresh s k fs
    → k + length fs ≤ ramfs_max_files
    → IsLoaded s (load_entries (length fs) mem start p s) k fs
unfolding load_entries AreEntries AreDistinct AreStored
load_entries-IsLoaded [] mem start p k s es d pre fresh h = record {
  stored = es;
  before = λ i l. refl;
}
load_entries-IsLoaded (f ∷ fs) mem start p k s (e, es) (n, d) pre (here, fresh) h =
    let t = load_entry mem start p s in
    let (put, same) = load_entry_lem mem start p k s f e pre (omega (arith, h)) here in
    let rest =
      load_entries-IsLoaded fs mem start (add32 p 72) (suc k) t es d
        (next-IsPrefix s t k pre put.used same) (next-AreFresh s t k f fs n fresh put.named same)
        (omega (arith, h)) in
    record {
      stored = (subst (IsStored f) (sym (rest.before k (omega arith))) put, rest.stored);
      before = λ i l. rest.before i (omega (arith, l)) ∙ same i (λ x. absurd (omega (arith, x, l)));
    }

-- For memory that holds an image (the magic number, the number of files, and for each file an entry
-- with a name of at most 63 characters, a size of at most 32 KB and the place of its bytes), with
-- different names, none of which is in the first `k` slots that are in use, and room for all of
-- them: `initramfs_load` stores each file, with its name, size and bytes, in the slots from `k` on,
-- and leaves the first `k` slots as they are.
pub initramfs_loads :
    (fs : List HostFile) (mem : Memory) (start k : ℕ) (s : Ramfs)
    → load_word mem start ≡ initramfs_magic
    → load_word mem (add32 start 4) ≡ length fs
    → AreEntries mem start (add32 start 8) fs
    → AreDistinct fs
    → IsPrefix s k
    → AreFresh s k fs
    → k + length fs ≤ ramfs_max_files
    → let t = initramfs_load mem start s in
      AreStored t k fs × ((i : ℕ) → i < k → t.files i ≡ s.files i)
unfolding initramfs_load
initramfs_loads fs mem start k s magic count es d pre fresh h =
    let r = load_entries-IsLoaded fs mem start (add32 start 8) k s es d pre fresh h in
    rw (magic, count) (r.stored, r.before)
