-- ===== src/Launch/Startup/Packed.antt =====
-- tools/mkramfs.c and kernel/fs/ramfs.c: a directory with a shell, and where its image puts the shell.
use lightstreak_os.Base.{
  ℕ, ◌+◌, ◌<◌, ◌≤◌, ◌≡◌, ◌≢◌, ap, sym, subst, ◌∙◌, some, List, [], ◌∷◌, ◌++◌, arith, length,
  length-append, ◌==◌, get_or, Bool-cases, inl, inr, ==_iff,
}
use lightstreak_os.Base.Text.{text}
use lightstreak_os.Mkramfs.{DirEntry, collect, mkramfs, max_files}
use lightstreak_os.Mkramfs.Held.{Held}
use lightstreak_os.Mkramfs.Table.{IsSmall, AreSmall}
use lightstreak_os.Mkramfs.RoundTrip.{ArePlain, collect-AreSmall}
use lightstreak_os.Ramfs.{Ramfs, ramfs_max_files, ramfs_open, skip_slash}
use lightstreak_os.Ramfs.Data.{IsLive}
use lightstreak_os.Ramfs.Image.{HostFile, IsNew, AreDistinct, IsStored, AreStored}
use lightstreak_os.Ramfs.Slots.{find_file_first, IsStored-at, earlier_names}
use lightstreak_os.Launch.Startup.{BootModule, BootInfo, hello}
use lightstreak_os.Launch.Startup.Placement.{IsFlagged}

abbrev pub shell_bin : List ℕ
shell_bin = text "shell.bin"

-- The directory `es` has the program `f` as its shell, and the kernel has room for the files.
pub record HasShell (es : List DirEntry) (front : List HostFile) (f : HostFile)
    (back : List HostFile) : Type 0 where
  pub files : collect max_files es ≡ front ++ (f ∷ back)
  pub plain : ArePlain es
  pub distinct : AreDistinct (front ++ (f ∷ back))
  pub no_hello : IsNew record { name = hello; content = [] } (front ++ (f ∷ back))
  pub named : f.name ≡ shell_bin
  pub nonempty : 0 < length f.content
  pub room : length (front ++ (f ∷ back)) < ramfs_max_files

-- The image of the directory is the first module.
pub record IsModule (bytes : ℕ → ℕ) (mbi : BootInfo) (es : List DirEntry) (m : BootModule)
    : Type 0 where
  pub flagged : IsFlagged mbi
  pub others : List BootModule
  pub first : mbi.mods ≡ m ∷ others
  pub held : Held bytes m.mod_start (mkramfs es)
  pub ends : m.mod_start + length (mkramfs es) ≤ m.mod_end

IsSmall-at :
    (front back : List HostFile) (f : HostFile) → AreSmall (front ++ (f ∷ back)) → IsSmall f
unfolding AreSmall
IsSmall-at [] back f (s, _) = s
IsSmall-at (g ∷ front) back f (_, s) = IsSmall-at front back f s

other_name : hello ≢ shell_bin
other_name e = absurd (omega (arith, ap (λ l. get_or l 0 0) e))

module _ (es : List DirEntry) (front back : List HostFile) (f : HostFile)
    (h : HasShell es front f back) where
  -- The shell is found in the slot behind those in front of it.
  pub loaded_shell :
      (d t : Ramfs)
      → (d.files 0).name ≡ hello
      → AreStored t 1 (front ++ (f ∷ back))
      → ((i : ℕ) → i < 1 → t.files i ≡ d.files i)
      → let i = 1 + length front in
        (ramfs_open shell_bin t ≡ some i) × IsLive t i × IsStored f (t.files i)
  unfolding ramfs_open skip_slash
  loaded_shell d t first st before =
      let here = IsStored-at t 1 front back f st in
      (
        find_file_first shell_bin t (1 + length front) (in_range, here.used, here.named ∙ h.named)
            (λ j l. elim (Bool-cases (j == 0)) [
              | inl z ↦ λ e. other_name (
                  sym first
                  ∙ (sym (ap (λ r. r.name) (before 0 (omega arith)))
                      ∙ (ap (λ x. (t.files x).name) (sym ((==_iff j 0).0 z)) ∙ e)))
              | inr nz ↦ λ e.
                  earlier_names t 1 front back f st h.distinct j (ground (arith, nz)) l
                    (e ∙ sym h.named)
            ]),
        record {
          in_range = in_range;
          used = here.used;
          sized = omega (
            arith,
            here.sized,
            (IsSmall-at front back f
                (subst AreSmall h.files (collect-AreSmall max_files es h.plain))).fits,
          );
        },
        here,
      )
    where
      in_range : 1 + length front < ramfs_max_files
      in_range = omega (arith, h.room, length-append front (f ∷ back))
