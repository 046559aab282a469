-- ===== src/Ramfs/Slots.antt =====
-- kernel/fs/ramfs.c: which slots are in use, under which names, and which one a name leads to.
use lightstreak_os.Base.{
  ℕ, zero, suc, ◌+◌, ◌<◌, ◌≤◌, ◌≡◌, ◌≢◌, refl, ap, sym, subst, ◌∙◌, true, false, ◌&&◌, some, List,
  [], ◌∷◌, ◌++◌, arith, leb, ltb, length, if◌then◌else◌, update, for_range, Option-cases, inl, inr,
  ℕ_discrete, dec_lt, ==_self, ==_ne,
}
use lightstreak_os.Base.Int.{ℤ}
use lightstreak_os.Ramfs.{
  Ramfs, ramfs_max_files, is_file, find_file, ramfs_init, ramfs_write, live_file, write_file, clamp,
}
use lightstreak_os.Ramfs.Copy.{str_eq_iff, found, nothing, first_index_lem}
use lightstreak_os.Ramfs.Image.{HostFile, IsNew, AreDistinct, IsStored, AreStored, IsPrefix}
use lightstreak_os.Ramfs.Names.{Holds}

abbrev emptied : ℕ → Ramfs → Ramfs
emptied i t = record t {
  files = update t.files i (record (t.files i) { used = false; size = 0; name = [] });
}

init_loop :
    (n i x : ℕ) (s : Ramfs)
    → ((for_range n i emptied s).files x).used
      ≡ (if leb i x && ltb x (i + n) then false else (s.files x).used)
unfolding for_range
init_loop zero i x s = ground arith
init_loop (suc n) i x s = elim (ℕ_discrete i x) [
  | yes e ↦ init_loop n (suc i) x (emptied i s) ∙ ground (arith, e, gone e)
  | no ne ↦ init_loop n (suc i) x (emptied i s) ∙ rw (==_ne i x ne) (ground (arith, ne))
]
  where
    gone : i ≡ x → ((emptied i s).files x).used ≡ false
    gone e = subst (λ y. ((emptied i s).files y).used ≡ false) e (rw (==_self i) refl)

pub ramfs_init-IsPrefix : (s : Ramfs) → IsPrefix (ramfs_init s) 0
unfolding ramfs_init
ramfs_init-IsPrefix s i h = ground (arith, h, init_loop ramfs_max_files 0 i s)

-- A write changes neither which slots are in use nor their names.
pub write_names :
    (idx : ℤ) (buf : ℕ → ℕ) (offset len : ℕ) (s : Ramfs) (x : ℕ)
    → let t = (ramfs_write idx buf offset len s).1 in
      ((t.files x).used ≡ (s.files x).used) × ((t.files x).name ≡ (s.files x).name)
unfolding ramfs_write write_file
write_names idx buf offset len s x = elim (Option-cases (live_file idx s)) [
  | inl e ↦ rw (ramfs_write, e) (refl, refl)
  | inr (i, e) ↦
      rw (ramfs_write, e)
        (elim (ℕ_discrete i x) [
          | yes same ↦
              subst
                (λ y.
                  ((update s.files i (write_file buf offset (clamp offset len) (s.files i)) y).used
                    ≡ (s.files y).used)
                  × ((update s.files i (write_file buf offset (clamp offset len) (s.files i))
                        y).name
                      ≡ (s.files y).name))
                same (rw (==_self i) (refl, refl))
          | no other ↦ rw (==_ne i x other) (refl, refl)
        ])
]

-- The first slot that holds a name is the one that is found.
pub find_file_first :
    (name : List ℕ) (s : Ramfs) (i : ℕ)
    → Holds s name i
    → ((j : ℕ) → j < i → (s.files j).name ≢ name)
    → find_file name s ≡ some i
unfolding find_file
find_file_first name s i (l, u, n) before =
    elim (first_index_lem (is_file name s) ramfs_max_files 0) [
      | found k lo hi t skipped e ↦ elim (dec_lt k i) [
        | yes below ↦
            absurd (before k below ((str_eq_iff (s.files k).name name).0 (ground (arith, t))))
        | no above ↦ elim (dec_lt i k) [
          | yes passed ↦ absurd (ground (arith, here, skipped i (omega arith) passed))
          | no same ↦ e ∙ ap some (omega (arith, above, same))
        ]
      ]
      | nothing skipped e ↦
          absurd (ground (arith, here, skipped i (omega arith) (omega (arith, l))))
    ]
  where
    here : is_file name s i ≡ true
    here = ground (arith, u, (str_eq_iff (s.files i).name name).1 n)

pub IsStored-at :
    (t : Ramfs) (k : ℕ) (front back : List HostFile) (f : HostFile)
    → AreStored t k (front ++ (f ∷ back))
    → IsStored f (t.files (k + length front))
unfolding AreStored
IsStored-at t k [] back f (here, _) = subst (λ x. IsStored f (t.files x)) (omega arith) here
IsStored-at t k (g ∷ front) back f (_, rest) =
    subst (λ x. IsStored f (t.files x)) (omega arith) (IsStored-at t (suc k) front back f rest)

new_name :
    (g f : HostFile) (front back : List HostFile) → IsNew g (front ++ (f ∷ back)) → g.name ≢ f.name
new_name g f [] back (n, _) = n
new_name g f (h ∷ front) back (_, n) = new_name g f front back n

-- The files in front of one have other names.
pub earlier_names :
    (t : Ramfs) (k : ℕ) (front back : List HostFile) (f : HostFile)
    → AreStored t k (front ++ (f ∷ back))
    → AreDistinct (front ++ (f ∷ back))
    → (j : ℕ) → k ≤ j
    → j < k + length front
    → (t.files j).name ≢ f.name
unfolding AreStored AreDistinct
earlier_names t k [] back f st d j lo hi = absurd (omega (arith, lo, hi))
earlier_names t k (g ∷ front) back f (here, rest) (n, d) j lo hi = elim (ℕ_discrete k j) [
  | yes e ↦ λ z. new_name g f front back n (sym here.named ∙ (ap (λ x. (t.files x).name) e ∙ z))
  | no ne ↦
      earlier_names t (suc k) front back f rest d j (omega (arith, lo, ne)) (omega (arith, hi))
]
