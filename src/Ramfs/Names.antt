-- ===== src/Ramfs/Names.antt =====
-- kernel/fs/ramfs.c: the directory: creating files and finding them by name.
use lightstreak_os.Base.{
  ℕ, zero, suc, ◌-◌, ◌<◌, ◌≤◌, ◌≡◌, ◌≢◌, ◌⊎◌, refl, true, false, not, Option, none, some, List, [],
  ◌∷◌, arith, update, take, length, length-take, ap, inl, inr, subst, subst₂, sym, ◌∙◌, ℕ_discrete,
}
use lightstreak_os.Ramfs.{
  Ramfs, ramfs_max_files, vfs_max_filename, is_file, find_file, find_free_slot, new_file,
  ramfs_create,
}
use lightstreak_os.Ramfs.Copy.{str_eq_iff, First, found, nothing, first_index_lem}

-- Slot `i` holds the file `name`.
abbrev pub Holds : Ramfs → List ℕ → ℕ → Type 0
Holds s name i = (i < ramfs_max_files) × ((s.files i).used ≡ true) × ((s.files i).name ≡ name)

-- No slot holds the file `name`.
abbrev pub IsAbsent : Ramfs → List ℕ → Type 0
IsAbsent s name = (i : ℕ) → ¬ Holds s name i

-- `find_file` returns a slot that holds the name, or no slot does.
pub find_file_lem :
    (name : List ℕ) (s : Ramfs)
    → ((i : ℕ) × (find_file name s ≡ some i) × Holds s name i)
      ⊎ ((find_file name s ≡ none) × IsAbsent s name)
unfolding find_file
find_file_lem name s = go (first_index_lem (is_file name s) ramfs_max_files 0)
  where
    go :
        {o : Option ℕ}
        → First (is_file name s) 0 ramfs_max_files o
        → ((i : ℕ) × (o ≡ some i) × Holds s name i) ⊎ ((o ≡ none) × IsAbsent s name)
    go (found k p q t before e) =
        inl (k, e, (omega arith, ground arith, (str_eq_iff (s.files k).name name).0 (ground arith)))
    go (nothing before e) = inr (
      e,
      λ i (l, u, n).
          let same = (str_eq_iff (s.files i).name name).1 n in
          let test = before i (omega arith) (omega arith) in absurd (ground arith),
    )

-- `find_free_slot` returns a slot that is not in use, or all 64 are.
pub find_free_slot_lem :
    (s : Ramfs)
    → ((i : ℕ) × (find_free_slot s ≡ some i) × (i < ramfs_max_files) × ((s.files i).used ≡ false))
      ⊎ ((find_free_slot s ≡ none) × ((i : ℕ) → i < ramfs_max_files → (s.files i).used ≡ true))
unfolding find_free_slot
find_free_slot_lem s = go (first_index_lem (λ i. not (s.files i).used) ramfs_max_files 0)
  where
    go :
        {o : Option ℕ}
        → First (λ i. not (s.files i).used) 0 ramfs_max_files o
        → ((i : ℕ) × (o ≡ some i) × (i < ramfs_max_files) × ((s.files i).used ≡ false))
          ⊎ ((o ≡ none) × ((i : ℕ) → i < ramfs_max_files → (s.files i).used ≡ true))
    go (found k p q t before e) = inl (k, e, omega arith, ground arith)
    go (nothing before e) =
        inr (e, λ i l. let test = before i (omega arith) (omega arith) in ground arith)

-- The names of the files are pairwise different.
abbrev pub IsDirectory : Ramfs → Type 0
IsDirectory s = (name : List ℕ) (i j : ℕ) → Holds s name i → Holds s name j → i ≡ j

pub take_short : (n : ℕ) (xs : List ℕ) → length xs ≤ n → take n xs ≡ xs
take_short zero [] h = refl
take_short zero (x ∷ xs) h = absurd (omega arith)
take_short (suc n) [] h = refl
take_short (suc n) (x ∷ xs) h = ap (λ l. x ∷ l) (take_short n xs (omega arith))

-- In a directory the slot that holds a name is the one that is found.
pub find_file_unique :
    (name : List ℕ) (s : Ramfs) (i : ℕ) → IsDirectory s → Holds s name i → find_file name s ≡ some i
find_file_unique name s i d h = elim (find_file_lem name s) [
  | inl (k, e, hk) ↦ e ∙ ap some (d name k i hk h)
  | inr (e, none_there) ↦ absurd (none_there i h)
]

-- What `ramfs_create` does: a fresh slot gets the name, cut to 63 characters, and no bytes; or the
-- name is there or all slots are in use, the result is -1 and nothing changes.
pub create_cases :
    (name : List ℕ) (s : Ramfs)
    → ((i : ℕ) × (i < ramfs_max_files)
        × ((s.files i).used ≡ false)
        × IsAbsent s name
        × (ramfs_create name s
            ≡ (some i, record s { files = update s.files i (new_file name (s.files i)) })))
      ⊎ ((ramfs_create name s ≡ (none, s))
          × (((i : ℕ) × Holds s name i)
              ⊎ ((i : ℕ) → i < ramfs_max_files → (s.files i).used ≡ true)))
unfolding ramfs_create
create_cases name s = elim (find_file_lem name s) [
  | inl (i, e, h) ↦ inr (ground arith, inl (i, h))
  | inr (e, absent) ↦ elim (find_free_slot_lem s) [
    | inl (i, f, l, free) ↦ inl (i, l, free, absent, ground arith)
    | inr (f, full) ↦ inr (ground arith, inr full)
  ]
]

abbrev created : List ℕ → Ramfs → ℕ → Ramfs
created name s i = record s { files = update s.files i (new_file name (s.files i)) }

module _ (name : List ℕ) (s : Ramfs) (i : ℕ) (short : length name < vfs_max_filename) where
  -- A name in the new directory is the new one, or was there before.
  Holds-created :
      (other : List ℕ) (j : ℕ)
      → Holds (created name s i) other j
      → ((j ≡ i) × (other ≡ name)) ⊎ ((j ≢ i) × Holds s other j)
  Holds-created other j (l, u, n) = elim (ℕ_discrete i j) [
    | yes e ↦
        let here : (created name s i).files j ≡ new_file name (s.files i) = ground arith in
        inl (
          sym e,
          sym n ∙ ap (λ f. f.name) here ∙ take_short (vfs_max_filename - 1) name (omega arith),
        )
    | no ne ↦
        let there : (created name s i).files j ≡ s.files j = ground arith in
        inr
          (λ e. ne (sym e), (l, sym (ap (λ f. f.used) there) ∙ u, sym (ap (λ f. f.name) there) ∙ n))
  ]

  created-Holds :
      (other : List ℕ) (j : ℕ) → j ≢ i → Holds s other j → Holds (created name s i) other j
  created-Holds other j ne (l, u, n) =
      let there : (created name s i).files j ≡ s.files j = ground arith in
      (l, ap (λ f. f.used) there ∙ u, ap (λ f. f.name) there ∙ n)

  created-here : i < ramfs_max_files → Holds (created name s i) name i
  created-here l =
      let here : (created name s i).files i ≡ new_file name (s.files i) = ground arith in
      (
        l,
        ap (λ f. f.used) here,
        ap (λ f. f.name) here ∙ take_short (vfs_max_filename - 1) name (omega arith),
      )

  created-IsDirectory : IsAbsent s name → IsDirectory s → IsDirectory (created name s i)
  created-IsDirectory absent d other a b ha hb = elim (Holds-created other a ha) [
    | inl (ea, na) ↦ elim (Holds-created other b hb) [
      | inl (eb, nb) ↦ ea ∙ sym eb
      | inr (neb, old) ↦ absurd (absent b (subst (λ x. Holds s x b) na old))
    ]
    | inr (nea, old) ↦ elim (Holds-created other b hb) [
      | inl (eb, nb) ↦ absurd (absent a (subst (λ x. Holds s x a) nb old))
      | inr (neb, old') ↦ d other a b old old'
    ]
  ]

-- In a directory whose names are different, creating a file with a name of at most 63 characters
-- keeps the names different; the new file is empty and found under its name, and every file that
-- was there is found as before.
pub create_open :
    (name : List ℕ) (s t : Ramfs) (i : ℕ)
    → IsDirectory s
    → length name < vfs_max_filename
    → ramfs_create name s ≡ (some i, t)
    → IsDirectory t
      × (find_file name t ≡ some i)
      × ((t.files i).size ≡ 0)
      × ((other : List ℕ) (j : ℕ) → Holds s other j → find_file other t ≡ some j)
create_open name s t i d l e = elim (create_cases name s) [
  | inr (failed, _) ↦ absurd (ground arith)
  | inl (k, in_range, free, absent, made) ↦
      let same : i ≡ k = ground arith in
      let after : t ≡ created name s k = ground arith in
      let keeps = created-IsDirectory name s k l absent d in
      subst₂ (Opened name s) (sym same) (sym after) (
        keeps,
        find_file_unique name (created name s k) k keeps (created-here name s k l in_range),
        ground arith,
        λ other j h. find_file_unique other (created name s k) j keeps (
            created-Holds name s k l other j
              (λ q. let busy = h.1 in absurd (cc (subst (λ x. (s.files x).used ≡ true) q busy))) h),
      )
]
  where
    Opened : List ℕ → Ramfs → ℕ → Ramfs → Type 0
    Opened name s i t =
        IsDirectory t
        × (find_file name t ≡ some i)
        × ((t.files i).size ≡ 0)
        × ((other : List ℕ) (j : ℕ) → Holds s other j → find_file other t ≡ some j)

-- A name of 64 characters or more is not found after it was created: the slot holds its first 63.
pub create_long :
    (name : List ℕ) (s t : Ramfs) (i : ℕ)
    → vfs_max_filename ≤ length name
    → ramfs_create name s ≡ (some i, t)
    → find_file name t ≡ none
create_long name s t i l e = elim (create_cases name s) [
  | inr (failed, _) ↦ absurd (ground arith)
  | inl (k, in_range, free, absent, made) ↦
      let after : t ≡ created name s k = ground arith in
      subst (λ u. find_file name u ≡ none) (sym after)
        (elim (find_file_lem name (created name s k)) [
          | inr (gone, _) ↦ gone
          | inl (j, _, (lj, uj, nj)) ↦ elim (ℕ_discrete k j) [
            | yes same ↦
                let here : (created name s k).files j ≡ new_file name (s.files k) = ground arith in
                let cut : take (vfs_max_filename - 1) name ≡ name =
                  ap (λ f. f.name) (sym here) ∙ nj in
                absurd
                  (omega (arith, ap (λ x. length x) cut, length-take (vfs_max_filename - 1) name))
            | no ne ↦
                let there : (created name s k).files j ≡ s.files j = ground arith in
                absurd (
                  absent j
                    (lj, ap (λ f. f.used) (sym there) ∙ uj, ap (λ f. f.name) (sym there) ∙ nj))
          ]
        ])
]
