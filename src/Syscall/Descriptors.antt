-- ===== src/Syscall/Descriptors.antt =====
-- sys_open and sys_close: which descriptors are given out and taken back.
use lightstreak_os.Base.{
  ℕ, ◌≤◌, ◌<◌, ◌≡◌, ◌≢◌, refl, ap, sym, ◌∙◌, subst, Bool, true, false, ◌||◌, not, none, some, List,
  arith, ltb, leb, ==_self, ==_ne, Option-cases, Bool-cases, ◌⊎◌, inl, inr,
}
use lightstreak_os.Base.Int.{ℤ, pos, minus_one}
use lightstreak_os.Ramfs.Copy.{found, nothing, first_index_lem}
use lightstreak_os.Vfs.{vfs_open}
use lightstreak_os.Syscall.{
  FdEntry, Process, Sys, max_fds, set_entry, closed, free_fd, sys_open, sys_close, open_for,
  close_for,
}

abbrev pub opened_entry : ℕ → FdEntry
opened_entry i = record { file_idx = pos i; offset = 0; in_use = true }

-- Descriptor `fd` is the least free one behind standard input and output.
pub record IsLeastFree (cur : Process) (fd : ℕ) : Type 0 where
  pub above : 3 ≤ fd
  pub below : fd < max_fds
  pub free : (cur.fd_table fd).in_use ≡ false
  pub least : (j : ℕ) → 3 ≤ j → j < fd → (cur.fd_table j).in_use ≡ true

free_fd_cases :
    (cur : Process)
    → ((free_fd cur ≡ none) × ((j : ℕ) → 3 ≤ j → j < max_fds → (cur.fd_table j).in_use ≡ true))
      ⊎ ((fd : ℕ) × (free_fd cur ≡ some fd) × IsLeastFree cur fd)
unfolding free_fd
free_fd_cases cur = elim (first_index_lem (λ i. not (cur.fd_table i).in_use) 29 3) [
  | nothing absent e ↦ inl (e, λ j lo hi. not_false _ (absent j lo (omega arith)))
  | found k lo hi t before e ↦ inr (
    k,
    e,
    record {
      above = lo;
      below = omega arith;
      free = not_true _ t;
      least = λ j p q. not_false _ (before j p q);
    },
  )
]
  where
    not_false : (b : Bool) → not b ≡ false → b ≡ true
    not_false true h = refl
    not_false false h = cc

    not_true : (b : Bool) → not b ≡ true → b ≡ false
    not_true true h = cc
    not_true false h = refl

module _ {F : Type 0} where
  -- What `sys_open` comes to: no descriptor is left, or no file is found, or the least free
  -- descriptor gets the file.
  pub data Opened (path : List ℕ) (s : Sys F) (cur : Process) : ℤ × Sys F → Type 0 where
    full :
        {out : ℤ × Sys F}
        → ((j : ℕ) → 3 ≤ j → j < max_fds → (cur.fd_table j).in_use ≡ true)
        → out ≡ (minus_one, s)
        → Opened path s cur out
    missing :
        {out : ℤ × Sys F}
        → vfs_open path s.vfs ≡ none
        → out ≡ (minus_one, s)
        → Opened path s cur out
    opened :
        (fd i : ℕ) {out : ℤ × Sys F}
        → IsLeastFree cur fd
        → vfs_open path s.vfs ≡ some i
        → out ≡ (pos fd, record s { current = some (set_entry fd (opened_entry i) cur) })
        → Opened path s cur out

  open_lem :
      (path : List ℕ) (s : Sys F) (cur : Process)
      → s.current ≡ some cur
      → sys_open path s ≡ open_for cur path s
  unfolding sys_open
  open_lem path s cur h =
      ap (λ c. elim c [ none ↦ (minus_one, s) | some cur ↦ open_for cur path s ]) h

  close_for_lem :
      (fd : ℕ) (s : Sys F) (cur : Process)
      → s.current ≡ some cur
      → sys_close fd s ≡ close_for cur fd s
  unfolding sys_close
  close_for_lem fd s cur h =
      ap (λ c. elim c [ none ↦ (minus_one, s) | some cur ↦ close_for cur fd s ]) h

  pub open_outcome :
      (path : List ℕ) (s : Sys F) (cur : Process)
      → s.current ≡ some cur
      → Opened path s cur (sys_open path s)
  unfolding open_for
  open_outcome path s cur h =
      subst (Opened path s cur) (sym (open_lem path s cur h)) (elim (free_fd_cases cur) [
        | inl (e, none_left) ↦ full none_left (rw (e, open_for) refl)
        | inr (fd, e, least) ↦ elim (Option-cases (vfs_open path s.vfs)) [
          | inl n ↦ missing n (rw (e, open_for) (rw (n) refl))
          | inr (i, o) ↦ opened fd i least o (rw (e, open_for) (rw (o) refl))
        ]
      ])

  -- Closing prints nothing.
  pub close-console : (fd : ℕ) (s : Sys F) → (sys_close fd s).1.console ≡ s.console
  unfolding sys_close close_for
  close-console fd s = elim (Option-cases s.current) [
    | inl e ↦ rw (e, sys_close) refl
    | inr (cur, e) ↦
        ap (λ x. x.1.console) (close_for_lem fd s cur e)
        ∙ elim (Bool-cases (ltb fd 3 || leb max_fds fd)) [
          | inl p ↦ rw (p) refl
          | inr p ↦ elim (Bool-cases (cur.fd_table fd).in_use) [
            | inl u ↦ rw (p, u) refl
            | inr u ↦ rw (p, u) refl
          ]
        ]
  ]

  close_lem :
      (fd : ℕ) (s : Sys F) (cur : Process)
      → s.current ≡ some cur
      → 3 ≤ fd
      → fd < max_fds
      → (cur.fd_table fd).in_use ≡ true
      → sys_close fd s ≡ (pos 0, record s { current = some (set_entry fd closed cur) })
  unfolding close_for
  close_lem fd s cur h lo hi u = close_for_lem fd s cur h ∙ rw (small, u) refl
    where
      small : (ltb fd 3 || leb max_fds fd) ≡ false
      small = ground arith

  close_unused :
      (fd : ℕ) (s : Sys F) (cur : Process)
      → s.current ≡ some cur
      → (cur.fd_table fd).in_use ≡ false
      → sys_close fd s ≡ (minus_one, s)
  unfolding close_for
  close_unused fd s cur h u =
      close_for_lem fd s cur h ∙ elim (Bool-cases (ltb fd 3 || leb max_fds fd)) [
        | inl p ↦ rw (p) refl
        | inr p ↦ rw (p, u) refl
      ]

  -- For a running process, a descriptor from 3 to 31 that is in use is closed once: sys_close
  -- returns 0, a second sys_close of it returns -1 and changes nothing, every other descriptor
  -- stays as it is, and the file system does not change.
  pub close_once :
      (fd : ℕ) (s : Sys F) (cur : Process)
      → s.current ≡ some cur
      → 3 ≤ fd
      → fd < max_fds
      → (cur.fd_table fd).in_use ≡ true
      → let (r, t) = sys_close fd s in
        let after = set_entry fd closed cur in
        (r ≡ pos 0)
        × (t.current ≡ some after)
        × ((j : ℕ) → fd ≢ j → after.fd_table j ≡ cur.fd_table j)
        × (t.vfs ≡ s.vfs)
        × (sys_close fd t ≡ (minus_one, t))
  close_once fd s cur h lo hi u = rw (close_lem fd s cur h lo hi u) (
    refl,
    refl,
    λ j ne. rw (==_ne fd j ne) refl,
    refl,
    close_unused fd (record s { current = some (set_entry fd closed cur) })
        (set_entry fd closed cur) refl (rw (==_self fd) refl),
  )
