-- ===== src/Vmm/Space.antt =====
-- The invariant of a directory with its tables, and the two steps that vmm_map_page is made of.
use lightstreak_os.Base.{
  ℕ, ◌+◌, ◌-◌, ◌*◌, ◌/◌, ◌%◌, ◌^◌, ◌≤◌, ◌<◌, ◌≡◌, ◌≢◌, refl, ap, ◌∙◌, sym, subst, Option, none,
  some, arith, ◌==◌, if◌then◌else◌, bit_and, bit_or, true, false, ==_self, ==_ne, ==_iff, inl, inr,
  Bool-cases,
}
use lightstreak_os.Base.Bits.{bit_and-one}
use lightstreak_os.Base.Flags.{bit_or_table, bit_and_frame}
use lightstreak_os.Pmm.{bit_test, reserve, pages_max, page_size, pmm_alloc_page}
use lightstreak_os.Pmm.Alloc.{Found, page, null, AllUsed, alloc-Found}
use lightstreak_os.Vmm.{Tables, Vmm, add_table, get_table}
use lightstreak_os.Vmm.Walk.{target, target_of, target_none}
use lightstreak_os.Vmm.Identity.{filled}

-- The tables of a directory lie apart from it and from each other, in pages that the page allocator
-- counts as used.
pub record IsSpace (s : Vmm) (dir : ℕ) : Type 0 where
  pub words : (i : ℕ) → i < 1024 → s.tables dir i < 2 ^ 32
  pub dir_used : bit_test s.pmm (dir / 4096) ≡ 1
  pub zero_used : bit_test s.pmm 0 ≡ 1
  pub within : s.pmm.total_pages ≤ pages_max
  pub apart : (i pt : ℕ) → i < 1024 → target (s.tables dir i) ≡ some pt → dir ≢ pt
  pub tables_used :
      (i pt : ℕ) → i < 1024 → target (s.tables dir i) ≡ some pt → bit_test s.pmm (pt / 4096) ≡ 1
  pub distinct :
      (i j pt : ℕ)
      → i < 1024
      → j < 1024
      → target (s.tables dir i) ≡ some pt
      → target (s.tables dir j) ≡ some pt
      → i ≡ j

-- What `get_table` returns for entry `di`: the table that is there, a new one in a free page, or
-- nothing if no page is free.
pub data Table (dir di : ℕ) (s : Vmm) : Option ℕ × Vmm → Type 0 where
  existing :
      (pt : ℕ) {out : Option ℕ × Vmm}
      → target (s.tables dir di) ≡ some pt
      → out ≡ (some pt, s)
      → Table dir di s out
  fresh :
      (f : ℕ) {out : Option ℕ × Vmm}
      → target (s.tables dir di) ≡ none
      → bit_test s.pmm f ≡ 0
      → f < s.pmm.total_pages
      → out ≡ (
        some (f * 4096),
        record s { pmm = reserve f s.pmm; tables = add_table dir di (f * 4096) s.tables },
      )
      → Table dir di s out
  full :
      {out : Option ℕ × Vmm}
      → target (s.tables dir di) ≡ none
      → AllUsed s.pmm 0 s.pmm.total_pages
      → out ≡ (none, s)
      → Table dir di s out

pub unused_entry : (e : ℕ) → (bit_and e 1 == 0) ≡ true → target e ≡ none
unused_entry e h = target_none e (sym (bit_and-one e) ∙ (==_iff (bit_and e 1) 0).0 h)

pub used_entry :
    (e : ℕ) → e < 2 ^ 32 → (bit_and e 1 == 0) ≡ false → target e ≡ some (bit_and e (2 ^ 32 - 4096))
used_entry e h p =
    ap target (omega arith)
    ∙ target_of (e / 4096) (e % 4096) (omega arith) odd
    ∙ ap some (sym (bit_and_frame e h))
  where
    odd : e % 4096 % 2 ≡ 1
    odd = ground (arith, bit_and-one e)

pub get_table_lem :
    (dir di : ℕ) (s : Vmm) → IsSpace s dir → di < 1024 → Table dir di s (get_table dir di s)
unfolding get_table
get_table_lem dir di s v h = elim (Bool-cases (bit_and (s.tables dir di) 1 == 0)) [
  | inr p ↦
      existing (bit_and (s.tables dir di) (2 ^ 32 - 4096)) (used_entry _ (v.words di h) p)
        (rw (p) refl)
  | inl p ↦ allocated p (alloc-Found s.pmm v.within)
]
  where
    allocated :
        (bit_and (s.tables dir di) 1 == 0) ≡ true
        → Found s.pmm 0 (pmm_alloc_page s.pmm)
        → Table dir di s (get_table dir di s)
    allocated p (page f a l z u e) =
        fresh f (unused_entry (s.tables dir di) p) z l
          (rw (p, e) (rw (==_ne (f * page_size) 0 nonzero) refl))
      where
        nonzero : f * page_size ≢ 0
        nonzero q =
            let f0 : f ≡ 0 = omega arith in
            absurd (omega (arith, ap (bit_test s.pmm) f0, z, v.zero_used))
    allocated p (null u e) = full (unused_entry (s.tables dir di) p) u (rw (p, e) refl)

-- The tables after `add_table`.
pub added_dir :
    (dir di pt i : ℕ) (tables : Tables)
    → dir ≢ pt
    → pt % 4096 ≡ 0
    → target (add_table dir di pt tables dir i)
      ≡ (if di == i then some pt else target (tables dir i))
unfolding add_table
added_dir dir di pt i tables ne al =
    rw (==_self dir, ==_ne pt dir (λ e. ne (sym e)))
      (elim (Bool-cases (di == i)) [
        | inl p ↦ rw (p) (
            subst (λ x. target (bit_or (bit_or (bit_or x 1) 2) 4) ≡ some x) whole
              (ap target (bit_or_table (pt / 4096))
                ∙ target_of (pt / 4096) 7 (omega arith) (omega arith)))
        | inr p ↦ rw (p) refl
      ])
  where
    whole : pt / 4096 * 4096 ≡ pt
    whole = omega (arith, al)

pub added_zero :
    (dir di pt i : ℕ) (tables : Tables) → dir ≢ pt → i < 1024 → add_table dir di pt tables pt i ≡ 0
unfolding add_table
added_zero dir di pt i tables ne h =
    rw (==_ne dir pt ne, ==_self pt) (filled 1024 i (λ _. 0) (tables pt) h)

pub added_other :
    (dir di pt q i : ℕ) (tables : Tables)
    → dir ≢ q
    → pt ≢ q
    → add_table dir di pt tables q i ≡ tables q i
unfolding add_table
added_other dir di pt q i tables n m = rw (==_ne dir q n, ==_ne pt q m) refl

pub added_word :
    (dir di pt i : ℕ) (tables : Tables)
    → dir ≢ pt
    → pt % 4096 ≡ 0
    → pt + 7 < 2 ^ 32
    → tables dir i < 2 ^ 32
    → add_table dir di pt tables dir i < 2 ^ 32
unfolding add_table
added_word dir di pt i tables ne al h w =
    rw (==_self dir, ==_ne pt dir (λ e. ne (sym e)))
      (elim (Bool-cases (di == i)) [
        | inl p ↦ rw (p) (
            subst (λ x. bit_or (bit_or (bit_or x 1) 2) 4 < 2 ^ 32) whole
              (omega (arith, bit_or_table (pt / 4096))))
        | inr p ↦ rw (p) w
      ])
  where
    whole : pt / 4096 * 4096 ≡ pt
    whole = omega (arith, al)
