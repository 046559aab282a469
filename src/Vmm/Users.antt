-- ===== src/Vmm/Users.antt =====
-- vmm_create_user_directory: a copy of the kernel's directory, with the kernel's tables.
use lightstreak_os.Base.{
  ℕ, ◌*◌, ◌/◌, ◌%◌, ◌^◌, ◌<◌, ◌≡◌, ◌≢◌, refl, ap, ◌∙◌, sym, subst, arith, ==_self, ==_ne, for_range,
  update, ◌⊎◌, inl, inr, Option-cases,
}
use lightstreak_os.Pmm.{bit_test, reserve, page_size, pmm_alloc_page}
use lightstreak_os.Pmm.Frames.{bit_test-reserve}
use lightstreak_os.Pmm.Count.{total_pages-reserve}
use lightstreak_os.Pmm.Alloc.{Found, page, null, AllUsed, alloc-Found}
use lightstreak_os.Vmm.{Tables, Vmm, vmm_create_user_directory}
use lightstreak_os.Vmm.Walk.{target, walk_pte, translate, translate_through, translate_unmapped}
use lightstreak_os.Vmm.Identity.{filled}
use lightstreak_os.Vmm.Space.{IsSpace}

-- The state with a copy of the kernel's directory in the free frame `f`.
module _ (s : Vmm) (kd f : ℕ) (v : IsSpace s kd) (free : bit_test s.pmm f ≡ 0) where
  abbrev copied : Tables
  copied =
      update s.tables (f * 4096)
        (for_range 1024 0 (λ i t. update t i (s.tables kd i)) (s.tables (f * 4096)))

  abbrev forked : Vmm
  forked = record s { pmm = reserve f s.pmm; tables = copied }

  copy_entry : (i : ℕ) → i < 1024 → copied (f * 4096) i ≡ s.tables kd i
  copy_entry i h = rw (==_self (f * 4096)) (filled 1024 i (s.tables kd) (s.tables (f * 4096)) h)

  new_page : (q : ℕ) → bit_test s.pmm (q / 4096) ≡ 1 → f * 4096 ≢ q
  new_page q u e =
      let same : q / 4096 ≡ f = omega arith in absurd (omega (arith, ap (bit_test s.pmm) same))

  kept : (q : ℕ) → bit_test s.pmm (q / 4096) ≡ 1 → copied q ≡ s.tables q
  kept q u = rw (==_ne (f * 4096) q (new_page q u)) refl

  still_used : (g : ℕ) → bit_test s.pmm g ≡ 1 → bit_test (reserve f s.pmm) g ≡ 1
  still_used g u = ground (arith, bit_test-reserve f g s.pmm)

  forked-IsSpace : IsSpace forked (f * 4096)
  forked-IsSpace = record {
    words = λ i h. subst (λ x. x < 2 ^ 32) (sym (copy_entry i h)) (v.words i h);
    dir_used =
        ap (bit_test (reserve f s.pmm)) (omega arith)
        ∙ bit_test-reserve f f s.pmm
        ∙ rw (==_self f) refl;
    zero_used = still_used 0 v.zero_used;
    within = omega (arith, v.within, total_pages-reserve f s.pmm);
    apart = λ i q h k. new_page q (v.tables_used i q h (ap target (sym (copy_entry i h)) ∙ k));
    tables_used = λ i q h k.
        still_used (q / 4096) (v.tables_used i q h (ap target (sym (copy_entry i h)) ∙ k));
    distinct = λ i j q h g k m.
        v.distinct i j q h g (ap target (sym (copy_entry i h)) ∙ k)
          (ap target (sym (copy_entry j g)) ∙ m);
  }

  forked_translate : (va : ℕ) → translate copied (f * 4096) va ≡ translate s.tables kd va
  forked_translate va = elim (Option-cases (target (s.tables kd (va / 2 ^ 22 % 1024)))) [
    | inl n ↦
        translate_unmapped copied (f * 4096) va
          (ap target (copy_entry (va / 2 ^ 22 % 1024) (omega arith)) ∙ n)
        ∙ sym (translate_unmapped s.tables kd va n)
    | inr (q, k) ↦
        translate_through copied (f * 4096) va q
          (ap target (copy_entry (va / 2 ^ 22 % 1024) (omega arith)) ∙ k)
        ∙ ap (λ t. walk_pte (va % 4096) (target (t (va / 4096 % 1024))))
            (kept q (v.tables_used (va / 2 ^ 22 % 1024) q (omega arith) k))
        ∙ sym (translate_through s.tables kd va q k)
  ]

-- In such a directory of the kernel (tables apart, in used pages), `vmm_create_user_directory`
-- returns a new directory under the same conditions that translates every address exactly as the
-- kernel directory does; or it returns NULL, every page is in use and nothing changes.
pub user_directory_shares :
    (s : Vmm) (kd : ℕ)
    → IsSpace s kd
    → let (dir, t) = vmm_create_user_directory kd s in
      ((dir ≢ 0)
        × IsSpace t dir
        × ((va : ℕ) → translate t.tables dir va ≡ translate s.tables kd va))
      ⊎ ((dir ≡ 0) × (t ≡ s) × AllUsed s.pmm 0 s.pmm.total_pages)
unfolding vmm_create_user_directory
user_directory_shares s kd v = cases (alloc-Found s.pmm v.within)
  where
    cases :
        Found s.pmm 0 (pmm_alloc_page s.pmm)
        → let (dir, t) = vmm_create_user_directory kd s in
          ((dir ≢ 0)
            × IsSpace t dir
            × ((va : ℕ) → translate t.tables dir va ≡ translate s.tables kd va))
          ⊎ ((dir ≡ 0) × (t ≡ s) × AllUsed s.pmm 0 s.pmm.total_pages)
    cases (null u e) = rw (e) (inr (refl, refl, u))
    cases (page f a l z u e) = rw (e) (
        rw (==_ne (f * page_size) 0 nonzero)
          (inl (nonzero, forked-IsSpace s kd f v z, forked_translate s kd f v z)))
      where
        nonzero : f * page_size ≢ 0
        nonzero q =
            let f0 : f ≡ 0 = omega arith in
            absurd (omega (arith, ap (bit_test s.pmm) f0, z, v.zero_used))
