-- ===== src/Vmm/Mapping.antt =====
-- vmm_map_page and vmm_unmap_page change the translation of one page, and keep the invariant.
use lightstreak_os.Base.{
  ℕ, ◌+◌, ◌*◌, ◌/◌, ◌%◌, ◌^◌, ◌<◌, ◌≡◌, refl, ap, ◌∙◌, sym, subst, Option, none, some, arith, ◌==◌,
  if◌then◌else◌, bit_and, ==_self, ==_ne, ◌⊎◌, inl, inr, ℕ_discrete, Bool-cases,
}
use lightstreak_os.Base.Flags.{bit_or_entry}
use lightstreak_os.Pmm.{reserve}
use lightstreak_os.Pmm.Alloc.{AllUsed}
use lightstreak_os.Vmm.{
  Vmm, set_table, add_table, get_table, page_entry, vmm_dir_idx, vmm_tbl_idx, vmm_map_page,
  vmm_unmap_page,
}
use lightstreak_os.Vmm.Walk.{
  target, translate, target_of, target_none, translate_unmapped, walk_present, walk_absent,
  dir_idx_lem, tbl_idx_lem,
}
use lightstreak_os.Vmm.Space.{
  IsSpace, Table, existing, fresh, full, get_table_lem, used_entry, unused_entry,
}
use lightstreak_os.Vmm.Write.{written-IsSpace, translate-written}
use lightstreak_os.Vmm.Grow.{grown-IsSpace, grown_translate, dir_grown}

-- The mapping of a page through a table that is there.
map_lem :
    (s : Vmm) (dir virt phys flags pt : ℕ)
    → IsSpace s dir
    → virt < 2 ^ 32
    → phys < 2 ^ 32
    → target (s.tables dir (virt / 2 ^ 22 % 1024)) ≡ some pt
    → let t = record s {
      tables = set_table pt (vmm_tbl_idx virt) (page_entry phys flags) s.tables;
    } in
      IsSpace t dir
      × ((va : ℕ)
          → va < 2 ^ 32
          → translate t.tables dir va ≡ (
              if va / 4096 == virt / 4096
              then some (phys / 4096 * 4096 + va % 4096)
              else translate s.tables dir va))
map_lem s dir virt phys flags pt v hv hp at = rw (tbl_idx_lem virt) (
  written-IsSpace s dir v virt pt hv at (page_entry phys flags),
  λ va h.
      translate-written s dir v virt pt hv at (page_entry phys flags) va h
      ∙ ap (λ x. if va / 4096 == virt / 4096 then x else translate s.tables dir va)
          (walk_present (page_entry phys flags) (va % 4096) (phys / 4096 * 4096) present),
)
  where
    present : target (page_entry phys flags) ≡ some (phys / 4096 * 4096)
    present =
        ap target (bit_or_entry phys flags hp ∙ omega arith)
        ∙ target_of (phys / 4096) (flags % 4096 / 2 * 2 + 1) (omega arith) (omega arith)

-- What vmm_map_page does with the result of `get_table`.
abbrev finish : ℕ → ℕ → ℕ → Option ℕ × Vmm → Vmm
finish virt phys flags (none, t) = t
finish virt phys flags (some pt, t) = record t {
  tables = set_table pt (vmm_tbl_idx virt) (page_entry phys flags) t.tables;
}

finish_lem :
    (dir virt phys flags : ℕ) (s : Vmm)
    → vmm_map_page dir virt phys flags s
      ≡ finish virt phys flags (get_table dir (virt / 2 ^ 22 % 1024) s)
unfolding vmm_map_page
finish_lem dir virt phys flags s =
    whole (get_table dir (vmm_dir_idx virt) s)
    ∙ ap (λ i. finish virt phys flags (get_table dir i s)) (dir_idx_lem virt)
  where
    whole :
        (r : Option ℕ × Vmm)
        → (let (found, t) = r in
            elim found as (λ _. Vmm) [
              | none ↦ t
              | some pt ↦ record t {
                tables = set_table pt (vmm_tbl_idx virt) (page_entry phys flags) t.tables;
              }
            ])
          ≡ finish virt phys flags r
    whole (none, t) = refl
    whole (some pt, t) = refl

abbrev Maps : Vmm → ℕ → ℕ → ℕ → Vmm → Type 0
Maps s dir virt phys t =
    IsSpace t dir
    × ((va : ℕ)
        → va < 2 ^ 32
        → translate t.tables dir va ≡ (
            if va / 4096 == virt / 4096
            then some (phys / 4096 * 4096 + va % 4096)
            else translate s.tables dir va))

abbrev Outcome : Vmm → ℕ → ℕ → ℕ → Vmm → Type 0
Outcome s dir virt phys t =
    Maps s dir virt phys t
    ⊎ ((t ≡ s) × (translate s.tables dir virt ≡ none) × AllUsed s.pmm 0 s.pmm.total_pages)

outcome :
    (s : Vmm) (dir virt phys flags : ℕ) (r : Option ℕ × Vmm)
    → IsSpace s dir
    → virt < 2 ^ 32
    → phys < 2 ^ 32
    → Table dir (virt / 2 ^ 22 % 1024) s r
    → Outcome s dir virt phys (finish virt phys flags r)
outcome s dir virt phys flags r v hv hp (existing pt at e) =
    subst (λ x. Outcome s dir virt phys (finish virt phys flags x)) (sym e)
      (inl (map_lem s dir virt phys flags pt v hv hp at))
outcome s dir virt phys flags r v hv hp (fresh f at free l e) =
    subst (λ x. Outcome s dir virt phys (finish virt phys flags x)) (sym e)
      (inl (
        space,
        λ va h.
            both.1 va h
            ∙ ap
                (λ x. if va / 4096 == virt / 4096 then some (phys / 4096 * 4096 + va % 4096) else x)
                (grown_translate s dir (virt / 2 ^ 22 % 1024) f v (omega arith) at free l va h),
      ))
  where
    t : Vmm
    t = record s {
      pmm = reserve f s.pmm;
      tables = add_table dir (virt / 2 ^ 22 % 1024) (f * 4096) s.tables;
    }

    both : Maps t dir virt phys (finish virt phys flags (some (f * 4096), t))
    both =
        map_lem t dir virt phys flags (f * 4096)
          (grown-IsSpace s dir (virt / 2 ^ 22 % 1024) f v (omega arith) at free l) hv hp
          (dir_grown s dir (virt / 2 ^ 22 % 1024) f v (omega arith) at free l (virt / 2 ^ 22 % 1024)
            ∙ rw (==_self (virt / 2 ^ 22 % 1024)) refl)

    space : IsSpace (finish virt phys flags (some (f * 4096), t)) dir
    space = both.0
outcome s dir virt phys flags r v hv hp (full at used e) =
    subst (λ x. Outcome s dir virt phys (finish virt phys flags x)) (sym e)
      (inr (refl, translate_unmapped s.tables dir virt at, used))

-- In a directory whose tables are words, lie apart from it and from each other, and are in pages
-- that the allocator has in use: for a virtual and a physical address below 2^32, `vmm_map_page`
-- keeps these conditions, makes the CPU translate every address of the virtual page to the same
-- place of the physical page, and changes the translation of no other address; or the page had no
-- translation, every page is in use and nothing changes.
pub map_translates :
    (s : Vmm) (dir virt phys flags : ℕ)
    → IsSpace s dir
    → virt < 2 ^ 32
    → phys < 2 ^ 32
    → let t = vmm_map_page dir virt phys flags s in
      (IsSpace t dir
        × ((va : ℕ)
            → va < 2 ^ 32
            → translate t.tables dir va ≡ (
                if va / 4096 == virt / 4096
                then some (phys / 4096 * 4096 + va % 4096)
                else translate s.tables dir va)))
      ⊎ ((t ≡ s) × (translate s.tables dir virt ≡ none) × AllUsed s.pmm 0 s.pmm.total_pages)
map_translates s dir virt phys flags v hv hp =
    subst (Outcome s dir virt phys) (sym (finish_lem dir virt phys flags s)) (
      outcome s dir virt phys flags (get_table dir (virt / 2 ^ 22 % 1024) s) v hv hp
        (get_table_lem dir (virt / 2 ^ 22 % 1024) s v (omega arith)))

-- Under the same conditions on the directory, for an address below 2^32, `vmm_unmap_page` keeps
-- them, removes the translation of every address of the page, and changes that of no other address.
pub unmap_translates :
    (s : Vmm) (dir virt : ℕ)
    → IsSpace s dir
    → virt < 2 ^ 32
    → let t = vmm_unmap_page dir virt s in
      IsSpace t dir
      × ((va : ℕ)
          → va < 2 ^ 32
          → translate t.tables dir va
            ≡ (if va / 4096 == virt / 4096 then none else translate s.tables dir va))
unfolding vmm_unmap_page
unmap_translates s dir virt v hv =
    rw (dir_idx_lem virt)
      (elim (Bool-cases (bit_and (s.tables dir (virt / 2 ^ 22 % 1024)) 1 == 0)) [
        | inl p ↦ rw (p) (v, λ va h. absent va (unused_entry _ p))
        | inr p ↦
            rw (p, tbl_idx_lem virt)
              (
                written-IsSpace s dir v virt _ hv (used_entry _ (v.words _ (omega arith)) p) 0,
                λ va h.
                    translate-written s dir v virt _ hv (used_entry _ (v.words _ (omega arith)) p) 0
                      va h
                    ∙ ap (λ x. if va / 4096 == virt / 4096 then x else translate s.tables dir va)
                        (walk_absent 0 (va % 4096) (target_none 0 refl)),
              )
      ])
  where
    absent :
        (va : ℕ)
        → target (s.tables dir (virt / 2 ^ 22 % 1024)) ≡ none
        → translate s.tables dir va
          ≡ (if va / 4096 == virt / 4096 then none else translate s.tables dir va)
    absent va n = elim (ℕ_discrete (va / 4096) (virt / 4096)) [
      | yes e ↦
          let d : virt / 2 ^ 22 % 1024 ≡ va / 2 ^ 22 % 1024 = omega arith in
          translate_unmapped s.tables dir va (ap (λ i. target (s.tables dir i)) (sym d) ∙ n)
          ∙ rw (e) (rw (==_self (virt / 4096)) refl)
      | no ne ↦ rw (==_ne (va / 4096) (virt / 4096) ne) refl
    ]
