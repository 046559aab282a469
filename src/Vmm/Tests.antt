-- ===== src/Vmm/Tests.antt =====
-- kernel/mm/vmm.c: the theorems at concrete tables.
use lightstreak_os.Base.{
  ℕ, ◌+◌, ◌*◌, ◌/◌, ◌%◌, ◌^◌, ◌<◌, ◌≡◌, ◌≢◌, refl, ◌∙◌, sym, ◌⊎◌, Option, none, some, arith, ◌==◌,
  ltb, if◌then◌else◌,
}
use lightstreak_os.Pmm.{Pmm, reserve}
use lightstreak_os.Pmm.Frames.{bit_test-reserve}
use lightstreak_os.Pmm.Count.{total_pages-reserve}
use lightstreak_os.Pmm.Alloc.{AllUsed}
use lightstreak_os.Vmm.{Vmm, vmm_init, vmm_map_page, vmm_unmap_page, vmm_create_user_directory}
use lightstreak_os.Vmm.Walk.{target, translate, target_none}
use lightstreak_os.Vmm.Identity.{init_identity}
use lightstreak_os.Vmm.Space.{IsSpace}
use lightstreak_os.Vmm.Mapping.{map_translates, unmap_translates}
use lightstreak_os.Vmm.Users.{user_directory_shares}

abbrev unused : Pmm
unused = record { bitmap = λ _. 0; total_pages = 64; used_pages = 0 }

-- Page 0 and the directory's page are in use.
abbrev two_used : Pmm
two_used = reserve 1 (reserve 0 unused)

abbrev blank : Vmm
blank = record { tables = λ _ _. 0; pmm = two_used; cr3 = 0; paging = 0 }

no_table : (pt : ℕ) → target 0 ≡ some pt → ◌≡◌ {A = Option ℕ} none (some pt)
no_table pt h = sym (target_none 0 refl) ∙ h

blank-IsSpace : IsSpace blank 0x1000
blank-IsSpace = record {
  words = λ i h. omega arith;
  dir_used = bit_test-reserve 1 1 (reserve 0 unused);
  zero_used = bit_test-reserve 1 0 (reserve 0 unused) ∙ bit_test-reserve 0 0 unused;
  within = omega (arith, total_pages-reserve 1 (reserve 0 unused), total_pages-reserve 0 unused);
  apart = λ i pt h k. absurd (cc (no_table pt k));
  tables_used = λ i pt h k. absurd (cc (no_table pt k));
  distinct = λ i j pt h g k m. absurd (cc (no_table pt k));
}

init_identity_example :
    translate (vmm_init 0x108000 0x109000 0x10A000 blank).tables 0x108000 0x7FF123
    ≡ (if ltb 0x7FF123 (2 ^ 23) then some 0x7FF123 else none)
init_identity_example =
    init_identity 0x108000 0x109000 0x10A000 blank (record { aligned = refl })
      (record { aligned = refl }) (λ e. absurd (omega arith)) (λ e. absurd (omega arith))
      (λ e. absurd (omega arith)) 0x7FF123 (omega arith)

map_translates_example :
    let t = vmm_map_page 0x1000 0xC0000000 0x2000 3 blank in
    (IsSpace t 0x1000
      × ((va : ℕ)
          → va < 2 ^ 32
          → translate t.tables 0x1000 va ≡ (
              if va / 4096 == 0xC0000000 / 4096
              then some (0x2000 / 4096 * 4096 + va % 4096)
              else translate blank.tables 0x1000 va)))
    ⊎ ((t ≡ blank)
        × (translate blank.tables 0x1000 0xC0000000 ≡ none)
        × AllUsed two_used 0 two_used.total_pages)
map_translates_example =
    map_translates blank 0x1000 0xC0000000 0x2000 3 blank-IsSpace (omega arith) (omega arith)

unmap_translates_test :
    let t = vmm_unmap_page 0x1000 0xC0000000 blank in
    IsSpace t 0x1000
    × ((va : ℕ)
        → va < 2 ^ 32
        → translate t.tables 0x1000 va
          ≡ (if va / 4096 == 0xC0000000 / 4096 then none else translate blank.tables 0x1000 va))
unmap_translates_test = unmap_translates blank 0x1000 0xC0000000 blank-IsSpace (omega arith)

user_directory_shares_example :
    let (dir, t) = vmm_create_user_directory 0x1000 blank in
    ((dir ≢ 0)
      × IsSpace t dir
      × ((va : ℕ) → translate t.tables dir va ≡ translate blank.tables 0x1000 va))
    ⊎ ((dir ≡ 0) × (t ≡ blank) × AllUsed two_used 0 two_used.total_pages)
user_directory_shares_example = user_directory_shares blank 0x1000 blank-IsSpace
