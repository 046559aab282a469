-- ===== src/Vmm.antt =====
-- kernel/mm/vmm.c: page directories and page tables. A table is aligned to its size, so two tables
-- at different addresses do not overlap, and memory as far as it holds tables is a function of the
-- table's address and the index. The addresses of the static tables are arguments. The translation
-- buffer is not modelled: each change is followed by `invlpg`.
pub mod Walk
pub mod Identity
pub mod Space
pub mod Write
pub mod Grow
pub mod Mapping
pub mod Users
mod Tests
use lightstreak_os.Base.{
  ℕ, ◌+◌, ◌-◌, ◌*◌, ◌/◌, ◌%◌, ◌^◌, Option, none, some, ◌==◌, if◌then◌else◌, update, for_range,
  bit_and, bit_or,
}
use lightstreak_os.Pmm.{Pmm, pmm_alloc_page}

abbrev pub page_present : ℕ
page_present = 1

abbrev pub page_write : ℕ
page_write = 2

abbrev pub page_user : ℕ
page_user = 4

-- `~(PAGE_SIZE - 1)`
abbrev pub page_mask : ℕ
page_mask = 2 ^ 32 - 4096

pub vmm_dir_idx : ℕ → ℕ
vmm_dir_idx va = bit_and (va / 2 ^ 22) 0x3FF

pub vmm_tbl_idx : ℕ → ℕ
vmm_tbl_idx va = bit_and (va / 2 ^ 12) 0x3FF

abbrev pub Tables : Type 0
Tables = ℕ → ℕ → ℕ

pub record Vmm : Type 0 where
  pub tables : Tables
  pub pmm : Pmm
  pub cr3 : ℕ
  pub paging : ℕ

-- Entry `i` of the table at `at`.
abbrev pub set_table : ℕ → ℕ → ℕ → Tables → Tables
set_table at i e tables = update tables at (update (tables at) i e)

pub vmm_switch_directory : ℕ → Vmm → Vmm
vmm_switch_directory dir s = record s { cr3 = dir }

-- The table at `pt`, zeroed, as entry `di` of the directory.
pub add_table : ℕ → ℕ → ℕ → Tables → Tables
add_table dir di pt tables =
    let zeroed = update tables pt (for_range 1024 0 (λ i t. update t i 0) (tables pt)) in
    set_table dir di (bit_or (bit_or (bit_or pt page_present) page_write) page_user) zeroed

-- `none` stands for the error exit, without a page for the table.
pub get_table : ℕ → ℕ → Vmm → Option ℕ × Vmm
get_table dir di s =
    let (pt, pmm) = pmm_alloc_page s.pmm in
    if bit_and (s.tables dir di) page_present == 0
    then (if pt == 0
        then (none, record s { pmm = pmm })
        else (some pt, record s { pmm = pmm; tables = add_table dir di pt s.tables }))
    else (some (bit_and (s.tables dir di) page_mask), s)

abbrev pub page_entry : ℕ → ℕ → ℕ
page_entry phys flags = bit_or (bit_or (bit_and phys page_mask) (bit_and flags 0xFFF)) page_present

pub vmm_map_page : ℕ → ℕ → ℕ → ℕ → Vmm → Vmm
vmm_map_page dir virt phys flags s =
    let (found, t) = get_table dir (vmm_dir_idx virt) s in
    elim found [
      | none ↦ t
      | some pt ↦ record t {
        tables = set_table pt (vmm_tbl_idx virt) (page_entry phys flags) t.tables;
      }
    ]

pub vmm_unmap_page : ℕ → ℕ → Vmm → Vmm
vmm_unmap_page dir virt s =
    let pde = s.tables dir (vmm_dir_idx virt) in
    if bit_and pde page_present == 0
    then s
    else record s { tables = set_table (bit_and pde page_mask) (vmm_tbl_idx virt) 0 s.tables }

-- The loop that fills a table with the pages from number `first` on.
pub identity_table : ℕ → ℕ → Tables → Tables
identity_table pt first tables = update tables pt (
    for_range 1024 0
      (λ i t. update t i (bit_or (bit_or ((first + i) * 4096 % 2 ^ 32) page_present) page_write))
      (tables pt))

pub vmm_init : ℕ → ℕ → ℕ → Vmm → Vmm
vmm_init kernel_dir identity_pt0 identity_pt1 s =
    let t0 = identity_table identity_pt0 0 s.tables in
    let t1 = identity_table identity_pt1 1024 t0 in
    let cleared = update t1 kernel_dir (for_range 1024 0 (λ i t. update t i 0) (t1 kernel_dir)) in
    let d0 =
      set_table kernel_dir 0 (bit_or (bit_or identity_pt0 page_present) page_write) cleared in
    let d1 = set_table kernel_dir 1 (bit_or (bit_or identity_pt1 page_present) page_write) d0 in
    record (vmm_switch_directory kernel_dir (record s { tables = d1 })) { paging = 1 }

-- The result is the directory's address, 0 for NULL.
pub vmm_create_user_directory : ℕ → Vmm → ℕ × Vmm
vmm_create_user_directory kernel_dir s =
    let (dir, pmm) = pmm_alloc_page s.pmm in
    let copied =
      update s.tables dir
        (for_range 1024 0 (λ i t. update t i (s.tables kernel_dir i)) (s.tables dir)) in
    if dir == 0 then (0, record s { pmm = pmm }) else (dir, record s { pmm = pmm; tables = copied })
