-- ===== src/Pmm/Boot.antt =====
-- kernel/mm/pmm.c: `pmm_init`, which fills the bitmap from the Multiboot memory map
-- (include/multiboot.h). The map lies in memory that the boot loader wrote: `mem` gives the entry
-- that stands at an address. The output of `kprintf` is not modelled.
pub mod Counted
pub mod Frees
use lightstreak_os.Base.{
  ℕ, zero, suc, ◌+◌, ◌-◌, ◌*◌, ◌/◌, ◌%◌, ◌^◌, ◌<◌, ◌≤◌, ◌≡◌, ◌≢◌, refl, ◌⊎◌, inl, inr, Bool, true,
  false, ◌&&◌, not, min, bit_and, Option, none, some, arith, ltb, leb, ◌==◌, if◌then◌else◌,
  Bool-cases, tests, add32, sub32, mul32, all_ones, for_range, subst,
}
use lightstreak_os.Pmm.{
  page_size, pages_max, Pmm, bit_set, bit_clear, bit_test, release, reserve, rounds,
  pmm_free_region, pmm_mark_region_used,
}

pub record MmapEntry : Type 0 where
  pub size : ℕ
  pub base_low : ℕ
  pub base_high : ℕ
  pub length_low : ℕ
  pub length_high : ℕ
  pub type : ℕ

-- The fields of `multiboot_info_t` that `pmm_init` reads.
pub record MultibootInfo : Type 0 where
  pub flags : ℕ
  pub mem_upper : ℕ
  pub mmap_length : ℕ
  pub mmap_addr : ℕ

abbrev pub mboot_flag_mem : ℕ
mboot_flag_mem = 1

abbrev pub mboot_flag_mmap : ℕ
mboot_flag_mmap = 64

-- the body of the loop over the map, for one entry
unfoldable pub visit_entry : MmapEntry → Pmm → Pmm
visit_entry e s =
    if e.type == 1
    then (if e.base_high == 0 && e.length_high == 0
        then pmm_free_region e.base_low e.length_low s
        else if e.base_high == 0
        then pmm_free_region e.base_low (add32 (sub32 all_ones e.base_low) 1) s
        else s)
    else s

module _ (mem : ℕ → MmapEntry) (mbi : MultibootInfo) where
  -- `while (offset < mbi->mmap_length)`; `none` means that the fuel ran out.
  unfoldable pub walk_map : ℕ → ℕ → Pmm → Option Pmm
  walk_map zero offset s = none
  walk_map (suc fuel) offset s =
      let e = mem (add32 mbi.mmap_addr offset) in
      let rest = walk_map fuel (add32 offset (add32 e.size 4)) (visit_entry e s) in
      if ltb offset mbi.mmap_length then rest else some s

  -- `total_pages`
  unfoldable pub memory_pages : ℕ
  memory_pages =
      let mem_kb =
        if not (bit_and mbi.flags mboot_flag_mem == 0)
        then add32 mbi.mem_upper 1024
        else 64 * 1024 in
      min (mul32 mem_kb 1024 / page_size) pages_max

  -- Step 1: all pages are in use.
  unfoldable pub all_used : Pmm
  all_used = record {
    bitmap = λ _. all_ones;
    total_pages = memory_pages;
    used_pages = memory_pages;
  }

  -- Step 2, with more fuel than the map has bytes.
  unfoldable pub free_available : Option Pmm
  free_available =
      if not (bit_and mbi.flags mboot_flag_mmap == 0)
      then walk_map (suc mbi.mmap_length) 0 all_used
      else some (pmm_free_region 0x100000 (mul32 (sub32 memory_pages 256) page_size) all_used)

  -- Steps 3 and 4: page 0 and the kernel image, from `kstart` to `kend`, are in use.
  unfoldable pub protect : ℕ → ℕ → Pmm → Pmm
  protect kstart kend s = pmm_mark_region_used kstart (sub32 kend kstart) (reserve 0 s)

  unfoldable pub pmm_init : ℕ → ℕ → Option Pmm
  pmm_init kstart kend = elim free_available [ none ↦ none | some s ↦ some (protect kstart kend s) ]
