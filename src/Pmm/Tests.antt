-- ===== src/Pmm/Tests.antt =====
-- kernel/mm/pmm.c: runs of the allocator, and its theorems at concrete memories.
use lightstreak_os.Base.{
  ℕ, ◌+◌, ◌-◌, ◌*◌, ◌≤◌, ◌≡◌, ◌≢◌, refl, ◌⊎◌, some, arith, ◌==◌, if◌then◌else◌, all_ones, for_range,
  ◌/◌,
}
use lightstreak_os.Base.Bits.{bit}
use lightstreak_os.Pmm.{
  page_size, Pmm, bit_set, bit_clear, bit_test, release, reserve, rounds, pmm_free_region,
  pmm_mark_region_used, scan_word, scan_words, pmm_alloc_page, pmm_free_page, pmm_get_free_pages,
}
use lightstreak_os.Pmm.Alloc.{AllUsed, IsHandedOut, alloc_first_fit}
use lightstreak_os.Pmm.Count.{free_below, IsCounted, page_calls-IsCounted, alloc_page_count}
use lightstreak_os.Pmm.Frames.{bit_test-free_region, bit_test-mark_region_used}
use lightstreak_os.Pmm.Boot.{
  MmapEntry, MultibootInfo, visit_entry, walk_map, memory_pages, all_used, free_available, protect,
  pmm_init,
}
use lightstreak_os.Pmm.Boot.Frees.{
  Covers, IsOffset, visit_entry_crossing, pmm_init_returns, pmm_init_free,
}
use lightstreak_os.Pmm.Boot.Counted.{pmm_init-IsCounted, memory_pages_lem}

-- Three pages, of which page 0 is in use.
abbrev three_pages : Pmm
three_pages = record { bitmap = λ i. if i == 0 then 1 else 0; total_pages = 3; used_pages = 1 }

-- All 33 pages are in use.
abbrev full_memory : Pmm
full_memory = record { bitmap = λ _. all_ones; total_pages = 33; used_pages = 33 }

alloc_runs : (pmm_alloc_page three_pages).0 ≡ 4096
unfolding pmm_alloc_page scan_words scan_word bit_test bit
alloc_runs = refl

alloc_full : pmm_alloc_page full_memory ≡ (0, full_memory)
unfolding pmm_alloc_page scan_words scan_word bit_test bit
alloc_full = refl

three_pages-IsCounted : IsCounted three_pages
unfolding free_below bit_test bit
three_pages-IsCounted = record { bound = omega arith; sum = refl }

page_zero : bit_test three_pages 0 ≡ 1
unfolding bit_test bit
page_zero = refl

alloc_first_fit_example :
    ((f : ℕ) × IsHandedOut three_pages f (pmm_alloc_page three_pages))
    ⊎ (AllUsed three_pages 0 three_pages.total_pages
        × (pmm_alloc_page three_pages ≡ (0, three_pages)))
alloc_first_fit_example = alloc_first_fit three_pages (omega arith)

alloc_page_count_test :
    let (p, t) = pmm_alloc_page three_pages in
    ((p ≢ 0) × (pmm_get_free_pages three_pages ≡ pmm_get_free_pages t + 1))
    ⊎ ((p ≡ 0) × (t ≡ three_pages) × (pmm_get_free_pages three_pages ≡ 0))
alloc_page_count_test = alloc_page_count three_pages three_pages-IsCounted page_zero

page_calls-IsCounted_example :
    IsCounted (pmm_alloc_page three_pages).1 × IsCounted (pmm_free_page 4096 three_pages)
page_calls-IsCounted_example = page_calls-IsCounted 4096 three_pages three_pages-IsCounted

-- The region's base 0x2800 is not a page boundary, and frame 2 becomes free all the same.
bit_test-free_region_test : bit_test (pmm_free_region 0x2800 0x2800 full_memory) 2 ≡ 0
bit_test-free_region_test = bit_test-free_region 0x2800 0x2800 2 full_memory (omega arith)

bit_test-mark_region_used_test : bit_test (pmm_mark_region_used 0x1800 0x1000 three_pages) 2 ≡ 1
bit_test-mark_region_used_test = bit_test-mark_region_used 0x1800 0x1000 2 three_pages (omega arith)

-- 1 MB of available memory at 1 MB.
abbrev upper : MmapEntry
upper = record {
  size = 20;
  base_low = 0x100000;
  base_high = 0;
  length_low = 0x100000;
  length_high = 0;
  type = 1;
}

-- 2 GB of available memory from 3 GB on.
abbrev crossing : MmapEntry
crossing = record {
  size = 20;
  base_low = 0xC0000000;
  base_high = 0;
  length_low = 0x80000000;
  length_high = 1;
  type = 1;
}

-- One entry, for 1024 KB above 1 MB: 512 pages.
abbrev info : MultibootInfo
info = record { flags = 65; mem_upper = 1024; mmap_length = 24; mmap_addr = 0x9000 }

visit_entry-crossing_test : visit_entry crossing three_pages ≡ three_pages
visit_entry-crossing_test = visit_entry_crossing crossing three_pages (omega arith) (omega arith)

pmm_init_returns_example : (s : Pmm) × (pmm_init (λ _. upper) info 0x100000 0x110000 ≡ some s)
pmm_init_returns_example = pmm_init_returns (λ _. upper) info 0x100000 0x110000 (λ a. omega arith)

-- The memory that `pmm_init` leaves for that map, as its steps give it.
abbrev booted : Pmm
booted =
    protect (λ _. upper) info 0x100000 0x110000 (visit_entry upper (all_used (λ _. upper) info))

pages : memory_pages (λ _. upper) info ≡ 512
unfolding memory_pages
pages = refl

boots : pmm_init (λ _. upper) info 0x100000 0x110000 ≡ some booted
unfolding pmm_init free_available walk_map
boots = refl

-- Frame 300 lies behind the kernel image.
frame_300 : bit_test booted 300 ≡ 0
unfolding protect all_used visit_entry pmm_free_region pmm_mark_region_used rounds for_range release
    reserve bit_set bit_clear bit_test bit memory_pages
frame_300 = refl

pmm_init_free_example :
    ◌≢◌ {A = ℕ} 300 0
    × (0x100000 / page_size ≤ 300 → 0x110000 ≤ 300 * page_size)
    × ((o : ℕ) × IsOffset (λ _. upper) info o × Covers upper 300)
pmm_init_free_example =
    pmm_init_free (λ _. upper) info 0x100000 0x110000 300 booted (omega arith) (λ a. omega arith)
      (omega arith) (omega arith) boots (omega arith) frame_300

pmm_init-IsCounted_example :
    IsCounted booted × (booted.total_pages ≡ memory_pages (λ _. upper) info)
pmm_init-IsCounted_example =
    pmm_init-IsCounted (λ _. upper) info 0x100000 0x110000 booted (omega arith)
      (λ a. omega (arith, pages)) (omega arith) (omega (arith, pages)) (omega (arith, pages)) boots

-- With 4 GB of memory the product wraps around, and no page is left.
memory_pages_lem_test : memory_pages (λ _. upper) (record info { mem_upper = 0x400000 - 1024 }) ≡ 0
memory_pages_lem_test =
    memory_pages_lem (λ _. upper) (record info { mem_upper = 0x400000 - 1024 }) (omega arith)
      (omega arith)
