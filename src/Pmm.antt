-- ===== src/Pmm.antt =====
-- kernel/mm/pmm.c: the physical page allocator. The static array `bitmap` is a function from the
-- word's index to the word, and the three static variables are the fields of `Pmm`.
pub mod Frames
pub mod Alloc
pub mod Count
pub mod Boot
mod Tests
use lightstreak_os.Base.{
  ℕ, zero, suc, ◌+◌, ◌-◌, ◌*◌, ◌/◌, ◌%◌, ◌^◌, ◌<◌, min, bit_and, bit_or, Bool, true, false, ◌&&◌,
  Option, none, some, ltb, leb, ◌==◌, if◌then◌else◌, update, for_range, add32, sub32, mul32,
  all_ones,
}
use lightstreak_os.Base.Bits.{bit}

abbrev pub page_size : ℕ
page_size = 4096

-- PMM_PAGES_MAX, 256 MB of pages
abbrev pub pages_max : ℕ
pages_max = 256 * 1024 * 1024 / page_size

pub record Pmm : Type 0 where
  pub bitmap : ℕ → ℕ
  pub total_pages : ℕ
  pub used_pages : ℕ

pub bit_set : ℕ → Pmm → Pmm
bit_set frame s = record s {
  bitmap = update s.bitmap (frame / 32) (bit_or (s.bitmap (frame / 32)) (2 ^ (frame % 32)));
}

pub bit_clear : ℕ → Pmm → Pmm
bit_clear frame s = record s {
  bitmap =
      update s.bitmap (frame / 32) (bit_and (s.bitmap (frame / 32)) (all_ones - 2 ^ (frame % 32)));
}

pub bit_test : Pmm → ℕ → ℕ
bit_test s frame = bit (s.bitmap (frame / 32)) (frame % 32)

-- the body of the loop in `pmm_free_region`, and the end of `pmm_free_page`
pub release : ℕ → Pmm → Pmm
release page s =
    if bit_test s page == 0
    then s
    else (let t = bit_clear page s in record t { used_pages = sub32 t.used_pages 1 })

-- the body of the loop in `pmm_mark_region_used`
pub reserve : ℕ → Pmm → Pmm
reserve page s =
    if bit_test s page == 0
    then (let t = bit_set page s in record t { used_pages = add32 t.used_pages 1 })
    else s

-- `for (; page < end && page < PMM_PAGES_MAX; page++)` makes this many rounds.
pub rounds : ℕ → ℕ → ℕ
rounds page end' = min end' pages_max - page

pub pmm_free_region : ℕ → ℕ → Pmm → Pmm
pmm_free_region base len s =
    let page = base / page_size in
    let end' = add32 base len / page_size in for_range (rounds page end') page release s

pub pmm_mark_region_used : ℕ → ℕ → Pmm → Pmm
pmm_mark_region_used base len s =
    let page = base / page_size in
    let end' = add32 (add32 base len) (page_size - 1) / page_size in
    for_range (rounds page end') page reserve s

-- The loop over the bits of word `i`; `none` means that the loop ended without a `return`.
pub scan_word : ℕ → ℕ → ℕ → Pmm → Option (ℕ × Pmm)
scan_word zero i b s = none
scan_word (suc r) i b s =
    let page = i * 32 + b in
    let rest = scan_word r i (suc b) s in
    if leb s.total_pages page
    then some (0, s)
    else if bit_test s page == 0
    then (let t = bit_set page s in
        some (mul32 page page_size, record t { used_pages = add32 t.used_pages 1 }))
    else rest

-- The loop over the words, `r` of them from word `i` on.
pub scan_words : ℕ → ℕ → Pmm → ℕ × Pmm
scan_words zero i s = (0, s)
scan_words (suc r) i s =
    let rest = scan_words r (suc i) s in
    if s.bitmap i == all_ones then rest else elim (scan_word 32 i 0 s) [ none ↦ rest | some x ↦ x ]

-- The result is the page's address, 0 for NULL.
pub pmm_alloc_page : Pmm → ℕ × Pmm
pmm_alloc_page s = scan_words (pages_max / 32) 0 s

pub pmm_free_page : ℕ → Pmm → Pmm
pmm_free_page p s =
    let frame = p / page_size in if leb s.total_pages frame then s else release frame s

pub pmm_get_free_pages : Pmm → ℕ
pmm_get_free_pages s = sub32 s.total_pages s.used_pages
