-- ===== src/Pmm/Boot/Counted.antt =====
-- kernel/mm/pmm.c: the page counter that `pmm_init` leaves is exact if the map stays below
-- `total_pages`.
use lightstreak_os.Base.{
  ℕ, zero, suc, ◌+◌, ◌*◌, ◌/◌, ◌%◌, ◌^◌, ◌<◌, ◌≤◌, ◌≡◌, ◌≢◌, refl, inl, inr, min, bit_and, some,
  arith, ltb, Bool-cases, add32, sub32, all_ones, for_range, subst,
}
use lightstreak_os.Pmm.{
  page_size, pages_max, Pmm, release, reserve, rounds, pmm_free_region, pmm_mark_region_used,
}
use lightstreak_os.Pmm.Count.{
  IsCounted, release-IsCounted, reserve-IsCounted, total_pages-release, total_pages-reserve,
  free_below-AllUsed,
}
use lightstreak_os.Pmm.Boot.{
  MmapEntry, MultibootInfo, mboot_flag_mmap, visit_entry, walk_map, memory_pages, all_used,
  free_available, protect, pmm_init,
}
use lightstreak_os.Pmm.Boot.Frees.{free_region_empty, all_used_lem, pmm_init-eq-some}

-- The counter is exact, for `total` pages.
abbrev CountedAt : ℕ → Pmm → Type 0
CountedAt total s = IsCounted s × (s.total_pages ≡ total)

release_loop :
    (n page total : ℕ) (s : Pmm)
    → page + n ≤ total
    → CountedAt total s
    → CountedAt total (for_range n page release s)
unfolding for_range
release_loop zero page total s h c = c
release_loop (suc n) page total s h (c, e) =
    release_loop n (suc page) total (release page s) (omega arith)
      (release-IsCounted page s (omega arith) c, omega (arith, total_pages-release page s))

reserve_loop :
    (n page total : ℕ) (s : Pmm)
    → page + n ≤ total
    → CountedAt total s
    → CountedAt total (for_range n page reserve s)
unfolding for_range
reserve_loop zero page total s h c = c
reserve_loop (suc n) page total s h (c, e) =
    reserve_loop n (suc page) total (reserve page s) (omega arith)
      (reserve-IsCounted page s (omega arith) c, omega (arith, total_pages-reserve page s))

-- A region with no byte above `total` pages keeps the counter exact.
pub free_region-CountedAt :
    (base len total : ℕ) (s : Pmm)
    → total ≤ pages_max
    → base + len ≤ total * page_size
    → CountedAt total s
    → CountedAt total (pmm_free_region base len s)
unfolding pmm_free_region rounds
free_region-CountedAt base len total s m h c =
    release_loop _ (base / page_size) total s (omega arith) c

mark_region_used-CountedAt :
    (base len total : ℕ) (s : Pmm)
    → total ≤ pages_max
    → base + len ≤ total * page_size
    → CountedAt total s
    → CountedAt total (pmm_mark_region_used base len s)
unfolding pmm_mark_region_used rounds
mark_region_used-CountedAt base len total s m h c =
    reserve_loop _ (base / page_size) total s (omega arith) c

-- What the map must satisfy: available entries below 4 GB have a 32-bit base and end below
-- `total` pages.
abbrev pub FitsBelow : ℕ → MmapEntry → Type 0
FitsBelow total e =
    (e.base_low < 2 ^ 32)
    × (e.type ≡ 1
        → e.base_high ≡ 0
        → e.length_high ≡ 0
        → e.base_low + e.length_low ≤ total * page_size)

visit_entry-CountedAt :
    (e : MmapEntry) (total : ℕ) (s : Pmm)
    → total ≤ pages_max
    → FitsBelow total e
    → CountedAt total s
    → CountedAt total (visit_entry e s)
unfolding visit_entry
visit_entry-CountedAt e total s m (b, f) c = ground (
  arith,
  free_region-CountedAt e.base_low e.length_low total s,
  free_region_empty e.base_low (add32 (sub32 all_ones e.base_low) 1) s,
)

module _ (mem : ℕ → MmapEntry) (mbi : MultibootInfo) where
  walk_map-CountedAt :
      (fuel offset total : ℕ) (s t : Pmm)
      → total ≤ pages_max
      → ((a : ℕ) → FitsBelow total (mem a))
      → CountedAt total s
      → walk_map mem mbi fuel offset s ≡ some t
      → CountedAt total t
  unfolding walk_map
  walk_map-CountedAt zero offset total s t m f c e = cc
  walk_map-CountedAt (suc fuel) offset total s t m f c e =
      elim (Bool-cases (ltb offset mbi.mmap_length)) [
        | inl more ↦
            walk_map-CountedAt fuel (add32 offset (add32 here.size 4)) total (visit_entry here s) t
              m f (visit_entry-CountedAt here total s m (f at_offset) c) (rw more at e)
        | inr done ↦
            let last : some s ≡ some t = rw done at e in subst (CountedAt total) (ground arith) c
      ]
    where
      at_offset : ℕ
      at_offset = add32 mbi.mmap_addr offset

      here : MmapEntry
      here = mem at_offset

  memory_pages-le : memory_pages mem mbi ≤ pages_max
  unfolding memory_pages
  memory_pages-le = omega arith

  all_used-CountedAt : CountedAt (memory_pages mem mbi) (all_used mem mbi)
  unfolding all_used
  all_used-CountedAt = (
    record {
      bound = memory_pages-le;
      sum = omega (
        arith,
        free_below-AllUsed (memory_pages mem mbi) (all_used mem mbi)
            (λ g p q. all_used_lem mem mbi g (omega (arith, memory_pages-le))),
      );
    },
    refl,
  )

  -- After `pmm_init` with a memory map, the page counter is exact and `total_pages` is the detected
  -- number of pages, if the available entries and the kernel image end below the detected memory,
  -- which is not empty.
  pub pmm_init-IsCounted :
      (kstart kend : ℕ) (s : Pmm)
      → bit_and mbi.flags mboot_flag_mmap ≢ 0
      → ((a : ℕ) → FitsBelow (memory_pages mem mbi) (mem a))
      → kstart ≤ kend
      → kend ≤ memory_pages mem mbi * page_size
      → 0 < memory_pages mem mbi
      → pmm_init mem mbi kstart kend ≡ some s
      → IsCounted s × (s.total_pages ≡ memory_pages mem mbi)
  unfolding free_available protect
  pmm_init-IsCounted kstart kend s f b o k p e =
      let total = memory_pages mem mbi in
      let (t, walked, same) = pmm_init-eq-some mem mbi kstart kend s e in
      let (c, q) =
        walk_map-CountedAt (suc mbi.mmap_length) 0 total (all_used mem mbi) t memory_pages-le b
          all_used-CountedAt (ground arith) in
      rw same (
        mark_region_used-CountedAt kstart (sub32 kend kstart) total (reserve 0 t) memory_pages-le
          (omega (arith, memory_pages-le))
          (reserve-IsCounted 0 t (omega arith) c, omega (arith, total_pages-reserve 0 t)))

  -- With the memory flag set and a size in kilobytes that is a 32-bit word, `total_pages` is a
  -- quarter of the detected kilobytes modulo 4 GB, and at most 256 MB of pages: the product `mem_kb
  -- * 1024` wraps around.
  pub memory_pages_lem :
      bit_and mbi.flags 1 ≢ 0
      → mbi.mem_upper + 1024 < 2 ^ 32
      → memory_pages mem mbi ≡ min ((mbi.mem_upper + 1024) % 2 ^ 22 / 4) pages_max
  unfolding memory_pages
  memory_pages_lem f h = ground arith
