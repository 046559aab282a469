-- ===== src/Pmm/Boot/Frees.antt =====
-- kernel/mm/pmm.c: which frames are free after `pmm_init`, and that its loop ends.
use lightstreak_os.Base.{
  ℕ, zero, suc, ◌+◌, ◌-◌, ◌*◌, ◌/◌, ◌%◌, ◌^◌, ◌<◌, ◌≤◌, ◌≡◌, ◌≢◌, ◌⊎◌, inl, inr, not, min, bit_and,
  some, arith, ltb, ◌==◌, Bool-cases, Option-cases, add32, sub32, mul32, all_ones, for_range, subst,
}
use lightstreak_os.Base.Bits.{bit_of_ones}
use lightstreak_os.Pmm.{page_size, pages_max, Pmm, bit_test, reserve, rounds, pmm_free_region}
use lightstreak_os.Pmm.Frames.{bit_test-reserve, bit_test-free_region, bit_test-mark_region_used}
use lightstreak_os.Pmm.Boot.{
  MmapEntry, MultibootInfo, mboot_flag_mmap, visit_entry, walk_map, memory_pages, all_used,
  free_available, protect, pmm_init,
}

-- Frame `g` lies in the available region that `e` describes: the region's base is rounded down to
-- a page and its end, below 4 GB, too.
pub record Covers (e : MmapEntry) (g : ℕ) : Type 0 where
  pub available : e.type ≡ 1
  pub low : e.base_high ≡ 0
  pub short : e.length_high ≡ 0
  pub from : e.base_low / page_size ≤ g
  pub below : g < add32 e.base_low e.length_low / page_size

pub free_region_empty :
    (base len : ℕ) (s : Pmm) → add32 base len ≡ 0 → pmm_free_region base len s ≡ s
unfolding pmm_free_region rounds for_range
free_region_empty base len s h = rw (nothing (base / page_size))
  where
    nothing : (p : ℕ) → min (add32 base len / page_size) pages_max - p ≡ 0
    nothing p = omega arith

-- An entry of the memory map whose length does not fit 32 bits frees nothing: the end of its
-- clipped part wraps around to 0.
pub visit_entry_crossing :
    (e : MmapEntry) (s : Pmm) → e.base_low < 2 ^ 32 → e.length_high ≢ 0 → visit_entry e s ≡ s
unfolding visit_entry
visit_entry_crossing e s b h =
    ground (arith, free_region_empty e.base_low (add32 (sub32 all_ones e.base_low) 1) s)

-- An entry frees only frames that it covers.
visit_entry_frees :
    (e : MmapEntry) (s : Pmm) (g : ℕ)
    → g < pages_max
    → e.base_low < 2 ^ 32
    → bit_test (visit_entry e s) g ≡ 0
    → (bit_test s g ≡ 0) ⊎ Covers e g
unfolding visit_entry
visit_entry_frees e s g l b z = ground (
  arith,
  bit_test-free_region e.base_low e.length_low g s,
  free_region_empty e.base_low (add32 (sub32 all_ones e.base_low) 1) s,
)

module _ (mem : ℕ → MmapEntry) (mbi : MultibootInfo) where
  -- The offsets of the entries of the memory map: the first entry stands at its start, and each
  -- next one behind the size field and the `size` bytes of the one before.
  pub data IsOffset : ℕ → Type 0 where
    first_entry : 0 < mbi.mmap_length → IsOffset 0
    next_entry :
        (o : ℕ)
        → IsOffset o
        → add32 o (add32 (mem (add32 mbi.mmap_addr o)).size 4) < mbi.mmap_length
        → IsOffset (add32 o (add32 (mem (add32 mbi.mmap_addr o)).size 4))

  walk_map_frees :
      (fuel offset : ℕ) (s t : Pmm) (g : ℕ)
      → g < pages_max
      → ((a : ℕ) → (mem a).base_low < 2 ^ 32)
      → (offset < mbi.mmap_length → IsOffset offset)
      → walk_map mem mbi fuel offset s ≡ some t
      → bit_test t g ≡ 0
      → (bit_test s g ≡ 0) ⊎ ((o : ℕ) × IsOffset o × Covers (mem (add32 mbi.mmap_addr o)) g)
  unfolding walk_map
  walk_map_frees zero offset s t g l b i e z = cc
  walk_map_frees (suc fuel) offset s t g l b i e z =
      elim (Bool-cases (ltb offset mbi.mmap_length)) [
        | inl more ↦
            elim (walk_map_frees fuel (add32 offset (add32 here.size 4)) (visit_entry here s) t g l
              b (next_entry offset (i (ground (arith, more)))) (rw more at e) z) [
                | inl free ↦ elim (visit_entry_frees here s g l (b at_offset) free) [
                  | inl before ↦ inl before
                  | inr c ↦ inr (offset, i (ground (arith, more)), c)
                ]
                | inr later ↦ inr later
              ]
        | inr done ↦ inl (let last : some s ≡ some t = rw done at e in ground arith)
      ]
    where
      at_offset : ℕ
      at_offset = add32 mbi.mmap_addr offset

      here : MmapEntry
      here = mem at_offset

  -- The walk ends, where no entry's size makes the offset wrap around.
  walk_map_ends :
      (fuel offset : ℕ) (s : Pmm)
      → mbi.mmap_length < offset + fuel
      → 0 < fuel
      → ((a : ℕ) → (mem a).size + mbi.mmap_length + 4 < 2 ^ 32)
      → (t : Pmm) × (walk_map mem mbi fuel offset s ≡ some t)
  unfolding walk_map
  walk_map_ends zero offset s l p b = absurd (omega arith)
  walk_map_ends (suc fuel) offset s l p b = elim (Bool-cases (ltb offset mbi.mmap_length)) [
    | inl more ↦ rw more (
        walk_map_ends fuel (add32 offset (add32 here.size 4)) (visit_entry here s)
          (let sizes = b at_offset in ground arith) (ground arith) b)
    | inr done ↦ (s, rw done)
  ]
    where
      at_offset : ℕ
      at_offset = add32 mbi.mmap_addr offset

      here : MmapEntry
      here = mem at_offset

  pub all_used_lem : (g : ℕ) → g < pages_max → bit_test (all_used mem mbi) g ≡ 1
  unfolding all_used bit_test
  all_used_lem g h = bit_of_ones 32 (g % 32) (omega arith)

  free_available_ends :
      ((a : ℕ) → (mem a).size + mbi.mmap_length + 4 < 2 ^ 32)
      → (t : Pmm) × (free_available mem mbi ≡ some t)
  unfolding free_available
  free_available_ends b = elim (Bool-cases (not (bit_and mbi.flags mboot_flag_mmap == 0))) [
    | inl map ↦
        let (t, e) =
          walk_map_ends (suc mbi.mmap_length) 0 (all_used mem mbi) (omega arith) (omega arith) b in
        (t, ground arith)
    | inr no_map ↦ (
      pmm_free_region 0x100000 (mul32 (sub32 (memory_pages mem mbi) 256) page_size)
          (all_used mem mbi),
      ground arith,
    )
  ]

  -- `pmm_init` returns, if no size of an entry makes the offset into the memory map wrap around
  -- 2^32.
  pub pmm_init_returns :
      (kstart kend : ℕ)
      → ((a : ℕ) → (mem a).size + mbi.mmap_length + 4 < 2 ^ 32)
      → (s : Pmm) × (pmm_init mem mbi kstart kend ≡ some s)
  unfolding pmm_init
  pmm_init_returns kstart kend b =
      let (t, e) = free_available_ends b in (protect mem mbi kstart kend t, ground arith)

  pub pmm_init-eq-some :
      (kstart kend : ℕ) (s : Pmm)
      → pmm_init mem mbi kstart kend ≡ some s
      → (t : Pmm) × (free_available mem mbi ≡ some t) × (s ≡ protect mem mbi kstart kend t)
  unfolding pmm_init
  pmm_init-eq-some kstart kend s e = elim (Option-cases (free_available mem mbi)) [
    | inl nothing ↦ absurd (ground arith)
    | inr (t, h) ↦ (t, h, ground arith)
  ]

  protect_lem :
      (kstart kend g : ℕ) (s : Pmm)
      → g < pages_max
      → kstart ≤ kend
      → kend + page_size ≤ 2 ^ 32
      → bit_test (protect mem mbi kstart kend s) g ≡ 0
      → (bit_test s g ≡ 0) × (g ≢ 0) × (kstart / page_size ≤ g → kend ≤ g * page_size)
  unfolding protect
  protect_lem kstart kend g s l o w z = ground (
    arith,
    bit_test-mark_region_used kstart (sub32 kend kstart) g (reserve 0 s),
    bit_test-reserve 0 g s,
  )

  -- After `pmm_init` with a memory map, a free frame of the bitmap is not page 0, holds no byte of
  -- the kernel image, and is covered by an available entry that stands in the map at `mmap_addr`,
  -- reached over the sizes of the entries in front of it, if the bases in the map are 32-bit words
  -- and the kernel image, its last page included, lies in the address space.
  pub pmm_init_free :
      (kstart kend g : ℕ) (s : Pmm)
      → bit_and mbi.flags mboot_flag_mmap ≢ 0
      → ((a : ℕ) → (mem a).base_low < 2 ^ 32)
      → kstart ≤ kend
      → kend + page_size ≤ 2 ^ 32
      → pmm_init mem mbi kstart kend ≡ some s
      → g < pages_max
      → bit_test s g ≡ 0
      → (g ≢ 0)
        × (kstart / page_size ≤ g → kend ≤ g * page_size)
        × ((o : ℕ) × IsOffset o × Covers (mem (add32 mbi.mmap_addr o)) g)
  unfolding free_available
  pmm_init_free kstart kend g s f b o w e l z =
      let (t, walked, same) = pmm_init-eq-some kstart kend s e in
      let (free, first, image) =
        protect_lem kstart kend g t l o w (subst (λ x. bit_test x g ≡ 0) same z) in
      elim (walk_map_frees (suc mbi.mmap_length) 0 (all_used mem mbi) t g l b first_entry
        (ground arith) free) [
          | inl start ↦ absurd (omega (arith, all_used_lem g l))
          | inr c ↦ (first, image, c)
        ]
