-- ===== src/Pmm/Frames.antt =====
-- kernel/mm/pmm.c: what the bitmap helpers and the two region loops do to each frame's bit.
use lightstreak_os.Base.{
  ℕ, zero, suc, ◌+◌, ◌-◌, ◌/◌, ◌%◌, ◌<◌, ◌≡◌, refl, ◌&&◌, arith, sub32, ltb, leb, ◌==◌,
  if◌then◌else◌, for_range, add32,
}
use lightstreak_os.Base.Bits.{bit-lt, bit-set, bit-clear}
use lightstreak_os.Pmm.{
  page_size, pages_max, Pmm, bit_set, bit_clear, bit_test, release, reserve, rounds,
  pmm_free_region, pmm_mark_region_used,
}

pub bit_test-bit_set :
    (f g : ℕ) (s : Pmm) → bit_test (bit_set f s) g ≡ (if f == g then 1 else bit_test s g)
unfolding bit_test bit_set
bit_test-bit_set f g s = ground (arith, bit-set (s.bitmap (f / 32)) (f % 32) (g % 32))

pub bit_test-bit_clear :
    (f g : ℕ) (s : Pmm) → bit_test (bit_clear f s) g ≡ (if f == g then 0 else bit_test s g)
unfolding bit_test bit_clear
bit_test-bit_clear f g s = ground (arith, bit-clear 32 (s.bitmap (f / 32)) (f % 32) (g % 32))

-- The counter does not take part in a test.
pub bit_test-counter : (s : Pmm) (u g : ℕ) → bit_test (record s { used_pages = u }) g ≡ bit_test s g
unfolding bit_test
bit_test-counter s u g = refl

pub bit_test-lt : (s : Pmm) (g : ℕ) → bit_test s g < 2
unfolding bit_test
bit_test-lt s g = bit-lt (s.bitmap (g / 32)) (g % 32)

pub bit_test-release :
    (f g : ℕ) (s : Pmm) → bit_test (release f s) g ≡ (if f == g then 0 else bit_test s g)
unfolding release
bit_test-release f g s = ground (
  arith,
  bit_test-counter (bit_clear f s) (sub32 (bit_clear f s).used_pages 1) g,
  bit_test-bit_clear f g s,
)

pub bit_test-reserve :
    (f g : ℕ) (s : Pmm) → bit_test (reserve f s) g ≡ (if f == g then 1 else bit_test s g)
unfolding reserve
bit_test-reserve f g s = ground (
  arith,
  bit_test-counter (bit_set f s) (add32 (bit_set f s).used_pages 1) g,
  bit_test-bit_set f g s,
  bit_test-lt s g,
)

release_loop :
    (n page g : ℕ) (s : Pmm)
    → bit_test (for_range n page release s) g
      ≡ (if leb page g && ltb g (page + n) then 0 else bit_test s g)
unfolding for_range
release_loop zero page g s = ground arith
release_loop (suc n) page g s =
    ground (arith, release_loop n (suc page) g (release page s), bit_test-release page g s)

reserve_loop :
    (n page g : ℕ) (s : Pmm)
    → bit_test (for_range n page reserve s) g
      ≡ (if leb page g && ltb g (page + n) then 1 else bit_test s g)
unfolding for_range
reserve_loop zero page g s = ground arith
reserve_loop (suc n) page g s =
    ground (arith, reserve_loop n (suc page) g (reserve page s), bit_test-reserve page g s)

-- `pmm_free_region` clears the bits of the frames from that of the base up to that of the end,
-- exclusive, and no others.
pub bit_test-free_region :
    (base len g : ℕ) (s : Pmm)
    → g < pages_max
    → bit_test (pmm_free_region base len s) g
      ≡ (if leb (base / page_size) g && ltb g (add32 base len / page_size) then 0 else bit_test s g)
unfolding pmm_free_region rounds
bit_test-free_region base len g s h = ground (
  arith,
  release_loop (rounds (base / page_size) (add32 base len / page_size)) (base / page_size) g s,
)

-- `pmm_mark_region_used` sets the bits of the frames from that of the base up to that of the end
-- rounded up, exclusive, and no others.
pub bit_test-mark_region_used :
    (base len g : ℕ) (s : Pmm)
    → g < pages_max
    → bit_test (pmm_mark_region_used base len s) g ≡ (
        if leb (base / page_size) g && ltb g (add32 (add32 base len) (page_size - 1) / page_size)
        then 1
        else bit_test s g)
unfolding pmm_mark_region_used rounds
bit_test-mark_region_used base len g s h = ground (
  arith,
  reserve_loop (rounds (base / page_size) (add32 (add32 base len) (page_size - 1) / page_size))
      (base / page_size) g s,
)
