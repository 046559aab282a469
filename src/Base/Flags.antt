-- ===== src/Base/Flags.antt =====
-- Words whose low 12 bits are flags: page table entries.
use Prim.Native.Nat.{ℕ, ◌+◌, ◌-◌, ◌*◌, ◌/◌, ◌%◌, ◌^◌, ◌<◌, bit_and, bit_or}
use mathlib.Core.Path.{◌≡◌, ap, ap₂, ◌∙◌}
use native.Mathlib.Nat.{le_refl}
use native.Mathlib.Omega.{arith}
use lightstreak_os.Base.Bits.{bit_or_halves, zero_right, bit_or_fields, bit_and_mask, bit_and_page}

pub bit_or_one : (w : ℕ) → bit_or w 1 ≡ w / 2 * 2 + 1
bit_or_one w = omega (arith, bit_or_halves w 1, zero_right (w / 2) (w / 2) (le_refl _))

pub bit_or_two : (w : ℕ) → w % 4 < 2 → bit_or w 2 ≡ w + 2
bit_or_two w h = omega (arith, bit_or_halves w 2, bit_or_one (w / 2))

pub bit_or_four : (w : ℕ) → w % 8 < 4 → bit_or w 4 ≡ w + 4
bit_or_four w h = omega (arith, bit_or_halves w 4, bit_or_two (w / 2) (omega arith))

-- `at | PRESENT | WRITE` and `at | PRESENT | WRITE | USER`, for the address of a page.
pub bit_or_kernel : (q : ℕ) → bit_or (bit_or (q * 4096) 1) 2 ≡ q * 4096 + 3
bit_or_kernel q =
    ap (λ x. bit_or x 2) (bit_or_one (q * 4096) ∙ omega arith)
    ∙ bit_or_two (q * 4096 + 1) (omega arith)
    ∙ omega arith

pub bit_or_table : (q : ℕ) → bit_or (bit_or (bit_or (q * 4096) 1) 2) 4 ≡ q * 4096 + 7
bit_or_table q =
    ap (λ x. bit_or x 4) (bit_or_kernel q) ∙ bit_or_four (q * 4096 + 3) (omega arith) ∙ omega arith

-- `(phys & PAGE_MASK) | (flags & 0xFFF) | PRESENT`
pub bit_or_entry :
    (phys flags : ℕ)
    → phys < 2 ^ 32
    → bit_or (bit_or (bit_and phys (2 ^ 32 - 4096)) (bit_and flags 0xFFF)) 1
      ≡ phys / 4096 * 4096 + flags % 4096 / 2 * 2 + 1
bit_or_entry phys flags h =
    ap (λ x. bit_or x 1)
      (ap₂ bit_or (bit_and_page 12 32 phys (omega arith) h ∙ omega arith) (bit_and_mask 12 flags)
        ∙ bit_or_fields 12 (phys / 4096) (flags % 4096) (omega arith))
    ∙ bit_or_one (phys / 4096 * 4096 + flags % 4096)
    ∙ omega arith

-- `entry & PAGE_MASK`
pub bit_and_frame : (w : ℕ) → w < 2 ^ 32 → bit_and w (2 ^ 32 - 4096) ≡ w / 4096 * 4096
bit_and_frame w h = bit_and_page 12 32 w (omega arith) h ∙ omega arith
