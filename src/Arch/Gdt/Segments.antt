-- ===== src/Arch/Gdt/Segments.antt =====
-- How the CPU reads a descriptor, and that `gdt_set_entry` stores what it was given.
use lightstreak_os.Base.{
  ℕ, ◌+◌, ◌-◌, ◌*◌, ◌/◌, ◌%◌, ◌^◌, ◌<◌, ◌≡◌, ◌≢◌, refl, ap, ◌∙◌, bit_and, bit_or, add32, arith,
  ==_self, ==_ne,
}
use lightstreak_os.Base.Bits.{bit_and_mask, bit_or_low}
use lightstreak_os.Arch.Gdt.{GdtEntry, Gdt, gdt_set_entry, gdt_set_tss_entry, tss_init, tss_size}

-- The base, the limit and the flags of a descriptor, as the CPU puts them together.
pub base_of : GdtEntry → ℕ
base_of e = e.base_low + e.base_mid * 2 ^ 16 + e.base_high * 2 ^ 24

pub limit_of : GdtEntry → ℕ
limit_of e = e.limit_low + e.granularity % 16 * 2 ^ 16

pub flags_of : GdtEntry → ℕ
flags_of e = e.granularity / 16

-- A descriptor that the CPU reads as this segment.
pub record Describes (e : GdtEntry) (base limit access flags : ℕ) : Type 0 where
  pub at : base_of e ≡ base
  pub up_to : limit_of e ≡ limit
  pub rights : e.access ≡ access
  pub units : flags_of e ≡ flags

granularity_lem :
    (limit flags : ℕ)
    → bit_or (bit_and (limit / 2 ^ 16) 0x0F) (flags * 16) ≡ flags * 16 + limit / 2 ^ 16 % 16
granularity_lem limit flags =
    ap (λ x. bit_or x (flags * 16)) (bit_and_mask 4 (limit / 2 ^ 16))
    ∙ bit_or_low 4 flags (limit / 2 ^ 16 % 16) (omega arith)

stored :
    (num base limit access flags : ℕ) (s : Gdt)
    → base < 2 ^ 32
    → Describes
        ((gdt_set_entry num base limit access (flags * 16) s).gdt num)
        base
        (limit % 2 ^ 20)
        access
        flags
unfolding gdt_set_entry base_of limit_of flags_of
stored num base limit access flags s hb =
    rw (==_self num, granularity_lem limit flags)
      (record {
        at = omega (
          arith,
          bit_and_mask 16 base,
          bit_and_mask 8 (base / 2 ^ 16),
          bit_and_mask 8 (base / 2 ^ 24),
        );
        up_to = omega (arith, bit_and_mask 16 limit);
        rights = refl;
        units = omega arith;
      })

-- `gdt_set_entry` stores a descriptor from which the CPU reads back the base, the low 20 bits of
-- the limit, the access byte and the flags, and changes no other entry, if the base is a 32-bit
-- word and the low half of the granularity byte is clear.
pub set_entry_describes :
    (num base limit access flags : ℕ) (s : Gdt)
    → base < 2 ^ 32
    → let t = gdt_set_entry num base limit access (flags * 16) s in
      Describes (t.gdt num) base (limit % 2 ^ 20) access flags
      × ((j : ℕ) → num ≢ j → t.gdt j ≡ s.gdt j)
unfolding gdt_set_entry
set_entry_describes num base limit access flags s hb =
    (stored num base limit access flags s hb, λ j ne. rw (==_ne num j ne) refl)

-- `tss_init` of a segment that ends below 2^32 gives the CPU its address and a ring 0 stack in the
-- kernel data segment and changes no other descriptor; the limit that it stores is the low 20 bits
-- of the address of the last byte, not the size.
pub tss_init_describes :
    (tss_addr kernel_stack : ℕ) (s : Gdt)
    → tss_addr + 103 < 2 ^ 32
    → let (g, t) = tss_init tss_addr kernel_stack s in
      Describes (g.gdt 5) tss_addr ((tss_addr + 103) % 2 ^ 20) 0x89 0
      × (t.esp0 ≡ kernel_stack)
      × (t.ss0 ≡ 0x10)
      × ((j : ℕ) → 5 ≢ j → g.gdt j ≡ s.gdt j)
unfolding tss_init gdt_set_tss_entry
tss_init_describes tss_addr kernel_stack s h =
    let (d, others) = set_entry_describes 5 tss_addr (tss_addr + 103) 0x89 0 s (omega arith) in
    rw (small) (d, refl, refl, others)
  where
    small : add32 tss_addr (tss_size - 1) ≡ tss_addr + 103
    small = omega arith
