-- ===== src/Arch/Gdt.antt =====
-- kernel/arch/gdt.c and kernel/arch/tss.c: the descriptor table and the task state segment.
pub mod Segments
use lightstreak_os.Base.{ℕ, ◌+◌, ◌-◌, ◌*◌, ◌/◌, ◌%◌, ◌^◌, bit_and, bit_or, update, add32}

pub record GdtEntry : Type 0 where
  pub limit_low : ℕ
  pub base_low : ℕ
  pub base_mid : ℕ
  pub access : ℕ
  pub granularity : ℕ
  pub base_high : ℕ

pub record GdtPtr : Type 0 where
  pub limit : ℕ
  pub base : ℕ

pub record Gdt : Type 0 where
  pub gdt : ℕ → GdtEntry
  pub gdtr : GdtPtr

abbrev pub gdt_entries : ℕ
gdt_entries = 6

-- `sizeof(gdt_entry_t)`
abbrev pub gdt_entry_size : ℕ
gdt_entry_size = 8

pub gdt_set_entry : ℕ → ℕ → ℕ → ℕ → ℕ → Gdt → Gdt
gdt_set_entry num base limit access gran s =
    let entry : GdtEntry = record {
      limit_low = bit_and limit 0xFFFF;
      base_low = bit_and base 0xFFFF;
      base_mid = bit_and (base / 2 ^ 16) 0xFF;
      access = access;
      granularity = bit_or (bit_and (limit / 2 ^ 16) 0x0F) gran;
      base_high = bit_and (base / 2 ^ 24) 0xFF;
    } in
    record s { gdt = update s.gdt num entry }

-- `gdt_addr` is the address of the table.
pub gdt_init : ℕ → Gdt → Gdt
gdt_init gdt_addr s =
    let s0 = gdt_set_entry 0 0 0 0 0 s in
    let s1 = gdt_set_entry 1 0 0xFFFFF 0x9A 0xCF s0 in
    let s2 = gdt_set_entry 2 0 0xFFFFF 0x92 0xCF s1 in
    let s3 = gdt_set_entry 3 0 0xFFFFF 0xFA 0xCF s2 in
    let s4 = gdt_set_entry 4 0 0xFFFFF 0xF2 0xCF s3 in
    let s5 = gdt_set_entry 5 0 0 0 0 s4 in
    let ptr : GdtPtr = record {
      limit = (gdt_entry_size * gdt_entries - 1) % 2 ^ 16;
      base = gdt_addr;
    } in
    record s5 { gdtr = ptr }

pub gdt_set_tss_entry : ℕ → ℕ → Gdt → Gdt
gdt_set_tss_entry base limit s = gdt_set_entry 5 base limit 0x89 0x00 s

-- The fields that are not set stay 0; they are left out.
pub record Tss : Type 0 where
  pub esp0 : ℕ
  pub ss0 : ℕ
  pub iomap_base : ℕ

-- `sizeof(tss_entry_t)`
abbrev pub tss_size : ℕ
tss_size = 104

-- `tss_addr` is the address of the segment.
pub tss_init : ℕ → ℕ → Gdt → Gdt × Tss
tss_init tss_addr kernel_stack s =
    let limit = add32 tss_addr (tss_size - 1) in
    let t : Tss = record { esp0 = kernel_stack; ss0 = 0x10; iomap_base = tss_size % 2 ^ 16 } in
    (gdt_set_tss_entry tss_addr limit s, t)

pub tss_set_kernel_stack : ℕ → Tss → Tss
tss_set_kernel_stack stack t = record t { esp0 = stack }
