-- ===== src/Arch/Tests.antt =====
-- kernel/arch: the theorems at concrete tables.
use lightstreak_os.Base.{
  ℕ, ◌+◌, ◌-◌, ◌*◌, ◌%◌, ◌^◌, ◌<◌, ◌≤◌, ◌≡◌, ◌≢◌, refl, arith, none, some, [], ◌∷◌, ◌++◌, leb,
  if◌then◌else◌,
}
use lightstreak_os.Arch.Idt.{no_gate}
use lightstreak_os.Arch.Gdt.{GdtEntry, GdtPtr, Gdt, gdt_set_entry, tss_init}
use lightstreak_os.Arch.Gdt.Segments.{Describes, set_entry_describes, tss_init_describes}
use lightstreak_os.Arch.Irq.{
  Interrupts, outb, call, pic1_cmd, pic2_cmd, pic_eoi, pic_send_eoi, irq_handler, irq_register,
  idt_init,
}
use lightstreak_os.Arch.Irq.Deliver.{register_delivers, unregistered_only_acknowledged}
use lightstreak_os.Arch.Irq.Gates.{Calls, present, idt_init_gates}

abbrev null_entry : GdtEntry
null_entry = record {
  limit_low = 0;
  base_low = 0;
  base_mid = 0;
  access = 0;
  granularity = 0;
  base_high = 0;
}

abbrev no_table : GdtPtr
no_table = record { limit = 0; base = 0 }

abbrev cleared : Gdt
cleared = record { gdt = λ _. null_entry; gdtr = no_table }

-- The kernel's code segment.
set_entry_describes_example :
    let t = gdt_set_entry 1 0 0xFFFFF 0x9A (12 * 16) cleared in
    Describes (t.gdt 1) 0 (0xFFFFF % 2 ^ 20) 0x9A 12
    × ((j : ℕ) → ◌≢◌ {A = ℕ} 1 j → t.gdt j ≡ cleared.gdt j)
set_entry_describes_example = set_entry_describes 1 0 0xFFFFF 0x9A 12 cleared (omega arith)

tss_init_describes_example :
    let (g, t) = tss_init 0x105000 0x200000 cleared in
    Describes (g.gdt 5) 0x105000 ((0x105000 + 103) % 2 ^ 20) 0x89 0
    × (t.esp0 ≡ 0x200000)
    × (t.ss0 ≡ 0x10)
    × ((j : ℕ) → ◌≢◌ {A = ℕ} 5 j → g.gdt j ≡ cleared.gdt j)
tss_init_describes_example = tss_init_describes 0x105000 0x200000 cleared (omega arith)

abbrev idle : Interrupts
idle = record { idt = λ _. no_gate; irq_handlers = λ _. none }

-- A handler for line 8, on the second controller.
register_delivers_example :
    let t = irq_register 8 (some 0x101234) idle in
    (irq_handler (32 + 8) t
      ≡ (if leb 8 8 then outb pic2_cmd pic_eoi ∷ [] else [])
        ++ outb pic1_cmd pic_eoi ∷ call 0x101234 ∷ [])
    × ((other : ℕ)
        → other < 16
        → ◌≢◌ {A = ℕ} 8 other
        → irq_handler (32 + other) t ≡ irq_handler (32 + other) idle)
register_delivers_example = register_delivers 8 0x101234 idle (omega arith)

unregistered_only_acknowledged_test : irq_handler 33 idle ≡ pic_send_eoi (33 - 32)
unregistered_only_acknowledged_test =
    unregistered_only_acknowledged 33 idle (omega arith) (omega arith) (λ _. refl)

idt_init_gates_example :
    let t = (idt_init 0x107000 (λ k. k % 256) (λ k. k % 16 + 1024) idle).0 in
    ((v : ℕ) → v < 32 → Calls (t.idt v) (v % 256) 0)
    × ((i : ℕ) → i < 16 → Calls (t.idt (32 + i)) (i % 16 + 1024) 0)
    × Calls (t.idt 0x80) (128 % 256) 3
    × ((v : ℕ) → 48 ≤ v → v < 256 → ◌≢◌ {A = ℕ} 0x80 v → present (t.idt v) ≡ 0)
idt_init_gates_example =
    idt_init_gates 0x107000 (λ k. k % 256) (λ k. k % 16 + 1024) idle (λ k. omega arith)
      (λ k. omega arith)
