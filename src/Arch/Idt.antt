-- ===== src/Arch/Idt.antt =====
-- kernel/arch/idt.c: the table of interrupt gates.
use lightstreak_os.Base.{ℕ, ◌/◌, ◌^◌, bit_and, update, for_range}

pub record IdtEntry : Type 0 where
  pub offset_low : ℕ
  pub selector : ℕ
  pub zero : ℕ
  pub type_attr : ℕ
  pub offset_high : ℕ

abbrev pub idt_entries : ℕ
idt_entries = 256

abbrev pub idt_gate_int_ring0 : ℕ
idt_gate_int_ring0 = 0x8E

abbrev pub idt_gate_int_ring3 : ℕ
idt_gate_int_ring3 = 0xEE

-- `num` is below 256.
unfoldable pub idt_set_gate : ℕ → ℕ → ℕ → ℕ → (ℕ → IdtEntry) → ℕ → IdtEntry
idt_set_gate num handler sel flags idt =
    let entry : IdtEntry = record {
      offset_low = bit_and handler 0xFFFF;
      selector = sel;
      zero = 0;
      type_attr = flags;
      offset_high = bit_and (handler / 2 ^ 16) 0xFFFF;
    } in
    update idt num entry

-- A gate of zero bytes.
abbrev pub no_gate : IdtEntry
no_gate = record { offset_low = 0; selector = 0; zero = 0; type_attr = 0; offset_high = 0 }

-- The calls of `idt_set_gate` in a row for `n` vectors from `first` on.
unfoldable pub set_gates : ℕ → ℕ → (ℕ → ℕ) → (ℕ → IdtEntry) → ℕ → IdtEntry
set_gates n first stub idt =
    for_range n first (λ i t. idt_set_gate i (stub i) 0x08 idt_gate_int_ring0 t) idt
