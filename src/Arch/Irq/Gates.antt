-- ===== src/Arch/Irq/Gates.antt =====
-- The table of gates after `idt_init`.
use lightstreak_os.Base.{
  ℕ, ◌+◌, ◌-◌, ◌*◌, ◌/◌, ◌%◌, ◌^◌, ◌≤◌, ◌<◌, ◌≡◌, ◌≢◌, refl, ap, ◌∙◌, sym, arith, ltb, leb, ◌==◌,
  if◌then◌else◌, for_range-update, bit_and, true, false, ==_ne, lt→ltb, ◌⊎◌, subst, ◌&&◌,
}
use lightstreak_os.Base.Bits.{bit_and_mask}
use lightstreak_os.Arch.Idt.{
  IdtEntry, idt_entries, idt_gate_int_ring0, idt_gate_int_ring3, idt_set_gate, no_gate, set_gates,
}
use lightstreak_os.Arch.Irq.{Interrupts, irq_init, idt_init}

-- The address that the CPU calls.
pub offset_of : IdtEntry → ℕ
offset_of e = e.offset_low + e.offset_high * 2 ^ 16

pub present : IdtEntry → ℕ
present e = e.type_attr / 2 ^ 7

-- The least privileged ring that may call the gate.
pub ring_of : IdtEntry → ℕ
ring_of e = e.type_attr / 2 ^ 5 % 4

-- A gate that calls `handler` in the kernel's code segment, open to `ring`.
pub record Calls (e : IdtEntry) (handler ring : ℕ) : Type 0 where
  pub target : offset_of e ≡ handler
  pub segment : e.selector ≡ 0x08
  pub there : present e ≡ 1
  pub open_to : ring_of e ≡ ring

inside : (a b v : ℕ) → a ≤ v → v < b → (leb a v && ltb v b) ≡ true
inside a b v lo hi = ground arith

outside : (a b v : ℕ) → (v < a) ⊎ (b ≤ v) → (leb a v && ltb v b) ≡ false
outside a b v h = ground arith

absent : present no_gate ≡ 0
unfolding present
absent = refl

abbrev gate : ℕ → ℕ → IdtEntry
gate handler flags = record {
  offset_low = bit_and handler 0xFFFF;
  selector = 0x08;
  zero = 0;
  type_attr = flags;
  offset_high = bit_and (handler / 2 ^ 16) 0xFFFF;
}

set_gates_lem :
    (n i j : ℕ) (stub : ℕ → ℕ) (t : ℕ → IdtEntry)
    → set_gates n i stub t j
      ≡ (if leb i j && ltb j (i + n) then gate (stub j) idt_gate_int_ring0 else t j)
unfolding set_gates idt_set_gate
set_gates_lem n i j stub t = for_range-update n i j (λ k. gate (stub k) idt_gate_int_ring0) t

-- The table after the start, entry by entry.
abbrev expected : (ℕ → ℕ) → (ℕ → ℕ) → ℕ → IdtEntry
expected isr_stub irq_stub v =
    if leb 32 v && ltb v 48
    then gate (irq_stub (v - 32)) idt_gate_int_ring0
    else if 0x80 == v
    then gate (isr_stub 128) idt_gate_int_ring3
    else if leb 0 v && ltb v 32
    then gate (isr_stub v) idt_gate_int_ring0
    else no_gate

idt_init_lem :
    (idt_addr : ℕ) (isr_stub irq_stub : ℕ → ℕ) (s : Interrupts) (v : ℕ)
    → v < 256
    → (let t = (idt_init idt_addr isr_stub irq_stub s).0 in t.idt v) ≡ expected isr_stub irq_stub v
unfolding idt_init irq_init idt_set_gate
idt_init_lem idt_addr isr_stub irq_stub s v h =
    set_gates_lem 16 32 v (λ k. irq_stub (k - 32)) _
    ∙ ap
        (λ x.
          if leb 32 v && ltb v 48
          then gate (irq_stub (v - 32)) idt_gate_int_ring0
          else if 0x80 == v
          then gate (isr_stub 128) idt_gate_int_ring3
          else x)
        (set_gates_lem 32 0 v isr_stub _
          ∙ ap (λ x. if leb 0 v && ltb v 32 then gate (isr_stub v) idt_gate_int_ring0 else x)
              (for_range-update idt_entries 0 v (λ k. no_gate) s.idt ∙ all_zero))
  where
    all_zero : (if leb 0 v && ltb v (0 + idt_entries) then no_gate else s.idt v) ≡ no_gate
    all_zero = rw (lt→ltb v 256 h) (ground arith)

gate-Calls :
    (handler flags ring : ℕ)
    → handler < 2 ^ 32
    → flags / 2 ^ 7 ≡ 1
    → flags / 2 ^ 5 % 4 ≡ ring
    → Calls (gate handler flags) handler ring
unfolding offset_of present ring_of
gate-Calls handler flags ring h p r = record {
  target = omega (arith, bit_and_mask 16 handler, bit_and_mask 16 (handler / 2 ^ 16));
  segment = refl;
  there = p;
  open_to = r;
}

-- After `idt_init`, each of the exceptions 0 to 31 and of the hardware lines 32 to 47 has a gate to
-- its own stub that only the kernel may call, `int 0x80` has a gate that user programs may call,
-- and no other vector has a gate, if the stubs lie in the 32-bit address space.
pub idt_init_gates :
    (idt_addr : ℕ) (isr_stub irq_stub : ℕ → ℕ) (s : Interrupts)
    → ((k : ℕ) → isr_stub k < 2 ^ 32)
    → ((k : ℕ) → irq_stub k < 2 ^ 32)
    → let t = (idt_init idt_addr isr_stub irq_stub s).0 in
      ((v : ℕ) → v < 32 → Calls (t.idt v) (isr_stub v) 0)
      × ((i : ℕ) → i < 16 → Calls (t.idt (32 + i)) (irq_stub i) 0)
      × Calls (t.idt 0x80) (isr_stub 128) 3
      × ((v : ℕ) → 48 ≤ v → v < 256 → 0x80 ≢ v → present (t.idt v) ≡ 0)
idt_init_gates idt_addr isr_stub irq_stub s hi hq = (
  λ v h. exceptions v h _ (idt_init_lem idt_addr isr_stub irq_stub s v (omega arith)),
  λ i h. lines i h _ (idt_init_lem idt_addr isr_stub irq_stub s (32 + i) (omega arith)),
  subst (λ e. Calls e (isr_stub 128) 3)
      (sym (idt_init_lem idt_addr isr_stub irq_stub s 128 (omega arith)))
      (gate-Calls (isr_stub 128) 0xEE 3 (hi 128) (omega arith) (omega arith)),
  λ v lo h ne. none_else v lo ne _ (idt_init_lem idt_addr isr_stub irq_stub s v h),
)
  where
    exceptions :
        (v : ℕ)
        → v < 32
        → (e : IdtEntry) → e ≡ expected isr_stub irq_stub v
        → Calls e (isr_stub v) 0
    exceptions v h e q =
        subst (λ x. Calls x (isr_stub v) 0) (sym (q ∙ here))
          (gate-Calls (isr_stub v) 0x8E 0 (hi v) (omega arith) (omega arith))
      where
        here : expected isr_stub irq_stub v ≡ gate (isr_stub v) 0x8E
        here =
            rw
              (
                outside 32 48 v (ground arith),
                ==_ne 128 v (λ x. absurd (omega arith)),
                inside 0 32 v (omega arith) h,
              )
              refl

    lines :
        (i : ℕ)
        → i < 16
        → (e : IdtEntry) → e ≡ expected isr_stub irq_stub (32 + i)
        → Calls e (irq_stub i) 0
    lines i h e q =
        subst (λ x. Calls x (irq_stub i) 0) (sym (q ∙ here))
          (gate-Calls (irq_stub i) 0x8E 0 (hq i) (omega arith) (omega arith))
      where
        here : expected isr_stub irq_stub (32 + i) ≡ gate (irq_stub i) 0x8E
        here =
            rw (inside 32 48 (32 + i) (omega arith) (omega arith))
              (ap (λ x. gate (irq_stub x) 0x8E) (omega arith))

    none_else :
        (v : ℕ)
        → 48 ≤ v
        → 0x80 ≢ v
        → (e : IdtEntry) → e ≡ expected isr_stub irq_stub v
        → present e ≡ 0
    none_else v lo ne e q = ap present (q ∙ here) ∙ absent
      where
        here : expected isr_stub irq_stub v ≡ no_gate
        here =
            rw (outside 32 48 v (ground arith), ==_ne 128 v ne, outside 0 32 v (ground arith)) refl
