-- ===== src/Arch/Irq.antt =====
-- kernel/arch/irq.c, and idt_init of kernel/arch/idt.c, which calls irq_init.
pub mod Gates
pub mod Deliver
use lightstreak_os.Base.{
  ℕ, ◌+◌, ◌-◌, ◌*◌, ◌%◌, ◌^◌, Option, none, some, List, [], ◌∷◌, ◌++◌, ltb, leb, if◌then◌else◌,
  update, for_range,
}
use lightstreak_os.Arch.Idt.{
  IdtEntry, idt_entries, idt_gate_int_ring3, idt_set_gate, no_gate, set_gates,
}

-- What the code makes the machine do: a byte to a port, interrupts on, a call of a handler.
pub data Event : Type 0 where
  outb : ℕ → ℕ → Event
  io_wait : Event
  sti : Event
  lidt : ℕ → ℕ → Event
  call : ℕ → Event

-- A handler is its address.
pub record Interrupts : Type 0 where
  pub idt : ℕ → IdtEntry
  pub irq_handlers : ℕ → Option ℕ

abbrev pub pic1_cmd : ℕ
pic1_cmd = 0x20

abbrev pub pic1_data : ℕ
pic1_data = 0x21

abbrev pub pic2_cmd : ℕ
pic2_cmd = 0xA0

abbrev pub pic2_data : ℕ
pic2_data = 0xA1

abbrev pub pic_icw1_init : ℕ
pic_icw1_init = 0x11

abbrev pub pic_icw4_8086 : ℕ
pic_icw4_8086 = 0x01

abbrev pub pic_eoi : ℕ
pic_eoi = 0x20

pub pic_remap : List Event
pic_remap =
    outb pic1_cmd pic_icw1_init
    ∷ io_wait
    ∷ outb pic2_cmd pic_icw1_init
    ∷ io_wait
    ∷ outb pic1_data 0x20
    ∷ io_wait
    ∷ outb pic2_data 0x28
    ∷ io_wait
    ∷ outb pic1_data 0x04
    ∷ io_wait
    ∷ outb pic2_data 0x02
    ∷ io_wait
    ∷ outb pic1_data pic_icw4_8086
    ∷ io_wait
    ∷ outb pic2_data pic_icw4_8086
    ∷ io_wait
    ∷ outb pic1_data 0x00
    ∷ outb pic2_data 0x00
    ∷ []

pub pic_send_eoi : ℕ → List Event
pic_send_eoi irq =
    if leb 8 irq
    then outb pic2_cmd pic_eoi ∷ outb pic1_cmd pic_eoi ∷ []
    else outb pic1_cmd pic_eoi ∷ []

pub run_handler : Option ℕ → List Event
run_handler none = []
run_handler (some h) = call h ∷ []

-- `int_no` is the vector that the stub pushed.
pub irq_handler : ℕ → Interrupts → List Event
irq_handler int_no s =
    let irq = (int_no + 2 ^ 32 - 32) % 2 ^ 8 in
    pic_send_eoi irq ++ (if ltb irq 16 then run_handler (s.irq_handlers irq) else [])

-- A null pointer clears the entry.
pub irq_register : ℕ → Option ℕ → Interrupts → Interrupts
irq_register irq handler s =
    if ltb irq 16 then record s { irq_handlers = update s.irq_handlers irq handler } else s

-- `irq_stub i` is the address of the stub for line `i`.
pub irq_init : (ℕ → ℕ) → Interrupts → Interrupts × List Event
irq_init irq_stub s =
    let handlers = for_range 16 0 (λ i t. update t i none) s.irq_handlers in
    let t : Interrupts = record {
      idt = set_gates 16 32 (λ v. irq_stub (v - 32)) s.idt;
      irq_handlers = handlers;
    } in
    (t, pic_remap ++ sti ∷ [])

-- `idt_addr` is the address of the table, `isr_stub` gives those of the stubs.
pub idt_init : ℕ → (ℕ → ℕ) → (ℕ → ℕ) → Interrupts → Interrupts × List Event
idt_init idt_addr isr_stub irq_stub s =
    let zeroed = for_range idt_entries 0 (λ i t. update t i no_gate) s.idt in
    let exceptions = set_gates 32 0 isr_stub zeroed in
    let gates = idt_set_gate 0x80 (isr_stub 128) 0x08 idt_gate_int_ring3 exceptions in
    let (t, events) = irq_init irq_stub (record s { idt = gates }) in
    (t, events ++ lidt ((8 * idt_entries - 1) % 2 ^ 16) idt_addr ∷ [])
