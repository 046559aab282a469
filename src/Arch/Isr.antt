-- ===== src/Arch/Isr.antt =====
-- kernel/arch/isr.c: the report of an exception. The registers are those that the stubs push, `cr2`
-- the address of a page fault. A message is a string at a place of its own, the address of `%s` in a
-- message is the number of the exception plus 1, and the message on the serial port is left out.
pub mod Complete
use lightstreak_os.Base.{
  ℕ, zero, suc, ◌+◌, ◌-◌, ◌≡◌, refl, Bool, Option, none, some, List, [], ◌∷◌, ltb, ◌==◌,
  if◌then◌else◌, get_or,
}
use lightstreak_os.Base.Text.{text}
use lightstreak_os.Vga.{Vga, vga_make_color, vga_set_color}
use lightstreak_os.Kprintf.{kprintf}

pub record TrapFrame : Type 0 where
  pub edi : ℕ
  pub esi : ℕ
  pub ebp : ℕ
  pub ebx : ℕ
  pub edx : ℕ
  pub ecx : ℕ
  pub eax : ℕ
  pub int_no : ℕ
  pub err_code : ℕ
  pub eip : ℕ
  pub cs : ℕ
  pub eflags : ℕ

pub exception_names : List (List ℕ)
exception_names =
    text "Divide by Zero"
    ∷ text "Debug"
    ∷ text "Non-Maskable Interrupt"
    ∷ text "Breakpoint"
    ∷ text "Overflow"
    ∷ text "Bound Range Exceeded"
    ∷ text "Invalid Opcode"
    ∷ text "Device Not Available"
    ∷ text "Double Fault"
    ∷ text "Coprocessor Segment Overrun"
    ∷ text "Invalid TSS"
    ∷ text "Segment Not Present"
    ∷ text "Stack-Segment Fault"
    ∷ text "General Protection Fault"
    ∷ text "Page Fault"
    ∷ text "Reserved"
    ∷ text "x87 Floating-Point"
    ∷ text "Alignment Check"
    ∷ text "Machine Check"
    ∷ text "SIMD Floating-Point"
    ∷ text "Virtualisation"
    ∷ text "Control Protection"
    ∷ text "Reserved"
    ∷ text "Reserved"
    ∷ text "Reserved"
    ∷ text "Reserved"
    ∷ text "Reserved"
    ∷ text "Reserved"
    ∷ text "Reserved"
    ∷ text "Reserved"
    ∷ text "Reserved"
    ∷ text "Reserved"
    ∷ []

pub exception_name : ℕ → List ℕ
exception_name n = if ltb n 32 then get_or exception_names n [] else text "Unknown"

-- The arguments of a message.
abbrev args_of : List ℕ → ℕ → ℕ
args_of ws k = get_or ws k 0

abbrev no_string : ℕ → List ℕ
no_string p = []

abbrev pub and_then : Option Vga → (Vga → Option Vga) → Option Vga
and_then none next = none
and_then (some s) next = next s

module _ (regs : TrapFrame) (cr2 : ℕ) where
  pub print_header : Vga → Option Vga
  print_header s =
      and_then (kprintf no_string (args_of []) (text "\n*** KERNEL EXCEPTION ***\n") s) (λ s1.
        and_then
          (kprintf (λ p. exception_name regs.int_no) (args_of (regs.int_no ∷ suc regs.int_no ∷ []))
            (text "Exception %u: %s\n") s1)
          (kprintf no_string (args_of (regs.err_code ∷ [])) (text "Error code: 0x%x\n")))

  pub print_fault : Vga → Option Vga
  print_fault s =
      let told = kprintf no_string (args_of (cr2 ∷ [])) (text "Faulting address (CR2): 0x%x\n") s in
      if regs.int_no == 14 then told else some s

  pub print_registers : Vga → Option Vga
  print_registers s = and_then (kprintf no_string (args_of []) (text "\nRegisters:\n") s) (λ s1.
      and_then
        (kprintf no_string (args_of (regs.eax ∷ regs.ebx ∷ regs.ecx ∷ regs.edx ∷ []))
          (text "  eax=0x%x  ebx=0x%x  ecx=0x%x  edx=0x%x\n") s1)
        (λ s2.
          and_then
            (kprintf no_string (args_of (regs.esi ∷ regs.edi ∷ regs.ebp ∷ []))
              (text "  esi=0x%x  edi=0x%x  ebp=0x%x\n") s2)
            (kprintf no_string (args_of (regs.eip ∷ regs.cs ∷ regs.eflags ∷ []))
              (text "  eip=0x%x  cs=0x%x  eflags=0x%x\n"))))

  -- The screen when the processor halts.
  pub report : Vga → Option Vga
  report s = and_then (print_header (vga_set_color (vga_make_color 4 0) s)) (λ s1.
      and_then (print_fault s1) (λ s2. and_then (print_registers s2) (λ s3.
        kprintf no_string (args_of []) (text "\nSystem halted.\n")
          (vga_set_color (vga_make_color 7 0) s3))))

-- What `isr_handler` comes to: `int 0x80` is a system call, and every other exception is reported
-- and halts.
pub data Trap : Type 0 where
  system_call : Trap
  halted : Option Vga → Trap

pub isr_handler : TrapFrame → ℕ → Vga → Trap
isr_handler regs cr2 s = if regs.int_no == 0x80 then system_call else halted (report regs cr2 s)
