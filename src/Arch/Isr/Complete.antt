-- ===== src/Arch/Isr/Complete.antt =====
-- The report of an exception is printed to its end, since each of its formats describes a text.
use lightstreak_os.Base.{ℕ, ◌≡◌, refl, ap, ◌∙◌, Option, some, List, ◌==◌, Bool-cases, inl, inr}
use lightstreak_os.Vga.{Vga, vga_make_color, vga_set_color}
use lightstreak_os.Kprintf.{kprintf}
use lightstreak_os.Kprintf.Format.{formatted, shown, past, put_text, kprintf-formatted}
use lightstreak_os.Arch.Isr.{
  TrapFrame, and_then, print_header, print_fault, print_registers, report,
}

record IsPrinted (o : Option Vga) : Type 0 where
  after : Vga
  done : o ≡ some after

then-IsPrinted :
    (o : Option Vga) (next : Vga → Option Vga)
    → IsPrinted o
    → ((t : Vga) → IsPrinted (next t))
    → IsPrinted (and_then o next)
then-IsPrinted o next p h =
    let q = h p.after in
    record { after = q.after; done = ap (λ x. and_then x next) p.done ∙ q.done }

kprintf-IsPrinted :
    (str : ℕ → List ℕ) (args : ℕ → ℕ) (fmt l : List ℕ) (s : Vga)
    → formatted str args fmt 0 ≡ some l
    → IsPrinted (kprintf str args fmt s)
unfolding put_text
kprintf-IsPrinted str args fmt l s e = record {
  after = _;
  done = kprintf-formatted str args fmt s ∙ ap (λ o. put_text o s) e;
}

module _ (regs : TrapFrame) (cr2 : ℕ) where
  header-IsPrinted : (s : Vga) → IsPrinted (print_header regs cr2 s)
  unfolding print_header formatted shown past
  header-IsPrinted s = then-IsPrinted _ _ (kprintf-IsPrinted _ _ _ _ s refl) (λ t.
      then-IsPrinted _ _ (kprintf-IsPrinted _ _ _ _ t refl) (λ u. kprintf-IsPrinted _ _ _ _ u refl))

  fault-IsPrinted : (s : Vga) → IsPrinted (print_fault regs cr2 s)
  unfolding print_fault formatted shown past
  fault-IsPrinted s = elim (Bool-cases (regs.int_no == 14)) [
    | inl p ↦ rw (p) (kprintf-IsPrinted _ _ _ _ s refl)
    | inr p ↦ rw (p) (record { after = s; done = refl })
  ]

  registers-IsPrinted : (s : Vga) → IsPrinted (print_registers regs cr2 s)
  unfolding print_registers formatted shown past
  registers-IsPrinted s = then-IsPrinted _ _ (kprintf-IsPrinted _ _ _ _ s refl) (λ t.
      then-IsPrinted _ _ (kprintf-IsPrinted _ _ _ _ t refl) (λ u.
        then-IsPrinted _ _ (kprintf-IsPrinted _ _ _ _ u refl)
          (λ v. kprintf-IsPrinted _ _ _ _ v refl)))

  -- Whatever the registers are, the report of an exception is printed to its end.
  report-IsPrinted : (s : Vga) → IsPrinted (report regs cr2 s)
  unfolding report formatted shown past
  report-IsPrinted s = then-IsPrinted _ _ (header-IsPrinted _) (λ t.
      then-IsPrinted _ _ (fault-IsPrinted t) (λ u.
        then-IsPrinted _ _ (registers-IsPrinted u)
          (λ v. kprintf-IsPrinted _ _ _ _ (vga_set_color (vga_make_color 7 0) v) refl)))
