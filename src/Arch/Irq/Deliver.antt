-- ===== src/Arch/Irq/Deliver.antt =====
-- From the line to the handler: what happens at a hardware interrupt.
use lightstreak_os.Base.{
  ℕ, ◌+◌, ◌-◌, ◌%◌, ◌^◌, ◌<◌, ◌≤◌, ◌≡◌, ◌≢◌, refl, ap, Option, none, some, List, [], ◌∷◌, ◌++◌,
  arith, ltb, leb, if◌then◌else◌, update, ==_self, ==_ne, lt→ltb, ltb→lt, ◌∙◌, sym, Bool-cases, inl,
  inr,
}
use lightstreak_os.Arch.Irq.{
  outb, call, Interrupts, pic1_cmd, pic2_cmd, pic_eoi, pic_send_eoi, run_handler, irq_handler,
  irq_register,
}

append-nil : {A : Type 0} (xs : List A) → xs ++ [] ≡ xs
append-nil [] = refl
append-nil (x ∷ xs) = ap (◌∷◌ x) (append-nil xs)

vector_lem : (irq : ℕ) → irq < 16 → (32 + irq + 2 ^ 32 - 32) % 2 ^ 8 ≡ irq
vector_lem irq h = omega arith

handler_lem :
    (irq : ℕ) (s : Interrupts)
    → irq < 16
    → irq_handler (32 + irq) s ≡ pic_send_eoi irq ++ run_handler (s.irq_handlers irq)
unfolding irq_handler
handler_lem irq s h = rw (vector_lem irq h, lt→ltb irq 16 h) refl

own :
    (irq : ℕ) (found : Option ℕ) (handler : ℕ)
    → found ≡ some handler
    → pic_send_eoi irq ++ run_handler found
      ≡ (if leb 8 irq then outb pic2_cmd pic_eoi ∷ [] else [])
        ++ outb pic1_cmd pic_eoi ∷ call handler ∷ []
unfolding pic_send_eoi run_handler
own irq found handler e =
    rw (e) (elim (Bool-cases (leb 8 irq)) [ inl p ↦ rw (p) refl | inr p ↦ rw (p) refl ])

-- After `irq_register` of a handler for one of the 16 lines, an interrupt on that line acknowledges
-- the second controller if the line is its own, then the first one, and then calls the handler; an
-- interrupt on another line is served as before.
pub register_delivers :
    (irq handler : ℕ) (s : Interrupts)
    → irq < 16
    → let t = irq_register irq (some handler) s in
      (irq_handler (32 + irq) t
        ≡ (if leb 8 irq then outb pic2_cmd pic_eoi ∷ [] else [])
          ++ outb pic1_cmd pic_eoi ∷ call handler ∷ [])
      × ((other : ℕ)
          → other < 16
          → irq ≢ other
          → irq_handler (32 + other) t ≡ irq_handler (32 + other) s)
unfolding irq_register
register_delivers irq handler s h =
    rw (lt→ltb irq 16 h) (served, λ other lt ne. untouched other lt ne)
  where
    t : Interrupts
    t = record s { irq_handlers = update s.irq_handlers irq (some handler) }

    served :
        irq_handler (32 + irq) t
        ≡ (if leb 8 irq then outb pic2_cmd pic_eoi ∷ [] else [])
          ++ outb pic1_cmd pic_eoi ∷ call handler ∷ []
    served = handler_lem irq t h ∙ own irq (t.irq_handlers irq) handler (rw (==_self irq) refl)

    untouched :
        (other : ℕ)
        → other < 16
        → irq ≢ other
        → irq_handler (32 + other) t ≡ irq_handler (32 + other) s
    untouched other lt ne =
        handler_lem other t lt
        ∙ ap (λ x. pic_send_eoi other ++ run_handler x) (rw (==_ne irq other ne) refl)
        ∙ sym (handler_lem other s lt)

-- An interrupt on a line without a handler, and on any vector from 48 to 287, ends with the end of
-- interrupt alone.
pub unregistered_only_acknowledged :
    (v : ℕ) (s : Interrupts)
    → 32 ≤ v
    → v < 288
    → (v < 48 → s.irq_handlers (v - 32) ≡ none)
    → irq_handler v s ≡ pic_send_eoi (v - 32)
unfolding irq_handler run_handler
unregistered_only_acknowledged v s lo hi h = rw (line) (elim (Bool-cases (ltb (v - 32) 16)) [
  | inl p ↦ rw (p, h (omega (arith, ltb→lt (v - 32) 16 p))) (append-nil (pic_send_eoi (v - 32)))
  | inr p ↦ rw (p) (append-nil (pic_send_eoi (v - 32)))
])
  where
    line : (v + 2 ^ 32 - 32) % 2 ^ 8 ≡ v - 32
    line = omega arith
