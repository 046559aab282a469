-- ===== src/Keyboard/Tests.antt =====
-- kernel/drivers/keyboard.c: a key press at the end of the buffer, and the theorems there.
use lightstreak_os.Base.{◌≡◌, refl, [], ◌∷◌, arith, ◌==◌, if◌then◌else◌}
use lightstreak_os.Keyboard.{
  Keyboard, push, to_ascii, scancode_to_ascii_shift, keyboard_irq_handler, keyboard_getchar,
}
use lightstreak_os.Keyboard.Queue.{IsValid, contents}
use lightstreak_os.Keyboard.Typing.{
  irq_handler_refines, getchar_refines, view, press, decode, await, outcome,
}

-- `x` waits in the last place.
abbrev at_end : Keyboard
at_end = record {
  kbd_buffer = λ i. if i == 255 then b'x' else 0;
  kbd_head = 0;
  kbd_tail = 255;
  shift_held = 1;
}

at_end-IsValid : IsValid at_end
at_end-IsValid = omega arith

-- Scan code 0x1E is the key `a`; with shift held it types `A`.
types : contents (keyboard_irq_handler 0x1E at_end) ≡ b'x' ∷ b'A' ∷ []
unfolding contents keyboard_irq_handler push to_ascii scancode_to_ascii_shift
types = refl

irq_handler_refines_test :
    IsValid (keyboard_irq_handler 0x1E at_end)
    × (view (keyboard_irq_handler 0x1E at_end) ≡ press (view at_end) (decode 1 0x1E))
irq_handler_refines_test = irq_handler_refines 0x1E at_end (omega arith) at_end-IsValid

getchar_refines_example :
    outcome (keyboard_getchar (0x1E ∷ 0x2A ∷ []) at_end) ≡ await (0x1E ∷ 0x2A ∷ []) (view at_end)
getchar_refines_example = getchar_refines (0x1E ∷ 0x2A ∷ []) at_end at_end-IsValid (omega arith)
