-- ===== src/Keyboard.antt =====
-- kernel/drivers/keyboard.c: scan codes become characters in a ring buffer of 256 places. Port 0x60
-- is an argument: the scan code that the interrupt handler reads.
pub mod Queue
pub mod Typing
mod Tests
use lightstreak_os.Base.{
  ℕ, zero, suc, ◌+◌, ◌%◌, Bool, true, false, ◌||◌, not, Option, none, some, List, [], ◌∷◌, leb,
  ◌==◌, if◌then◌else◌, get_or, update, add32, bit_and,
}

abbrev pub kbd_buf_size : ℕ
kbd_buf_size = 256

-- The places behind the last one that is written out hold 0, up to 128.
pub scancode_to_ascii : List ℕ
scancode_to_ascii =
    0 ∷ 27 ∷ 49 ∷ 50 ∷ 51 ∷ 52 ∷ 53 ∷ 54 ∷ 55 ∷ 56 ∷ 57 ∷ 48 ∷ 45 ∷ 61 ∷ 8 ∷ 9 ∷ 113 ∷ 119 ∷ 101
    ∷ 114 ∷ 116 ∷ 121 ∷ 117 ∷ 105 ∷ 111 ∷ 112 ∷ 91 ∷ 93 ∷ 10 ∷ 0 ∷ 97 ∷ 115 ∷ 100 ∷ 102 ∷ 103 ∷ 104
    ∷ 106 ∷ 107 ∷ 108 ∷ 59 ∷ 39 ∷ 96 ∷ 0 ∷ 92 ∷ 122 ∷ 120 ∷ 99 ∷ 118 ∷ 98 ∷ 110 ∷ 109 ∷ 44 ∷ 46 ∷ 47
    ∷ 0 ∷ 42 ∷ 0 ∷ 32 ∷ []

pub scancode_to_ascii_shift : List ℕ
scancode_to_ascii_shift =
    0 ∷ 27 ∷ 33 ∷ 64 ∷ 35 ∷ 36 ∷ 37 ∷ 94 ∷ 38 ∷ 42 ∷ 40 ∷ 41 ∷ 95 ∷ 43 ∷ 8 ∷ 9 ∷ 81 ∷ 87 ∷ 69 ∷ 82
    ∷ 84 ∷ 89 ∷ 85 ∷ 73 ∷ 79 ∷ 80 ∷ 123 ∷ 125 ∷ 10 ∷ 0 ∷ 65 ∷ 83 ∷ 68 ∷ 70 ∷ 71 ∷ 72 ∷ 74 ∷ 75 ∷ 76
    ∷ 58 ∷ 34 ∷ 126 ∷ 0 ∷ 124 ∷ 90 ∷ 88 ∷ 67 ∷ 86 ∷ 66 ∷ 78 ∷ 77 ∷ 60 ∷ 62 ∷ 63 ∷ 0 ∷ 42 ∷ 0 ∷ 32
    ∷ []

pub record Keyboard : Type 0 where
  pub kbd_buffer : ℕ → ℕ
  pub kbd_head : ℕ
  pub kbd_tail : ℕ
  pub shift_held : ℕ

-- The ring buffer takes a character, or drops it if it is full.
pub push : ℕ → Keyboard → Keyboard
push c s =
    let next = add32 s.kbd_head 1 % kbd_buf_size in
    if next == s.kbd_tail
    then s
    else record s { kbd_buffer = update s.kbd_buffer s.kbd_head c; kbd_head = next }

pub to_ascii : ℕ → ℕ → ℕ
to_ascii shift scancode =
    if not (shift == 0)
    then get_or scancode_to_ascii_shift scancode 0
    else get_or scancode_to_ascii scancode 0

pub keyboard_irq_handler : ℕ → Keyboard → Keyboard
keyboard_irq_handler scancode s =
    let c = to_ascii s.shift_held scancode in
    if scancode == 0x2A || scancode == 0x36
    then record s { shift_held = 1 }
    else if scancode == 0xAA || scancode == 0xB6
    then record s { shift_held = 0 }
    else if not (bit_and scancode 0x80 == 0)
    then s
    else if c == 0
    then s
    else push c s

pub keyboard_init : Keyboard → Keyboard
keyboard_init s = record s { kbd_head = 0; kbd_tail = 0; shift_held = 0 }

pub keyboard_has_data : Keyboard → Bool
keyboard_has_data s = not (s.kbd_tail == s.kbd_head)

-- The wait for a character: each `hlt` ends with an interrupt, which brings the next of the scan
-- codes still to come. `none` means that none is left, and the kernel waits on.
unfoldable pub keyboard_getchar : List ℕ → Keyboard → Option (ℕ × Keyboard × List ℕ)
keyboard_getchar [] s =
    if s.kbd_tail == s.kbd_head
    then none
    else some
        (s.kbd_buffer s.kbd_tail, record s { kbd_tail = add32 s.kbd_tail 1 % kbd_buf_size }, [])
keyboard_getchar (code ∷ codes) s =
    let rest = keyboard_getchar codes (keyboard_irq_handler code s) in
    if s.kbd_tail == s.kbd_head
    then rest
    else some (
      s.kbd_buffer s.kbd_tail,
      record s { kbd_tail = add32 s.kbd_tail 1 % kbd_buf_size },
      code ∷ codes,
    )
