-- ===== src/Vga/Tests.antt =====
-- kernel/drivers/vga.c: the theorems at a concrete screen.
use lightstreak_os.Base.{ℕ, ◌+◌, ◌*◌, ◌^◌, ◌≤◌, ◌<◌, ◌≡◌, [], ◌∷◌, arith, ◌==◌, if◌then◌else◌}
use lightstreak_os.Vga.{Vga, vga_putchar, vga_puts}
use lightstreak_os.Vga.Cursor.{
  IsValid, IsGraphic, shown, putchar-IsValid, puts-IsValid, putchar_prints,
}

-- The cursor at the last place.
abbrev last_place : Vga
last_place = record {
  vga_buf = λ _. 0x0720;
  vga_col = 79;
  vga_row = 24;
  vga_color = 7;
  cursor_hi = 7;
  cursor_lo = 207;
}

last_place-IsValid : IsValid last_place
last_place-IsValid = record { column = omega arith; row = omega arith }

letter : IsGraphic b'A'
letter = record {
  byte = omega arith;
  no_newline = λ e. absurd (omega arith);
  no_return = λ e. absurd (omega arith);
  no_tab = λ e. absurd (omega arith);
  no_backspace = λ e. absurd (omega arith);
}

putchar-IsValid_example :
    let t = vga_putchar 10 last_place in
    IsValid t
    × (shown t ≡ t.vga_row * 80 + t.vga_col)
    × ((j : ℕ) → 2000 ≤ j → t.vga_buf j ≡ last_place.vga_buf j)
putchar-IsValid_example = putchar-IsValid 10 last_place last_place-IsValid

puts-IsValid_example :
    IsValid (vga_puts (b'A' ∷ 9 ∷ 10 ∷ []) last_place)
    × ((j : ℕ)
        → 2000 ≤ j
        → (vga_puts (b'A' ∷ 9 ∷ 10 ∷ []) last_place).vga_buf j ≡ last_place.vga_buf j)
puts-IsValid_example = puts-IsValid (b'A' ∷ 9 ∷ 10 ∷ []) last_place last_place-IsValid

putchar_prints_example :
    let p = last_place.vga_row * 80 + last_place.vga_col in
    let t = vga_putchar b'A' last_place in
    (p < 1999
      → (t.vga_row * 80 + t.vga_col ≡ p + 1)
        × ((j : ℕ)
            → t.vga_buf j
              ≡ (if p == j then last_place.vga_color * 2 ^ 8 + b'A' else last_place.vga_buf j)))
    × (p ≡ 1999
        → (t.vga_row * 80 + t.vga_col ≡ 1920)
          × (t.vga_buf 1919 ≡ last_place.vga_color * 2 ^ 8 + b'A')
          × ((j : ℕ) → j < 1919 → t.vga_buf j ≡ last_place.vga_buf (j + 80)))
putchar_prints_example = putchar_prints b'A' last_place last_place-IsValid letter
