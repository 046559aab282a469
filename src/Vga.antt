-- ===== src/Vga.antt =====
-- kernel/drivers/vga.c: the text screen of 25 rows and 80 columns. `vga_buf` is a function of the
-- cell's index, and the hardware cursor the last position sent to the ports 0x3D4 and 0x3D5.
pub mod Scroll
pub mod Cursor
mod Tests
use lightstreak_os.Base.{
  ℕ, zero, suc, ◌+◌, ◌-◌, ◌*◌, ◌/◌, ◌%◌, ◌^◌, List, [], ◌∷◌, ltb, leb, ◌==◌, if◌then◌else◌, update,
  for_range, bit_and, bit_or,
}

abbrev pub vga_cols : ℕ
vga_cols = 80

abbrev pub vga_rows : ℕ
vga_rows = 25

pub record Vga : Type 0 where
  pub vga_buf : ℕ → ℕ
  pub vga_col : ℕ
  pub vga_row : ℕ
  pub vga_color : ℕ
  pub cursor_hi : ℕ
  pub cursor_lo : ℕ

-- `c` and `color` are bytes.
abbrev pub vga_entry : ℕ → ℕ → ℕ
vga_entry c color = bit_or c (color * 2 ^ 8)

abbrev pub vga_make_color : ℕ → ℕ → ℕ
vga_make_color fg bg = bit_or fg (bg * 2 ^ 4) % 2 ^ 8

pub vga_update_cursor : Vga → Vga
vga_update_cursor s =
    let at = (s.vga_row * vga_cols + s.vga_col) % 2 ^ 16 in
    record s { cursor_hi = at / 2 ^ 8 % 2 ^ 8; cursor_lo = bit_and at 0xFF }

-- One row moves up by one.
pub copy_row : ℕ → (ℕ → ℕ) → ℕ → ℕ
copy_row row buf =
    for_range vga_cols 0 (λ col b. update b ((row - 1) * vga_cols + col) (b (row * vga_cols + col)))
      buf

pub vga_scroll : Vga → Vga
vga_scroll s =
    let up = for_range (vga_rows - 1) 1 copy_row s.vga_buf in
    let blanked =
      for_range vga_cols 0
        (λ col b. update b ((vga_rows - 1) * vga_cols + col) (vga_entry b' ' s.vga_color)) up in
    record s { vga_buf = blanked; vga_row = vga_rows - 1 }

pub vga_set_color : ℕ → Vga → Vga
vga_set_color color s = record s { vga_color = color }

pub vga_get_default_color : ℕ
vga_get_default_color = vga_make_color 7 0

pub vga_clear : Vga → Vga
vga_clear s =
    let blanked =
      for_range (vga_rows * vga_cols) 0 (λ i b. update b i (vga_entry b' ' s.vga_color))
        s.vga_buf in
    vga_update_cursor (record s { vga_buf = blanked; vga_row = 0; vga_col = 0 })

pub vga_init : Vga → Vga
vga_init s = vga_clear (record s { vga_color = vga_make_color 7 0 })

-- `vga_row++` of a byte.
abbrev pub next_row : Vga → Vga
next_row s = record s { vga_col = 0; vga_row = (s.vga_row + 1) % 2 ^ 8 }

-- The new column, and the next row at the end of the line.
abbrev pub move_to : ℕ → Vga → Vga
move_to col s = if leb vga_cols col then next_row s else record s { vga_col = col }

abbrev pub put_cell : ℕ → ℕ → Vga → Vga
put_cell at c s = record s { vga_buf = update s.vga_buf at (vga_entry c s.vga_color) }

-- `vga_putchar` up to the test for the last row; the codes are those of `\n`, `\r`, `\t` and `\b`.
pub place_char : ℕ → Vga → Vga
place_char c s =
    if c == 10
    then next_row s
    else if c == 13
    then record s { vga_col = 0 }
    else if c == 9
    then move_to (bit_and (s.vga_col + 8) (2 ^ 32 - 2 ^ 3) % 2 ^ 8) s
    else if c == 8
    then if ltb 0 s.vga_col
      then put_cell (s.vga_row * vga_cols + (s.vga_col - 1)) b' '
          (record s { vga_col = s.vga_col - 1 })
      else s
    else move_to ((s.vga_col + 1) % 2 ^ 8) (put_cell (s.vga_row * vga_cols + s.vga_col) c s)

pub vga_putchar : ℕ → Vga → Vga
vga_putchar c s =
    let t = place_char c s in vga_update_cursor (if leb vga_rows t.vga_row then vga_scroll t else t)

unfoldable pub vga_puts : List ℕ → Vga → Vga
vga_puts [] s = s
vga_puts (c ∷ str) s = vga_puts str (vga_putchar c s)
