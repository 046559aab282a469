-- ===== src/Vga/Cursor.antt =====
-- vga_putchar: the cursor stays on the screen, and the characters appear at it.
use lightstreak_os.Base.{
  ℕ, ◌+◌, ◌-◌, ◌*◌, ◌%◌, ◌^◌, ◌≤◌, ◌<◌, ◌≡◌, ◌≢◌, refl, ap, ◌∙◌, true, false, arith, ltb, leb, ◌==◌,
  if◌then◌else◌, update, ==_ne, Bool-cases, inl, inr, List, [], ◌∷◌, bit_and,
}
use lightstreak_os.Base.Bits.{bit_and_page, bit_and_mask, bit_or_low}
use lightstreak_os.Vga.{
  Vga, vga_entry, move_to, put_cell, place_char, vga_scroll, vga_putchar, vga_puts,
  vga_update_cursor,
}
use lightstreak_os.Vga.Scroll.{scroll_lem}

-- The cursor is on the screen.
pub record IsValid (s : Vga) : Type 0 where
  pub column : s.vga_col < 80
  pub row : s.vga_row < 25

-- Before the test for the last row, the cursor is on the screen or one row below it, and no cell
-- behind the screen is written.
record IsPlaced (s t : Vga) : Type 0 where
  pub column : t.vga_col < 80
  pub row : t.vga_row ≤ 25
  pub inside : (j : ℕ) → 2000 ≤ j → t.vga_buf j ≡ s.vga_buf j

tab_lem : (col : ℕ) → col < 80 → bit_and (col + 8) (2 ^ 32 - 2 ^ 3) % 2 ^ 8 ≡ col + 8 - col % 8
tab_lem col h = omega (arith, bit_and_page 3 32 (col + 8) (omega arith) (omega arith))

move_lem :
    (col : ℕ) (s t : Vga)
    → col ≤ 255
    → t.vga_row < 25
    → ((j : ℕ) → 2000 ≤ j → t.vga_buf j ≡ s.vga_buf j)
    → IsPlaced s (move_to col t)
move_lem col s t h r same = elim (Bool-cases (leb 80 col)) [
  | inl p ↦ rw (p) (record { column = omega arith; row = omega arith; inside = same })
  | inr p ↦ rw (p) (record { column = ground arith; row = omega arith; inside = same })
]

unchanged :
    (s : Vga) (at c : ℕ) → at < 2000 → (j : ℕ) → 2000 ≤ j → update s.vga_buf at c j ≡ s.vga_buf j
unchanged s at c h j l = rw (==_ne at j (λ e. absurd (omega arith))) refl

place_lem : (c : ℕ) (s : Vga) → IsValid s → IsPlaced s (place_char c s)
unfolding place_char
place_lem c s v = elim (Bool-cases (c == 10)) [
  | inl p ↦
      rw (p) (record { column = omega arith; row = omega (arith, v.row); inside = λ j l. refl })
  | inr n10 ↦ elim (Bool-cases (c == 13)) [
    | inl p ↦
        rw (n10, p)
          (record { column = omega arith; row = omega (arith, v.row); inside = λ j l. refl })
    | inr n13 ↦ elim (Bool-cases (c == 9)) [
      | inl p ↦ rw (n10, n13, p) (move_lem _ s s (omega arith) v.row (λ j l. refl))
      | inr n9 ↦ elim (Bool-cases (c == 8)) [
        | inl p ↦ rw (n10, n13, n9, p) (back_lem s v)
        | inr n8 ↦
            rw (n10, n13, n9, n8)
              (move_lem _ s (put_cell (s.vga_row * 80 + s.vga_col) c s) (omega arith) v.row
                (unchanged s (s.vga_row * 80 + s.vga_col) _ (omega (arith, v.row, v.column))))
      ]
    ]
  ]
]
  where
    back_lem :
        (s : Vga)
        → IsValid s
        → IsPlaced s (
            if ltb 0 s.vga_col
            then put_cell
                (s.vga_row * 80 + (s.vga_col - 1))
                b' '
                (record s { vga_col = s.vga_col - 1 })
            else s)
    back_lem s v = elim (Bool-cases (ltb 0 s.vga_col)) [
      | inl q ↦ rw (q) (record {
        column = omega (arith, v.column);
        row = omega (arith, v.row);
        inside = unchanged s (s.vga_row * 80 + (s.vga_col - 1)) _ (omega (arith, v.row, v.column));
      })
      | inr q ↦
          rw (q) (record { column = v.column; row = omega (arith, v.row); inside = λ j l. refl })
    ]

-- The position that the hardware shows.
pub shown : Vga → ℕ
shown s = s.cursor_hi * 2 ^ 8 + s.cursor_lo

cursor_lem : (s : Vga) → IsValid s → shown (vga_update_cursor s) ≡ s.vga_row * 80 + s.vga_col
unfolding vga_update_cursor shown
cursor_lem s v =
    omega (arith, bit_and_mask 8 ((s.vga_row * 80 + s.vga_col) % 2 ^ 16), v.row, v.column)

finish :
    (s t : Vga)
    → IsValid t
    → ((j : ℕ) → 2000 ≤ j → t.vga_buf j ≡ s.vga_buf j)
    → let u = vga_update_cursor t in
      IsValid u
      × (shown u ≡ u.vga_row * 80 + u.vga_col)
      × ((j : ℕ) → 2000 ≤ j → u.vga_buf j ≡ s.vga_buf j)
unfolding vga_update_cursor
finish s t v same = (record { column = v.column; row = v.row }, cursor_lem t v, same)

-- On a screen with its cursor in range, `vga_putchar` of any character leaves the cursor in range,
-- the hardware cursor at it, and every word of memory behind the 2000 cells as it is.
pub putchar-IsValid :
    (c : ℕ) (s : Vga)
    → IsValid s
    → let t = vga_putchar c s in
      IsValid t
      × (shown t ≡ t.vga_row * 80 + t.vga_col)
      × ((j : ℕ) → 2000 ≤ j → t.vga_buf j ≡ s.vga_buf j)
unfolding vga_putchar
putchar-IsValid c s v = elim (Bool-cases (leb 25 (place_char c s).vga_row)) [
  | inl p ↦ rw (p) (finish s (vga_scroll (place_char c s)) scrolled_valid scrolled_same)
  | inr p ↦ rw (p) (
      finish s (place_char c s) (record { column = placed.column; row = ground (arith, p) })
        placed.inside)
]
  where
    placed : IsPlaced s (place_char c s)
    placed = place_lem c s v

    scrolled_valid : IsValid (vga_scroll (place_char c s))
    scrolled_valid =
        let (_, _, _, row, col, _) = scroll_lem (place_char c s) in
        record { column = omega (arith, col, placed.column); row = omega (arith, row) }

    scrolled_same : (j : ℕ) → 2000 ≤ j → (vga_scroll (place_char c s)).vga_buf j ≡ s.vga_buf j
    scrolled_same j l =
        let (_, _, behind, _, _, _) = scroll_lem (place_char c s) in behind j l ∙ placed.inside j l

-- Any string that is printed on a screen with its cursor in range leaves the cursor in range and
-- every word of memory behind the 2000 cells as it is.
pub puts-IsValid :
    (str : List ℕ) (s : Vga)
    → IsValid s
    → IsValid (vga_puts str s) × ((j : ℕ) → 2000 ≤ j → (vga_puts str s).vga_buf j ≡ s.vga_buf j)
unfolding vga_puts
puts-IsValid [] s v = (v, λ j l. refl)
puts-IsValid (c ∷ str) s v =
    let (v', _, same) = putchar-IsValid c s v in
    let (w, rest) = puts-IsValid str (vga_putchar c s) v' in (w, λ j l. rest j l ∙ same j l)

-- A character that is not one of the four control characters.
pub record IsGraphic (c : ℕ) : Type 0 where
  pub byte : c < 256
  pub no_newline : c ≢ 10
  pub no_return : c ≢ 13
  pub no_tab : c ≢ 9
  pub no_backspace : c ≢ 8

graphic_lem :
    (c : ℕ) (s : Vga)
    → IsGraphic c
    → place_char c s ≡ move_to ((s.vga_col + 1) % 2 ^ 8) (put_cell (s.vga_row * 80 + s.vga_col) c s)
unfolding place_char
graphic_lem c s g =
    rw
      (
        ==_ne c 10 g.no_newline,
        ==_ne c 13 g.no_return,
        ==_ne c 9 g.no_tab,
        ==_ne c 8 g.no_backspace,
      )
      refl

entry_lem : (c : ℕ) (s : Vga) → IsGraphic c → vga_entry c s.vga_color ≡ s.vga_color * 2 ^ 8 + c
entry_lem c s g = bit_or_low 8 s.vga_color c g.byte

-- The state before the test for the last row.
abbrev stored : ℕ → Vga → Vga
stored c s = move_to ((s.vga_col + 1) % 2 ^ 8) (put_cell (s.vga_row * 80 + s.vga_col) c s)

stored_inside :
    (c : ℕ) (s : Vga)
    → IsValid s
    → s.vga_row * 80 + s.vga_col < 1999
    → (leb 25 (stored c s).vga_row ≡ false)
      × ((stored c s).vga_row * 80 + (stored c s).vga_col ≡ s.vga_row * 80 + s.vga_col + 1)
      × ((stored c s).vga_buf
          ≡ update s.vga_buf (s.vga_row * 80 + s.vga_col) (vga_entry c s.vga_color))
stored_inside c s v h = elim (Bool-cases (leb 80 ((s.vga_col + 1) % 2 ^ 8))) [
  | inl p ↦ rw (p) (
    let r = v.row in let k = v.column in ground arith,
    let r = v.row in let k = v.column in ground arith,
    refl,
  )
  | inr p ↦ rw (p) (
    let r = v.row in let k = v.column in ground arith,
    let r = v.row in let k = v.column in ground arith,
    refl,
  )
]

stored_last :
    (c : ℕ) (s : Vga)
    → IsValid s
    → s.vga_row * 80 + s.vga_col ≡ 1999
    → (leb 25 (stored c s).vga_row ≡ true)
      × ((stored c s).vga_col ≡ 0)
      × ((stored c s).vga_buf
          ≡ update s.vga_buf (s.vga_row * 80 + s.vga_col) (vga_entry c s.vga_color))
stored_last c s v h = rw (full) (let r = v.row in let k = v.column in ground arith, refl, refl)
  where
    full : leb 80 ((s.vga_col + 1) % 2 ^ 8) ≡ true
    full = let r = v.row in let k = v.column in ground arith

-- On a screen with its cursor in range, a byte that is not one of the four control characters is
-- stored at the cursor with the current colour, every other cell stays, and the cursor moves on by
-- one place; at the last place the screen scrolls by one row, the character stands at the end of
-- the row before the last one, and the cursor at the start of the last row.
pub putchar_prints :
    (c : ℕ) (s : Vga)
    → IsValid s
    → IsGraphic c
    → let p = s.vga_row * 80 + s.vga_col in
      let t = vga_putchar c s in
      (p < 1999
        → (t.vga_row * 80 + t.vga_col ≡ p + 1)
          × ((j : ℕ) → t.vga_buf j ≡ (if p == j then s.vga_color * 2 ^ 8 + c else s.vga_buf j)))
      × (p ≡ 1999
          → (t.vga_row * 80 + t.vga_col ≡ 1920)
            × (t.vga_buf 1919 ≡ s.vga_color * 2 ^ 8 + c)
            × ((j : ℕ) → j < 1919 → t.vga_buf j ≡ s.vga_buf (j + 80)))
unfolding vga_putchar vga_update_cursor
putchar_prints c s v g = rw (graphic_lem c s g) (
  (λ h.
      let (a, b, d) = stored_inside c s v h in
      rw (a) (b, λ j. ap (λ f. f j) d ∙ rw (entry_lem c s g) refl)),
  λ h.
      let (a, b, d) = stored_last c s v h in
      let (up, _, _, row, col, _) = scroll_lem (stored c s) in
      rw (a) (
        omega (arith, row, col, b),
        up 1919 (omega arith) ∙ ap (λ f. f 1999) d ∙ rw (h) (entry_lem c s g),
        λ j l.
            up j (omega arith)
            ∙ ap (λ f. f (j + 80)) d
            ∙ rw (h, ==_ne 1999 (j + 80) (λ e. absurd (omega arith))) refl,
      ),
)
