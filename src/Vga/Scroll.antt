-- ===== src/Vga/Scroll.antt =====
-- What vga_scroll does to the screen.
use lightstreak_os.Base.{
  ℕ, zero, suc, ◌+◌, ◌-◌, ◌*◌, ◌≤◌, ◌<◌, ◌≡◌, refl, ap, ap₂, ◌∙◌, subst, ◌&&◌, arith, ltb, leb,
  if◌then◌else◌, update, for_range, ℕ_discrete,
}
use lightstreak_os.Vga.{Vga, vga_entry, copy_row, vga_scroll}

-- Cells are copied from `at + 80` to `at`, one after the other.
copied :
    (n at i j : ℕ) (f : ℕ → ℕ)
    → i + n ≤ 80
    → for_range n i (λ col b. update b (at + col) (b (at + 80 + col))) f j
      ≡ (if leb (at + i) j && ltb j (at + i + n) then f (j + 80) else f j)
unfolding for_range
copied zero at i j f l = ground arith
copied (suc n) at i j f l =
    copied n at (suc i) j (update f (at + i) (f (at + 80 + i))) (omega arith)
    ∙ elim (ℕ_discrete (at + i) j) [
      | yes e ↦
          subst
            (λ x.
              (if leb (at + suc i) x && ltb x (at + suc i + n)
                then update f (at + i) (f (at + 80 + i)) (x + 80)
                else update f (at + i) (f (at + 80 + i)) x)
              ≡ (if leb (at + i) x && ltb x (at + i + suc n) then f (x + 80) else f x))
            e (ground (arith, ap f (eighty at i)))
      | no ne ↦ ground arith
    ]
  where
    eighty : (a b : ℕ) → a + 80 + b ≡ a + b + 80
    eighty a b = omega arith

copy_row_lem :
    (row j : ℕ) (f : ℕ → ℕ)
    → 1 ≤ row
    → copy_row row f j ≡ (if leb ((row - 1) * 80) j && ltb j (row * 80) then f (j + 80) else f j)
unfolding copy_row
copy_row_lem zero j f h = absurd (omega arith)
copy_row_lem (suc row) j f h =
    ap₂ (λ to from. for_range 80 0 (λ col b. update b (to + col) (b (from + col))) f j) to_lem
      from_lem
    ∙ copied 80 (row * 80) 0 j f (omega arith)
    ∙ ground arith
  where
    to_lem : (suc row - 1) * 80 ≡ row * 80
    to_lem = omega arith

    from_lem : suc row * 80 ≡ row * 80 + 80
    from_lem = omega arith

-- Rows from `i` on, `n` of them, each one row up.
rows_lem :
    (n i j : ℕ) (f : ℕ → ℕ)
    → for_range n (suc i) copy_row f j
      ≡ (if leb (i * 80) j && ltb j ((i + n) * 80) then f (j + 80) else f j)
unfolding for_range
rows_lem zero i j f = ground arith
rows_lem (suc n) i j f =
    rows_lem n (suc i) j (copy_row (suc i) f)
    ∙ ground (
      arith,
      copy_row_lem (suc i) (j + 80) f (omega arith),
      copy_row_lem (suc i) j f (omega arith),
    )

blank_lem :
    (n i j c : ℕ) (f : ℕ → ℕ)
    → for_range n i (λ col b. update b (24 * 80 + col) c) f j
      ≡ (if leb (24 * 80 + i) j && ltb j (24 * 80 + i + n) then c else f j)
unfolding for_range
blank_lem zero i j c f = ground arith
blank_lem (suc n) i j c f = blank_lem n (suc i) j c (update f (24 * 80 + i) c) ∙ ground arith

-- Scrolling moves every row but the first up by one, blanks the last row in the current colour,
-- touches no cell behind the 2000 of the screen, and goes to the last row.
pub scroll_lem :
    (s : Vga)
    → let t = vga_scroll s in
      ((j : ℕ) → j < 1920 → t.vga_buf j ≡ s.vga_buf (j + 80))
      × ((j : ℕ) → 1920 ≤ j → j < 2000 → t.vga_buf j ≡ vga_entry b' ' s.vga_color)
      × ((j : ℕ) → 2000 ≤ j → t.vga_buf j ≡ s.vga_buf j)
      × (t.vga_row ≡ 24)
      × (t.vga_col ≡ s.vga_col)
      × (t.vga_color ≡ s.vga_color)
unfolding vga_scroll
scroll_lem s = (
  λ j h. at j ∙ ground (arith, up j),
  λ j l h. at j ∙ ground arith,
  λ j l. at j ∙ ground (arith, up j),
  refl,
  refl,
  refl,
)
  where
    up :
        (j : ℕ)
        → for_range 24 1 copy_row s.vga_buf j
          ≡ (if leb (0 * 80) j && ltb j ((0 + 24) * 80) then s.vga_buf (j + 80) else s.vga_buf j)
    up j = rows_lem 24 0 j s.vga_buf

    at :
        (j : ℕ)
        → for_range 80 0
            (λ col b. update b (24 * 80 + col) (vga_entry b' ' s.vga_color))
            (for_range 24 1 copy_row s.vga_buf)
            j
          ≡ (if leb (24 * 80 + 0) j && ltb j (24 * 80 + 0 + 80)
              then vga_entry b' ' s.vga_color
              else for_range 24 1 copy_row s.vga_buf j)
    at j = blank_lem 80 0 j (vga_entry b' ' s.vga_color) (for_range 24 1 copy_row s.vga_buf)
