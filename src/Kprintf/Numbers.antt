-- ===== src/Kprintf/Numbers.antt =====
-- print_uint and print_int print what utoa and itoa of the user library write.
use lightstreak_os.Base.{
  ℕ, zero, suc, ◌+◌, ◌/◌, ◌%◌, ◌≤◌, ◌<◌, ◌≡◌, refl, ap, ap₂, ◌∙◌, true, List, [], ◌∷◌, arith, ◌==◌,
  ==_iff, ==_self, ==_ne, Bool-cases, inl, inr, get_or, update,
}
use lightstreak_os.Base.Bits.{holds_below, holds_below_lem}
use native.Mathlib.Nat.{mod-lt}
use lightstreak_os.Base.Int.{ℤ, pos, negsuc}
use lightstreak_os.Vga.{Vga, vga_putchar, vga_puts}
use lightstreak_os.Strings.{digit, to_digits, utoa, itoa}
use lightstreak_os.Kprintf.{digits, fill_digits, print_back, print_uint, print_int}

-- The first `i` places of a buffer, the last one in front.
listed : ℕ → (ℕ → ℕ) → List ℕ
listed zero buf = []
listed (suc i) buf = buf i ∷ listed i buf

listed_below : (i k c : ℕ) (buf : ℕ → ℕ) → i ≤ k → listed i (update buf k c) ≡ listed i buf
unfolding listed
listed_below zero k c buf h = refl
listed_below (suc i) k c buf h =
    ap₂ ◌∷◌ (rw (==_ne k i (λ e. absurd (omega arith))) refl) (listed_below i k c buf (omega arith))

print_back_lem : (i : ℕ) (buf : ℕ → ℕ) (s : Vga) → print_back i buf s ≡ vga_puts (listed i buf) s
unfolding print_back listed vga_puts
print_back_lem zero buf s = refl
print_back_lem (suc i) buf s = print_back_lem i buf (vga_putchar (buf i) s)

digits_agree : holds_below (λ d. get_or digits d 0 == digit d) 16 ≡ true
unfolding holds_below digits digit
digits_agree = refl

digit_table : (d : ℕ) → d < 16 → get_or digits d 0 ≡ digit d
digit_table d h = (==_iff _ _).0 (holds_below_lem _ 16 d h digits_agree)

-- The digit that a round writes stands in front of the earlier ones.
listed_push :
    (base n i : ℕ) (buf : ℕ → ℕ)
    → base ≤ 16
    → 0 < base
    → listed (suc i) (update buf i (get_or digits (n % base) 0)) ≡ digit (n % base) ∷ listed i buf
unfolding listed
listed_push base n i buf hb hp =
    ap₂ ◌∷◌ (rw (==_self i) (digit_table (n % base) (omega (arith, mod-lt n hp))))
      (listed_below i i _ buf (omega arith))

fill_digits_lem :
    (fuel base n i : ℕ) (buf : ℕ → ℕ)
    → base ≤ 16
    → 0 < base
    → let (out, k) = fill_digits fuel base n buf i in
      listed k out ≡ to_digits fuel base n (listed i buf)
unfolding fill_digits to_digits
fill_digits_lem zero base n i buf hb hp = refl
fill_digits_lem (suc fuel) base n i buf hb hp = elim (Bool-cases (n == 0)) [
  | inl p ↦ rw (p) refl
  | inr p ↦ rw (p) (
      fill_digits_lem fuel base (n / base) (suc i) (update buf i (get_or digits (n % base) 0)) hb hp
      ∙ ap (to_digits fuel base (n / base)) (listed_push base n i buf hb hp))
]

-- In a base from 2 to 16, `print_uint` prints what `utoa` writes.
pub print_uint-utoa :
    (n base : ℕ) (s : Vga) → 2 ≤ base → base ≤ 16 → print_uint n base s ≡ vga_puts (utoa n base) s
unfolding print_uint utoa vga_puts listed
print_uint-utoa n base s lo hi = elim (Bool-cases (n == 0)) [
  | inl p ↦ rw (p) refl
  | inr p ↦ rw (p) (
      print_back_lem _ _ s
      ∙ ap (λ l. vga_puts l s) (fill_digits_lem 32 base n 0 (λ _. 0) hi (omega arith)))
]

pub print_int-itoa : (n : ℤ) (s : Vga) → print_int n s ≡ vga_puts (itoa n 10) s
unfolding print_int itoa vga_puts
print_int-itoa (pos n) s = print_uint-utoa n 10 s (omega arith) (omega arith)
print_int-itoa (negsuc n) s =
    print_uint-utoa (n + 1) 10 (vga_putchar b'-' s) (omega arith) (omega arith)
