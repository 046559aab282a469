-- ===== src/Kprintf/Format.antt =====
-- What kprintf prints, as a text: the characters of each directive, with the numbers as the user
-- library writes them, and the text that goes to the screen.
use lightstreak_os.Base.{
  ℕ, suc, ◌%◌, ◌^◌, ◌≡◌, ◌≤◌, refl, ap, sym, ◌∙◌, Bool, true, false, Option, none, some, List, [],
  ◌∷◌, ◌++◌, ◌==◌, if◌then◌else◌, Bool-cases, inl, inr, arith,
}
use lightstreak_os.Base.Int.{to_int32}
use lightstreak_os.Vga.{Vga, vga_putchar, vga_puts}
use lightstreak_os.Strings.{utoa, itoa}
use lightstreak_os.Kprintf.{null_text, directive, kprintf_from, kprintf, print_uint}
use lightstreak_os.Kprintf.Numbers.{print_uint-utoa, print_int-itoa}

-- The place of the next argument behind a directive that took one, or none.
unfoldable pub past : Bool → ℕ → ℕ
past true k = suc k
past false k = k

-- The text of the directive `%c` with the argument `arg`, and whether it takes that argument.
unfoldable pub shown : (ℕ → List ℕ) → ℕ → ℕ → List ℕ × Bool
shown str c arg =
    if c == b's'
    then (if arg == 0 then null_text else str arg, true)
    else if c == b'd'
    then (itoa (to_int32 arg) 10, true)
    else if c == b'u'
    then (utoa arg 10, true)
    else if c == b'x'
    then (utoa arg 16, true)
    else if c == b'X'
    then (utoa arg 16, true)
    else if c == b'c'
    then (arg % 2 ^ 8 ∷ [], true)
    else if c == b'p'
    then (b'0' ∷ b'x' ∷ utoa arg 16, true)
    else if c == b'%'
    then (b'%' ∷ [], false)
    else (b'%' ∷ c ∷ [], false)

-- The text of a whole format, from the argument `k` on.
unfoldable pub formatted : (ℕ → List ℕ) → (ℕ → ℕ) → List ℕ → ℕ → Option (List ℕ)
formatted str args [] k = some []
formatted str args (c ∷ []) k = if c == b'%' then none else some (c ∷ [])
formatted str args (c ∷ d ∷ fmt) k =
    let plain = formatted str args (d ∷ fmt) k in
    let (here, used) = shown str d (args k) in
    let rest = formatted str args fmt (past used k) in
    if c == b'%'
    then elim rest [ none ↦ none | some l ↦ some (here ++ l) ]
    else elim plain [ none ↦ none | some l ↦ some (c ∷ l) ]

puts-++ : (a b : List ℕ) (s : Vga) → vga_puts (a ++ b) s ≡ vga_puts b (vga_puts a s)
unfolding vga_puts
puts-++ [] b s = refl
puts-++ (c ∷ a) b s = puts-++ a b (vga_putchar c s)

-- What is printed of a text that may be missing.
unfoldable pub put_text : Option (List ℕ) → Vga → Option Vga
put_text none s = none
put_text (some l) s = some (vga_puts l s)

put_text-shown :
    (a : List ℕ) (o : Option (List ℕ)) (s : Vga)
    → put_text o (vga_puts a s) ≡ put_text (elim o [ none ↦ none | some l ↦ some (a ++ l) ]) s
unfolding put_text
put_text-shown a none s = refl
put_text-shown a (some l) s = ap some (sym (puts-++ a l s))

-- The screen and the next argument behind a directive's text.
put_shown : ℕ → Vga → List ℕ × Bool → Vga × ℕ
put_shown k s (l, used) = (vga_puts l s, past used k)

put_shown-if :
    (k : ℕ) (s : Vga) (b : Bool) {d e : Vga × ℕ} (x y : List ℕ × Bool)
    → d ≡ put_shown k s x
    → e ≡ put_shown k s y
    → (if b then d else e) ≡ put_shown k s (if b then x else y)
put_shown-if k s true x y p q = p
put_shown-if k s false x y p q = q

directive_lem :
    (str : ℕ → List ℕ) (args : ℕ → ℕ) (c k : ℕ) (s : Vga)
    → directive str args c k s ≡ put_shown k s (shown str c (args k))
unfolding directive shown put_shown past vga_puts
directive_lem str args c k s =
    put_shown-if k s (c == b's') (if args k == 0 then null_text else str (args k), true) _ refl
      (put_shown-if k s (c == b'd') (itoa (to_int32 (args k)) 10, true) _
        (ap pair (print_int-itoa (to_int32 (args k)) s))
        (put_shown-if k s (c == b'u') (utoa (args k) 10, true) _
          (base 10 s (omega arith) (omega arith))
          (put_shown-if k s (c == b'x') (utoa (args k) 16, true) _
            (base 16 s (omega arith) (omega arith))
            (put_shown-if k s (c == b'X') (utoa (args k) 16, true) _
              (base 16 s (omega arith) (omega arith))
              (put_shown-if k s (c == b'c') (args k % 2 ^ 8 ∷ [], true) _ refl
                (put_shown-if k s (c == b'p') (b'0' ∷ b'x' ∷ utoa (args k) 16, true) _
                  (base 16 (vga_puts (b'0' ∷ b'x' ∷ []) s) (omega arith) (omega arith))
                  (put_shown-if k s (c == b'%') (b'%' ∷ [], false) _ refl refl)))))))
  where
    pair : Vga → Vga × ℕ
    pair t = (t, suc k)

    base :
        (b : ℕ) (t : Vga)
        → 2 ≤ b
        → b ≤ 16
        → pair (print_uint (args k) b t) ≡ pair (vga_puts (utoa (args k) b) t)
    base b t lo hi = ap pair (print_uint-utoa (args k) b t lo hi)

kprintf_from_lem :
    (str : ℕ → List ℕ) (args : ℕ → ℕ) (fmt : List ℕ) (k : ℕ) (s : Vga)
    → kprintf_from str args fmt k s ≡ put_text (formatted str args fmt k) s
unfolding kprintf_from formatted put_text put_shown past vga_puts
kprintf_from_lem str args [] k s = refl
kprintf_from_lem str args (c ∷ []) k s = elim (Bool-cases (c == b'%')) [
  | inl p ↦ rw (p) refl
  | inr p ↦ rw (p) refl
]
kprintf_from_lem str args (c ∷ d ∷ fmt) k s = elim (Bool-cases (c == b'%')) [
  | inl p ↦
      rw (p, directive_lem str args d k s)
        (kprintf_from_lem str args fmt (put_shown k s (shown str d (args k))).1
            (put_shown k s (shown str d (args k))).0
          ∙ put_text-shown (shown str d (args k)).0
              (formatted str args fmt (past (shown str d (args k)).1 k)) s)
  | inr p ↦ rw (p) (
      kprintf_from_lem str args (d ∷ fmt) k (vga_putchar c s)
      ∙ put_text-shown (c ∷ []) (formatted str args (d ∷ fmt) k) s)
]

-- For every format, arguments and screen, `kprintf` comes to printing, by `vga_puts`, the text that
-- the format describes: each directive stands for its text, with numbers as `utoa` and `itoa` of
-- the user library write them; both are undefined for a format that ends with a lone `%`.
pub kprintf-formatted :
    (str : ℕ → List ℕ) (args : ℕ → ℕ) (fmt : List ℕ) (s : Vga)
    → kprintf str args fmt s ≡ put_text (formatted str args fmt 0) s
unfolding kprintf
kprintf-formatted str args fmt s = kprintf_from_lem str args fmt 0 s
