-- ===== src/Kprintf.antt =====
-- kernel/kernel.c: kprintf and the printing of numbers, on the text screen. The variable arguments
-- are the words that stand on the stack, a function of their index; `str p` is the string at the
-- address `p`. `none` stands for a format that ends with a lone `%`: kprintf then reads on behind
-- the end of the string.
pub mod Numbers
pub mod Format
mod Tests
use Prim.Native.String.{String}
use lightstreak_os.Base.{
  ℕ, zero, suc, ◌+◌, ◌-◌, ◌/◌, ◌%◌, ◌^◌, Option, none, some, List, [], ◌∷◌, ◌==◌, if◌then◌else◌,
  update, get_or,
}
use lightstreak_os.Base.Int.{ℤ, pos, negsuc, to_int32}
use lightstreak_os.Base.Text.{text}
use lightstreak_os.Vga.{Vga, vga_putchar, vga_puts}

pub digits : List ℕ
digits = text "0123456789abcdef"

-- The loop that fills `buf` from place `i` on, and the place behind the last digit; 32 rounds are
-- enough for a 32-bit number in a base from 2 on.
pub fill_digits : ℕ → ℕ → ℕ → (ℕ → ℕ) → ℕ → (ℕ → ℕ) × ℕ
fill_digits zero base n buf i = (buf, i)
fill_digits (suc fuel) base n buf i =
    let rest =
      fill_digits fuel base (n / base) (update buf i (get_or digits (n % base) 0)) (suc i) in
    if n == 0 then (buf, i) else rest

-- `while (i-- > 0) vga_putchar(buf[i])`
pub print_back : ℕ → (ℕ → ℕ) → Vga → Vga
print_back zero buf s = s
print_back (suc i) buf s = print_back i buf (vga_putchar (buf i) s)

pub print_uint : ℕ → ℕ → Vga → Vga
print_uint n base s =
    let (buf, i) = fill_digits 32 base n (λ _. 0) 0 in
    if n == 0 then vga_putchar b'0' s else print_back i buf s

-- `(uint32_t)(-(n + 1)) + 1` for the number -(n + 1)
pub print_int : ℤ → Vga → Vga
print_int (pos n) s = print_uint n 10 s
print_int (negsuc n) s = print_uint (n + 1) 10 (vga_putchar b'-' s)

abbrev pub null_text : List ℕ
null_text = text "(null)"

module _ (str : ℕ → List ℕ) (args : ℕ → ℕ) where
  -- One directive `%c` with the argument `args k`: the screen and the place of the next argument.
  pub directive : ℕ → ℕ → Vga → Vga × ℕ
  directive c k s =
      if c == b's'
      then (vga_puts (if args k == 0 then null_text else str (args k)) s, suc k)
      else if c == b'd'
      then (print_int (to_int32 (args k)) s, suc k)
      else if c == b'u'
      then (print_uint (args k) 10 s, suc k)
      else if c == b'x'
      then (print_uint (args k) 16 s, suc k)
      else if c == b'X'
      then (print_uint (args k) 16 s, suc k)
      else if c == b'c'
      then (vga_putchar (args k % 2 ^ 8) s, suc k)
      else if c == b'p'
      then (print_uint (args k) 16 (vga_puts (text "0x") s), suc k)
      else if c == b'%'
      then (vga_putchar b'%' s, k)
      else (vga_putchar c (vga_putchar b'%' s), k)

  pub kprintf_from : List ℕ → ℕ → Vga → Option Vga
  kprintf_from [] k s = some s
  kprintf_from (c ∷ []) k s = if c == b'%' then none else some (vga_putchar c s)
  kprintf_from (c ∷ d ∷ fmt) k s =
      let plain = kprintf_from (d ∷ fmt) k (vga_putchar c s) in
      let (t, k') = directive d k s in
      let rest = kprintf_from fmt k' t in if c == b'%' then rest else plain

  pub kprintf : List ℕ → Vga → Option Vga
  kprintf fmt s = kprintf_from fmt 0 s
