-- ===== src/Kprintf/Tests.antt =====
-- Concrete formats of kprintf.
use lightstreak_os.Base.{ℕ, ◌≡◌, refl, some, List, [], arith, ◌==◌, if◌then◌else◌}
use lightstreak_os.Base.Text.{text}
use lightstreak_os.Base.Int.{to_int32}
use lightstreak_os.Vga.{Vga, vga_puts, vga_init}
use lightstreak_os.Strings.{digit, to_digits, utoa, itoa}
use lightstreak_os.Kprintf.{print_uint, kprintf}
use lightstreak_os.Kprintf.Numbers.{print_uint-utoa}
use lightstreak_os.Kprintf.Format.{past, shown, formatted, put_text, kprintf-formatted}

abbrev screen : Vga
screen = vga_init (record {
  vga_buf = λ i. 0;
  vga_col = 0;
  vga_row = 0;
  vga_color = 0;
  cursor_hi = 0;
  cursor_lo = 0;
})

abbrev pit_format : List ℕ
pit_format = text "[PIT] %u Hz, %s at %p, %d%%"

abbrev pit_args : ℕ → ℕ
pit_args k = if k == 0 then 100 else if k == 1 then 0 else if k == 2 then 48879 else 4294967291

pit_text :
    formatted (λ p. []) pit_args pit_format 0 ≡ some (text "[PIT] 100 Hz, (null) at 0xbeef, -5%")
unfolding formatted shown past utoa itoa to_digits digit to_int32
pit_text = refl

print_uint-utoa_test : print_uint 4294967295 16 screen ≡ vga_puts (utoa 4294967295 16) screen
print_uint-utoa_test = print_uint-utoa 4294967295 16 screen (omega arith) (omega arith)

kprintf-formatted_example :
    kprintf (λ p. []) pit_args pit_format screen
    ≡ put_text (formatted (λ p. []) pit_args pit_format 0) screen
kprintf-formatted_example = kprintf-formatted (λ p. []) pit_args pit_format screen
