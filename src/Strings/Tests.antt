-- ===== src/Strings/Tests.antt =====
-- userspace/lib/string.c: the theorems at concrete strings and numbers.
use lightstreak_os.Base.{ℕ, ◌+◌, ◌≤◌, ◌≡◌, ◌↔◌, List, [], ◌∷◌, arith, length}
use lightstreak_os.Base.Int.{pos, negsuc}
use lightstreak_os.Strings.{strcmp, utoa, itoa}
use lightstreak_os.Strings.Compare.{nil, cons, strcmp_iff}
use lightstreak_os.Strings.Decimal.{read_digits, utoa_reads, itoa_reads}

strcmp_iff_test :
    (strcmp (b'l' ∷ b's' ∷ []) (b'p' ∷ b's' ∷ []) ≡ pos 0)
    ↔ (◌≡◌ {A = List ℕ} (b'l' ∷ b's' ∷ []) (b'p' ∷ b's' ∷ []))
strcmp_iff_test =
    strcmp_iff (b'l' ∷ b's' ∷ []) (b'p' ∷ b's' ∷ []) (cons (omega arith) (cons (omega arith) nil))
      (cons (omega arith) (cons (omega arith) nil))

utoa_reads_example : (read_digits 16 0 (utoa 0xBEEF 16) ≡ 0xBEEF) × (length (utoa 0xBEEF 16) ≤ 32)
utoa_reads_example = utoa_reads 0xBEEF 16 (omega arith) (omega arith) (omega arith)

itoa_reads_example :
    ((itoa (pos 42) 10 ≡ utoa 42 10) × (read_digits 10 0 (utoa 42 10) ≡ 42))
    × ((itoa (negsuc 42) 10 ≡ b'-' ∷ utoa (42 + 1) 10)
        × (read_digits 10 0 (utoa (42 + 1) 10) ≡ 42 + 1))
itoa_reads_example = itoa_reads 42 (omega arith)
