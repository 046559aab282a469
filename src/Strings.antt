-- ===== src/Strings.antt =====
-- userspace/lib/string.c. A string is the list of its characters in front of the NUL, and none of
-- them is 0; memory is a function of the address.
pub mod Compare
pub mod Decimal
mod Tests
use lightstreak_os.Base.{
  ℕ, zero, suc, ◌+◌, ◌-◌, ◌/◌, ◌%◌, ◌^◌, Bool, true, false, List, [], ◌∷◌, ltb, leb, ◌==◌,
  if◌then◌else◌, update, for_range, length,
}
use lightstreak_os.Base.Int.{ℤ, pos, negsuc, to_uint32}

pub strlen : List ℕ → ℕ
strlen s = length s

-- `(int)((unsigned char)a - (unsigned char)b)`
pub char_diff : ℕ → ℕ → ℤ
char_diff a b = if leb b a then pos (a - b) else negsuc (b - a - 1)

pub strcmp : List ℕ → List ℕ → ℤ
strcmp [] [] = pos 0
strcmp [] (y ∷ b) = char_diff 0 y
strcmp (x ∷ a) [] = char_diff x 0
strcmp (x ∷ a) (y ∷ b) = let rest = strcmp a b in if x == y then rest else char_diff x y

pub strncmp : ℕ → List ℕ → List ℕ → ℤ
strncmp zero a b = pos 0
strncmp (suc n) [] [] = pos 0
strncmp (suc n) [] (y ∷ b) = char_diff 0 y
strncmp (suc n) (x ∷ a) [] = char_diff x 0
strncmp (suc n) (x ∷ a) (y ∷ b) = let rest = strncmp n a b in if x == y then rest else char_diff x y

-- `dst` is the address that the next character goes to.
pub strcpy : ℕ → List ℕ → (ℕ → ℕ) → ℕ → ℕ
strcpy dst [] mem = update mem dst 0
strcpy dst (c ∷ src) mem = strcpy (suc dst) src (update mem dst c)

-- The second loop of `strncpy` starts at the end of the string.
pub strncpy : ℕ → ℕ → List ℕ → (ℕ → ℕ) → ℕ → ℕ
strncpy zero dst src mem = mem
strncpy (suc n) dst [] mem = strncpy n (suc dst) [] (update mem dst 0)
strncpy (suc n) dst (c ∷ src) mem = strncpy n (suc dst) src (update mem dst c)

pub memcpy : ℕ → ℕ → ℕ → (ℕ → ℕ) → ℕ → ℕ
memcpy dst src n mem = for_range n 0 (λ i m. update m (dst + i) (m (src + i))) mem

pub memset : ℕ → ℕ → ℕ → (ℕ → ℕ) → ℕ → ℕ
memset s c n mem = for_range n 0 (λ i m. update m (s + i) (c % 2 ^ 8)) mem

-- A digit is stored in a `char`.
unfoldable pub digit : ℕ → ℕ
digit d = (if ltb d 10 then b'0' + d else b'a' + d - 10) % 2 ^ 8

-- The loop of divisions. Each digit goes in front of the ones before it, which is the order that
-- the second loop of `utoa` gives them. 32 rounds are enough for a 32-bit value in any base from 2
-- on, and `tmp` has 32 places.
unfoldable pub to_digits : ℕ → ℕ → ℕ → List ℕ → List ℕ
to_digits zero base value tmp = tmp
to_digits (suc n) base value tmp =
    let rest = to_digits n base (value / base) (digit (value % base) ∷ tmp) in
    if value == 0 then tmp else rest

unfoldable pub utoa : ℕ → ℕ → List ℕ
utoa value base = if value == 0 then b'0' ∷ [] else to_digits 32 base value []

unfoldable pub itoa : ℤ → ℕ → List ℕ
itoa (pos n) base = utoa n base
itoa (negsuc n) base =
    if base == 10 then b'-' ∷ utoa (n + 1) base else utoa (to_uint32 (negsuc n)) base
