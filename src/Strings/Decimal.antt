-- ===== src/Strings/Decimal.antt =====
-- utoa and itoa: the number is read back from the digits, and the digits fit their buffer.
use lightstreak_os.Base.{
  ℕ, zero, suc, ◌+◌, ◌-◌, ◌*◌, ◌/◌, ◌%◌, ◌^◌, ◌≤◌, ◌<◌, ◌≡◌, refl, sym, ==_iff, ap, ◌∙◌, true, List,
  [], ◌∷◌, arith, ltb, ◌==◌, if◌then◌else◌, Bool-cases, inl, inr, length,
}
use lightstreak_os.Base.Int.{pos, negsuc}
use native.Mathlib.Nat.{pow-suc, div-add-mod', div-lt_iff_lt-mul}
use lightstreak_os.Strings.{digit, to_digits, utoa, itoa}

pub digit_value : ℕ → ℕ
digit_value c = if ltb c b'a' then c - b'0' else c - b'a' + 10

-- The digits of a number read from the left, behind the value `v` of those read before.
pub read_digits : ℕ → ℕ → List ℕ → ℕ
read_digits base v [] = v
read_digits base v (c ∷ cs) = read_digits base (v * base + digit_value c) cs

digit_value-digit : (d : ℕ) → d < 36 → digit_value (digit d) ≡ d
unfolding digit_value digit
digit_value-digit d h = ground (arith, h)

no_digit : (base v : ℕ) → read_digits base v [] ≡ v
unfolding read_digits
no_digit base v = refl

first_digit : (base : ℕ) → read_digits base 0 (b'0' ∷ []) ≡ 0
unfolding read_digits digit_value
first_digit base = omega arith

half : (n base v : ℕ) → 2 ≤ base → v < 2 ^ suc n → v / base < 2 ^ n
half n zero v hb h = absurd (omega arith)
half n (suc zero) v hb h = absurd (omega arith)
half n (suc (suc b)) v hb h =
    (div-lt_iff_lt-mul (omega arith)).1 (omega (arith, pow-suc 2 n, step (2 ^ n)))
  where
    step : (t : ℕ) → t * 2 ≤ t * suc (suc b)
    step t = omega arith

to_digits_lem :
    (n base v : ℕ) (tmp : List ℕ)
    → 2 ≤ base
    → base ≤ 36
    → v < 2 ^ n
    → read_digits base 0 (to_digits n base v tmp) ≡ read_digits base v tmp
unfolding to_digits read_digits
to_digits_lem zero base v tmp hb top h = ap (λ x. read_digits base x tmp) (omega arith)
to_digits_lem (suc n) base v tmp hb top h = elim (Bool-cases (v == 0)) [
  | inl p ↦ rw (p) (ap (λ x. read_digits base x tmp) (sym ((==_iff v 0).0 p)))
  | inr p ↦ rw (p) (
      to_digits_lem n base (v / base) (digit (v % base) ∷ tmp) hb top (half n base v hb h)
      ∙ ap (λ x. read_digits base x tmp)
          (ap (λ d. v / base * base + d) (digit_value-digit (v % base) (omega (arith, hb, top)))
            ∙ div-add-mod' v base))
]

length-to_digits : (n base v : ℕ) (tmp : List ℕ) → length (to_digits n base v tmp) ≤ n + length tmp
unfolding to_digits
length-to_digits zero base v tmp = omega arith
length-to_digits (suc n) base v tmp = elim (Bool-cases (v == 0)) [
  | inl p ↦ rw (p) (omega arith)
  | inr p ↦ rw (p) (omega (arith, length-to_digits n base (v / base) (digit (v % base) ∷ tmp)))
]

-- The digits that `utoa` writes for a 32-bit value, in any base from 2 to 36, are at most 32, so
-- that they fit `tmp`, and read back in that base they are the value.
pub utoa_reads :
    (value base : ℕ)
    → 2 ≤ base
    → base ≤ 36
    → value < 2 ^ 32
    → (read_digits base 0 (utoa value base) ≡ value) × (length (utoa value base) ≤ 32)
unfolding utoa
utoa_reads value base hb top h = elim (Bool-cases (value == 0)) [
  | inl p ↦ rw (p) (zero_lem value base p, omega arith)
  | inr p ↦ rw (p) (
    to_digits_lem 32 base value [] hb top h ∙ empty_lem value base,
    length-to_digits 32 base value [],
  )
]
  where
    zero_lem : (v b : ℕ) → (v == 0) ≡ true → read_digits b 0 (b'0' ∷ []) ≡ v
    zero_lem v b e = first_digit b ∙ sym ((==_iff v 0).0 e)

    empty_lem : (v b : ℕ) → read_digits b v [] ≡ v
    empty_lem v b = no_digit b v

-- What `itoa` writes for an `int` in base 10: a minus sign in front of a negative number, and then
-- at most 32 digits that read back as the absolute value, also for the least `int`.
pub itoa_reads :
    (n : ℕ)
    → n < 2 ^ 31
    → ((itoa (pos n) 10 ≡ utoa n 10) × (read_digits 10 0 (utoa n 10) ≡ n))
      × ((itoa (negsuc n) 10 ≡ b'-' ∷ utoa (n + 1) 10)
          × (read_digits 10 0 (utoa (n + 1) 10) ≡ n + 1))
unfolding itoa
itoa_reads n h = (
  (refl, (utoa_reads n 10 (omega arith) (omega arith) (omega arith)).0),
  (refl, (utoa_reads (n + 1) 10 (omega arith) (omega arith) (omega arith)).0),
)
