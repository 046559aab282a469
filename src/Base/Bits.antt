-- ===== src/Base/Bits.antt =====
-- The bit operations of C on unsigned words: single bits, low masks and disjoint fields.
use Prim.Native.Nat.{
  ℕ, zero, suc, ◌+◌, ◌-◌, ◌*◌, ◌/◌, ◌%◌, ◌^◌, ◌≤◌, ◌<◌, min, max, bit_and, bit_or, digits, bitwise,
  bit_and-bitwise, bit_or-bitwise,
}
use mathlib.Core.Path.{◌≡◌, refl, sym, ap, ap₂, ◌∙◌}
use native.Mathlib.Nat.{
  pow-suc, one-le-pow, mod-eq_of_lt, add-mul-mod_self_right, div-add-mod, div-div-eq-div-mul,
  le_refl,
}
use native.Mathlib.Omega.{arith}
use mathlib.Core.Bool.{Bool, true, ◌&&◌}
use lightstreak_os.Base.Tests.{◌==◌, leb, ==_iff, if◌then◌else◌}

-- The recursion behind `bit_and` and `bit_or` goes digit by digit on fuel; any fuel from the first
-- argument on gives the same number, and so the lowest digit can be split off.
module _ (rest : ℕ → ℕ) (join : ℕ → ℕ → ℕ) where
  any_fuel : (v w k l : ℕ) → v ≤ k → v ≤ l → digits rest join k v w ≡ digits rest join l v w
  any_fuel zero w (suc k) (suc l) hk hl = refl
  any_fuel zero w (suc k) zero hk hl = refl
  any_fuel zero w zero (suc l) hk hl = refl
  any_fuel zero w zero zero hk hl = refl
  any_fuel (suc v) w (suc k) (suc l) hk hl =
      let half = any_fuel (suc v / 2) (w / 2) k l (omega arith) (omega arith) in omega (arith, half)
  any_fuel (suc v) w (suc k) zero hk hl = absurd (omega arith)
  any_fuel (suc v) w zero l hk hl = absurd (omega arith)

  lowest_digit :
      (v w : ℕ)
      → bitwise rest join (suc v) w
        ≡ bitwise rest join (suc v / 2) (w / 2) * 2 + join (suc v % 2) (w % 2)
  lowest_digit v w =
      let enough = any_fuel (suc v / 2) (w / 2) v (suc v / 2) (omega arith) (omega arith) in
      omega (arith, enough)

pub bit_and_halves : (v w : ℕ) → bit_and v w ≡ bit_and (v / 2) (w / 2) * 2 + min (v % 2) (w % 2)
bit_and_halves zero w = simp bit_and-bitwise (omega arith)
bit_and_halves (suc v) w = simp bit_and-bitwise (lowest_digit (λ _. 0) min v w)

pub bit_or_halves : (v w : ℕ) → bit_or v w ≡ bit_or (v / 2) (w / 2) * 2 + max (v % 2) (w % 2)
bit_or_halves zero w = simp bit_or-bitwise (omega arith)
bit_or_halves (suc v) w = simp bit_or-bitwise (lowest_digit (λ x. x) max v w)

-- Bit `k` of a word, `(w >> k) & 1`.
unfoldable pub bit : ℕ → ℕ → ℕ
bit w k = bit_and (w / 2 ^ k) 1

-- Both go from `a / 2` to `a`: `n` bounds the recursion.
pub zero_right : (n a : ℕ) → a ≤ n → (bit_and a 0 ≡ 0) × (bit_or a 0 ≡ a)
zero_right n zero h = (refl, refl)
zero_right zero (suc a) h = absurd (omega arith)
zero_right (suc n) (suc a) h =
    let ih = zero_right n (suc a / 2) (omega arith) in
    omega (arith, bit_and_halves (suc a) 0, bit_or_halves (suc a) 0, ih)

pub bit_and-one : (a : ℕ) → bit_and a 1 ≡ a % 2
bit_and-one a = omega (arith, bit_and_halves a 1, zero_right (a / 2) (a / 2) (le_refl _))

bit-zero : (w : ℕ) → bit w 0 ≡ w % 2
unfolding bit
bit-zero w = omega (arith, bit_and-one (w / 2 ^ 0))

bit-suc : (w k : ℕ) → bit w (suc k) ≡ bit (w / 2) k
unfolding bit
bit-suc w k =
    ap (λ x. bit_and x 1)
      (ap (λ p. w / p) (pow-suc 2 k ∙ omega arith) ∙ sym (div-div-eq-div-mul w 2 (2 ^ k)))

pub bit-lt : (w k : ℕ) → bit w k < 2
unfolding bit
bit-lt w k = omega (arith, bit_and-one (w / 2 ^ k))

bit-bit_or : (a b k : ℕ) → bit (bit_or a b) k ≡ max (bit a k) (bit b k)
bit-bit_or a b zero =
    omega (arith, bit-zero (bit_or a b), bit-zero a, bit-zero b, bit_or_halves a b)
bit-bit_or a b (suc k) =
    rw (bit-suc, bit-suc, bit-suc) (ap (λ x. bit x k) half ∙ bit-bit_or (a / 2) (b / 2) k)
  where
    half : bit_or a b / 2 ≡ bit_or (a / 2) (b / 2)
    half = omega (arith, bit_or_halves a b)

bit-bit_and : (a b k : ℕ) → bit (bit_and a b) k ≡ min (bit a k) (bit b k)
bit-bit_and a b zero =
    omega (arith, bit-zero (bit_and a b), bit-zero a, bit-zero b, bit_and_halves a b)
bit-bit_and a b (suc k) =
    rw (bit-suc, bit-suc, bit-suc) (ap (λ x. bit x k) half ∙ bit-bit_and (a / 2) (b / 2) k)
  where
    half : bit_and a b / 2 ≡ bit_and (a / 2) (b / 2)
    half = omega (arith, bit_and_halves a b)

bit_of_zero : (k : ℕ) → bit 0 k ≡ 0
bit_of_zero zero = bit-zero 0
bit_of_zero (suc k) = bit-suc 0 k ∙ bit_of_zero k

bit_of_pow : (k j : ℕ) → bit (2 ^ k) j ≡ (if k == j then 1 else 0)
bit_of_pow zero zero = bit-zero 1
bit_of_pow zero (suc j) = ground (arith, bit-suc 1 j, bit_of_zero j)
bit_of_pow (suc k) zero = ground (arith, bit-zero (2 ^ suc k), pow-suc 2 k)
bit_of_pow (suc k) (suc j) =
    ground (arith, bit-suc (2 ^ suc k) j, ap (λ x. bit x j) half, bit_of_pow k j)
  where
    half : 2 ^ suc k / 2 ≡ 2 ^ k
    half = omega (arith, pow-suc 2 k)

pub bit_of_ones : (n j : ℕ) → j < n → bit (2 ^ n - 1) j ≡ 1
bit_of_ones zero j h = absurd (omega arith)
bit_of_ones (suc n) zero h = bit-zero (2 ^ suc n - 1) ∙ omega (arith, pow-suc 2 n, one-le-pow n 2)
bit_of_ones (suc n) (suc j) h =
    bit-suc (2 ^ suc n - 1) j ∙ ap (λ x. bit x j) half ∙ bit_of_ones n j (omega arith)
  where
    half : (2 ^ suc n - 1) / 2 ≡ 2 ^ n - 1
    half = omega (arith, pow-suc 2 n, one-le-pow n 2)

pub pow_lt : (k n : ℕ) → k < n → 2 ^ k < 2 ^ n
pow_lt k zero h = absurd (omega arith)
pow_lt zero (suc n) h = omega (arith, pow-suc 2 n, one-le-pow n 2)
pow_lt (suc k) (suc n) h = omega (arith, pow-suc 2 n, pow-suc 2 k, pow_lt k n (omega arith))

-- The complement of one bit in a word of `n` bits, `~(1u << k)`.
bit_of_complement :
    (n k j : ℕ) → k < n → j < n → bit (2 ^ n - 1 - 2 ^ k) j ≡ (if k == j then 0 else 1)
bit_of_complement zero k j hk hj = absurd (omega arith)
bit_of_complement (suc n) zero zero hk hj =
    bit-zero (2 ^ suc n - 1 - 1) ∙ omega (arith, pow-suc 2 n, one-le-pow n 2)
bit_of_complement (suc n) zero (suc j) hk hj =
    ground
      (arith, bit-suc (2 ^ suc n - 1 - 1) j, ap (λ x. bit x j) half, bit_of_ones n j (omega arith))
  where
    half : (2 ^ suc n - 1 - 1) / 2 ≡ 2 ^ n - 1
    half = omega (arith, pow-suc 2 n, one-le-pow n 2)
bit_of_complement (suc n) (suc k) zero hk hj = ground (
  arith,
  bit-zero (2 ^ suc n - 1 - 2 ^ suc k),
  pow-suc 2 n,
  pow-suc 2 k,
  pow_lt k n (omega arith),
)
bit_of_complement (suc n) (suc k) (suc j) hk hj = ground (
  arith,
  bit-suc (2 ^ suc n - 1 - 2 ^ suc k) j,
  ap (λ x. bit x j) half,
  bit_of_complement n k j (omega arith) (omega arith),
)
  where
    half : (2 ^ suc n - 1 - 2 ^ suc k) / 2 ≡ 2 ^ n - 1 - 2 ^ k
    half = omega (arith, pow-suc 2 n, pow-suc 2 k, pow_lt k n (omega arith))

-- `w | (1u << k)` sets bit `k` and no other.
pub bit-set : (w k j : ℕ) → bit (bit_or w (2 ^ k)) j ≡ (if k == j then 1 else bit w j)
bit-set w k j = ground (arith, bit-bit_or w (2 ^ k) j, bit_of_pow k j, bit-lt w j)

-- `w & ~(1u << k)` clears bit `k` and no other.
pub bit-clear :
    (n w k j : ℕ)
    → k < n
    → j < n
    → bit (bit_and w (2 ^ n - 1 - 2 ^ k)) j ≡ (if k == j then 0 else bit w j)
bit-clear n w k j hk hj =
    ground (arith, bit-bit_and w (2 ^ n - 1 - 2 ^ k) j, bit_of_complement n k j hk hj, bit-lt w j)

mod_halves : (w k : ℕ) → w % 2 ^ suc k ≡ w / 2 % 2 ^ k * 2 + w % 2
mod_halves w k =
    ap₂ ◌%◌ split (pow-suc 2 k)
    ∙ add-mul-mod_self_right (w / 2 % 2 ^ k * 2 + w % 2) (w / 2 / 2 ^ k) _
    ∙ mod-eq_of_lt small
  where
    small : w / 2 % 2 ^ k * 2 + w % 2 < 2 ^ k * 2
    small = omega (arith, one-le-pow k 2)

    split : w ≡ w / 2 % 2 ^ k * 2 + w % 2 + w / 2 / 2 ^ k * (2 ^ k * 2)
    split = omega (arith, div-add-mod (w / 2) (2 ^ k))

-- `w & (2^k - 1)` is the remainder.
pub bit_and_mask : (k w : ℕ) → bit_and w (2 ^ k - 1) ≡ w % 2 ^ k
bit_and_mask zero w = omega (arith, zero_right w w (le_refl _))
bit_and_mask (suc k) w = ground (
  arith,
  bit_and_halves w (2 ^ suc k - 1),
  ap (bit_and (w / 2)) half,
  bit_and_mask k (w / 2),
  mod_halves w k,
  pow-suc 2 k,
  one-le-pow k 2,
)
  where
    half : (2 ^ suc k - 1) / 2 ≡ 2 ^ k - 1
    half = omega (arith, pow-suc 2 k, one-le-pow k 2)

-- `w & ~(2^k - 1)`, in a word of `n` bits, rounds `w` down to a multiple of `2^k`.
pub bit_and_page : (k n w : ℕ) → k ≤ n → w < 2 ^ n → bit_and w (2 ^ n - 2 ^ k) ≡ w - w % 2 ^ k
bit_and_page zero n w p h = ground (arith, bit_and_mask n w, mod-eq_of_lt h)
bit_and_page (suc k) zero w p h = absurd (omega arith)
bit_and_page (suc k) (suc n) w p h = ground (
  arith,
  bit_and_halves w (2 ^ suc n - 2 ^ suc k),
  ap (bit_and (w / 2)) half,
  bit_and_page k n (w / 2) (omega arith) (omega (arith, pow-suc 2 n)),
  mod_halves w k,
  pow-suc 2 n,
  pow-suc 2 k,
)
  where
    half : (2 ^ suc n - 2 ^ suc k) / 2 ≡ 2 ^ n - 2 ^ k
    half = omega (arith, pow-suc 2 n, pow-suc 2 k)

-- Fields that do not overlap are joined by `|` as by `+`.
pub bit_or_fields : (k q r : ℕ) → r < 2 ^ k → bit_or (q * 2 ^ k) r ≡ q * 2 ^ k + r
bit_or_fields zero q r h = ground (arith, zero_right q q (le_refl _))
bit_or_fields (suc k) q r h = ground (
  arith,
  bit_or_halves (q * 2 ^ suc k) r,
  ap₂ bit_or half refl,
  bit_or_fields k q (r / 2) (omega (arith, pow-suc 2 k)),
  twice,
)
  where
    twice : q * 2 ^ suc k ≡ 2 * (q * 2 ^ k)
    twice = omega (arith, ap (λ (t : ℕ). q * t) (pow-suc 2 k))

    half : q * 2 ^ suc k / 2 ≡ q * 2 ^ k
    half = omega (arith, twice)

bit_or_zero : (n b : ℕ) → b ≤ n → bit_or 0 b ≡ b
bit_or_zero n zero h = (zero_right 0 0 (le_refl _)).1
bit_or_zero zero (suc b) h = absurd (omega arith)
bit_or_zero (suc n) (suc b) h =
    omega (arith, bit_or_halves 0 (suc b), bit_or_zero n (suc b / 2) (omega arith))

-- The same with the low field first.
pub bit_or_low : (k q r : ℕ) → r < 2 ^ k → bit_or r (q * 2 ^ k) ≡ q * 2 ^ k + r
bit_or_low zero q zero h = ground (arith, bit_or_zero (q * 2 ^ 0) (q * 2 ^ 0) (le_refl _))
bit_or_low zero q (suc r) h = absurd (omega arith)
bit_or_low (suc k) q r h = ground (
  arith,
  bit_or_halves r (q * 2 ^ suc k),
  ap₂ bit_or refl half,
  bit_or_low k q (r / 2) (omega (arith, pow-suc 2 k)),
  twice,
)
  where
    twice : q * 2 ^ suc k ≡ 2 * (q * 2 ^ k)
    twice = omega (arith, ap (λ (t : ℕ). q * t) (pow-suc 2 k))

    half : q * 2 ^ suc k / 2 ≡ q * 2 ^ k
    half = omega (arith, twice)

-- Over a byte, a test is decided by trying all values, from the highest one down.
unfoldable pub holds_below : (ℕ → Bool) → ℕ → Bool
holds_below test zero = true
holds_below test (suc bound) = holds_below test bound && test bound

pub holds_below_lem :
    (test : ℕ → Bool) (bound v : ℕ) → v < bound → holds_below test bound ≡ true → test v ≡ true
unfolding holds_below
holds_below_lem test (suc bound) v lt h = ground (arith, holds_below_lem test bound v)
holds_below_lem test zero v lt h = absurd (omega arith)

-- The highest bit of a byte, `x & 0x80`.
high_table : holds_below (λ x. bit_and x 0x80 == (if leb 0x80 x then 0x80 else 0)) 256 ≡ true
unfolding holds_below
high_table = refl

pub bit_and_high : (x : ℕ) → x < 256 → bit_and x 0x80 ≡ (if leb 0x80 x then 0x80 else 0)
bit_and_high x h = (==_iff _ _).0 (holds_below_lem _ 256 x h high_table)
