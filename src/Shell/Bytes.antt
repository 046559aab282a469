-- ===== src/Shell/Bytes.antt =====
-- The bytes of a buffer as a list: its chunks, and the one behind a read.
use lightstreak_os.Base.{
  ℕ, zero, suc, ◌+◌, ◌-◌, ◌<◌, ◌≡◌, refl, ap, ap₂, ◌∙◌, ◌∷◌, arith, take, drop, min,
}
use lightstreak_os.Shell.Kernel.{bytes_of}

pub take-bytes_of : (k n i : ℕ) (f : ℕ → ℕ) → take k (bytes_of n i f) ≡ bytes_of (min k n) i f
take-bytes_of zero n i f = ap (λ a. bytes_of a i f) (min-none n)
  where
    min-none : (n : ℕ) → 0 ≡ min 0 n
    min-none n = omega arith
take-bytes_of (suc k) zero i f = ap (λ a. bytes_of a i f) (none-min k)
  where
    none-min : (k : ℕ) → 0 ≡ min (suc k) 0
    none-min k = omega arith
take-bytes_of (suc k) (suc n) i f =
    ap (λ l. f i ∷ l) (take-bytes_of k n (suc i) f) ∙ ap (λ a. bytes_of a i f) (both k n)
  where
    both : (k n : ℕ) → suc (min k n) ≡ min (suc k) (suc n)
    both k n = omega arith

pub drop-bytes_of : (k n i : ℕ) (f : ℕ → ℕ) → drop k (bytes_of n i f) ≡ bytes_of (n - k) (i + k) f
drop-bytes_of zero n i f = ap₂ (λ a b. bytes_of a b f) (omega arith) (omega arith)
drop-bytes_of (suc k) zero i f = ap (λ a. bytes_of a (i + suc k) f) (none_left k)
  where
    none_left : (k : ℕ) → 0 ≡ 0 - suc k
    none_left k = omega arith
drop-bytes_of (suc k) (suc n) i f =
    drop-bytes_of k n (suc i) f ∙ ap₂ (λ a b. bytes_of a b f) (omega arith) (omega arith)

pub bytes_of-same :
    (n i j : ℕ) (f g : ℕ → ℕ)
    → ((x : ℕ) → x < n → f (i + x) ≡ g (j + x))
    → bytes_of n i f ≡ bytes_of n j g
bytes_of-same zero i j f g h = refl
bytes_of-same (suc n) i j f g h =
    ap₂ ◌∷◌ (ap f (omega arith) ∙ h 0 (omega arith) ∙ ap g (omega arith)) (
      bytes_of-same n (suc i) (suc j) f g
        (λ x l. ap f (omega arith) ∙ h (suc x) (omega (arith, l)) ∙ ap g (omega arith)))

-- What is left behind a chunk.
pub bytes_of-behind :
    (k n i : ℕ) (f : ℕ → ℕ)
    → n ≡ min 512 k
    → bytes_of (k - 512) (i + 512) f ≡ bytes_of (k - n) (i + n) f
bytes_of-behind k n i f e =
    bytes_of-same (k - 512) (i + 512) (i + n) f f (λ x l. ap f (omega (arith, e, l)))
    ∙ ap (λ a. bytes_of a (i + n) f) (omega (arith, e))
