-- ===== src/Mkramfs/Held.antt =====
-- Memory that holds a list of bytes: words, names and what stands behind one another.
use lightstreak_os.Base.{
  ℕ, zero, suc, ◌+◌, ◌^◌, ◌≤◌, ◌<◌, ◌≡◌, ◌≢◌, refl, ap, subst, ◌∙◌, List, [], ◌∷◌, ◌++◌, arith,
  ==_ne, length, get_or, add32,
}
use lightstreak_os.Base.Memory.{Memory, load_word, string_at}
use lightstreak_os.Mkramfs.{word_bytes, padded}

-- The bytes stand in memory from `a` on.
unfoldable pub Held : Memory → ℕ → List ℕ → Type 0
Held mem a [] = Unit {0}
Held mem a (b ∷ bs) = (mem a ≡ b) × Held mem (suc a) bs

pub Held-append :
    (mem : Memory) (xs ys : List ℕ) (a : ℕ)
    → Held mem a (xs ++ ys)
    → Held mem a xs × Held mem (a + length xs) ys
unfolding Held
Held-append mem [] ys a h = (tt, subst (λ x. Held mem x ys) (omega arith) h)
Held-append mem (x ∷ xs) ys a (e, h) =
    let (front, back) = Held-append mem xs ys (suc a) h in
    ((e, front), subst (λ x. Held mem x ys) (omega arith) back)

pub Held-get_or :
    (mem : Memory) (xs : List ℕ) (a x : ℕ)
    → Held mem a xs
    → x < length xs
    → mem (a + x) ≡ get_or xs x 0
unfolding Held
Held-get_or mem [] a x h l = absurd (omega (arith, l))
Held-get_or mem (b ∷ bs) a zero (e, h) l = ap mem (omega arith) ∙ e
Held-get_or mem (b ∷ bs) a (suc x) (e, h) l =
    ap mem (omega arith) ∙ Held-get_or mem bs (suc a) x h (omega (arith, l))

pub Held_of_bytes :
    (mem : Memory) (xs : List ℕ) (a : ℕ)
    → ((x : ℕ) → x < length xs → mem (a + x) ≡ get_or xs x 0)
    → Held mem a xs
unfolding Held
Held_of_bytes mem [] a h = tt
Held_of_bytes mem (b ∷ bs) a h = (
  ap mem (omega arith) ∙ h 0 (omega arith),
  Held_of_bytes mem bs (suc a) (λ x l. ap mem (omega arith) ∙ h (suc x) (omega (arith, l))),
)

-- A word that was written is read back.
pub Held-load_word :
    (mem : Memory) (a w : ℕ)
    → Held mem a (word_bytes w)
    → a + 4 ≤ 2 ^ 32
    → w < 2 ^ 32
    → load_word mem a ≡ w
unfolding Held word_bytes load_word
Held-load_word mem a w (b0, (b1, (b2, (b3, _)))) h l = omega (
  arith,
  b0,
  ap mem (next 1 (omega arith) ∙ omega arith) ∙ b1,
  ap mem (next 2 (omega arith) ∙ omega arith) ∙ b2,
  ap mem (next 3 (omega arith) ∙ omega arith) ∙ b3,
  h,
  l,
)
  where
    next : (k : ℕ) → k < 4 → add32 a k ≡ a + k
    next k q = omega (arith, q, h)

-- No character is a NUL.
unfoldable pub IsText : List ℕ → Type 0
IsText [] = Unit {0}
IsText (c ∷ cs) = (c ≢ 0) × IsText cs

-- A name with room for its NUL is read back.
pub Held-string_at :
    (mem : Memory) (name : List ℕ) (n fuel a : ℕ)
    → Held mem a (padded n name)
    → IsText name
    → length name < n
    → length name < fuel
    → a + n ≤ 2 ^ 32
    → string_at fuel mem a ≡ name
unfolding Held IsText padded string_at
Held-string_at mem name zero fuel a h t l m b = absurd (omega (arith, l))
Held-string_at mem name (suc n) zero a h t l m b = absurd (omega (arith, m))
Held-string_at mem [] (suc n) (suc fuel) a (e, h) t l m b = rw (e) refl
Held-string_at mem (c ∷ cs) (suc n) (suc fuel) a (e, h) (nz, t) l m b =
    rw (e, ==_ne c 0 nz, next)
      (ap (λ x. c ∷ x)
        (Held-string_at mem cs n fuel (suc a) h t (omega (arith, l)) (omega (arith, m))
          (omega (arith, b))))
  where
    next : add32 a 1 ≡ suc a
    next = omega (arith, b, l)
