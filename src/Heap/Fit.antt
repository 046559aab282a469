-- ===== src/Heap/Fit.antt =====
-- kernel/mm/heap.c: what first fit guarantees: the block that it hands out is new, large enough and
-- apart from every block in use, and it fails only if no free block is large enough.
use lightstreak_os.Base.{
  ℕ, ◌+◌, ◌-◌, ◌<◌, ◌≤◌, ◌≡◌, refl, ◌⊎◌, inl, inr, true, false, ◌&&◌, not, Option, none, some,
  arith, leb, List, [], ◌∷◌, subst, Bool-cases, sym, dec_lt,
}
use lightstreak_os.Heap.{hdr_size}
use lightstreak_os.Heap.Blocks.{Block, bytes_used, fit, UsedAt}

-- No free block of the row has `n` bytes.
abbrev pub NoRoom : ℕ → List Block → Type 0
NoRoom n [] = Unit {0}
NoRoom n (b ∷ bs) = (b.used ≡ false → b.size < n) × NoRoom n bs

-- A payload in use lies behind the row's start.
pub UsedAt-le : (a q m : ℕ) (bs : List Block) → UsedAt a bs q m → a + hdr_size ≤ q
UsedAt-le a q m [] u = absurd u
UsedAt-le a q m (b ∷ bs) (inl (_, e, _)) = omega arith
UsedAt-le a q m (b ∷ bs) (inr u) = omega (arith, UsedAt-le (a + hdr_size + b.size) q m bs u)

-- What first fit of `n` bytes in the row `bs` from address `a` returns.
abbrev pub Fitted : ℕ → ℕ → List Block → Option (ℕ × List Block) → Type 0
Fitted n a bs none = NoRoom n bs
Fitted n a bs (some (p, cs)) =
    (a + hdr_size ≤ p)
    × ((k : ℕ) × (n ≤ k) × UsedAt a cs p k × (bytes_used cs ≡ bytes_used bs + k))
    × ((q m : ℕ) → UsedAt a bs q m → UsedAt a cs q m × ((q + m ≤ p) ⊎ (p + n + hdr_size ≤ q)))
    × ((q m : ℕ) → UsedAt a cs q m → UsedAt a bs q m ⊎ (q ≡ p))

-- A first fit behind a block that does not fit.
abbrev pub behind : Block → Option (ℕ × List Block) → Option (ℕ × List Block)
behind b none = none
behind b (some (q, cs)) = some (q, b ∷ cs)

module _ (n : ℕ) where
  pub fit-nil : (a : ℕ) → fit n a [] ≡ none
  unfolding fit
  fit-nil a = refl

  pub fit-skip :
      (a : ℕ) (b : Block) (bs : List Block)
      → not b.used && leb n b.size ≡ false
      → fit n a (b ∷ bs) ≡ behind b (fit n (a + hdr_size + b.size) bs)
  unfolding fit
  fit-skip a b bs h = rw h (go (fit n (a + hdr_size + b.size) bs))
    where
      go :
          (o : Option (ℕ × List Block))
          → (elim o [ none ↦ none | some (p, cs) ↦ some (p, b ∷ cs) ]) ≡ behind b o
      go none = refl
      go (some (p, cs)) = refl

  pub fit-split :
      (a : ℕ) (b : Block) (bs : List Block)
      → b.used ≡ false
      → n + hdr_size + 4 ≤ b.size
      → fit n a (b ∷ bs)
        ≡ some (
          a + hdr_size,
          record { size = n; used = true }
              ∷ record { size = b.size - n - hdr_size; used = false }
              ∷ bs,
        )
  unfolding fit
  fit-split a b bs free big = ground arith

  pub fit-whole :
      (a : ℕ) (b : Block) (bs : List Block)
      → b.used ≡ false
      → n ≤ b.size
      → b.size < n + hdr_size + 4
      → fit n a (b ∷ bs) ≡ some (a + hdr_size, record { size = b.size; used = true } ∷ bs)
  unfolding fit
  fit-whole a b bs free le small = ground arith

module _ (n a : ℕ) (b : Block) (bs : List Block) (free : b.used ≡ false) where
  Fitted-split :
      n + hdr_size + 4 ≤ b.size
      → Fitted n a (b ∷ bs) (
          some (
            a + hdr_size,
            record { size = n; used = true }
                ∷ record { size = b.size - n - hdr_size; used = false }
                ∷ bs,
          ))
  Fitted-split big = (
    omega arith,
    (n, omega arith, inl (refl, refl, refl), ground arith),
    λ q m. elim [
      | inl (t, _, _) ↦ cc
      | inr u ↦ (
        inr (inr (subst (λ k. UsedAt k bs q m) (sym same) u)),
        inr (omega (arith, UsedAt-le (a + hdr_size + b.size) q m bs u)),
      )
    ],
    λ q m. elim [
      | inl (_, e, _) ↦ inr e
      | inr u ↦ elim u [
        | inl (t, _, _) ↦ cc
        | inr v ↦ inl (inr (subst (λ k. UsedAt k bs q m) same v))
      ]
    ],
  )
    where
      same : a + hdr_size + n + hdr_size + (b.size - n - hdr_size) ≡ a + hdr_size + b.size
      same = omega arith

  Fitted-whole :
      n ≤ b.size
      → Fitted n a (b ∷ bs) (some (a + hdr_size, record { size = b.size; used = true } ∷ bs))
  Fitted-whole le = (
    omega arith,
    (b.size, le, inl (refl, refl, refl), ground arith),
    λ q m. elim [
      | inl (t, _, _) ↦ cc
      | inr u ↦ (inr u, inr (omega (arith, UsedAt-le (a + hdr_size + b.size) q m bs u)))
    ],
    λ q m. elim [ inl (_, e, _) ↦ inr e | inr u ↦ inl (inr u) ],
  )

module _ (n a : ℕ) (b : Block) (bs : List Block) where
  Fitted-skip :
      (o : Option (ℕ × List Block))
      → not b.used && leb n b.size ≡ false
      → Fitted n (a + hdr_size + b.size) bs o
      → Fitted n a (b ∷ bs) (behind b o)
  Fitted-skip none h f = (λ free. ground arith, f)
  Fitted-skip (some (p, cs)) h (le, (k, big, at_p, sum), keeps, new) = (
    omega arith,
    (k, big, inr at_p, omega arith),
    λ q m. elim [
      | inl used ↦ (inl used, inl (omega arith))
      | inr u ↦ (inr (keeps q m u).0, (keeps q m u).1)
    ],
    λ q m. elim [
      | inl used ↦ inl (inl used)
      | inr u ↦ elim (new q m u) [ inl v ↦ inl (inr v) | inr e ↦ inr e ]
    ],
  )

-- First fit fails only if no free block has `n` bytes. Otherwise it returns a block in use of at
-- least `n` bytes, and `bytes_used` grows by that size; every block that was in use still is, at
-- its address and size, and lies apart from the new one; no other block comes into use.
pub fit_lem : (n a : ℕ) (bs : List Block) → Fitted n a bs (fit n a bs)
fit_lem n a [] = subst (Fitted n a []) (sym (fit-nil n a)) tt
fit_lem n a (b ∷ bs) = elim (Bool-cases (not b.used && leb n b.size)) [
  | inl fits ↦ elim (dec_lt b.size (n + hdr_size + 4)) [
    | yes small ↦
        subst (Fitted n a (b ∷ bs)) (sym (fit-whole n a b bs (ground arith) (ground arith) small))
          (Fitted-whole n a b bs (ground arith) (ground arith))
    | no big ↦
        subst (Fitted n a (b ∷ bs)) (sym (fit-split n a b bs (ground arith) (omega arith)))
          (Fitted-split n a b bs (ground arith) (omega arith))
  ]
  | inr skips ↦
      subst (Fitted n a (b ∷ bs)) (sym (fit-skip n a b bs skips))
        (Fitted-skip n a b bs _ skips (fit_lem n (a + hdr_size + b.size) bs))
]
