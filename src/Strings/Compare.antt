-- ===== src/Strings/Compare.antt =====
-- strcmp decides whether two strings are equal.
use lightstreak_os.Base.{ℕ, ◌<◌, ◌≡◌, ◌↔◌, refl, subst, ap₂, List, [], ◌∷◌, arith}
use lightstreak_os.Base.Int.{pos}
use lightstreak_os.Strings.{char_diff, strcmp}

-- No character is 0.
pub data NoNul : List ℕ → Type 0 where
  nil : NoNul []
  cons : {x : ℕ} {xs : List ℕ} → 0 < x → NoNul xs → NoNul (x ∷ xs)

diff_lem : (a b : ℕ) → char_diff a b ≡ pos 0 → a ≡ b
unfolding char_diff
diff_lem a b h = ground arith

strcmp_self : (a : List ℕ) → strcmp a a ≡ pos 0
unfolding strcmp
strcmp_self [] = refl
strcmp_self (x ∷ a) = ground (arith, strcmp_self a)

zero_equal : (a b : List ℕ) → NoNul a → NoNul b → strcmp a b ≡ pos 0 → a ≡ b
unfolding strcmp
zero_equal [] [] p q h = refl
zero_equal [] (y ∷ b) p (cons l q) h = absurd (omega (arith, diff_lem 0 y h))
zero_equal (x ∷ a) [] (cons l p) q h = absurd (omega (arith, diff_lem x 0 h))
zero_equal (x ∷ a) (y ∷ b) (cons l p) (cons m q) h =
    ap₂ ◌∷◌ same (zero_equal a b p q (ground (arith, same)))
  where
    same : x ≡ y
    same = ground (arith, diff_lem x y)

-- On two strings without NUL characters, `strcmp` returns 0 exactly if they are equal.
pub strcmp_iff : (a b : List ℕ) → NoNul a → NoNul b → (strcmp a b ≡ pos 0) ↔ (a ≡ b)
strcmp_iff a b p q = (zero_equal a b p q, λ e. subst (λ x. strcmp a x ≡ pos 0) e (strcmp_self a))
