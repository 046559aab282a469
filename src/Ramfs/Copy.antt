-- ===== src/Ramfs/Copy.antt =====
-- kernel/fs/ramfs.c: what the helpers copy, find and compare.
use lightstreak_os.Base.{
  ℕ, zero, suc, ◌+◌, ◌-◌, ◌<◌, ◌≤◌, ◌≡◌, ◌↔◌, refl, Bool, true, false, ◌&&◌, Option, none, some,
  List, [], ◌∷◌, arith, ltb, leb, if◌then◌else◌, update, for_range, Bool-cases, inl, inr, subst,
  ℕ_discrete,
}
use lightstreak_os.Ramfs.{mem_copy, first_index, str_eq}

copy_loop :
    (n i to from x : ℕ) (src dst : ℕ → ℕ)
    → for_range n i (λ j mem. update mem (to + j) (src (from + j))) dst x
      ≡ (if leb (to + i) x && ltb x (to + i + n) then src (from + (x - to)) else dst x)
unfolding for_range
copy_loop zero i to from x src dst = ground arith
copy_loop (suc n) i to from x src dst =
    ground (arith, copy_loop n (suc i) to from x src (update dst (to + i) (src (from + i))))

-- A copy changes exactly the `n` bytes at `to`.
pub mem_copy_lem :
    (dst : ℕ → ℕ) (to : ℕ) (src : ℕ → ℕ) (from n x : ℕ)
    → mem_copy dst to src from n x
      ≡ (if leb to x && ltb x (to + n) then src (from + (x - to)) else dst x)
unfolding mem_copy
mem_copy_lem dst to src from n x = ground (arith, copy_loop n 0 to from x src dst)

-- `str_eq` decides equality.
pub str_eq_iff : (xs ys : List ℕ) → (str_eq xs ys ≡ true) ↔ (xs ≡ ys)
unfolding str_eq
str_eq_iff [] [] = (λ h. refl, λ h. refl)
str_eq_iff [] (y ∷ ys) = (λ h. cc, λ h. cc)
str_eq_iff (x ∷ xs) [] = (λ h. cc, λ h. cc)
str_eq_iff (x ∷ xs) (y ∷ ys) = ground (arith, str_eq_iff xs ys)

-- What a search for an index returns: the first that passes, or none passes.
pub data First (test : ℕ → Bool) (i n : ℕ) : Option ℕ → Type 0 where
  found :
      (k : ℕ) {o : Option ℕ}
      → i ≤ k
      → k < i + n
      → test k ≡ true
      → ((j : ℕ) → i ≤ j → j < k → test j ≡ false)
      → o ≡ some k
      → First test i n o
  nothing :
      {o : Option ℕ} → ((j : ℕ) → i ≤ j → j < i + n → test j ≡ false) → o ≡ none → First test i n o

pub first_index_lem : (test : ℕ → Bool) (n i : ℕ) → First test i n (first_index test n i)
unfolding first_index
first_index_lem test zero i = nothing (λ j p q. absurd (omega arith)) refl
first_index_lem test (suc n) i = elim (Bool-cases (test i)) [
  | inl t ↦ rw t (found i (omega arith) (omega arith) t (λ j p q. absurd (omega arith)) refl)
  | inr f ↦ rw f (later f (first_index_lem test n (suc i)))
]
  where
    skips :
        (k : ℕ)
        → test i ≡ false
        → ((j : ℕ) → suc i ≤ j → j < k → test j ≡ false)
        → (j : ℕ) → i ≤ j
        → j < k
        → test j ≡ false
    skips k f absent j p q = elim (ℕ_discrete i j) [
      | yes e ↦ subst (λ x. test x ≡ false) e f
      | no ne ↦ absent j (omega arith) q
    ]

    later : {o : Option ℕ} → test i ≡ false → First test (suc i) n o → First test i (suc n) o
    later f (found k p q t before e) = found k (omega arith) (omega arith) t (skips k f before) e
    later f (nothing before e) = nothing (λ j p q. skips (suc i + n) f before j p (omega arith)) e
