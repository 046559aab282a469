-- ===== src/Pmm/Count.antt =====
-- kernel/mm/pmm.c: `used_pages` counts the used frames, so the statistics are exact.
use lightstreak_os.Base.{
  ℕ, zero, suc, ◌+◌, ◌-◌, ◌/◌, ◌<◌, ◌≤◌, ◌≡◌, ◌≢◌, refl, ◌⊎◌, inl, inr, arith, ltb, leb, ◌==◌,
  if◌then◌else◌, Bool-cases, add32, sub32, subst, ◌∙◌,
}
use lightstreak_os.Pmm.{
  page_size, pages_max, Pmm, bit_set, bit_clear, bit_test, release, reserve, pmm_alloc_page,
  pmm_free_page, pmm_get_free_pages,
}
use lightstreak_os.Pmm.Frames.{bit_test-lt, bit_test-reserve, bit_test-release}
use lightstreak_os.Pmm.Alloc.{Found, page, null, alloc-Found}

-- The number of free frames below frame `n`.
unfoldable pub free_below : ℕ → Pmm → ℕ
free_below zero s = 0
free_below (suc n) s = free_below n s + (1 - bit_test s n)

free_below-le : (n : ℕ) (s : Pmm) → free_below n s ≤ n
unfolding free_below
free_below-le zero s = omega arith
free_below-le (suc n) s = omega (arith, free_below-le n s)

free_below-release :
    (n f : ℕ) (s : Pmm)
    → free_below n (release f s) ≡ free_below n s + (if ltb f n then bit_test s f else 0)
unfolding free_below
free_below-release zero f s = ground arith
free_below-release (suc n) f s =
    ground
      (arith, free_below-release n f s, bit_test-release f n s, bit_test-lt s f, bit_test-lt s n)

free_below-reserve :
    (n f : ℕ) (s : Pmm)
    → free_below n s ≡ free_below n (reserve f s) + (if ltb f n then 1 - bit_test s f else 0)
unfolding free_below
free_below-reserve zero f s = ground arith
free_below-reserve (suc n) f s =
    ground
      (arith, free_below-reserve n f s, bit_test-reserve f n s, bit_test-lt s f, bit_test-lt s n)

free_below_pos : (n f : ℕ) (s : Pmm) → f < n → bit_test s f ≡ 0 → 0 < free_below n s
unfolding free_below
free_below_pos zero f s h z = absurd (omega arith)
free_below_pos (suc n) f s h z = ground (arith, free_below_pos n f s)

used_below_pos : (n f : ℕ) (s : Pmm) → f < n → bit_test s f ≡ 1 → free_below n s < n
unfolding free_below
used_below_pos zero f s h z = absurd (omega arith)
used_below_pos (suc n) f s h z = ground (arith, used_below_pos n f s, free_below-le n s)

-- The counter and the free frames below `total_pages` make up all pages.
pub record IsCounted (s : Pmm) : Type 0 where
  pub bound : s.total_pages ≤ pages_max
  pub sum : s.used_pages + free_below s.total_pages s ≡ s.total_pages

pub total_pages-release : (f : ℕ) (s : Pmm) → (release f s).total_pages ≡ s.total_pages
unfolding release bit_clear
total_pages-release f s = ground arith

pub total_pages-reserve : (f : ℕ) (s : Pmm) → (reserve f s).total_pages ≡ s.total_pages
unfolding reserve bit_set
total_pages-reserve f s = ground arith

used_pages-release :
    (f : ℕ) (s : Pmm)
    → (release f s).used_pages ≡ (if bit_test s f == 0 then s.used_pages else sub32 s.used_pages 1)
unfolding release bit_clear
used_pages-release f s = ground arith

used_pages-reserve :
    (f : ℕ) (s : Pmm)
    → (reserve f s).used_pages ≡ (if bit_test s f == 0 then add32 s.used_pages 1 else s.used_pages)
unfolding reserve bit_set
used_pages-reserve f s = ground arith

pub release-IsCounted :
    (f : ℕ) (s : Pmm) → f < s.total_pages → IsCounted s → IsCounted (release f s)
release-IsCounted f s h c = record {
  bound = omega (arith, total_pages-release f s);
  sum = ground (
    arith,
    total_pages-release f s,
    used_pages-release f s,
    free_below-release s.total_pages f s,
    bit_test-lt s f,
    used_below_pos s.total_pages f s h,
  );
}

pub reserve-IsCounted :
    (f : ℕ) (s : Pmm) → f < s.total_pages → IsCounted s → IsCounted (reserve f s)
reserve-IsCounted f s h c = record {
  bound = omega (arith, total_pages-reserve f s);
  sum = ground (
    arith,
    total_pages-reserve f s,
    used_pages-reserve f s,
    free_below-reserve s.total_pages f s,
    bit_test-lt s f,
    free_below_pos s.total_pages f s h,
  );
}

alloc_page-IsCounted : (s : Pmm) → IsCounted s → IsCounted (pmm_alloc_page s).1
alloc_page-IsCounted s c = go (alloc-Found s c.bound)
  where
    go : {r : ℕ × Pmm} → Found s 0 r → IsCounted r.1
    go (page f p q z u e) = rw e (reserve-IsCounted f s q c)
    go (null u e) = rw e c

free_page-IsCounted : (p : ℕ) (s : Pmm) → IsCounted s → IsCounted (pmm_free_page p s)
unfolding pmm_free_page
free_page-IsCounted p s c = elim (Bool-cases (leb s.total_pages (p / page_size))) [
  | inl out ↦ rw out c
  | inr in_range ↦ rw in_range (release-IsCounted (p / page_size) s (ground arith) c)
]

-- `pmm_alloc_page`, in success and in failure, and `pmm_free_page`, for every argument, keep the
-- page counter exact.
pub page_calls-IsCounted :
    (p : ℕ) (s : Pmm) → IsCounted s → IsCounted (pmm_alloc_page s).1 × IsCounted (pmm_free_page p s)
page_calls-IsCounted p s c = (alloc_page-IsCounted s c, free_page-IsCounted p s c)

-- `pmm_get_free_pages` is the number of free frames below `total_pages`.
pub get_free_pages_exact :
    (s : Pmm) → IsCounted s → pmm_get_free_pages s ≡ free_below s.total_pages s
unfolding pmm_get_free_pages
get_free_pages_exact s c = omega arith

pub free_below-AllUsed :
    (n : ℕ) (s : Pmm) → ((g : ℕ) → 0 ≤ g → g < n → bit_test s g ≡ 1) → free_below n s ≡ 0
unfolding free_below
free_below-AllUsed zero s h = refl
free_below-AllUsed (suc n) s h =
    omega (
      arith,
      free_below-AllUsed n s (λ g p q. h g p (omega arith)),
      h n (omega arith) (omega arith),
    )

frame-ne-zero : (s : Pmm) (f : ℕ) → bit_test s 0 ≡ 1 → bit_test s f ≡ 0 → f ≢ 0
frame-ne-zero s f u z e = cc (subst (λ x. bit_test s x ≡ 0) e z)

-- With an exact page counter and frame 0 in use, `pmm_alloc_page` returns a page and lowers
-- `pmm_get_free_pages` by one, or `pmm_get_free_pages` is 0, it returns NULL and changes nothing.
pub alloc_page_count :
    (s : Pmm)
    → IsCounted s
    → bit_test s 0 ≡ 1
    → let (p, t) = pmm_alloc_page s in
      ((p ≢ 0) × (pmm_get_free_pages s ≡ pmm_get_free_pages t + 1))
      ⊎ ((p ≡ 0) × (t ≡ s) × (pmm_get_free_pages s ≡ 0))
alloc_page_count s c z = go (alloc-Found s c.bound)
  where
    go :
        {r : ℕ × Pmm}
        → Found s 0 r
        → ((r.0 ≢ 0) × (pmm_get_free_pages s ≡ pmm_get_free_pages r.1 + 1))
          ⊎ ((r.0 ≡ 0) × (r.1 ≡ s) × (pmm_get_free_pages s ≡ 0))
    go (page f p q free u e) = rw e (
        inl (
          omega (arith, frame-ne-zero s f z free),
          ground (
            arith,
            get_free_pages_exact s c,
            get_free_pages_exact (reserve f s) (reserve-IsCounted f s q c),
            total_pages-reserve f s,
            free_below-reserve s.total_pages f s,
          ),
        ))
    go (null u e) =
        rw e (inr (refl, refl, get_free_pages_exact s c ∙ free_below-AllUsed s.total_pages s u))
