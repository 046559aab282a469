-- ===== src/Pmm/Alloc.antt =====
-- kernel/mm/pmm.c: `pmm_alloc_page`, whose scan skips full words, is a first-fit search of the frames.
use lightstreak_os.Base.{
  ℕ, zero, suc, ◌+◌, ◌*◌, ◌%◌, ◌<◌, ◌≤◌, ◌≡◌, refl, sym, ◌⊎◌, ◌^◌, if◌then◌else◌, inl, inr, Option,
  none, some, arith, leb, ◌==◌, Bool-cases, tests, dec_lt, ℕ_discrete, subst, subst₂, ap₂, add32,
  all_ones,
}
use lightstreak_os.Base.Bits.{bit_of_ones}
use lightstreak_os.Pmm.{
  page_size, pages_max, Pmm, bit_set, bit_test, release, reserve, scan_word, scan_words,
  pmm_alloc_page,
}
use lightstreak_os.Pmm.Frames.{bit_test-lt, bit_test-reserve, bit_test-release}

-- Every frame in [a, b) is in use.
abbrev pub AllUsed : Pmm → ℕ → ℕ → Type 0
AllUsed s a b = (g : ℕ) → a ≤ g → g < b → bit_test s g ≡ 1

-- What a scan that starts at frame `a` returns: the first free frame's address, or NULL.
pub data Found (s : Pmm) (a : ℕ) : ℕ × Pmm → Type 0 where
  page :
      (f : ℕ) {r : ℕ × Pmm}
      → a ≤ f
      → f < s.total_pages
      → bit_test s f ≡ 0
      → AllUsed s a f
      → r ≡ (f * page_size, reserve f s)
      → Found s a r
  null : {r : ℕ × Pmm} → AllUsed s a s.total_pages → r ≡ (0, s) → Found s a r

-- What the loop over a word, ending before frame `b`, returns.
abbrev Scanned : Pmm → ℕ → ℕ → Option (ℕ × Pmm) → Type 0
Scanned s a b none = AllUsed s a b
Scanned s a b (some r) = Found s a r

AllUsed-cons :
    (s : Pmm) (a a' b : ℕ) → a' ≡ a + 1 → bit_test s a ≡ 1 → AllUsed s a' b → AllUsed s a b
AllUsed-cons s a a' b e h t g p q = elim (ℕ_discrete a g) [
  | yes same ↦ subst (λ x. bit_test s x ≡ 1) same h
  | no ne ↦ t g (omega arith) q
]

AllUsed-append : (s : Pmm) (a b c : ℕ) → AllUsed s a b → AllUsed s b c → AllUsed s a c
AllUsed-append s a b c h k g p q = elim (dec_lt g b) [
  | yes l ↦ h g p l
  | no nl ↦ k g (omega arith) q
]

Found-append : (s : Pmm) (a b : ℕ) (r : ℕ × Pmm) → a ≤ b → AllUsed s a b → Found s b r → Found s a r
Found-append s a b r le h (page f p q z u e) =
    page f (omega arith) q z (AllUsed-append s a b f h u) e
Found-append s a b r le h (null u e) = null (AllUsed-append s a b s.total_pages h u) e

Scanned-cons :
    (s : Pmm) (a a' b : ℕ) (o : Option (ℕ × Pmm))
    → a' ≡ a + 1
    → bit_test s a ≡ 1
    → Scanned s a' b o
    → Scanned s a b o
Scanned-cons s a a' b none e h t = AllUsed-cons s a a' b e h t
Scanned-cons s a a' b (some r) e h t =
    Found-append s a a' r (omega arith) (AllUsed-cons s a a' a' e h (λ g p q. absurd (omega arith)))
      t

reserve_lem :
    (f : ℕ) (s : Pmm)
    → bit_test s f ≡ 0
    → (let t = bit_set f s in record t { used_pages = add32 t.used_pages 1 }) ≡ reserve f s
unfolding reserve
reserve_lem f s h = rw h

scan_word_lem :
    (r i b : ℕ) (s : Pmm)
    → s.total_pages ≤ pages_max
    → b + r ≡ 32
    → Scanned s (i * 32 + b) (i * 32 + 32) (scan_word r i b s)
unfolding scan_word
scan_word_lem zero i b s t e = λ g p q. absurd (omega arith)
scan_word_lem (suc r) i b s t e = elim (Bool-cases (leb s.total_pages (i * 32 + b))) [
  | inl past ↦ rw past (null (λ g p q. absurd (omega tests)) refl)
  | inr before ↦ rw before (elim (Bool-cases (bit_test s (i * 32 + b) == 0)) [
    | inl free ↦ rw free (
        page (i * 32 + b) (omega arith) (ground arith) (ground arith)
          (λ g p q. absurd (omega arith))
          (ap₂ (λ a t. (a, t)) (ground arith) (reserve_lem (i * 32 + b) s (ground arith))))
    | inr used ↦ rw used (
        Scanned-cons s (i * 32 + b) (i * 32 + suc b) (i * 32 + 32) _ (omega arith)
          (ground (arith, bit_test-lt s (i * 32 + b)))
          (scan_word_lem r i (suc b) s t (omega arith)))
  ])
]

full_word : (i : ℕ) (s : Pmm) → s.bitmap i ≡ all_ones → AllUsed s (i * 32) (suc i * 32)
unfolding bit_test
full_word i s e g p q = ground (arith, bit_of_ones 32 (g % 32))

-- A word whose loop ends without a `return` hands over to the words behind it.
after_word :
    (s : Pmm) (a b : ℕ) (o : Option (ℕ × Pmm)) (r : ℕ × Pmm)
    → a ≤ b
    → Scanned s a b o
    → Found s b r
    → Found s a (elim o [ none ↦ r | some x ↦ x ])
after_word s a b none r le h k = Found-append s a b r le h k
after_word s a b (some x) r le h k = h

scan_words_lem :
    (r i : ℕ) (s : Pmm)
    → s.total_pages ≤ pages_max
    → (i + r) * 32 ≡ pages_max
    → Found s (i * 32) (scan_words r i s)
unfolding scan_words
scan_words_lem zero i s t e = null (λ g p q. absurd (omega arith)) refl
scan_words_lem (suc r) i s t e = elim (Bool-cases (s.bitmap i == all_ones)) [
  | inl full ↦ rw full (
      Found-append s (i * 32) (suc i * 32) _ (omega arith) (full_word i s (ground arith))
        (scan_words_lem r (suc i) s t (omega arith)))
  | inr some_free ↦ rw some_free (
      after_word s (i * 32) (suc i * 32) (scan_word 32 i 0 s) _ (omega arith)
        (subst₂ (λ a b. Scanned s a b (scan_word 32 i 0 s)) start stop
          (scan_word_lem 32 i 0 s t refl))
        (scan_words_lem r (suc i) s t (omega arith)))
]
  where
    start : i * 32 + 0 ≡ i * 32
    start = omega arith

    stop : i * 32 + 32 ≡ suc i * 32
    stop = omega arith

pub alloc-Found : (s : Pmm) → s.total_pages ≤ pages_max → Found s 0 (pmm_alloc_page s)
unfolding pmm_alloc_page
alloc-Found s t = scan_words_lem 2048 0 s t refl

-- The first free frame `f` of `s` is handed out.
pub record IsHandedOut (s : Pmm) (f : ℕ) (r : ℕ × Pmm) : Type 0 where
  pub below : f < s.total_pages
  pub free : bit_test s f ≡ 0
  pub first : AllUsed s 0 f
  pub address : r.0 ≡ f * 4096
  pub marked : (g : ℕ) → bit_test r.1 g ≡ (if f == g then 1 else bit_test s g)
  pub counted : r.1.used_pages ≡ (s.used_pages + 1) % 2 ^ 32
  pub total : r.1.total_pages ≡ s.total_pages

reserve-IsHandedOut :
    (s : Pmm) (f : ℕ)
    → f < s.total_pages
    → bit_test s f ≡ 0
    → AllUsed s 0 f
    → IsHandedOut s f (f * page_size, reserve f s)
unfolding reserve bit_set
reserve-IsHandedOut s f below free first = record {
  below = below;
  free = free;
  first = first;
  address = refl;
  marked = λ g. bit_test-reserve f g s;
  counted = rw (free) refl;
  total = rw (free) refl;
}

-- If `total_pages` is within the bitmap, then either `pmm_alloc_page` returns the address, 4096
-- times its number, of the first free frame below `total_pages`, and of all frames exactly that one
-- has its bit changed, from free to used, the counter is one more modulo 2^32 and the total is
-- unchanged; or every frame below `total_pages` is used, the result is NULL and nothing changes.
pub alloc_first_fit :
    (s : Pmm)
    → s.total_pages ≤ pages_max
    → ((f : ℕ) × IsHandedOut s f (pmm_alloc_page s))
      ⊎ (AllUsed s 0 s.total_pages × (pmm_alloc_page s ≡ (0, s)))
alloc_first_fit s t = elim (alloc-Found s t) [
  | page f lo below free first e ↦
      inl (f, subst (IsHandedOut s f) (sym e) (reserve-IsHandedOut s f below free first))
  | null used e ↦ inr (used, e)
]

release-reserve_bits :
    (f g : ℕ) (s : Pmm) → bit_test s f ≡ 0 → bit_test (release f (reserve f s)) g ≡ bit_test s g
release-reserve_bits f g s z =
    ground (arith, bit_test-release f g (reserve f s), bit_test-reserve f g s)
