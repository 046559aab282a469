-- ===== src/Vmm/Write.antt =====
-- A write to an entry of a page table changes the translation of one page, and keeps the invariant.
use lightstreak_os.Base.{
  ℕ, ◌/◌, ◌%◌, ◌^◌, ◌<◌, ◌≡◌, ◌≢◌, refl, ap, ◌∙◌, sym, subst, Option, none, some, arith, ◌==◌, ◌&&◌,
  if◌then◌else◌, ==_self, ==_ne, ==_iff, ◌⊎◌, inl, inr, ℕ_discrete, Bool-cases, Option-cases,
}
use lightstreak_os.Vmm.{Tables, Vmm, set_table}
use lightstreak_os.Vmm.Walk.{target, walk_pte, translate, translate_through, translate_unmapped}
use lightstreak_os.Vmm.Space.{IsSpace}

pub some_inj : (a b : ℕ) → ◌≡◌ {A = Option ℕ} (some a) (some b) → a ≡ b
some_inj a b h = cc

none_some : (a : ℕ) → ◌≢◌ {A = Option ℕ} none (some a)
none_some a h = cc

set_table_at :
    (pt ti e q i : ℕ) (tables : Tables)
    → set_table pt ti e tables q i ≡ (if pt == q && ti == i then e else tables q i)
set_table_at pt ti e q i tables = elim (Bool-cases (pt == q)) [
  | inl p ↦ rw (p) (ap (λ x. if ti == i then e else tables x i) ((==_iff pt q).0 p))
  | inr p ↦ rw (p) refl
]

right_there :
    (pt ti e q i : ℕ) (tables : Tables) → pt ≡ q → ti ≡ i → set_table pt ti e tables q i ≡ e
right_there pt ti e q i tables h k = set_table_at pt ti e q i tables ∙ ground (arith, h, k)

elsewhere :
    (pt ti e q i : ℕ) (tables : Tables)
    → (pt ≢ q) ⊎ (ti ≢ i)
    → set_table pt ti e tables q i ≡ tables q i
elsewhere pt ti e q i tables h = set_table_at pt ti e q i tables ∙ ground (arith, h)

-- A write to entry `ti` of a table of the directory, that of the pages with the number `n`.
module _ (s : Vmm) (dir : ℕ) (v : IsSpace s dir) (virt pt : ℕ) (lt : virt < 2 ^ 32)
    (at : target (s.tables dir (virt / 2 ^ 22 % 1024)) ≡ some pt) where
  abbrev written : ℕ → Vmm
  written e = record s { tables = set_table pt (virt / 4096 % 1024) e s.tables }

  dir_kept : (e i : ℕ) → (written e).tables dir i ≡ s.tables dir i
  dir_kept e i =
      rw (==_ne pt dir (λ q. v.apart (virt / 2 ^ 22 % 1024) pt (omega arith) at (sym q))) refl

  pub written-IsSpace : (e : ℕ) → IsSpace (written e) dir
  written-IsSpace e = record {
    words = λ i h. subst (λ x. x < 2 ^ 32) (sym (dir_kept e i)) (v.words i h);
    dir_used = v.dir_used;
    zero_used = v.zero_used;
    within = v.within;
    apart = λ i q h k. v.apart i q h (ap target (sym (dir_kept e i)) ∙ k);
    tables_used = λ i q h k. v.tables_used i q h (ap target (sym (dir_kept e i)) ∙ k);
    distinct = λ i j q h g k m.
        v.distinct i j q h g (ap target (sym (dir_kept e i)) ∙ k)
          (ap target (sym (dir_kept e j)) ∙ m);
  }

  pub translate-written :
      (e va : ℕ)
      → va < 2 ^ 32
      → translate (written e).tables dir va ≡ (
          if va / 4096 == virt / 4096
          then walk_pte (va % 4096) (target e)
          else translate s.tables dir va)
  translate-written e va h = elim (Option-cases (target (s.tables dir (va / 2 ^ 22 % 1024)))) [
    | inl n ↦
        translate_unmapped (written e).tables dir va
          (ap target (dir_kept e (va / 2 ^ 22 % 1024)) ∙ n)
        ∙ rw (==_ne (va / 4096) (virt / 4096) (other_page n))
            (sym (translate_unmapped s.tables dir va n))
    | inr (q, k) ↦
        translate_through (written e).tables dir va q
          (ap target (dir_kept e (va / 2 ^ 22 % 1024)) ∙ k)
        ∙ through q k
  ]
    where
      other_page : target (s.tables dir (va / 2 ^ 22 % 1024)) ≡ none → va / 4096 ≢ virt / 4096
      other_page n same =
          let d : va / 2 ^ 22 % 1024 ≡ virt / 2 ^ 22 % 1024 = omega arith in
          absurd (none_some pt (sym n ∙ ap (λ i. target (s.tables dir i)) d ∙ at))

      other_table :
          (q : ℕ)
          → target (s.tables dir (va / 2 ^ 22 % 1024)) ≡ some q
          → pt ≢ q
          → va / 4096 ≢ virt / 4096
      other_table q k ne same =
          let d : va / 2 ^ 22 % 1024 ≡ virt / 2 ^ 22 % 1024 = omega arith in
          ne (some_inj pt q (sym at ∙ ap (λ i. target (s.tables dir i)) (sym d) ∙ k))

      through :
          (q : ℕ)
          → target (s.tables dir (va / 2 ^ 22 % 1024)) ≡ some q
          → walk_pte (va % 4096) (target ((written e).tables q (va / 4096 % 1024))) ≡ (
              if va / 4096 == virt / 4096
              then walk_pte (va % 4096) (target e)
              else translate s.tables dir va)
      through q k = elim (ℕ_discrete pt q) [
        | no ne ↦
            ap (λ x. walk_pte (va % 4096) (target x))
              (elsewhere pt (virt / 4096 % 1024) e q (va / 4096 % 1024) s.tables (inl ne))
            ∙ rw (==_ne (va / 4096) (virt / 4096) (other_table q k ne))
                (sym (translate_through s.tables dir va q k))
        | yes t ↦ elim (ℕ_discrete (virt / 4096) (va / 4096)) [
          | yes same ↦
              ap (λ x. walk_pte (va % 4096) (target x))
                (right_there pt (virt / 4096 % 1024) e q (va / 4096 % 1024) s.tables t
                  (ap (λ x. x % 1024) same))
              ∙ rw (same) (rw (==_self (va / 4096)) refl)
          | no ne ↦
              ap (λ x. walk_pte (va % 4096) (target x))
                (elsewhere pt (virt / 4096 % 1024) e q (va / 4096 % 1024) s.tables
                  (inr (apart_entry q k t ne)))
              ∙ rw (==_ne (va / 4096) (virt / 4096) (λ x. ne (sym x)))
                  (sym (translate_through s.tables dir va q k))
        ]
      ]
        where
          apart_entry :
              (q : ℕ)
              → target (s.tables dir (va / 2 ^ 22 % 1024)) ≡ some q
              → pt ≡ q
              → virt / 4096 ≢ va / 4096
              → virt / 4096 % 1024 ≢ va / 4096 % 1024
          apart_entry q k t ne e =
              let d : virt / 2 ^ 22 % 1024 ≡ va / 2 ^ 22 % 1024 =
                v.distinct (virt / 2 ^ 22 % 1024) (va / 2 ^ 22 % 1024) pt (omega arith)
                  (omega arith) at (k ∙ ap some (sym t)) in
              absurd (omega arith)
