-- ===== src/Vmm/Grow.antt =====
-- A new page table changes no translation, and keeps the invariant.
use lightstreak_os.Base.{
  ℕ, ◌*◌, ◌/◌, ◌%◌, ◌^◌, ◌<◌, ◌≡◌, ◌≢◌, refl, ap, ◌∙◌, sym, none, some, arith, ◌==◌, if◌then◌else◌,
  ==_self, ==_ne, ◌⊎◌, inl, inr, ℕ_discrete, Option-cases,
}
use lightstreak_os.Pmm.{bit_test, reserve}
use lightstreak_os.Pmm.Frames.{bit_test-reserve}
use lightstreak_os.Pmm.Count.{total_pages-reserve}
use lightstreak_os.Vmm.{Vmm, add_table}
use lightstreak_os.Vmm.Walk.{
  target, walk_pte, translate, target_none, translate_through, translate_unmapped, translate_absent,
}
use lightstreak_os.Vmm.Space.{IsSpace, added_dir, added_zero, added_other, added_word}
use lightstreak_os.Vmm.Write.{some_inj}

module _ (s : Vmm) (dir di f : ℕ) (v : IsSpace s dir) (lt : di < 1024)
    (absent : target (s.tables dir di) ≡ none) (free : bit_test s.pmm f ≡ 0)
    (small : f < s.pmm.total_pages) where
  abbrev grown : Vmm
  grown = record s { pmm = reserve f s.pmm; tables = add_table dir di (f * 4096) s.tables }

  new_page : (q : ℕ) → bit_test s.pmm (q / 4096) ≡ 1 → q ≢ f * 4096
  new_page q u e =
      let same : q / 4096 ≡ f = omega arith in absurd (omega (arith, ap (bit_test s.pmm) same))

  still_used : (g : ℕ) → bit_test s.pmm g ≡ 1 → bit_test (reserve f s.pmm) g ≡ 1
  still_used g u = ground (arith, bit_test-reserve f g s.pmm)

  pub dir_grown :
      (i : ℕ)
      → target (grown.tables dir i) ≡ (if di == i then some (f * 4096) else target (s.tables dir i))
  dir_grown i = added_dir dir di (f * 4096) i s.tables (new_page dir v.dir_used) (omega arith)

  -- The tables of the grown directory are the old ones and the new one.
  grown_cases :
      (i q : ℕ)
      → target (grown.tables dir i) ≡ some q
      → ((di ≡ i) × (f * 4096 ≡ q)) ⊎ ((di ≢ i) × (target (s.tables dir i) ≡ some q))
  grown_cases i q h = elim (ℕ_discrete di i) [
    | yes e ↦ inl (e, some_inj (f * 4096) q (sym (dir_grown i ∙ rw (e) (rw (==_self i) refl)) ∙ h))
    | no ne ↦ inr (ne, sym (dir_grown i ∙ rw (==_ne di i ne) refl) ∙ h)
  ]

  pub grown-IsSpace : IsSpace grown dir
  grown-IsSpace = record {
    words = λ i h.
        added_word dir di (f * 4096) i s.tables (new_page dir v.dir_used) (omega arith)
          (omega (arith, v.within)) (v.words i h);
    dir_used = still_used (dir / 4096) v.dir_used;
    zero_used = still_used 0 v.zero_used;
    within = omega (arith, v.within, total_pages-reserve f s.pmm);
    apart = λ i q h k. elim (grown_cases i q k) [
      | inl (e, r) ↦ λ x. new_page dir v.dir_used (x ∙ sym r)
      | inr (ne, r) ↦ v.apart i q h r
    ];
    tables_used = λ i q h k. elim (grown_cases i q k) [
      | inl (e, r) ↦
          ap (bit_test (reserve f s.pmm)) (omega arith)
          ∙ bit_test-reserve f f s.pmm
          ∙ rw (==_self f) refl
      | inr (ne, r) ↦ still_used (q / 4096) (v.tables_used i q h r)
    ];
    distinct = λ i j q h g k m. elim (grown_cases i q k) [
      | inl (e, r) ↦ elim (grown_cases j q m) [
        | inl (e', r') ↦ sym e ∙ e'
        | inr (ne', r') ↦ absurd (new_page q (v.tables_used j q g r') (sym r))
      ]
      | inr (ne, r) ↦ elim (grown_cases j q m) [
        | inl (e', r') ↦ absurd (new_page q (v.tables_used i q h r) (sym r'))
        | inr (ne', r') ↦ v.distinct i j q h g r r'
      ]
    ];
  }

  pub grown_translate :
      (va : ℕ) → va < 2 ^ 32 → translate grown.tables dir va ≡ translate s.tables dir va
  grown_translate va h = elim (ℕ_discrete di (va / 2 ^ 22 % 1024)) [
    | yes e ↦
        translate_absent grown.tables dir va (f * 4096)
          (dir_grown (va / 2 ^ 22 % 1024) ∙ rw (e) (rw (==_self (va / 2 ^ 22 % 1024)) refl))
          (target_none (grown.tables (f * 4096) (va / 4096 % 1024)) (
            omega (
              arith,
              added_zero dir di (f * 4096) (va / 4096 % 1024) s.tables (new_page dir v.dir_used)
                  (omega arith),
            )))
        ∙ sym (
            translate_unmapped s.tables dir va (ap (λ i. target (s.tables dir i)) (sym e) ∙ absent))
    | no ne ↦ kept ne (Option-cases (target (s.tables dir (va / 2 ^ 22 % 1024))))
  ]
    where
      same_entry :
          di ≢ va / 2 ^ 22 % 1024
          → target (grown.tables dir (va / 2 ^ 22 % 1024))
            ≡ target (s.tables dir (va / 2 ^ 22 % 1024))
      same_entry ne = dir_grown (va / 2 ^ 22 % 1024) ∙ rw (==_ne di (va / 2 ^ 22 % 1024) ne) refl

      kept :
          di ≢ va / 2 ^ 22 % 1024
          → ((target (s.tables dir (va / 2 ^ 22 % 1024)) ≡ none)
              ⊎ ((q : ℕ) × (target (s.tables dir (va / 2 ^ 22 % 1024)) ≡ some q)))
          → translate grown.tables dir va ≡ translate s.tables dir va
      kept ne (inl n) =
          translate_unmapped grown.tables dir va (same_entry ne ∙ n)
          ∙ sym (translate_unmapped s.tables dir va n)
      kept ne (inr (q, k)) =
          translate_through grown.tables dir va q (same_entry ne ∙ k)
          ∙ ap (λ x. walk_pte (va % 4096) (target x))
              (added_other dir di (f * 4096) q (va / 4096 % 1024) s.tables
                (v.apart (va / 2 ^ 22 % 1024) q (omega arith) k)
                (λ x. new_page q (v.tables_used (va / 2 ^ 22 % 1024) q (omega arith) k) (sym x)))
          ∙ sym (translate_through s.tables dir va q k)
