-- ===== src/Vmm/Identity.antt =====
-- vmm_init: the first 8 MB are mapped to themselves, and nothing else is mapped.
use lightstreak_os.Base.{
  ℕ, ◌+◌, ◌*◌, ◌/◌, ◌%◌, ◌^◌, ◌≤◌, ◌<◌, ◌≡◌, ◌≢◌, refl, ap, ◌∙◌, subst, none, some, arith, ◌==◌,
  leb, ltb, ◌&&◌, if◌then◌else◌, bit_or, true, false, ==_self, ==_ne, for_range, for_range-update,
  update, ◌⊎◌, inl, inr, dec_lt,
}
use lightstreak_os.Base.Flags.{bit_or_kernel}
use lightstreak_os.Vmm.{Tables, Vmm, identity_table, vmm_init, vmm_switch_directory}
use lightstreak_os.Vmm.Walk.{
  target, translate, target_of, target_none, translate_mapped, translate_unmapped,
}

-- The address of a static table.
pub record IsTable (at : ℕ) : Type 0 where
  pub aligned : at % 4096 ≡ 0

kernel_entry : (at : ℕ) → IsTable at → target (bit_or (bit_or at 1) 2) ≡ some at
kernel_entry at h =
    subst (λ x. target (bit_or (bit_or x 1) 2) ≡ some x) whole
      (ap target (bit_or_kernel (at / 4096)) ∙ target_of (at / 4096) 3 (omega arith) (omega arith))
  where
    whole : at / 4096 * 4096 ≡ at
    whole = omega (arith, h.aligned)

page_entry_lem :
    (n : ℕ) → n < 2048 → target (bit_or (bit_or (n * 4096 % 2 ^ 32) 1) 2) ≡ some (n * 4096)
page_entry_lem n h =
    ap (λ x. target (bit_or (bit_or x 1) 2)) (omega arith)
    ∙ kernel_entry (n * 4096) (record { aligned = omega arith })

pub filled : (n j : ℕ) (g t : ℕ → ℕ) → j < n → for_range n 0 (λ i u. update u i (g i)) t j ≡ g j
filled n j g t h = for_range-update n 0 j g t ∙ rw (inside) refl
  where
    inside : (leb 0 j && ltb j (0 + n)) ≡ true
    inside = ground arith

below : (va : ℕ) → va < 2 ^ 23 → ltb va (2 ^ 23) ≡ true
below va h = ground arith

above : (va : ℕ) → 2 ^ 23 ≤ va → ltb va (2 ^ 23) ≡ false
above va h = ground arith

-- The directory entry of an address: the first, the second, or a later one.
region :
    (va : ℕ)
    → va < 2 ^ 32
    → (((va / 2 ^ 22 % 1024 ≡ 0) × (va < 2 ^ 22))
        ⊎ ((va / 2 ^ 22 % 1024 ≡ 1) × (2 ^ 22 ≤ va) × (va < 2 ^ 23)))
      ⊎ ((2 ≤ va / 2 ^ 22 % 1024) × (2 ^ 23 ≤ va))
region va h = elim (dec_lt va (2 ^ 22)) [
  | yes l ↦ inl (inl (omega arith, l))
  | no nl ↦ elim (dec_lt va (2 ^ 23)) [
    | yes l ↦ inl (inr (omega arith, omega arith, l))
    | no nm ↦ inr (omega arith, omega arith)
  ]
]

module _ (kd pt0 pt1 : ℕ) (s : Vmm) where
  abbrev built : Tables
  built = (vmm_init kd pt0 pt1 s).tables

  in_dir :
      (i : ℕ)
      → i < 1024
      → built kd i ≡ (
          if 1 == i then bit_or (bit_or pt1 1) 2 else if 0 == i then bit_or (bit_or pt0 1) 2 else 0)
  unfolding vmm_init vmm_switch_directory
  in_dir i h = rw (==_self kd) (rw (filled 1024 i (λ _. 0) _ h) refl)

  in_low :
      (i : ℕ)
      → i < 1024
      → kd ≢ pt0
      → pt1 ≢ pt0
      → built pt0 i ≡ bit_or (bit_or ((0 + i) * 4096 % 2 ^ 32) 1) 2
  unfolding vmm_init vmm_switch_directory identity_table
  in_low i h n m =
      rw (==_ne kd pt0 n, ==_ne pt1 pt0 m, ==_self pt0)
        (filled 1024 i (λ i. bit_or (bit_or ((0 + i) * 4096 % 2 ^ 32) 1) 2) _ h)

  in_high :
      (i : ℕ) → i < 1024 → kd ≢ pt1 → built pt1 i ≡ bit_or (bit_or ((1024 + i) * 4096 % 2 ^ 32) 1) 2
  unfolding vmm_init vmm_switch_directory identity_table
  in_high i h n =
      rw (==_ne kd pt1 n, ==_self pt1)
        (filled 1024 i (λ i. bit_or (bit_or ((1024 + i) * 4096 % 2 ^ 32) 1) 2) _ h)

  -- For two tables at page-aligned 32-bit addresses that differ from each other and from the
  -- directory, `vmm_init` leaves a directory that translates every address below 8 MB to itself and
  -- no other 32-bit address.
  pub init_identity :
      IsTable pt0
      → IsTable pt1
      → kd ≢ pt0
      → kd ≢ pt1
      → pt1 ≢ pt0
      → (va : ℕ) → va < 2 ^ 32
      → translate (vmm_init kd pt0 pt1 s).tables kd va ≡ (if ltb va (2 ^ 23) then some va else none)
  init_identity a0 a1 n0 n1 n va h = elim (region va h) [
    | inl (inl (d, small)) ↦
        translate_mapped built kd va pt0 (va / 4096 % 1024 * 4096)
          (ap (λ i. target (built kd i)) d
            ∙ ap target (in_dir 0 (omega arith))
            ∙ kernel_entry pt0 a0)
          (ap target (in_low (va / 4096 % 1024) (omega arith) n0 n)
            ∙ page_entry_lem (0 + va / 4096 % 1024) (omega arith)
            ∙ ap (λ x. some (x * 4096)) (omega arith))
        ∙ rw (below va (omega arith)) (ap some (omega arith))
    | inl (inr (d, l, u)) ↦
        translate_mapped built kd va pt1 ((1024 + va / 4096 % 1024) * 4096)
          (ap (λ i. target (built kd i)) d
            ∙ ap target (in_dir 1 (omega arith))
            ∙ kernel_entry pt1 a1)
          (ap target (in_high (va / 4096 % 1024) (omega arith) n1)
            ∙ page_entry_lem (1024 + va / 4096 % 1024) (omega arith))
        ∙ rw (below va u) (ap some (omega arith))
    | inr (d, l) ↦
        translate_unmapped built kd va (
          ap target (in_dir (va / 2 ^ 22 % 1024) (omega arith) ∙ high_entry (va / 2 ^ 22 % 1024) d)
          ∙ target_none 0 refl)
        ∙ rw (above va l) refl
  ]
    where
      high_entry :
          (i : ℕ)
          → 2 ≤ i
          → (if 1 == i
              then bit_or (bit_or pt1 1) 2
              else if 0 == i
              then bit_or (bit_or pt0 1) 2
              else 0)
            ≡ 0
      high_entry i l = ground arith
