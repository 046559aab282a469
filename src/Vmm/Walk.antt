-- ===== src/Vmm/Walk.antt =====
-- How the CPU translates an address through a directory.
use lightstreak_os.Base.{
  ℕ, ◌+◌, ◌*◌, ◌/◌, ◌%◌, ◌^◌, ◌<◌, ◌≡◌, refl, ap, ◌∙◌, Option, none, some, arith, ◌==◌,
  if◌then◌else◌, false,
}
use lightstreak_os.Base.Bits.{bit_and_mask}
use lightstreak_os.Vmm.{Tables, vmm_dir_idx, vmm_tbl_idx}

-- A present entry gives the address in its high bits.
pub target : ℕ → Option ℕ
target e = if e % 2 == 0 then none else some (e / 4096 * 4096)

pub walk_pte : ℕ → Option ℕ → Option ℕ
walk_pte offset none = none
walk_pte offset (some frame) = some (frame + offset)

pub walk_pde : Tables → ℕ → Option ℕ → Option ℕ
walk_pde tables va none = none
walk_pde tables va (some pt) = walk_pte (va % 4096) (target (tables pt (va / 4096 % 1024)))

pub translate : Tables → ℕ → ℕ → Option ℕ
translate tables dir va = walk_pde tables va (target (tables dir (va / 2 ^ 22 % 1024)))

pub dir_idx_lem : (va : ℕ) → vmm_dir_idx va ≡ va / 2 ^ 22 % 1024
unfolding vmm_dir_idx
dir_idx_lem va = bit_and_mask 10 (va / 2 ^ 22)

pub tbl_idx_lem : (va : ℕ) → vmm_tbl_idx va ≡ va / 4096 % 1024
unfolding vmm_tbl_idx
tbl_idx_lem va = bit_and_mask 10 (va / 2 ^ 12)

pub target_of : (q low : ℕ) → low < 4096 → low % 2 ≡ 1 → target (q * 4096 + low) ≡ some (q * 4096)
unfolding target
target_of q low h o = rw (odd) (ap some (omega arith))
  where
    odd : ((q * 4096 + low) % 2 == 0) ≡ false
    odd = ground arith

pub target_none : (e : ℕ) → e % 2 ≡ 0 → target e ≡ none
unfolding target
target_none e h = rw (h) refl

module _ (tables : Tables) (dir va : ℕ) where
  pub translate_unmapped :
      target (tables dir (va / 2 ^ 22 % 1024)) ≡ none → translate tables dir va ≡ none
  unfolding translate walk_pde
  translate_unmapped h = ap (walk_pde tables va) h

  pub translate_through :
      (pt : ℕ)
      → target (tables dir (va / 2 ^ 22 % 1024)) ≡ some pt
      → translate tables dir va ≡ walk_pte (va % 4096) (target (tables pt (va / 4096 % 1024)))
  unfolding translate walk_pde
  translate_through pt h = ap (walk_pde tables va) h

  pub translate_mapped :
      (pt frame : ℕ)
      → target (tables dir (va / 2 ^ 22 % 1024)) ≡ some pt
      → target (tables pt (va / 4096 % 1024)) ≡ some frame
      → translate tables dir va ≡ some (frame + va % 4096)
  unfolding walk_pte
  translate_mapped pt frame h k = translate_through pt h ∙ ap (walk_pte (va % 4096)) k

  pub translate_absent :
      (pt : ℕ)
      → target (tables dir (va / 2 ^ 22 % 1024)) ≡ some pt
      → target (tables pt (va / 4096 % 1024)) ≡ none
      → translate tables dir va ≡ none
  unfolding walk_pte
  translate_absent pt h k = translate_through pt h ∙ ap (walk_pte (va % 4096)) k

pub walk_present :
    (e offset frame : ℕ)
    → target e ≡ some frame
    → walk_pte offset (target e) ≡ some (frame + offset)
unfolding walk_pte
walk_present e offset frame h = ap (walk_pte offset) h

pub walk_absent : (e offset : ℕ) → target e ≡ none → walk_pte offset (target e) ≡ none
unfolding walk_pte
walk_absent e offset h = ap (walk_pte offset) h
