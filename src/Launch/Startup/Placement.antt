-- ===== src/Launch/Startup/Placement.antt =====
-- kernel/kernel.c: the place of the heap, behind the kernel and every module.
use lightstreak_os.Base.{
  ℕ, ◌+◌, ◌-◌, ◌*◌, ◌/◌, ◌%◌, ◌^◌, ◌<◌, ◌≤◌, ◌≡◌, refl, sym, subst, ◌⊎◌, inl, inr, true, List, [],
  ◌∷◌, arith, ltb, add32, bit_and, if◌then◌else◌, Bool-cases,
}
use lightstreak_os.Base.Bits.{bit_and_page, bit_and_halves, bit_and-one}
use lightstreak_os.Launch.Startup.{
  BootModule, BootInfo, has_modules, highest_end, safe_end, heap_base,
}

-- Every module ends at `a` or below.
abbrev pub EndBelow : ℕ → List BootModule → Type 0
EndBelow a [] = Unit {0}
EndBelow a (m ∷ ms) = (m.mod_end ≤ a) × EndBelow a ms

-- The list has the module.
abbrev pub IsIn : BootModule → List BootModule → Type 0
IsIn m [] = ⊥
IsIn m (x ∷ xs) = (m ≡ x) ⊎ IsIn m xs

-- Bit 3 of the flags, which says that the list of modules is valid.
abbrev pub IsFlagged : BootInfo → Type 0
IsFlagged mbi = mbi.flags / 8 % 2 ≡ 1

pub EndBelow-le : (a b : ℕ) (ms : List BootModule) → a ≤ b → EndBelow a ms → EndBelow b ms
EndBelow-le a b [] h e = tt
EndBelow-le a b (m ∷ ms) h (e, es) = (omega (arith, h, e), EndBelow-le a b ms h es)

bit_and_eight : (w : ℕ) → bit_and w 8 ≡ w / 8 % 2 * 8
bit_and_eight w = omega (
  arith,
  bit_and_halves w 8,
  bit_and_halves (w / 2) 4,
  bit_and_halves (w / 2 / 2) 2,
  bit_and-one (w / 2 / 2 / 2),
)

pub flagged-has_modules :
    (mbi : BootInfo) (m : BootModule) (ms : List BootModule)
    → IsFlagged mbi
    → mbi.mods ≡ m ∷ ms
    → has_modules mbi ≡ true
unfolding has_modules
flagged-has_modules mbi m ms f e = rw (e) (ground (arith, f, bit_and_eight mbi.flags))

has_modules-IsFlagged : (mbi : BootInfo) → has_modules mbi ≡ true → IsFlagged mbi
unfolding has_modules
has_modules-IsFlagged mbi h = ground (arith, h, bit_and_eight mbi.flags)

highest_end_lem :
    (ms : List BootModule) (safe : ℕ)
    → (safe ≤ highest_end ms safe) × EndBelow (highest_end ms safe) ms
unfolding highest_end
highest_end_lem [] safe = (omega arith, tt)
highest_end_lem (m ∷ ms) safe =
    let (le, es) = highest_end_lem ms (if ltb safe m.mod_end then m.mod_end else safe) in
    (ground (arith, le), (ground (arith, le), es))

-- The highest end is where the kernel ends, or one of the modules.
highest_end_cases :
    (ms : List BootModule) (safe : ℕ)
    → (highest_end ms safe ≡ safe)
      ⊎ ((m : BootModule) × IsIn m ms × (highest_end ms safe ≡ m.mod_end))
unfolding highest_end
highest_end_cases [] safe = inl refl
highest_end_cases (m ∷ ms) safe = elim (Bool-cases (ltb safe m.mod_end)) [
  | inl later ↦ rw (later) (elim (highest_end_cases ms m.mod_end) [
    | inl e ↦ inr (m, inl refl, e)
    | inr (x, i, e) ↦ inr (x, inr i, e)
  ])
  | inr not_later ↦
      rw (not_later)
        (elim (highest_end_cases ms safe) [ inl e ↦ inl e | inr (x, i, e) ↦ inr (x, inr i, e) ])
]

highest_end-le :
    (a : ℕ) (ms : List BootModule) (safe : ℕ) → safe ≤ a → EndBelow a ms → highest_end ms safe ≤ a
unfolding highest_end
highest_end-le a [] safe h e = h
highest_end-le a (m ∷ ms) safe h (e, es) =
    highest_end-le a ms (if ltb safe m.mod_end then m.mod_end else safe) (ground (arith, h, e)) es

pub safe_end-le :
    (a kernel_end : ℕ) (mbi : BootInfo)
    → kernel_end ≤ a
    → EndBelow a mbi.mods
    → safe_end kernel_end mbi ≤ a
unfolding safe_end
safe_end-le a kernel_end mbi h e = ground (arith, h, highest_end-le a mbi.mods kernel_end h e)

safe_end-ge : (kernel_end : ℕ) (mbi : BootInfo) → kernel_end ≤ safe_end kernel_end mbi
unfolding safe_end
safe_end-ge kernel_end mbi = ground (arith, (highest_end_lem mbi.mods kernel_end).0)

safe_end_flagged :
    (kernel_end : ℕ) (mbi : BootInfo) (m : BootModule) (ms : List BootModule)
    → IsFlagged mbi
    → mbi.mods ≡ m ∷ ms
    → safe_end kernel_end mbi ≡ highest_end mbi.mods kernel_end
unfolding safe_end
safe_end_flagged kernel_end mbi m ms f e = rw (flagged-has_modules mbi m ms f e) refl

safe_end-EndBelow :
    (kernel_end : ℕ) (mbi : BootInfo) (ms : List BootModule)
    → IsFlagged mbi
    → mbi.mods ≡ ms
    → EndBelow (safe_end kernel_end mbi) ms
safe_end-EndBelow kernel_end mbi [] f e = tt
safe_end-EndBelow kernel_end mbi (m ∷ ms) f e =
    subst (λ x. EndBelow x (m ∷ ms)) (sym (safe_end_flagged kernel_end mbi m ms f e))
      (subst (EndBelow (highest_end mbi.mods kernel_end)) e (highest_end_lem mbi.mods kernel_end).1)

safe_end_cases :
    (kernel_end : ℕ) (mbi : BootInfo)
    → (safe_end kernel_end mbi ≡ kernel_end)
      ⊎ (IsFlagged mbi
          × ((m : BootModule) × IsIn m mbi.mods × (safe_end kernel_end mbi ≡ m.mod_end)))
unfolding safe_end
safe_end_cases kernel_end mbi = elim (Bool-cases (has_modules mbi)) [
  | inl h ↦ rw (h) (elim (highest_end_cases mbi.mods kernel_end) [
    | inl e ↦ inl e
    | inr found ↦ inr (has_modules-IsFlagged mbi h, found)
  ])
  | inr h ↦ rw (h) (inl refl)
]

heap_base_rounded :
    (kernel_end : ℕ) (mbi : BootInfo)
    → safe_end kernel_end mbi + 0xFFF < 2 ^ 32
    → let w = safe_end kernel_end mbi + 0xFFF in heap_base kernel_end mbi ≡ w - w % 4096
unfolding heap_base
heap_base_rounded kernel_end mbi h =
    ground (arith, bit_and_page 12 32 (add32 (safe_end kernel_end mbi) 0xFFF))

-- A kernel and modules that end by 0x400000 leave the heap's start there.
pub heap_base-le :
    (kernel_end : ℕ) (mbi : BootInfo)
    → kernel_end ≤ 0x400000
    → EndBelow 0x400000 mbi.mods
    → heap_base kernel_end mbi ≤ 0x400000
heap_base-le kernel_end mbi k es =
    let bound = safe_end-le 0x400000 kernel_end mbi k es in
    omega (arith, bound, heap_base_rounded kernel_end mbi (omega (arith, bound)))

-- If neither the kernel nor a module ends above 0xFFFFF000, the address of the heap is a multiple
-- of 4096 that is at or behind the end of the kernel and, if bit 3 of the flags is set, of every
-- module; and it is less than a page behind the end of the kernel, or bit 3 is set and it is less
-- than a page behind the end of some module.
pub heap_base_behind :
    (kernel_end : ℕ) (mbi : BootInfo)
    → kernel_end ≤ 0xFFFFF000
    → EndBelow 0xFFFFF000 mbi.mods
    → let base = heap_base kernel_end mbi in
      (base % 4096 ≡ 0)
      × (kernel_end ≤ base)
      × (IsFlagged mbi → EndBelow base mbi.mods)
      × ((base < kernel_end + 4096)
          ⊎ (IsFlagged mbi × ((m : BootModule) × IsIn m mbi.mods × (base < m.mod_end + 4096))))
heap_base_behind kernel_end mbi k es =
    let bound = safe_end-le 0xFFFFF000 kernel_end mbi k es in
    let e = heap_base_rounded kernel_end mbi (omega (arith, bound)) in
    let ge = safe_end-ge kernel_end mbi in
    (
      omega (arith, e),
      omega (arith, e, ge),
      λ f.
          EndBelow-le (safe_end kernel_end mbi) (heap_base kernel_end mbi) mbi.mods
            (omega (arith, e)) (safe_end-EndBelow kernel_end mbi mbi.mods f refl),
      elim (safe_end_cases kernel_end mbi) [
        | inl s ↦ inl (omega (arith, e, s))
        | inr (f, (m, i, s)) ↦ inr (f, (m, i, omega (arith, e, s)))
      ],
    )
