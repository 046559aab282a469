-- ===== src/Heap/Room.antt =====
-- kernel/mm/heap.c: where a free block is large enough, `kmalloc` and `kzalloc` give a payload, and
-- what is left over is still large; `kfree` does not make a free block smaller.
use lightstreak_os.Base.{
  ℕ, ◌+◌, ◌-◌, ◌*◌, ◌/◌, ◌^◌, ◌<◌, ◌≤◌, ◌≡◌, ◌≢◌, refl, sym, subst, ◌⊎◌, inl, inr, Bool, false,
  ◌&&◌, not, Option, none, some, arith, leb, ◌==◌, if◌then◌else◌, List, [], ◌∷◌, Bool-cases, dec_lt,
}
use lightstreak_os.Heap.{hdr_size, Heap, kmalloc, kzalloc, kfree, zero_fill}
use lightstreak_os.Heap.Blocks.{Block, fit, merge, release, UsedAt, IsHeap}
use lightstreak_os.Heap.Fit.{Fitted, fit_lem, behind, fit-skip, fit-split, fit-whole}
use lightstreak_os.Heap.Frame.{rewritten-IsHeap, kzalloc_given}
use lightstreak_os.Heap.Release.{kfree_refines}
use lightstreak_os.Heap.Search.{Allocated, kmalloc_refines}

-- Some free block of the row has `m` bytes.
abbrev pub HasRoom : ℕ → List Block → Type 0
HasRoom m [] = ⊥
HasRoom m (b ∷ bs) = ((b.used ≡ false) × (m ≤ b.size)) ⊎ HasRoom m bs

pub HasRoom-le : (m n : ℕ) (bs : List Block) → n ≤ m → HasRoom m bs → HasRoom n bs
HasRoom-le m n [] h r = absurd r
HasRoom-le m n (b ∷ bs) h (inl (free, big)) = inl (free, omega (arith, h, big))
HasRoom-le m n (b ∷ bs) h (inr r) = inr (HasRoom-le m n bs h r)

-- A fit was found, and some free block that is left has `m` bytes.
abbrev Roomy : ℕ → Option (ℕ × List Block) → Type 0
Roomy m none = ⊥
Roomy m (some (p, cs)) = HasRoom m cs

Roomy-skip : (m : ℕ) (b : Block) (o : Option (ℕ × List Block)) → Roomy m o → Roomy m (behind b o)
Roomy-skip m b none r = absurd r
Roomy-skip m b (some (p, cs)) r = inr r

fit-Roomy :
    (n m a : ℕ) (bs : List Block)
    → n + hdr_size + 4 ≤ m
    → HasRoom m bs
    → Roomy (m - n - hdr_size) (fit n a bs)
fit-Roomy n m a [] le r = absurd r
fit-Roomy n m a (b ∷ bs) le r = elim (Bool-cases (not b.used && leb n b.size)) [
  | inl fits ↦ elim (dec_lt b.size (n + hdr_size + 4)) [
    | yes small ↦
        subst (Roomy (m - n - hdr_size))
          (sym (fit-whole n a b bs (ground (arith, fits)) (ground (arith, fits)) small))
          (elim r [
            | inl (_, big) ↦ absurd (omega (arith, small, big, le))
            | inr later ↦ inr (HasRoom-le m (m - n - hdr_size) bs (omega arith) later)
          ])
    | no large ↦
        subst (Roomy (m - n - hdr_size))
          (sym (fit-split n a b bs (ground (arith, fits)) (omega (arith, large))))
          (elim r [
            | inl (_, big) ↦ inr (inl (refl, omega (arith, big)))
            | inr later ↦ inr (inr (HasRoom-le m (m - n - hdr_size) bs (omega arith) later))
          ])
  ]
  | inr skips ↦ subst (Roomy (m - n - hdr_size)) (sym (fit-skip n a b bs skips)) (
      Roomy-skip (m - n - hdr_size) b (fit n (a + hdr_size + b.size) bs) (
        fit-Roomy n m (a + hdr_size + b.size) bs le (elim r [
          | inl (free, big) ↦ absurd (ground (arith, free, big, skips, le))
          | inr later ↦ later
        ])))
]

merge-HasRoom : (m n : ℕ) (bs : List Block) → HasRoom m bs → HasRoom m (merge n bs)
merge-HasRoom m n [] r = absurd r
merge-HasRoom m n (b ∷ bs) r = elim (Bool-cases b.used) [
  | inl t ↦ subst (λ x. HasRoom m (merged x)) (sym t) (inr r)
  | inr f ↦
      subst (λ x. HasRoom m (merged x)) (sym f)
        (elim r [ inl (_, big) ↦ inl (refl, omega (arith, big)) | inr later ↦ inr later ])
]
  where
    merged : Bool → List Block
    merged x =
        if x
        then record { size = n; used = false } ∷ b ∷ bs
        else record { size = n + hdr_size + b.size; used = false } ∷ bs

release-HasRoom : (m p a : ℕ) (bs : List Block) → HasRoom m bs → HasRoom m (release p a bs)
unfolding release
release-HasRoom m p a [] r = absurd r
release-HasRoom m p a (b ∷ bs) r = elim (Bool-cases (a + hdr_size == p)) [
  | inl here ↦ subst (λ x. HasRoom m (released x)) (sym here) (freed r)
  | inr there ↦
      subst (λ x. HasRoom m (released x)) (sym there)
        (elim r [
          | inl large ↦ inl large
          | inr later ↦ inr (release-HasRoom m p (a + hdr_size + b.size) bs later)
        ])
]
  where
    unused : Bool → List Block
    unused y = if y then merge b.size bs else b ∷ bs

    released : Bool → List Block
    released x = if x then unused b.used else b ∷ release p (a + hdr_size + b.size) bs

    freed : HasRoom m (b ∷ bs) → HasRoom m (unused b.used)
    freed r = elim (Bool-cases b.used) [
      | inl t ↦
          subst (λ y. HasRoom m (unused y)) (sym t)
            (elim r [
              | inl (f, _) ↦ absurd (ground (arith, t, f))
              | inr later ↦ merge-HasRoom m b.size bs later
            ])
      | inr f ↦ subst (λ y. HasRoom m (unused y)) (sym f) r
    ]

-- An allocation gave a payload, and a free block of `m` bytes is left.
pub record IsServed (m : ℕ) (o : Option (ℕ × Heap)) : Type 0 where
  pub pointer : ℕ
  pub after : Heap
  pub result : o ≡ some (pointer, after)
  pub solid : pointer ≢ 0
  pub blocks : List Block
  pub valid : IsHeap after blocks
  pub room : HasRoom m blocks
  pub size : ℕ
  pub used : UsedAt after.heap_start_addr blocks pointer size

pub kmalloc-IsServed :
    (size m : ℕ) (s : Heap) (bs : List Block)
    → IsHeap s bs
    → 0 < size
    → size + 3 < 2 ^ 32
    → size + 24 ≤ m
    → HasRoom m bs
    → IsServed (m - size - 24) (kmalloc size s)
kmalloc-IsServed size m s bs v pos w le room =
    let (r, e, done) = kmalloc_refines size s bs v pos w in
    finish r (fit n s.heap_start_addr bs) e done (fit_lem n s.heap_start_addr bs)
      (fit-Roomy n m s.heap_start_addr bs (omega (arith, le)) room)
  where
    n : ℕ
    n = (size + 3) / 4 * 4

    finish :
        (r : ℕ × Heap) (o : Option (ℕ × List Block))
        → kmalloc size s ≡ some r
        → Allocated s o r
        → Fitted n s.heap_start_addr bs o
        → Roomy (m - n - hdr_size) o
        → IsServed (m - size - 24) (kmalloc size s)
    finish r none e done fitted roomy = absurd roomy
    finish r (some (q, cs)) e (at_q, valid, start) (le, (k, _, used, _), _, _) roomy = record {
      pointer = r.0;
      after = r.1;
      result = e;
      solid = λ z. absurd (omega (arith, at_q, z, le));
      blocks = cs;
      valid = valid;
      room = HasRoom-le (m - n - hdr_size) (m - size - 24) cs (omega arith) roomy;
      size = k;
      used =
          subst (λ x. UsedAt x cs r.0 k) (sym start)
            (subst (λ x. UsedAt s.heap_start_addr cs x k) (sym at_q) used);
    }

pub kzalloc-IsServed :
    (size m : ℕ) (s : Heap) (bs : List Block)
    → IsHeap s bs
    → 0 < size
    → size + 3 < 2 ^ 32
    → size + 24 ≤ m
    → HasRoom m bs
    → IsServed (m - size - 24) (kzalloc size s)
kzalloc-IsServed size m s bs v pos w le room =
    let g = kmalloc-IsServed size m s bs v pos w le room in
    record {
      pointer = g.pointer;
      after = record g.after { bytes = zero_fill size g.pointer g.after.bytes };
      result = kzalloc_given size g.pointer s g.after g.result g.solid;
      solid = g.solid;
      blocks = g.blocks;
      valid = rewritten-IsHeap (zero_fill size g.pointer g.after.bytes) g.after g.blocks g.valid;
      room = g.room;
      size = g.size;
      used = g.used;
    }

-- A valid heap with a free block of `m` bytes.
pub record IsRoomy (m : ℕ) (s : Heap) : Type 0 where
  pub blocks : List Block
  pub valid : IsHeap s blocks
  pub room : HasRoom m blocks

pub kfree-IsRoomy :
    (m p k : ℕ) (s : Heap) (bs : List Block)
    → IsHeap s bs
    → UsedAt s.heap_start_addr bs p k
    → HasRoom m bs
    → IsRoomy m (kfree p s)
kfree-IsRoomy m p k s bs v u r = record {
  blocks = release p s.heap_start_addr bs;
  valid = (kfree_refines p k s bs v u).0;
  room = release-HasRoom m p s.heap_start_addr bs r;
}
