-- ===== src/Heap/Release.antt =====
-- kernel/mm/heap.c: `heap_init` and `kfree` keep a heap valid; what a free does to the other blocks.
use lightstreak_os.Base.{
  ℕ, ◌+◌, ◌-◌, ◌%◌, ◌^◌, ◌<◌, ◌≤◌, ◌≡◌, ◌≢◌, ◌↔◌, refl, inl, inr, Bool, true, false, arith, ◌==◌,
  if◌then◌else◌, List, [], ◌∷◌, subst, Bool-cases, sub32, sym,
}
use lightstreak_os.Heap.{hdr_size, heap_magic, BlockHdr, Heap, heap_init, kfree}
use lightstreak_os.Heap.Blocks.{Block, Chain, bytes_used, release, merge, UsedAt, IsHeap}
use lightstreak_os.Heap.Chains.{Chain-room, Chain-uncons}
use lightstreak_os.Heap.Fit.{UsedAt-le}
use lightstreak_os.Heap.Free.{freed, used_header, freed_lem}

-- Freeing a payload of `m` bytes lowers the bytes in use by `m`.
bytes_used-release :
    (a q m : ℕ) (bs : List Block)
    → UsedAt a bs q m
    → bytes_used (release q a bs) + m ≡ bytes_used bs
unfolding release
bytes_used-release a q m [] u = absurd u
bytes_used-release a q m (b ∷ bs) (inl (t, e, k)) =
    let here : (a + hdr_size == q) ≡ true = ground arith in
    rw (here, t) (ground (arith, bytes_used-merge b.size bs))
  where
    bytes_used-merge : (n : ℕ) (bs : List Block) → bytes_used (merge n bs) ≡ bytes_used bs
    bytes_used-merge n [] = refl
    bytes_used-merge n (b ∷ bs) = ground arith
bytes_used-release a q m (b ∷ bs) (inr u) =
    let behind = UsedAt-le (a + hdr_size + b.size) q m bs u in
    let there : (a + hdr_size == q) ≡ false = ground arith in
    rw there (omega (arith, bytes_used-release (a + hdr_size + b.size) q m bs u))

-- A row's blocks in use keep their places when a free block in front is merged.
UsedAt-merge :
    (a n q m : ℕ) (bs : List Block) → UsedAt a (merge n bs) q m ↔ UsedAt (a + hdr_size + n) bs q m
UsedAt-merge a n q m [] = (elim [ inl (t, _, _) ↦ cc | inr u ↦ u ], λ u. inr u)
UsedAt-merge a n q m (b ∷ bs) = elim (Bool-cases b.used) [
  | inl t ↦
      subst (λ x. UsedAt a (merged x) q m ↔ UsedAt (a + hdr_size + n) (b ∷ bs) q m) (sym t)
        (elim [ inl (f, _, _) ↦ cc | inr u ↦ u ], inr)
  | inr t ↦
      subst (λ x. UsedAt a (merged x) q m ↔ UsedAt (a + hdr_size + n) (b ∷ bs) q m) (sym t)
        (
          elim [ inl (f, _, _) ↦ cc | inr u ↦ inr (subst (λ k. UsedAt k bs q m) same u) ],
          elim [ inl (f, _, _) ↦ cc | inr u ↦ inr (subst (λ k. UsedAt k bs q m) (sym same) u) ],
        )
]
  where
    same : a + hdr_size + (n + hdr_size + b.size) ≡ a + hdr_size + n + hdr_size + b.size
    same = omega arith

    merged : Bool → List Block
    merged x =
        if x
        then record { size = n; used = false } ∷ b ∷ bs
        else record { size = n + hdr_size + b.size; used = false } ∷ bs

-- After a free the blocks in use are those from before, at their addresses and sizes, but the one
-- that was freed.
pub UsedAt-release :
    (a p k q m : ℕ) (bs : List Block)
    → UsedAt a bs p k
    → UsedAt a (release p a bs) q m ↔ (UsedAt a bs q m × (q ≢ p))
unfolding release
UsedAt-release a p k q m [] u = absurd u
UsedAt-release a p k q m (b ∷ bs) (inl (t, e, s)) =
    let here : (a + hdr_size == p) ≡ true = ground arith in
    let behind =
      λ (w : UsedAt (a + hdr_size + b.size) bs q m). UsedAt-le (a + hdr_size + b.size) q m bs w in
    rw (here, t)
      (
        λ w.
            let v = (UsedAt-merge a b.size q m bs).0 w in
            (inr v, let far = behind v in omega arith),
        λ (w, ne). elim w [
          | inl (_, e', _) ↦ absurd (ne (omega arith))
          | inr v ↦ (UsedAt-merge a b.size q m bs).1 v
        ],
      )
UsedAt-release a p k q m (b ∷ bs) (inr u) =
    let behind = UsedAt-le (a + hdr_size + b.size) p k bs u in
    let there : (a + hdr_size == p) ≡ false = ground arith in
    let ih = UsedAt-release (a + hdr_size + b.size) p k q m bs u in
    rw there (
      elim [ inl (t, e, s) ↦ (inl (t, e, s), omega arith) | inr w ↦ (inr (ih.0 w).0, (ih.0 w).1) ],
      λ (w, ne). elim w [ inl h ↦ inl h | inr v ↦ inr (ih.1 (v, ne)) ],
    )

-- `heap_init` of a word-aligned region below 2^32, not at 0 and with room for a header, leaves a
-- valid heap of one free block.
pub heap_init-IsHeap :
    (start size : ℕ) (s : Heap)
    → 0 < start
    → start % 4 ≡ 0
    → size % 4 ≡ 0
    → hdr_size ≤ size
    → start + size < 2 ^ 32
    → IsHeap (heap_init start size s) (record { size = size - hdr_size; used = false } ∷ [])
unfolding heap_init Chain
heap_init-IsHeap start size s pos al mult room w = record {
  chain =
      (refl, ground arith, ground arith, ground arith, omega arith, (ground arith, omega arith));
  start_pos = pos;
  start_aligned = al;
  end_lt = omega arith;
  counted = refl;
}

-- A payload in use lies below the end of the heap.
pub UsedAt_room :
    (h : ℕ → BlockHdr) (p a e q m : ℕ) (bs : List Block)
    → Chain h p a e bs
    → UsedAt a bs q m
    → (q + m ≤ e) × (m ≤ bytes_used bs)
UsedAt_room h p a e q m [] c u = absurd u
UsedAt_room h p a e q m (b ∷ bs) c (inl (t, at_q, k)) =
    let (_, _, _, _, _, next) = Chain-uncons h p a e b bs c in
    (omega (arith, Chain-room h (h a).next (a + hdr_size + b.size) e bs next), ground arith)
UsedAt_room h p a e q m (b ∷ bs) c (inr u) =
    let (_, _, _, _, _, next) = Chain-uncons h p a e b bs c in
    omega (arith, UsedAt_room h (h a).next (a + hdr_size + b.size) e q m bs next u)

kfree_lem :
    (p : ℕ) (s : Heap)
    → hdr_size < p
    → p < 2 ^ 32
    → (s.hdr (p - hdr_size)).magic ≡ heap_magic
    → (s.hdr (p - hdr_size)).used ≡ 1
    → (s.hdr (p - hdr_size)).size ≤ s.heap_used
    → s.heap_used < 2 ^ 32
    → kfree p s ≡ record s {
      heap_used = s.heap_used - (s.hdr (p - hdr_size)).size;
      hdr = freed (p - hdr_size) s.hdr;
    }
unfolding kfree
kfree_lem p s pos w magic used le small = rw (blk, not_null, genuine, busy) (rw sum)
  where
    blk : sub32 p hdr_size ≡ p - hdr_size
    blk = omega arith

    not_null : (p == 0) ≡ false
    not_null = ground arith

    genuine : ((s.hdr (p - hdr_size)).magic == heap_magic) ≡ true
    genuine = ground arith

    busy : ((s.hdr (p - hdr_size)).used == 0) ≡ false
    busy = ground arith

    sum : sub32 s.heap_used (s.hdr (p - hdr_size)).size ≡ s.heap_used - (s.hdr (p - hdr_size)).size
    sum = omega arith

-- `kfree` of a block in use keeps the heap valid, and does to its row what `release` does.
pub kfree_refines :
    (p m : ℕ) (s : Heap) (bs : List Block)
    → IsHeap s bs
    → UsedAt s.heap_start_addr bs p m
    → IsHeap (kfree p s) (release p s.heap_start_addr bs)
      × ((kfree p s).heap_start_addr ≡ s.heap_start_addr)
kfree_refines p m s bs v u =
    let a = s.heap_start_addr in
    let (magic, size, used) = used_header s.hdr s.heap_head a s.heap_end_addr p m bs v.chain u in
    let (inside, le) = UsedAt_room s.hdr s.heap_head a s.heap_end_addr p m bs v.chain u in
    let room = Chain-room s.hdr s.heap_head a s.heap_end_addr bs v.chain in
    let behind = UsedAt-le a p m bs u in
    subst (λ t. IsHeap t (release p a bs) × (t.heap_start_addr ≡ a))
      (sym (kfree_lem p s (omega arith) (omega arith) magic used (omega arith) (omega arith)))
      (
        record {
          chain =
              freed_lem s.hdr s.heap_head a s.heap_end_addr p m bs v.end_lt v.start_pos v.chain u;
          start_pos = v.start_pos;
          start_aligned = v.start_aligned;
          end_lt = v.end_lt;
          counted = omega (arith, bytes_used-release a p m bs u);
        },
        refl,
      )

-- In a valid heap, `kfree` of a payload in use leaves a valid heap at the same start, whose
-- payloads in use are exactly the other ones, at their addresses and sizes.
pub kfree_safe :
    (p k : ℕ) (s : Heap) (bs : List Block)
    → IsHeap s bs
    → UsedAt s.heap_start_addr bs p k
    → (cs : List Block) × IsHeap (kfree p s) cs
      × ((kfree p s).heap_start_addr ≡ s.heap_start_addr)
      × ((q m : ℕ) → UsedAt s.heap_start_addr cs q m ↔ (UsedAt s.heap_start_addr bs q m × (q ≢ p)))
kfree_safe p k s bs v u = (
  release p s.heap_start_addr bs,
  (kfree_refines p k s bs v u).0,
  (kfree_refines p k s bs v u).1,
  λ q m. UsedAt-release s.heap_start_addr p k q m bs u,
)

-- A second `kfree` of a pointer whose header still stands there changes nothing.
pub kfree_twice : (p : ℕ) (s : Heap) → (s.hdr (sub32 p hdr_size)).used ≡ 0 → kfree p s ≡ s
unfolding kfree
kfree_twice p s free = ground arith
