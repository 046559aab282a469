-- ===== src/Heap/Safe.antt =====
-- kernel/mm/heap.c: what a caller of `kmalloc` and `kzalloc` may rely on.
use lightstreak_os.Base.{
  ℕ, zero, suc, ◌+◌, ◌*◌, ◌/◌, ◌%◌, ◌^◌, ◌<◌, ◌≤◌, ◌≡◌, ◌≢◌, refl, ◌⊎◌, inl, inr, ◌&&◌, Option,
  none, some, arith, ltb, leb, if◌then◌else◌, List, [], ◌∷◌, subst, Option-cases, update, sub32, ap,
  sym, for_range,
}
use lightstreak_os.Heap.{
  hdr_size, BlockHdr, Heap, place, search_fit, kmalloc, kzalloc, zero_fill, align4,
}
use lightstreak_os.Heap.Blocks.{Block, Chain, fit, UsedAt, IsHeap}
use lightstreak_os.Heap.Chains.{Chain-uncons}
use lightstreak_os.Heap.Fit.{fit_lem, Fitted, NoRoom}
use lightstreak_os.Heap.Release.{UsedAt_room}
use lightstreak_os.Heap.Search.{kmalloc_refines, Allocated}

-- The payloads of a valid row are aligned as its start is.
UsedAt_aligned :
    (h : ℕ → BlockHdr) (p a e q m : ℕ) (bs : List Block)
    → a % 4 ≡ 0
    → Chain h p a e bs
    → UsedAt a bs q m
    → q % 4 ≡ 0
UsedAt_aligned h p a e q m [] al c u = absurd u
UsedAt_aligned h p a e q m (b ∷ bs) al c (inl (t, at_q, k)) = omega arith
UsedAt_aligned h p a e q m (b ∷ bs) al c (inr u) =
    let (_, _, _, _, mult, next) = Chain-uncons h p a e b bs c in
    UsedAt_aligned h (h a).next (a + hdr_size + b.size) e q m bs (omega arith) next u

-- The payload `[p, p + size)` that `kmalloc` returned, in the new row `cs`.
pub record Given (s t : Heap) (bs cs : List Block) (p size : ℕ) : Type 0 where
  pub valid : IsHeap t cs
  pub start : t.heap_start_addr ≡ s.heap_start_addr
  pub used : (k : ℕ) × (size ≤ k) × UsedAt s.heap_start_addr cs p k
  pub aligned : p % 4 ≡ 0
  pub above : s.heap_start_addr + hdr_size ≤ p
  pub below : p + size ≤ t.heap_end_addr
  pub kept :
      (q m : ℕ)
      → UsedAt s.heap_start_addr bs q m
      → UsedAt s.heap_start_addr cs q m × ((q + m ≤ p) ⊎ (p + size + hdr_size ≤ q))

-- For a valid heap and a size above 0 that does not wrap when it is rounded up to four, `kmalloc`
-- returns: either NULL, with the heap unchanged and no free block large enough, or a word-aligned
-- payload inside the heap, disjoint from every payload in use, all of which are still in use, in a
-- heap that is valid again.
pub kmalloc_safe :
    (size : ℕ) (s : Heap) (bs : List Block)
    → IsHeap s bs
    → 0 < size
    → size + 3 < 2 ^ 32
    → (p : ℕ) × (t : Heap) × (kmalloc size s ≡ some (p, t))
      × (((p ≡ 0) × (t ≡ s) × NoRoom ((size + 3) / 4 * 4) bs)
          ⊎ ((cs : List Block) × Given s t bs cs p size))
kmalloc_safe size s bs v pos w =
    let (r, e, done) = kmalloc_refines size s bs v pos w in
    (r.0, r.1, e, finish r (fit n a bs) done (fit_lem n a bs))
  where
    n : ℕ
    n = (size + 3) / 4 * 4

    a : ℕ
    a = s.heap_start_addr

    finish :
        (r : ℕ × Heap) (o : Option (ℕ × List Block))
        → Allocated s o r
        → Fitted n a bs o
        → ((r.0 ≡ 0) × (r.1 ≡ s) × NoRoom n bs) ⊎ ((cs : List Block) × Given s r.1 bs cs r.0 size)
    finish r none e room = inl (ap (λ x. x.0) e, ap (λ x. x.1) e, room)
    finish r (some (q, cs)) (at_q, valid, start) (le, (k, big, used, _), kept, _) =
        let chain =
          subst (λ x. Chain r.1.hdr r.1.heap_head x r.1.heap_end_addr cs) start valid.chain in
        let al = v.start_aligned in
        inr (
          cs,
          record {
            valid = valid;
            start = start;
            used = (k, omega arith, subst (λ x. UsedAt a cs x k) (sym at_q) used);
            aligned = omega (
              arith,
              UsedAt_aligned r.1.hdr r.1.heap_head a r.1.heap_end_addr q k cs al chain used,
            );
            above = omega arith;
            below = omega (
              arith,
              (UsedAt_room r.1.hdr r.1.heap_head a r.1.heap_end_addr q k cs chain used).0,
            );
            kept = λ q' m u. ((kept q' m u).0, let far = (kept q' m u).1 in omega arith);
          },
        )

zero_fill_loop :
    (n i p x : ℕ) (bytes : ℕ → ℕ)
    → for_range n i (λ j mem. update mem (p + j) 0) bytes x
      ≡ (if leb (p + i) x && ltb x (p + i + n) then 0 else bytes x)
unfolding for_range
zero_fill_loop zero i p x bytes = ground arith
zero_fill_loop (suc n) i p x bytes =
    ground (arith, zero_fill_loop n (suc i) p x (update bytes (p + i) 0))

place-bytes : (n p : ℕ) (s : Heap) → (place n p s).1.bytes ≡ s.bytes
unfolding place
place-bytes n p s = refl

search_fit-bytes :
    (fuel n p : ℕ) (s : Heap) (r : ℕ × Heap) → search_fit fuel n p s ≡ some r → r.1.bytes ≡ s.bytes
unfolding search_fit
search_fit-bytes zero n p s r e = cc
search_fit-bytes (suc fuel) n p s r e =
    ground (arith, search_fit-bytes fuel n (s.hdr p).next s r, place-bytes n p s)

pub kmalloc-bytes :
    (size : ℕ) (s : Heap) (r : ℕ × Heap) → kmalloc size s ≡ some r → r.1.bytes ≡ s.bytes
unfolding kmalloc
kmalloc-bytes size s r e = ground (
  arith,
  search_fit-bytes (suc (sub32 s.heap_end_addr s.heap_start_addr)) (align4 size) s.heap_head s r,
)

-- Where `kzalloc` returns a payload that is not NULL, it has zeroed exactly the `size` bytes of
-- that payload.
pub kzalloc_zeroes :
    (size p x : ℕ) (s t : Heap)
    → kzalloc size s ≡ some (p, t)
    → p ≢ 0
    → t.bytes x ≡ (if leb p x && ltb x (p + size) then 0 else s.bytes x)
unfolding kzalloc zero_fill
kzalloc_zeroes size p x s t e ne = elim (Option-cases (kmalloc size s)) [
  | inl nothing ↦ absurd (ground arith)
  | inr (r, found) ↦ ground (
    arith,
    kmalloc-bytes size s r found,
    ap (λ f. f x) (kmalloc-bytes size s r found),
    zero_fill_loop size 0 p x r.1.bytes,
  )
]
