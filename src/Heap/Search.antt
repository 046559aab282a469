-- ===== src/Heap/Search.antt =====
-- kernel/mm/heap.c: `kmalloc` ends, and refines the first fit of the row of blocks.
use lightstreak_os.Base.{
  ℕ, zero, suc, ◌+◌, ◌*◌, ◌/◌, ◌%◌, ◌^◌, ◌<◌, ◌≤◌, ◌≡◌, ◌≢◌, refl, inl, inr, false, ◌&&◌, not,
  Option, none, some, arith, leb, ◌==◌, List, [], ◌∷◌, length, subst, Bool-cases, sub32, sym, ◌∙◌,
  dec_lt,
}
use lightstreak_os.Heap.{heap_magic, hdr_size, align4, Heap, place, search_fit, kmalloc}
use lightstreak_os.Heap.Blocks.{Block, Chain, bytes_used, fit, IsHeap}
use lightstreak_os.Heap.Chains.{Chain-room, Chain-cons, Chain-uncons, Chain-nil}
use lightstreak_os.Heap.Fit.{behind, fit-skip, fit-split, fit-whole, fit-nil}
use lightstreak_os.Heap.Alloc.{Searched, place_whole, place_split, align4_lem, align4_wraps}

module _ (n : ℕ) (s : Heap) where
  search_fit-hit :
      (fuel a : ℕ)
      → a ≢ 0
      → (s.hdr a).magic ≡ heap_magic
      → (s.hdr a).used ≡ 0
      → n ≤ (s.hdr a).size
      → search_fit (suc fuel) n a s ≡ some (place n a s)
  unfolding search_fit
  search_fit-hit fuel a pos magic free le = ground arith

  search_fit-skip :
      (fuel a : ℕ)
      → a ≢ 0
      → (s.hdr a).magic ≡ heap_magic
      → (s.hdr a).used == 0 && leb n (s.hdr a).size ≡ false
      → search_fit (suc fuel) n a s ≡ search_fit fuel n (s.hdr a).next s
  unfolding search_fit
  search_fit-skip fuel a pos magic busy = ground arith

  -- The search passes over a block that does not fit.
  Searched-skip :
      (a : ℕ) (b : Block) (bs : List Block) (o : Option (ℕ × List Block)) (r : ℕ × Heap)
      → Chain s.hdr a a s.heap_end_addr (b ∷ bs)
      → Searched s (s.hdr a).next (a + hdr_size + b.size) bs o r
      → Searched s a a (b ∷ bs) (behind b o) r
  Searched-skip a b bs none r c h = h
  Searched-skip a b bs (some (q, cs)) r c (at_q, chain, frame, sum, head, start, stop) =
      let (_, magic, size, used, mult, next) = Chain-uncons s.hdr a a s.heap_end_addr b bs c in
      (
        at_q,
        Chain-cons r.1.hdr (s.hdr a) a s.heap_end_addr b cs (frame a (omega arith)) magic size used
            mult chain,
        λ x p. frame x (omega arith),
        omega arith,
        head,
        start,
        stop,
      )

  search_fit-nil : (fuel : ℕ) → search_fit (suc fuel) n 0 s ≡ some (0, s)
  unfolding search_fit
  search_fit-nil fuel = refl

  -- The search returns, and has done what the row's first fit says.
  abbrev Returns : ℕ → ℕ → ℕ → List Block → Type 0
  Returns fuel p a bs =
      (r : ℕ × Heap) × (search_fit fuel n p s ≡ some r) × Searched s p a bs (fit n a bs) r

  hit :
      (fuel a : ℕ) (b : Block) (bs : List Block)
      → s.heap_end_addr < 2 ^ 32
      → 4 ≤ a
      → n % 4 ≡ 0
      → s.heap_used ≤ a + bytes_used (b ∷ bs)
      → Chain s.hdr a a s.heap_end_addr (b ∷ bs)
      → b.used ≡ false
      → n ≤ b.size
      → Returns (suc fuel) a a (b ∷ bs)
  hit fuel a b bs w pos al u c free le =
      let (_, magic, size, used, _, _) = Chain-uncons s.hdr a a s.heap_end_addr b bs c in
      (
        place n a s,
        search_fit-hit fuel a (omega arith) magic (ground arith) (omega arith),
        elim (dec_lt b.size (n + hdr_size + 4)) [
          | yes small ↦
              subst (λ o. Searched s a a (b ∷ bs) o (place n a s))
                (sym (fit-whole n a b bs free le small))
                (place_whole n s a b bs w pos u free le small c)
          | no big ↦
              subst (λ o. Searched s a a (b ∷ bs) o (place n a s))
                (sym (fit-split n a b bs free (omega arith)))
                (place_split n s a b bs w pos al u free (omega arith) c)
        ],
      )

  search_fit_lem :
      (fuel p a : ℕ) (bs : List Block)
      → s.heap_end_addr < 2 ^ 32
      → 4 ≤ a
      → n % 4 ≡ 0
      → s.heap_used ≤ a + bytes_used bs
      → length bs < fuel
      → Chain s.hdr p a s.heap_end_addr bs
      → Returns fuel p a bs
  search_fit_lem zero p a bs w pos al u f c = absurd (omega arith)
  search_fit_lem (suc fuel) p a [] w pos al u f c =
      let (null, _) = Chain-nil s.hdr p a s.heap_end_addr c in
      (
        (0, s),
        subst (λ q. search_fit (suc fuel) n q s ≡ some (0, s)) (sym null) (search_fit-nil fuel),
        subst (λ o. Searched s p a [] o (0, s)) (sym (fit-nil n a)) refl,
      )
  search_fit_lem (suc fuel) p a (b ∷ bs) w pos al u f c =
      let (at_p, magic, size, used, _, next) = Chain-uncons s.hdr p a s.heap_end_addr b bs c in
      let c' = subst (λ q. Chain s.hdr q a s.heap_end_addr (b ∷ bs)) at_p c in
      subst (λ q. Returns (suc fuel) q a (b ∷ bs)) (sym at_p)
        (elim (Bool-cases (not b.used && leb n b.size)) [
          | inl fits ↦ hit fuel a b bs w pos al u c' (ground arith) (ground arith)
          | inr skips ↦
              let (r, e, done) =
                search_fit_lem fuel (s.hdr a).next (a + hdr_size + b.size) bs w (omega arith) al
                  (ground arith) (omega arith) next in
              (
                r,
                search_fit-skip fuel a (omega arith) magic (ground arith) ∙ e,
                subst (λ o. Searched s a a (b ∷ bs) o r) (sym (fit-skip n a b bs skips))
                    (Searched-skip a b bs _ r c' done),
              )
        ])

-- What `kmalloc` may do to a valid heap, given what first fit does to its row.
abbrev pub Allocated : Heap → Option (ℕ × List Block) → ℕ × Heap → Type 0
Allocated s none r = r ≡ (0, s)
Allocated s (some (q, cs)) r = (r.0 ≡ q) × IsHeap r.1 cs × (r.1.heap_start_addr ≡ s.heap_start_addr)

-- The same for the size that `align4` gives.
kmalloc_at :
    (size n : ℕ) (s : Heap) (bs : List Block)
    → IsHeap s bs
    → 0 < size
    → align4 size ≡ n
    → n % 4 ≡ 0
    → (r : ℕ × Heap) × (kmalloc size s ≡ some r) × Allocated s (fit n s.heap_start_addr bs) r
unfolding kmalloc
kmalloc_at size n s bs v pos al mult =
    let room = Chain-room s.hdr s.heap_head s.heap_start_addr s.heap_end_addr bs v.chain in
    let start_pos = v.start_pos in
    let start_aligned = v.start_aligned in
    let counted = v.counted in
    let end_lt = v.end_lt in
    let (r, e, done) =
      search_fit_lem n s (suc (sub32 s.heap_end_addr s.heap_start_addr)) s.heap_head
        s.heap_start_addr bs v.end_lt (omega arith) mult (omega arith) (omega arith) v.chain in
    (r, ground arith, finish r (fit n s.heap_start_addr bs) done)
  where
    finish :
        (r : ℕ × Heap) (o : Option (ℕ × List Block))
        → Searched s s.heap_head s.heap_start_addr bs o r
        → Allocated s o r
    finish r none done = done
    finish r (some (q, cs)) (at_q, chain, frame, sum, head, start, stop) = (
      at_q,
      record {
        chain = rw (head, start, stop) chain;
        start_pos = ground (arith, v.start_pos);
        start_aligned = ground (arith, v.start_aligned);
        end_lt = ground (arith, v.end_lt);
        counted = omega (arith, v.counted);
      },
      start,
    )

-- For a valid heap and a size above 0 that does not wrap when it is rounded up to four, `kmalloc`
-- returns, and its pointer and the blocks that it leaves are those of first fit over the list of
-- blocks; it returns NULL and changes nothing if there is no fit.
pub kmalloc_refines :
    (size : ℕ) (s : Heap) (bs : List Block)
    → IsHeap s bs
    → 0 < size
    → size + 3 < 2 ^ 32
    → (r : ℕ × Heap) × (kmalloc size s ≡ some r)
      × Allocated s (fit ((size + 3) / 4 * 4) s.heap_start_addr bs) r
kmalloc_refines size s bs v pos w =
    kmalloc_at size ((size + 3) / 4 * 4) s bs v pos (align4_lem size w) (omega arith)

-- On a valid heap, a request of 2^32 - 3 bytes or more wraps around to 0 bytes when it is rounded
-- up, and `kmalloc` does for it what first fit does for 0 bytes: any free block serves.
pub kmalloc_wraps :
    (size : ℕ) (s : Heap) (bs : List Block)
    → IsHeap s bs
    → 2 ^ 32 ≤ size + 3
    → size < 2 ^ 32
    → (r : ℕ × Heap) × (kmalloc size s ≡ some r) × Allocated s (fit 0 s.heap_start_addr bs) r
kmalloc_wraps size s bs v big w =
    kmalloc_at size 0 s bs v (omega arith) (align4_wraps size big w) refl
