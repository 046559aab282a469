-- ===== src/Heap/Alloc.antt =====
-- kernel/mm/heap.c: `kmalloc` does to the row of blocks what `fit` says.
use lightstreak_os.Base.{
  ℕ, ◌+◌, ◌-◌, ◌*◌, ◌/◌, ◌%◌, ◌^◌, ◌<◌, ◌≤◌, ◌≡◌, refl, true, false, Option, none, some, arith, leb,
  List, ◌∷◌, subst, update, add32, sub32, sym, ==_self,
}
use lightstreak_os.Base.Bits.{bit_and_page}
use lightstreak_os.Heap.{heap_magic, hdr_size, align4, BlockHdr, Heap, split, place}
use lightstreak_os.Heap.Blocks.{Block, Chain, bytes_used}
use lightstreak_os.Heap.Chains.{Chain-frame, Chain-room, Chain-cons, Chain-uncons}

-- `align4` rounds up to a multiple of four, below the last three words.
pub align4_lem : (x : ℕ) → x + 3 < 2 ^ 32 → align4 x ≡ (x + 3) / 4 * 4
unfolding align4
align4_lem x h = ground (arith, bit_and_page 2 32 (add32 x 3))

pub align4_wraps : (x : ℕ) → 2 ^ 32 ≤ x + 3 → x < 2 ^ 32 → align4 x ≡ 0
unfolding align4
align4_wraps x h w = ground (arith, bit_and_page 2 32 (add32 x 3))

-- What a search from a position `a` in the heap of `s` has done when it returns `r`, where the
-- row's first fit there is `o`.
abbrev pub Searched : Heap → ℕ → ℕ → List Block → Option (ℕ × List Block) → ℕ × Heap → Type 0
Searched s p a bs none r = r ≡ (0, s)
Searched s p a bs (some (q, cs)) r =
    (r.0 ≡ q)
    × Chain r.1.hdr p a s.heap_end_addr cs
    × ((x : ℕ) → x < a → r.1.hdr x ≡ s.hdr x)
    × (r.1.heap_used + bytes_used bs ≡ s.heap_used + bytes_used cs)
    × (r.1.heap_head ≡ s.heap_head)
    × (r.1.heap_start_addr ≡ s.heap_start_addr)
    × (r.1.heap_end_addr ≡ s.heap_end_addr)

-- The headers after the block at `a` was marked as used.
abbrev marked : ℕ → (ℕ → BlockHdr) → ℕ → BlockHdr
marked a h = update h a (record (h a) { used = 1 })

place_whole_lem :
    (n a : ℕ) (s : Heap)
    → n + hdr_size + 4 < 2 ^ 32
    → (s.hdr a).size < n + hdr_size + 4
    → a + hdr_size < 2 ^ 32
    → s.heap_used + (s.hdr a).size < 2 ^ 32
    → place n a s
      ≡ (a + hdr_size, record s { hdr = marked a s.hdr; heap_used = s.heap_used + (s.hdr a).size })
unfolding place
place_whole_lem n a s w small f g = rw (no_split, ==_self a, offset) (rw sum refl)
  where
    no_split : leb (add32 (add32 n hdr_size) 4) (s.hdr a).size ≡ false
    no_split = ground arith

    offset : add32 a hdr_size ≡ a + hdr_size
    offset = omega arith

    sum : add32 s.heap_used (s.hdr a).size ≡ s.heap_used + (s.hdr a).size
    sum = omega arith

-- The header of the block that a split leaves behind.
abbrev left_over : ℕ → ℕ → (ℕ → BlockHdr) → BlockHdr
left_over n a h = record {
  magic = heap_magic;
  size = (h a).size - n - hdr_size;
  used = 0;
  next = (h a).next;
}

-- The headers after the block at `a` was cut to `n` bytes.
abbrev cut : ℕ → ℕ → (ℕ → BlockHdr) → ℕ → BlockHdr
cut n a h =
    let h' = update h (a + hdr_size + n) (left_over n a h) in
    update h' a (record (h' a) { size = n; next = a + hdr_size + n })

place_split_lem :
    (n a : ℕ) (s : Heap)
    → n + hdr_size + 4 ≤ (s.hdr a).size
    → (s.hdr a).size < 2 ^ 32
    → a + hdr_size + n < 2 ^ 32
    → s.heap_used + n < 2 ^ 32
    → place n a s
      ≡ (a + hdr_size, record s { hdr = marked a (cut n a s.hdr); heap_used = s.heap_used + n })
unfolding place split
place_split_lem n a s big w f g = rw (room, ==_self a, offset, start) (rw (sum, size))
  where
    room : leb (add32 (add32 n hdr_size) 4) (s.hdr a).size ≡ true
    room = ground arith

    offset : add32 a hdr_size ≡ a + hdr_size
    offset = omega arith

    start : (a + hdr_size + n) % 2 ^ 32 ≡ a + hdr_size + n
    start = omega arith

    sum : add32 s.heap_used n ≡ s.heap_used + n
    sum = omega arith

    size : sub32 (sub32 (s.hdr a).size n) hdr_size ≡ (s.hdr a).size - n - hdr_size
    size = omega arith

module _ (n : ℕ) (s : Heap) where
  -- The block at `a` is free and large enough, with no room to split it.
  pub place_whole :
      (a : ℕ) (b : Block) (bs : List Block)
      → s.heap_end_addr < 2 ^ 32
      → 4 ≤ a
      → s.heap_used ≤ a + bytes_used (b ∷ bs)
      → b.used ≡ false
      → n ≤ b.size
      → b.size < n + hdr_size + 4
      → Chain s.hdr a a s.heap_end_addr (b ∷ bs)
      → Searched s a a
          (b ∷ bs)
          (some (a + hdr_size, record { size = b.size; used = true } ∷ bs))
          (place n a s)
  place_whole a b bs w pos u free le small c =
      let (_, magic, size, _, mult, next) = Chain-uncons s.hdr a a s.heap_end_addr b bs c in
      let rest = Chain-room s.hdr (s.hdr a).next (a + hdr_size + b.size) s.heap_end_addr bs next in
      subst
        (Searched s a a (b ∷ bs) (some (a + hdr_size, record { size = b.size; used = true } ∷ bs)))
        (sym (place_whole_lem n a s (omega arith) (omega arith) (omega arith) (ground arith)))
        (
          refl,
          Chain-cons (marked a s.hdr) (record (s.hdr a) { used = 1 }) a s.heap_end_addr
              (record { size = b.size; used = true }) bs (ground arith) magic size refl mult
              (Chain-frame s.hdr (marked a s.hdr) (s.hdr a).next (a + hdr_size + b.size)
                s.heap_end_addr bs (λ x q. ground arith) next),
          λ x q. ground arith,
          ground arith,
          refl,
          refl,
          refl,
        )

  -- The block at `a` is free and large enough to split it.
  pub place_split :
      (a : ℕ) (b : Block) (bs : List Block)
      → s.heap_end_addr < 2 ^ 32
      → 4 ≤ a
      → n % 4 ≡ 0
      → s.heap_used ≤ a + bytes_used (b ∷ bs)
      → b.used ≡ false
      → n + hdr_size + 4 ≤ b.size
      → Chain s.hdr a a s.heap_end_addr (b ∷ bs)
      → Searched s a a
          (b ∷ bs)
          (some (
            a + hdr_size,
            record { size = n; used = true }
                ∷ record { size = b.size - n - hdr_size; used = false }
                ∷ bs,
          ))
          (place n a s)
  place_split a b bs w pos al u free big c =
      let (_, magic, size, _, mult, next) = Chain-uncons s.hdr a a s.heap_end_addr b bs c in
      let rest = Chain-room s.hdr (s.hdr a).next (a + hdr_size + b.size) s.heap_end_addr bs next in
      let h = marked a (cut n a s.hdr) in
      let tail =
        Chain-frame s.hdr h (s.hdr a).next (a + hdr_size + b.size) s.heap_end_addr bs
          (λ x q. ground arith) next in
      let second =
        Chain-cons h (left_over n a s.hdr) (a + hdr_size + n) s.heap_end_addr
          (record { size = b.size - n - hdr_size; used = false }) bs (ground arith) refl
          (omega arith) refl (omega arith)
          (subst (λ k. Chain h (s.hdr a).next k s.heap_end_addr bs) (omega arith) tail) in
      subst (Searched s a a (b ∷ bs) (some (a + hdr_size, _)))
        (sym (place_split_lem n a s (omega arith) (omega arith) (omega arith) (ground arith)))
        (
          refl,
          Chain-cons h
              (record { magic = (s.hdr a).magic; size = n; used = 1; next = a + hdr_size + n }) a
              s.heap_end_addr (record { size = n; used = true }) _ (ground arith) magic refl refl al
              second,
          λ x q. ground arith,
          ground arith,
          refl,
          refl,
          refl,
        )
