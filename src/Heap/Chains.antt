-- ===== src/Heap/Chains.antt =====
-- kernel/mm/heap.c: a chain of headers is kept by writes elsewhere, and its blocks fit in the heap.
use lightstreak_os.Base.{
  ℕ, ◌+◌, ◌*◌, ◌%◌, ◌≤◌, ◌≡◌, refl, ◌⊎◌, inl, inr, arith, List, [], ◌∷◌, length,
}
use lightstreak_os.Heap.{heap_magic, hdr_size, BlockHdr}
use lightstreak_os.Heap.Blocks.{Block, Chain, bytes_used, flag}

-- Writes below the chain's start do not touch it.
pub Chain-frame :
    (h h' : ℕ → BlockHdr) (p a e : ℕ) (bs : List Block)
    → ((x : ℕ) → a ≤ x → h' x ≡ h x)
    → Chain h p a e bs
    → Chain h' p a e bs
unfolding Chain
Chain-frame h h' p a e [] f c = c
Chain-frame h h' p a e (b ∷ bs) f (at_p, magic, size, used, mult, rest) =
    let same = f a (omega arith) in
    (
      at_p,
      rw same magic,
      rw same size,
      rw same used,
      mult,
      rw same (
          Chain-frame h h' (h a).next (a + hdr_size + b.size) e bs (λ x q. f x (omega arith)) rest),
    )

-- The headers and payloads of a chain fit between its start and its end.
pub Chain-room :
    (h : ℕ → BlockHdr) (p a e : ℕ) (bs : List Block)
    → Chain h p a e bs
    → a + bytes_used bs + hdr_size * length bs ≤ e
unfolding Chain
Chain-room h p a e [] c = omega arith
Chain-room h p a e (b ∷ bs) (_, _, _, _, _, rest) =
    ground (arith, Chain-room h (h a).next (a + hdr_size + b.size) e bs rest)

-- The pointer to a chain is the chain's start, or 0 if it has no block.
pub Chain-pointer :
    (h : ℕ → BlockHdr) (p a e : ℕ) (bs : List Block) → Chain h p a e bs → (p ≡ 0) ⊎ (p ≡ a)
unfolding Chain
Chain-pointer h p a e [] c = inl c.0
Chain-pointer h p a e (b ∷ bs) c = inr c.0

-- A chain is built from its first header.
pub Chain-cons :
    (h : ℕ → BlockHdr) (hd : BlockHdr) (a e : ℕ) (b : Block) (bs : List Block)
    → h a ≡ hd
    → hd.magic ≡ heap_magic
    → hd.size ≡ b.size
    → hd.used ≡ flag b.used
    → b.size % 4 ≡ 0
    → Chain h hd.next (a + hdr_size + b.size) e bs
    → Chain h a a e (b ∷ bs)
unfolding Chain
Chain-cons h hd a e b bs same magic size used mult rest =
    (refl, rw same magic, rw same size, rw same used, mult, rw same rest)

-- The parts of a chain that is not empty.
pub Chain-uncons :
    (h : ℕ → BlockHdr) (p a e : ℕ) (b : Block) (bs : List Block)
    → Chain h p a e (b ∷ bs)
    → (p ≡ a)
      × ((h a).magic ≡ heap_magic)
      × ((h a).size ≡ b.size)
      × ((h a).used ≡ flag b.used)
      × (b.size % 4 ≡ 0)
      × Chain h (h a).next (a + hdr_size + b.size) e bs
unfolding Chain
Chain-uncons h p a e b bs c = c

pub Chain-nil : (h : ℕ → BlockHdr) (p a e : ℕ) → Chain h p a e [] → (p ≡ 0) × (a ≡ e)
unfolding Chain
Chain-nil h p a e c = c
