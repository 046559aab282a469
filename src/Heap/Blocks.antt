-- ===== src/Heap/Blocks.antt =====
-- kernel/mm/heap.c, seen from outside: a heap is a row of blocks, each with its payload's size and
-- whether it is in use. `fit` and `release` say what `kmalloc` and `kfree` do to the row.
use lightstreak_os.Base.{
  ℕ, ◌+◌, ◌-◌, ◌%◌, ◌^◌, ◌<◌, ◌≡◌, ◌⊎◌, Bool, true, false, ◌&&◌, not, Option, none, some, leb, ◌==◌,
  if◌then◌else◌, List, [], ◌∷◌,
}
use lightstreak_os.Heap.{heap_magic, hdr_size, BlockHdr, Heap}

pub record Block : Type 0 where
  pub size : ℕ
  pub used : Bool

abbrev pub flag : Bool → ℕ
flag true = 1
flag false = 0

-- The headers from `p` on are those of a row of blocks that starts at address `a` and ends at `e`.
unfoldable pub Chain : (ℕ → BlockHdr) → ℕ → ℕ → ℕ → List Block → Type 0
Chain h p a e [] = (p ≡ 0) × (a ≡ e)
Chain h p a e (b ∷ bs) =
    (p ≡ a)
    × ((h a).magic ≡ heap_magic)
    × ((h a).size ≡ b.size)
    × ((h a).used ≡ flag b.used)
    × (b.size % 4 ≡ 0)
    × Chain h (h a).next (a + hdr_size + b.size) e bs

abbrev pub bytes_used : List Block → ℕ
bytes_used [] = 0
bytes_used (b ∷ bs) = (if b.used then b.size else 0) + bytes_used bs

pub record IsHeap (s : Heap) (bs : List Block) : Type 0 where
  pub chain : Chain s.hdr s.heap_head s.heap_start_addr s.heap_end_addr bs
  pub start_pos : 0 < s.heap_start_addr
  pub start_aligned : s.heap_start_addr % 4 ≡ 0
  pub end_lt : s.heap_end_addr < 2 ^ 32
  pub counted : s.heap_used ≡ bytes_used bs

-- First fit of `n` bytes in a row that starts at `a`: the payload's address and the new row. What
-- is left over is split off if it holds a header and four bytes.
unfoldable pub fit : ℕ → ℕ → List Block → Option (ℕ × List Block)
fit n a [] = none
fit n a (b ∷ bs) =
    let rest = fit n (a + hdr_size + b.size) bs in
    if not b.used && leb n b.size
    then some (
      a + hdr_size,
      (if leb (n + hdr_size + 4) b.size
          then record { size = n; used = true }
            ∷ record { size = b.size - n - hdr_size; used = false }
            ∷ bs
          else record { size = b.size; used = true } ∷ bs),
    )
    else elim rest [ none ↦ none | some (p, cs) ↦ some (p, b ∷ cs) ]

-- A block in front of a free one takes it in.
abbrev pub merge : ℕ → List Block → List Block
merge n [] = record { size = n; used = false } ∷ []
merge n (b ∷ bs) =
    if b.used
    then record { size = n; used = false } ∷ b ∷ bs
    else record { size = n + hdr_size + b.size; used = false } ∷ bs

-- The block whose payload is at `p` becomes free.
unfoldable pub release : ℕ → ℕ → List Block → List Block
release p a [] = []
release p a (b ∷ bs) =
    let rest = release p (a + hdr_size + b.size) bs in
    if a + hdr_size == p then (if b.used then merge b.size bs else b ∷ bs) else b ∷ rest

-- A block in use with its payload of `m` bytes at `q`.
abbrev pub UsedAt : ℕ → List Block → ℕ → ℕ → Type 0
UsedAt a [] q m = ⊥
UsedAt a (b ∷ bs) q m =
    ((b.used ≡ true) × (q ≡ a + hdr_size) × (m ≡ b.size)) ⊎ UsedAt (a + hdr_size + b.size) bs q m
