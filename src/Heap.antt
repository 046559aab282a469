-- ===== src/Heap.antt =====
-- kernel/mm/heap.c: the first-fit free-list allocator. The memory that the allocator writes is two
-- functions of the address: `hdr` gives the block header that starts there, and `bytes` a byte of
-- user data. The output of `kprintf` is not modelled.
pub mod Blocks
pub mod Chains
pub mod Alloc
pub mod Search
pub mod Fit
pub mod Free
pub mod Release
pub mod Safe
pub mod Frame
pub mod Room
mod Tests
use lightstreak_os.Base.{
  ℕ, zero, suc, ◌+◌, ◌-◌, ◌^◌, bit_and, Bool, true, false, ◌&&◌, ◌||◌, not, Option, none, some, ltb,
  leb, ◌==◌, if◌then◌else◌, update, for_range, add32, sub32, all_ones,
}

abbrev pub heap_magic : ℕ
heap_magic = 0xC0FFEE42

-- `sizeof(block_hdr_t)`: three words and a byte, padded
abbrev pub hdr_size : ℕ
hdr_size = 16

-- `(x + 3u) & ~3u`
unfoldable pub align4 : ℕ → ℕ
align4 x = bit_and (add32 x 3) (all_ones - 3)

pub record BlockHdr : Type 0 where
  pub magic : ℕ
  pub size : ℕ
  pub used : ℕ
  pub next : ℕ

pub record Heap : Type 0 where
  pub hdr : ℕ → BlockHdr
  pub bytes : ℕ → ℕ
  pub heap_head : ℕ
  pub heap_start_addr : ℕ
  pub heap_end_addr : ℕ
  pub heap_used : ℕ

unfoldable pub heap_init : ℕ → ℕ → Heap → Heap
heap_init start size s = record s {
  hdr =
      update s.hdr start
        (record { magic = heap_magic; size = sub32 size hdr_size; used = 0; next = 0 });
  heap_head = start;
  heap_start_addr = start;
  heap_end_addr = add32 start size;
  heap_used = 0;
}

-- The split of block `blk`: the header of the rest, then the shortened block.
unfoldable pub split : ℕ → ℕ → (ℕ → BlockHdr) → ℕ → BlockHdr
split size blk hdr =
    let b = hdr blk in
    let rest = add32 (add32 blk hdr_size) size in
    let hdr' = update hdr rest (record {
      magic = heap_magic;
      size = sub32 (sub32 b.size size) hdr_size;
      used = 0;
      next = b.next;
    }) in
    update hdr' blk (record (hdr' blk) { size = size; next = rest })

-- What `kmalloc` does at the first block that fits.
unfoldable pub place : ℕ → ℕ → Heap → ℕ × Heap
place size blk s =
    let hdr =
      if leb (add32 (add32 size hdr_size) 4) (s.hdr blk).size
      then split size blk s.hdr
      else s.hdr in
    let hdr' = update hdr blk (record (hdr blk) { used = 1 }) in
    (add32 blk hdr_size, record s { hdr = hdr'; heap_used = add32 s.heap_used (hdr' blk).size })

-- `while (blk)`; `none` means that the fuel ran out.
unfoldable pub search_fit : ℕ → ℕ → ℕ → Heap → Option (ℕ × Heap)
search_fit zero size blk s = none
search_fit (suc fuel) size blk s =
    let b = s.hdr blk in
    let rest = search_fit fuel size b.next s in
    if blk == 0
    then some (0, s)
    else if not (b.magic == heap_magic)
    then some (0, s)
    else if b.used == 0 && leb size b.size
    then some (place size blk s)
    else rest

-- The result is a pointer, 0 for NULL. The fuel is more than the number of headers that fit in the
-- heap.
unfoldable pub kmalloc : ℕ → Heap → Option (ℕ × Heap)
kmalloc size s =
    if size == 0
    then some (0, s)
    else search_fit (suc (sub32 s.heap_end_addr s.heap_start_addr)) (align4 size) s.heap_head s

-- `for (i = 0; i < size; i++) b[i] = 0`
pub zero_fill : ℕ → ℕ → (ℕ → ℕ) → ℕ → ℕ
zero_fill size p bytes = for_range size 0 (λ i mem. update mem (p + i) 0) bytes

unfoldable pub kzalloc : ℕ → Heap → Option (ℕ × Heap)
kzalloc size s = elim (kmalloc size s) [
  | none ↦ none
  | some (p, t) ↦
      some (if p == 0 then (p, t) else (p, record t { bytes = zero_fill size p t.bytes }))
]

-- `if (blk->next && !blk->next->used)`: the next block is merged into `blk`.
pub coalesce : ℕ → (ℕ → BlockHdr) → ℕ → BlockHdr
coalesce blk hdr =
    let b = hdr blk in
    let n = hdr b.next in
    if not (b.next == 0) && n.used == 0
    then update hdr blk (record b { size = add32 b.size (add32 hdr_size n.size); next = n.next })
    else hdr

pub kfree : ℕ → Heap → Heap
kfree ptr s =
    let blk = sub32 ptr hdr_size in
    let b = s.hdr blk in
    if ptr == 0
    then s
    else if not (b.magic == heap_magic)
    then s
    else if b.used == 0
    then s
    else record s {
      heap_used = sub32 s.heap_used b.size;
      hdr = coalesce blk (update s.hdr blk (record b { used = 0 }));
    }
