-- ===== src/Heap/Tests.antt =====
-- kernel/mm/heap.c: runs of the allocator on a heap of 128 bytes, and its theorems there.
use lightstreak_os.Base.{ℕ, ◌≡◌, ◌≢◌, ◌↔◌, refl, ◌⊎◌, inl, true, false, some, arith, List, [], ◌∷◌}
use lightstreak_os.Heap.{
  Heap, align4, heap_init, split, place, search_fit, kmalloc, kzalloc, zero_fill, kfree,
}
use lightstreak_os.Heap.Blocks.{Block, fit, UsedAt, IsHeap, Chain}
use lightstreak_os.Heap.Fit.{NoRoom}
use lightstreak_os.Heap.Search.{Allocated, kmalloc_refines, kmalloc_wraps}
use lightstreak_os.Heap.Release.{heap_init-IsHeap, kfree_safe}
use lightstreak_os.Heap.Safe.{Given, kmalloc_safe, kzalloc_zeroes}

abbrev blank : Heap
blank = record {
  hdr = λ _. record { magic = 0; size = 0; used = 0; next = 0 };
  bytes = λ _. 7;
  heap_head = 0;
  heap_start_addr = 0;
  heap_end_addr = 0;
  heap_used = 0;
}

abbrev fresh : Heap
fresh = heap_init 0x1000 128 blank

abbrev one_free : List Block
one_free = record { size = 112; used = false } ∷ []

-- The heap after `kmalloc(10)`.
abbrev after : Heap
after = (place 12 0x1000 fresh).1

abbrev after_blocks : List Block
after_blocks = record { size = 12; used = true } ∷ record { size = 84; used = false } ∷ []

fresh_row : IsHeap fresh one_free
fresh_row = heap_init-IsHeap 0x1000 128 blank (omega arith) refl refl (omega arith) (omega arith)

heap_init-IsHeap_test : IsHeap (heap_init 0x1000 128 blank) one_free
heap_init-IsHeap_test =
    heap_init-IsHeap 0x1000 128 blank (omega arith) refl refl (omega arith) (omega arith)

kmalloc_runs : kmalloc 10 fresh ≡ some (0x1010, after)
unfolding kmalloc search_fit heap_init align4 place split
kmalloc_runs = refl

after_row : IsHeap after after_blocks
unfolding heap_init place split Chain
after_row = record {
  chain = (refl, refl, refl, refl, refl, (refl, refl, refl, refl, refl, (refl, refl)));
  start_pos = omega arith;
  start_aligned = refl;
  end_lt = omega arith;
  counted = refl;
}

kfree_runs : (kfree 0x1010 after).heap_used ≡ 0
unfolding kfree heap_init place split
kfree_runs = refl

kmalloc_refines_example :
    (r : ℕ × Heap) × (kmalloc 10 fresh ≡ some r)
    × Allocated fresh (fit 12 fresh.heap_start_addr one_free) r
kmalloc_refines_example = kmalloc_refines 10 fresh one_free fresh_row (omega arith) (omega arith)

kmalloc_safe_example :
    (p : ℕ) × (t : Heap) × (kmalloc 10 after ≡ some (p, t))
    × (((p ≡ 0) × (t ≡ after) × NoRoom 12 after_blocks)
        ⊎ ((cs : List Block) × Given after t after_blocks cs p 10))
kmalloc_safe_example = kmalloc_safe 10 after after_blocks after_row (omega arith) (omega arith)

kmalloc_wraps_test :
    (r : ℕ × Heap) × (kmalloc 0xFFFF_FFFF fresh ≡ some r)
    × Allocated fresh (fit 0 fresh.heap_start_addr one_free) r
kmalloc_wraps_test = kmalloc_wraps 0xFFFF_FFFF fresh one_free fresh_row (omega arith) (omega arith)

start_of_after : after.heap_start_addr ≡ 0x1000
unfolding heap_init place
start_of_after = refl

in_use : UsedAt after.heap_start_addr after_blocks 0x1010 12
in_use = inl (refl, omega (arith, start_of_after), refl)

kfree_safe_example :
    (cs : List Block) × IsHeap (kfree 0x1010 after) cs
    × ((kfree 0x1010 after).heap_start_addr ≡ after.heap_start_addr)
    × ((q m : ℕ)
        → UsedAt after.heap_start_addr cs q m
          ↔ (UsedAt after.heap_start_addr after_blocks q m × (q ≢ 0x1010)))
kfree_safe_example = kfree_safe 0x1010 12 after after_blocks after_row in_use

abbrev zeroed : Heap
zeroed = record after { bytes = zero_fill 10 0x1010 after.bytes }

kzalloc_runs : kzalloc 10 fresh ≡ some (0x1010, zeroed)
unfolding kzalloc kmalloc search_fit heap_init align4 place split
kzalloc_runs = refl

kzalloc_zeroes_test : zeroed.bytes 0x1012 ≡ 0
kzalloc_zeroes_test = kzalloc_zeroes 10 0x1010 0x1012 fresh zeroed kzalloc_runs (omega arith)
