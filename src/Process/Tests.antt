-- ===== src/Process/Tests.antt =====
-- kernel/proc/process.c: a user process on a fresh heap of 32 KB.
use lightstreak_os.Base.{◌+◌, ◌≡◌, refl, some, [], ◌∷◌, arith}
use lightstreak_os.Heap.{
  Heap, heap_init, place, split, search_fit, align4, kmalloc, kzalloc, zero_fill,
}
use lightstreak_os.Process.{NewProcess, Kernel, kernel_stack_size, allocate, process_create_user}
use lightstreak_os.Process.Frame.{pop_words, create_user_frame}

abbrev blank : Heap
blank = record {
  hdr = λ _. record { magic = 0; size = 0; used = 0; next = 0 };
  bytes = λ _. 0;
  heap_head = 0;
  heap_start_addr = 0;
  heap_end_addr = 0;
  heap_used = 0;
}

abbrev fresh : Heap
fresh = heap_init 0x1000 0x8000 blank

-- The heap with the control block, and then with the stack.
abbrev block_placed : Heap
block_placed = (place 416 0x1000 fresh).1

abbrev block_zeroed : Heap
block_zeroed = record block_placed { bytes = zero_fill 416 0x1010 block_placed.bytes }

abbrev stack_placed : Heap
stack_placed = (place 8192 0x11B0 block_zeroed).1

abbrev stack_zeroed : Heap
stack_zeroed = record stack_placed { bytes = zero_fill 8192 0x11C0 stack_placed.bytes }

abbrev booted : Kernel
booted = record { heap = fresh; words = λ _. 0; next_pid = 3 }

allocates : allocate fresh ≡ some (some (0x1010, 0x11C0), stack_zeroed)
unfolding allocate kzalloc kmalloc search_fit heap_init align4 place split
allocates = refl

create_user_frame_example :
    (r : NewProcess) × (t : Kernel) × (process_create_user 0x100400 0x600000 0x7FF000 0x5000 booted
      ≡ some (some (0x1010, r), t))
    × (r.pid ≡ 3)
    × (r.esp + 40 ≡ r.kernel_stack_top)
    × (r.kernel_stack_top ≡ 0x11C0 + kernel_stack_size)
    × (pop_words 10 r.esp t.words
        ≡ 0 ∷ 0 ∷ 0 ∷ 0 ∷ 0x100400 ∷ 0x600000 ∷ 0x1B ∷ 0x202 ∷ 0x7FF000 ∷ 0x23 ∷ [])
create_user_frame_example =
    create_user_frame 0x100400 0x600000 0x7FF000 0x5000 0x1010 0x11C0 booted stack_zeroed allocates
      (omega arith)
