-- ===== src/Process/Room.antt =====
-- kernel/proc/process.c: with a free block of 9000 bytes there is memory for a process.
use lightstreak_os.Base.{ℕ, ◌-◌, ◌≤◌, ◌≡◌, refl, Option, some, List, [], ◌∷◌, arith}
use lightstreak_os.Heap.{Heap}
use lightstreak_os.Heap.Blocks.{Block, IsHeap}
use lightstreak_os.Heap.Room.{HasRoom, HasRoom-le, IsRoomy, kzalloc-IsServed}
use lightstreak_os.Process.{
  NewProcess, Kernel, kernel_stack_size, process_size, allocate, set_up, start, process_create,
}
use lightstreak_os.Process.Creation.{both}

-- More than the two allocations of a process take from a free block.
abbrev pub process_room : ℕ
process_room = 9000

record IsPlaced (m : ℕ) (h : Heap) : Type 0 where
  pub block : ℕ
  pub stack : ℕ
  pub after : Heap
  pub result : allocate h ≡ some (some (block, stack), after)
  pub roomy : IsRoomy m after

allocate-IsPlaced :
    (m : ℕ) (h : Heap) (bs : List Block)
    → IsHeap h bs
    → process_room ≤ m
    → HasRoom m bs
    → IsPlaced (m - process_room) h
allocate-IsPlaced m h bs v le room =
    let g =
      kzalloc-IsServed process_size m h bs v (omega arith) (omega arith) (omega (arith, le)) room in
    let s =
      kzalloc-IsServed kernel_stack_size (m - process_size - 24) g.after g.blocks g.valid
        (omega arith) (omega arith) (omega (arith, le)) g.room in
    record {
      block = g.pointer;
      stack = s.pointer;
      after = s.after;
      result = both h g.after g.pointer g.result g.solid s.pointer s.after s.result s.solid;
      roomy = record {
        blocks = s.blocks;
        valid = s.valid;
        room =
            HasRoom-le (m - process_size - 24 - kernel_stack_size - 24) (m - process_room) s.blocks
              (omega arith) s.room;
      };
    }

-- A process was made, and a free block of `m` bytes is left.
pub record IsMade (m : ℕ) (o : Option (Option (ℕ × NewProcess) × Kernel)) : Type 0 where
  pub address : ℕ
  pub pcb : NewProcess
  pub after : Kernel
  pub result : o ≡ some (some (address, pcb), after)
  pub roomy : IsRoomy m after.heap

pub process_create-IsMade :
    (kthread_entry dir entry m : ℕ) (s : Kernel) (bs : List Block)
    → IsHeap s.heap bs
    → process_room ≤ m
    → HasRoom m bs
    → IsMade (m - process_room) (process_create kthread_entry dir entry s)
unfolding process_create start set_up
process_create-IsMade kthread_entry dir entry m s bs v le room =
    let a = allocate-IsPlaced m s.heap bs v le room in
    let words : List ℕ = entry ∷ kthread_entry ∷ 0 ∷ 0 ∷ 0 ∷ 0 ∷ [] in
    let made = set_up dir words a.block a.stack (record s { heap = a.after }) in
    record {
      address = made.0.0;
      pcb = made.0.1;
      after = made.1;
      result = rw (process_create, start, a.result) refl;
      roomy = a.roomy;
    }
