-- ===== src/Process.antt =====
-- kernel/proc/process.c: new processes and their first stack frame. The addresses of the assembly
-- routines and of the kernel's page directory are arguments; the words of the kernel stacks are a
-- function of the address. `none` as a whole means that the heap ran out of fuel.
pub mod Frame
pub mod Creation
pub mod Room
mod Tests
use lightstreak_os.Base.{
  ℕ, zero, suc, ◌+◌, ◌%◌, ◌^◌, Option, none, some, List, [], ◌∷◌, ◌==◌, if◌then◌else◌, update,
  add32, sub32,
}
use lightstreak_os.Heap.{Heap, kzalloc, kfree}

abbrev pub kernel_stack_size : ℕ
kernel_stack_size = 8192

-- `sizeof(process_t)`: eight words and 32 descriptors of three words.
abbrev pub process_size : ℕ
process_size = 416

-- What the functions set in the control block.
pub record NewProcess : Type 0 where
  pub pid : ℕ
  pub esp : ℕ
  pub kernel_stack_top : ℕ
  pub kernel_stack : ℕ
  pub page_dir : ℕ

pub record Kernel : Type 0 where
  pub heap : Heap
  pub words : ℕ → ℕ
  pub next_pid : ℕ

unfoldable pub process_init : Kernel → Kernel
process_init s = record s { next_pid = 1 }

-- The addresses of the control block and of the kernel stack; the block is given back if there is
-- no stack.
unfoldable pub allocate : Heap → Option (Option (ℕ × ℕ) × Heap)
allocate h = elim (kzalloc process_size h) [
  | none ↦ none
  | some (p, h1) ↦ if p == 0 then some (none, h1) else elim (kzalloc kernel_stack_size h1) [
    | none ↦ none
    | some (stack, h2) ↦ if stack == 0 then some (none, kfree p h2) else some (some (p, stack), h2)
  ]
]

-- `*--sp = w`
unfoldable pub push_words : List ℕ → ℕ → (ℕ → ℕ) → ℕ × (ℕ → ℕ)
push_words [] sp mem = (sp, mem)
push_words (w ∷ ws) sp mem = push_words ws (sub32 sp 4) (update mem (sub32 sp 4) w)

-- The process at `p` with its stack, on which `ws` are pushed.
unfoldable pub set_up : ℕ → List ℕ → ℕ → ℕ → Kernel → (ℕ × NewProcess) × Kernel
set_up dir ws p stack s =
    let top = add32 stack kernel_stack_size in
    let (sp, words) = push_words ws top s.words in
    let r : NewProcess = record {
      pid = s.next_pid;
      esp = sp;
      kernel_stack_top = top;
      kernel_stack = stack;
      page_dir = dir;
    } in
    ((p, r), record s { words = words; next_pid = add32 s.next_pid 1 })

unfoldable pub start : ℕ → List ℕ → Kernel → Option (Option (ℕ × NewProcess) × Kernel)
start dir ws s = elim (allocate s.heap) [
  | none ↦ none
  | some (none, h) ↦ some (none, record s { heap = h })
  | some (some (p, stack), h) ↦
      let (r, t) = set_up dir ws p stack (record s { heap = h }) in some (some r, t)
]

unfoldable pub process_create : ℕ → ℕ → ℕ → Kernel → Option (Option (ℕ × NewProcess) × Kernel)
process_create kthread_entry kernel_dir entry_fn s =
    start kernel_dir (entry_fn ∷ kthread_entry ∷ 0 ∷ 0 ∷ 0 ∷ 0 ∷ []) s

pub process_create_user : ℕ → ℕ → ℕ → ℕ → Kernel → Option (Option (ℕ × NewProcess) × Kernel)
process_create_user trampoline entry_vaddr user_esp dir s =
    start dir (0x23 ∷ user_esp ∷ 0x202 ∷ 0x1B ∷ entry_vaddr ∷ trampoline ∷ 0 ∷ 0 ∷ 0 ∷ 0 ∷ []) s

pub process_destroy : ℕ → ℕ → Heap → Heap
process_destroy p kernel_stack h =
    if p == 0 then h else kfree p (if kernel_stack == 0 then h else kfree kernel_stack h)
