-- ===== src/Launch/Room.antt =====
-- kernel/proc/exec.c and kernel/proc/scheduler.c: which free block is enough for a program to run and
-- for the idle process.
use lightstreak_os.Base.{
  ℕ, ◌*◌, ◌-◌, ◌≤◌, ◌≡◌, ◌≢◌, refl, ap, sym, subst, ◌∙◌, Option, none, some, List, arith,
}
use lightstreak_os.Base.Memory.{Memory}
use lightstreak_os.Heap.{Heap, kmalloc, kfree}
use lightstreak_os.Heap.Blocks.{Block, IsHeap}
use lightstreak_os.Heap.Frame.{rewritten-IsHeap}
use lightstreak_os.Heap.Room.{HasRoom, IsRoomy, kmalloc-IsServed, kfree-IsRoomy}
use lightstreak_os.Process.{NewProcess, Kernel, process_create}
use lightstreak_os.Process.Room.{process_room, IsMade, process_create-IsMade}
use lightstreak_os.Launch.{buffer_size, Launch, scheduler_init}

-- More than the buffer and a process take from a free block.
abbrev pub exec_room : ℕ
exec_room = 48 * 1024

module _ {F : Type 0} where
  -- The heap has no free block of 48 KB.
  abbrev pub IsFull : Launch F → Type 0
  IsFull s = (bs : List Block) → IsHeap s.kernel.heap bs → HasRoom exec_room bs → ⊥

  -- The kernel of a start that did not halt.
  abbrev kernel_of : Kernel → Option (Option (Launch F)) → Kernel
  kernel_of k none = k
  kernel_of k (some none) = k
  kernel_of k (some (some t)) = t.kernel

not_none :
    (kthread_entry kernel_dir entry m : ℕ) (k t : Kernel)
    → IsMade m (process_create kthread_entry kernel_dir entry k)
    → process_create kthread_entry kernel_dir entry k ≢ some (none, t)
not_none kthread_entry kernel_dir entry m k t made e =
    let clash : (◌≡◌ {A = Option (Option (ℕ × NewProcess) × Kernel)}
        (some (some (made.address, made.pcb), made.after)) (some (none, t))) =
      sym made.result ∙ e in
    cc

module _ {F : Type 0} (kthread_entry kernel_dir entry : ℕ) where
  -- Why a file that is there is not run: `kmalloc` of the buffer gives NULL on this heap, or
  -- `process_create` does on this heap once the buffer is taken and given back.
  pub data Refused (s : Launch F) : Type 0 where
    no_buffer : (h : Heap) → kmalloc buffer_size s.kernel.heap ≡ some (0, h) → Refused s
    no_process :
        (tmpbuf : ℕ) (h : Heap) (mem : Memory) (t : Kernel)
        → kmalloc buffer_size s.kernel.heap ≡ some (tmpbuf, h)
        → process_create kthread_entry kernel_dir entry
            (record s.kernel { heap = kfree tmpbuf (record h { bytes = mem }) })
          ≡ some (none, t)
        → Refused s

  pub Refused-IsFull : (s : Launch F) → Refused s → IsFull s
  Refused-IsFull s (no_buffer h e) bs v room =
      let g =
        kmalloc-IsServed buffer_size exec_room s.kernel.heap bs v (omega arith) (omega arith)
          (omega arith) room in
      let same : (◌≡◌ {A = Option (ℕ × Heap)} (some (g.pointer, g.after)) (some (0, h))) =
        sym g.result ∙ e in
      g.solid (let p : g.pointer ≡ 0 = cc in p)
  Refused-IsFull s (no_process tmpbuf h mem t e full) bs v room =
      let g =
        kmalloc-IsServed buffer_size exec_room s.kernel.heap bs v (omega arith) (omega arith)
          (omega arith) room in
      let same : (◌≡◌ {A = Option (ℕ × Heap)} (some (g.pointer, g.after)) (some (tmpbuf, h))) =
        sym g.result ∙ e in
      let at : g.pointer ≡ tmpbuf = cc in
      let there : g.after ≡ h = cc in
      let r =
        kfree-IsRoomy (exec_room - buffer_size - 24) g.pointer g.size
          (record g.after { bytes = mem }) g.blocks (rewritten-IsHeap mem g.after g.blocks g.valid)
          g.used g.room in
      let freed =
        λ (p : ℕ) (x : Heap). record s.kernel { heap = kfree p (record x { bytes = mem }) } in
      not_none kthread_entry kernel_dir entry (exec_room - buffer_size - 24 - process_room)
        (freed g.pointer g.after) t
        (process_create-IsMade kthread_entry kernel_dir entry (exec_room - buffer_size - 24)
          (freed g.pointer g.after) r.blocks r.valid (omega arith) r.room)
        (rw (at, there) full)

  -- With room there is an idle process, and room for a program is left.
  pub no_halt :
      (m : ℕ) (s : Launch F) (bs : List Block) (k : Kernel)
      → IsHeap s.kernel.heap bs
      → process_room ≤ m
      → HasRoom m bs
      → process_create kthread_entry kernel_dir entry s.kernel ≢ some (none, k)
  no_halt m s bs k v le room =
      not_none kthread_entry kernel_dir entry (m - process_room) s.kernel k
        (process_create-IsMade kthread_entry kernel_dir entry m s.kernel bs v le room)

  pub scheduler_init-IsRoomy :
      (m : ℕ) (s t : Launch F) (bs : List Block)
      → IsHeap s.kernel.heap bs
      → process_room ≤ m
      → HasRoom m bs
      → scheduler_init kthread_entry kernel_dir entry s ≡ some (some t)
      → IsRoomy (m - process_room) t.kernel.heap
  unfolding scheduler_init
  scheduler_init-IsRoomy m s t bs v le room e =
      let made = process_create-IsMade kthread_entry kernel_dir entry m s.kernel bs v le room in
      let kept : kernel_of made.after (scheduler_init kthread_entry kernel_dir entry s)
          ≡ made.after =
        rw (scheduler_init, made.result) refl in
      subst (λ k. IsRoomy (m - process_room) k.heap) (sym kept ∙ ap (kernel_of made.after) e)
        made.roomy
