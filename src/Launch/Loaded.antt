-- ===== src/Launch/Loaded.antt =====
-- kernel/proc/exec.c: what `exec` of a file of ramfs leaves in memory and in the run queue.
use lightstreak_os.Base.{
  ℕ, zero, suc, ◌+◌, ◌-◌, ◌^◌, ◌<◌, ◌≤◌, ◌≡◌, ◌≢◌, refl, ◌⊎◌, ◌&&◌, Option, none, some, List, arith,
  ltb, leb, if◌then◌else◌, update, for_range, add32,
}
use lightstreak_os.Base.Memory.{Memory, store_bytes}
use lightstreak_os.Heap.{Heap}
use lightstreak_os.Heap.Blocks.{Block, IsHeap}
use lightstreak_os.Heap.Frame.{IsWithin}
use lightstreak_os.Process.{NewProcess, Kernel, process_create}
use lightstreak_os.Process.Creation.{failed, created, process_create-Created}
use lightstreak_os.Launch.{
  user_load_addr, buffer_size, Launch, mem_copy_exec, with_heap, admit, spawn,
}

-- A copy to behind its source.
copy_loop :
    (n i dst src x : ℕ) (mem : Memory)
    → src + i + n ≤ dst
    → for_range n i (λ j m. update m (dst + j) (m (src + j))) mem x
      ≡ (if leb (dst + i) x && ltb x (dst + i + n) then mem (src + (x - dst)) else mem x)
unfolding for_range
copy_loop zero i dst src x mem h = ground arith
copy_loop (suc n) i dst src x mem h =
    ground
      (arith, copy_loop n (suc i) dst src x (update mem (dst + i) (mem (src + i))) (omega arith))

store_loop :
    (n i a x : ℕ) (bytes : ℕ → ℕ) (mem : Memory)
    → a + i + n < 2 ^ 32
    → for_range n i (λ j m. update m (add32 a j) (bytes j)) mem x
      ≡ (if leb (a + i) x && ltb x (a + i + n) then bytes (x - a) else mem x)
unfolding for_range
store_loop zero i a x bytes mem h = ground arith
store_loop (suc n) i a x bytes mem h =
    ground (arith, store_loop n (suc i) a x bytes (update mem (add32 a i) (bytes i)) (omega arith))

-- What the memory holds once the file has gone through the buffer.
unfoldable pub copied : ℕ → ℕ → (ℕ → ℕ) → Memory → Memory
copied tmpbuf n buf mem =
    mem_copy_exec user_load_addr tmpbuf n (store_bytes tmpbuf buffer_size buf mem)

module _ (tmpbuf n : ℕ) (buf mem : ℕ → ℕ) (low : tmpbuf + buffer_size ≤ user_load_addr)
    (fits : n ≤ buffer_size) where
  pub copied-loaded : (i : ℕ) → i < n → copied tmpbuf n buf mem (user_load_addr + i) ≡ buf i
  unfolding copied mem_copy_exec store_bytes
  copied-loaded i h = ground (
    arith,
    copy_loop n 0 user_load_addr tmpbuf (user_load_addr + i)
        (store_bytes tmpbuf buffer_size buf mem) (omega (arith, low, fits)),
    store_loop buffer_size 0 tmpbuf (tmpbuf + i) buf mem (omega (arith, low)),
  )

  pub copied-elsewhere :
      (x : ℕ)
      → ((x < tmpbuf) ⊎ (tmpbuf + buffer_size ≤ x))
      → ((x < user_load_addr) ⊎ (user_load_addr + n ≤ x))
      → copied tmpbuf n buf mem x ≡ mem x
  unfolding copied mem_copy_exec store_bytes
  copied-elsewhere x a b = ground (
    arith,
    copy_loop n 0 user_load_addr tmpbuf x (store_bytes tmpbuf buffer_size buf mem)
        (omega (arith, low, fits)),
    store_loop buffer_size 0 tmpbuf x buf mem (omega (arith, low)),
  )

module _ {F : Type 0} (kthread_entry kernel_dir entry : ℕ) where
  -- What `spawn` comes to.
  pub data Spawned (s : Launch F) : Option (ℕ × Launch F) → Type 0 where
    not_spawned :
        (h : Heap) {out : Option (ℕ × Launch F)}
        → IsWithin s.kernel.heap h
        → process_create kthread_entry kernel_dir entry s.kernel
          ≡ some (none, record s.kernel { heap = h })
        → out ≡ some (0, with_heap h s)
        → Spawned s out
    spawned :
        (p : ℕ) (r : NewProcess) (k : Kernel) {out : Option (ℕ × Launch F)}
        → IsWithin s.kernel.heap k.heap
        → p ≢ 0
        → r.pid ≡ s.kernel.next_pid
        → out ≡ some (p, admit p r k s)
        → Spawned s out

  pub spawn-Spawned :
      (s : Launch F) (bs : List Block)
      → IsHeap s.kernel.heap bs
      → Spawned s (spawn kthread_entry kernel_dir entry s)
  unfolding spawn
  spawn-Spawned s bs v =
      elim (process_create-Created kthread_entry kernel_dir entry s.kernel bs v) [
        | failed h w e ↦ not_spawned h w e (rw (spawn, e) refl)
        | created p r k w np pid next e ↦ spawned p r k w np pid (rw (spawn, e) refl)
      ]
