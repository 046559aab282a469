-- ===== src/Launch/Idle.antt =====
-- `scheduler_init` of kernel/proc/scheduler.c: the idle process.
use lightstreak_os.Base.{ℕ, ◌≡◌, ◌≢◌, refl, ◌∙◌, Option, none, some, List, [], ◌∷◌, ==_self, update}
use lightstreak_os.Heap.Blocks.{Block, IsHeap}
use lightstreak_os.Heap.Frame.{IsWithin}
use lightstreak_os.Process.{NewProcess, Kernel, process_create}
use lightstreak_os.Process.Creation.{failed, created, process_create-Created}
use lightstreak_os.Scheduler.{proc_running, Sched, set_state, scheduler_add}
use lightstreak_os.Scheduler.Choice.{next-set_state}
use lightstreak_os.Scheduler.Links.{NotIn}
use lightstreak_os.Scheduler.Queue.{IsRing}
use lightstreak_os.Scheduler.Members.{
  scheduler_add-IsAdded, IsRing-frame, add_first-pid, IsRing-empty,
}
use lightstreak_os.Launch.{Launch, pcb_of, idle_pcb, scheduler_init}

module _ {F : Type 0} (kthread_entry kernel_dir entry : ℕ) where
  -- The idle process `p` is alone in the run queue and runs.
  pub record IsIdle (s t : Launch F) (p : ℕ) : Type 0 where
    pub solid : p ≢ 0
    pub current : t.sched.current ≡ p
    pub ring : IsRing t.sched (p ∷ [])
    pub pid : (t.sched.procs p).pid ≡ 0
    pub running : (t.sched.procs p).state ≡ proc_running
    pub heap : IsWithin s.kernel.heap t.kernel.heap
    pub files : t.vfs ≡ s.vfs

  pub data Idling (s : Launch F) (out : Option (Option (Launch F))) : Type 0 where
    halts :
        (k : Kernel)
        → process_create kthread_entry kernel_dir entry s.kernel ≡ some (none, k)
        → out ≡ some none
        → Idling s out
    idles : (p : ℕ) (t : Launch F) → IsIdle s t p → out ≡ some (some t) → Idling s out

  -- On a valid heap, with no process in the run queue, `scheduler_init` halts for want of memory or
  -- leaves the idle process, number 0, alone in the run queue and running.
  pub scheduler_init-Idling :
      (s : Launch F) (bs : List Block)
      → IsHeap s.kernel.heap bs
      → s.sched.run_queue ≡ 0
      → Idling s (scheduler_init kthread_entry kernel_dir entry s)
  unfolding scheduler_init NotIn
  scheduler_init-Idling s bs v empty =
      elim (process_create-Created kthread_entry kernel_dir entry s.kernel bs v) [
        | failed h w e ↦ halts (record s.kernel { heap = h }) e (rw (scheduler_init, e) refl)
        | created p r k w np pid next e ↦
            idles p (idle p r k) (idle-IsIdle p r k w np) (rw (scheduler_init, e) refl)
      ]
    where
      before : ℕ → NewProcess → Sched
      before p r = record s.sched { procs = update s.sched.procs p (idle_pcb (pcb_of r)) }

      added : ℕ → NewProcess → Sched
      added p r = scheduler_add p (before p r)

      idle : ℕ → NewProcess → Kernel → Launch F
      idle p r k = record s {
        kernel = k;
        sched = record (added p r) {
          current = p;
          procs = set_state p proc_running (added p r).procs;
        };
      }

      idle-IsIdle :
          (p : ℕ) (r : NewProcess) (k : Kernel)
          → IsWithin s.kernel.heap k.heap
          → p ≢ 0
          → IsIdle s (idle p r k) p
      idle-IsIdle p r k w np =
          let a = scheduler_add-IsAdded (before p r) p [] (IsRing-empty (before p r) empty) np tt in
          record {
            solid = np;
            current = refl;
            ring =
                IsRing-frame (added p r) (idle p r k).sched (p ∷ []) refl
                  (λ x. next-set_state p x proc_running (added p r).procs) a.ring;
            pid = rw (==_self p) (add_first-pid (before p r) p empty np ∙ rw (==_self p) refl);
            running = rw (==_self p) refl;
            heap = w;
            files = refl;
          }
