-- ===== src/Syscall/Ring.antt =====
-- sys_ps: what it lists of the ring of processes.
use lightstreak_os.Base.{
  ℕ, zero, suc, ◌+◌, ◌≤◌, ◌<◌, ◌≡◌, ◌≢◌, refl, ap, ap₂, sym, subst, ◌∙◌, ◌||◌, true, false, List,
  [], ◌∷◌, arith, ◌==◌, ==_ne,
}
use lightstreak_os.Scheduler.{ProcState, proc_ready, proc_running, proc_blocked, proc_zombie, Sched}
use lightstreak_os.Scheduler.Choice.{hop}
use lightstreak_os.Syscall.Machine.{PsEntry, state_number, ps_entry, ps_from}

-- How a process is reported: its number, and 0, 1, 2 or 3 for ready, running, blocked and zombie.
pub reported : ProcState → ℕ
reported proc_ready = 0
reported proc_running = 1
reported proc_blocked = 2
reported proc_zombie = 3

reported_lem : (st : ProcState) → state_number st ≡ reported st
unfolding state_number reported
reported_lem proc_ready = refl
reported_lem proc_running = refl
reported_lem proc_blocked = refl
reported_lem proc_zombie = refl

-- The entries of `n` processes along the ring from `p` on.
pub along : Sched → ℕ → ℕ → List PsEntry
along s zero p = []
along s (suc n) p =
    record { pid = (s.procs p).pid; state = reported (s.procs p).state }
    ∷ along s n (s.procs p).next

entry_lem :
    (s : Sched) (p : ℕ)
    → ps_entry s p ≡ record { pid = (s.procs p).pid; state = reported (s.procs p).state }
entry_lem s p =
    ap (λ n. record { pid = (s.procs p).pid; state = n }) (reported_lem (s.procs p).state)

-- The ring comes back to the current process after `n` steps, and not before.
pub record IsRing (s : Sched) (n : ℕ) : Type 0 where
  pub back : hop s.procs n s.current ≡ s.current
  pub apart :
      (j : ℕ)
      → 0 < j
      → j < n
      → (hop s.procs j s.current ≢ s.current) × (hop s.procs j s.current ≢ 0)

hop-next : (s : Sched) (j p : ℕ) → hop s.procs (suc j) p ≡ (s.procs (hop s.procs j p)).next
unfolding hop
hop-next s zero p = refl
hop-next s (suc j) p = hop-next s j (s.procs p).next

-- From `j` steps on, with `k` processes left.
ps_from-along :
    (s : Sched) (n room k j : ℕ)
    → IsRing s n
    → suc j + k ≡ n
    → suc k ≤ room
    → ps_from room (hop s.procs j s.current) s ≡ along s (suc k) (hop s.procs j s.current)
unfolding ps_from along
ps_from-along s n (suc room) zero j r e h =
    rw (stop) (ap (λ x. x ∷ []) (entry_lem s (hop s.procs j s.current)))
  where
    q : ℕ
    q = (s.procs (hop s.procs j s.current)).next

    home : q ≡ s.current
    home =
        sym (hop-next s j s.current) ∙ ap (λ x. hop s.procs x s.current) (omega (arith, e)) ∙ r.back

    stop : (q == 0 || q == s.current) ≡ true
    stop = ground (arith, home)
ps_from-along s n (suc room) (suc k) j r e h = rw (onward) (
    ap₂ ◌∷◌ (entry_lem s (hop s.procs j s.current)) (
      subst (λ x. ps_from room x s ≡ along s (suc k) x) (hop-next s j s.current)
        (ps_from-along s n room k (suc j) r (omega (arith, e)) (omega (arith, h)))))
  where
    q : ℕ
    q = (s.procs (hop s.procs j s.current)).next

    here : hop s.procs (suc j) s.current ≡ q
    here = hop-next s j s.current

    away : (hop s.procs (suc j) s.current ≢ s.current) × (hop s.procs (suc j) s.current ≢ 0)
    away = r.apart (suc j) (omega arith) (omega (arith, e))

    onward : (q == 0 || q == s.current) ≡ false
    onward =
        rw (==_ne q 0 (λ x. away.1 (here ∙ x)), ==_ne q s.current (λ x. away.0 (here ∙ x))) refl
ps_from-along s n zero k j r e h = absurd (omega (arith, h))

-- If the ring of processes comes back to the current one after `n` steps and not before, nowhere
-- through NULL, the loop of `sys_ps` with room for `n` entries or more lists exactly the `n`
-- processes, each with its number and with 0 for ready, 1 for running, 2 for blocked and 3 for
-- zombie, in the order of the ring from the current one on.
pub ps_lists_ring :
    (s : Sched) (n room : ℕ)
    → IsRing s (suc n)
    → suc n ≤ room
    → ps_from room s.current s ≡ along s (suc n) s.current
unfolding hop
ps_lists_ring s n room r h = ps_from-along s (suc n) room n 0 r (omega arith) h
