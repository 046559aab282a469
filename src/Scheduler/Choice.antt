-- ===== src/Scheduler/Choice.antt =====
-- Round robin: which process a tick of the scheduler runs next.
use lightstreak_os.Base.{
  ℕ, zero, suc, ◌+◌, ◌%◌, ◌^◌, ◌≤◌, ◌<◌, ◌≡◌, ◌≢◌, refl, ap, sym, ◌∙◌, true, false, ◌||◌, Option,
  none, some, arith, ◌==◌, ==_self, ==_ne, ==_iff, Bool-cases, inl, inr, ◌⊎◌,
}
use lightstreak_os.Scheduler.{
  ProcState, proc_ready, proc_running, proc_blocked, proc_zombie, is_ready, Pcb, Sched, timer_tick,
  set_state, find_next, preempted, switch_to, scheduler_tick,
}

-- `k` steps along the ring.
unfoldable pub hop : (ℕ → Pcb) → ℕ → ℕ → ℕ
hop procs zero p = p
hop procs (suc k) p = hop procs k (procs p).next

-- A process that the search passes by.
pub record IsSkipped (s : Sched) (p : ℕ) : Type 0 where
  pub not_ready : is_ready (s.procs p).state ≡ false
  pub other : p ≢ s.current

-- Process `q` is `k` steps from `p`, the first that is not skipped.
pub record IsFirst (s : Sched) (p k q : ℕ) : Type 0 where
  pub there : hop s.procs k p ≡ q
  pub passed : (j : ℕ) → j < k → IsSkipped s (hop s.procs j p)

-- What a search of `n` steps from `p` ends with.
record IsFound (s : Sched) (n p q : ℕ) : Type 0 where
  pub steps : ℕ
  pub bound : steps ≤ n
  pub first : IsFirst s p steps q
  pub stop : (steps ≡ n) ⊎ (is_ready (s.procs q).state ≡ true) ⊎ (q ≡ s.current)

one_more :
    (s : Sched) (n p q : ℕ) → IsSkipped s p → IsFound s n (s.procs p).next q → IsFound s (suc n) p q
unfolding hop
one_more s n p q sk f = record {
  steps = suc f.steps;
  bound = omega (arith, f.bound);
  first = record { there = f.first.there; passed = passes };
  stop = elim f.stop [ inl e ↦ inl (ap suc e) | inr x ↦ inr x ];
}
  where
    passes : (j : ℕ) → j < suc f.steps → IsSkipped s (hop s.procs j p)
    passes zero h = sk
    passes (suc j) h = f.first.passed j (omega arith)

at_once :
    (s : Sched) (n p : ℕ)
    → ((0 ≡ n) ⊎ (is_ready (s.procs p).state ≡ true) ⊎ (p ≡ s.current))
    → IsFound s n p p
unfolding hop
at_once s n p st = record {
  steps = 0;
  bound = omega arith;
  first = record { there = refl; passed = λ j h. absurd (omega arith) };
  stop = st;
}

find_next_lem : (n p : ℕ) (s : Sched) → IsFound s n p (find_next n p s)
unfolding find_next
find_next_lem zero p s = at_once s 0 p (inl refl)
find_next_lem (suc n) p s = elim (Bool-cases (is_ready (s.procs p).state)) [
  | inl r ↦ rw (r) (at_once s (suc n) p (inr (inl r)))
  | inr nr ↦ elim (Bool-cases (p == s.current)) [
    | inl c ↦ rw (nr, c) (at_once s (suc n) p (inr (inr ((==_iff p s.current).0 c))))
    | inr nc ↦
        rw (nr, nc)
          (one_more s n p (find_next n (s.procs p).next s)
            (record { not_ready = nr; other = λ e. absurd (ground (arith, e, nc)) })
            (find_next_lem n (s.procs p).next s))
  ]
]

-- What a tick comes to: the ready process that is first along the ring, at most 64 steps on, runs
-- and the others keep their states, or none of the processes up to the current one, or of the next
-- 64, is ready and the current one runs on.
pub data Ticked (s : Sched) : Sched × Option (ℕ × ℕ) → Type 0 where
  runs_on :
      (k q : ℕ) {out : Sched × Option (ℕ × ℕ)}
      → IsFirst s (s.procs s.current).next k q
      → (q ≡ s.current) ⊎ ((k ≡ 64) × (is_ready (s.procs q).state ≡ false))
      → out ≡ (timer_tick s, none)
      → Ticked s out
  switches :
      (k q : ℕ) {out : Sched × Option (ℕ × ℕ)}
      → k ≤ 64
      → IsFirst s (s.procs s.current).next k q
      → q ≢ s.current
      → is_ready (s.procs q).state ≡ true
      → out ≡ (switch_to q (timer_tick s), some (s.current, q))
      → Ticked s out

pub tick-Ticked : (s : Sched) → s.run_queue ≢ 0 → s.current ≢ 0 → Ticked s (scheduler_tick s)
unfolding scheduler_tick
tick-Ticked s hr hc = choose (find_next_lem 64 (s.procs s.current).next s)
  where
    q : ℕ
    q = find_next 64 (s.procs s.current).next s

    busy : (s.run_queue == 0 || s.current == 0) ≡ false
    busy = ground (arith, hr, hc)

    choose : IsFound s 64 (s.procs s.current).next q → Ticked s (scheduler_tick s)
    choose f = elim (Bool-cases (q == s.current)) [
      | inl e ↦ runs_on f.steps q f.first (inl ((==_iff q s.current).0 e)) (rw (busy, e) refl)
      | inr ne ↦ elim (Bool-cases (is_ready (s.procs q).state)) [
        | inl r ↦
            switches f.steps q f.bound f.first (λ e. absurd (ground (arith, e, ne))) r
              (rw (busy, ne, r) refl)
        | inr nr ↦
            runs_on f.steps q f.first
              (inr (
                elim f.stop [
                  | inl e ↦ e
                  | inr (inl r) ↦ absurd (ground (arith, r, nr))
                  | inr (inr c) ↦ absurd (ground (arith, c, ne))
                ],
                nr,
              ))
              (rw (busy, ne, nr) refl)
      ]
    ]

pub next-set_state :
    (p x : ℕ) (st : ProcState) (f : ℕ → Pcb) → (set_state p st f x).next ≡ (f x).next
next-set_state p x st f = elim (Bool-cases (p == x)) [
  | inl e ↦ rw (e) (ap (λ y. (f y).next) ((==_iff p x).0 e))
  | inr n ↦ rw (n) refl
]

-- What a tick that switches to `q` leaves: `q` is current and running, on its own kernel stack; the
-- process that ran is ready; no other process and no link of the ring is changed.
pub record IsSwitched (s : Sched) (q : ℕ) (t : Sched) : Type 0 where
  pub current : t.current ≡ q
  pub running : (t.procs q).state ≡ proc_running
  pub left : (s.procs s.current).state ≡ proc_running → (t.procs s.current).state ≡ proc_ready
  pub kept :
      (s.procs s.current).state ≢ proc_running
      → (t.procs s.current).state ≡ (s.procs s.current).state
  pub stack : t.esp0 ≡ (s.procs q).kernel_stack_top
  pub links : (p : ℕ) → (t.procs p).next ≡ (s.procs p).next
  pub others : (p : ℕ) → p ≢ q → p ≢ s.current → t.procs p ≡ s.procs p
  pub queue : t.run_queue ≡ s.run_queue
  pub counted : t.tick_count ≡ (s.tick_count + 1) % 2 ^ 32

-- What a tick that does not switch leaves: all is as it was but the counter.
pub record IsCounted (s t : Sched) : Type 0 where
  pub current : t.current ≡ s.current
  pub procs : t.procs ≡ s.procs
  pub stack : t.esp0 ≡ s.esp0
  pub queue : t.run_queue ≡ s.run_queue
  pub counted : t.tick_count ≡ (s.tick_count + 1) % 2 ^ 32

preempted_other : (st : ProcState) → st ≢ proc_running → preempted st ≡ st
unfolding preempted
preempted_other proc_ready n = refl
preempted_other proc_running n = absurd (n refl)
preempted_other proc_blocked n = refl
preempted_other proc_zombie n = refl

pub switch_to-IsSwitched :
    (q : ℕ) (s : Sched) → q ≢ s.current → IsSwitched s q (switch_to q (timer_tick s))
unfolding switch_to timer_tick preempted
switch_to-IsSwitched q s ne = record {
  current = refl;
  running = rw (==_self q) refl;
  left = λ r. rw (==_ne q s.current ne, ==_self s.current, r) refl;
  kept = λ r.
      rw (==_ne q s.current ne, ==_self s.current) (preempted_other (s.procs s.current).state r);
  stack = refl;
  links = λ p.
      next-set_state q p proc_running
        (set_state s.current (preempted (s.procs s.current).state) s.procs)
      ∙ next-set_state s.current p (preempted (s.procs s.current).state) s.procs;
  others = λ p nq nc. rw (==_ne q p (λ e. nq (sym e)), ==_ne s.current p (λ e. nc (sym e))) refl;
  queue = refl;
  counted = refl;
}

-- Round robin: the first ready process behind the current one runs, if it is at most 64 steps on;
-- else the search came to the current process, or its 64 steps met no ready process.
pub data NextRuns (s : Sched) (out : Sched × Option (ℕ × ℕ)) : Type 0 where
  to_next :
      (k q : ℕ)
      → k ≤ 64
      → IsFirst s (s.procs s.current).next k q
      → q ≢ s.current
      → is_ready (s.procs q).state ≡ true
      → out.1 ≡ some (s.current, q)
      → IsSwitched s q out.0
      → NextRuns s out
  stays :
      (k q : ℕ)
      → IsFirst s (s.procs s.current).next k q
      → (q ≡ s.current) ⊎ ((k ≡ 64) × (is_ready (s.procs q).state ≡ false))
      → out.1 ≡ none
      → IsCounted s out.0
      → NextRuns s out
