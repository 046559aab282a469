-- ===== src/Scheduler/Zombies.antt =====
-- A process that has exited and does not run: no tick of the timer brings it back.
use lightstreak_os.Base.{
  ℕ, zero, suc, ◌≡◌, ◌≢◌, refl, ap, sym, subst, ◌∙◌, true, false, ◌||◌, Option, none, some, arith,
  ◌==◌, ==_ne, ==_iff, Bool-cases, inl, inr,
}
use lightstreak_os.Base.Int.{ℤ}
use lightstreak_os.Scheduler.{
  ProcState, proc_zombie, is_ready, Sched, timer_tick, find_next, preempted, switch_to,
  scheduler_tick,
}

-- A tick switches to another process that is ready, or only counts.
pub data Tick (s : Sched) : Sched × Option (ℕ × ℕ) → Type 0 where
  counts : {out : Sched × Option (ℕ × ℕ)} → out ≡ (timer_tick s, none) → Tick s out
  goes :
      (q : ℕ) {out : Sched × Option (ℕ × ℕ)}
      → q ≢ s.current
      → is_ready (s.procs q).state ≡ true
      → out ≡ (switch_to q (timer_tick s), some (s.current, q))
      → Tick s out

pub scheduler_tick-Tick : (s : Sched) → Tick s (scheduler_tick s)
unfolding scheduler_tick
scheduler_tick-Tick s = elim (Bool-cases (s.run_queue == 0 || s.current == 0)) [
  | inl idle ↦ counts (rw (idle) refl)
  | inr busy ↦ elim (Bool-cases (q == s.current)) [
    | inl e ↦ counts (rw (busy, e) refl)
    | inr ne ↦ elim (Bool-cases (is_ready (s.procs q).state)) [
      | inl r ↦ goes q (λ e. absurd (ground (arith, e, ne))) r (rw (busy, ne, r) refl)
      | inr nr ↦ counts (rw (busy, ne, nr) refl)
    ]
  ]
]
  where
    q : ℕ
    q = find_next 64 (s.procs s.current).next s

-- The process `z` has exited with `code`, and another one runs.
pub record IsGone (z : ℕ) (code : ℤ) (s : Sched) : Type 0 where
  pub zombie : (s.procs z).state ≡ proc_zombie
  pub status : (s.procs z).exit_code ≡ code
  pub away : s.current ≢ z

zombie-not_ready : (st : ProcState) → st ≡ proc_zombie → is_ready st ≡ true → true ≡ false
unfolding is_ready
zombie-not_ready st e r = sym r ∙ ap is_ready e

pub switch_to-IsGone :
    (z : ℕ) (code : ℤ) (s : Sched) (q : ℕ)
    → (s.procs z).state ≡ proc_zombie
    → (s.procs z).exit_code ≡ code
    → is_ready (s.procs q).state ≡ true
    → IsGone z code (switch_to q (timer_tick s))
unfolding switch_to timer_tick preempted
switch_to-IsGone z code s q zs zc r = elim (Bool-cases (s.current == z)) [
  | inl e ↦
      let same = (==_iff s.current z).0 e in
      record {
        zombie = rw (==_ne q z apart, e) (ap preempted (ap (λ x. (s.procs x).state) same ∙ zs));
        status = rw (==_ne q z apart, e) (ap (λ x. (s.procs x).exit_code) same ∙ zc);
        away = apart;
      }
  | inr n ↦ record {
    zombie = rw (==_ne q z apart, n) zs;
    status = rw (==_ne q z apart, n) zc;
    away = apart;
  }
]
  where
    apart : q ≢ z
    apart e = absurd (
        ground (
          arith,
          zombie-not_ready (s.procs z).state zs
              (subst (λ x. is_ready (s.procs x).state ≡ true) e r),
        ))

pub tick-IsGone :
    (z : ℕ) (code : ℤ) (s : Sched) → IsGone z code s → IsGone z code (scheduler_tick s).0
unfolding timer_tick
tick-IsGone z code s g = elim (scheduler_tick-Tick s) [
  | counts e ↦
      subst (λ out. IsGone z code out.0) (sym e)
        (record { zombie = g.zombie; status = g.status; away = g.away })
  | goes q ne r e ↦
      subst (λ out. IsGone z code out.0) (sym e) (switch_to-IsGone z code s q g.zombie g.status r)
]

-- The scheduler after `n` ticks of the timer.
unfoldable pub ticks : ℕ → Sched → Sched
ticks zero s = s
ticks (suc n) s = ticks n (scheduler_tick s).0

pub ticks-IsGone : (n z : ℕ) (code : ℤ) (s : Sched) → IsGone z code s → IsGone z code (ticks n s)
unfolding ticks
ticks-IsGone zero z code s g = g
ticks-IsGone (suc n) z code s g =
    ticks-IsGone n z code (scheduler_tick s).0 (tick-IsGone z code s g)
