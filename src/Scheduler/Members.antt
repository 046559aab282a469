-- ===== src/Scheduler/Members.antt =====
-- Which processes the run queue holds after adding one, and a removal that finds nothing.
use lightstreak_os.Base.{
  ℕ, ◌<◌, ◌≡◌, ◌≢◌, refl, ap, sym, subst, fun_ext, ◌∙◌, inl, inr, Bool-cases, some, List, [], ◌∷◌,
  length, ◌==◌, ==_self, ==_ne, ==_iff,
}
use lightstreak_os.Scheduler.{
  ProcState, Pcb, Sched, proc_ready, set_state, set_next, scheduler_add, find_prev, finish_remove,
  scheduler_remove, proc_running, preempted, timer_tick, switch_to, scheduler_tick,
}
use lightstreak_os.Scheduler.Choice.{next-set_state}
use lightstreak_os.Scheduler.Zombies.{counts, goes, scheduler_tick-Tick}
use lightstreak_os.Scheduler.Links.{Links, start, last, NotIn, AreApart, Links-last, Links-frame}
use lightstreak_os.Scheduler.Removal.{scheduler_remove-IsRemoved}
use lightstreak_os.Scheduler.Queue.{IsRing, next_of, find_prev-last, state-set_next, IsRemoved}

-- A process that the run queue does not hold is not removed.
pub remove_absent :
    (s : Sched) (p h fuel : ℕ) (us : List ℕ)
    → IsRing s (h ∷ us)
    → NotIn p (h ∷ us)
    → length us < fuel
    → scheduler_remove fuel p s ≡ some s
unfolding Links NotIn AreApart scheduler_remove finish_remove
remove_absent s p h fuel us r out lt = elim (Bool-cases (p == 0)) [
  | inl e ↦ rw (e) refl
  | inr n ↦ rw (n, ==_ne s.run_queue 0 nr) (ap (finish_remove p s) found ∙ unchanged)
]
  where
    nr : s.run_queue ≢ 0
    nr = λ e. r.nonzero.0 (sym e ∙ r.head)

    found : find_prev fuel p s.run_queue s ≡ some (last h us)
    found =
        subst (λ y. find_prev fuel p y s ≡ some (last h us)) (sym r.head)
          (find_prev-last us h h p s fuel r.links out.1
            (subst (λ y. NotIn y us) (sym r.head) r.apart.0) (inr (sym r.head)) lt)

    unchanged : finish_remove p s (some (last h us)) ≡ some s
    unchanged = rw (Links-last (next_of s) h h us r.links, ==_ne h p (λ e. out.0 (sym e))) refl

abbrev pub behind_head : ℕ → List ℕ → List ℕ
behind_head p [] = p ∷ []
behind_head p (x ∷ xs) = x ∷ p ∷ xs

-- What `scheduler_add` leaves.
pub record IsAdded (s : Sched) (p : ℕ) (xs : List ℕ) (t : Sched) : Type 0 where
  pub ring : IsRing t xs
  pub readied : (t.procs p).state ≡ proc_ready
  pub others : (x : ℕ) → x ≢ p → (t.procs x).state ≡ (s.procs x).state
  pub current : t.current ≡ s.current

-- Reading the store of processes after a write.
next-set_next : (a v : ℕ) (procs : ℕ → Pcb) → (set_next a v procs a).next ≡ v
next-set_next a v procs = rw (==_self a) refl

set_next-other : (a v x : ℕ) (procs : ℕ → Pcb) → x ≢ a → set_next a v procs x ≡ procs x
set_next-other a v x procs n = rw (==_ne a x (λ e. n (sym e))) refl

set_state-other :
    (a x : ℕ) (st : ProcState) (procs : ℕ → Pcb) → x ≢ a → set_state a st procs x ≡ procs x
set_state-other a x st procs n = rw (==_ne a x (λ e. n (sym e))) refl

state-set_state : (a : ℕ) (st : ProcState) (procs : ℕ → Pcb) → (set_state a st procs a).state ≡ st
state-set_state a st procs = rw (==_self a) refl

-- The first process makes a ring of its own.
add_first : (s : Sched) (p : ℕ) → IsRing s [] → p ≢ 0 → IsAdded s p (p ∷ []) (scheduler_add p s)
unfolding Links NotIn AreApart scheduler_add
add_first s p r n =
    rw (==_ne p 0 n, (==_iff s.run_queue 0).1 r.head)
      record {
        ring = record {
          head = refl;
          links = (refl, next-set_next p p (set_state p proc_ready s.procs));
          apart = (tt, tt);
          nonzero = ((λ e. n (sym e)), tt);
        };
        readied =
            state-set_next p p p (set_state p proc_ready s.procs)
            ∙ state-set_state p proc_ready s.procs;
        others = λ x a.
            state-set_next p p x (set_state p proc_ready s.procs)
            ∙ ap (λ y. y.state) (set_state-other p x proc_ready s.procs a);
        current = refl;
      }

-- A later process stands behind the head.
add_head :
    (s : Sched) (p : ℕ) (xs : List ℕ)
    → IsRing s (s.run_queue ∷ xs)
    → p ≢ 0
    → NotIn p (s.run_queue ∷ xs)
    → IsAdded s p (s.run_queue ∷ p ∷ xs) (scheduler_add p s)
unfolding Links NotIn AreApart scheduler_add
add_head s p xs r n out =
    rw (==_ne p 0 n, ==_ne s.run_queue 0 (λ e. r.nonzero.0 (sym e)))
      record {
        ring = record {
          head = refl;
          links = (
            refl,
            (
              next-set_next h p mid,
              subst (λ y. Links (λ x. (end x).next) y xs h) (sym second)
                  (Links-frame (next_of s) (λ x. (end x).next) (next_of s h) h xs r.links.1 h p
                    r.apart.0 out.1 frame),
            ),
          );
          apart = (((λ e. out.0 (sym e)), r.apart.0), (out.1, r.apart.1));
          nonzero = (r.nonzero.0, ((λ e. n (sym e)), r.nonzero.1));
        };
        readied = states p ∙ state-set_state p proc_ready s.procs;
        others = λ x a. states x ∙ ap (λ y. y.state) (set_state-other p x proc_ready s.procs a);
        current = refl;
      }
  where
    h : ℕ
    h = s.run_queue

    first : ℕ → Pcb
    first = set_state p proc_ready s.procs

    mid : ℕ → Pcb
    mid = set_next p (first h).next first

    end : ℕ → Pcb
    end = set_next h p mid

    second : (end p).next ≡ next_of s h
    second =
        ap (λ y. y.next) (set_next-other h p p mid out.0)
        ∙ (next-set_next p (first h).next first
            ∙ ap (λ y. y.next) (set_state-other p h proc_ready s.procs (λ e. out.0 (sym e))))

    frame : (x : ℕ) → x ≢ h → x ≢ p → (end x).next ≡ (s.procs x).next
    frame = λ x a b.
        ap (λ y. y.next)
          (set_next-other h p x mid a
            ∙ (set_next-other p (first h).next x first b
                ∙ set_state-other p x proc_ready s.procs b))

    states : (x : ℕ) → (end x).state ≡ (first x).state
    states = λ x. state-set_next h p x mid ∙ state-set_next p (first h).next x first

-- A new process goes behind the head of the run queue, or becomes the head.
pub scheduler_add-IsAdded :
    (s : Sched) (p : ℕ) (xs : List ℕ)
    → IsRing s xs
    → p ≢ 0
    → NotIn p xs
    → IsAdded s p (behind_head p xs) (scheduler_add p s)
scheduler_add-IsAdded s p [] r n out = add_first s p r n
scheduler_add-IsAdded s p (h ∷ xs) r n out =
    subst (λ y. IsRing s (y ∷ xs) → NotIn p (y ∷ xs) → IsAdded s p (y ∷ p ∷ xs) (scheduler_add p s))
      r.head (λ r out. add_head s p xs r n out) r out

-- A process that is not NULL and not in the run queue, added by `scheduler_add` and removed again
-- by `scheduler_remove`, which returns, leaves the ring of the same processes in the same order;
-- the states and the current process are those after the addition.
pub add_remove :
    (s : Sched) (p fuel : ℕ) (xs : List ℕ)
    → IsRing s xs
    → p ≢ 0
    → NotIn p xs
    → length xs < fuel
    → IsRemoved (scheduler_add p s) p xs (scheduler_remove fuel p (scheduler_add p s))
add_remove s p fuel [] r n out h =
    scheduler_remove-IsRemoved (scheduler_add p s) p fuel [] []
      (scheduler_add-IsAdded s p [] r n out).ring h
add_remove s p fuel (x ∷ xs) r n out h =
    scheduler_remove-IsRemoved (scheduler_add p s) p fuel (x ∷ []) xs
      (scheduler_add-IsAdded s p (x ∷ xs) r n out).ring h

-- The ring depends on the links only.
pub IsRing-frame :
    (s t : Sched) (xs : List ℕ)
    → t.run_queue ≡ s.run_queue
    → ((x : ℕ) → next_of t x ≡ next_of s x)
    → IsRing s xs
    → IsRing t xs
IsRing-frame s t xs head same r = record {
  head = head ∙ r.head;
  links =
      subst (λ next. Links next (start xs 0) xs (start xs 0)) (fun_ext (λ x. sym (same x))) r.links;
  apart = r.apart;
  nonzero = r.nonzero;
}

-- A tick of the timer keeps the ring.
pub tick-IsRing : (s : Sched) (xs : List ℕ) → IsRing s xs → IsRing (scheduler_tick s).0 xs
unfolding timer_tick switch_to
tick-IsRing s xs r = elim (scheduler_tick-Tick s) [
  | counts e ↦
      subst (λ o. IsRing o.0 xs) (sym e) (IsRing-frame s (timer_tick s) xs refl (λ x. refl) r)
  | goes q ne ready e ↦
      subst (λ o. IsRing o.0 xs) (sym e)
        (IsRing-frame s (switch_to q (timer_tick s)) xs refl
          (λ x.
            next-set_state q x proc_running
              (set_state s.current (preempted (s.procs s.current).state) s.procs)
            ∙ next-set_state s.current x (preempted (s.procs s.current).state) s.procs)
          r)
]

pub add_first-pid :
    (s : Sched) (p : ℕ)
    → s.run_queue ≡ 0
    → p ≢ 0
    → ((scheduler_add p s).procs p).pid ≡ (s.procs p).pid
unfolding scheduler_add
add_first-pid s p e n = rw (==_ne p 0 n, (==_iff s.run_queue 0).1 e) (rw (==_self p) refl)

pub IsRing-empty : (s : Sched) → s.run_queue ≡ 0 → IsRing s []
unfolding Links NotIn AreApart
IsRing-empty s e = record { head = e; links = refl; apart = tt; nonzero = tt }

-- A process that joins a run queue stands behind its head and is ready.
pub scheduler_add-behind :
    (p : ℕ) (s : Sched)
    → p ≢ 0
    → s.run_queue ≢ 0
    → let t = scheduler_add p s in
      ((t.procs t.run_queue).next ≡ p) × ((t.procs p).state ≡ proc_ready)
unfolding scheduler_add
scheduler_add-behind p s np h =
    rw (==_ne p 0 np, ==_ne s.run_queue 0 h)
      (
        rw (==_self s.run_queue) refl,
        (elim (Bool-cases (s.run_queue == p)) [
          | inl e ↦ let same = (==_iff s.run_queue p).0 e in rw (same, ==_self p) refl
          | inr n ↦ rw (n, ==_self p) refl
        ]),
      )
