-- ===== src/Scheduler/Queue.antt =====
-- The run queue as a list of processes, the walk to the front of one, and what its removal changes.
use lightstreak_os.Base.{
  ℕ, zero, suc, ◌<◌, ◌≡◌, ◌≢◌, refl, ap, sym, subst, ◌∙◌, ◌⊎◌, inl, inr, true, false, ◌||◌, Option,
  some, List, [], ◌∷◌, arith, length, ◌==◌, ==_self, ==_ne, ==_iff, Bool-cases, if◌then◌else◌,
}
use lightstreak_os.Scheduler.{
  Pcb, Sched, set_next, find_prev, unlink, finish_remove, scheduler_remove,
}
use lightstreak_os.Scheduler.Links.{Links, start, last, NotIn, AreApart}

abbrev pub next_of : Sched → ℕ → ℕ
next_of s x = (s.procs x).next

-- The links run from the head of the run queue through the list and back to the head; the
-- processes are different, and none is NULL.
pub record IsRing (s : Sched) (xs : List ℕ) : Type 0 where
  pub head : s.run_queue ≡ start xs 0
  pub links : Links (next_of s) (start xs 0) xs (start xs 0)
  pub apart : AreApart xs
  pub nonzero : NotIn 0 xs

-- The walk stops at the last process in front of `p` or of the head.
pub find_prev-last :
    (us : List ℕ) (x t p : ℕ) (s : Sched) (fuel : ℕ)
    → Links (next_of s) x (x ∷ us) t
    → NotIn p us
    → NotIn s.run_queue us
    → ((t ≡ p) ⊎ (t ≡ s.run_queue))
    → length us < fuel
    → find_prev fuel p x s ≡ some (last x us)
unfolding Links NotIn find_prev
find_prev-last us x t p s zero l a b e h = absurd (omega (arith, h))
find_prev-last [] x t p s (suc n) (_, l) a b e h = rw (stop) refl
  where
    stop : ((s.procs x).next == p || (s.procs x).next == s.run_queue) ≡ true
    stop = elim e [ inl e ↦ ground (arith, l, e) | inr e ↦ ground (arith, l, e) ]
find_prev-last (y ∷ us) x t p s (suc n) (_, (l, ls)) (np, a) (nr, b) e h = rw (onward) (
    subst (λ q. find_prev n p q s ≡ some (last y us)) (sym l)
      (find_prev-last us y t p s n (refl, ls) a b e (omega (arith, h))))
  where
    onward : ((s.procs x).next == p || (s.procs x).next == s.run_queue) ≡ false
    onward = rw (l) (rw (==_ne y p (λ z. np (sym z)), ==_ne y s.run_queue (λ z. nr (sym z))) refl)

-- What the removal of `p` leaves.
pub record IsRemoved (s : Sched) (p : ℕ) (xs : List ℕ) (o : Option Sched) : Type 0 where
  pub after : Sched
  pub result : o ≡ some after
  pub ring : IsRing after xs
  pub cut : (after.procs p).next ≡ 0
  pub states : (x : ℕ) → (after.procs x).state ≡ (s.procs x).state
  pub current : after.current ≡ s.current

pub state-set_next : (a v x : ℕ) (procs : ℕ → Pcb) → (set_next a v procs x).state ≡ (procs x).state
state-set_next a v x procs = elim (Bool-cases (a == x)) [
  | inl e ↦ rw (e) (ap (λ y. (procs y).state) ((==_iff a x).0 e))
  | inr n ↦ rw (n) refl
]

-- The removal, once the process in front of `p` is found.
pub remove_found :
    (s : Sched) (fuel p prev : ℕ)
    → p ≢ 0
    → s.run_queue ≢ 0
    → find_prev fuel p s.run_queue s ≡ some prev
    → (s.procs prev).next ≡ p
    → scheduler_remove fuel p s ≡ some (unlink p prev s)
unfolding scheduler_remove finish_remove
remove_found s fuel p prev np nr found e =
    rw (==_ne p 0 np, ==_ne s.run_queue 0 nr)
      (ap (finish_remove p s) found ∙ rw (e) (rw (==_self p) refl))

-- What `unlink` changes when `p` is not alone.
pub record IsUnlinked (s : Sched) (p prev q : ℕ) (t : Sched) : Type 0 where
  pub queue : t.run_queue ≡ (if s.run_queue == p then q else s.run_queue)
  pub dropped : (t.procs p).next ≡ 0
  pub bypass : (t.procs prev).next ≡ q
  pub frame : (x : ℕ) → x ≢ prev → x ≢ p → (t.procs x).next ≡ (s.procs x).next
  pub same_states : (x : ℕ) → (t.procs x).state ≡ (s.procs x).state
  pub same_current : t.current ≡ s.current

unfoldable pub bypassed : ℕ → ℕ → Sched → Sched
bypassed p prev s =
    let q = (s.procs p).next in
    record s {
      run_queue = if s.run_queue == p then q else s.run_queue;
      procs = set_next p 0 (set_next prev q s.procs);
    }

pub unlink-bypassed :
    (s : Sched) (p prev : ℕ) → (s.procs p).next ≢ p → unlink p prev s ≡ bypassed p prev s
unfolding unlink bypassed
unlink-bypassed s p prev nq =
    ap
      (λ b.
        if b then record s { run_queue = 0; procs = set_next p 0 s.procs } else bypassed p prev s)
      (==_ne (s.procs p).next p nq)

bypassed-IsUnlinked :
    (s : Sched) (p prev : ℕ) → prev ≢ p → IsUnlinked s p prev (next_of s p) (bypassed p prev s)
unfolding bypassed
bypassed-IsUnlinked s p prev np = record {
  queue = refl;
  dropped = rw (==_self p) refl;
  bypass = rw (==_ne p prev (λ z. np (sym z))) (rw (==_self prev) refl);
  frame = λ x a b. rw (==_ne p x (λ z. b (sym z))) (rw (==_ne prev x (λ z. a (sym z))) refl);
  same_states = λ x.
      state-set_next p 0 x (set_next prev (next_of s p) s.procs)
      ∙ state-set_next prev (next_of s p) x s.procs;
  same_current = refl;
}

pub unlink-IsUnlinked :
    (s : Sched) (p prev : ℕ)
    → next_of s p ≢ p
    → prev ≢ p
    → IsUnlinked s p prev (next_of s p) (unlink p prev s)
unlink-IsUnlinked s p prev nq np =
    subst (IsUnlinked s p prev (next_of s p)) (sym (unlink-bypassed s p prev nq))
      (bypassed-IsUnlinked s p prev np)
