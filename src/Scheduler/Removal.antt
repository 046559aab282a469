-- ===== src/Scheduler/Removal.antt =====
-- The run queue as a list of processes: the removal of one.
use lightstreak_os.Base.{
  ℕ, ◌≤◌, ◌<◌, ◌≡◌, ◌≢◌, refl, ap, sym, subst, ◌∙◌, inl, some, List, [], ◌∷◌, ◌++◌, arith, length,
  length-append, ==_self, ==_ne, ==_iff, if◌then◌else◌,
}
use lightstreak_os.Scheduler.{Sched, set_next, find_prev, unlink, scheduler_remove}
use lightstreak_os.Scheduler.Links.{
  Links, last, NotIn, AreApart, Links-last, last-NotIn, append-AreApart, NotIn-last, NotIn-append,
  append-NotIn, AreApart-drop, Links-append, append-Links, Links-frame, Links-redirect,
}
use lightstreak_os.Scheduler.Queue.{
  IsRing, next_of, find_prev-last, IsRemoved, state-set_next, remove_found, IsUnlinked, bypassed,
  unlink-IsUnlinked,
}

-- The only process goes.
remove_alone :
    (s : Sched) (p fuel : ℕ)
    → IsRing s (p ∷ [])
    → 0 < fuel
    → IsRemoved s p [] (scheduler_remove fuel p s)
unfolding Links NotIn AreApart unlink bypassed
remove_alone s p fuel r h = record {
  after = record s { run_queue = 0; procs = set_next p 0 s.procs };
  result = remove_found s fuel p p np nr found e ∙ ap some emptied;
  ring = record { head = refl; links = refl; apart = tt; nonzero = tt };
  cut = rw (==_self p) refl;
  states = λ x. state-set_next p 0 x s.procs;
  current = refl;
}
  where
    e : (s.procs p).next ≡ p
    e = r.links.1

    np : p ≢ 0
    np = λ z. r.nonzero.0 (sym z)

    nr : s.run_queue ≢ 0
    nr = λ z. np (sym r.head ∙ z)

    found : find_prev fuel p s.run_queue s ≡ some p
    found =
        subst (λ y. find_prev fuel p y s ≡ some p) (sym r.head)
          (find_prev-last [] p p p s fuel r.links tt tt (inl refl) h)

    emptied : unlink p p s ≡ record s { run_queue = 0; procs = set_next p 0 s.procs }
    emptied =
        ap
          (λ b.
            if b then record s { run_queue = 0; procs = set_next p 0 s.procs } else bypassed p p s)
          ((==_iff (s.procs p).next p).1 e)

-- The first process goes, and the second is the head.
remove_head :
    (s : Sched) (p z fuel : ℕ) (zs : List ℕ)
    → IsRing s (p ∷ z ∷ zs)
    → length (z ∷ zs) < fuel
    → IsRemoved s p (z ∷ zs) (scheduler_remove fuel p s)
unfolding Links NotIn AreApart
remove_head s p z fuel zs r h = record {
  after = unlink p prev s;
  result = remove_found s fuel p prev np nr found (Links-last (next_of s) p p (z ∷ zs) r.links);
  ring = record {
    head =
        u.queue
        ∙ ap (λ b. if b then next_of s p else s.run_queue) ((==_iff s.run_queue p).1 r.head)
        ∙ second;
    links =
        Links-redirect (next_of s) (next_of (unlink p prev s)) z p z zs (refl, r.links.1.1)
          r.apart.1 p r.apart.0 (u.bypass ∙ second) u.frame;
    apart = r.apart.1;
    nonzero = r.nonzero.1;
  };
  cut = u.dropped;
  states = u.same_states;
  current = u.same_current;
}
  where
    prev : ℕ
    prev = last z zs

    second : next_of s p ≡ z
    second = r.links.1.0

    np : p ≢ 0
    np = λ e. r.nonzero.0 (sym e)

    nr : s.run_queue ≢ 0
    nr = λ e. np (sym r.head ∙ e)

    found : find_prev fuel p s.run_queue s ≡ some prev
    found =
        subst (λ y. find_prev fuel p y s ≡ some prev) (sym r.head)
          (find_prev-last (z ∷ zs) p p p s fuel r.links r.apart.0
            (subst (λ y. NotIn y (z ∷ zs)) (sym r.head) r.apart.0) (inl refl) h)

    u : IsUnlinked s p prev (next_of s p) (unlink p prev s)
    u =
        unlink-IsUnlinked s p prev (λ e. r.apart.0.0 (sym e ∙ second))
          (λ e. NotIn-last p z zs r.apart.0 (sym e))

next-ne :
    (s : Sched) (p h : ℕ) (zs : List ℕ)
    → Links (next_of s) p (p ∷ zs) h
    → p ≢ h
    → NotIn p zs
    → next_of s p ≢ p
unfolding Links NotIn
next-ne s p h [] (_, e) nh out = λ z. nh (sym z ∙ e)
next-ne s p h (y ∷ ys) (_, (e, _)) nh (ny, _) = λ z. ny (sym z ∙ e)

-- A process behind the head goes.
remove_later :
    (s : Sched) (p h fuel : ℕ) (us zs : List ℕ)
    → IsRing s ((h ∷ us) ++ (p ∷ zs))
    → length us < fuel
    → IsRemoved s p ((h ∷ us) ++ zs) (scheduler_remove fuel p s)
unfolding Links NotIn AreApart
remove_later s p h fuel us zs r lt = record {
  after = unlink p prev s;
  result = remove_found s fuel p prev np nr found (Links-last (next_of s) h p us front);
  ring = record {
    head =
        u.queue
        ∙ ap (λ b. if b then next_of s p else s.run_queue) (==_ne s.run_queue p away)
        ∙ r.head;
    links = append-Links (next_of (unlink p prev s)) h (next_of s p) h (h ∷ us) zs joined rest;
    apart = (AreApart-drop p (h ∷ us) zs r.apart).0;
    nonzero =
        append-NotIn 0 (h ∷ us) zs (NotIn-append 0 (h ∷ us) (p ∷ zs) r.nonzero).0
          (NotIn-append 0 (h ∷ us) (p ∷ zs) r.nonzero).1.1;
  };
  cut = u.dropped;
  states = u.same_states;
  current = u.same_current;
}
  where
    prev : ℕ
    prev = last h us

    halves : Links (next_of s) h (h ∷ us) p × Links (next_of s) p (p ∷ zs) h
    halves = Links-append (next_of s) h h (h ∷ us) (p ∷ zs) r.links

    front : Links (next_of s) h (h ∷ us) p
    front = halves.0

    outside : NotIn p (h ∷ us) × NotIn p zs
    outside = NotIn-append p (h ∷ us) zs (AreApart-drop p (h ∷ us) zs r.apart).1

    np : p ≢ 0
    np = λ e. (NotIn-append 0 (h ∷ us) (p ∷ zs) r.nonzero).1.0 (sym e)

    nr : s.run_queue ≢ 0
    nr = λ e. r.nonzero.0 (sym e ∙ r.head)

    away : s.run_queue ≢ p
    away = λ e. outside.0.0 (sym e ∙ r.head)

    found : find_prev fuel p s.run_queue s ≡ some prev
    found =
        subst (λ y. find_prev fuel p y s ≡ some prev) (sym r.head)
          (find_prev-last us h p p s fuel front outside.0.1
            (subst (λ y. NotIn y us) (sym r.head) (NotIn-append h us (p ∷ zs) r.apart.0).0)
            (inl refl) lt)

    u : IsUnlinked s p prev (next_of s p) (unlink p prev s)
    u =
        unlink-IsUnlinked s p prev (next-ne s p h zs halves.1 outside.0.0 outside.1)
          (λ e. NotIn-last p h us outside.0 (sym e))

    joined : Links (next_of (unlink p prev s)) h (h ∷ us) (next_of s p)
    joined =
        Links-redirect (next_of s) (next_of (unlink p prev s)) h p (next_of s p) us front
          (append-AreApart (h ∷ us) (p ∷ zs) r.apart) p outside.0 u.bypass u.frame

    rest : Links (next_of (unlink p prev s)) (next_of s p) zs h
    rest =
        Links-frame (next_of s) (next_of (unlink p prev s)) (next_of s p) h zs halves.1.1 prev p
          (last-NotIn h p us zs r.apart) outside.1 u.frame

-- For a run queue whose ring is a list of different processes from the head on, none of them NULL,
-- `scheduler_remove` of a member returns, with the length of the list as the bound on its walk, and
-- the ring is then the list without that process; its own link is NULL, the state of every process
-- and the current process are unchanged.
pub scheduler_remove-IsRemoved :
    (s : Sched) (p fuel : ℕ) (ys zs : List ℕ)
    → IsRing s (ys ++ (p ∷ zs))
    → length (ys ++ (p ∷ zs)) ≤ fuel
    → IsRemoved s p (ys ++ zs) (scheduler_remove fuel p s)
scheduler_remove-IsRemoved s p fuel [] [] r h = remove_alone s p fuel r h
scheduler_remove-IsRemoved s p fuel [] (z ∷ zs) r h = remove_head s p z fuel zs r h
scheduler_remove-IsRemoved s p fuel (y ∷ ys) zs r h =
    remove_later s p y fuel ys zs r (omega (arith, h, length-append ys (p ∷ zs)))
