-- ===== src/Process/Creation.antt =====
-- kernel/proc/process.c on a valid heap: creation returns, and leaves a valid heap.
use lightstreak_os.Base.{
  ℕ, ◌≡◌, ◌≢◌, refl, ap, sym, subst, ◌∙◌, inl, inr, Option, none, some, List, [], ◌∷◌, arith, ==_ne,
  add32,
}
use lightstreak_os.Heap.{Heap, kzalloc, kfree}
use lightstreak_os.Heap.Blocks.{Block, UsedAt, IsHeap}
use lightstreak_os.Heap.Fit.{UsedAt-le}
use lightstreak_os.Heap.Frame.{IsWithin, IsWithin-trans, IsGiven, kzalloc-IsGiven, kfree-IsWithin}
use lightstreak_os.Process.{
  NewProcess, Kernel, kernel_stack_size, process_size, allocate, set_up, start, process_create,
}

abbrev IsSolid : Option (ℕ × ℕ) → Type 0
IsSolid none = Unit {0}
IsSolid (some (p, stack)) = p ≢ 0

-- What `allocate` returns: nothing, or two addresses, the first not NULL.
record IsAllocated (h : Heap) (o : Option (Option (ℕ × ℕ) × Heap)) : Type 0 where
  pair : Option (ℕ × ℕ)
  after : Heap
  result : o ≡ some (pair, after)
  within : IsWithin h after
  solid : IsSolid pair

no_block : (h h1 : Heap) → kzalloc process_size h ≡ some (0, h1) → allocate h ≡ some (none, h1)
unfolding allocate
no_block h h1 e = rw (allocate, e) refl

module _ (h h1 : Heap) (p : ℕ) (e : kzalloc process_size h ≡ some (p, h1)) (np : p ≢ 0) where
  no_stack :
      (h2 : Heap)
      → kzalloc kernel_stack_size h1 ≡ some (0, h2)
      → allocate h ≡ some (none, kfree p h2)
  unfolding allocate
  no_stack h2 e2 = rw (allocate, e) (rw (==_ne p 0 np) (rw (e2) refl))

  pub both :
      (stack : ℕ) (h2 : Heap)
      → kzalloc kernel_stack_size h1 ≡ some (stack, h2)
      → stack ≢ 0
      → allocate h ≡ some (some (p, stack), h2)
  unfolding allocate
  both stack h2 e2 ns = rw (allocate, e) (rw (==_ne p 0 np) (rw (e2) (rw (==_ne stack 0 ns) refl)))

pub used-ne : (a p k : ℕ) (bs : List Block) → UsedAt a bs p k → p ≢ 0
used-ne a p k bs u z = absurd (omega (arith, z, UsedAt-le a p k bs u))

allocate-IsAllocated : (h : Heap) (bs : List Block) → IsHeap h bs → IsAllocated h (allocate h)
allocate-IsAllocated h bs v = elim g.payload [
  | inl (null, same) ↦ record {
    pair = none;
    after = g.after;
    result = no_block h g.after (g.result ∙ ap (λ q. some (q, g.after)) null);
    within = g.within;
    solid = tt;
  }
  | inr (k, u, _) ↦ stacked k u
]
  where
    g : IsGiven process_size h (kzalloc process_size h)
    g = kzalloc-IsGiven process_size h bs v (omega arith) (omega arith)

    s : IsGiven kernel_stack_size g.after (kzalloc kernel_stack_size g.after)
    s =
        kzalloc-IsGiven kernel_stack_size g.after g.within.blocks g.within.valid (omega arith)
          (omega arith)

    stacked :
        (k : ℕ)
        → UsedAt g.after.heap_start_addr g.within.blocks g.pointer k
        → IsAllocated h (allocate h)
    stacked k u = elim s.payload [
      | inl (null, same) ↦ record {
        pair = none;
        after = kfree g.pointer s.after;
        result =
            no_stack h g.after g.pointer g.result np s.after
              (s.result ∙ ap (λ q. some (q, s.after)) null);
        within =
            subst (λ x. IsWithin h (kfree g.pointer x)) (sym same)
              (IsWithin-trans h g.after (kfree g.pointer g.after) g.within
                (kfree-IsWithin g.pointer k g.after g.within.blocks g.within.valid u));
        solid = tt;
      }
      | inr (l, w, _) ↦ record {
        pair = some (g.pointer, s.pointer);
        after = s.after;
        result =
            both h g.after g.pointer g.result np s.pointer s.after s.result
              (used-ne s.after.heap_start_addr s.pointer l s.within.blocks w);
        within = IsWithin-trans h g.after s.after g.within s.within;
        solid = np;
      }
    ]
      where
        np : g.pointer ≢ 0
        np = used-ne g.after.heap_start_addr g.pointer k g.within.blocks u

-- What a creation comes to: no process, or one with the next number at an address that is not NULL.
pub data Created (s : Kernel) : Option (Option (ℕ × NewProcess) × Kernel) → Type 0 where
  failed :
      (h : Heap) {out : Option (Option (ℕ × NewProcess) × Kernel)}
      → IsWithin s.heap h
      → out ≡ some (none, record s { heap = h })
      → Created s out
  created :
      (p : ℕ) (r : NewProcess) (t : Kernel) {out : Option (Option (ℕ × NewProcess) × Kernel)}
      → IsWithin s.heap t.heap
      → p ≢ 0
      → r.pid ≡ s.next_pid
      → t.next_pid ≡ add32 s.next_pid 1
      → out ≡ some (some (p, r), t)
      → Created s out

-- On a valid heap `process_create` returns, and what it leaves is a valid heap again: there is no
-- process, or one with the next number at an address that is not NULL.
pub process_create-Created :
    (kthread_entry dir entry : ℕ) (s : Kernel) (bs : List Block)
    → IsHeap s.heap bs
    → Created s (process_create kthread_entry dir entry s)
unfolding process_create start set_up
process_create-Created kthread_entry dir entry s bs v =
    let a = allocate-IsAllocated s.heap bs v in go a.pair a.after a.result a.within a.solid
  where
    words : List ℕ
    words = entry ∷ kthread_entry ∷ 0 ∷ 0 ∷ 0 ∷ 0 ∷ []

    go :
        (pair : Option (ℕ × ℕ)) (h : Heap)
        → allocate s.heap ≡ some (pair, h)
        → IsWithin s.heap h
        → IsSolid pair
        → Created s (process_create kthread_entry dir entry s)
    go none h e w solid = failed h w (rw (process_create, start, e) refl)
    go (some (p, stack)) h e w solid =
        let made = set_up dir words p stack (record s { heap = h }) in
        created p made.0.1 made.1 w solid refl refl (rw (process_create, start, e) refl)
