-- ===== src/Heap/Frame.antt =====
-- kernel/mm/heap.c: what the calls leave alone. Each ends with a valid heap in the same place, and
-- memory outside the heap keeps its bytes.
use lightstreak_os.Base.{
  ℕ, zero, suc, ◌+◌, ◌^◌, ◌<◌, ◌≤◌, ◌≡◌, ◌≢◌, refl, sym, ◌∙◌, ◌⊎◌, inl, inr, ◌&&◌, Option, some,
  arith, ltb, leb, if◌then◌else◌, List, subst, ap, sub32, ==_ne,
}
use lightstreak_os.Heap.{Heap, place, search_fit, kmalloc, kzalloc, kfree, zero_fill, align4}
use lightstreak_os.Heap.Blocks.{Block, UsedAt, IsHeap}
use lightstreak_os.Heap.Safe.{Given, kmalloc_safe, kmalloc-bytes, kzalloc_zeroes}
use lightstreak_os.Heap.Release.{kfree_safe}

-- An address below the heap, or at or above its end.
abbrev pub IsOutside : Heap → ℕ → Type 0
IsOutside s x = (x < s.heap_start_addr) ⊎ (s.heap_end_addr ≤ x)

-- A valid heap, and the one in the same place after some calls.
pub record IsWithin (s t : Heap) : Type 0 where
  pub blocks : List Block
  pub valid : IsHeap t blocks
  pub start : t.heap_start_addr ≡ s.heap_start_addr
  pub end : t.heap_end_addr ≡ s.heap_end_addr
  pub outside : (x : ℕ) → IsOutside s x → t.bytes x ≡ s.bytes x

pub IsWithin-refl : (s : Heap) (bs : List Block) → IsHeap s bs → IsWithin s s
IsWithin-refl s bs v = record {
  blocks = bs;
  valid = v;
  start = refl;
  end = refl;
  outside = λ x h. refl;
}

pub IsWithin-trans : (s t u : Heap) → IsWithin s t → IsWithin t u → IsWithin s u
IsWithin-trans s t u a b = record {
  blocks = b.blocks;
  valid = b.valid;
  start = b.start ∙ a.start;
  end = b.end ∙ a.end;
  outside = λ x h. b.outside x (omega (arith, h, a.end, a.start)) ∙ a.outside x h;
}

search_fit-end :
    (fuel n p : ℕ) (s : Heap) (r : ℕ × Heap)
    → search_fit fuel n p s ≡ some r
    → r.1.heap_end_addr ≡ s.heap_end_addr
unfolding search_fit place
search_fit-end zero n p s r e = cc
search_fit-end (suc fuel) n p s r e = ground (arith, search_fit-end fuel n (s.hdr p).next s r)

kmalloc-end :
    (size : ℕ) (s : Heap) (r : ℕ × Heap)
    → kmalloc size s ≡ some r
    → r.1.heap_end_addr ≡ s.heap_end_addr
unfolding kmalloc
kmalloc-end size s r e = ground (
  arith,
  search_fit-end (suc (sub32 s.heap_end_addr s.heap_start_addr)) (align4 size) s.heap_head s r,
)

kfree-end : (p : ℕ) (s : Heap) → (kfree p s).heap_end_addr ≡ s.heap_end_addr
unfolding kfree
kfree-end p s = ground arith

kfree-bytes : (p : ℕ) (s : Heap) → (kfree p s).bytes ≡ s.bytes
unfolding kfree
kfree-bytes p s = ground arith

-- What an allocation returns: NULL and the heap as it was, or a payload in use.
pub record IsGiven (size : ℕ) (s : Heap) (o : Option (ℕ × Heap)) : Type 0 where
  pub pointer : ℕ
  pub after : Heap
  pub result : o ≡ some (pointer, after)
  pub within : IsWithin s after
  pub payload :
      ((pointer ≡ 0) × (after ≡ s))
      ⊎ ((k : ℕ) × UsedAt after.heap_start_addr within.blocks pointer k
          × (pointer + size ≤ s.heap_end_addr))

pub kmalloc-IsGiven :
    (size : ℕ) (s : Heap) (bs : List Block)
    → IsHeap s bs
    → 0 < size
    → size + 3 < 2 ^ 32
    → IsGiven size s (kmalloc size s)
kmalloc-IsGiven size s bs v pos w =
    let (p, t, e, outcome) = kmalloc_safe size s bs v pos w in
    elim outcome [
      | inl (null, same, _) ↦ record {
        pointer = p;
        after = t;
        result = e;
        within = subst (IsWithin s) (sym same) (IsWithin-refl s bs v);
        payload = inl (null, same);
      }
      | inr (cs, g) ↦ record {
        pointer = p;
        after = t;
        result = e;
        within = record {
          blocks = cs;
          valid = g.valid;
          start = g.start;
          end = kmalloc-end size s (p, t) e;
          outside = λ x h. ap (λ f. f x) (kmalloc-bytes size s (p, t) e);
        };
        payload = inr (
          g.used.0,
          subst (λ a. UsedAt a cs p g.used.0) (sym g.start) g.used.2,
          omega (arith, g.below, kmalloc-end size s (p, t) e),
        );
      }
    ]

-- The bytes of the payloads do not matter.
pub rewritten-IsHeap :
    (bytes : ℕ → ℕ) (t : Heap) (bs : List Block)
    → IsHeap t bs
    → IsHeap (record t { bytes = bytes }) bs
rewritten-IsHeap bytes t bs v = record {
  chain = v.chain;
  start_pos = v.start_pos;
  start_aligned = v.start_aligned;
  end_lt = v.end_lt;
  counted = v.counted;
}

kzalloc_null : (size : ℕ) (s t : Heap) → kmalloc size s ≡ some (0, t) → kzalloc size s ≡ some (0, t)
unfolding kzalloc
kzalloc_null size s t e = rw (kzalloc, e) refl

pub kzalloc_given :
    (size p : ℕ) (s t : Heap)
    → kmalloc size s ≡ some (p, t)
    → p ≢ 0
    → kzalloc size s ≡ some (p, record t { bytes = zero_fill size p t.bytes })
unfolding kzalloc
kzalloc_given size p s t e ne = rw (kzalloc, e) (rw (==_ne p 0 ne) refl)

-- The payload that is zeroed ends in front of the end of the heap.
filled :
    (s t : Heap) (size p x : ℕ) {bs : List Block} (cs : List Block)
    → Given s t bs cs p size
    → kmalloc size s ≡ some (p, t)
    → IsOutside s x
    → zero_fill size p t.bytes x ≡ s.bytes x
filled s t size p x cs g e h =
    kzalloc_zeroes size p x s (record t { bytes = zero_fill size p t.bytes })
      (kzalloc_given size p s t e ne) ne
    ∙ apart h
  where
    ne : p ≢ 0
    ne z = absurd (omega (arith, z, g.above))

    apart : IsOutside s x → (if leb p x && ltb x (p + size) then 0 else s.bytes x) ≡ s.bytes x
    apart (inl h) = ground (arith, h, g.above)
    apart (inr h) = ground (arith, h, g.below, kmalloc-end size s (p, t) e)

pub kzalloc-IsGiven :
    (size : ℕ) (s : Heap) (bs : List Block)
    → IsHeap s bs
    → 0 < size
    → size + 3 < 2 ^ 32
    → IsGiven size s (kzalloc size s)
kzalloc-IsGiven size s bs v pos w =
    let (p, t, e, outcome) = kmalloc_safe size s bs v pos w in
    elim outcome [
      | inl (null, same, _) ↦ record {
        pointer = 0;
        after = t;
        result = kzalloc_null size s t (e ∙ ap (λ q. some (q, t)) null);
        within = subst (IsWithin s) (sym same) (IsWithin-refl s bs v);
        payload = inl (refl, same);
      }
      | inr (cs, g) ↦ record {
        pointer = p;
        after = record t { bytes = zero_fill size p t.bytes };
        result = kzalloc_given size p s t e (λ z. absurd (omega (arith, z, g.above)));
        within = record {
          blocks = cs;
          valid = rewritten-IsHeap (zero_fill size p t.bytes) t cs g.valid;
          start = g.start;
          end = kmalloc-end size s (p, t) e;
          outside = λ x h. filled s t size p x cs g e h;
        };
        payload = inr (
          g.used.0,
          subst (λ a. UsedAt a cs p g.used.0) (sym g.start) g.used.2,
          omega (arith, g.below, kmalloc-end size s (p, t) e),
        );
      }
    ]

pub kfree-IsWithin :
    (p k : ℕ) (s : Heap) (bs : List Block)
    → IsHeap s bs
    → UsedAt s.heap_start_addr bs p k
    → IsWithin s (kfree p s)
kfree-IsWithin p k s bs v u =
    let (cs, valid, start, _) = kfree_safe p k s bs v u in
    record {
      blocks = cs;
      valid = valid;
      start = start;
      end = kfree-end p s;
      outside = λ x h. ap (λ f. f x) (kfree-bytes p s);
    }
