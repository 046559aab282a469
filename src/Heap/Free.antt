-- ===== src/Heap/Free.antt =====
-- kernel/mm/heap.c: `kfree` frees the block of its pointer, and merges it with the block behind it.
use lightstreak_os.Base.{
  ℕ, ◌+◌, ◌-◌, ◌^◌, ◌<◌, ◌≡◌, ◌≢◌, refl, inl, inr, Bool, true, false, arith, ◌==◌, if◌then◌else◌,
  List, [], ◌∷◌, subst, Bool-cases, update, add32, sym, ◌∙◌,
}
use lightstreak_os.Heap.{heap_magic, hdr_size, BlockHdr, coalesce}
use lightstreak_os.Heap.Blocks.{Block, Chain, flag, release, merge, UsedAt}
use lightstreak_os.Heap.Chains.{Chain-frame, Chain-room, Chain-cons, Chain-uncons, Chain-nil}
use lightstreak_os.Heap.Fit.{UsedAt-le}

-- The headers after block `a` was freed and merged with the one behind it.
abbrev pub freed : ℕ → (ℕ → BlockHdr) → ℕ → BlockHdr
freed a h = coalesce a (update h a (record (h a) { used = 0 }))

freed_frame : (a x : ℕ) (h : ℕ → BlockHdr) → x ≢ a → freed a h x ≡ h x
unfolding coalesce
freed_frame a x h ne = ground arith

freed_end : (a : ℕ) (h : ℕ → BlockHdr) → (h a).next ≡ 0 → freed a h a ≡ record (h a) { used = 0 }
unfolding coalesce
freed_end a h e = ground arith

freed_busy :
    (a : ℕ) (h : ℕ → BlockHdr)
    → (h a).next ≢ a
    → (h (h a).next).used ≢ 0
    → freed a h a ≡ record (h a) { used = 0 }
unfolding coalesce
freed_busy a h ne busy = ground arith

freed_merge :
    (a : ℕ) (h : ℕ → BlockHdr)
    → (h a).next ≢ a
    → (h a).next ≢ 0
    → (h (h a).next).used ≡ 0
    → freed a h a ≡ record (h a) {
      used = 0;
      size = add32 (h a).size (add32 hdr_size (h (h a).next).size);
      next = (h (h a).next).next;
    }
unfolding coalesce
freed_merge a h ne pos free = ground arith

-- The block at the chain's start is freed.
freed_here :
    (h : ℕ → BlockHdr) (a e : ℕ) (b : Block) (bs : List Block)
    → e < 2 ^ 32
    → 0 < a
    → Chain h a a e (b ∷ bs)
    → Chain (freed a h) a a e (merge b.size bs)
freed_here h a e b [] w pos c =
    let (_, magic, size, used, mult, next) = Chain-uncons h a a e b [] c in
    let (null, _) = Chain-nil h (h a).next (a + hdr_size + b.size) e next in
    Chain-cons (freed a h) (record (h a) { used = 0 }) a e (record { size = b.size; used = false })
      [] (freed_end a h null) magic size refl mult
      (Chain-frame h (freed a h) (h a).next (a + hdr_size + b.size) e []
        (λ x q. freed_frame a x h (omega arith)) next)
freed_here h a e b (c ∷ cs) w pos ch =
    let (_, magic, size, used, mult, next) = Chain-uncons h a a e b (c ∷ cs) ch in
    let (at, magic', size', used', mult', next') =
      Chain-uncons h (h a).next (a + hdr_size + b.size) e c cs next in
    let a' = a + hdr_size + b.size in
    let end' = a' + hdr_size + c.size in
    let room = Chain-room h (h a').next end' e cs next' in
    let busy = λ (t : c.used ≡ true).
      let same : (h (h a).next).used ≡ flag c.used = rw at used' in
      Chain-cons (freed a h) (record (h a) { used = 0 }) a e
        (record { size = b.size; used = false }) (c ∷ cs)
        (freed_busy a h (omega arith) (ground arith)) magic size refl mult
        (Chain-frame h (freed a h) (h a).next a' e (c ∷ cs) (λ x q. freed_frame a x h (omega arith))
          next) in
    let free = λ (t : c.used ≡ false).
      let same : (h (h a).next).used ≡ flag c.used = rw at used' in
      let wide : (h (h a).next).size ≡ c.size = rw at size' in
      let tail : Chain h (h (h a).next).next (a + hdr_size + (b.size + hdr_size + c.size)) e cs =
        rw at (subst (λ k. Chain h (h a').next k e cs) (omega arith) next') in
      Chain-cons (freed a h)
        (record (h a) {
          used = 0;
          size = add32 (h a).size (add32 hdr_size (h (h a).next).size);
          next = (h (h a).next).next;
        })
        a e (record { size = b.size + hdr_size + c.size; used = false }) cs
        (freed_merge a h (omega arith) (omega arith) (ground arith)) magic (omega arith) refl
        (omega arith)
        (Chain-frame h (freed a h) (h (h a).next).next (a + hdr_size + (b.size + hdr_size + c.size))
          e cs (λ x q. freed_frame a x h (omega arith)) tail) in
    elim (Bool-cases c.used) [
      | inl t ↦ subst (λ u. Chain (freed a h) a a e (merged u)) (sym t) (busy t)
      | inr t ↦ subst (λ u. Chain (freed a h) a a e (merged u)) (sym t) (free t)
    ]
  where
    merged : Bool → List Block
    merged u =
        if u
        then record { size = b.size; used = false } ∷ c ∷ cs
        else record { size = b.size + hdr_size + c.size; used = false } ∷ cs

-- The header in front of a payload in use.
pub used_header :
    (h : ℕ → BlockHdr) (p a e q m : ℕ) (bs : List Block)
    → Chain h p a e bs
    → UsedAt a bs q m
    → ((h (q - hdr_size)).magic ≡ heap_magic)
      × ((h (q - hdr_size)).size ≡ m)
      × ((h (q - hdr_size)).used ≡ 1)
used_header h p a e q m [] c u = absurd u
used_header h p a e q m (b ∷ bs) c (inl (t, at_q, k)) =
    let (_, magic, size, used, _, _) = Chain-uncons h p a e b bs c in
    let same : q - hdr_size ≡ a = omega arith in rw same (magic, size ∙ sym k, ground arith)
used_header h p a e q m (b ∷ bs) c (inr u) =
    let (_, _, _, _, _, next) = Chain-uncons h p a e b bs c in
    used_header h (h a).next (a + hdr_size + b.size) e q m bs next u

-- `kfree` does to the chain what `release` does to the row.
pub freed_lem :
    (h : ℕ → BlockHdr) (p a e q m : ℕ) (bs : List Block)
    → e < 2 ^ 32
    → 0 < a
    → Chain h p a e bs
    → UsedAt a bs q m
    → Chain (freed (q - hdr_size) h) p a e (release q a bs)
unfolding release
freed_lem h p a e q m [] w pos c u = absurd u
freed_lem h p a e q m (b ∷ bs) w pos c (inl (t, at_q, k)) =
    let (at, _, _, _, _, _) = Chain-uncons h p a e b bs c in
    let same : q - hdr_size ≡ a = omega arith in
    let here : (a + hdr_size == q) ≡ true = ground arith in
    rw (here, t, same)
      (subst (λ x. Chain (freed a h) x a e (merge b.size bs)) (sym at)
        (freed_here h a e b bs w pos (subst (λ x. Chain h x a e (b ∷ bs)) at c)))
freed_lem h p a e q m (b ∷ bs) w pos c (inr u) =
    let (at, magic, size, used, mult, next) = Chain-uncons h p a e b bs c in
    let behind = UsedAt-le (a + hdr_size + b.size) q m bs u in
    let there : (a + hdr_size == q) ≡ false = ground arith in
    rw there (
      subst (λ x. Chain (freed (q - hdr_size) h) x a e (b ∷ release q (a + hdr_size + b.size) bs))
        (sym at)
        (Chain-cons (freed (q - hdr_size) h) (h a) a e b _
          (freed_frame (q - hdr_size) a h (omega arith)) magic size used mult
          (freed_lem h (h a).next (a + hdr_size + b.size) e q m bs w (omega arith) next u)))
