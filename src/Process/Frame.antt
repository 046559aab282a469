-- ===== src/Process/Frame.antt =====
-- The first stack frame, as context_switch and iret pop it.
use lightstreak_os.Base.{
  ℕ, zero, suc, ◌+◌, ◌-◌, ◌*◌, ◌^◌, ◌≤◌, ◌<◌, ◌≡◌, refl, ap, ap₂, ◌∙◌, Option, none, some, List, [],
  ◌∷◌, arith, ==_self, ==_ne, update, add32, sub32, length,
}
use lightstreak_os.Heap.{Heap}
use lightstreak_os.Process.{
  NewProcess, Kernel, kernel_stack_size, allocate, push_words, set_up, start, process_create_user,
}

-- The `n` words that are popped from `sp` on.
pub pop_words : ℕ → ℕ → (ℕ → ℕ) → List ℕ
pop_words zero sp mem = []
pop_words (suc n) sp mem = mem sp ∷ pop_words n (sp + 4) mem

reversed : List ℕ → List ℕ → List ℕ
reversed [] acc = acc
reversed (w ∷ ws) acc = reversed ws (w ∷ acc)

pop_below :
    (n sp at w : ℕ) (mem : ℕ → ℕ) → at < sp → pop_words n sp (update mem at w) ≡ pop_words n sp mem
unfolding pop_words
pop_below zero sp at w mem h = refl
pop_below (suc n) sp at w mem h =
    ap₂ ◌∷◌ (rw (==_ne at sp (λ e. absurd (omega arith))) refl)
      (pop_below n (sp + 4) at w mem (omega arith))

push_pop :
    (ws : List ℕ) (k sp : ℕ) (mem : ℕ → ℕ)
    → 4 * length ws ≤ sp
    → sp < 2 ^ 32
    → ((push_words ws sp mem).0 ≡ sp - 4 * length ws)
      × (pop_words (length ws + k) (sp - 4 * length ws) (push_words ws sp mem).1
          ≡ reversed ws (pop_words k sp mem))
unfolding push_words pop_words reversed
push_pop [] k sp mem h l = (omega arith, ap₂ (λ n a. pop_words n a mem) (omega arith) (omega arith))
push_pop (w ∷ ws) k sp mem h l =
    let (e, q) =
      push_pop ws (suc k) (sub32 sp 4) (update mem (sub32 sp 4) w) (omega arith) (omega arith) in
    (
      e ∙ omega arith,
      ap₂ (λ n a. pop_words n a (push_words ws (sub32 sp 4) (update mem (sub32 sp 4) w)).1)
            (omega arith) (omega arith)
          ∙ q
          ∙ ap (reversed ws) (ap₂ ◌∷◌ (rw (==_self (sub32 sp 4)) refl) below),
    )
  where
    below : pop_words k (sub32 sp 4 + 4) (update mem (sub32 sp 4) w) ≡ pop_words k sp mem
    below =
        ap (λ a. pop_words k a (update mem (sub32 sp 4) w)) (omega arith)
        ∙ pop_below k sp (sub32 sp 4) w mem (omega arith)

start_lem :
    (dir p stack : ℕ) (ws : List ℕ) (s : Kernel) (h : Heap)
    → allocate s.heap ≡ some (some (p, stack), h)
    → start dir ws s
      ≡ (let (r, t) = set_up dir ws p stack (record s { heap = h }) in some (some r, t))
unfolding start
start_lem dir p stack ws s h e =
    ap
      (λ o. elim o as (λ _. Option (Option (ℕ × NewProcess) × Kernel)) [
        | none ↦ none
        | some (none, h) ↦ some (none, record s { heap = h })
        | some (some (p, stack), h) ↦
            let (r, t) = set_up dir ws p stack (record s { heap = h }) in some (some r, t)
      ])
      e

-- If the heap gives a control block and a stack below 2^32, `process_create_user` returns the
-- process with the next number, and its stack, from the saved stack pointer to the top, holds four
-- zeros for the registers that context_switch pops, the address of the trampoline that it returns
-- to, and the frame that iret pops: the entry point, the user code segment, the flags with
-- interrupts on, the user stack and the user data segment.
pub create_user_frame :
    (trampoline entry_vaddr user_esp dir p stack : ℕ) (s : Kernel) (h : Heap)
    → allocate s.heap ≡ some (some (p, stack), h)
    → stack + kernel_stack_size < 2 ^ 32
    → (r : NewProcess) × (t : Kernel) × (process_create_user trampoline entry_vaddr user_esp dir s
        ≡ some (some (p, r), t))
      × (r.pid ≡ s.next_pid)
      × (r.esp + 40 ≡ r.kernel_stack_top)
      × (r.kernel_stack_top ≡ stack + kernel_stack_size)
      × (pop_words 10 r.esp t.words
          ≡ 0 ∷ 0 ∷ 0 ∷ 0 ∷ trampoline ∷ entry_vaddr ∷ 0x1B ∷ 0x202 ∷ user_esp ∷ 0x23 ∷ [])
unfolding process_create_user set_up reversed pop_words
create_user_frame trampoline entry_vaddr user_esp dir p stack s h e l = (
  _,
  _,
  start_lem dir p stack ws s h e,
  refl,
  omega (arith, at),
  omega arith,
  ap (λ a. pop_words 10 a (push_words ws top s.words).1) at ∙ popped,
)
  where
    top : ℕ
    top = add32 stack kernel_stack_size

    ws : List ℕ
    ws = 0x23 ∷ user_esp ∷ 0x202 ∷ 0x1B ∷ entry_vaddr ∷ trampoline ∷ 0 ∷ 0 ∷ 0 ∷ 0 ∷ []

    at : (push_words ws top s.words).0 ≡ top - 40
    at = (push_pop ws 0 top s.words (omega arith) (omega arith)).0

    popped :
        pop_words 10 (top - 40) (push_words ws top s.words).1
        ≡ 0 ∷ 0 ∷ 0 ∷ 0 ∷ trampoline ∷ entry_vaddr ∷ 0x1B ∷ 0x202 ∷ user_esp ∷ 0x23 ∷ []
    popped = (push_pop ws 0 top s.words (omega arith) (omega arith)).1
