-- ===== src/Keyboard/Queue.antt =====
-- kernel/drivers/keyboard.c: the ring buffer is a queue of at most 255 characters.
use lightstreak_os.Base.{
  ℕ, zero, suc, ◌+◌, ◌-◌, ◌%◌, ◌<◌, ◌≡◌, ◌≢◌, refl, true, false, List, [], ◌∷◌, ◌++◌, arith, ltb,
  if◌then◌else◌, update, length, ap, ap₂, add32, ==_ne, ℕ_discrete, ◌∙◌,
}
use lightstreak_os.Keyboard.{kbd_buf_size, Keyboard, push}

-- The `n` characters from place `t` on, round the end of the buffer.
abbrev window : (ℕ → ℕ) → ℕ → ℕ → List ℕ
window buf t zero = []
window buf t (suc n) = buf t ∷ window buf ((t + 1) % kbd_buf_size) n

pub record IsValid (s : Keyboard) : Type 0 where
  pub head_in : s.kbd_head < kbd_buf_size
  pub tail_in : s.kbd_tail < kbd_buf_size

-- How many characters wait.
abbrev pub waiting : Keyboard → ℕ
waiting s = (s.kbd_head + kbd_buf_size - s.kbd_tail) % kbd_buf_size

-- The characters that wait, oldest first.
unfoldable pub contents : Keyboard → List ℕ
contents s = window s.kbd_buffer s.kbd_tail (waiting s)

length-window : (buf : ℕ → ℕ) (t n : ℕ) → length (window buf t n) ≡ n
length-window buf t zero = refl
length-window buf t (suc n) = ap suc (length-window buf ((t + 1) % kbd_buf_size) n)

pub length-contents : (s : Keyboard) → length (contents s) ≡ waiting s
unfolding contents
length-contents s = length-window s.kbd_buffer s.kbd_tail (waiting s)

-- A write at the place behind a window that is not the whole buffer extends the window.
window-update :
    (buf : ℕ → ℕ) (c t n h : ℕ)
    → t < kbd_buf_size
    → n < kbd_buf_size
    → h ≡ (t + n) % kbd_buf_size
    → window (update buf h c) t (suc n) ≡ window buf t n ++ (c ∷ [])
window-update buf c t zero h ht hn e = ap₂ ◌∷◌ (ground arith) refl
window-update buf c t (suc n) h ht hn e =
    ap₂ ◌∷◌ (ground arith)
      (window-update buf c ((t + 1) % kbd_buf_size) n h (omega arith) (omega arith) (omega arith))

-- The place behind the write pointer, and what `push` leaves where that is free.
abbrev behind : Keyboard → ℕ
behind s = add32 s.kbd_head 1 % kbd_buf_size

abbrev stored : ℕ → Keyboard → Keyboard
stored c s = record s { kbd_buffer = update s.kbd_buffer s.kbd_head c; kbd_head = behind s }

push_full : (c : ℕ) (s : Keyboard) → behind s ≡ s.kbd_tail → push c s ≡ s
unfolding push
push_full c s e = ground arith

push_free : (c : ℕ) (s : Keyboard) → behind s ≢ s.kbd_tail → push c s ≡ stored c s
unfolding push
push_free c s ne = rw (==_ne (behind s) s.kbd_tail ne)

contents-stored :
    (c : ℕ) (s : Keyboard)
    → IsValid s
    → behind s ≢ s.kbd_tail
    → contents (stored c s) ≡ contents s ++ (c ∷ [])
unfolding contents
contents-stored c s v ne =
    ap (window (update s.kbd_buffer s.kbd_head c) s.kbd_tail) grown
    ∙ window-update s.kbd_buffer c s.kbd_tail (waiting s) s.kbd_head v.tail_in (omega arith)
        (omega (arith, v.head_in, v.tail_in))
  where
    grown : waiting (stored c s) ≡ suc (waiting s)
    grown = omega (arith, v.head_in, v.tail_in)

-- The queue that a key press leaves: 255 places.
pub append_key : List ℕ → ℕ → List ℕ
append_key q c = if ltb (length q) 255 then q ++ (c ∷ []) else q

-- `push` appends the character, or drops it if 255 wait.
pub push_refines :
    (c : ℕ) (s : Keyboard)
    → IsValid s
    → IsValid (push c s)
      × (contents (push c s) ≡ append_key (contents s) c)
      × ((push c s).shift_held ≡ s.shift_held)
unfolding append_key
push_refines c s v = elim (ℕ_discrete (behind s) s.kbd_tail) [
  | yes e ↦
      let many : ltb (length (contents s)) 255 ≡ false =
        ground (arith, length-contents s, v.head_in, v.tail_in) in
      rw (push_full c s e, many) (v, refl, refl)
  | no ne ↦
      let few : ltb (length (contents s)) 255 ≡ true =
        ground (arith, length-contents s, v.head_in, v.tail_in) in
      rw (push_free c s ne, few)
        (record { head_in = omega arith; tail_in = v.tail_in }, contents-stored c s v ne, refl)
]

-- The queue after its oldest character left.
abbrev pub served : Keyboard → Keyboard
served s = record s { kbd_tail = add32 s.kbd_tail 1 % kbd_buf_size }

-- Where a character waits, the oldest one stands at the read pointer, and the rest behind it.
pub contents-served :
    (s : Keyboard)
    → IsValid s
    → s.kbd_tail ≢ s.kbd_head
    → (contents s ≡ s.kbd_buffer s.kbd_tail ∷ contents (served s)) × IsValid (served s)
unfolding contents
contents-served s v ne = (
  ap (window s.kbd_buffer s.kbd_tail) grown
      ∙ ap (λ t. s.kbd_buffer s.kbd_tail ∷ window s.kbd_buffer t (waiting (served s)))
          (omega arith),
  record { head_in = v.head_in; tail_in = omega arith },
)
  where
    grown : waiting s ≡ suc (waiting (served s))
    grown = omega (arith, v.head_in, v.tail_in)

pub contents_empty : (s : Keyboard) → s.kbd_tail ≡ s.kbd_head → contents s ≡ []
unfolding contents
contents_empty s e = let none_wait : waiting s ≡ 0 = omega arith in rw none_wait

-- The shift key does not take part in the queue.
pub contents-shift : (s : Keyboard) (h : ℕ) → contents (record s { shift_held = h }) ≡ contents s
unfolding contents
contents-shift s h = refl
