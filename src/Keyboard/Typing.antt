-- ===== src/Keyboard/Typing.antt =====
-- kernel/drivers/keyboard.c: what is read is what was typed.
use lightstreak_os.Base.{
  ℕ, ◌<◌, ◌≡◌, ◌≢◌, refl, Option, ◌||◌, none, some, List, [], ◌∷◌, arith, leb, ◌==◌, if◌then◌else◌,
  ap, ◌∙◌, sym, ==_ne, ℕ_discrete,
}
use lightstreak_os.Base.Bits.{bit_and_high}
use lightstreak_os.Keyboard.{Keyboard, to_ascii, keyboard_irq_handler, keyboard_getchar}
use lightstreak_os.Keyboard.Queue.{
  IsValid, contents, append_key, push_refines, served, contents-served, contents_empty,
  contents-shift,
}

-- What a scan code stands for, under a shift key that is held or not: a change of the shift key, a
-- character, or nothing.
pub data Key : Type 0 where
  shift : ℕ → Key
  char : ℕ → Key
  other : Key

pub decode : ℕ → ℕ → Key
decode held code =
    if code == 0x2A || code == 0x36
    then shift 1
    else if code == 0xAA || code == 0xB6
    then shift 0
    else if leb 0x80 code
    then other
    else if to_ascii held code == 0
    then other
    else char (to_ascii held code)

-- The queue and the shift key after a list of scan codes.
pub press : List ℕ × ℕ → Key → List ℕ × ℕ
press (q, held) (shift h) = (q, h)
press (q, held) (char c) = (append_key q c, held)
press (q, held) other = (q, held)

pub view : Keyboard → List ℕ × ℕ
view s = (contents s, s.shift_held)

-- For a scan code that is a byte, the keyboard interrupt handler keeps the ring buffer valid, and
-- does to the queue of waiting characters and to the shift key what the key says.
pub irq_handler_refines :
    (code : ℕ) (s : Keyboard)
    → code < 256
    → IsValid s
    → IsValid (keyboard_irq_handler code s)
      × (view (keyboard_irq_handler code s) ≡ press (view s) (decode s.shift_held code))
unfolding keyboard_irq_handler view press decode
irq_handler_refines code s h v = (
  ground (arith, push_refines c s v),
  ground (arith, bit_and_high code h, push_refines c s v, contents-shift s 0, contents-shift s 1),
)
  where
    c : ℕ
    c = to_ascii s.shift_held code

-- Every scan code is a byte.
abbrev pub AreBytes : List ℕ → Type 0
AreBytes [] = Unit {0}
AreBytes (code ∷ codes) = (code < 256) × AreBytes codes

-- Reading from the queue while the scan codes `codes` come in: the oldest character if one waits,
-- else what there is after the next key.
pub await : List ℕ → List ℕ × ℕ → Option (ℕ × (List ℕ × ℕ) × List ℕ)
await codes (c ∷ q, held) = some (c, (q, held), codes)
await [] ([], held) = none
await (code ∷ codes) ([], held) = await codes (press ([], held) (decode held code))

abbrev pub outcome : Option (ℕ × Keyboard × List ℕ) → Option (ℕ × (List ℕ × ℕ) × List ℕ)
outcome none = none
outcome (some (c, s, codes)) = some (c, view s, codes)

getchar-ready :
    (codes : List ℕ) (s : Keyboard)
    → s.kbd_tail ≢ s.kbd_head
    → keyboard_getchar codes s ≡ some (s.kbd_buffer s.kbd_tail, served s, codes)
unfolding keyboard_getchar
getchar-ready [] s ne = rw (==_ne s.kbd_tail s.kbd_head ne)
getchar-ready (code ∷ codes) s ne = rw (==_ne s.kbd_tail s.kbd_head ne)

await-ready :
    (codes : List ℕ) (c held : ℕ) (q : List ℕ)
    → await codes (c ∷ q, held) ≡ some (c, (q, held), codes)
unfolding await
await-ready [] c held q = refl
await-ready (code ∷ codes) c held q = refl

ready :
    (codes : List ℕ) (s : Keyboard)
    → IsValid s
    → s.kbd_tail ≢ s.kbd_head
    → outcome (keyboard_getchar codes s) ≡ await codes (view s)
unfolding view
ready codes s v ne =
    ap outcome (getchar-ready codes s ne)
    ∙ sym (await-ready codes (s.kbd_buffer s.kbd_tail) s.shift_held (contents (served s)))
    ∙ ap (λ q. await codes (q, s.shift_held)) (sym (contents-served s v ne).0)

getchar-none : (s : Keyboard) → s.kbd_tail ≡ s.kbd_head → keyboard_getchar [] s ≡ none
unfolding keyboard_getchar
getchar-none s e = ground arith

getchar-wait :
    (code : ℕ) (codes : List ℕ) (s : Keyboard)
    → s.kbd_tail ≡ s.kbd_head
    → keyboard_getchar (code ∷ codes) s ≡ keyboard_getchar codes (keyboard_irq_handler code s)
unfolding keyboard_getchar
getchar-wait code codes s e = ground arith

view_empty : (s : Keyboard) → s.kbd_tail ≡ s.kbd_head → view s ≡ ([], s.shift_held)
unfolding view
view_empty s e = ap (λ q. (q, s.shift_held)) (contents_empty s e)

-- On a valid ring buffer, with scan codes that are bytes still to come, `keyboard_getchar` takes
-- the oldest character that waits; while none waits it handles the scan codes in their order, and
-- it waits on only if they bring no character.
pub getchar_refines :
    (codes : List ℕ) (s : Keyboard)
    → IsValid s
    → AreBytes codes
    → outcome (keyboard_getchar codes s) ≡ await codes (view s)
unfolding await
getchar_refines [] s v b = elim (ℕ_discrete s.kbd_tail s.kbd_head) [
  | yes e ↦ rw (getchar-none s e, view_empty s e) refl
  | no ne ↦ ready [] s v ne
]
getchar_refines (code ∷ codes) s v (h, b) = elim (ℕ_discrete s.kbd_tail s.kbd_head) [
  | yes e ↦
      let (valid, same) = irq_handler_refines code s h v in
      ap outcome (getchar-wait code codes s e)
      ∙ getchar_refines codes (keyboard_irq_handler code s) valid b
      ∙ ap (await codes) (same ∙ ap (λ w. press w (decode s.shift_held code)) (view_empty s e))
      ∙ ap (await (code ∷ codes)) (sym (view_empty s e))
  | no ne ↦ ready (code ∷ codes) s v ne
]
