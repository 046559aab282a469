-- ===== src/Shell/Editing.antt =====
-- The line editor of the shell: `readline` over a terminal, which gives the characters that are
-- typed and shows the characters that are written.
use lightstreak_os.Base.{
  ℕ, zero, suc, ◌-◌, ◌≤◌, ◌≡◌, refl, ap, ◌∙◌, Bool, true, false, ◌||◌, Option, some, List, [], ◌∷◌,
  arith, leb, ◌==◌, if◌then◌else◌, length,
}
use lightstreak_os.Shell.{Calls, print, edit_line, readline}

-- The characters of `str` in front of `shown`, the last one in front.
unfoldable pub show_on : List ℕ → List ℕ → List ℕ
show_on [] shown = shown
show_on (c ∷ str) shown = show_on str (c ∷ shown)

-- What the shell relies on: `typed cs s` says that the next reads give `cs`; what is written is
-- shown, and typing and showing do not disturb each other.
pub record Terminal {S : Type 0} (os : Calls S) : Type 1 where
  pub typed : List ℕ → S → Type 0
  pub shown : S → List ℕ
  pub read_key :
      (c : ℕ) (cs : List ℕ) (s : S)
      → typed (c ∷ cs) s
      → (t : S) × (os.sys_read 0 1 s ≡ some (c ∷ [], t)) × typed cs t × (shown t ≡ shown s)
  pub write_shown : (str : List ℕ) (s : S) → shown (os.sys_write 1 str s) ≡ show_on str (shown s)
  pub write_typed : (str cs : List ℕ) (s : S) → typed cs s → typed cs (os.sys_write 1 str s)

abbrev pub is_newline : ℕ → Bool
is_newline c = c == 10 || c == 13

abbrev pub is_erase : ℕ → Bool
is_erase c = c == 8 || c == 127

-- A line, with its last character in front, and the keys typed behind it: what the line becomes,
-- the keys that are left, and what is shown. A line ends when it has `room` characters.
pub data Edited (room : ℕ) : List ℕ → List ℕ → List ℕ → List ℕ → List ℕ → Type 0 where
  full : (line keys : List ℕ) → leb room (length line) ≡ true → Edited room line keys line keys []
  newline :
      (c : ℕ) (line keys : List ℕ)
      → leb room (length line) ≡ false
      → is_newline c ≡ true
      → Edited room line (c ∷ keys) line keys (10 ∷ [])
  erase_none :
      (c : ℕ) (keys out rest echo : List ℕ)
      → leb room 0 ≡ false
      → is_newline c ≡ false
      → is_erase c ≡ true
      → Edited room [] keys out rest echo
      → Edited room [] (c ∷ keys) out rest echo
  erase :
      (c d : ℕ) (line keys out rest echo : List ℕ)
      → leb room (suc (length line)) ≡ false
      → is_newline c ≡ false
      → is_erase c ≡ true
      → Edited room line keys out rest echo
      → Edited room (d ∷ line) (c ∷ keys) out rest (8 ∷ b' ' ∷ 8 ∷ echo)
  insert :
      (c : ℕ) (line keys out rest echo : List ℕ)
      → leb room (length line) ≡ false
      → is_newline c ≡ false
      → is_erase c ≡ false
      → Edited room (c ∷ line) keys out rest echo
      → Edited room line (c ∷ keys) out rest (c ∷ echo)

module _ {S : Type 0} {os : Calls S} (term : Terminal os) where
  -- The state in which `readline` returns.
  pub record IsRead (o : Option (List ℕ × S)) (s : S) (out rest echo : List ℕ) : Type 0 where
    pub after : S
    pub result : o ≡ some (out, after)
    pub left : term.typed rest after
    pub screen : term.shown after ≡ show_on echo (term.shown s)

  -- A key that the terminal gives, when the line has room.
  key_step :
      (n max c : ℕ) (line : List ℕ) (s u : S)
      → leb (max - 1) (length line) ≡ false
      → os.sys_read 0 1 s ≡ some (c ∷ [], u)
      → readline os (suc n) max line s ≡ (
          if is_newline c
          then some (line, print os (10 ∷ []) u)
          else readline os n max (edit_line os c line u).0 (edit_line os c line u).1)
  unfolding readline
  key_step n max c line s u f e = rw (f, e) refl

  -- What a shorter read comes to, behind the first key.
  carry :
      (o p : Option (List ℕ × S)) (s t : S) (out rest first echo : List ℕ)
      → o ≡ p
      → show_on echo (term.shown t) ≡ show_on first (term.shown s)
      → IsRead p t out rest echo
      → IsRead o s out rest first
  carry o p s t out rest first echo e sh r = record {
    after = r.after;
    result = e ∙ r.result;
    left = r.left;
    screen = r.screen ∙ sh;
  }

  -- Over a terminal that gives the typed keys and shows what is written: where the rules of line
  -- editing (a character is appended and echoed, a backspace or delete removes the last character,
  -- a newline or a full line ends) take a line and the typed keys to a line, the keys left and the
  -- echoed text, `readline` with enough reads returns that line, leaves these keys typed, and has
  -- shown exactly that text.
  pub readline_edits :
      (max : ℕ) (line keys out rest echo : List ℕ) (n : ℕ) (s : S)
      → Edited (max - 1) line keys out rest echo
      → length keys ≤ n
      → term.typed keys s
      → IsRead (readline os n max line s) s out rest echo
  unfolding readline edit_line print show_on
  readline_edits max line keys out rest echo zero s (full _ _ f) h t = record {
    after = s;
    result = rw (f) refl;
    left = t;
    screen = refl;
  }
  readline_edits max line keys out rest echo (suc n) s (full _ _ f) h t = record {
    after = s;
    result = rw (f) refl;
    left = t;
    screen = refl;
  }
  readline_edits max line keys out rest echo zero s (newline c _ _ f nl) h t =
      absurd (omega (arith, h))
  readline_edits max line keys out rest echo (suc n) s (newline c _ _ f nl) h t =
      let (u, e, ty, sh) = term.read_key c rest s t in
      record {
        after = os.sys_write 1 (10 ∷ []) u;
        result = key_step n max c line s u f e ∙ rw (nl) refl;
        left = term.write_typed (10 ∷ []) rest u ty;
        screen = term.write_shown (10 ∷ []) u ∙ ap (show_on (10 ∷ [])) sh;
      }
  readline_edits max line keys out rest echo zero s (erase_none c ks _ _ _ f nl er e) h t =
      absurd (omega (arith, h))
  readline_edits max line keys out rest echo (suc n) s (erase_none c ks _ _ _ f nl er e) h t =
      let (u, eq, ty, sh) = term.read_key c ks s t in
      carry _ (readline os n max [] u) s u out rest echo echo
        (key_step n max c [] s u f eq ∙ rw (nl, er) refl) (ap (show_on echo) sh)
        (readline_edits max [] ks out rest echo n u e (omega (arith, h)) ty)
  readline_edits max line keys out rest echo zero s (erase c d l ks _ _ ec f nl er e) h t =
      absurd (omega (arith, h))
  readline_edits max line keys out rest echo (suc n) s (erase c d l ks _ _ ec f nl er e) h t =
      let back : List ℕ = 8 ∷ b' ' ∷ 8 ∷ [] in
      let (u, eq, ty, sh) = term.read_key c ks s t in
      let v = os.sys_write 1 back u in
      carry _ (readline os n max l v) s v out rest _ ec
        (key_step n max c (d ∷ l) s u f eq ∙ rw (nl, er) refl)
        (ap (show_on ec) (term.write_shown back u ∙ ap (show_on back) sh))
        (readline_edits max l ks out rest ec n v e (omega (arith, h))
          (term.write_typed back ks u ty))
  readline_edits max line keys out rest echo zero s (insert c l ks _ _ ec f nl er e) h t =
      absurd (omega (arith, h))
  readline_edits max line keys out rest echo (suc n) s (insert c l ks _ _ ec f nl er e) h t =
      let (u, eq, ty, sh) = term.read_key c ks s t in
      let v = os.sys_write 1 (c ∷ []) u in
      carry _ (readline os n max (c ∷ l) v) s v out rest _ ec
        (key_step n max c l s u f eq ∙ rw (nl, er) refl)
        (ap (show_on ec) (term.write_shown (c ∷ []) u ∙ ap (show_on (c ∷ [])) sh))
        (readline_edits max (c ∷ l) ks out rest ec n v e (omega (arith, h))
          (term.write_typed (c ∷ []) ks u ty))
