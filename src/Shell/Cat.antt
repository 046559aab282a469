-- ===== src/Shell/Cat.antt =====
-- The command cat: the loop of reads and writes over a file that is open.
use lightstreak_os.Base.{
  ℕ, zero, suc, ◌+◌, ◌-◌, ◌*◌, ◌≤◌, ◌≡◌, refl, ap, ◌∙◌, Option, some, List, [], ◌∷◌, arith, length,
  take, drop,
}
use lightstreak_os.Shell.{Calls}
use lightstreak_os.Shell.Editing.{show_on}
use lightstreak_os.Shell.Commands.{cat_loop}

-- What cat relies on at the descriptor `fd`: `pending content s` says that the file has `content` from
-- the place of the descriptor on. A read gives the next 512 bytes of it, or fewer at the end of the
-- file, and moves the place; writing to the screen does not.
pub record Reader {S : Type 0} (os : Calls S) (fd : ℕ) : Type 1 where
  pub pending : List ℕ → S → Type 0
  pub shown : S → List ℕ
  pub read_chunk :
      (content : List ℕ) (s : S)
      → pending content s
      → (t : S) × (os.sys_read fd 512 s ≡ some (take 512 content, t))
        × pending (drop 512 content) t
        × (shown t ≡ shown s)
  pub write_shown : (str : List ℕ) (s : S) → shown (os.sys_write 1 str s) ≡ show_on str (shown s)
  pub write_pending :
      (str content : List ℕ) (s : S) → pending content s → pending content (os.sys_write 1 str s)

show_on-split :
    (k : ℕ) (content shown : List ℕ)
    → show_on (drop k content) (show_on (take k content) shown) ≡ show_on content shown
unfolding show_on
show_on-split zero content shown = refl
show_on-split (suc k) [] shown = refl
show_on-split (suc k) (c ∷ content) shown = show_on-split k content (c ∷ shown)

length-drop_lem : (k : ℕ) (content : List ℕ) → length (drop k content) ≡ length content - k
length-drop_lem zero content = omega arith
length-drop_lem (suc k) [] = omega arith
length-drop_lem (suc k) (c ∷ content) = omega (arith, length-drop_lem k content)

module _ {S : Type 0} {os : Calls S} {fd : ℕ} (file : Reader os fd) where
  -- The loop has ended, at the end of the file, and has shown the text.
  pub record IsShown (o : Option S) (s : S) (content : List ℕ) : Type 0 where
    pub after : S
    pub result : o ≡ some after
    pub at_end : file.pending [] after
    pub screen : file.shown after ≡ show_on content (file.shown s)

  -- With a read for each 512 bytes and one more, the loop ends at the end of the file and has shown the
  -- rest of it.
  pub cat_loop_ends :
      (n : ℕ) (content : List ℕ) (s : S)
      → length content + 512 ≤ 512 * n
      → file.pending content s
      → IsShown (cat_loop os n fd s) s content
  unfolding cat_loop show_on
  cat_loop_ends zero content s h p = absurd (omega (arith, h))
  cat_loop_ends (suc n) [] s h p =
      let (t, e, q, sh) = file.read_chunk [] s p in
      record { after = t; result = rw (e, cat_loop) refl; at_end = q; screen = sh }
  cat_loop_ends (suc n) (c ∷ content) s h p =
      let (t, e, q, sh) = file.read_chunk (c ∷ content) s p in
      let here = take 512 (c ∷ content) in
      let r =
        cat_loop_ends n (drop 512 (c ∷ content)) (os.sys_write 1 here t)
          (omega (arith, h, length-drop_lem 512 (c ∷ content))) (file.write_pending here _ t q) in
      record {
        after = r.after;
        result = rw (e, cat_loop) r.result;
        at_end = r.at_end;
        screen =
            r.screen
            ∙ ap (show_on (drop 512 (c ∷ content))) (file.write_shown here t ∙ ap (show_on here) sh)
            ∙ show_on-split 512 (c ∷ content) (file.shown s);
      }
