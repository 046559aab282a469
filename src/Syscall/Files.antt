-- ===== src/Syscall/Files.antt =====
-- sys_write and sys_read on files: ramfs behind the switch, two descriptors of one process.
use lightstreak_os.Base.{
  ℕ, ◌+◌, ◌^◌, ◌≤◌, ◌<◌, ◌≡◌, ◌≢◌, refl, ap, ap₂, sym, ◌∙◌, subst, true, false, ◌||◌, Option, none,
  some, arith, leb, ◌==◌, add32, ==_self, ==_ne,
}
use lightstreak_os.Base.Int.{ℤ, pos, minus_one}
use lightstreak_os.Ramfs.{Ramfs, ramfs_max_file_size, ramfs_write, ramfs_read}
use lightstreak_os.Ramfs.Data.{IsLive, write_read}
use lightstreak_os.Vfs.{Vfs, vfs_read, vfs_write, ramfs_ops}
use lightstreak_os.Syscall.{
  FdEntry, Process, Sys, max_fds, set_entry, advance, file_entry, file_entry_of, sys_write,
  sys_read,
}

-- A descriptor of the running process for file `i` of ramfs, at `offset`.
pub record Points {F : Type 0} (s : Sys F) (cur : Process) (fd i offset : ℕ) : Type 0 where
  pub runs : s.current ≡ some cur
  pub above : 3 ≤ fd
  pub below : fd < max_fds
  pub file : (cur.fd_table fd).file_idx ≡ pos i
  pub position : (cur.fd_table fd).offset ≡ offset
  pub used : (cur.fd_table fd).in_use ≡ true

module _ {F : Type 0} where
  file_entry_lem :
      (s : Sys F) (cur : Process) (fd i offset : ℕ)
      → Points s cur fd i offset
      → file_entry fd s ≡ some (cur, cur.fd_table fd)
  unfolding file_entry_of
  file_entry_lem s cur fd i offset p =
      ap
        (λ c. elim c as (λ _. Option (Process × FdEntry)) [
          | none ↦ none
          | some cur ↦ file_entry_of fd cur
        ])
        p.runs
      ∙ rw (small, p.used, p.file) refl
    where
      small : leb max_fds fd ≡ false
      small = let h = p.below in ground arith

  write_file_lem :
      (s : Sys F) (cur : Process) (fd i offset len : ℕ) (buf : ℕ → ℕ)
      → Points s cur fd i offset
      → sys_write fd buf len s ≡ (
          let (written, v) = vfs_write (pos i) buf offset len s.vfs in
          (
            written,
            record s {
              current = some (set_entry fd (advance written (cur.fd_table fd)) cur);
              vfs = v;
            },
          ))
  unfolding sys_write
  write_file_lem s cur fd i offset len buf p =
      simp (no_stdio, file_entry_lem s cur fd i offset p, p.file, p.position) refl
    where
      no_stdio : (fd == 1 || fd == 2) ≡ false
      no_stdio = let h = p.above in ground arith

  pub read_file_lem :
      (s : Sys F) (cur : Process) (fd i offset len : ℕ) (buf : ℕ → ℕ)
      → Points s cur fd i offset
      → sys_read fd buf len s ≡ (
          let (bytes, out) = vfs_read (pos i) buf offset len s.vfs in
          some (
            bytes,
            out,
            record s { current = some (set_entry fd (advance bytes (cur.fd_table fd)) cur) },
          ))
  unfolding sys_read
  read_file_lem s cur fd i offset len buf p =
      simp (no_stdio, file_entry_lem s cur fd i offset p, p.file, p.position) refl
    where
      no_stdio : (fd == 0) ≡ false
      no_stdio = let h = p.above in ground arith

pub vfs_write_lem :
    (v : Vfs Ramfs) (idx : ℤ) (buf : ℕ → ℕ) (offset len : ℕ)
    → v.mounted_fs ≡ some ramfs_ops
    → vfs_write idx buf offset len v
      ≡ (let (r, disk) = ramfs_write idx buf offset len v.disk in (r, record v { disk = disk }))
unfolding vfs_write
vfs_write_lem v idx buf offset len m =
    ap
      (λ o.
        elim (elim o as (λ _. Option (ℤ → (ℕ → ℕ) → ℕ → ℕ → Ramfs → ℤ × Ramfs)) [
          | none ↦ none
          | some ops ↦ ops.write
        ])
          as (λ _. ℤ × Vfs Ramfs) [
            | none ↦ (minus_one, v)
            | some f ↦ let (r, disk) = f idx buf offset len v.disk in (r, record v { disk = disk })
          ])
      m

pub vfs_read_lem :
    (v : Vfs Ramfs) (idx : ℤ) (buf : ℕ → ℕ) (offset len : ℕ)
    → v.mounted_fs ≡ some ramfs_ops
    → vfs_read idx buf offset len v ≡ ramfs_read idx buf offset len v.disk
unfolding vfs_read
vfs_read_lem v idx buf offset len m = rw (m, vfs_read) refl

advance_lem :
    (r : ℤ) (e : FdEntry) (offset len : ℕ)
    → r ≡ pos len
    → 0 < len
    → e.offset ≡ offset
    → offset + len < 2 ^ 32
    → advance r e ≡ record e { offset = offset + len }
advance_lem r e offset len q l o h =
    subst (λ x. advance x e ≡ record e { offset = offset + len }) (sym q)
      (rw (==_ne len 0 (λ z. absurd (omega arith)), sum) refl)
  where
    sum : add32 e.offset len ≡ offset + len
    sum = omega arith

-- The process, and the state, after a call has moved descriptor `fd` by `len`.
abbrev end_at : Process → ℕ → ℕ → ℕ → Process
end_at cur fd offset len = set_entry fd (record (cur.fd_table fd) { offset = offset + len }) cur

abbrev moved : Sys Ramfs → Process → ℕ → ℕ → ℕ → Vfs Ramfs → Sys Ramfs
moved s cur fd offset len v = record s { current = some (end_at cur fd offset len); vfs = v }

write_file :
    (s : Sys Ramfs) (cur : Process) (fd i offset len : ℕ) (buf : ℕ → ℕ)
    → s.vfs.mounted_fs ≡ some ramfs_ops
    → Points s cur fd i offset
    → (ramfs_write (pos i) buf offset len s.vfs.disk).0 ≡ pos len
    → 0 < len
    → offset + len ≤ ramfs_max_file_size
    → sys_write fd buf len s ≡ (
      pos len,
      moved s cur fd offset len
          (record s.vfs { disk = (ramfs_write (pos i) buf offset len s.vfs.disk).1 }),
    )
write_file s cur fd i offset len buf m p r l fits =
    write_file_lem s cur fd i offset len buf p
    ∙ ap
        (λ x. (
          x.0,
          record s { current = some (set_entry fd (advance x.0 (cur.fd_table fd)) cur); vfs = x.1 },
        ))
        (vfs_write_lem s.vfs (pos i) buf offset len m)
    ∙ ap₂
        (λ x e. (
          x,
          record s {
            current = some (set_entry fd e cur);
            vfs = record s.vfs { disk = (ramfs_write (pos i) buf offset len s.vfs.disk).1 };
          },
        ))
        r (advance_lem _ (cur.fd_table fd) offset len r l p.position (omega arith))

read_file :
    (s : Sys Ramfs) (cur : Process) (fd i offset len : ℕ) (out : ℕ → ℕ)
    → s.vfs.mounted_fs ≡ some ramfs_ops
    → Points s cur fd i offset
    → (ramfs_read (pos i) out offset len s.vfs.disk).0 ≡ pos len
    → 0 < len
    → offset + len ≤ ramfs_max_file_size
    → sys_read fd out len s
      ≡ some (
        pos len,
        (ramfs_read (pos i) out offset len s.vfs.disk).1,
        moved s cur fd offset len s.vfs,
      )
read_file s cur fd i offset len out m p r l fits =
    read_file_lem s cur fd i offset len out p
    ∙ ap
        (λ x. some (
          x.0,
          x.1,
          record s { current = some (set_entry fd (advance x.0 (cur.fd_table fd)) cur) },
        ))
        (vfs_read_lem s.vfs (pos i) out offset len m)
    ∙ ap₂
        (λ x e. some (
          x,
          (ramfs_read (pos i) out offset len s.vfs.disk).1,
          record s { current = some (set_entry fd e cur) },
        ))
        r (advance_lem _ (cur.fd_table fd) offset len r l p.position (omega arith))

elsewhere :
    (s : Sys Ramfs) (cur : Process) (a b i at offset len : ℕ) (v : Vfs Ramfs)
    → a ≢ b
    → Points s cur b i at
    → Points (moved s cur a offset len v) (end_at cur a offset len) b i at
elsewhere s cur a b i at offset len v ne p = record {
  runs = refl;
  above = p.above;
  below = p.below;
  file = rw (==_ne a b ne) p.file;
  position = rw (==_ne a b ne) p.position;
  used = rw (==_ne a b ne) p.used;
}

at_end :
    (s : Sys Ramfs) (cur : Process) (a i offset len : ℕ) (v : Vfs Ramfs)
    → Points s cur a i offset
    → Points (moved s cur a offset len v) (end_at cur a offset len) a i (offset + len)
at_end s cur a i offset len v p = record {
  runs = refl;
  above = p.above;
  below = p.below;
  file = rw (==_self a) p.file;
  position = rw (==_self a) refl;
  used = rw (==_self a) p.used;
}

-- With ramfs mounted, one process and two different descriptors from 3 to 31 that point to the same
-- place of the same live file: what sys_write puts through the one, at least one byte and within
-- the 32 KB of the file, sys_read takes through the other; both return the number of bytes, and
-- each moves its own descriptor, and no other one, to the end.
pub write_then_read :
    (s : Sys Ramfs) (cur : Process) (a b i offset len : ℕ) (buf out : ℕ → ℕ)
    → s.vfs.mounted_fs ≡ some ramfs_ops
    → IsLive s.vfs.disk i
    → Points s cur a i offset
    → Points s cur b i offset
    → a ≢ b
    → 0 < len
    → offset + len ≤ ramfs_max_file_size
    → let (written, t) = sys_write a buf len s in
      (written ≡ pos len)
      × ((got : ℕ → ℕ) × (u : Sys Ramfs) × (after : Process) × (sys_read b out len t
            ≡ some (pos len, got, u))
          × ((x : ℕ) → x < len → got x ≡ buf x)
          × Points u after a i (offset + len)
          × Points u after b i (offset + len)
          × ((j : ℕ) → a ≢ j → b ≢ j → after.fd_table j ≡ cur.fd_table j))
write_then_read s cur a b i offset len buf out m live pa pb ne pos_len fits =
    let disk = (ramfs_write (pos i) buf offset len s.vfs.disk).1 in
    let v = record s.vfs { disk = disk } in
    let (r, q, same) = write_read s.vfs.disk i buf out offset len live fits in
    let t = moved s cur a offset len v in
    let pb' : Points t (end_at cur a offset len) b i offset =
      elsewhere s cur a b i offset offset len v ne pb in
    let w : sys_write a buf len s ≡ (pos len, t) =
      write_file s cur a i offset len buf m pa r pos_len fits in
    rw (w) (
      refl,
      (
        (ramfs_read (pos i) out offset len disk).1,
        moved t (end_at cur a offset len) b offset len v,
        end_at (end_at cur a offset len) b offset len,
        read_file t (end_at cur a offset len) b i offset len out m pb' q pos_len fits,
        same,
        elsewhere t (end_at cur a offset len) b a i (offset + len) offset len v (λ e. ne (sym e))
            (at_end s cur a i offset len v pa),
        at_end t (end_at cur a offset len) b i offset len v pb',
        λ j na nb. rw (==_ne b j nb, ==_ne a j na) refl,
      ),
    )
