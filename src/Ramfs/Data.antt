-- ===== src/Ramfs/Data.antt =====
-- kernel/fs/ramfs.c: reading and writing file data: round trip and bounds.
use lightstreak_os.Base.{
  ℕ, ◌+◌, ◌-◌, ◌^◌, ◌<◌, ◌≤◌, ◌≡◌, ◌≢◌, refl, true, false, ◌&&◌, some, arith, ltb, leb,
  if◌then◌else◌, update, sub32, ap, ◌∙◌, min, ==_self, dec_lt,
}
use lightstreak_os.Base.Int.{pos, to_int32}
use lightstreak_os.Ramfs.{
  Ramfs, ramfs_max_files, ramfs_max_file_size, mem_copy, live_file, ramfs_read, ramfs_write, clamp,
  write_file,
}
use lightstreak_os.Ramfs.Copy.{mem_copy_lem}

-- Slot `i` holds a file, whose size is at most 32 KB.
pub record IsLive (s : Ramfs) (i : ℕ) : Type 0 where
  pub in_range : i < ramfs_max_files
  pub used : (s.files i).used ≡ true
  pub sized : (s.files i).size ≤ ramfs_max_file_size

live_file_lem : (s : Ramfs) (i : ℕ) → IsLive s i → live_file (pos i) s ≡ some i
unfolding live_file
live_file_lem s i v = ground (arith, v.in_range, v.used)

-- The count that a write copies when nothing wraps around.
pub clamp_lem :
    (offset len : ℕ)
    → offset ≤ ramfs_max_file_size
    → offset + len < 2 ^ 32
    → clamp offset len ≡ min len (ramfs_max_file_size - offset)
unfolding clamp
clamp_lem offset len h w = ground arith

read_inside :
    (s : Ramfs) (i : ℕ) (buf : ℕ → ℕ) (offset len : ℕ)
    → IsLive s i
    → offset < (s.files i).size
    → let n = min len ((s.files i).size - offset) in
      ramfs_read (pos i) buf offset len s ≡ (to_int32 n, mem_copy buf 0 (s.files i).bytes offset n)
unfolding ramfs_read
read_inside s i buf offset len v l = rw (live_file_lem s i v, ramfs_read) (rw (inside, count) refl)
  where
    sized : (s.files i).size ≤ ramfs_max_file_size
    sized = v.sized

    inside : leb (s.files i).size offset ≡ false
    inside = ground arith

    count :
        (if ltb (sub32 (s.files i).size offset) len then sub32 (s.files i).size offset else len)
        ≡ min len ((s.files i).size - offset)
    count = ground arith

read_eof :
    (s : Ramfs) (i : ℕ) (buf : ℕ → ℕ) (offset len : ℕ)
    → IsLive s i
    → (s.files i).size ≤ offset
    → ramfs_read (pos i) buf offset len s ≡ (pos 0, buf)
unfolding ramfs_read
read_eof s i buf offset len v l = rw (live_file_lem s i v, ramfs_read) (rw behind refl)
  where
    behind : leb (s.files i).size offset ≡ true
    behind = ground arith

write_lem :
    (s : Ramfs) (i : ℕ) (buf : ℕ → ℕ) (offset len : ℕ)
    → IsLive s i
    → ramfs_write (pos i) buf offset len s ≡ (
      to_int32 (clamp offset len),
      record s { files = update s.files i (write_file buf offset (clamp offset len) (s.files i)) },
    )
unfolding ramfs_write
write_lem s i buf offset len v = rw (live_file_lem s i v, ramfs_write)

pub write_bounds :
    (s : Ramfs) (i : ℕ) (buf : ℕ → ℕ) (offset len : ℕ)
    → IsLive s i
    → offset ≤ ramfs_max_file_size
    → offset + len < 2 ^ 32
    → let n = min len (ramfs_max_file_size - offset) in
      let (r, t) = ramfs_write (pos i) buf offset len s in
      (r ≡ pos n)
      × IsLive t i
      × ((t.files i).size
          ≡ (if ltb (s.files i).size (offset + n) then offset + n else (s.files i).size))
      × ((x : ℕ)
          → (t.files i).bytes x ≡ (
              if leb offset x && ltb x (offset + n) then buf (x - offset) else (s.files i).bytes x))
      × ((j : ℕ) → j ≢ i → t.files j ≡ s.files j)
unfolding write_file
write_bounds s i buf offset len v h w =
    rw (write_lem s i buf offset len v, clamp_lem offset len h w, ==_self i)
      (
        ground arith,
        ground arith,
        ground arith,
        λ x. mem_copy_at s i buf offset (min len (ramfs_max_file_size - offset)) x,
        λ j ne. ground arith,
      )
  where
    mem_copy_at :
        (s : Ramfs) (i : ℕ) (buf : ℕ → ℕ) (offset n x : ℕ)
        → mem_copy (s.files i).bytes offset buf 0 n x
          ≡ (if leb offset x && ltb x (offset + n) then buf (x - offset) else (s.files i).bytes x)
    mem_copy_at s i buf offset n x = ground (arith, mem_copy_lem (s.files i).bytes offset buf 0 n x)

-- A read of a live file returns the number of bytes from the offset to the end of the file, at most
-- `len` and 0 from the end on; these bytes, all of them inside the file, are what it stores, and
-- nothing else of the buffer changes.
pub read_bounds :
    (s : Ramfs) (i : ℕ) (buf : ℕ → ℕ) (offset len : ℕ)
    → IsLive s i
    → let n = min len ((s.files i).size - offset) in
      let (r, out) = ramfs_read (pos i) buf offset len s in
      (r ≡ pos n)
      × ((x : ℕ) → x < n → offset + x < (s.files i).size)
      × ((x : ℕ) → out x ≡ (if ltb x n then (s.files i).bytes (offset + x) else buf x))
read_bounds s i buf offset len v = elim (dec_lt offset (s.files i).size) [
  | yes l ↦ rw (read_inside s i buf offset len v l) (
    let sized = v.sized in ground arith,
    λ x q. omega arith,
    λ x. ground (
      arith,
      mem_copy_lem buf 0 (s.files i).bytes offset (min len ((s.files i).size - offset)) x,
    ),
  )
  | no nl ↦
      let none_left : min len ((s.files i).size - offset) ≡ 0 = omega arith in
      rw (read_eof s i buf offset len v (omega arith), none_left)
        (refl, λ x q. absurd (omega arith), λ x. ground arith)
]

-- Bytes that are written to a live file, within its 32 KB, are read back from the same offset, and
-- both calls return their number.
pub write_read :
    (s : Ramfs) (i : ℕ) (buf out : ℕ → ℕ) (offset len : ℕ)
    → IsLive s i
    → offset + len ≤ ramfs_max_file_size
    → let (r, t) = ramfs_write (pos i) buf offset len s in
      let (q, got) = ramfs_read (pos i) out offset len t in
      (r ≡ pos len) × (q ≡ pos len) × ((x : ℕ) → x < len → got x ≡ buf x)
write_read s i buf out offset len v h =
    let (r, live, size, bytes, _) = write_bounds s i buf offset len v (omega arith) (omega arith) in
    let (q, _, got) = read_bounds (ramfs_write (pos i) buf offset len s).1 i out offset len live in
    let n : min len (ramfs_max_file_size - offset) ≡ len = omega arith in
    let grown : len ≤ ((ramfs_write (pos i) buf offset len s).1.files i).size - offset =
      ground arith in
    let m : min len (((ramfs_write (pos i) buf offset len s).1.files i).size - offset) ≡ len =
      omega arith in
    (r ∙ ap pos n, q ∙ ap pos m, λ x l. ground (arith, got x, bytes (offset + x)))
