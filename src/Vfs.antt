-- ===== src/Vfs.antt =====
-- kernel/fs/vfs.c: the switch in front of the mounted file system, over any file system state `F`;
-- and the mounting of ramfs, from kernel/fs/ramfs.c.
use lightstreak_os.Base.{ℕ, Option, none, some, List}
use lightstreak_os.Base.Int.{ℤ, minus_one}
use lightstreak_os.Ramfs.{
  Ramfs, Dirent, ramfs_create, ramfs_open, ramfs_read, ramfs_write, ramfs_close, ramfs_readdir,
  ramfs_init,
}

-- The operations of a file system; a null pointer is `none`.
pub record FsOps (F : Type 0) : Type 0 where
  pub create : Option (List ℕ → F → Option ℕ × F)
  pub «open» : Option (List ℕ → F → Option ℕ)
  pub read : Option (ℤ → (ℕ → ℕ) → ℕ → ℕ → F → ℤ × (ℕ → ℕ))
  pub write : Option (ℤ → (ℕ → ℕ) → ℕ → ℕ → F → ℤ × F)
  pub close : Option (ℤ → F → ℤ)
  pub readdir : Option (ℕ → F → List Dirent)

pub record Vfs (F : Type 0) : Type 0 where
  pub mounted_fs : Option (FsOps F)
  pub disk : F

module _ {F : Type 0} where
  -- The operation of the mounted file system, if there is one.
  abbrev pub dispatch : {A : Type 0} → (FsOps F → Option A) → Vfs F → Option A
  dispatch op v = elim v.mounted_fs [ none ↦ none | some ops ↦ op ops ]

  unfoldable pub vfs_mount : FsOps F → Vfs F → Vfs F
  vfs_mount ops v = record v { mounted_fs = some ops }

  unfoldable pub vfs_create : List ℕ → Vfs F → Option ℕ × Vfs F
  vfs_create name v = elim (dispatch (λ ops. ops.create) v) [
    | none ↦ (none, v)
    | some f ↦ let (r, disk) = f name v.disk in (r, record v { disk = disk })
  ]

  unfoldable pub vfs_open : List ℕ → Vfs F → Option ℕ
  vfs_open path v = elim (dispatch (λ ops. ops.«open») v) [ none ↦ none | some f ↦ f path v.disk ]

  unfoldable pub vfs_read : ℤ → (ℕ → ℕ) → ℕ → ℕ → Vfs F → ℤ × (ℕ → ℕ)
  vfs_read file_idx buf offset len v = elim (dispatch (λ ops. ops.read) v) [
    | none ↦ (minus_one, buf)
    | some f ↦ f file_idx buf offset len v.disk
  ]

  unfoldable pub vfs_write : ℤ → (ℕ → ℕ) → ℕ → ℕ → Vfs F → ℤ × Vfs F
  vfs_write file_idx buf offset len v = elim (dispatch (λ ops. ops.write) v) [
    | none ↦ (minus_one, v)
    | some f ↦ let (r, disk) = f file_idx buf offset len v.disk in (r, record v { disk = disk })
  ]

  pub vfs_close : ℤ → Vfs F → ℤ
  vfs_close file_idx v = elim (dispatch (λ ops. ops.close) v) [
    | none ↦ minus_one
    | some f ↦ f file_idx v.disk
  ]

  pub vfs_readdir : ℕ → Vfs F → Option (List Dirent)
  vfs_readdir max v = elim (dispatch (λ ops. ops.readdir) v) [
    | none ↦ none
    | some f ↦ some (f max v.disk)
  ]

  unfoldable pub vfs_init : Vfs F → Vfs F
  vfs_init v = record v { mounted_fs = none }

-- The table that `ramfs_get_ops` returns and `ramfs_init` mounts.
abbrev pub ramfs_ops : FsOps Ramfs
ramfs_ops = record {
  create = some ramfs_create;
  «open» = some ramfs_open;
  read = some ramfs_read;
  write = some ramfs_write;
  close = some ramfs_close;
  readdir = some ramfs_readdir;
}

-- The file system at the start of the kernel: empty slots, mounted.
unfoldable pub mount_ramfs : Vfs Ramfs → Vfs Ramfs
mount_ramfs v = vfs_mount ramfs_ops (record v { disk = ramfs_init v.disk })
