-- ===== src/Launch/Startup/Files.antt =====
-- kernel/kernel.c: the file system after the kernel has tried it, before the first module is unpacked.
use lightstreak_os.Base.{
  ℕ, suc, ◌+◌, ◌<◌, ◌≡◌, refl, ap, sym, subst, ◌∙◌, Option, none, some, List, [], ◌∷◌, arith, ltb,
  length, update, get_or, ==_ne, ℕ_discrete,
}
use lightstreak_os.Base.Int.{pos}
use lightstreak_os.Base.Memory.{Memory}
use lightstreak_os.Mkramfs.Held.{Held}
use lightstreak_os.Ramfs.{Ramfs, new_file, ramfs_create, ramfs_init}
use lightstreak_os.Ramfs.Image.{HostFile, IsNew, IsPrefix, AreFresh, prefix-create}
use lightstreak_os.Ramfs.Slots.{ramfs_init-IsPrefix, write_names}
use lightstreak_os.Syscall.Files.{vfs_write_lem}
use lightstreak_os.Vfs.{
  Vfs, ramfs_ops, vfs_init, vfs_mount, vfs_create, vfs_open, vfs_write, mount_ramfs,
}
use lightstreak_os.Launch.Startup.{hello, greeting, try_vfs}

-- ramfs is mounted and holds the kernel's file and no other.
pub record IsReady (v : Vfs Ramfs) : Type 0 where
  pub mounted : v.mounted_fs ≡ some ramfs_ops
  pub prefix : IsPrefix v.disk 1
  pub first : (v.disk.files 0).name ≡ hello

made-IsReady :
    (v : Vfs Ramfs) (d : Ramfs)
    → v.mounted_fs ≡ some ramfs_ops
    → IsPrefix d 0
    → IsReady
        (record v { disk = record d { files = update d.files 0 (new_file hello (d.files 0)) } })
made-IsReady v d m p = record {
  mounted = m;
  prefix = λ i h. elim (ℕ_discrete 0 i) [
    | yes e ↦ subst (λ x. (update d.files 0 (new_file hello (d.files 0)) x).used ≡ ltb x 1) e refl
    | no ne ↦ rw (==_ne 0 i ne) (p i h ∙ ground (arith, ne))
  ];
  first = refl;
}

written-IsReady :
    (v : Vfs Ramfs) (i : ℕ) (buf : ℕ → ℕ) (len : ℕ)
    → IsReady v
    → IsReady (vfs_write (pos i) buf 0 len v).1
written-IsReady v i buf len r =
    subst (λ o. IsReady o.1) (sym (vfs_write_lem v (pos i) buf 0 len r.mounted))
      record {
        mounted = r.mounted;
        prefix = λ x h. (write_names (pos i) buf 0 len v.disk x).0 ∙ r.prefix x h;
        first = (write_names (pos i) buf 0 len v.disk 0).1 ∙ r.first;
      }

pub try_vfs-IsReady : (v : Vfs Ramfs) → IsReady (try_vfs (mount_ramfs (vfs_init v)))
unfolding try_vfs mount_ramfs vfs_init vfs_mount vfs_create
try_vfs-IsReady v = go (vfs_open hello made)
  where
    start : Ramfs
    start = ramfs_init v.disk

    made : Vfs Ramfs
    made = (vfs_create hello (mount_ramfs (vfs_init v))).1

    created :
        ramfs_create hello start
        ≡ (some 0, record start { files = update start.files 0 (new_file hello (start.files 0)) })
    created =
        prefix-create start 0 hello (ramfs_init-IsPrefix v.disk) (omega arith)
          (λ i l. absurd (omega (arith, l)))

    ready : IsReady made
    ready =
        subst (λ o. IsReady (record v { mounted_fs = some ramfs_ops; disk = o.1 })) (sym created)
          (made-IsReady (record v { mounted_fs = some ramfs_ops }) start refl
            (ramfs_init-IsPrefix v.disk))

    go :
        (o : Option ℕ)
        → IsReady (elim o as (λ x. Vfs Ramfs) [
          | none ↦ made
          | some idx ↦ (vfs_write (pos idx) (λ i. get_or greeting i 0) 0 (length greeting) made).1
        ])
    go none = ready
    go (some idx) = written-IsReady made idx (λ i. get_or greeting i 0) (length greeting) ready

-- Other names than that of the kernel's file are fresh.
pub ready-AreFresh :
    (v : Vfs Ramfs) (fs : List HostFile)
    → IsReady v
    → IsNew record { name = hello; content = [] } fs
    → AreFresh v.disk 1 fs
ready-AreFresh v [] r n = tt
ready-AreFresh v (f ∷ fs) r (d, n) = (
  λ i l z. d (sym r.first ∙ (ap (λ x. (v.disk.files x).name) (omega (arith, l)) ∙ z)),
  ready-AreFresh v fs r n,
)

-- Memory that keeps its bytes still holds the list.
pub Held-frame :
    (mem later : Memory) (xs : List ℕ) (a : ℕ)
    → ((x : ℕ) → x < a + length xs → later x ≡ mem x)
    → Held mem a xs
    → Held later a xs
unfolding Held
Held-frame mem later [] a same h = tt
Held-frame mem later (b ∷ xs) a same (e, h) =
    (same a (omega arith) ∙ e, Held-frame mem later xs (suc a) (λ x l. same x (omega (arith, l))) h)
