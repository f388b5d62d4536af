-- ===== src/Vfs/Mount.antt =====
-- Mounting: src/sys/os/vfs_mount.c and the file system table of src/sys/os/vfs_init.c.
use l5lunos.Prelude.{
  ℕ, ◌-◌, Bool, true, ◌||◌, Option, none, some, List, [], ◌∷◌, ◌++◌, ltb, leb, ◌==◌, if◌then◌else◌,
  get_elem?, Bytes, codes, length, take, same_text,
}
use l5lunos.Prelude.Errno.{Ret, ok, err, einval, enomem, enoent, eperm}
use l5lunos.Mem.Kalloc.{Heap, kalloc}
use l5lunos.Vfs.State.{FsKind, initrd, devfs, tmpfs, Mount, Vfs}
use l5lunos.Vfs.Path.{skip_slashes, vfs_cmp_cnt}
use l5lunos.Vfs.Tmpfs.{tmpfs_mount, tmpfs_init}
use l5lunos.Vfs.Devfs.{devfs_mount, devfs_init}
use l5lunos.Vfs.Ramdisk.{initrd_mount}

-- FSNAME_MAX
abbrev pub fsname_max : ℕ
fsname_max = 16

-- sizeof(struct mount) on amd64
abbrev pub sizeof_mount : ℕ
sizeof_mount = 48

abbrev pub fstab : List (Bytes × FsKind)
fstab = (codes "initrd", initrd) ∷ (codes "devfs", devfs) ∷ (codes "tmpfs", tmpfs) ∷ []

-- The first entry of a name.
unfoldable pub find_fs : Bytes → List (Bytes × FsKind) → Ret FsKind
find_fs name [] = err enoent
find_fs name ((n, k) ∷ t) = let rest = find_fs name t in if same_text n name then ok k else rest

unfoldable pub vfs_by_name : Option Bytes → Ret FsKind
vfs_by_name none = err einval
vfs_by_name (some name) = find_fs name fstab

abbrev pub entry_or : Option (Bytes × FsKind) → Ret FsKind
entry_or none = err enoent
entry_or (some (n, k)) = ok k

unfoldable pub vfs_by_index : ℕ → Ret FsKind
vfs_by_index index = entry_or (get_elem? fstab index)

-- while (*pcur != '/' && *pcur != '\0') ++pcur;
unfoldable pub skip_name : Bytes → Bytes
skip_name [] = []
skip_name (c ∷ p) = let rest = skip_name p in if c == b'/' then c ∷ p else rest

-- What stands behind the first component of a path, and the path up to there.
abbrev pub after_root : Bytes → Bytes
after_root path = skip_name (skip_slashes path)

abbrev pub root_part : Bytes → Bytes
root_part path = take (length path - length (after_root path)) path

unfoldable pub find_mount : Bytes → List Mount → Ret Mount
find_mount name [] = err enoent
find_mount name (m ∷ ms) =
    let rest = find_mount name ms in if same_text m.name name then ok m else rest

unfoldable pub mount_lookup : Option Bytes → Vfs → Ret Mount
mount_lookup none s = err einval
mount_lookup (some name) s = find_mount name s.mounts

-- Behind the allocation. The array of 16 bytes is neither cleared nor closed with a NUL: `stale p` are
-- the bytes up to a NUL that stand behind the name in the block at `p`.
abbrev pub named_mount : (ℕ → Bytes) → Bytes → Vfs → Option ℕ × Heap → Ret Bytes × Vfs
named_mount stale name s (none, h) = (err enomem, record s { heap = h })
named_mount stale name s (some p, h) = (ok (take fsname_max name ++ stale p), record s { heap = h })

-- The name that the new mountpoint has.
unfoldable pub mount_alloc : (ℕ → Bytes) → Option Bytes → Vfs → Ret Bytes × Vfs
mount_alloc stale none s = (err einval, s)
mount_alloc stale (some name) s = named_mount stale name s (kalloc sizeof_mount s.heap)

abbrev pub is_bad_count : Ret ℕ → Bool
is_bad_count (err e) = true
is_bad_count (ok ncmp) = ltb 1 ncmp

-- `mount_to` up to the insertion into the list; `bad` is as in `vfs_cmp_cnt`.
unfoldable pub mount_to : (ℕ → Bytes) → Bool → Bytes → Vfs → Ret Bytes × Vfs
mount_to stale bad target s =
    let len = length (root_part target) in
    let rest = mount_alloc stale (some (root_part target)) s in
    if is_bad_count (vfs_cmp_cnt bad (some target))
    then (err einval, s)
    else if leb (fsname_max - 1) len || (len == 0)
    then (err einval, s)
    else rest

-- The file systems' `mount`.
abbrev pub mount_fs : FsKind → Vfs → Ret ℕ × Vfs
mount_fs initrd s = initrd_mount true s
mount_fs devfs s = devfs_mount true s
mount_fs tmpfs s = tmpfs_mount true s

-- The insertion, with the fields that `kmount` sets.
abbrev pub inserted : FsKind → ℕ → Ret Bytes × Vfs → Ret ℕ × Vfs
inserted k vp (err e, s) = (err e, s)
inserted k vp (ok name, s) =
    (ok 0, record s { mounts = s.mounts ++ (record { name = name; vp = vp; fs = k }) ∷ [] })

abbrev pub fs_mounted : (ℕ → Bytes) → Bool → Bytes → FsKind → Ret ℕ × Vfs → Ret ℕ × Vfs
fs_mounted stale bad target k (err e, s) = (err e, s)
fs_mounted stale bad target k (ok vp, s) = inserted k vp (mount_to stale bad target s)

-- The loop over the table by `vfs_by_index` ends behind the last entry.
abbrev pub mount_found : (ℕ → Bytes) → Bool → Bytes → Vfs → Ret FsKind → Ret ℕ × Vfs
mount_found stale bad target s (err e) = (err enoent, s)
mount_found stale bad target s (ok k) = fs_mounted stale bad target k (mount_fs k s)

-- `margs->fstype` and `margs->target`, of arguments that are there.
unfoldable pub kmount : (ℕ → Bytes) → Bool → Option Bytes → Option Bytes → Vfs → Ret ℕ × Vfs
kmount stale bad none target s = (err enoent, s)
kmount stale bad (some fstype) none s = (err einval, s)
kmount stale bad (some fstype) (some target) s =
    mount_found stale bad target s (find_fs fstype fstab)

-- What `kmount` returns is not looked at.
unfoldable pub mountlist_init : (ℕ → Bytes) → Bool → Vfs → Ret ℕ × Vfs
mountlist_init stale bad s =
    let t =
      kmount stale bad (some (codes "initrd")) (some (codes "/"))
        (record s { mounts = []; is_init = true }) in
    if s.is_init then (err eperm, s) else (ok 0, t.1)

-- `initrd_init` is given the image by the boot loader.
unfoldable pub vfs_init : (ℕ → Bytes) → Bool → Bytes → Vfs → Ret ℕ × Vfs
vfs_init stale bad image s =
    (ok 0, (mountlist_init stale bad (tmpfs_init (devfs_init (record s { image = image })))).1)
