-- ===== src/Vfs/Namei.antt =====
-- The lookup of paths: `namei` of src/sys/os/vfs_namei.c. `none` is a fault, or that the fuel ran out.
use l5lunos.Prelude.{
  ℕ, zero, suc, ◌+◌, ◌-◌, Bool, true, false, Option, none, some, [], ◌∷◌, ◌++◌, ltb, ◌==◌,
  if◌then◌else◌, ◌>>=◌, Bytes, codes, length,
}
use l5lunos.Prelude.Errno.{Ret, ok, err, einval, enoent, eio, enametoolong}
use l5lunos.Vfs.State.{VType, file, FsKind, initrd, devfs, tmpfs, Vnode, Mount, Vfs}
use l5lunos.Vfs.Path.{skip_slashes}
use l5lunos.Vfs.Devfs.{name_max}
use l5lunos.Vfs.Tmpfs.{tmpfs_create}
use l5lunos.Vfs.Ops.{lookup_with}
use l5lunos.Vfs.Mount.{skip_name, after_root, root_part, mount_lookup}
pub mod Tmp
pub mod Kmount
pub mod Returns

-- The characters up to the next '/'.
unfoldable pub name_part : Bytes → Bytes
name_part [] = []
name_part (c ∷ p) = let rest = name_part p in if c == b'/' then [] else c ∷ rest

-- An error of `lookup` is ENOENT for the caller.
abbrev pub as_missing : Ret ℕ × Vfs → Ret ℕ × Vfs
as_missing (err e, s) = (err enoent, s)
as_missing (ok p, s) = (ok p, s)

-- Behind the lookup of a component; `again` is the next round.
abbrev pub continued : (ℕ → Vfs → Option (Ret ℕ × Vfs)) → Ret ℕ × Vfs → Option (Ret ℕ × Vfs)
continued again (err e, s) = some (err enoent, s)
continued again (ok p, s) = again p s

abbrev pub looked_up :
    (ℕ → Vfs → Option (Ret ℕ × Vfs)) → FsKind → Bytes → Vfs → Option (Ret ℕ × Vfs)
looked_up again k name s = lookup_with k name s >>= λ r. continued again r

abbrev pub behind_create :
    (ℕ → Vfs → Option (Ret ℕ × Vfs)) → FsKind → Bytes → Ret ℕ × Vfs → Option (Ret ℕ × Vfs)
behind_create again k name (err e, s) = some (err e, s)
behind_create again k name (ok z, s) = looked_up again k name s

-- "Create as we go", which only tmpfs can, and the lookup.
abbrev pub create_first :
    (ℕ → Vfs → Option (Ret ℕ × Vfs)) → Bool → FsKind → Bytes → Vfs → Option (Ret ℕ × Vfs)
create_first again false k name s = looked_up again k name s
create_first again true initrd name s = some (err eio, s)
create_first again true devfs name s = some (err eio, s)
create_first again true tmpfs name s =
    behind_create again tmpfs name (tmpfs_create (some name) file s)

abbrev pub step_with :
    (ℕ → Vfs → Option (Ret ℕ × Vfs)) → Bool → Bytes → Vfs → Option FsKind → Option (Ret ℕ × Vfs)
step_with again create name s none = some (err eio, s)
step_with again create name s (some k) = create_first again create k name s

-- The loop over the components; every lookup is in the mountpoint's vnode `mvp`, and `vp` is the result
-- so far. A round consumes a byte.
unfoldable pub walk_names : ℕ → Bool → ℕ → Bytes → ℕ → Vfs → Option (Ret ℕ × Vfs)
walk_names zero create mvp pcur vp s = none
walk_names (suc fuel) create mvp [] vp s = some (ok vp, s)
walk_names (suc fuel) create mvp (c ∷ p) vp s =
    let q = skip_slashes (c ∷ p) in
    let rest = s.vnodes mvp >>= λ v.
    step_with (λ vp' t. walk_names fuel create mvp (skip_name q) vp' t) create (name_part q) s
      v.vops in
    if ltb (name_max - 1) (length (name_part q)) then some (err enametoolong, s) else rest

-- The mount of the first component, or the one of "/".
abbrev pub or_root : Vfs → Ret Mount → Ret Mount
or_root s (ok m) = ok m
or_root s (err e) = mount_lookup (some (codes "/")) s

-- An image is given the whole path; `fs` is the mount's file system, and `k` that of its vnode.
abbrev pub in_fs : Bool → Bytes → Vfs → ℕ → FsKind → FsKind → Option (Ret ℕ × Vfs)
in_fs create path s vp k initrd = lookup_with k path s >>= λ r. some (as_missing r)
in_fs create path s vp k devfs = walk_names (length path + 1) create vp (after_root path) vp s
in_fs create path s vp k tmpfs = walk_names (length path + 1) create vp (after_root path) vp s

abbrev pub in_mount : Bool → Bytes → Vfs → Mount → Option FsKind → Option (Ret ℕ × Vfs)
in_mount create path s m none = some (err eio, s)
in_mount create path s m (some k) = in_fs create path s m.vp k m.fs

abbrev pub at_mount : Bool → Bytes → Vfs → Ret Mount → Option (Ret ℕ × Vfs)
at_mount create path s (err e) = some (err e, s)
at_mount create path s (ok m) = s.vnodes m.vp >>= λ v. in_mount create path s m v.vops

-- The vnode that is written to `*ndp->vp_res`, which is taken to be there; `create` is the flag
-- NAMEI_CREATE. `junk` are the bytes up to a NUL that stand behind the root's name in `namebuf`, which
-- gets no NUL.
unfoldable pub namei : Bytes → Bool → Option Bytes → Vfs → Option (Ret ℕ × Vfs)
namei junk create none s = some (err einval, s)
namei junk create (some path) s =
    let rest =
      at_mount create path s (or_root s (mount_lookup (some (root_part path ++ junk)) s)) in
    if ltb name_max (length (root_part path)) then none else rest
