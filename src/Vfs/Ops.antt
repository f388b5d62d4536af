-- ===== src/Vfs/Ops.antt =====
-- The dispatch over a vnode's operations, `vop_*` of src/sys/os/vfs_subr.c, and the vectors of the three
-- file systems. `none` is a fault.
use l5lunos.Prelude.{
  ℕ, Bool, true, false, Option, none, some, ◌==◌, if◌then◌else◌, ◌>>=◌, Bytes, length,
}
use l5lunos.Prelude.Errno.{Ret, ok, err, einval, eio, enotsup}
use l5lunos.Omar.Initrd.{initrd_read}
use l5lunos.Vfs.State.{VType, FsKind, initrd, devfs, tmpfs, Vnode, Vfs}
use l5lunos.Vfs.Tmpfs.{tmpfs_lookup, tmpfs_create}
use l5lunos.Vfs.Tmpfs.Data.{Realloc, tmpfs_write, tmpfs_read, tmpfs_getattr}
use l5lunos.Vfs.Devfs.{CdevRead, devfs_lookup, devfs_read}
use l5lunos.Vfs.Ramdisk.{initrd_lookup, initrd_data}

abbrev pub counted : Ret Bytes → Ret (ℕ × Bytes)
counted (err e) = err e
counted (ok bytes) = ok (length bytes, bytes)

-- vops->read of each file system: the result, and what is put into the buffer.
abbrev pub read_with : CdevRead → FsKind → Vnode → ℕ → ℕ → ℕ → Vfs → Option (Ret (ℕ × Bytes))
read_with cdev_read initrd v vp off len s =
    initrd_data v.vdata >>= λ np. initrd_read true (some np) off len
read_with cdev_read devfs v vp off len s = devfs_read cdev_read (some vp) off len s
read_with cdev_read tmpfs v vp off len s = tmpfs_read (some vp) off len s >>= λ r. some (counted r)

abbrev pub dispatch_read :
    CdevRead → Vnode → ℕ → ℕ → ℕ → Vfs → Option FsKind → Option (Ret (ℕ × Bytes))
dispatch_read cdev_read v vp off len s none = some (err eio)
dispatch_read cdev_read v vp off len s (some k) = read_with cdev_read k v vp off len s

-- Whether `data` is there is an argument.
unfoldable pub vop_read : CdevRead → Option ℕ → Bool → ℕ → ℕ → Vfs → Option (Ret (ℕ × Bytes))
vop_read cdev_read none buf off len s = some (err einval)
vop_read cdev_read (some vp) false off len s = some (err einval)
vop_read cdev_read (some vp) true off len s =
    let rest = s.vnodes vp >>= λ v. dispatch_read cdev_read v vp off len s v.vops in
    if len == 0 then some (err einval) else rest

-- vops->write, which only tmpfs has.
abbrev pub dispatch_write : Realloc → ℕ → ℕ → ℕ → Bytes → Vfs → Option FsKind → Option (Ret ℕ × Vfs)
dispatch_write realloc vp off len src s none = some (err eio, s)
dispatch_write realloc vp off len src s (some initrd) = some (err enotsup, s)
dispatch_write realloc vp off len src s (some devfs) = some (err enotsup, s)
dispatch_write realloc vp off len src s (some tmpfs) = tmpfs_write realloc (some vp) off len src s

unfoldable pub vop_write : Realloc → Option ℕ → Option Bytes → ℕ → ℕ → Vfs → Option (Ret ℕ × Vfs)
vop_write realloc none src off len s = some (err einval, s)
vop_write realloc (some vp) none off len s = some (err einval, s)
vop_write realloc (some vp) (some src) off len s =
    let rest = s.vnodes vp >>= λ v. dispatch_write realloc vp off len src s v.vops in
    if len == 0 then some (err einval, s) else rest

-- vops->reclaim, which only tmpfs has, and which does nothing.
abbrev pub dispatch_reclaim : Option FsKind → Ret ℕ
dispatch_reclaim none = err eio
dispatch_reclaim (some initrd) = err enotsup
dispatch_reclaim (some devfs) = err enotsup
dispatch_reclaim (some tmpfs) = ok 0

unfoldable pub vop_reclaim : Option ℕ → Vfs → Option (Ret ℕ)
vop_reclaim none s = some (err einval)
vop_reclaim (some vp) s = s.vnodes vp >>= λ v. some (dispatch_reclaim v.vops)

-- vops->create, which only tmpfs has.
abbrev pub dispatch_create : Option Bytes → VType → Vfs → Option FsKind → Ret ℕ × Vfs
dispatch_create path type s none = (err eio, s)
dispatch_create path type s (some initrd) = (err eio, s)
dispatch_create path type s (some devfs) = (err eio, s)
dispatch_create path type s (some tmpfs) = tmpfs_create path type s

-- `ndp` is its path, or `none` for NULL.
unfoldable pub vop_create : Option ℕ → Option (Option Bytes) → VType → Vfs → Option (Ret ℕ × Vfs)
vop_create none ndp type s = some (err einval, s)
vop_create (some vp) none type s = some (err einval, s)
vop_create (some vp) (some path) type s =
    s.vnodes vp >>= λ v. some (dispatch_create path type s v.vops)

-- vops->getattr, which only tmpfs has.
abbrev pub dispatch_getattr : ℕ → Vfs → Option FsKind → Option (Ret ℕ)
dispatch_getattr vp s none = some (err eio)
dispatch_getattr vp s (some initrd) = some (err eio)
dispatch_getattr vp s (some devfs) = some (err eio)
dispatch_getattr vp s (some tmpfs) = tmpfs_getattr (some vp) s

-- The size that is written to `res`; whether `res` is there is an argument.
unfoldable pub vop_getattr : Option ℕ → Bool → Vfs → Option (Ret ℕ)
vop_getattr none res s = some (err einval)
vop_getattr (some vp) false s = some (err einval)
vop_getattr (some vp) true s = s.vnodes vp >>= λ v. dispatch_getattr vp s v.vops

-- vops->lookup, which all have.
abbrev pub lookup_with : FsKind → Bytes → Vfs → Option (Ret ℕ × Vfs)
lookup_with initrd name s = initrd_lookup name s
lookup_with devfs name s = some (devfs_lookup name s)
lookup_with tmpfs name s = some (tmpfs_lookup (some name) s)
