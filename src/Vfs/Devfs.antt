-- ===== src/Vfs/Devfs.antt =====
-- The device file system: src/sys/fs/devfs.c. The drivers' `read` callbacks are a parameter of
-- `devfs_read`. `none` is a fault.
use l5lunos.Prelude.{
  ℕ, Bool, true, false, Option, none, some, List, [], ◌∷◌, ◌++◌, ltb, leb, ◌==◌, if◌then◌else◌,
  ◌>>=◌, Bytes, length, same_text,
}
use l5lunos.Prelude.Errno.{Ret, ok, err, fail, einval, enomem, enoent, eio}
use l5lunos.Mem.Kalloc.{Heap, kalloc}
use l5lunos.Vfs.State.{
  dir, cdev, devfs, VData, no_data, tmp_node, dev_node, image_node, DevfsNode, Vfs,
}
use l5lunos.Vfs.Vnode.{vfs_valloc, attach}

-- DEVFS_CDEV and __DEVFS_NTYPE
abbrev pub devfs_cdev : ℕ
devfs_cdev = 1

abbrev pub devfs_ntype : ℕ
devfs_ntype = 2

-- NAME_MAX of src/sys/include/sys/limits.h
abbrev pub name_max : ℕ
name_max = 256

-- sizeof(struct devfs_node) on amd64
abbrev pub sizeof_devfs_node : ℕ
sizeof_devfs_node = 288

-- The first node of a name.
unfoldable pub find_device : Bytes → List DevfsNode → Option DevfsNode
find_device name [] = none
find_device name (d ∷ ds) =
    let rest = find_device name ds in if same_text d.name name then some d else rest

abbrev pub given_device : DevfsNode → Ret ℕ × Vfs → Ret ℕ × Vfs
given_device d (err e, s) = (err e, s)
given_device d (ok p, s) = (ok p, attach p (dev_node d.self) devfs s)

abbrev pub found_device : Vfs → Option DevfsNode → Ret ℕ × Vfs
found_device s none = (err enoent, s)
found_device s (some d) = given_device d (vfs_valloc true cdev s)

-- The vnode that is written to `*args->vpp`.
unfoldable pub devfs_lookup : Bytes → Vfs → Ret ℕ × Vfs
devfs_lookup name s = found_device s (find_device name s.devices)

-- Behind the allocation. The name's array is neither cleared nor closed with a NUL: `stale p` are the
-- bytes up to a NUL that stand behind the name in the block at `p`.
abbrev pub registered : (ℕ → Bytes) → Bytes → ℕ → ℕ → Vfs → Option ℕ × Heap → Option (Ret ℕ × Vfs)
registered stale name type dev s (none, h) = some (err enomem, record s { heap = h })
registered stale name type dev s (some p, h) =
    if ltb name_max (length name)
    then none
    else some (
      ok 0,
      record s {
        heap = h;
        devices =
            s.devices
            ++ (record { self = p; name = name ++ stale p; type = type; dev = some dev }) ∷ [];
      },
    )

unfoldable pub devfs_register :
    (ℕ → Bytes) → Option Bytes → ℕ → Option ℕ → Vfs → Option (Ret ℕ × Vfs)
devfs_register stale none type dev s = some (err einval, s)
devfs_register stale (some name) type none s = some (err einval, s)
devfs_register stale (some name) type (some dev) s =
    if leb devfs_ntype type
    then some (err einval, s)
    else registered stale name type dev s (kalloc sizeof_devfs_node s.heap)

-- What a driver's `read` returns, and the bytes that it puts into the buffer, by the address of its
-- vector, the count and the offset.
abbrev pub CdevRead : Type 0
CdevRead = ℕ → ℕ → ℕ → Ret (ℕ × Bytes)

abbrev pub devfs_cdev_read : CdevRead → Option ℕ → ℕ → ℕ → Ret (ℕ × Bytes)
devfs_cdev_read read none off len = err eio
devfs_cdev_read read (some vector) off len = read vector len off

unfoldable pub device_at : ℕ → List DevfsNode → Option DevfsNode
device_at p [] = none
device_at p (d ∷ ds) = let rest = device_at p ds in if d.self == p then some d else rest

-- The node that `vp->data` points to; no other file system gives a vnode these operations.
abbrev pub devfs_data : Vfs → VData → Option (Option DevfsNode)
devfs_data s no_data = some none
devfs_data s (tmp_node p) = none
devfs_data s (dev_node p) = device_at p s.devices >>= λ d. some (some d)
devfs_data s (image_node np) = none

abbrev pub read_device : CdevRead → ℕ → ℕ → Option DevfsNode → Ret (ℕ × Bytes)
read_device read off len none = err eio
read_device read off len (some d) =
    if d.type == devfs_cdev then devfs_cdev_read read d.dev off len else err eio

unfoldable pub devfs_read : CdevRead → Option ℕ → ℕ → ℕ → Vfs → Option (Ret (ℕ × Bytes))
devfs_read read none off len s = some (err eio)
devfs_read read (some vp) off len s =
    s.vnodes vp >>= λ v. devfs_data s v.vdata >>= λ d. some (read_device read off len d)

-- `TAILQ_INIT(&nodelist)`
abbrev pub devfs_init : Vfs → Vfs
devfs_init s = record s { devices = [] }

abbrev pub devfs_mounted : Ret ℕ × Vfs → Ret ℕ × Vfs
devfs_mounted (err e, s) = (err e, s)
devfs_mounted (ok p, s) = (ok p, attach p no_data devfs s)

-- `margs->vp_res` is the vnode that is returned.
unfoldable pub devfs_mount : Bool → Vfs → Ret ℕ × Vfs
devfs_mount false s = (err fail, s)
devfs_mount true s = devfs_mounted (vfs_valloc true dir s)
