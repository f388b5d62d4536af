-- ===== src/Vfs/Vnode.antt =====
-- Vnodes: `vfs_valloc` and `vfs_vrel` of src/sys/os/vfs_subr.c. `none` is a fault.
use l5lunos.Prelude.{
  ℕ, ◌+◌, ◌-◌, ◌%◌, ◌^◌, Bool, true, false, Option, none, some, ltb, if◌then◌else◌, ◌>>=◌,
}
use l5lunos.Prelude.Errno.{Ret, ok, err, einval, enomem}
use l5lunos.Mem.Kalloc.{Heap, kalloc, kfree}
use l5lunos.Vfs.State.{VType, FsKind, VData, no_data, Vnode, Vfs, update}

-- sizeof(struct vnode) on amd64
abbrev pub sizeof_vnode : ℕ
sizeof_vnode = 24

abbrev pub fresh_vnode : VType → Vnode
fresh_vnode type = record { refcount = 1; type = type; vops = none; vdata = no_data }

abbrev pub valloced : VType → Vfs → Option ℕ × Heap → Ret ℕ × Vfs
valloced type s (none, h) = (err enomem, record s { heap = h })
valloced type s (some p, h) =
    (ok p, record s { heap = h; vnodes = update p (some (fresh_vnode type)) s.vnodes })

-- The address that is written to `*resp`; whether `resp` is there is an argument.
unfoldable pub vfs_valloc : Bool → VType → Vfs → Ret ℕ × Vfs
vfs_valloc false type s = (err einval, s)
vfs_valloc true type s = valloced type s (kalloc sizeof_vnode s.heap)

-- atomic_dec_int gives the new count, which wraps.
abbrev pub dec_ref : Vnode → Vnode
dec_ref v = record v { refcount = (v.refcount + (2 ^ 32 - 1)) % 2 ^ 32 }

abbrev pub dropped : ℕ → Vnode → Vfs → Ret ℕ × Vfs
dropped p v s =
    if ltb 1 v.refcount
    then (ok 0, record s { vnodes = update p (some v) s.vnodes })
    else (ok 0, record s { vnodes = update p none s.vnodes; heap = kfree (some p) s.heap })

unfoldable pub vfs_vrel : Option ℕ → Vfs → Option (Ret ℕ × Vfs)
vfs_vrel none s = some (err einval, s)
vfs_vrel (some p) s = s.vnodes p >>= λ v. some (dropped p (dec_ref v) s)

-- `vp->data = d; vp->vops = &k`
abbrev pub attached : VData → FsKind → Option Vnode → Option Vnode
attached d k none = none
attached d k (some v) = some (record v { vops = some k; vdata = d })

abbrev pub attach : ℕ → VData → FsKind → Vfs → Vfs
attach p d k s = record s { vnodes = update p (attached d k (s.vnodes p)) s.vnodes }
