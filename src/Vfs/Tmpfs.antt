-- ===== src/Vfs/Tmpfs.antt =====
-- The temporary file system: src/sys/fs/tmpfs.c. `none` is a fault.
use l5lunos.Prelude.{
  ℕ, ◌+◌, ◌-◌, ◌%◌, ◌^◌, Bool, true, false, Option, none, some, List, [], ◌∷◌, ◌++◌, ltb, leb, ◌==◌,
  if◌then◌else◌, ◌>>=◌, Bytes, length, take, replicate, same_text,
}
use l5lunos.Prelude.Errno.{
  Errno, Ret, ok, err, fail, einval, enomem, enoent, eio, enotsup, enametoolong, eexist,
}
use l5lunos.Mem.Kalloc.{Heap, kalloc, kfree}
use l5lunos.Vfs.State.{
  VType, no_type, file, dir, sock, cdev, FsKind, tmpfs, VData, no_data, tmp_node, dev_node,
  image_node, Vnode, TmpfsNode, Vfs, update,
}
use l5lunos.Vfs.Buffer.{copy_in, copy_from}
use l5lunos.Vfs.Vnode.{vfs_valloc, attach}
pub mod Data
pub mod Readback
pub mod Rewrite
pub mod Names
pub mod Table

-- TMPFS_NAMEMAX
abbrev pub tmpfs_namemax : ℕ
tmpfs_namemax = 128

-- TMPFS_INIT_SIZE
abbrev pub tmpfs_init_size : ℕ
tmpfs_init_size = 8

-- sizeof(struct tmpfs_node) on amd64
abbrev pub sizeof_tmpfs_node : ℕ
sizeof_tmpfs_node = 176

abbrev pub fresh_node : ℕ → ℕ → Bytes → VType → TmpfsNode
fresh_node p b name type = record {
  self = p;
  name = name;
  block = b;
  buf = replicate tmpfs_init_size 0;
  len = tmpfs_init_size;
  real_len = 0;
  ref = 1;
  vtype = type;
}

-- Behind the allocation of the buffer of the node at `p`.
abbrev pub with_buffer : Bytes → VType → Vfs → ℕ → Option ℕ × Heap → Ret ℕ × Vfs
with_buffer name type s p (none, h) = (err enomem, record s { heap = kfree (some p) h })
with_buffer name type s p (some b, h) =
    (ok p, record s { heap = h; nodes = s.nodes ++ fresh_node p b name type ∷ [] })

-- Behind the allocation of the node.
abbrev pub with_node : Bytes → VType → Vfs → Option ℕ × Heap → Ret ℕ × Vfs
with_node name type s (none, h) = (err enomem, record s { heap = h })
with_node name type s (some p, h) = with_buffer name type s p (kalloc tmpfs_init_size h)

-- The address that is written to `*np_res`.
unfoldable pub tmpfs_new : Option Bytes → VType → Vfs → Ret ℕ × Vfs
tmpfs_new none type s = (err einval, s)
tmpfs_new (some name) type s =
    if ltb (tmpfs_namemax - 1) (length name)
    then (err enametoolong, s)
    else with_node name type s (kalloc sizeof_tmpfs_node s.heap)

-- The loop of `tmpfs_byname`.
unfoldable pub find_node : Bytes → List TmpfsNode → Ret TmpfsNode
find_node name [] = err enoent
find_node name (np ∷ nps) =
    let rest = find_node name nps in if same_text np.name name then ok np else rest

unfoldable pub tmpfs_byname : Option Bytes → List TmpfsNode → Ret TmpfsNode
tmpfs_byname none nodes = err einval
tmpfs_byname (some name) nodes = find_node name nodes

-- The node at an address, and a change to it.
unfoldable pub node_at : ℕ → List TmpfsNode → Option TmpfsNode
node_at p [] = none
node_at p (np ∷ nps) = let rest = node_at p nps in if np.self == p then some np else rest

unfoldable pub put_node : TmpfsNode → List TmpfsNode → List TmpfsNode
put_node n [] = []
put_node n (np ∷ nps) =
    let rest = put_node n nps in if np.self == n.self then n ∷ nps else np ∷ rest

-- tmpfs_ref
abbrev pub ref_node : TmpfsNode → TmpfsNode
ref_node np = record np { ref = (np.ref + 1) % 2 ^ 32 }

-- Behind `vfs_valloc`.
abbrev pub given_vnode : TmpfsNode → Ret ℕ × Vfs → Ret ℕ × Vfs
given_vnode np (err e, s) = (err e, s)
given_vnode np (ok p, s) =
    (ok p, attach p (tmp_node np.self) tmpfs (record s { nodes = put_node (ref_node np) s.nodes }))

abbrev pub found_node : Vfs → Ret TmpfsNode → Ret ℕ × Vfs
found_node s (err e) = (err e, s)
found_node s (ok np) = given_vnode np (vfs_valloc true np.vtype s)

-- The vnode that is written to `*args->vpp`.
unfoldable pub tmpfs_lookup : Option Bytes → Vfs → Ret ℕ × Vfs
tmpfs_lookup none s = (err einval, s)
tmpfs_lookup (some name) s = found_node s (tmpfs_byname (some name) s.nodes)

-- The types of a node.
abbrev pub is_supported : VType → Bool
is_supported no_type = false
is_supported file = true
is_supported dir = false
is_supported sock = true
is_supported cdev = false

abbrev pub status : Ret ℕ × Vfs → Ret ℕ × Vfs
status (err e, s) = (err e, s)
status (ok p, s) = (ok 0, s)

abbrev pub create_missing : Option Bytes → VType → Vfs → Ret TmpfsNode → Ret ℕ × Vfs
create_missing path type s (ok np) = (err eexist, s)
create_missing path type s (err e) =
    if is_supported type then status (tmpfs_new path type s) else (err enotsup, s)

-- `path` is `ndp->path`.
unfoldable pub tmpfs_create : Option Bytes → VType → Vfs → Ret ℕ × Vfs
tmpfs_create path type s = create_missing path type s (tmpfs_byname path s.nodes)

abbrev pub tmpfs_mounted : Ret ℕ × Vfs → Ret ℕ × Vfs
tmpfs_mounted (err e, s) = (err e, s)
tmpfs_mounted (ok p, s) = (ok p, attach p no_data tmpfs s)

-- `margs->vp_res` is the vnode that is returned; whether `fip` and `margs` are there is an argument.
unfoldable pub tmpfs_mount : Bool → Vfs → Ret ℕ × Vfs
tmpfs_mount false s = (err fail, s)
tmpfs_mount true s = tmpfs_mounted (vfs_valloc true dir s)

-- `TAILQ_INIT(&tmpfs)`
abbrev pub tmpfs_init : Vfs → Vfs
tmpfs_init s = record s { nodes = [] }
