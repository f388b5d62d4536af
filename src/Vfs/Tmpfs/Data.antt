-- ===== src/Vfs/Tmpfs/Data.antt =====
-- The data of a node: `tmpfs_write`, `tmpfs_read` and `tmpfs_getattr` of src/sys/fs/tmpfs.c. `none` is
-- a fault: an access outside of a buffer, or through a pointer to nothing.
use l5lunos.Prelude.{
  ℕ, ◌+◌, ◌-◌, ◌%◌, ◌^◌, Bool, true, false, Option, none, some, [], ltb, leb, ◌==◌, if◌then◌else◌,
  ◌>>=◌, Bytes,
}
use l5lunos.Prelude.Errno.{Ret, ok, err, einval, enomem, eio}
use l5lunos.Vfs.State.{VData, no_data, tmp_node, dev_node, image_node, TmpfsNode, Vfs}
use l5lunos.Vfs.Buffer.{copy_in, copy_from}
use l5lunos.Vfs.Tmpfs.{node_at, put_node}

-- What `krealloc` answers for a block, its bytes and the size that is asked for.
abbrev pub Realloc : Type 0
Realloc = ℕ → Bytes → ℕ → Option (ℕ × Bytes)

-- Whether the buffer is as large as `n` says after `krealloc`, and the node.
abbrev pub resized : TmpfsNode → ℕ → Option (ℕ × Bytes) → Bool × TmpfsNode
resized np n none = (false, record np { len = n })
resized np n (some (b, buf)) = (true, record np { len = n; block = b; buf = buf })

-- np->len += overflow_window + 1
abbrev pub wider : TmpfsNode → ℕ → ℕ
wider np end = (np.len + (end - np.len + 1)) % 2 ^ 64

-- The buffer is expanded where the write ends past it.
unfoldable pub expand : Realloc → ℕ → TmpfsNode → Bool × TmpfsNode
expand realloc end np =
    if ltb np.len end
    then resized np (wider np end) (realloc np.block np.buf (wider np end))
    else (true, np)

-- The rest of `tmpfs_write`.
abbrev pub store : ℕ → ℕ → Bytes → Bool × TmpfsNode → Option (Ret ℕ × TmpfsNode)
store off len src (false, np) = some (err enomem, np)
store off len src (true, np) = copy_from 0 len src >>= λ bytes. copy_in off bytes np.buf >>= λ buf.
    some (ok len, record np { real_len = (np.real_len + len) % 2 ^ 64; buf = buf })

unfoldable pub write_node : Realloc → ℕ → ℕ → Bytes → TmpfsNode → Option (Ret ℕ × TmpfsNode)
write_node realloc off len src np = store off len src (expand realloc ((len + off) % 2 ^ 64) np)

-- The number of bytes that are copied out of the buffer.
abbrev pub count_read : ℕ → ℕ → TmpfsNode → ℕ
count_read off len np = if ltb np.len ((len + off) % 2 ^ 64) then np.len else len

-- The bytes that are copied into the caller's buffer, which has `len` bytes; their number is the
-- result.
unfoldable pub read_node : ℕ → ℕ → TmpfsNode → Option Bytes
read_node off len np =
    let n = count_read off len np in
    if leb np.real_len off
    then some []
    else if n == 0
    then some []
    else if ltb len n
    then none
    else copy_from off n np.buf

-- The node that `vp->data` points to, where it is one of tmpfs; no other file system gives a vnode
-- these operations.
abbrev pub tmpfs_data : Vfs → VData → Option (Option TmpfsNode)
tmpfs_data s no_data = some none
tmpfs_data s (tmp_node p) = node_at p s.nodes >>= λ np. some (some np)
tmpfs_data s (dev_node p) = none
tmpfs_data s (image_node np) = none

abbrev pub written : Vfs → Ret ℕ × TmpfsNode → Ret ℕ × Vfs
written s (r, np) = (r, record s { nodes = put_node np s.nodes })

abbrev pub write_through : Realloc → ℕ → ℕ → Bytes → Vfs → Option TmpfsNode → Option (Ret ℕ × Vfs)
write_through realloc off len src s none = some (err eio, s)
write_through realloc off len src s (some np) =
    write_node realloc off len src np >>= λ r. some (written s r)

-- `vp` is the address of `data->vp`.
unfoldable pub tmpfs_write : Realloc → Option ℕ → ℕ → ℕ → Bytes → Vfs → Option (Ret ℕ × Vfs)
tmpfs_write realloc none off len src s = some (err eio, s)
tmpfs_write realloc (some vp) off len src s =
    s.vnodes vp >>= λ v. tmpfs_data s v.vdata >>= λ np. write_through realloc off len src s np

abbrev pub read_of : ℕ → ℕ → Option TmpfsNode → Option (Ret Bytes)
read_of off len none = some (err eio)
read_of off len (some np) = read_node off len np >>= λ bytes. some (ok bytes)

unfoldable pub tmpfs_read : Option ℕ → ℕ → ℕ → Vfs → Option (Ret Bytes)
tmpfs_read none off len s = some (err eio)
tmpfs_read (some vp) off len s =
    s.vnodes vp >>= λ v. tmpfs_data s v.vdata >>= λ np. read_of off len np

abbrev pub size_of : Option TmpfsNode → Ret ℕ
size_of none = err eio
size_of (some np) = ok np.real_len

-- The size that is written to `res`.
unfoldable pub tmpfs_getattr : Option ℕ → Vfs → Option (Ret ℕ)
tmpfs_getattr none s = some (err einval)
tmpfs_getattr (some vp) s = s.vnodes vp >>= λ v. tmpfs_data s v.vdata >>= λ np. some (size_of np)
