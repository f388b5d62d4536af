-- ===== src/Vfs/Ramdisk.antt =====
-- The ramdisk as a file system: `initrd_lookup` and `initrd_mount` of src/sys/os/os_omar.c. `none` is a
-- fault.
use l5lunos.Prelude.{
  ℕ, Bool, true, false, Option, none, some, [], ◌∷◌, ◌==◌, if◌then◌else◌, ◌>>=◌, Bytes,
}
use l5lunos.Prelude.Errno.{Ret, ok, err, einval, enoent}
use l5lunos.Mem.Kalloc.{Heap, kalloc}
use l5lunos.Omar.Initrd.{InitrdNode, initrd_get_file}
use l5lunos.Vfs.State.{file, dir, initrd, VData, no_data, tmp_node, dev_node, image_node, Vfs}
use l5lunos.Vfs.Vnode.{vfs_valloc, attach}

-- sizeof(struct initrd_node) on amd64
abbrev pub sizeof_initrd_node : ℕ
sizeof_initrd_node = 32

-- Behind the allocation of the copy, whose answer is not tested.
abbrev pub copied_node : InitrdNode → ℕ → Vfs → Option ℕ × Heap → Option (Ret ℕ × Vfs)
copied_node node p s (none, h) = none
copied_node node p s (some d, h) =
    some (ok p, attach p (image_node node) initrd (record s { heap = h }))

abbrev pub given_copy : InitrdNode → Ret ℕ × Vfs → Option (Ret ℕ × Vfs)
given_copy node (err e, s) = some (err e, s)
given_copy node (ok p, s) = copied_node node p s (kalloc sizeof_initrd_node s.heap)

abbrev pub found_file : Vfs → Ret InitrdNode → Option (Ret ℕ × Vfs)
found_file s (err e) = some (err e, s)
found_file s (ok node) = given_copy node (vfs_valloc true file s)

-- The vnode that is written to `*args->vpp`.
unfoldable pub initrd_lookup : Bytes → Vfs → Option (Ret ℕ × Vfs)
initrd_lookup [] s = some (err enoent, s)
initrd_lookup (c ∷ name) s =
    if c == b'/'
    then (initrd_get_file s.image name >>= λ r. found_file s r)
    else some (err enoent, s)

abbrev pub initrd_mounted : Ret ℕ × Vfs → Ret ℕ × Vfs
initrd_mounted (err e, s) = (err e, s)
initrd_mounted (ok p, s) = (ok p, attach p no_data initrd s)

-- `margs->vp_res` is the vnode that is returned.
unfoldable pub initrd_mount : Bool → Vfs → Ret ℕ × Vfs
initrd_mount false s = (err einval, s)
initrd_mount true s = initrd_mounted (vfs_valloc true dir s)

-- `vp->data` of a vnode with the ramdisk's operations.
abbrev pub initrd_data : VData → Option (Option InitrdNode)
initrd_data no_data = some none
initrd_data (tmp_node p) = none
initrd_data (dev_node p) = none
initrd_data (image_node np) = some (some np)
