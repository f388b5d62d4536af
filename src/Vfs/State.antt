-- ===== src/Vfs/State.antt =====
-- The state of the virtual file system: `struct vnode` of src/sys/include/os/vnode.h, `struct mount`
-- of src/sys/include/sys/mount.h, and the nodes of the file systems. Names are the bytes before the
-- NUL.
use l5lunos.Prelude.{ℕ, Bool, Option, List, ◌==◌, if◌then◌else◌, Bytes}
use l5lunos.Mem.Kalloc.{Heap}
use l5lunos.Omar.Initrd.{InitrdNode}

-- `vtype_t`
pub data VType : Type 0 where
  no_type file dir sock cdev : VType

-- An entry of the file system table, whose vectors are g_omar_vfsops and omar_vops, g_devfs_vfsops
-- and devfs_vops, g_tmpfs_vfsops and tmpfs_vops.
pub data FsKind : Type 0 where
  initrd devfs tmpfs : FsKind

-- What `vp->data` points to: nothing, a node of tmpfs or devfs by its address, or the ramdisk's copy.
pub data VData : Type 0 where
  no_data : VData
  tmp_node : ℕ → VData
  dev_node : ℕ → VData
  image_node : InitrdNode → VData

-- `struct vnode`
pub record Vnode : Type 0 where
  pub refcount : ℕ
  pub type : VType
  pub vops : Option FsKind
  pub vdata : VData

-- `struct tmpfs_node` with its address; `data` points to `block`, and `buf` is what the block
-- holds.
pub record TmpfsNode : Type 0 where
  pub self : ℕ
  pub name : Bytes
  pub block : ℕ
  pub buf : Bytes
  pub len : ℕ
  pub real_len : ℕ
  pub ref : ℕ
  pub vtype : VType

-- `struct devfs_node` with its address; `dev` is the address of the device's
-- vector, or `none` for NULL.
pub record DevfsNode : Type 0 where
  pub self : ℕ
  pub name : Bytes
  pub type : ℕ
  pub dev : Option ℕ

-- `struct mount`
pub record Mount : Type 0 where
  pub name : Bytes
  pub vp : ℕ
  pub fs : FsKind

-- The heap, the vnodes by their address, the lists of the file systems, `root` of vfs_mount.c with
-- its bit `i`, and the ramdisk's image.
pub record Vfs : Type 0 where
  pub heap : Heap
  pub vnodes : ℕ → Option Vnode
  pub nodes : List TmpfsNode
  pub devices : List DevfsNode
  pub mounts : List Mount
  pub is_init : Bool
  pub image : Bytes

abbrev pub update : ℕ → Option Vnode → (ℕ → Option Vnode) → (ℕ → Option Vnode)
update p v f = λ q. if q == p then v else f q
