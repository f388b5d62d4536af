-- ===== src/Vfs.antt =====
-- The virtual file system: src/sys/os/vfs_subr.c, vfs_mount.c, vfs_namei.c and vfs_init.c, and the file
-- systems src/sys/fs/tmpfs.c, src/sys/fs/devfs.c and the ramdisk's part of src/sys/os/os_omar.c.
pub mod State
pub mod Buffer
pub mod Vnode
pub mod Tmpfs
pub mod Path
pub mod Devfs
pub mod Ramdisk
pub mod Ops
pub mod Mount
pub mod Namei
