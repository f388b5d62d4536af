-- ===== src/Vfs/Namei/Kmount.antt =====
-- Proofs on `kmount` of src/sys/os/vfs_mount.c, and on `namei` of src/sys/os/vfs_namei.c behind it.
use l5lunos.Prelude.{
  ℕ, zero, suc, ◌+◌, ◌-◌, ◌≤◌, ◌<◌, ◌≡◌, refl, sym, ap, ◌∙◌, inl, inr, Bool-cases, Bool, true,
  false, ◌&&◌, Option, none, some, List, [], ◌∷◌, ◌++◌, ltb, leb, ◌==◌, if◌then◌else◌, arith, Bytes,
  length, take, append-nil, same_text, same_text_iff,
}
use l5lunos.Prelude.Errno.{Ret, ok, err, einval, enomem, enoent}
use l5lunos.Mem.Kalloc.{Heap, kalloc}
use l5lunos.Vfs.State.{dir, FsKind, initrd, devfs, tmpfs, no_data, Vnode, Mount, Vfs}
use l5lunos.Vfs.Vnode.{sizeof_vnode, valloced, vfs_valloc}
use l5lunos.Vfs.Path.Count.{IsName, path_of, is_good, all_good, vfs_cmp_cnt-path_of}
use l5lunos.Vfs.Tmpfs.{tmpfs_mounted, tmpfs_mount}
use l5lunos.Vfs.Devfs.{devfs_mounted, devfs_mount}
use l5lunos.Vfs.Ramdisk.{initrd_mounted, initrd_mount}
use l5lunos.Vfs.Mount.{
  fsname_max, sizeof_mount, fstab, find_fs, find_mount, named_mount, mount_alloc, mount_to,
  mount_fs, inserted, fs_mounted, kmount,
}
use l5lunos.Vfs.Namei.{namei}
use l5lunos.Vfs.Namei.Tmp.{root_part-path_of, open_file, namei-open_file}

-- The vnode that a file system gives for its mountpoint.
abbrev pub root_vnode : FsKind → Vnode
root_vnode k = record { refcount = 1; type = dir; vops = some k; vdata = no_data }

-- The two ends of the file systems' `mount`.
data Roots (k : FsKind) (s : Vfs) : Ret ℕ × Vfs → Type 0 where
  no_root : {s' : Vfs} → s'.mounts ≡ s.mounts → Roots k s (err enomem, s')
  rooted :
      (p : ℕ) {s' : Vfs}
      → s'.mounts ≡ s.mounts
      → s'.vnodes p ≡ some (root_vnode k)
      → Roots k s (ok p, s')

initrd_mounted-Roots :
    (s : Vfs) (o : Option ℕ × Heap) → Roots initrd s (initrd_mounted (valloced dir s o))
initrd_mounted-Roots s (none, h) = no_root refl
initrd_mounted-Roots s (some p, h) =
    let r : (p == p) ≡ true = ground arith in rooted p refl (rw r refl)

devfs_mounted-Roots :
    (s : Vfs) (o : Option ℕ × Heap) → Roots devfs s (devfs_mounted (valloced dir s o))
devfs_mounted-Roots s (none, h) = no_root refl
devfs_mounted-Roots s (some p, h) =
    let r : (p == p) ≡ true = ground arith in rooted p refl (rw r refl)

tmpfs_mounted-Roots :
    (s : Vfs) (o : Option ℕ × Heap) → Roots tmpfs s (tmpfs_mounted (valloced dir s o))
tmpfs_mounted-Roots s (none, h) = no_root refl
tmpfs_mounted-Roots s (some p, h) =
    let r : (p == p) ≡ true = ground arith in rooted p refl (rw r refl)

mount_fs-Roots : (k : FsKind) (s : Vfs) → Roots k s (mount_fs k s)
unfolding initrd_mount devfs_mount tmpfs_mount vfs_valloc
mount_fs-Roots initrd s = initrd_mounted-Roots s (kalloc sizeof_vnode s.heap)
mount_fs-Roots devfs s = devfs_mounted-Roots s (kalloc sizeof_vnode s.heap)
mount_fs-Roots tmpfs s = tmpfs_mounted-Roots s (kalloc sizeof_vnode s.heap)

-- A name that `kmount` takes: its last character is a valid one, and with the '/' before it and the NUL
-- it is shorter than the array.
abbrev pub is_mountable : Bytes → Bool
is_mountable name = is_good true name && ltb (length name + 2) fsname_max

-- What `kmount` of a known file system comes to.
pub data Mounts (k : FsKind) (root : Bytes) (s : Vfs) : Ret ℕ × Vfs → Type 0 where
  full : {s' : Vfs} → s'.mounts ≡ s.mounts → Mounts k root s (err enomem, s')
  rejected :
      {s' : Vfs}
      → is_mountable root ≡ false
      → s'.mounts ≡ s.mounts
      → Mounts k root s (err einval, s')
  mounted :
      (vp : ℕ) {s' : Vfs}
      → is_mountable root ≡ true
      → s'.mounts ≡ s.mounts ++ (record { name = b'/' ∷ root; vp = vp; fs = k }) ∷ []
      → s'.vnodes vp ≡ some (root_vnode k)
      → Mounts k root s (ok 0, s')

-- `mount_to` where the path is a name.
abbrev placed : Bytes → Vfs → Ret Bytes × Vfs
placed root s =
    if is_mountable root
    then named_mount (λ p. []) (b'/' ∷ root) s (kalloc sizeof_mount s.heap)
    else (err einval, s)

mount_to-placed :
    (bad : Bool) (root : Bytes) (s : Vfs)
    → IsName root
    → mount_to (λ p. []) bad (path_of (root ∷ [])) s ≡ placed root s
unfolding mount_to mount_alloc all_good
mount_to-placed bad root s n = elim (Bool-cases (is_good true root)) [
  | inl g ↦
      let z : (length (b'/' ∷ root) == 0) ≡ false = ground arith in
      elim (Bool-cases (ltb (length root + 2) fsname_max)) [
        | inl l ↦
            let f : leb (fsname_max - 1) (length (b'/' ∷ root)) ≡ false = ground (arith, l) in
            rw (root_part-path_of root [] n, vfs_cmp_cnt-path_of bad root [] n tt, g, l, f, z) refl
        | inr l ↦
            let f : leb (fsname_max - 1) (length (b'/' ∷ root)) ≡ true = ground (arith, l) in
            rw (root_part-path_of root [] n, vfs_cmp_cnt-path_of bad root [] n tt, g, l, f) refl
      ]
  | inr g ↦ rw (vfs_cmp_cnt-path_of bad root [] n tt, g) refl
]

take_short : (n : ℕ) (xs : Bytes) → length xs ≤ n → take n xs ≡ xs
take_short zero [] h = refl
take_short zero (x ∷ xs) h = absurd (omega (arith, h))
take_short (suc n) [] h = refl
take_short (suc n) (x ∷ xs) h = ap (λ l. x ∷ l) (take_short n xs (omega (arith, h)))

named_mount-Mounts :
    (k : FsKind) (root : Bytes) (s t : Vfs) (vp : ℕ) (o : Option ℕ × Heap)
    → is_mountable root ≡ true
    → t.mounts ≡ s.mounts
    → t.vnodes vp ≡ some (root_vnode k)
    → Mounts k root s (inserted k vp (named_mount (λ p. []) (b'/' ∷ root) t o))
named_mount-Mounts k root s t vp (none, h) g e v = full e
named_mount-Mounts k root s t vp (some p, h) g e v =
    let l : length (b'/' ∷ root) ≤ fsname_max = ground (arith, g) in
    let n : take fsname_max (b'/' ∷ root) ++ [] ≡ b'/' ∷ root =
      append-nil (take fsname_max (b'/' ∷ root)) ∙ take_short fsname_max (b'/' ∷ root) l in
    mounted vp g
      (ap (λ m. m ++ (record { name = take fsname_max (b'/' ∷ root) ++ []; vp = vp; fs = k }) ∷ [])
          e
        ∙ ap (λ n. s.mounts ++ (record { name = n; vp = vp; fs = k }) ∷ []) n)
      v

fs_mounted-Mounts :
    (k : FsKind) (bad : Bool) (root : Bytes) (s : Vfs) (r : Ret ℕ × Vfs)
    → IsName root
    → Roots k s r
    → Mounts k root s (fs_mounted (λ p. []) bad (path_of (root ∷ [])) k r)
fs_mounted-Mounts k bad root s _ n (no_root e) = full e
fs_mounted-Mounts k bad root s _ n (rooted p {s'} e v) = elim (Bool-cases (is_mountable root)) [
  | inl g ↦
      rw (mount_to-placed bad root s' n, g)
        (named_mount-Mounts k root s s' p (kalloc sizeof_mount s'.heap) g e v)
  | inr g ↦ rw (mount_to-placed bad root s' n, g) (rejected g e)
]

-- `kmount` of a known file system on a name, where the heap gives blocks of zeroes, fails with ENOMEM,
-- or with EINVAL where the name is too long or ends in a character that is not valid, and leaves the
-- mountpoints as they were; otherwise it adds the mountpoint of that name behind the others, with a
-- vnode of a directory of that file system.
pub kmount-Mounts :
    (k : FsKind) (bad : Bool) (fstype root : Bytes) (s : Vfs)
    → find_fs fstype fstab ≡ ok k
    → IsName root
    → Mounts k root s (kmount (λ p. []) bad (some fstype) (some (path_of (root ∷ []))) s)
unfolding kmount
kmount-Mounts k bad fstype root s e n =
    rw e (fs_mounted-Mounts k bad root s (mount_fs k s) n (mount_fs-Roots k s))

find_mount-append :
    (m : Mount) (ms : List Mount)
    → find_mount m.name ms ≡ err enoent
    → find_mount m.name (ms ++ m ∷ []) ≡ ok m
unfolding find_mount
find_mount-append m [] h = rw ((same_text_iff m.name m.name).1 refl) refl
find_mount-append m (x ∷ ms) h = elim (Bool-cases (same_text x.name m.name)) [
  | inl t ↦ cc (simp t at h)
  | inr t ↦ rw t (find_mount-append m ms (simp t at h))
]

open_file-Mounts :
    (create : Bool) (root name : Bytes) (s s' : Vfs) (r : Ret ℕ × Vfs)
    → Mounts tmpfs root s r
    → r ≡ (ok 0, s')
    → IsName root
    → IsName name
    → length root < 256
    → length name < 256
    → find_mount (b'/' ∷ root) s.mounts ≡ err enoent
    → namei [] create (some (path_of (root ∷ name ∷ []))) s' ≡ some (open_file create name s')
open_file-Mounts create root name s t _ (full e) q r n k l f = cc q
open_file-Mounts create root name s t _ (rejected g e) q r n k l f = cc q
open_file-Mounts create root name s t _ (mounted vp {s'} g e v) q r n k l f =
    let i : s' ≡ t = cc q in
    rw (sym i) (
      namei-open_file create root name (record { name = b'/' ∷ root; vp = vp; fs = tmpfs })
        (root_vnode tmpfs) s' r n k l
        (ap (find_mount (b'/' ∷ root)) e
          ∙ find_mount-append (record { name = b'/' ∷ root; vp = vp; fs = tmpfs }) s.mounts f)
        refl v refl)

-- Behind a kmount of a tmpfs that succeeds, on a name that no mountpoint had, where the heap and the
-- stack hold zeroes, namei of a name under it gives what tmpfs_lookup gives, with ENOENT for its errors;
-- where it is asked to create the name, it runs tmpfs_create first, and gives the error of that where it
-- fails.
pub namei-kmount :
    (create bad : Bool) (fstype root name : Bytes) (s s' : Vfs)
    → kmount (λ p. []) bad (some fstype) (some (path_of (root ∷ []))) s ≡ (ok 0, s')
    → find_fs fstype fstab ≡ ok tmpfs
    → find_mount (b'/' ∷ root) s.mounts ≡ err enoent
    → IsName root
    → IsName name
    → length root < 256
    → length name < 256
    → namei [] create (some (path_of (root ∷ name ∷ []))) s' ≡ some (open_file create name s')
namei-kmount create bad fstype root name s s' q e f r n k l =
    open_file-Mounts create root name s s'
      (kmount (λ p. []) bad (some fstype) (some (path_of (root ∷ []))) s)
      (kmount-Mounts tmpfs bad fstype root s e r) q r n k l f
