-- ===== src/Tests/Storage.antt =====
-- The virtual file system on small states.
use l5lunos.Prelude.{
  ℕ, ◌+◌, ◌≤◌, ◌≡◌, refl, sym, ap, ◌∙◌, zero, suc, true, false, some, none, [], ◌∷◌, arith, Bytes,
  codes, length, take, drop, same_text, leb, ◌==◌, if◌then◌else◌,
}
use l5lunos.Prelude.Errno.{Ret, ok, err, einval}
use l5lunos.Mem.Kalloc.{kalloc, count}
use l5lunos.Vfs.State.{file, tmpfs, tmp_node, Vnode, TmpfsNode, Vfs}
use l5lunos.Vfs.Path.{vfs_cmp_cnt, vfs_pathc_valid, skip_slashes, scan_name, count_names}
use l5lunos.Vfs.Path.Count.{IsName, path_of, all_good, vfs_cmp_cnt-path_of}
use l5lunos.Vfs.Tmpfs.{tmpfs_create, tmpfs_new, tmpfs_byname, find_node, node_at, tmpfs_mount}
use l5lunos.Vfs.Tmpfs.Data.{Realloc, read_node, tmpfs_write}
use l5lunos.Vfs.Tmpfs.Readback.{IsValid, IsRealloc, read_node_lem}
use l5lunos.Vfs.Tmpfs.Rewrite.{IsOpen, Rewrites, tmpfs_write-Rewrites}
use l5lunos.Vfs.Tmpfs.Names.{IsTable}
use l5lunos.Vfs.Tmpfs.Table.{IsSound, IsDisjoint, tmpfs_create-IsSound}
use l5lunos.Vfs.Mount.{mount_lookup, kmount, find_fs, find_mount, mount_to, mount_alloc, skip_name}
use l5lunos.Vfs.Namei.{namei}
use l5lunos.Vfs.Namei.Tmp.{open_file}
use l5lunos.Vfs.Namei.Returns.{IsTmp, namei-returns}
use l5lunos.Vfs.Namei.Kmount.{root_vnode, namei-kmount}
use l5lunos.Vfs.Vnode.{vfs_valloc}
use l5lunos.Tests.Data.{heap}

-- A file "log" that holds "abc", and a vnode of it.
abbrev log : TmpfsNode
log = record {
  self = 64;
  name = codes "log";
  block = 128;
  buf = 97 ∷ 98 ∷ 99 ∷ 0 ∷ 0 ∷ 0 ∷ 0 ∷ 0 ∷ [];
  len = 8;
  real_len = 3;
  ref = 1;
  vtype = file;
}

abbrev log_vnode : Vnode
log_vnode = record { refcount = 1; type = file; vops = some tmpfs; vdata = tmp_node 64 }

abbrev one_file : Vfs
one_file = record {
  heap = record heap { live = 64 ∷ 128 ∷ 256 ∷ [] };
  vnodes = λ p. if p == 256 then some log_vnode else none;
  nodes = log ∷ [];
  devices = [];
  mounts = [];
  is_init = true;
  image = [];
}

log-IsValid : IsValid log
log-IsValid = record { sized = refl; roomy = omega arith }

one_file-IsTable : IsTable one_file.nodes
unfolding find_node node_at
one_file-IsTable = (omega arith, log-IsValid, refl, refl, tt)

log-IsOpen : IsOpen 256 log one_file
unfolding node_at
log-IsOpen = record { v = log_vnode; there = refl; bound = refl; node = refl }

-- A `realloc` that clears what it adds.
unfoldable padded : ℕ → Bytes → Bytes
padded zero b = []
padded (suc n) [] = 0 ∷ padded n []
padded (suc n) (x ∷ b) = x ∷ padded n b

abbrev grow : Realloc
grow b buf n = some (b + 4096, padded n buf)

length-padded : (n : ℕ) (b : Bytes) → length (padded n b) ≡ n
unfolding padded
length-padded zero b = refl
length-padded (suc n) [] = omega (arith, length-padded n [])
length-padded (suc n) (x ∷ b) = omega (arith, length-padded n b)

take-padded : (n : ℕ) (b : Bytes) → length b ≤ n → take (length b) (padded n b) ≡ b
unfolding padded
take-padded n [] h = refl
take-padded zero (x ∷ b) h = absurd (omega (arith, h))
take-padded (suc n) (x ∷ b) h = ap (λ l. x ∷ l) (take-padded n b (omega (arith, h)))

grow-IsRealloc : IsRealloc grow
grow-IsRealloc = record {
  sized = λ b buf n b' buf' h e.
      let i : padded n buf ≡ buf' = cc e in ap length (sym i) ∙ length-padded n buf;
  keeps = λ b buf n b' buf' h e.
      let i : padded n buf ≡ buf' = cc e in ap (take (length buf)) (sym i) ∙ take-padded n buf h;
}

tmpfs_write-Rewrites_example :
    Rewrites 256 2
      (codes "more text")
      log
      (tmpfs_write grow (some 256) 2 9 (codes "more text") one_file)
tmpfs_write-Rewrites_example =
    tmpfs_write-Rewrites grow 256 2 (codes "more text") log one_file grow-IsRealloc log-IsOpen
      log-IsValid (omega arith) (omega arith)

read_node_lem_example : read_node 1 20 log ≡ (
    if leb 3 1
    then some []
    else if leb 21 8
    then some (take 20 (drop 1 log.buf))
    else if 1 == 0
    then some log.buf
    else none)
read_node_lem_example = read_node_lem 1 20 log log-IsValid (omega arith)

one_file-IsSound : IsSound one_file
unfolding node_at count
one_file-IsSound = record { table = one_file-IsTable; owned = λ p np h. ground (arith, h) }

new-IsDisjoint : IsDisjoint (tmpfs_create (some (codes "new")) file one_file).1
unfolding tmpfs_create tmpfs_byname find_node same_text tmpfs_new kalloc count
new-IsDisjoint p = ground arith

tmpfs_create-IsSound_example : IsSound (tmpfs_create (some (codes "new")) file one_file).1
tmpfs_create-IsSound_example =
    tmpfs_create-IsSound (codes "new") file one_file one_file-IsSound new-IsDisjoint

tmp-IsName : IsName (codes "tmp")
tmp-IsName = record { whole = (refl, (refl, (refl, tt))); filled = omega arith }

log-IsName : IsName (codes "log")
log-IsName = record { whole = (refl, (refl, (refl, tt))); filled = omega arith }

vfs_cmp_cnt-path_of_example :
    vfs_cmp_cnt false (some (path_of (codes "tmp" ∷ codes "log" ∷ [])))
    ≡ (if all_good (codes "tmp" ∷ codes "log" ∷ []) then ok 2 else err einval)
vfs_cmp_cnt-path_of_example =
    vfs_cmp_cnt-path_of false (codes "tmp") (codes "log" ∷ []) tmp-IsName (log-IsName, tt)

-- The state behind the mount.
abbrev with_tmp : Vfs
with_tmp = (kmount (λ p. []) false (some (codes "tmpfs")) (some (codes "/tmp")) one_file).1

with_tmp_ok :
    kmount (λ p. []) false (some (codes "tmpfs")) (some (path_of (codes "tmp" ∷ []))) one_file
    ≡ (ok 0, with_tmp)
unfolding kmount find_fs same_text path_of tmpfs_mount vfs_valloc kalloc mount_to mount_alloc
    vfs_cmp_cnt count_names skip_slashes scan_name vfs_pathc_valid skip_name
with_tmp_ok = refl

namei-kmount_example :
    namei [] true (some (path_of (codes "tmp" ∷ codes "log" ∷ []))) with_tmp
    ≡ some (open_file true (codes "log") with_tmp)
unfolding find_fs same_text find_mount
namei-kmount_example =
    namei-kmount true false (codes "tmpfs") (codes "tmp") (codes "log") one_file with_tmp
      with_tmp_ok refl refl tmp-IsName log-IsName (omega arith) (omega arith)

-- A path of three components under the mountpoint.
with_tmp-IsTmp : IsTmp 4096 with_tmp
unfolding kmount find_fs same_text path_of tmpfs_mount vfs_valloc kalloc mount_to mount_alloc
    vfs_cmp_cnt count_names skip_slashes scan_name vfs_pathc_valid skip_name
with_tmp-IsTmp = record { v = root_vnode tmpfs; there = refl; kind = refl }

namei-returns_example :
    (r : Ret ℕ × Vfs) × (namei [] true (some (codes "/tmp/log//b/")) with_tmp ≡ some r)
unfolding kmount find_fs same_text path_of tmpfs_mount vfs_valloc kalloc mount_to mount_alloc
    vfs_cmp_cnt count_names skip_slashes scan_name vfs_pathc_valid skip_name find_mount mount_lookup
namei-returns_example =
    namei-returns [] true (codes "/tmp/log//b/")
      (record { name = codes "/tmp"; vp = 4096; fs = tmpfs }) with_tmp (omega arith) refl refl
      with_tmp-IsTmp
