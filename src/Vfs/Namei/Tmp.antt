-- ===== src/Vfs/Namei/Tmp.antt =====
-- Proofs on `namei` of src/sys/os/vfs_namei.c and `kmount` of src/sys/os/vfs_mount.c.
use l5lunos.Prelude.{
  ℕ, suc, ◌+◌, ◌-◌, ◌<◌, ◌≡◌, refl, ap, ◌∙◌, Bool, true, false, some, List, [], ◌∷◌, ◌++◌, ltb,
  arith, Bytes, length, length-append, take, take-length-append, append-nil,
}
use l5lunos.Prelude.Errno.{Ret, ok, err}
use l5lunos.Vfs.State.{file, tmpfs, Vnode, Mount, Vfs}
use l5lunos.Vfs.Path.{skip_slashes}
use l5lunos.Vfs.Path.Count.{NoSlash, IsName, path_of, length-path_of, skip_slashes-name}
use l5lunos.Vfs.Tmpfs.{tmpfs_lookup, tmpfs_create}
use l5lunos.Vfs.Devfs.{name_max}
use l5lunos.Vfs.Mount.{skip_name, after_root, root_part, find_mount, mount_lookup}
use l5lunos.Vfs.Namei.{
  name_part, as_missing, continued, behind_create, create_first, walk_names, namei,
}

skip_name-name :
    (s : Bytes) (cs : List Bytes) → NoSlash s → skip_name (s ++ path_of cs) ≡ path_of cs
unfolding skip_name path_of
skip_name-name [] [] n = refl
skip_name-name [] (c ∷ cs) n = refl
skip_name-name (x ∷ s) cs n = rw (n.0) (skip_name-name s cs n.1)

name_part-name : (s : Bytes) (cs : List Bytes) → NoSlash s → name_part (s ++ path_of cs) ≡ s
unfolding name_part path_of
name_part-name [] [] n = refl
name_part-name [] (c ∷ cs) n = refl
name_part-name (x ∷ s) cs n = rw (n.0) (ap (λ l. x ∷ l) (name_part-name s cs n.1))

skip_slashes-path_of :
    (c : Bytes) (cs : List Bytes) → IsName c → skip_slashes (path_of (c ∷ cs)) ≡ c ++ path_of cs
unfolding skip_slashes path_of
skip_slashes-path_of c cs n = skip_slashes-name c (path_of cs) n

after_root-path_of :
    (c : Bytes) (cs : List Bytes) → IsName c → after_root (path_of (c ∷ cs)) ≡ path_of cs
after_root-path_of c cs n = ap skip_name (skip_slashes-path_of c cs n) ∙ skip_name-name c cs n.whole

take_prefix : (xs ys : Bytes) → take (length (xs ++ ys) - length ys) (xs ++ ys) ≡ xs
take_prefix xs ys =
    let e : length (xs ++ ys) - length ys ≡ length xs = omega (arith, length-append xs ys) in
    ap (λ n. take n (xs ++ ys)) e ∙ take-length-append xs ys

pub root_part-path_of :
    (c : Bytes) (cs : List Bytes) → IsName c → root_part (path_of (c ∷ cs)) ≡ b'/' ∷ c
unfolding path_of
root_part-path_of c cs n =
    ap (λ l. take (length (path_of (c ∷ cs)) - length l) (path_of (c ∷ cs)))
      (after_root-path_of c cs n)
    ∙ take_prefix (b'/' ∷ c) (path_of cs)

-- The last round of the walk, behind the lookup.
done :
    (fuel : ℕ) (create : Bool) (mvp : ℕ) (r : Ret ℕ × Vfs)
    → continued (λ p t. walk_names (suc fuel) create mvp [] p t) r ≡ some (as_missing r)
unfolding walk_names
done fuel create mvp (err e, s) = refl
done fuel create mvp (ok p, s) = refl

-- What `namei` is to do with a name in a temporary file system: create it first, if that is asked for,
-- and give a vnode of it.
abbrev pub found_after : Bytes → Ret ℕ × Vfs → Ret ℕ × Vfs
found_after name (err e, s) = (err e, s)
found_after name (ok z, s) = as_missing (tmpfs_lookup (some name) s)

abbrev pub open_file : Bool → Bytes → Vfs → Ret ℕ × Vfs
open_file false name s = as_missing (tmpfs_lookup (some name) s)
open_file true name s = found_after name (tmpfs_create (some name) file s)

behind_create-found_after :
    (fuel mvp : ℕ) (name : Bytes) (r : Ret ℕ × Vfs)
    → behind_create (λ p t. walk_names (suc fuel) true mvp [] p t) tmpfs name r
      ≡ some (found_after name r)
behind_create-found_after fuel mvp name (err e, s) = refl
behind_create-found_after fuel mvp name (ok z, s) = done fuel true mvp (tmpfs_lookup (some name) s)

create_first-open_file :
    (fuel : ℕ) (create : Bool) (mvp : ℕ) (name : Bytes) (s : Vfs)
    → create_first (λ p t. walk_names (suc fuel) create mvp [] p t) create tmpfs name s
      ≡ some (open_file create name s)
create_first-open_file fuel false mvp name s = done fuel false mvp (tmpfs_lookup (some name) s)
create_first-open_file fuel true mvp name s =
    behind_create-found_after fuel mvp name (tmpfs_create (some name) file s)

walk_names-open_file :
    (fuel : ℕ) (create : Bool) (mvp vp : ℕ) (name : Bytes) (s : Vfs) (v : Vnode)
    → IsName name
    → length name < name_max
    → s.vnodes mvp ≡ some v
    → v.vops ≡ some tmpfs
    → walk_names (suc (suc fuel)) create mvp (path_of (name ∷ [])) vp s
      ≡ some (open_file create name s)
unfolding walk_names path_of
walk_names-open_file fuel create mvp vp name s v n l e k =
    let fits : ltb (name_max - 1) (length name) ≡ false = ground (arith, l) in
    rw
      (
        skip_slashes-path_of name [] n,
        name_part-name name [] n.whole,
        skip_name-name name [] n.whole,
        fits,
        e,
        k,
      )
      (create_first-open_file fuel create mvp name s)

-- Where the mount `m` of a root is a temporary file system, and on a stack that holds zeroes, `namei` of a
-- name under it gives what `tmpfs_lookup` gives, with ENOENT for its errors; where it is asked to create
-- the name, it runs `tmpfs_create` first, and gives the error of that where it fails.
pub namei-open_file :
    (create : Bool) (root name : Bytes) (m : Mount) (v : Vnode) (s : Vfs)
    → IsName root
    → IsName name
    → length root < name_max
    → length name < name_max
    → find_mount (b'/' ∷ root) s.mounts ≡ ok m
    → m.fs ≡ tmpfs
    → s.vnodes m.vp ≡ some v
    → v.vops ≡ some tmpfs
    → namei [] create (some (path_of (root ∷ name ∷ []))) s ≡ some (open_file create name s)
unfolding namei mount_lookup
namei-open_file create root name m v s r n k l e f g h =
    let path = path_of (root ∷ name ∷ []) in
    let fits : ltb name_max (length (b'/' ∷ root)) ≡ false = ground (arith, k) in
    let fuel : length path + 1 ≡ suc (suc (length path - 1)) =
      omega (arith, length-path_of (root ∷ name ∷ [])) in
    rw
      (
        root_part-path_of root (name ∷ []) r,
        fits,
        append-nil (b'/' ∷ root),
        e,
        g,
        h,
        f,
        after_root-path_of root (name ∷ []) r,
        fuel,
      )
      (walk_names-open_file (length path - 1) create m.vp m.vp name s v n l g h)
