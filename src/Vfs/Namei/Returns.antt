-- ===== src/Vfs/Namei/Returns.antt =====
-- Proofs on the loop of `namei` of src/sys/os/vfs_namei.c.
use l5lunos.Prelude.{
  ℕ, zero, suc, ◌+◌, ◌-◌, ◌≤◌, ◌<◌, ◌≡◌, refl, ap, ◌∙◌, inl, inr, Bool-cases, Bool, true, false,
  Option, none, some, [], ◌∷◌, ◌++◌, ltb, ◌==◌, arith, Bytes, length,
}
use l5lunos.Prelude.Errno.{Ret, ok, err, enoent, enametoolong}
use l5lunos.Mem.Kalloc.{Heap, kalloc}
use l5lunos.Vfs.State.{VType, file, tmpfs, tmp_node, Vnode, TmpfsNode, Mount, Vfs}
use l5lunos.Vfs.Vnode.{sizeof_vnode, valloced, vfs_valloc}
use l5lunos.Vfs.Path.{skip_slashes}
use l5lunos.Vfs.Tmpfs.{
  tmpfs_init_size, sizeof_tmpfs_node, tmpfs_namemax, with_buffer, with_node, tmpfs_new,
  tmpfs_byname, given_vnode, found_node, tmpfs_lookup, status, create_missing, tmpfs_create,
}
use l5lunos.Vfs.Devfs.{name_max}
use l5lunos.Vfs.Mount.{skip_name, after_root, root_part, mount_lookup}
use l5lunos.Vfs.Namei.{
  name_part, continued, behind_create, create_first, walk_names, or_root, namei,
}

-- The vnode at `mvp` is one of a temporary file system.
pub record IsTmp (mvp : ℕ) (s : Vfs) : Type 0 where
  pub v : Vnode
  pub there : s.vnodes mvp ≡ some v
  pub kind : v.vops ≡ some tmpfs

length-skip_slashes : (p : Bytes) → length (skip_slashes p) ≤ length p
unfolding skip_slashes
length-skip_slashes [] = omega arith
length-skip_slashes (c ∷ p) = ground (arith, length-skip_slashes p)

length-skip_name : (p : Bytes) → length (skip_name p) ≤ length p
unfolding skip_name
length-skip_name [] = omega arith
length-skip_name (c ∷ p) = ground (arith, length-skip_name p)

-- A round consumes a byte.
shorter : (c : ℕ) (p : Bytes) → length (skip_name (skip_slashes (c ∷ p))) < length (c ∷ p)
unfolding skip_slashes skip_name
shorter c p = elim (Bool-cases (c == b'/')) [
  | inl e ↦ rw e (omega (arith, length-skip_name (skip_slashes p), length-skip_slashes p))
  | inr e ↦ rw (e, e) (omega (arith, length-skip_name p))
]

IsTmp-given_vnode :
    (mvp : ℕ) (np : TmpfsNode) (s : Vfs) (o : Option ℕ × Heap)
    → IsTmp mvp s
    → IsTmp mvp (given_vnode np (valloced np.vtype s o)).1
IsTmp-given_vnode mvp np s (none, h) t = record { v = t.v; there = t.there; kind = t.kind }
IsTmp-given_vnode mvp np s (some p, h) t = elim (Bool-cases (mvp == p)) [
  | inl e ↦
      let r : (p == p) ≡ true = ground arith in
      record {
        v = record { refcount = 1; type = np.vtype; vops = some tmpfs; vdata = tmp_node np.self };
        there = rw (e, r) refl;
        kind = refl;
      }
  | inr e ↦ record { v = t.v; there = rw e (t.there); kind = t.kind }
]

IsTmp-tmpfs_lookup :
    (mvp : ℕ) (name : Bytes) (s : Vfs) → IsTmp mvp s → IsTmp mvp (tmpfs_lookup (some name) s).1
unfolding tmpfs_lookup vfs_valloc
IsTmp-tmpfs_lookup mvp name s t = found (tmpfs_byname (some name) s.nodes)
  where
    found : (r : Ret TmpfsNode) → IsTmp mvp (found_node s r).1
    found (err e) = t
    found (ok np) = IsTmp-given_vnode mvp np s (kalloc sizeof_vnode s.heap) t

with_buffer-vnodes :
    (name : Bytes) (type : VType) (s : Vfs) (p : ℕ) (o : Option ℕ × Heap)
    → (status (with_buffer name type s p o)).1.vnodes ≡ s.vnodes
with_buffer-vnodes name type s p (none, h) = refl
with_buffer-vnodes name type s p (some b, h) = refl

with_node-vnodes :
    (name : Bytes) (type : VType) (s : Vfs) (o : Option ℕ × Heap)
    → (status (with_node name type s o)).1.vnodes ≡ s.vnodes
with_node-vnodes name type s (none, h) = refl
with_node-vnodes name type s (some p, h) =
    with_buffer-vnodes name type s p (kalloc tmpfs_init_size h)

tmpfs_create-vnodes :
    (name : Bytes) (s : Vfs) → (tmpfs_create (some name) file s).1.vnodes ≡ s.vnodes
unfolding tmpfs_create tmpfs_new
tmpfs_create-vnodes name s = missing (tmpfs_byname (some name) s.nodes)
  where
    missing : (r : Ret TmpfsNode) → (create_missing (some name) file s r).1.vnodes ≡ s.vnodes
    missing (ok np) = refl
    missing (err e) = elim (Bool-cases (ltb (tmpfs_namemax - 1) (length name))) [
      | inl l ↦ rw l refl
      | inr l ↦ rw l (with_node-vnodes name file s (kalloc sizeof_tmpfs_node s.heap))
    ]

-- The next round gives a result on every state with the mountpoint.
abbrev Returns : ℕ → (ℕ → Vfs → Option (Ret ℕ × Vfs)) → Type 0
Returns mvp again = (vp : ℕ) (s : Vfs) → IsTmp mvp s → (r : Ret ℕ × Vfs) × (again vp s ≡ some r)

continued-Returns :
    (mvp : ℕ) (again : ℕ → Vfs → Option (Ret ℕ × Vfs)) (r : Ret ℕ × Vfs)
    → Returns mvp again
    → IsTmp mvp r.1
    → (q : Ret ℕ × Vfs) × (continued again r ≡ some q)
continued-Returns mvp again (err e, s) g t = ((err enoent, s), refl)
continued-Returns mvp again (ok p, s) g t = g p s t

behind_create-Returns :
    (mvp : ℕ) (again : ℕ → Vfs → Option (Ret ℕ × Vfs)) (name : Bytes) (r : Ret ℕ × Vfs)
    → Returns mvp again
    → IsTmp mvp r.1
    → (q : Ret ℕ × Vfs) × (behind_create again tmpfs name r ≡ some q)
behind_create-Returns mvp again name (err e, s) g t = ((err e, s), refl)
behind_create-Returns mvp again name (ok z, s) g t =
    continued-Returns mvp again (tmpfs_lookup (some name) s) g (IsTmp-tmpfs_lookup mvp name s t)

create_first-Returns :
    (mvp : ℕ) (again : ℕ → Vfs → Option (Ret ℕ × Vfs)) (create : Bool) (name : Bytes) (s : Vfs)
    → Returns mvp again
    → IsTmp mvp s
    → (q : Ret ℕ × Vfs) × (create_first again create tmpfs name s ≡ some q)
create_first-Returns mvp again false name s g t =
    continued-Returns mvp again (tmpfs_lookup (some name) s) g (IsTmp-tmpfs_lookup mvp name s t)
create_first-Returns mvp again true name s g t =
    let e = tmpfs_create-vnodes name s in
    behind_create-Returns mvp again name (tmpfs_create (some name) file s) g
      (record { v = t.v; there = ap (λ f. f mvp) e ∙ t.there; kind = t.kind })

-- In a mountpoint of a tmpfs, the walk over the components gives a result for every path, with fuel
-- above its length: it ends, and it does not fault, whether names are created or not.
pub walk_names-returns :
    (fuel : ℕ) (create : Bool) (mvp : ℕ) (pcur : Bytes) (vp : ℕ) (s : Vfs)
    → IsTmp mvp s
    → length pcur < fuel
    → (r : Ret ℕ × Vfs) × (walk_names fuel create mvp pcur vp s ≡ some r)
unfolding walk_names
walk_names-returns zero create mvp pcur vp s t h = absurd (omega (arith, h))
walk_names-returns (suc fuel) create mvp [] vp s t h = ((ok vp, s), refl)
walk_names-returns (suc fuel) create mvp (c ∷ p) vp s t h =
    let q = skip_slashes (c ∷ p) in
    let l : length (skip_name q) < fuel = omega (arith, h, shorter c p) in
    elim (Bool-cases (ltb (name_max - 1) (length (name_part q)))) [
      | inl e ↦ ((err enametoolong, s), rw e refl)
      | inr e ↦
          let (r, f) =
            create_first-Returns mvp (λ vp' u. walk_names fuel create mvp (skip_name q) vp' u)
              create (name_part q) s
              (λ vp' u w. walk_names-returns fuel create mvp (skip_name q) vp' u w l) t in
          (r, rw (e, t.there, t.kind) f)
    ]

-- Where the root of the path, or "/", is a mountpoint of a tmpfs, and the root's name fits its buffer,
-- `namei` ends with a result on every path, and does not fault, whether names are created or not.
pub namei-returns :
    (junk : Bytes) (create : Bool) (path : Bytes) (m : Mount) (s : Vfs)
    → length (root_part path) ≤ name_max
    → or_root s (mount_lookup (some (root_part path ++ junk)) s) ≡ ok m
    → m.fs ≡ tmpfs
    → IsTmp m.vp s
    → (r : Ret ℕ × Vfs) × (namei junk create (some path) s ≡ some r)
unfolding namei
namei-returns junk create path m s h e f t =
    let b : ltb name_max (length (root_part path)) ≡ false = ground (arith, h) in
    let l : length (after_root path) < length path + 1 =
      omega (arith, length-skip_name (skip_slashes path), length-skip_slashes path) in
    let (r, w) = walk_names-returns (length path + 1) create m.vp (after_root path) m.vp s t l in
    (r, rw (b, e, t.there, t.kind, f) w)
