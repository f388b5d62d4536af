-- ===== src/Vfs/Tmpfs/Names.antt =====
-- Proofs on `tmpfs_create` and `tmpfs_lookup` of src/sys/fs/tmpfs.c.
use l5lunos.Prelude.{
  ℕ, ◌-◌, ◌≤◌, ◌<◌, ◌≡◌, refl, sym, ap, ◌∙◌, inl, inr, Bool-cases, true, false, Option, none, some,
  List, [], ◌∷◌, ◌++◌, ltb, ◌==◌, if◌then◌else◌, arith, Bytes, length, same_text, same_text_iff,
}
use l5lunos.Prelude.Errno.{Errno, Ret, ok, err, enomem, enoent, enotsup, enametoolong, eexist}
use l5lunos.Mem.Kalloc.{
  Heap, kalloc, kfree, count, Kalloced, refused, given, kalloc-Kalloced, release,
}
use l5lunos.Vfs.State.{VType, TmpfsNode, Vfs}
use l5lunos.Vfs.Tmpfs.{
  tmpfs_namemax, tmpfs_init_size, sizeof_tmpfs_node, fresh_node, with_buffer, with_node, tmpfs_new,
  find_node, tmpfs_byname, node_at, is_supported, status, create_missing, tmpfs_create,
}
use l5lunos.Vfs.Tmpfs.Readback.{IsValid}

same_text_refl : (s : Bytes) → same_text s s ≡ true
same_text_refl s = (same_text_iff s s).1 refl

pub same_text_sym : (s t : Bytes) → same_text s t ≡ false → same_text t s ≡ false
same_text_sym s t h = elim (Bool-cases (same_text t s)) [
  | inl e ↦ absurd (ground (arith, h, (same_text_iff s t).1 (sym ((same_text_iff t s).0 e))))
  | inr e ↦ e
]

-- The names of the nodes fit, with their NUL, and differ, as do the addresses; every node is valid.
abbrev pub IsTable : List TmpfsNode → Type 0
IsTable [] = Unit
IsTable (np ∷ nps) =
    (length np.name < tmpfs_namemax)
    × IsValid np
    × (find_node np.name nps ≡ err enoent)
    × (node_at np.self nps ≡ none)
    × IsTable nps

-- What `tmpfs_create` comes to.
pub data Creates (name : Bytes) (type : VType) (s : Vfs) : Ret ℕ × Vfs → Type 0 where
  exists : (np : TmpfsNode) → find_node name s.nodes ≡ ok np → Creates name type s (err eexist, s)
  unsupported :
      find_node name s.nodes ≡ err enoent
      → is_supported type ≡ false
      → Creates name type s (err enotsup, s)
  too_long :
      find_node name s.nodes ≡ err enoent
      → tmpfs_namemax ≤ length name
      → Creates name type s (err enametoolong, s)
  no_memory :
      {s' : Vfs}
      → s'.nodes ≡ s.nodes
      → ((p : ℕ) → count p s'.heap.live ≡ count p s.heap.live)
      → Creates name type s (err enomem, s')
  created :
      (p b : ℕ) {s' : Vfs}
      → find_node name s.nodes ≡ err enoent
      → length name < tmpfs_namemax
      → s'.nodes ≡ s.nodes ++ fresh_node p b name type ∷ []
      → find_node name s'.nodes ≡ ok (fresh_node p b name type)
      → s'.heap.live ≡ b ∷ p ∷ s.heap.live
      → Creates name type s (ok 0, s')

pub find_node-err :
    (name : Bytes) (nodes : List TmpfsNode) (e : Errno) → find_node name nodes ≡ err e → e ≡ enoent
unfolding find_node
find_node-err name [] e h = cc h
find_node-err name (np ∷ nps) e h = elim (Bool-cases (same_text np.name name)) [
  | inl t ↦ cc (simp t at h)
  | inr t ↦ find_node-err name nps e (simp t at h)
]

pub find_node-append :
    (name : Bytes) (n : TmpfsNode) (nodes : List TmpfsNode)
    → find_node name nodes ≡ err enoent
    → find_node name (nodes ++ n ∷ []) ≡ (if same_text n.name name then ok n else err enoent)
unfolding find_node
find_node-append name n [] h = refl
find_node-append name n (np ∷ nps) h = elim (Bool-cases (same_text np.name name)) [
  | inl t ↦ cc (simp t at h)
  | inr t ↦ rw t (find_node-append name n nps (simp t at h))
]

pub node_at-append :
    (p : ℕ) (n : TmpfsNode) (nodes : List TmpfsNode)
    → node_at p nodes ≡ none
    → node_at p (nodes ++ n ∷ []) ≡ (if n.self == p then some n else none)
unfolding node_at
node_at-append p n [] h = refl
node_at-append p n (np ∷ nps) h = elim (Bool-cases (np.self == p)) [
  | inl t ↦ cc (simp t at h)
  | inr t ↦ rw t (node_at-append p n nps (simp t at h))
]

count-release_head : (q p : ℕ) (l : List ℕ) → count q (release p (p ∷ l)) ≡ count q l
unfolding release
count-release_head q p l = let r : (p == p) ≡ true = ground arith in rw r refl

-- Behind the second allocation: what it took, and what the first had taken.
status-with_buffer :
    (name : Bytes) (type : VType) (s : Vfs) (p : ℕ) (h : Heap) (o : Option ℕ × Heap)
    → find_node name s.nodes ≡ err enoent
    → length name < tmpfs_namemax
    → h.live ≡ p ∷ s.heap.live
    → Kalloced h o
    → Creates name type s (status (with_buffer name type s p o))
unfolding kfree
status-with_buffer name type s p h _ n l e (refused {h'} k) =
    no_memory refl
      (λ q. ap (λ l. count q (release p l)) (k ∙ e) ∙ count-release_head q p s.heap.live)
status-with_buffer name type s p h _ n l e (given b {h'} k) =
    created p b n l refl
      (rw (find_node-append name (fresh_node p b name type) s.nodes n, same_text_refl name) refl)
      (k ∙ ap (λ l. b ∷ l) e)

status-with_node :
    (name : Bytes) (type : VType) (s : Vfs) (o : Option ℕ × Heap)
    → find_node name s.nodes ≡ err enoent
    → length name < tmpfs_namemax
    → Kalloced s.heap o
    → Creates name type s (status (with_node name type s o))
status-with_node name type s _ n l (refused k) = no_memory refl (λ q. ap (count q) k)
status-with_node name type s _ n l (given p {h'} k) =
    status-with_buffer name type s p h' (kalloc tmpfs_init_size h') n l k
      (kalloc-Kalloced tmpfs_init_size h')

create_missing-Creates :
    (name : Bytes) (type : VType) (s : Vfs) (r : Ret TmpfsNode)
    → find_node name s.nodes ≡ r
    → Creates name type s (create_missing (some name) type s r)
unfolding tmpfs_new
create_missing-Creates name type s (ok np) e = exists np e
create_missing-Creates name type s (err k) e =
    let n : find_node name s.nodes ≡ err enoent = e ∙ ap err (find_node-err name s.nodes k e) in
    elim (Bool-cases (is_supported type)) [
      | inl t ↦ elim (Bool-cases (ltb (tmpfs_namemax - 1) (length name))) [
        | inl l ↦ rw (t, l) (too_long n (ground (arith, l)))
        | inr l ↦
            rw (t, l)
              (status-with_node name type s (kalloc sizeof_tmpfs_node s.heap) n (ground (arith, l))
                (kalloc-Kalloced sizeof_tmpfs_node s.heap))
      ]
      | inr t ↦ rw t (unsupported n t)
    ]

pub tmpfs_create-Creates :
    (name : Bytes) (type : VType) (s : Vfs) → Creates name type s (tmpfs_create (some name) type s)
unfolding tmpfs_create tmpfs_byname
tmpfs_create-Creates name type s = create_missing-Creates name type s (find_node name s.nodes) refl
