-- ===== src/Vfs/Tmpfs/Table.antt =====
-- Proofs on the list of nodes of src/sys/fs/tmpfs.c.
use l5lunos.Prelude.{
  ℕ, ◌≤◌, ◌<◌, ◌≡◌, refl, sym, ap, ◌∙◌, inl, inr, Bool-cases, Option-cases, true, false, Option,
  none, some, List, [], ◌∷◌, ◌++◌, ◌==◌, arith, Bytes, length, same_text,
}
use l5lunos.Prelude.Errno.{Ret, ok, err, enomem, enoent}
use l5lunos.Mem.Kalloc.{Heap, kalloc, Kalloced, refused, given, kalloc-Kalloced, count}
use l5lunos.Vfs.State.{VType, tmpfs, tmp_node, Vnode, TmpfsNode, Vfs}
use l5lunos.Vfs.Vnode.{vfs_valloc, valloced, sizeof_vnode}
use l5lunos.Vfs.Tmpfs.{
  tmpfs_namemax, fresh_node, find_node, tmpfs_byname, node_at, ref_node, given_vnode, found_node,
  tmpfs_lookup, tmpfs_create,
}
use l5lunos.Vfs.Tmpfs.Readback.{IsValid}
use l5lunos.Vfs.Tmpfs.Rewrite.{IsOpen, node_at-put_node}
use l5lunos.Vfs.Tmpfs.Names.{
  IsTable, find_node-append, node_at-append, find_node-err, same_text_sym, Creates, exists,
  unsupported, too_long, no_memory, created, tmpfs_create-Creates,
}

IsTable-append :
    (n : TmpfsNode) (nodes : List TmpfsNode)
    → IsTable nodes
    → length n.name < tmpfs_namemax
    → IsValid n
    → find_node n.name nodes ≡ err enoent
    → node_at n.self nodes ≡ none
    → IsTable (nodes ++ n ∷ [])
unfolding find_node node_at
IsTable-append n [] t l v f a = (l, v, refl, refl, t)
IsTable-append n (np ∷ nps) (k, w, g, b, t) l v f a = elim (Bool-cases (same_text np.name n.name)) [
  | inl c ↦ cc (simp c at f)
  | inr c ↦ elim (Bool-cases (np.self == n.self)) [
    | inl d ↦ cc (simp d at a)
    | inr d ↦
        let e : (n.self == np.self) ≡ false = ground (arith, d) in
        (
          k,
          w,
          rw (find_node-append np.name n nps g, same_text_sym np.name n.name c) refl,
          rw (node_at-append np.self n nps b, e) refl,
          IsTable-append n nps t l v (simp c at f) (simp d at a),
        )
  ]
]

node_at-find_node :
    (name : Bytes) (np : TmpfsNode) (nodes : List TmpfsNode)
    → IsTable nodes
    → find_node name nodes ≡ ok np
    → node_at np.self nodes ≡ some np
unfolding find_node node_at
node_at-find_node name np [] t h = cc h
node_at-find_node name np (x ∷ xs) (k, w, g, b, t) h = elim (Bool-cases (same_text x.name name)) [
  | inl c ↦
      let e : ok x ≡ ok np = simp c at h in
      let i : x ≡ np = cc e in let r : (np.self == np.self) ≡ true = ground arith in rw (i, r) refl
  | inr c ↦
      let f = node_at-find_node name np xs t (simp c at h) in
      elim (Bool-cases (x.self == np.self)) [
        | inl d ↦ let e : x.self ≡ np.self = ground (arith, d) in cc (b, f, e)
        | inr d ↦ rw d f
      ]
]

-- The list is in order, and the heap has handed out every node.
pub record IsSound (s : Vfs) : Type 0 where
  pub table : IsTable s.nodes
  pub owned : (p : ℕ) (np : TmpfsNode) → node_at p s.nodes ≡ some np → 1 ≤ count p s.heap.live

-- The heap hands a block out once.
abbrev pub IsDisjoint : Vfs → Type 0
IsDisjoint s = (p : ℕ) → count p s.heap.live ≤ 1

IsSound-same :
    (s s' : Vfs)
    → IsSound s
    → s'.nodes ≡ s.nodes
    → ((p : ℕ) → count p s'.heap.live ≡ count p s.heap.live)
    → IsSound s'
IsSound-same s s' v e c = record {
  table = rw e v.table;
  owned = λ p np h. rw (c p) (v.owned p np (sym (ap (node_at p) e) ∙ h));
}

fresh_at :
    (p b : ℕ) (s s' : Vfs)
    → IsSound s
    → IsDisjoint s'
    → s'.heap.live ≡ b ∷ p ∷ s.heap.live
    → node_at p s.nodes ≡ none
unfolding count
fresh_at p b s s' v d e = elim (Option-cases (node_at p s.nodes)) [
  | inl n ↦ n
  | inr (np, h) ↦
      let r : (p == p) ≡ true = ground arith in
      let t : count p s'.heap.live ≡ count p (b ∷ p ∷ s.heap.live) = ap (count p) e in
      absurd (ground (arith, v.owned p np h, d p, r, t))
]

owned_append :
    (q : ℕ) (np n : TmpfsNode) (b : ℕ) (s s' : Vfs)
    → IsSound s
    → s'.nodes ≡ s.nodes ++ n ∷ []
    → s'.heap.live ≡ b ∷ n.self ∷ s.heap.live
    → node_at q s'.nodes ≡ some np
    → 1 ≤ count q s'.heap.live
unfolding count
owned_append q np n b s s' v e h k =
    let t : count q s'.heap.live ≡ count q (b ∷ n.self ∷ s.heap.live) = ap (count q) h in
    elim (Option-cases (node_at q s.nodes)) [
      | inl g ↦ elim (Bool-cases (n.self == q)) [
        | inl c ↦ ground (arith, t, c)
        | inr c ↦
            let j = node_at-append q n s.nodes g in
            let l : node_at q s'.nodes ≡ none = ap (node_at q) e ∙ j ∙ rw c refl in cc (l, k)
      ]
      | inr (m, g) ↦ ground (arith, t, v.owned q m g)
    ]

IsSound-Creates :
    (name : Bytes) (type : VType) (s : Vfs) (r : Ret ℕ × Vfs)
    → IsSound s
    → IsDisjoint r.1
    → Creates name type s r
    → IsSound r.1
unfolding count
IsSound-Creates name type s _ v d (exists np e) = v
IsSound-Creates name type s _ v d (unsupported n t) = v
IsSound-Creates name type s _ v d (too_long n l) = v
IsSound-Creates name type s _ v d (no_memory {s'} e c) = IsSound-same s s' v e c
IsSound-Creates name type s _ v d (created p b {s'} n l e f h) =
    let a = fresh_at p b s s' v d h in
    record {
      table = rw e (
          IsTable-append (fresh_node p b name type) s.nodes v.table l
            (record { sized = refl; roomy = omega arith }) n a);
      owned = λ q np k. owned_append q np (fresh_node p b name type) b s s' v e h k;
    }

-- `tmpfs_create` keeps the list of nodes in order, with every node's block handed out, as long as
-- the heap hands no block out twice.
pub tmpfs_create-IsSound :
    (name : Bytes) (type : VType) (s : Vfs)
    → IsSound s
    → IsDisjoint (tmpfs_create (some name) type s).1
    → IsSound (tmpfs_create (some name) type s).1
tmpfs_create-IsSound name type s v d =
    IsSound-Creates name type s (tmpfs_create (some name) type s) v d
      (tmpfs_create-Creates name type s)

-- What `tmpfs_lookup` comes to.
pub data Looks (name : Bytes) (s : Vfs) : Ret ℕ × Vfs → Type 0 where
  missing : find_node name s.nodes ≡ err enoent → Looks name s (err enoent, s)
  no_vnode :
      {s' : Vfs}
      → s'.nodes ≡ s.nodes
      → s'.vnodes ≡ s.vnodes
      → s'.heap.live ≡ s.heap.live
      → Looks name s (err enomem, s')
  opened :
      (np : TmpfsNode) (p : ℕ) {s' : Vfs}
      → find_node name s.nodes ≡ ok np
      → IsOpen p (ref_node np) s'
      → s'.vnodes p
        ≡ some
            (record { refcount = 1; type = np.vtype; vops = some tmpfs; vdata = tmp_node np.self })
      → s'.heap.live ≡ p ∷ s.heap.live
      → Looks name s (ok p, s')

given_vnode-Looks :
    (name : Bytes) (s : Vfs) (np : TmpfsNode) (o : Option ℕ × Heap)
    → find_node name s.nodes ≡ ok np
    → node_at np.self s.nodes ≡ some np
    → Kalloced s.heap o
    → Looks name s (given_vnode np (valloced np.vtype s o))
given_vnode-Looks name s np _ e a (refused k) = no_vnode refl refl k
given_vnode-Looks name s np _ e a (given p k) =
    let r : (p == p) ≡ true = ground arith in
    let v : Vnode = record {
      refcount = 1;
      type = np.vtype;
      vops = some tmpfs;
      vdata = tmp_node np.self;
    } in
    opened np p e
      (record {
        v = v;
        there = rw r refl;
        bound = refl;
        node = node_at-put_node np (ref_node np) s.nodes refl a;
      })
      (rw r refl) k

-- `tmpfs_lookup` gives ENOENT where no node has the name, with nothing changed, ENOMEM with no vnode
-- added, or a fresh vnode of the first node of that name, with one reference and the node's type, which counts once more as a
-- reference to the node.
pub tmpfs_lookup-Looks :
    (name : Bytes) (s : Vfs) → IsTable s.nodes → Looks name s (tmpfs_lookup (some name) s)
unfolding tmpfs_lookup tmpfs_byname vfs_valloc
tmpfs_lookup-Looks name s t = found (find_node name s.nodes) refl
  where
    found : (r : Ret TmpfsNode) → find_node name s.nodes ≡ r → Looks name s (found_node s r)
    found (err k) e = let n = find_node-err name s.nodes k e in rw n (missing (e ∙ ap err n))
    found (ok np) e =
        given_vnode-Looks name s np (kalloc sizeof_vnode s.heap) e
          (node_at-find_node name np s.nodes t e) (kalloc-Kalloced sizeof_vnode s.heap)
