-- ===== src/Vfs/Tmpfs/Rewrite.antt =====
-- Proofs on `tmpfs_write`, `tmpfs_read` and `tmpfs_getattr` of src/sys/fs/tmpfs.c, through a vnode.
use l5lunos.Prelude.{
  ℕ, ◌+◌, ◌^◌, ◌<◌, ◌≡◌, refl, sym, ap, ◌∙◌, inl, inr, Bool-cases, true, false, Option, some, List,
  [], ◌∷◌, leb, ◌==◌, if◌then◌else◌, ◌>>=◌, arith, Bytes, length,
}
use l5lunos.Prelude.Errno.{Ret, ok, err, enomem}
use l5lunos.Vfs.State.{tmp_node, Vnode, TmpfsNode, Vfs}
use l5lunos.Vfs.Tmpfs.{node_at, put_node}
use l5lunos.Vfs.Tmpfs.Data.{Realloc, write_node, written, tmpfs_write, tmpfs_read, tmpfs_getattr}
use l5lunos.Vfs.Tmpfs.Readback.{
  IsValid, IsRealloc, Holds, Writes, refused, stored, write_node-Writes, read_node-stored,
}

-- The vnode at `vp` is one of the node `np`.
pub record IsOpen (vp : ℕ) (np : TmpfsNode) (s : Vfs) : Type 0 where
  pub v : Vnode
  pub there : s.vnodes vp ≡ some v
  pub bound : v.vdata ≡ tmp_node np.self
  pub node : node_at np.self s.nodes ≡ some np

-- The two ends of `tmpfs_write`, with what the operations of the vnode give afterwards.
pub data Rewrites (vp off : ℕ) (src : Bytes) (np : TmpfsNode) : Option (Ret ℕ × Vfs) → Type 0 where
  full :
      (np' : TmpfsNode) {s' : Vfs}
      → IsOpen vp np' s'
      → np'.buf ≡ np.buf
      → tmpfs_getattr (some vp) s' ≡ some (ok np.real_len)
      → Rewrites vp off src np (some (err enomem, s'))
  rewritten :
      (np' : TmpfsNode) {s' : Vfs}
      → IsOpen vp np' s'
      → IsValid np'
      → tmpfs_getattr (some vp) s' ≡ some (ok (np.real_len + length src))
      → tmpfs_read (some vp) off (length src) s'
        ≡ some (ok (if leb (np.real_len + length src) off then [] else src))
      → Holds off src np.buf np'.buf
      → Rewrites vp off src np (some (ok (length src), s'))

pub node_at-put_node :
    (np np' : TmpfsNode) (nodes : List TmpfsNode)
    → np'.self ≡ np.self
    → node_at np.self nodes ≡ some np
    → node_at np'.self (put_node np' nodes) ≡ some np'
unfolding node_at put_node
node_at-put_node np np' [] e h = cc h
node_at-put_node np np' (x ∷ xs) e h = elim (Bool-cases (x.self == np.self)) [
  | inl t ↦
      let r : (np'.self == np'.self) ≡ true = ground arith in
      let q : (x.self == np'.self) ≡ true = ground (arith, t, e) in rw (q, r) refl
  | inr f ↦
      let q : (x.self == np'.self) ≡ false = ground (arith, f, e) in
      rw (q, q) (node_at-put_node np np' xs e (simp f at h))
]

IsOpen-written :
    (vp : ℕ) (np np' : TmpfsNode) (r : Ret ℕ) (s : Vfs)
    → np'.self ≡ np.self
    → IsOpen vp np s
    → IsOpen vp np' (written s (r, np')).1
IsOpen-written vp np np' r s e o = record {
  v = o.v;
  there = o.there;
  bound = o.bound ∙ ap tmp_node (sym e);
  node = node_at-put_node np np' s.nodes e o.node;
}

tmpfs_getattr-IsOpen :
    (vp : ℕ) (np : TmpfsNode) (s : Vfs)
    → IsOpen vp np s
    → tmpfs_getattr (some vp) s ≡ some (ok np.real_len)
unfolding tmpfs_getattr
tmpfs_getattr-IsOpen vp np s o = rw (o.there, o.bound, o.node) refl

Rewrites-Writes :
    (vp off : ℕ) (src : Bytes) (np : TmpfsNode) (s : Vfs) (o : Option (Ret ℕ × TmpfsNode))
    → IsOpen vp np s
    → length src + off + 1 < 2 ^ 64
    → Writes off src np o
    → Rewrites vp off src np (o >>= λ r. some (written s r))
unfolding tmpfs_read
Rewrites-Writes vp off src np s _ o h (refused {np'} e b r) =
    let i = IsOpen-written vp np np' (err enomem) s e o in
    full np' i b
      (tmpfs_getattr-IsOpen vp np' (written s (err enomem, np')).1 i ∙ ap (λ n. some (ok n)) r)
Rewrites-Writes vp off src np s _ o h (stored {np'} e v r l k) =
    let i = IsOpen-written vp np np' (ok (length src)) s e o in
    rewritten np' i v
      (tmpfs_getattr-IsOpen vp np' (written s (ok (length src), np')).1 i ∙ ap (λ n. some (ok n)) r)
      (rw (i.there, i.bound, i.node, read_node-stored off src np np' h v r l k) refl) k

-- Through a vnode of a valid node, whose numbers do not wrap, and with a `krealloc` that does what its
-- manual says, `tmpfs_write` does not fault. It fails with ENOMEM and leaves the data and the size; or it
-- counts all bytes, the other bytes that were there stay, the size that `tmpfs_getattr` gives grows by their number, and
-- `tmpfs_read` of the same place gives them again, or nothing where the place is past that size.
pub tmpfs_write-Rewrites :
    (realloc : Realloc) (vp off : ℕ) (src : Bytes) (np : TmpfsNode) (s : Vfs)
    → IsRealloc realloc
    → IsOpen vp np s
    → IsValid np
    → length src + off + 1 < 2 ^ 64
    → np.real_len + length src < 2 ^ 64
    → Rewrites vp off src np (tmpfs_write realloc (some vp) off (length src) src s)
unfolding tmpfs_write
tmpfs_write-Rewrites realloc vp off src np s a o v h k =
    rw (o.there, o.bound, o.node)
      (Rewrites-Writes vp off src np s (write_node realloc off (length src) src np) o h
        (write_node-Writes realloc off src np a v h k))
