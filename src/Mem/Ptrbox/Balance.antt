-- ===== src/Mem/Ptrbox/Balance.antt =====
-- Proofs on src/sys/lib/ptrbox.c: the blocks that are handed out before and after each call.
use l5lunos.Prelude.{
  ℕ, ◌+◌, ◌≡◌, refl, ap, inl, inr, Bool-cases, ==-refl, Option, none, some, List, [], ◌∷◌, ◌++◌,
  arith, ◌==◌, if◌then◌else◌, Bytes, length,
}
use l5lunos.Mem.Kalloc.{
  Heap, kfree, count, release, count-append, count-release, Kalloced, refused, given,
  kalloc-Kalloced,
}
use l5lunos.Mem.Ptrbox.{
  Entry, Ptrbox, Mem, sizeof_entry, alloc_block, alloc_entry, ptrbox_alloc, copied, ptrbox_strdup,
  reap, ptrbox_terminate,
}

unfoldable pub nodes : List Entry → List ℕ
nodes [] = []
nodes (e ∷ es) = e.node ∷ nodes es

abbrev cons_block : Option ℕ → List ℕ → List ℕ
cons_block none l = l
cons_block (some p) l = p ∷ l

unfoldable pub blocks : List Entry → List ℕ
blocks [] = []
blocks (e ∷ es) = cons_block e.block (blocks es)

-- The blocks handed out are those of `base`, the entries of the box, and what these point to.
pub record IsBalanced (base : List ℕ) (m : Mem) : Type 0 where
  pub each :
      (p : ℕ)
      → count p m.heap.live ≡ count p base + count p (nodes m.box.q) + count p (blocks m.box.q)

count-nodes-append :
    (p : ℕ) (es : List Entry) (e : Entry)
    → count p (nodes (es ++ e ∷ [])) ≡ count p (nodes es) + (if p == e.node then 1 else 0)
unfolding nodes count
count-nodes-append p [] e = ground arith
count-nodes-append p (x ∷ es) e = omega (arith, count-nodes-append p es e)

count-blocks-append :
    (p q n len : ℕ) (es : List Entry)
    → let e : Entry = record { node = n; block = some q; len = len } in
      count p (blocks (es ++ e ∷ [])) ≡ count p (blocks es) + (if p == q then 1 else 0)
unfolding blocks count
count-blocks-append p q n len [] = ground arith
count-blocks-append p q n len (x ∷ es) = ground (arith, count-blocks-append p q n len es)

-- `h` hands out `base`, the entries `es` of a box, and what these point to.
abbrev pub Balanced : List ℕ → List ℕ → List Entry → Type 0
Balanced base live es =
    (p : ℕ) → count p live ≡ count p base + count p (nodes es) + count p (blocks es)

module _ (base : List ℕ) (box : Ptrbox) where
  alloc_block-IsBalanced :
      (len ent : ℕ) {h : Heap} (live : List ℕ) {r : Option ℕ × Heap}
      → Balanced base live box.q
      → h.live ≡ ent ∷ live
      → Kalloced h r
      → IsBalanced base (alloc_block len ent r box).1
  unfolding kfree release count
  alloc_block-IsBalanced len ent live v e (refused e') = record {
    each = λ p. rw (e', e) (ground (arith, v p));
  }
  alloc_block-IsBalanced len ent live v e (given q e') = record {
    each = λ p.
        rw (e', e)
          (ground (
            arith,
            v p,
            count-nodes-append p box.q (record { node = ent; block = some q; len = len }),
            count-blocks-append p q ent len box.q,
          ));
  }

  alloc_entry-IsBalanced :
      (len : ℕ) {h : Heap} {r : Option ℕ × Heap}
      → Balanced base h.live box.q
      → Kalloced h r
      → IsBalanced base (alloc_entry len r box).1
  alloc_entry-IsBalanced len v (refused e) = record { each = λ p. rw e (v p) }
  alloc_entry-IsBalanced len {h} v (given ent {h'} e) =
      alloc_block-IsBalanced len ent h.live v e (kalloc-Kalloced len h')

-- Every branch of `ptrbox_alloc` keeps a balanced heap balanced: what is handed out is what
-- others had, the entries of the box, and their blocks.
pub ptrbox_alloc-IsBalanced :
    (base : List ℕ) (len : ℕ) (m : Mem) → IsBalanced base m → IsBalanced base (ptrbox_alloc len m).1
unfolding ptrbox_alloc
ptrbox_alloc-IsBalanced base len m v = elim (Bool-cases (len == 0)) [
  | inl e ↦ rw e v
  | inr e ↦
      rw e (alloc_entry-IsBalanced base m.box len v.each (kalloc-Kalloced sizeof_entry m.heap))
]

-- Every branch of `ptrbox_strdup` keeps a balanced heap balanced, for a NULL string, too.
pub ptrbox_strdup-IsBalanced :
    (base : List ℕ) (s : Option Bytes) (m : Mem)
    → IsBalanced base m
    → IsBalanced base (ptrbox_strdup s m).1
unfolding ptrbox_strdup
ptrbox_strdup-IsBalanced base none m v = v
ptrbox_strdup-IsBalanced base (some s) m v =
    copied_mem s (ptrbox_alloc (length s + 1) m) (ptrbox_alloc-IsBalanced base (length s + 1) m v)
  where
    copied_mem :
        (s : Bytes) (r : Option ℕ × Mem) → IsBalanced base r.1 → IsBalanced base (copied s r).1
    copied_mem s (none, m') w = w
    copied_mem s (some p, m') w = w

kfree-count :
    (base rest : List ℕ) (b : Option ℕ) (h : Heap)
    → ((p : ℕ) → count p h.live ≡ count p base + count p (cons_block b rest))
    → (p : ℕ) → count p (kfree b h).live ≡ count p base + count p rest
unfolding kfree count
kfree-count base rest none h v p = v p
kfree-count base rest (some q) h v p = ground (arith, v p, v q, count-release p q h.live, ==-refl q)

reap-count :
    (base : List ℕ) (es : List Entry) (h : Heap)
    → ((p : ℕ) → count p h.live ≡ count p base + count p (blocks es))
    → (p : ℕ) → count p (reap es h).1.live ≡ count p base
unfolding reap blocks count
reap-count base [] h v p = omega (arith, v p)
reap-count base (e ∷ es) h v p =
    reap-count base es (kfree e.block h) (kfree-count base (blocks es) e.block h v) p

nodes-reap :
    (es : List Entry) (h : Heap) → (nodes (reap es h).0 ≡ nodes es) × (blocks (reap es h).0 ≡ [])
unfolding reap nodes blocks
nodes-reap [] h = (refl, refl)
nodes-reap (e ∷ es) h =
    let ih = nodes-reap es (kfree e.block h) in (ap (λ l. e.node ∷ l) ih.0, ih.1)

-- From a balanced heap, `ptrbox_terminate` releases every block of the box, and nothing else: the
-- queue's entries stay allocated, each counted once, and no entry points to a block any more.
pub ptrbox_terminate-live :
    (base : List ℕ) (m : Mem)
    → IsBalanced base m
    → ((p : ℕ) → count p (ptrbox_terminate m).heap.live ≡ count p base + count p (nodes m.box.q))
      × (nodes (ptrbox_terminate m).box.q ≡ nodes m.box.q)
      × (blocks (ptrbox_terminate m).box.q ≡ [])
unfolding ptrbox_terminate kfree
ptrbox_terminate-live base m v = (
  λ p. omega (
    arith,
    reap-count (base ++ nodes m.box.q) m.box.q m.heap
        (λ q. omega (arith, v.each q, count-append q base (nodes m.box.q))) p,
    count-append p base (nodes m.box.q),
  ),
  (nodes-reap m.box.q m.heap).0,
  (nodes-reap m.box.q m.heap).1,
)
