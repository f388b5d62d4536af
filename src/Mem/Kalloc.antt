-- ===== src/Mem/Kalloc.antt =====
-- `kalloc` and `kfree` of src/sys/os/os_kalloc.c. The answers of `tlsf_malloc` are a parameter: the
-- field `grants` gives the answer to each request, by its number and its size.
use l5lunos.Prelude.{
  ℕ, ◌+◌, ◌≡◌, refl, Bool, Bool-cases, inl, inr, Option, none, some, List, [], ◌∷◌, ◌++◌, arith,
  ◌==◌, if◌then◌else◌,
}

-- `is_init`, the allocator, and the blocks that are handed out at present.
pub record Heap : Type 0 where
  pub is_init : Bool
  pub grants : ℕ → ℕ → Option ℕ
  pub calls : ℕ
  pub live : List ℕ

abbrev pub granted : Option ℕ → Heap → Option ℕ × Heap
granted none h = (none, record h { calls = h.calls + 1 })
granted (some p) h = (some p, record h { calls = h.calls + 1; live = p ∷ h.live })

unfoldable pub kalloc : ℕ → Heap → Option ℕ × Heap
kalloc sz h = if h.is_init then granted (h.grants h.calls sz) h else (none, h)

-- `tlsf_free` takes the block back; it ignores NULL.
unfoldable pub release : ℕ → List ℕ → List ℕ
release p [] = []
release p (q ∷ qs) = let rest = release p qs in if p == q then qs else q ∷ rest

unfoldable pub kfree : Option ℕ → Heap → Heap
unfolding release
kfree none h = h
kfree (some p) h = record h { live = release p h.live }

-- How often `p` stands in a list of blocks.
unfoldable pub count : ℕ → List ℕ → ℕ
count p [] = 0
count p (q ∷ qs) = (if p == q then 1 else 0) + count p qs

pub count-append : (p : ℕ) (xs ys : List ℕ) → count p (xs ++ ys) ≡ count p xs + count p ys
unfolding count
count-append p [] ys = omega arith
count-append p (x ∷ xs) ys = omega (arith, count-append p xs ys)

pub count-release :
    (p q : ℕ) (l : List ℕ)
    → count p (release q l) + (if count q l == 0 then 0 else (if p == q then 1 else 0)) ≡ count p l
unfolding count release
count-release p q [] = refl
count-release p q (x ∷ l) = ground (arith, count-release p q l)

-- `kalloc` gives NULL and hands nothing out, or it hands out the block that it returns.
pub data Kalloced (h : Heap) : Option ℕ × Heap → Type 0 where
  refused : {h' : Heap} → h'.live ≡ h.live → Kalloced h (none, h')
  given : (p : ℕ) {h' : Heap} → h'.live ≡ p ∷ h.live → Kalloced h (some p, h')

granted-Kalloced : (o : Option ℕ) (h : Heap) → Kalloced h (granted o h)
granted-Kalloced none h = refused refl
granted-Kalloced (some p) h = given p refl

pub kalloc-Kalloced : (sz : ℕ) (h : Heap) → Kalloced h (kalloc sz h)
unfolding kalloc
kalloc-Kalloced sz h = elim (Bool-cases h.is_init) [
  | inl e ↦ simp e (granted-Kalloced (h.grants h.calls sz) h)
  | inr e ↦ simp e (refused refl)
]
