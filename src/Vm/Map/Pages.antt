-- ===== src/Vm/Map/Pages.antt =====
-- Proofs on the loop of `__vm_map`, src/sys/vm/vm_map.c.
use l5lunos.Prelude.{
  ℕ, zero, suc, ◌+◌, ◌-◌, ◌*◌, ◌/◌, ◌%◌, ◌^◌, ◌≤◌, ◌<◌, ◌≡◌, ◌≢◌, ap, ◌∙◌, inl, inr, Bool-cases,
  true, false, some, arith, ◌==◌, if◌then◌else◌, get_elem?,
}
use l5lunos.Prelude.Int8.{ℤ, pos}
use l5lunos.Prelude.Errno.{Ret}
use l5lunos.Vm.Frames.{Outcome, done, panicked, pagesize}
use l5lunos.Vm.Frames.Bits.{within}
use l5lunos.Vm.Frames.Count.{free_count}
use l5lunos.Vm.Mmu.{Mmu, on_done}
use l5lunos.Vm.Mmu.Walk.{missing-le}
use l5lunos.Vm.Mmu.Translate.{page_of}
use l5lunos.Vm.Mmu.Owned.{Owner, IsTree}
use l5lunos.Vm.Mmu.Refine.{View, view, mapping, Maps, no_table, maps, mmu_map_single-Maps}
use l5lunos.Vm.Map.{map_pages, next_page}

-- The view with `n` pages from `first` on mapped to the frames from `pa` on.
abbrev pub map_view : ℕ → ℕ → ℕ → ℕ → View → View
map_view first n pa prot w p =
    if within first n p then mapping prot (pa + (p - first) * pagesize) else w p

-- What the loop does: it panics where fewer frames are free than the pages may need tables, or the pages are mapped and no others.
pub data MapsRun (own : Owner) (root first n pa prot : ℕ) (m : Mmu)
    : Outcome (ℤ × Mmu) → Type 0 where
  no_memory : free_count m.frames < 3 * n → MapsRun own root first n pa prot m panicked
  ran :
      (own' : Owner) {m' : Mmu}
      → IsTree own' root m'
      → ((k : ℕ)
          → get_elem? m.frames.bitmap k ≡ some true
          → get_elem? m'.frames.bitmap k ≡ some true)
      → ((p : ℕ)
          → p < 2 ^ 36
          → view root m'.tables p ≡ map_view first n pa prot (view root m.tables) p)
      → free_count m.frames ≤ free_count m'.frames + 3 * n
      → MapsRun own root first n pa prot m (done (pos 0, m'))

map_view_step :
    (first n pa prot : ℕ) (w w1 : View) (p : ℕ)
    → w1 first ≡ mapping prot pa
    → (p ≢ first → w1 p ≡ w p)
    → map_view (first + 1) n (pa + pagesize) prot w1 p ≡ map_view first (suc n) pa prot w p
map_view_step first n pa prot w w1 p h k = elim (Bool-cases (p == first)) [
  | inl e ↦
      let same : p ≡ first = ground (arith, e) in
      let before : within (first + 1) n first ≡ false = ground arith in
      let here : within first (suc n) first ≡ true = ground arith in
      let base : pa + (first - first) * pagesize ≡ pa = omega arith in
      rw (same, before, here, base) h
  | inr e ↦
      let ne : p ≢ first = ground (arith, e) in
      let same : within (first + 1) n p ≡ within first (suc n) p = ground (arith, ne) in
      elim (Bool-cases (within first (suc n) p)) [
        | inl z ↦
            let addr : pa + pagesize + (p - (first + 1)) * pagesize ≡ pa + (p - first) * pagesize =
              ground (arith, z, ne) in
            rw (same, z) (ap (mapping prot) addr)
        | inr z ↦ rw (same, z) (k ne)
      ]
]

MapsRun-step :
    (own own1 : Owner) (root first n pa prot : ℕ) (m m1 : Mmu) {o : Outcome (ℤ × Mmu)}
    → ((k : ℕ) → get_elem? m.frames.bitmap k ≡ some true → get_elem? m1.frames.bitmap k ≡ some true)
    → view root m1.tables first ≡ mapping prot pa
    → ((p : ℕ) → p < 2 ^ 36 → p ≢ first → view root m1.tables p ≡ view root m.tables p)
    → free_count m.frames ≤ free_count m1.frames + 3
    → MapsRun own1 root (first + 1) n (pa + pagesize) prot m1 o
    → MapsRun own root first (suc n) pa prot m o
MapsRun-step own own1 root first n pa prot m m1 u h k c (no_memory g) =
    no_memory (omega (arith, g, c))
MapsRun-step own own1 root first n pa prot m m1 u h k c (ran own' v u' w g) =
    ran own' v (λ i z. u' i (u i z))
      (λ p l.
        w p l
        ∙ map_view_step first n pa prot (view root m.tables) (view root m1.tables) p h (k p l))
      (omega (arith, g, c))

next_page-MapsRun :
    (own : Owner) (root start va n pa prot : ℕ) (m : Mmu) (rest : Mmu → Outcome (ℤ × Mmu))
    {o : Outcome (Ret (Unit {0}) × Mmu)}
    → ((own1 : Owner) (m1 : Mmu)
        → IsTree own1 root m1
        → MapsRun own1 root (page_of va + 1) n (pa + pagesize) prot m1 (rest m1))
    → Maps own root va pa prot m o
    → MapsRun own root (page_of va) (suc n) pa prot m (on_done o (next_page start rest))
next_page-MapsRun own root start va n pa prot m rest ih (no_table g) =
    no_memory (omega (arith, g, missing-le 3 (page_of va) root m.tables))
next_page-MapsRun own root start va n pa prot m rest ih (maps own1 {m' = m1} v1 ow u h k c) =
    MapsRun-step own own1 root (page_of va) n pa prot m m1 u h k c (ih own1 m1 v1)

-- On tables that are a tree, the loop maps `n` pages one after the other, where neither the addresses of
-- the pages nor those of the frames run past what a table can hold.
pub map_pages-MapsRun :
    (n : ℕ) (own : Owner) (cr3 start va pa prot : ℕ) (m : Mmu)
    → IsTree own (cr3 / pagesize % 2 ^ 40) m
    → va % pagesize ≡ 0
    → pa % pagesize ≡ 0
    → va + n * pagesize < 2 ^ 48
    → pa + n * pagesize ≤ 2 ^ 52
    → MapsRun own
        (cr3 / pagesize % 2 ^ 40)
        (page_of va)
        n
        pa
        prot
        m
        (map_pages n cr3 start va pa prot m)
unfolding map_pages
map_pages-MapsRun zero own cr3 start va pa prot m v a b c d =
    ran own v (λ k h. h) (λ p l. ground arith) (omega arith)
map_pages-MapsRun (suc n) own cr3 start va pa prot m v a b c d =
    let root : ℕ = cr3 / pagesize % 2 ^ 40 in
    let va' : (va + pagesize) % 2 ^ 64 ≡ va + pagesize = omega (arith, c) in
    let pa' : (pa + pagesize) % 2 ^ 64 ≡ pa + pagesize = omega (arith, d) in
    let first : page_of va + 1 ≡ page_of (va + pagesize) = omega (arith, c, a) in
    rw (va', pa')
      (next_page-MapsRun own root start va n pa prot m
        (map_pages n cr3 start (va + pagesize) (pa + pagesize) prot)
        (λ own1 m1 v1. rw first (
          map_pages-MapsRun n own1 cr3 start (va + pagesize) (pa + pagesize) prot m1 v1
            (omega (arith, a)) (omega (arith, b)) (omega (arith, c)) (omega (arith, d))))
        (mmu_map_single-Maps own cr3 va pa prot m v b (omega (arith, d))))
