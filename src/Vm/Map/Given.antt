-- ===== src/Vm/Map/Given.antt =====
-- Proofs on `vm_map` of src/sys/vm/vm_map.c with frames that are given.
use l5lunos.Prelude.{
  ℕ, ◌+◌, ◌*◌, ◌/◌, ◌%◌, ◌^◌, ◌≤◌, ◌<◌, ◌≡◌, refl, ap, ◌∙◌, false, ◌||◌, none, arith, ◌==◌,
  if◌then◌else◌,
}
use mathlib.Core.Path.{subst}
use l5lunos.Prelude.Int8.{ℤ, pos}
use l5lunos.Vm.Frames.{Outcome, done, panicked, pagesize}
use l5lunos.Vm.Mmu.{Mmu, on_done}
use l5lunos.Vm.Mmu.Translate.{page_of}
use l5lunos.Vm.Mmu.Owned.{Owner, IsTree}
use l5lunos.Vm.Mmu.Refine.{view}
use l5lunos.Vm.Map.{
  align_down, MmuMap, Mapped, Space, vm_map_aligned, assign_spec, behind_map, ranges_with, vm_map,
}
use l5lunos.Vm.Map.Pages.{map_view}
use l5lunos.Vm.Frames.Count.{free_count}
use l5lunos.Vm.Map.Grants.{Keeps}
use l5lunos.Vm.Map.Region.{Given, MapsRegion, region, no_frames, map_region-MapsRegion}
use l5lunos.Vm.Map.Mmap.{mmap_view, guard_view}
use l5lunos.Proc.Ranges.{align_up64}

vm_map_aligned-Given :
    (own : Owner) (cr3 len prot : ℕ) (spec : MmuMap) (m : Mmu)
    → 0 < spec.va
    → 0 < spec.pa
    → 0 < len
    → len ≤ 2 ^ 48
    → spec.va + align_up64 len < 2 ^ 48
    → align_down spec.pa + align_up64 len ≤ 2 ^ 52
    → IsTree own (cr3 / pagesize % 2 ^ 40) m
    → let n : ℕ = align_up64 len / pagesize in
      MapsRegion
        (Given spec)
        (free_count m.frames < 4 * n)
        own
        (cr3 / pagesize % 2 ^ 40)
        n
        prot
        spec
        m
        (vm_map_aligned cr3 spec len prot m)
unfolding vm_map_aligned assign_spec align_up64
vm_map_aligned-Given own cr3 len prot spec m a z l b c d v =
    let some_len : (len == 0) ≡ false = ground (arith, l) in
    let test : (spec.pa == 0 || spec.va == 0) ≡ false = ground (arith, a, z) in
    rw (some_len, test)
      (map_region-MapsRegion (Given spec) (free_count m.frames < 4 * (align_up64 len / pagesize))
        own cr3 (align_up64 len) prot spec.pa spec m m (ground (arith, z)) (omega arith)
        (omega (arith, l, b)) c d v (λ k h. h) (λ p. refl) (λ m' u. refl) (omega arith) (λ x. x))

-- What `vm_map` does at `va` with the frames from `pa` on: it panics where fewer than 4 frames are free
-- for each page and the page behind, or the `n`
-- pages lead to the frames, and the page behind them to none.
pub data MapsGiven (own : Owner) (root va pa n len prot : ℕ) (s : Space)
    : Outcome (ℤ × MmuMap × Space) → Type 0 where
  no_memory : free_count s.mmu.frames < 4 * n + 4 → MapsGiven own root va pa n len prot s panicked
  maps_given :
      (own' : Owner) {s' : Space}
      → IsTree own' root s'.mmu
      → Keeps s.mmu s'.mmu
      → ((p : ℕ)
          → p < 2 ^ 36
          → view root s'.mmu.tables p
            ≡ mmap_view (page_of va) n (pa / pagesize) prot (view root s.mmu.tables) p)
      → ((s'.self, s'.heap) ≡ ranges_with (record { va = va; pa = pa }) len s.self s.heap)
      → MapsGiven own root va pa n len prot s (done (pos 0, record { va = va; pa = pa }, s'))

guarded-MapsGiven :
    (own own1 : Owner) (root va pa n len prot : ℕ) (s : Space) (m1 : Mmu) (spec : MmuMap)
    {o : Outcome Mapped}
    → page_of spec.va ≡ page_of va + n
    → Keeps s.mmu m1
    → ((p : ℕ)
        → p < 2 ^ 36
        → view root m1.tables p
          ≡ map_view (page_of va) n (pa / pagesize * pagesize) prot (view root s.mmu.tables) p)
    → free_count s.mmu.frames ≤ free_count m1.frames + 4 * n
    → MapsRegion (Given spec) (free_count m1.frames < 4 * 1) own1 root 1 0 spec m1 o
    → let (ranges, h) = ranges_with (record { va = va; pa = pa }) len s.self s.heap in
      MapsGiven own root va pa n len prot s (
        on_done o (λ (r, spec', m).
          done (pos 0, record { va = va; pa = pa }, record { mmu = m; heap = h; self = ranges })))
guarded-MapsGiven own own1 root va pa n len prot s m1 spec g k w c (no_frames x) =
    no_memory (omega (arith, x, c))
guarded-MapsGiven own own1 root va pa n len prot s m1 spec g k w c
      (region own' pa' src v k' w' cost) =
    maps_given own' v (λ i h. k' i (k i h))
      (λ p l.
        w' p l
        ∙ guard_view (page_of spec.va) (page_of va + n) (align_down pa') (view root m1.tables) p g
        ∙ ap (λ x. if p == page_of va + n then none else x) (w p l))
      refl

behind_map-MapsGiven :
    (own : Owner) (cr3 va pa len prot : ℕ) (s : Space) {o : Outcome Mapped}
    → let root : ℕ = cr3 / pagesize % 2 ^ 40 in
      let n : ℕ = len / pagesize in
      0 < len
      → 0 < pa
      → len % pagesize ≡ 0
      → va + len + pagesize < 2 ^ 48
      → pa + pagesize ≤ 2 ^ 52
      → MapsRegion
          (Given (record { va = va; pa = pa }))
          (free_count s.mmu.frames < 4 * n)
          own
          root
          n
          prot
          (record { va = va; pa = pa })
          s.mmu
          o
      → MapsGiven own root va pa n len prot s
          (on_done o (behind_map cr3 (record { va = va; pa = pa }) len s))
unfolding align_up64
behind_map-MapsGiven own cr3 va pa len prot s l z a b d (no_frames x) = no_memory (omega (arith, x))
behind_map-MapsGiven own cr3 va pa len prot s l z a b d (region own1 pa' {m' = m1} e v k w cost) =
    let root : ℕ = cr3 / pagesize % 2 ^ 40 in
    let spec : MmuMap = record { va = (va + len) % 2 ^ 64; pa = pa } in
    let guard =
      vm_map_aligned-Given own1 cr3 pagesize 0 spec m1 (omega (arith, l, b)) z (omega arith)
        (omega arith) (omega (arith, b)) (omega (arith, d)) v in
    let first : page_of spec.va ≡ page_of va + len / pagesize = omega (arith, a, b) in
    rw e (
      guarded-MapsGiven own own1 root va pa (len / pagesize) len prot s m1 spec first k
        (subst
          (λ x.
            (p : ℕ)
            → p < 2 ^ 36
            → view root m1.tables p
              ≡ map_view (page_of va) (len / pagesize) (align_down x) prot (view root s.mmu.tables)
                  p)
          e w)
        cost guard)

align_up64_whole : (len : ℕ) → len % pagesize ≡ 0 → len < 2 ^ 48 → align_up64 len ≡ len
unfolding align_up64
align_up64_whole len w b = omega (arith, w, b)

pub vm_map-MapsGiven :
    (own : Owner) (cr3 va pa len prot : ℕ) (s : Space)
    → IsTree own (cr3 / pagesize % 2 ^ 40) s.mmu
    → 0 < va
    → 0 < pa
    → 0 < len
    → len % pagesize ≡ 0
    → va + len + pagesize < 2 ^ 48
    → pa + len ≤ 2 ^ 52
    → MapsGiven own
        (cr3 / pagesize % 2 ^ 40)
        va
        pa
        (len / pagesize)
        len
        prot
        s
        (vm_map cr3 (record { va = va; pa = pa }) len prot s)
unfolding vm_map
vm_map-MapsGiven own cr3 va pa len prot s v a z l w b d =
    let twice : align_up64 len ≡ len = align_up64_whole len w (omega (arith, b)) in
    let mapped =
      vm_map_aligned-Given own cr3 len prot (record { va = va; pa = pa }) s.mmu a z l
        (omega (arith, b)) (omega (arith, b, twice)) (omega (arith, d, twice)) v in
    rw twice (
      behind_map-MapsGiven own cr3 va pa len prot s l z w b (omega (arith, d, w, l)) (
        subst
          (λ x.
            MapsRegion (Given (record { va = va; pa = pa }))
              (free_count s.mmu.frames < 4 * (x / pagesize)) own (cr3 / pagesize % 2 ^ 40)
              (x / pagesize) prot (record { va = va; pa = pa }) s.mmu
              (vm_map_aligned cr3 (record { va = va; pa = pa }) len prot s.mmu))
          twice mapped))
