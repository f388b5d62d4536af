-- ===== src/Vm/Frames/Count.antt =====
-- How many frames are free in the bitmap of src/sys/vm/vm_seg.c, and what an allocation takes of them.
use l5lunos.Prelude.{
  ℕ, zero, suc, ◌+◌, ◌-◌, ◌≤◌, ◌<◌, ◌≡◌, refl, inl, inr, Bool-cases, Bool, true, false, Option,
  none, some, List, arith, min, if◌then◌else◌, get_elem?,
}
use l5lunos.Vm.Frames.{Frames, count_used}
use l5lunos.Vm.Frames.Bits.{within}
use l5lunos.Vm.Frames.Search.{FreeAt}
use l5lunos.Vm.Frames.Grant.{Takes}

abbrev pub is_free : Option Bool → Bool
is_free (some false) = true
is_free _ = false

-- The free frames below frame `n`.
unfoldable pub free_below : ℕ → List Bool → ℕ
free_below zero bm = 0
free_below (suc n) bm = free_below n bm + (if is_free (get_elem? bm n) then 1 else 0)

abbrev pub free_count : Frames → ℕ
free_count s = free_below s.highest_frame_idx s.bitmap

is_free-some : (o : Option Bool) → is_free o ≡ true → o ≡ some false
is_free-some none h = absurd (cc h)
is_free-some (some true) h = absurd (cc h)
is_free-some (some false) h = refl

free_below-taken :
    (n idx count : ℕ) (bm bm' : List Bool)
    → ((k : ℕ) → get_elem? bm' k ≡ (if within idx count k then some true else get_elem? bm k))
    → free_below n bm ≤ free_below n bm' + min (n - idx) count
unfolding free_below
free_below-taken zero idx count bm bm' h = omega arith
free_below-taken (suc n) idx count bm bm' h =
    let ih = free_below-taken n idx count bm bm' h in
    elim (Bool-cases (within idx count n)) [
      | inl e ↦ ground (arith, ih, e)
      | inr e ↦
          let same : get_elem? bm' n ≡ get_elem? bm n = rw e at (h n) in rw same (omega (arith, ih))
    ]

-- An allocation takes no more frames than it was asked for.
pub Takes-free_count :
    (count idx : ℕ) (s s' : Frames)
    → Takes count idx s s'
    → free_count s ≤ free_count (count_used count s') + count
Takes-free_count count idx s s' t =
    rw (t.same_highest)
      (omega (arith, free_below-taken s.highest_frame_idx idx count s.bitmap s'.bitmap t.bits))

free_below-none :
    (n h : ℕ) (bm : List Bool) → ((j : ℕ) → FreeAt bm j 1 → h < j + 1) → n ≤ h → free_below n bm ≡ 0
unfolding free_below
free_below-none zero h bm f l = refl
free_below-none (suc n) h bm f l =
    let ih = free_below-none n h bm f (omega (arith, l)) in
    elim (Bool-cases (is_free (get_elem? bm n))) [
      | inl e ↦
          let free : FreeAt bm n 1 = λ k i.
            let same : n + k ≡ n = omega (arith, i) in rw same (is_free-some (get_elem? bm n) e) in
          absurd (omega (arith, f n free, l))
      | inr e ↦ rw (ih, e) refl
    ]

-- Where no frame can be given, none is free.
pub free_count-none :
    (s : Frames) → ((j : ℕ) → FreeAt s.bitmap j 1 → s.highest_frame_idx < j + 1) → free_count s ≡ 0
free_count-none s f =
    free_below-none s.highest_frame_idx s.highest_frame_idx s.bitmap f (omega arith)
