-- ===== src/Vm/Map/Grants.antt =====
-- Proofs on the frames that `vm_alloc_frame` of src/sys/vm/vm_seg.c gives, beside the tables of an address
-- space.
use l5lunos.Prelude.{
  ℕ, ◌+◌, ◌-◌, ◌*◌, ◌/◌, ◌%◌, ◌^◌, ◌≤◌, ◌<◌, ◌≡◌, refl, sym, ap, ◌∙◌, zero, suc, Bool-cases, inl,
  inr, ltb, leb, ◌&&◌, true, false, some, arith, get_elem?,
}
use l5lunos.Vm.Frames.{Frames, Outcome, done, panicked, pagesize, count_used}
use l5lunos.Vm.Frames.Bits.{within}
use l5lunos.Vm.Frames.Search.{FreeAt}
use l5lunos.Vm.Frames.Count.{free_count, Takes-free_count}
use l5lunos.Vm.Frames.Grant
use l5lunos.Vm.Frames.Grant.{Allocates, taken, vm_alloc_frame-Allocates}
use l5lunos.Vm.Mmu.{is_present, Mmu, Tables, on_done, mmu_alloc, zeroed_at, zero_frames}
use l5lunos.Vm.Mmu.Translate.{prefix, look, look-same}
use l5lunos.Vm.Mmu.Owned.{Owner, IsTree}
use l5lunos.Vm.Mmu.Refine.{view}

-- What was so before a loop that keeps the frames in use stays so.
abbrev pub Keeps : Mmu → Mmu → Type 0
Keeps m m' =
    (k : ℕ) → get_elem? m.frames.bitmap k ≡ some true → get_elem? m'.frames.bitmap k ≡ some true

-- Tables that agree where there are owners translate the same.
module _ (own : Owner) (root : ℕ) (m : Mmu) (t' : Tables) (v : IsTree own root m)
    (same : (f j : ℕ) (x : ℕ × ℕ) → own f ≡ some x → t' f j ≡ m.tables f j) where
  look-agree : (n p f q : ℕ) → own f ≡ some (n, q) → look n p f t' ≡ look n p f m.tables
  unfolding look
  look-agree zero p f q o = refl
  look-agree (suc zero) p f q o = look-same zero p f m.tables t' (same f _ _ o) (λ z. refl)
  look-agree (suc (suc n)) p f q o =
      look-same (suc n) p f m.tables t' (same f _ _ o)
        λ z. look-agree (suc n) p _ _ (v.child f (prefix (suc n + 0) p % 512) n q o (omega arith) z)

  agree-IsTree :
      (s : Frames)
      → Grant.IsValid s
      → s.highest_frame_idx ≡ m.frames.highest_frame_idx
      → ((k : ℕ) → get_elem? m.frames.bitmap k ≡ some true → get_elem? s.bitmap k ≡ some true)
      → IsTree own root (record { frames = s; tables = t' })
  agree-IsTree s vs h u = record {
    at_root = v.at_root;
    child = λ f i k q o l p.
        let e = same f i _ o in
        ap (λ w. own w.frame) e ∙ v.child f i k q o l (sym (ap is_present e) ∙ p);
    used = λ f k q o. u f (v.used f k q o);
    valid = vs;
    small = omega (arith, h, v.small);
  }

zero_frames-owned :
    (own : Owner) (root n idx : ℕ) (m : Mmu)
    → IsTree own root m
    → FreeAt m.frames.bitmap idx n
    → (f j : ℕ) (x : ℕ × ℕ) → own f ≡ some x
    → zero_frames idx n m.tables f j ≡ m.tables f j
unfolding zero_frames
zero_frames-owned own root n idx m v h f j (k, q) o =
    elim (Bool-cases (leb idx f && ltb f (idx + n))) [
      | inl e ↦
          let free : get_elem? m.frames.bitmap f ≡ some false =
            ap (get_elem? m.frames.bitmap) (ground (arith, e)) ∙ h (f - idx) (ground (arith, e)) in
          absurd (cc (v.used f k q o, free))
      | inr e ↦ rw e refl
    ]

-- No run of `n` free frames is in the bitmap.
abbrev pub NoRun : ℕ → Mmu → Type 0
NoRun n m = (j : ℕ) → FreeAt m.frames.bitmap j n → m.frames.highest_frame_idx < j + n

-- What an allocation of `n` frames does to the tables of an address space.
pub data Grants (own : Owner) (root n : ℕ) (m : Mmu) : Outcome (ℕ × Mmu) → Type 0 where
  no_run : NoRun n m → Grants own root n m panicked
  grants :
      (idx : ℕ) {m1 : Mmu}
      → IsTree own root m1
      → FreeAt m.frames.bitmap idx n
      → 0 < idx
      → idx + n ≤ 2 ^ 40
      → ((k : ℕ) → k < n → get_elem? m1.frames.bitmap (idx + k) ≡ some true)
      → Keeps m m1
      → ((p : ℕ) → view root m1.tables p ≡ view root m.tables p)
      → free_count m.frames ≤ free_count m1.frames + n
      → Grants own root n m (done (idx * pagesize, m1))

zeroed_at-Grants :
    (own : Owner) (root n : ℕ) (m : Mmu) {o : Outcome (ℕ × Frames)}
    → IsTree own root m
    → Allocates n m.frames o
    → Grants own root n m (on_done o (zeroed_at n m))
zeroed_at-Grants own root n m v (Grant.no_memory h) = no_run h
zeroed_at-Grants own root n m v (taken idx {s'} t v') =
    let t' : Tables = zero_frames idx n m.tables in
    let m1 : Mmu = record { frames = count_used n s'; tables = t' } in
    let back : idx * pagesize / pagesize ≡ idx = omega arith in
    let same = zero_frames-owned own root n idx m v t.free in
    let keeps : Keeps m m1 = λ k h. ground (arith, t.bits k, h) in
    let tree = agree-IsTree own root m t' v same (count_used n s') v' t.same_highest keeps in
    let inside : (k : ℕ) → k < n → within idx n (idx + k) ≡ true = λ k h. ground (arith, h) in
    rw back (
      grants idx {m1 = m1} tree t.free (ground (arith, t.above_0)) (omega (arith, t.below, v.small))
        (λ k h. t.bits (idx + k) ∙ rw (inside k h) refl) keeps
        (λ p. look-agree own root m t' v same 4 p root 0 v.at_root)
        (Takes-free_count n idx m.frames s' t))

pub mmu_alloc-Grants :
    (own : Owner) (root n : ℕ) (m : Mmu)
    → IsTree own root m
    → 0 < n
    → Grants own root n m (mmu_alloc n m)
unfolding mmu_alloc
mmu_alloc-Grants own root n m v l =
    zeroed_at-Grants own root n m v (vm_alloc_frame-Allocates n m.frames v.valid l)
