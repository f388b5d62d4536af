-- ===== src/Vm/Frames/Grant.antt =====
-- Proofs on `vm_alloc_frame` and `vm_free_frame` of src/sys/vm/vm_seg.c.
use l5lunos.Prelude.{
  ℕ, zero, suc, ◌+◌, ◌-◌, ◌*◌, ◌≤◌, ◌<◌, ◌≡◌, refl, ◌∙◌, inl, inr, Bool-cases, Bool, true, false,
  Option, none, some, List, leb, ◌==◌, ==-refl, if◌then◌else◌, arith, get_elem?, length, drop,
  length-drop,
}
use l5lunos.Vm.Frames.{
  Frames, Outcome, done, panicked, pagesize, write_bits, take_run, marked, alloc_run, handed_out,
  again_from_0, vm_alloc_frame, count_used,
}
use l5lunos.Vm.Frames.Bits.{within, write_bits_lem}
use l5lunos.Vm.Frames.Search.{
  FreeAt, no_run, Finds, nothing, found, drop-IsTail, find_run-Finds, find_run-Succeeds,
}

-- The bitmap covers the frames, and frame 0 is in use.
pub record IsValid (s : Frames) : Type 0 where
  pub covered : s.highest_frame_idx ≤ length s.bitmap
  pub last : s.last_idx ≤ s.highest_frame_idx
  pub zero_used : get_elem? s.bitmap 0 ≡ some true

-- `s'` is `s` with `count` frames from `idx` on, which were free, in use.
pub record Takes (count idx : ℕ) (s s' : Frames) : Type 0 where
  pub above_0 : 0 < idx
  pub below : idx + count ≤ s.highest_frame_idx
  pub free : FreeAt s.bitmap idx count
  pub same_size : length s'.bitmap ≡ length s.bitmap
  pub bits :
      (k : ℕ)
      → get_elem? s'.bitmap k ≡ (if within idx count k then some true else get_elem? s.bitmap k)
  pub same_highest : s'.highest_frame_idx ≡ s.highest_frame_idx
  pub new_last : s'.last_idx ≡ idx
  pub same_used : s'.pages_used ≡ s.pages_used
  pub same_free : s'.pages_free ≡ s.pages_free

FreeAt-above_0 : (s : Frames) (j n : ℕ) → IsValid s → 0 < n → FreeAt s.bitmap j n → 0 < j
FreeAt-above_0 s zero n v h f = cc (f 0 h, v.zero_used)
FreeAt-above_0 s (suc j) n v h f = omega arith

-- A single search: it fails and changes nothing, or takes a run.
data Runs (count : ℕ) (s : Frames) : Option (ℕ × Frames) → Type 0 where
  fails : Runs count s (some (0, s))
  takes : (idx : ℕ) {s' : Frames} → Takes count idx s s' → Runs count s (some (idx * pagesize, s'))

marked-Runs :
    (count idx : ℕ) (s : Frames)
    → IsValid s
    → 0 < count
    → idx + count ≤ s.highest_frame_idx
    → FreeAt s.bitmap idx count
    → Runs count s (marked idx s (write_bits true count idx s.bitmap))
marked-Runs count idx s v h l f =
    let (bm, e, n, b) = write_bits_lem true count idx s.bitmap (omega (arith, l, v.covered)) in
    rw e (
      takes idx (record {
        above_0 = FreeAt-above_0 s idx count v h f;
        below = l;
        free = f;
        same_size = n;
        bits = b;
        same_highest = refl;
        new_last = refl;
        same_used = refl;
        same_free = refl;
      }))

take_run-Runs :
    (count m : ℕ) (s : Frames) {o : Option (Option ℕ × ℕ)}
    → IsValid s
    → 0 < count
    → m ≤ s.highest_frame_idx
    → Finds s.bitmap m o
    → Runs count s (take_run count s o)
take_run-Runs count m s v h l nothing = fails
take_run-Runs count m s v h l (found j n k f) = elim (Bool-cases (n == count)) [
  | inl e ↦
      let same : n ≡ count = ground arith in
      simp e (
        marked-Runs count j s v h (omega (arith, same, k, l)) (λ i p. f i (omega (arith, same, p))))
  | inr e ↦ simp e fails
]

alloc_run-Runs : (count : ℕ) (s : Frames) → IsValid s → 0 < count → Runs count s (alloc_run count s)
unfolding alloc_run
alloc_run-Runs count s v h =
    take_run-Runs count (s.last_idx + (s.highest_frame_idx - s.last_idx)) s v h
      (omega (arith, v.last))
      (find_run-Finds s.bitmap (s.highest_frame_idx - s.last_idx) s.last_idx
        (drop s.last_idx s.bitmap) count none 0 (drop-IsTail s.bitmap s.last_idx)
        (omega (arith, length-drop s.last_idx s.bitmap, v.covered)) no_run)

Finds-found :
    (bm : List Bool) (m j n : ℕ) → Finds bm m (some (some j, n)) → (j + n ≤ m) × FreeAt bm j n
Finds-found bm m j n (found _ _ k f) = (k, f)

-- A search from frame 0 succeeds where there is a run.
alloc_run-from_0 :
    (count j : ℕ) (s : Frames)
    → IsValid s
    → 0 < count
    → s.last_idx ≡ 0
    → FreeAt s.bitmap j count
    → j + count ≤ s.highest_frame_idx
    → (ret : ℕ) × (s' : Frames) × (alloc_run count s ≡ some (ret, s')) × (0 < ret)
unfolding alloc_run
alloc_run-from_0 count j s v h z f l =
    let n = s.highest_frame_idx in
    let (i, e) = find_run-Succeeds n 0 s.bitmap count none 0 j h f l in
    let got =
      find_run-Finds s.bitmap n 0 s.bitmap count none 0 (drop-IsTail s.bitmap 0) v.covered no_run in
    let (k, g) = Finds-found s.bitmap (0 + n) i count (rw e at got) in
    let (bm, w, _, _) = write_bits_lem true count i s.bitmap (omega (arith, k, v.covered)) in
    let pos : 0 < i = FreeAt-above_0 s i count v h g in
    let all : n - 0 ≡ n = omega arith in
    (
      i * pagesize,
      record s { bitmap = bm; last_idx = i },
      simp (z, all, e, ==-refl count, w) refl,
      omega (arith, pos),
    )

Takes-IsValid :
    (count idx : ℕ) (s s' : Frames)
    → IsValid s
    → Takes count idx s s'
    → IsValid (count_used count s')
Takes-IsValid count idx s s' v t = record {
  covered = omega (arith, t.same_highest, t.same_size, v.covered);
  last = omega (arith, t.same_highest, t.new_last, t.below);
  zero_used = t.bits 0 ∙ ground (arith, t.above_0, v.zero_used);
}

-- What an allocation comes to. It panics, where no run of `count` free frames is in the bitmap; or
-- it gives the address of a run that it takes, and moves the counters.
pub data Allocates (count : ℕ) (s : Frames) : Outcome (ℕ × Frames) → Type 0 where
  no_memory :
      ((j : ℕ) → FreeAt s.bitmap j count → s.highest_frame_idx < j + count)
      → Allocates count s panicked
  taken :
      (idx : ℕ) {s' : Frames}
      → Takes count idx s s'
      → IsValid (count_used count s')
      → Allocates count s (done (idx * pagesize, count_used count s'))

handed_out-Allocates :
    (count idx : ℕ) (s s' : Frames)
    → IsValid s
    → Takes count idx s s'
    → Allocates count s (handed_out count (some (idx * pagesize, s')))
handed_out-Allocates count idx s s' v t =
    let e : (idx * pagesize == 0) ≡ false = ground (arith, t.above_0) in
    simp e (taken idx t (Takes-IsValid count idx s s' v t))

second-Allocates :
    (count : ℕ) (s : Frames) (o : Option (ℕ × Frames))
    → IsValid s
    → 0 < count
    → alloc_run count (record s { last_idx = 0 }) ≡ o
    → Runs count (record s { last_idx = 0 }) o
    → Allocates count s (handed_out count o)
second-Allocates count s _ v h e fails = no_memory λ j f.
    elim (Bool-cases (leb (j + count) s.highest_frame_idx)) [
      | inl b ↦
          let s0 : Frames = record s { last_idx = 0 } in
          let v0 : IsValid s0 = record {
            covered = v.covered;
            last = omega arith;
            zero_used = v.zero_used;
          } in
          let (ret, s', g, p) = alloc_run-from_0 count j s0 v0 h refl f (ground arith) in
          let same : ret ≡ 0 = cc in absurd (omega (arith, p, same))
      | inr b ↦ ground arith
    ]
second-Allocates count s _ v h e (takes idx {s'} t) =
    handed_out-Allocates count idx s s' v (record {
      above_0 = t.above_0;
      below = t.below;
      free = t.free;
      same_size = t.same_size;
      bits = t.bits;
      same_highest = t.same_highest;
      new_last = t.new_last;
      same_used = t.same_used;
      same_free = t.same_free;
    })

first-Allocates :
    (count : ℕ) (s : Frames) {o : Option (ℕ × Frames)}
    → IsValid s
    → 0 < count
    → Runs count s o
    → Allocates count s (handed_out count (again_from_0 count o))
first-Allocates count s v h fails =
    let s0 : Frames = record s { last_idx = 0 } in
    let v0 : IsValid s0 = record {
      covered = v.covered;
      last = omega arith;
      zero_used = v.zero_used;
    } in
    second-Allocates count s (alloc_run count s0) v h refl (alloc_run-Runs count s0 v0 h)
first-Allocates count s v h (takes idx {s'} t) =
    let e : (idx * pagesize == 0) ≡ false = ground (arith, t.above_0) in
    rw e (handed_out-Allocates count idx s s' v t)

-- Where the bitmap covers the frames and frame 0 is in use, an allocation of one frame or more panics
-- only if the bitmap has no run of so many free frames, and otherwise gives the address of a run that
-- was free, and is then in use, with no other bit changed and the counters moved; the bitmap still
-- covers the frames, and frame 0 is in use.
pub vm_alloc_frame-Allocates :
    (count : ℕ) (s : Frames) → IsValid s → 0 < count → Allocates count s (vm_alloc_frame count s)
unfolding vm_alloc_frame
vm_alloc_frame-Allocates count s v h = first-Allocates count s v h (alloc_run-Runs count s v h)
