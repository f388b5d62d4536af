-- ===== src/Vm/Frames/Restore.antt =====
-- Proofs on `vm_free_frame` of src/sys/vm/vm_seg.c behind an allocation.
use l5lunos.Prelude.{
  ℕ, ◌+◌, ◌-◌, ◌*◌, ◌/◌, ◌%◌, ◌^◌, ◌<◌, ◌≡◌, refl, sym, ap, ◌∙◌, inl, inr, Bool-cases, false, some,
  if◌then◌else◌, arith, get_elem?,
}
use l5lunos.Vm.Frames.{
  Frames, Outcome, done, pagesize, align_up, write_bits, vm_alloc_frame, count_used, vm_free_frame,
}
use l5lunos.Vm.Frames.Bits.{within, write_bits_lem, bits_ext}
use l5lunos.Vm.Frames.Grant.{IsValid, Takes, Allocates, no_memory, taken, vm_alloc_frame-Allocates}

-- The bits of a run that was taken and given back are as they were.
given_back :
    (count idx k : ℕ) (s s' : Frames)
    → Takes count idx s s'
    → (if within idx count k then some false else get_elem? s'.bitmap k) ≡ get_elem? s.bitmap k
given_back count idx k s s' t = elim (Bool-cases (within idx count k)) [
  | inl e ↦
      let z : idx + (k - idx) ≡ k = ground arith in
      rw e (sym (rw z at (t.free (k - idx) (ground arith))))
  | inr e ↦ simp e (t.bits k ∙ simp e refl)
]

free_run :
    (count idx : ℕ) (s s' : Frames)
    → IsValid s
    → Takes count idx s s'
    → write_bits false count idx s'.bitmap ≡ some s.bitmap
free_run count idx s s' v t =
    let (bm, e, n, b) =
      write_bits_lem false count idx s'.bitmap (omega (arith, t.same_size, t.below, v.covered)) in
    e ∙ ap some (bits_ext bm s.bitmap (λ k. b k ∙ given_back count idx k s s' t))

-- What is left of a state after an allocation and the release of what it gave.
pub record Restored (s s'' : Frames) : Type 0 where
  pub bitmap : s''.bitmap ≡ s.bitmap
  pub used : s''.pages_used ≡ s.pages_used % 2 ^ 64
  pub free : s''.pages_free ≡ s.pages_free % 2 ^ 64

free-taken :
    (count idx : ℕ) (s s' : Frames)
    → IsValid s
    → Takes count idx s s'
    → (s'' : Frames) × (vm_free_frame (idx * pagesize) count (count_used count s') ≡ done s'')
      × Restored s s''
unfolding vm_free_frame align_up
free-taken count idx s s' v t =
    let start : (idx * pagesize + (pagesize - 1)) / pagesize * pagesize / pagesize ≡ idx =
      omega arith in
    let rounds : (idx * pagesize
            + count * pagesize
            - (idx * pagesize + (pagesize - 1)) / pagesize * pagesize
            + (pagesize - 1))
          / pagesize
        ≡ count =
      omega arith in
    let s1 = count_used count s' in
    (
      record s1 {
        bitmap = s.bitmap;
        pages_used = (s1.pages_used + 2 ^ 64 - count % 2 ^ 64) % 2 ^ 64;
        pages_free = (s1.pages_free + count) % 2 ^ 64;
      },
      simp (start, rounds, free_run count idx s s' v t) refl,
      record {
        bitmap = refl;
        used = omega (arith, t.same_used);
        free = omega (arith, t.same_free);
      },
    )

restored :
    (count base : ℕ) (s r : Frames) {o : Outcome (ℕ × Frames)}
    → IsValid s
    → Allocates count s o
    → o ≡ done (base, r)
    → (s'' : Frames) × (vm_free_frame base count r ≡ done s'') × Restored s s''
restored count base s r v (no_memory f) e = cc
restored count base s r v (taken idx {s'} t w) e =
    let b : idx * pagesize ≡ base = cc in
    let m : count_used count s' ≡ r = cc in rw (← b, ← m) (free-taken count idx s s' v t)

-- Where the bitmap covers the frames and frame 0 is in use, and an allocation of one frame or more
-- gives an address, the release of that address and so many frames ends, the bitmap is as it was
-- before the two, and so are the counters, modulo 2^64.
pub vm_free_frame-vm_alloc_frame :
    (count base : ℕ) (s s' : Frames)
    → IsValid s
    → 0 < count
    → vm_alloc_frame count s ≡ done (base, s')
    → (s'' : Frames) × (vm_free_frame base count s' ≡ done s'') × Restored s s''
vm_free_frame-vm_alloc_frame count base s s' v h e =
    restored count base s s' v (vm_alloc_frame-Allocates count s v h) e
