-- ===== src/Proc/Elf/Segment.antt =====
-- Proofs on the segments that `elf64_do_load` of src/sys/os/os_elf64.c loads.
use l5lunos.Prelude.{
  ℕ, Bool, if◌then◌else◌, ◌+◌, ◌-◌, ◌*◌, ◌/◌, ◌%◌, ◌^◌, ◌≤◌, ◌<◌, ◌≡◌, ap, ◌∙◌, true, false, ◌&&◌,
  some, arith, ◌==◌, ltb, ◌∷◌, get_elem?, Bytes, length, take, drop, none, Option, refl,
}
use l5lunos.Prelude.Errno.{Ret, ok}
use l5lunos.Prelude.Int8.{ℤ}
use l5lunos.Vm.Frames.{Outcome, done, panicked, pagesize}
use l5lunos.Vm.Frames.Search.{FreeAt}
use l5lunos.Vm.Frames.Bits.{within}
use l5lunos.Vm.Frames.Count.{free_count}
use l5lunos.Vm.Mmu.{Mmu, on_done, is_set}
use l5lunos.Vm.Mmu.Translate.{Access, page_of}
use l5lunos.Vm.Mmu.Owned.{Owner, IsTree}
use l5lunos.Vm.Mmu.Refine.{View, view, mapping}
use l5lunos.Vm.Map.{MmuMap, Space, ranges_with}
use l5lunos.Vm.Map.Grants.{Keeps, Grants, no_run, grants, mmu_alloc-Grants}
use l5lunos.Vm.Map.Region.{Short, no_run_left, few_free}
use l5lunos.Vm.Map.Mmap.{mmap_view}
use l5lunos.Vm.Map.Given
use l5lunos.Vm.Map.Given.{MapsGiven, maps_given, vm_map-MapsGiven}
use l5lunos.Proc.Ranges.{align_up64}
use l5lunos.Proc.Elf.{
  Phdr, Loading, segment_prot, segment_len, mapped_segment, fill_segment, load_segment,
}

-- A segment with bytes of its own in the image, that fits in its memory and in the lower half of the
-- addresses.
pub record IsLoadable (image : Bytes) (ph : Phdr) : Type 0 where
  pub at_0 : 0 < ph.p_vaddr
  pub some_memory : 0 < ph.p_memsz
  pub fits : ph.p_filesz ≤ ph.p_memsz
  pub inside : ph.p_offset + ph.p_filesz ≤ length image
  pub size : ph.p_memsz < 2 ^ 48
  pub lower : ph.p_vaddr + segment_len ph + pagesize < 2 ^ 48

-- The bytes of a segment.
abbrev pub segment_bytes : Phdr → Bytes → Bytes
segment_bytes ph image = take ph.p_filesz (drop ph.p_offset image)

-- What the program header allows on a frame: the user may always read, PF_W is bit 1 and PF_X bit 0.
abbrev pub segment_access : Phdr → ℕ → Access
segment_access ph frame = record {
  frame = frame;
  writable = is_set ph.p_flags 2;
  user = true;
  executable = is_set ph.p_flags 1;
}

-- The view with `n` pages from `first` on mapped to the frames from `idx` on, and the page behind to none.
abbrev pub segment_view : Phdr → ℕ → ℕ → ℕ → View → View
segment_view ph first n idx w p =
    if p == first + n
    then none
    else if within first n p
    then some (segment_access ph (idx + (p - first)))
    else w p

-- The mapping to a frame by its number.
abbrev mapping_to : ℕ → ℕ → Option Access
mapping_to prot f =
    if is_set prot 1
    then some (record {
      frame = f;
      writable = is_set prot 2;
      user = is_set prot 8;
      executable = is_set prot 4;
    })
    else none

segment_flags :
    (w x : Bool) (f : ℕ)
    → mapping_to (9 + (if w then 2 else 0) + (if x then 4 else 0)) f
      ≡ some (record { frame = f; writable = w; user = true; executable = x })
segment_flags true true f = refl
segment_flags true false f = refl
segment_flags false true f = refl
segment_flags false false f = refl

segment_prot-mapping :
    (ph : Phdr) (idx k : ℕ)
    → mapping (segment_prot ph) (idx * pagesize + k * pagesize) ≡ some (segment_access ph (idx + k))
segment_prot-mapping ph idx k =
    let frame : (idx * pagesize + k * pagesize) / pagesize ≡ idx + k = omega arith in
    ap (mapping_to (segment_prot ph)) frame
    ∙ segment_flags (is_set ph.p_flags 2) (is_set ph.p_flags 1) (idx + k)

mmap_view-segment_view :
    (ph : Phdr) (first n idx : ℕ) (w : View) (p : ℕ)
    → mmap_view first n idx (segment_prot ph) w p ≡ segment_view ph first n idx w p
mmap_view-segment_view ph first n idx w p =
    ap (λ x. if p == first + n then none else if within first n p then x else w p)
      (segment_prot-mapping ph idx (p - first))

-- What the loading of a segment does: it panics where no run of its `n` frames is free, or fewer than
-- 5 * n + 4 frames; or the pages of the segment lead to a run of frames that were free, to which the bytes
-- of the segment were copied.
pub data Loads (own : Owner) (root : ℕ) (image : Bytes) (ph : Phdr) (l : Loading)
    : Outcome (Ret (Unit {0}) × Loading) → Type 0 where
  no_memory :
      Short (segment_len ph / pagesize) (5 * (segment_len ph / pagesize) + 4) l.space.mmu
      → Loads own root image ph l panicked
  loads :
      (own' : Owner) (idx : ℕ) {s' : Space}
      → IsTree own' root s'.mmu
      → FreeAt l.space.mmu.frames.bitmap idx (segment_len ph / pagesize)
      → ((k : ℕ)
          → k < segment_len ph / pagesize
          → get_elem? s'.mmu.frames.bitmap (idx + k) ≡ some true)
      → Keeps l.space.mmu s'.mmu
      → ((p : ℕ)
          → p < 2 ^ 36
          → view root s'.mmu.tables p
            ≡ segment_view ph
                (page_of ph.p_vaddr)
                (segment_len ph / pagesize)
                idx
                (view root l.space.mmu.tables)
                p)
      → ((s'.self, s'.heap)
          ≡ ranges_with
              (record { va = ph.p_vaddr; pa = idx * pagesize })
              (segment_len ph)
              l.space.self
              l.space.heap)
      → Loads own root image ph l (
          done (
            ok tt,
            record { space = s'; copies = (idx * pagesize, segment_bytes ph image) ∷ l.copies },
          ))

-- The memory of a segment has whole pages, and room for its bytes.
segment_len_lem :
    (ph : Phdr)
    → 0 < ph.p_memsz
    → ph.p_memsz < 2 ^ 48
    → (ph.p_memsz ≤ segment_len ph)
      × (segment_len ph % pagesize ≡ 0)
      × ((segment_len ph / pagesize == 0) ≡ false)
unfolding align_up64
segment_len_lem ph l b = (omega (arith, l, b), omega arith, ground (arith, l, b))

mapped-Loads :
    (own own1 : Owner) (root idx : ℕ) (image : Bytes) (ph : Phdr) (l : Loading) (m1 : Mmu)
    {o : Outcome (ℤ × MmuMap × Space)}
    → FreeAt l.space.mmu.frames.bitmap idx (segment_len ph / pagesize)
    → ((k : ℕ) → k < segment_len ph / pagesize → get_elem? m1.frames.bitmap (idx + k) ≡ some true)
    → Keeps l.space.mmu m1
    → ((p : ℕ) → view root m1.tables p ≡ view root l.space.mmu.tables p)
    → free_count l.space.mmu.frames ≤ free_count m1.frames + segment_len ph / pagesize
    → MapsGiven own1 root ph.p_vaddr
        (idx * pagesize)
        (segment_len ph / pagesize)
        (segment_len ph)
        (segment_prot ph)
        (record l.space { mmu = m1 })
        o
    → Loads own root image ph l
        (on_done o (mapped_segment ((idx * pagesize, segment_bytes ph image) ∷ l.copies)))
mapped-Loads own own1 root idx image ph l m1 f u k w c (Given.no_memory x) =
    no_memory (few_free (omega (arith, c, x)))
mapped-Loads own own1 root idx image ph l m1 f u k w c (maps_given own' v k' w' r) =
    loads own' idx v f (λ i h. k' (idx + i) (u i h)) (λ i h. k' i (k i h))
      (λ p h.
        w' p h
        ∙ ap
            (λ x.
              mmap_view (page_of ph.p_vaddr) (segment_len ph / pagesize) x (segment_prot ph)
                (view root m1.tables) p)
            (omega arith)
        ∙ ap
            (λ x.
              mmap_view (page_of ph.p_vaddr) (segment_len ph / pagesize) idx (segment_prot ph)
                (λ q. x) p)
            (w p)
        ∙ mmap_view-segment_view ph (page_of ph.p_vaddr) (segment_len ph / pagesize) idx
            (view root l.space.mmu.tables) p)
      r

filled-Loads :
    (own : Owner) (cr3 : ℕ) (image : Bytes) (ph : Phdr) (l : Loading) {o : Outcome (ℕ × Mmu)}
    → IsLoadable image ph
    → Grants own (cr3 / pagesize % 2 ^ 40) (segment_len ph / pagesize) l.space.mmu o
    → Loads own (cr3 / pagesize % 2 ^ 40) image ph l (on_done o (fill_segment cr3 image ph l))
filled-Loads own cr3 image ph l v (no_run x) = no_memory (no_run_left x)
filled-Loads own cr3 image ph l v
      (grants idx {m1 = m1} tree free above below used keeps same cost) =
    let (room, whole, some_pages) = segment_len_lem ph v.some_memory v.size in
    let frame : (idx * pagesize == 0) ≡ false = ground (arith, above) in
    let fits : ltb (segment_len ph / pagesize * pagesize) ph.p_filesz ≡ false =
      ground (arith, v.fits, room, whole) in
    let inside : ltb (length image) (ph.p_offset + ph.p_filesz) ≡ false =
      ground (arith, v.inside) in
    rw (frame, some_pages, fits, inside)
      (mapped-Loads own own (cr3 / pagesize % 2 ^ 40) idx image ph l m1 free used keeps same cost (
        vm_map-MapsGiven own cr3 ph.p_vaddr (idx * pagesize) (segment_len ph) (segment_prot ph)
          (record l.space { mmu = m1 }) tree v.at_0 (omega (arith, above))
          (omega (arith, room, v.some_memory)) whole v.lower (omega (arith, below, whole))))

-- On tables that are a tree, the loading of a segment with bytes in the image, that fits in its memory
-- and in the lower half of the addresses, panics only where, for its n pages, no run of n frames or fewer
-- than 5 * n + 4 frames are free. Otherwise its pages lead to the frames of a run that was free before and
-- is in use, to which the bytes of the segment were copied, for the user, and to be written and executed
-- as the program header says; the page behind them leads to none, and every other page to what it did; the
-- tables are a tree again, no frame that was in use is free, and the range is recorded for the current
-- process, if there is one and the heap has a block for it.
pub load_segment-Loads :
    (own : Owner) (cr3 : ℕ) (image : Bytes) (ph : Phdr) (l : Loading)
    → IsTree own (cr3 / pagesize % 2 ^ 40) l.space.mmu
    → IsLoadable image ph
    → Loads own (cr3 / pagesize % 2 ^ 40) image ph l (load_segment cr3 image ph l)
unfolding load_segment
load_segment-Loads own cr3 image ph l t v =
    let (room, whole, some_pages) = segment_len_lem ph v.some_memory v.size in
    let some_bytes : (ph.p_memsz == 0 && ph.p_filesz == 0) ≡ false =
      ground (arith, v.some_memory) in
    rw (some_bytes, some_pages)
      (filled-Loads own cr3 image ph l v (
        mmu_alloc-Grants own (cr3 / pagesize % 2 ^ 40) (segment_len ph / pagesize) l.space.mmu t
          (omega (arith, room, whole, v.some_memory))))
