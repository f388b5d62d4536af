-- ===== src/Proc/Elf/Program.antt =====
-- Proofs on `elf64_do_load` of src/sys/os/os_elf64.c: the segments of a program, one after the other.
use l5lunos.Prelude.{
  ℕ, suc, ◌+◌, ◌*◌, ◌/◌, ◌%◌, ◌^◌, ◌<◌, ◌≡◌, true, false, some, List, [], ◌∷◌, ◌++◌, ◌==◌,
  get_elem?, Bytes,
}
use l5lunos.Prelude.Errno.{Ret, ok}
use l5lunos.Vm.Frames.{Outcome, done, panicked, pagesize}
use l5lunos.Vm.Frames.Search.{FreeAt}
use l5lunos.Vm.Mmu.Translate.{page_of}
use l5lunos.Vm.Mmu.Owned.{Owner, IsTree}
use l5lunos.Vm.Mmu.Refine.{view}
use l5lunos.Vm.Map.{Space}
use l5lunos.Vm.Map.Grants.{Keeps}
use l5lunos.Vm.Map.Region.{Short}
use l5lunos.Proc.Elf.{Phdr, load_segment, Loading, read_field, get_phdr, segment_len}
use l5lunos.Proc.Elf.Segment
use l5lunos.Proc.Elf.Segment.{IsLoadable, segment_bytes, segment_view}

-- The segments among `n` program headers of `size` bytes from the offset `off` on, which can all be
-- loaded.
pub data HasSegments (image : Bytes) (size : ℕ) : ℕ → ℕ → List Phdr → Type 0 where
  at_end : {off : ℕ} → HasSegments image size 0 off []
  other :
      {n off type : ℕ} {phs : List Phdr}
      → read_field off 4 image ≡ some type
      → (type == 1) ≡ false
      → HasSegments image size n (off + size) phs
      → HasSegments image size (suc n) off phs
  segment :
      {n off : ℕ} {ph : Phdr} {phs : List Phdr}
      → read_field off 4 image ≡ some 1
      → get_phdr off image ≡ some ph
      → IsLoadable image ph
      → HasSegments image size n (off + size) phs
      → HasSegments image size (suc n) off (ph ∷ phs)

-- The steps from one state to another that load the segments, each to the run of frames from its
-- number on.
pub data ProgramSteps (cr3 : ℕ) (image : Bytes)
    : List Phdr → List ℕ → Loading → Loading → Type 0 where
  no_segment : {l : Loading} → ProgramSteps cr3 image [] [] l l
  with_segment :
      {ph : Phdr} {phs : List Phdr} {idx : ℕ} {idxs : List ℕ} {l l1 l' : Loading}
      → load_segment cr3 image ph l ≡ done (ok tt, l1)
      → FreeAt l.space.mmu.frames.bitmap idx (segment_len ph / pagesize)
      → ((k : ℕ)
          → k < segment_len ph / pagesize
          → get_elem? l1.space.mmu.frames.bitmap (idx + k) ≡ some true)
      → Keeps l.space.mmu l1.space.mmu
      → ((p : ℕ)
          → p < 2 ^ 36
          → view (cr3 / pagesize % 2 ^ 40) l1.space.mmu.tables p
            ≡ segment_view ph
                (page_of ph.p_vaddr)
                (segment_len ph / pagesize)
                idx
                (view (cr3 / pagesize % 2 ^ 40) l.space.mmu.tables)
                p)
      → ProgramSteps cr3 image phs idxs l1 l'
      → ProgramSteps cr3 image (ph ∷ phs) (idx ∷ idxs) l l'

-- The copies of the segments, the last first, before those that were made.
unfoldable pub segment_copies : Bytes → List Phdr → List ℕ → List (ℕ × Bytes) → List (ℕ × Bytes)
segment_copies image (ph ∷ phs) (idx ∷ idxs) copies =
    segment_copies image phs idxs ((idx * pagesize, segment_bytes ph image) ∷ copies)
segment_copies image _ _ copies = copies

-- What the loading of a program does: it panics behind some of the segments, where the next wants for
-- frames, or every segment is at frames of its own.
pub data LoadsAll (own : Owner) (cr3 : ℕ) (image : Bytes) (phs : List Phdr) (l : Loading)
    : Outcome (Ret (Unit {0}) × Loading) → Type 0 where
  no_memory :
      (loaded rest : List Phdr) (ph : Phdr) (idxs : List ℕ) (l1 : Loading)
      → phs ≡ loaded ++ ph ∷ rest
      → ProgramSteps cr3 image loaded idxs l l1
      → Short (segment_len ph / pagesize) (5 * (segment_len ph / pagesize) + 4) l1.space.mmu
      → LoadsAll own cr3 image phs l panicked
  loads_all :
      (own' : Owner) (idxs : List ℕ) {s' : Space}
      → IsTree own' (cr3 / pagesize % 2 ^ 40) s'.mmu
      → Keeps l.space.mmu s'.mmu
      → ProgramSteps cr3 image phs idxs l
          (record { space = s'; copies = segment_copies image phs idxs l.copies })
      → LoadsAll own cr3 image phs l
          (done (ok tt, record { space = s'; copies = segment_copies image phs idxs l.copies }))
