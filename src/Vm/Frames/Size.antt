-- ===== src/Vm/Frames/Size.antt =====
-- Proofs on the size of the bitmap, `physmem_init_bitmap` of src/sys/vm/vm_seg.c.
use l5lunos.Prelude.{ℕ, ◌*◌, ◌%◌, ◌≤◌, ◌≡◌, ◌↔◌, false, ◌&&◌, leb, arith}
use l5lunos.Vm.Frames.{align_up, bitmap_size}

-- The bitmap has a bit for every frame exactly where the number of frames, modulo 32768, is not 1 to
-- 7: the size in bytes is rounded down before it is rounded up to a page.
pub bitmap_size_bounds :
    (highest : ℕ)
    → (highest ≤ 8 * bitmap_size highest)
      ↔ ((leb 1 (highest % 32768) && leb (highest % 32768) 7) ≡ false)
unfolding align_up
bitmap_size_bounds highest = ground arith
