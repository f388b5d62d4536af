-- ===== src/Vm/Frames.antt =====
-- The allocator of page frames, src/sys/vm/vm_seg.c. The bitmap is the list of its bits, those of a
-- byte from the lowest on; a set bit is a frame in use. A bit past the end is a fault. What the
-- frames hold, and the lock, have no counterpart here.
pub mod Bits
pub mod Search
pub mod Grant
pub mod Count
pub mod Restore
pub mod Size
use l5lunos.Prelude.{
  ℕ, zero, suc, ◌+◌, ◌-◌, ◌*◌, ◌/◌, ◌%◌, ◌^◌, Bool, true, false, Option, none, some, List, [], ◌∷◌,
  leb, ltb, ◌==◌, if◌then◌else◌, ◌>>=◌, get_elem?, set, length, drop, replicate,
}

-- A limine_memmap_entry, with whether its type is LIMINE_MEMMAP_USABLE.
pub record MemEntry : Type 0 where
  pub base : ℕ
  pub size : ℕ
  pub usable : Bool

-- The variables of the file.
pub record Frames : Type 0 where
  pub bitmap : List Bool
  pub highest_frame_idx : ℕ
  pub last_idx : ℕ
  pub pages_free : ℕ
  pub pages_used : ℕ
  pub pages_total : ℕ
  pub bitmap_free_start : ℕ

-- What a call comes to: it returns, it reads or writes past the bitmap, or the kernel panics.
pub data Outcome (A : Type 0) : Type 0 where
  done : A → Outcome A
  fault panicked : Outcome A

-- DEFAULT_PAGESIZE
abbrev pub pagesize : ℕ
pagesize = 4096

-- ALIGN_UP(value, DEFAULT_PAGESIZE)
unfoldable pub align_up : ℕ → ℕ
align_up value = (value + (pagesize - 1)) / pagesize * pagesize

-- `setbit` and `clrbit`
unfoldable pub write_bit : Bool → ℕ → List Bool → Option (List Bool)
write_bit v i bm = if ltb i (length bm) then some (set bm i v) else none

-- A loop of `setbit`, or of `clrbit`, over `n` frames from `i` on.
unfoldable pub write_bits : Bool → ℕ → ℕ → List Bool → Option (List Bool)
write_bits v zero i bm = some bm
write_bits v (suc n) i bm = write_bit v i bm >>= λ bm'. write_bits v n (i + 1) bm'

-- `if (idx < 0) idx = i`
abbrev pub start_run : Option ℕ → ℕ → Option ℕ
start_run none i = some i
start_run (some j) i = some j

-- The search of `__vm_alloc_frame`, with `n` frames left to look at: `idx` and `frames` behind it.
-- The list is the bitmap from frame `i` on; `none` is a fault.
unfoldable pub find_run : ℕ → ℕ → List Bool → ℕ → Option ℕ → ℕ → Option (Option ℕ × ℕ)
find_run zero i bits count idx frames = some (idx, frames)
find_run (suc n) i [] count idx frames = none
find_run (suc n) i (true ∷ bits) count idx frames = find_run n (i + 1) bits count none 0
find_run (suc n) i (false ∷ bits) count idx frames =
    let rest = find_run n (i + 1) bits count (start_run idx i) (frames + 1) in
    if leb count (frames + 1) then some (start_run idx i, frames + 1) else rest

abbrev pub marked : ℕ → Frames → Option (List Bool) → Option (ℕ × Frames)
marked idx s none = none
marked idx s (some bm) = some (idx * pagesize, record s { bitmap = bm; last_idx = idx })

abbrev pub take_run : ℕ → Frames → Option (Option ℕ × ℕ) → Option (ℕ × Frames)
take_run count s none = none
take_run count s (some (none, frames)) = some (0, s)
take_run count s (some (some idx, frames)) =
    if frames == count then marked idx s (write_bits true count idx s.bitmap) else some (0, s)

-- `__vm_alloc_frame`: the address of the frames, 0 where there are none; `none` is a fault.
unfoldable pub alloc_run : ℕ → Frames → Option (ℕ × Frames)
alloc_run count s =
    take_run count s (
      find_run (s.highest_frame_idx - s.last_idx) s.last_idx (drop s.last_idx s.bitmap) count none
        0)

-- `size_t` arithmetic on the counters.
abbrev pub count_used : ℕ → Frames → Frames
count_used count s = record s {
  pages_used = (s.pages_used + count) % 2 ^ 64;
  pages_free = (s.pages_free + 2 ^ 64 - count % 2 ^ 64) % 2 ^ 64;
}

abbrev pub handed_out : ℕ → Option (ℕ × Frames) → Outcome (ℕ × Frames)
handed_out count none = fault
handed_out count (some (ret, s)) = if ret == 0 then panicked else done (ret, count_used count s)

abbrev pub again_from_0 : ℕ → Option (ℕ × Frames) → Option (ℕ × Frames)
again_from_0 count none = none
again_from_0 count (some (ret, s)) =
    if ret == 0 then alloc_run count (record s { last_idx = 0 }) else some (ret, s)

unfoldable pub vm_alloc_frame : ℕ → Frames → Outcome (ℕ × Frames)
vm_alloc_frame count s = handed_out count (again_from_0 count (alloc_run count s))

abbrev pub cleared : ℕ → Frames → Option (List Bool) → Outcome Frames
cleared count s none = fault
cleared count s (some bm) = done (record s {
  bitmap = bm;
  pages_used = (s.pages_used + 2 ^ 64 - count % 2 ^ 64) % 2 ^ 64;
  pages_free = (s.pages_free + count) % 2 ^ 64;
})

-- The rounds of the loop from the aligned base to `stop_at`, a page each.
abbrev pub free_rounds : ℕ → ℕ → ℕ
free_rounds base count = (base + count * pagesize - align_up base + (pagesize - 1)) / pagesize

unfoldable pub vm_free_frame : ℕ → ℕ → Frames → Outcome Frames
vm_free_frame base count s =
    cleared count s (write_bits false (free_rounds base count) (align_up base / pagesize) s.bitmap)

-- `physmem_init_bitmap`: the end of the highest usable entry.
unfoldable pub highest_addr : List MemEntry → ℕ → ℕ
highest_addr [] h = h
highest_addr (e ∷ es) h =
    highest_addr es
      (if e.usable then (if ltb (e.base + e.size) h then h else e.base + e.size) else h)

abbrev pub bitmap_size : ℕ → ℕ
bitmap_size highest = align_up (highest / 8)

-- `physmem_alloc_bitmap`: the first usable entry that is large enough gives up its start. `none`
-- means that there is no such entry, and that `bitmap` stays NULL.
unfoldable pub alloc_bitmap : ℕ → List MemEntry → Option (List MemEntry)
alloc_bitmap size [] = none
alloc_bitmap size (e ∷ es) =
    let rest = alloc_bitmap size es >>= λ es'. some (e ∷ es') in
    if e.usable
    then (if leb size e.size
        then some (record e { base = e.base + size; size = e.size - size } ∷ es)
        else rest)
    else rest

abbrev pub free_entry : MemEntry → Frames → Option (List Bool) → Option Frames
free_entry e s none = none
free_entry e s (some bm) = some (record s {
  bitmap = bm;
  pages_total = s.pages_total + e.size / pagesize;
  pages_free = s.pages_free + e.size / pagesize;
  bitmap_free_start = if s.bitmap_free_start == 0 then e.base / pagesize else s.bitmap_free_start;
})

-- `physmem_populate_bitmap`: the frames of the usable entries are cleared.
unfoldable pub populate_bitmap : List MemEntry → Frames → Option Frames
populate_bitmap [] s = some s
populate_bitmap (e ∷ es) s =
    let unusable = populate_bitmap es (record s {
      pages_total = s.pages_total + e.size / pagesize;
      pages_used = s.pages_used + e.size / pagesize;
    }) in
    let clear =
      free_entry e s
        (write_bits false ((e.size + (pagesize - 1)) / pagesize) (e.base / pagesize) s.bitmap)
      >>= λ s'. populate_bitmap es s' in
    if e.usable then clear else unusable

-- `physmem_init_bitmap`: every bit of the bitmap is set before the usable frames are cleared.
unfoldable pub init_bitmap : List MemEntry → Option Frames
init_bitmap es =
    let highest = highest_addr es 0 / pagesize in
    alloc_bitmap (bitmap_size highest) es >>= λ es'. populate_bitmap es' (record {
      bitmap = replicate (8 * bitmap_size highest) true;
      highest_frame_idx = highest;
      last_idx = 0;
      pages_free = 0;
      pages_used = 0;
      pages_total = 0;
      bitmap_free_start = 0;
    })
