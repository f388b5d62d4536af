-- ===== src/Vm/Map.antt =====
-- Mappings of memory, src/sys/vm/vm_map.c. Its callers pass the addresses of variables, so `vas` and
-- `spec` are never NULL. The locks have no counterpart here.
pub mod Pages
pub mod Grants
pub mod Region
pub mod Mmap
pub mod Given
use l5lunos.Prelude.{
  ℕ, zero, suc, ◌+◌, ◌-◌, ◌*◌, ◌/◌, ◌%◌, ◌^◌, Bool, true, false, ◌||◌, Option, none, some, List,
  ltb, ◌==◌, if◌then◌else◌, bit_or,
}
use l5lunos.Prelude.Errno.{Ret, ok, err}
use l5lunos.Prelude.Int8.{ℤ, pos, negsuc, to_int, to_u64}
use l5lunos.Mem.Kalloc.{Heap}
use l5lunos.Vm.Frames.{Outcome, done, fault, panicked, pagesize}
use l5lunos.Vm.Mmu.{Mmu, on_done, mmu_alloc, mmu_map_single}
use l5lunos.Proc.Ranges.{VmRange, align_up64, proc_add_range}

-- `struct mmu_map`
pub record MmuMap : Type 0 where
  pub va : ℕ
  pub pa : ℕ

-- What a mapping changes: the page tables, the heap, and the ranges of the current process, if there
-- is one.
pub record Space : Type 0 where
  pub mmu : Mmu
  pub heap : Heap
  pub self : Option (List VmRange)

-- -EINVAL and -ENOMEM
abbrev pub einval_int : ℤ
einval_int = negsuc 21

abbrev pub enomem_int : ℤ
enomem_int = negsuc 11

-- ALIGN_DOWN(value, DEFAULT_PAGESIZE)
abbrev pub align_down : ℕ → ℕ
align_down value = value / pagesize * pagesize

abbrev pub next_page : ℕ → (Mmu → Outcome (ℤ × Mmu)) → Ret (Unit {0}) × Mmu → Outcome (ℤ × Mmu)
next_page start rest (err e, m) = done (to_int (start % 2 ^ 32), m)
next_page start rest (ok z, m) = rest m

-- The loop of `__vm_map` over `n` pages from the address `va` on, on `tmp_spec`; `start` is `spec->va`,
-- which is returned where a page cannot be mapped.
unfoldable pub map_pages : ℕ → ℕ → ℕ → ℕ → ℕ → ℕ → Mmu → Outcome (ℤ × Mmu)
map_pages zero cr3 start va pa prot m = done (pos 0, m)
map_pages (suc n) cr3 start va pa prot m = on_done (mmu_map_single cr3 va pa prot m) (
    next_page start
      (map_pages n cr3 start ((va + pagesize) % 2 ^ 64) ((pa + pagesize) % 2 ^ 64) prot))

-- The rounds of the loop: none where the end of the region wraps around.
abbrev pub map_rounds : ℕ → ℕ → ℕ
map_rounds va len = if ltb va ((va + len) % 2 ^ 64) then len / pagesize else 0

abbrev pub assigned : MmuMap → ℕ × Mmu → MmuMap × Mmu
assigned spec (pa, m) = (record { va = if spec.va == 0 then pa else spec.va; pa = pa }, m)

-- An address that is zero is assigned.
unfoldable pub assign_spec : MmuMap → ℕ → Mmu → Outcome (MmuMap × Mmu)
assign_spec spec len m =
    let given = done (spec, m) in
    let fresh = on_done (mmu_alloc (len / pagesize) m) λ r. done (assigned spec r) in
    if spec.pa == 0 || spec.va == 0 then fresh else given

-- What was returned, `*spec`, and the page tables.
abbrev pub Mapped : Type 0
Mapped = ℤ × MmuMap × Mmu

unfoldable pub map_region : ℕ → ℕ → ℕ → MmuMap × Mmu → Outcome Mapped
map_region cr3 len prot (spec, m) =
    let loop =
      map_pages (map_rounds spec.va len) cr3 spec.va (align_down spec.va) (align_down spec.pa) prot
        m in
    if spec.pa == 0 then done (enomem_int, spec, m) else on_done loop λ (r, m'). done (r, spec, m')

-- `__vm_map`; `cr3` is `vas->cr3`.
unfoldable pub vm_map_aligned : ℕ → MmuMap → ℕ → ℕ → Mmu → Outcome Mapped
vm_map_aligned cr3 spec len prot m =
    let mapped =
      on_done (assign_spec spec (align_up64 len) m) (map_region cr3 (align_up64 len) prot) in
    if len == 0 then done (einval_int, spec, m) else mapped

abbrev pub ranges_with : MmuMap → ℕ → Option (List VmRange) → Heap → Option (List VmRange) × Heap
ranges_with spec len none h = (none, h)
ranges_with spec len (some maplist) h =
    let (r, maplist', h') = proc_add_range spec.va spec.pa len maplist h in (some maplist', h')

-- `retval` is not 0: what was mapped is unmapped, with a length that comes from the value returned.
abbrev pub unmap_partial : ℕ → MmuMap → MmuMap → ℤ → Space → Outcome (ℤ × MmuMap × Space)
unmap_partial cr3 spec spec_cpy retval s =
    on_done
      (vm_map_aligned cr3 spec_cpy ((to_u64 retval + (2 ^ 64 - spec_cpy.va % 2 ^ 64)) % 2 ^ 64) 0
        s.mmu)
      λ (r, spec', m). done (negsuc 0, spec, record s { mmu = m })

-- The range is added, if it can be, and the page behind the region is unmapped.
abbrev pub guarded : ℕ → MmuMap → MmuMap → ℕ → Space → Outcome (ℤ × MmuMap × Space)
guarded cr3 spec spec_cpy len s =
    let (ranges, h) = ranges_with spec len s.self s.heap in
    on_done
      (vm_map_aligned cr3 (record spec_cpy { va = (spec_cpy.va + len) % 2 ^ 64 }) pagesize 0 s.mmu)
      λ (r, spec', m). done (pos 0, spec, record { mmu = m; heap = h; self = ranges })

abbrev pub is_zero_int : ℤ → Bool
is_zero_int (pos zero) = true
is_zero_int (pos (suc n)) = false
is_zero_int (negsuc n) = false

abbrev pub behind_map : ℕ → MmuMap → ℕ → Space → Mapped → Outcome (ℤ × MmuMap × Space)
behind_map cr3 spec_cpy len s (retval, spec, m) =
    let s' : Space = record s { mmu = m } in
    let mapped = guarded cr3 spec spec_cpy len s' in
    let partial = unmap_partial cr3 spec spec_cpy retval s' in
    if is_zero_int retval then mapped else partial

-- The value returned, `*spec`, and the state behind it.
unfoldable pub vm_map : ℕ → MmuMap → ℕ → ℕ → Space → Outcome (ℤ × MmuMap × Space)
vm_map cr3 spec len prot s =
    on_done (vm_map_aligned cr3 spec (align_up64 len) prot s.mmu)
      (behind_map cr3 spec (align_up64 len) s)

abbrev pub is_negative : ℤ → Bool
is_negative (pos n) = false
is_negative (negsuc n) = true

abbrev pub mapped_addr : ℤ × MmuMap × Space → Outcome (ℕ × Space)
mapped_addr (error, spec, s) = if is_negative error then done (0, s) else done (spec.va, s)

-- `mmap`, on the address space that CR3 holds; 0 is NULL.
unfoldable pub mmap : ℕ → ℕ → ℕ → ℕ → Space → Outcome (ℕ × Space)
mmap cr3 addr len prot s =
    let mapped = on_done (vm_map cr3 (record { va = addr; pa = 0 }) len prot s) mapped_addr in
    if len == 0 || addr == 0 then done (0, s) else mapped

-- MMAP_START
abbrev pub mmap_start : ℕ
mmap_start = 0x6F3C8E0C0000

-- `sys_mmap`; PROT_USER is BIT(3).
unfoldable pub sys_mmap : ℕ → ℕ → ℕ → ℕ → Space → Outcome (ℕ × Space)
sys_mmap cr3 address length prot s =
    mmap cr3 (if address == 0 then 0 else (address + mmap_start) % 2 ^ 64) length (bit_or prot 8) s
