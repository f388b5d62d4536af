-- ===== src/Vm/Mmu.antt =====
-- The page tables of an address space, src/sys/arch/amd64/cpu/mmu.c. A table is referred to by the
-- number of its frame, and `tables` gives what each frame holds. `mmu_init` leaves a processor with four
-- levels alone, so `mmu_pg_level` is 4. The flushes of the TLB have no counterpart here.
pub mod Translate
pub mod Owned
pub mod Walk
pub mod Refine
use l5lunos.Prelude.{
  ℕ, zero, suc, ◌+◌, ◌-◌, ◌*◌, ◌/◌, ◌%◌, ◌^◌, Bool, true, false, ◌&&◌, Option, none, some, leb, ltb,
  ◌==◌, if◌then◌else◌, bit_or, get_or, codes,
}
use l5lunos.Prelude.Errno.{Ret, ok, err, einval, epipe}
use l5lunos.Vm.Frames.{
  Frames, Outcome, done, fault, panicked, pagesize, vm_alloc_frame, vm_free_frame,
}

-- A table entry of 64 bits: bits 0 to 11, bits 12 to 51, which are PTE_ADDR_MASK, and bits 52 to 63.
pub record Pte : Type 0 where
  pub low : ℕ
  pub frame : ℕ
  pub high : ℕ

abbrev pub zero_pte : Pte
zero_pte = record { low = 0; frame = 0; high = 0 }

abbrev pub Tables : Type 0
Tables = ℕ → ℕ → Pte

-- The frames, and what they hold, read as tables.
pub record Mmu : Type 0 where
  pub frames : Frames
  pub tables : Tables

-- `pglvl_t`
abbrev pub mmu_tbl : ℕ
mmu_tbl = 1

abbrev pub mmu_l4 : ℕ
mmu_l4 = 4

abbrev pub mmu_l5 : ℕ
mmu_l5 = 5

-- ISSET(addr, PTE_P)
abbrev pub is_present : Pte → Bool
is_present e = e.low % 2 == 1

-- The bits of an address with the flags `low` and `high` set in its lowest and its highest bits.
unfoldable pub or_flags : ℕ → ℕ → ℕ → Pte
or_flags low high addr = record {
  low = bit_or low (addr % pagesize);
  frame = addr / pagesize % 2 ^ 40;
  high = bit_or high (addr / 2 ^ 52 % 2 ^ 12);
}

-- ISSET(prot, BIT(n)), with `bit` for `1 << n`
abbrev pub is_set : ℕ → ℕ → Bool
is_set prot bit = prot / bit % 2 == 1

-- `prot_to_pte`: PTE_P, PTE_RW and PTE_US, and PTE_NX.
abbrev pub low_flags : ℕ → ℕ
low_flags prot =
    (if is_set prot 1 then 1 else 0)
    + (if is_set prot 2 then 2 else 0)
    + (if is_set prot 8 then 4 else 0)

abbrev pub high_flags : ℕ → ℕ
high_flags prot = if is_set prot 4 then 0 else 2 ^ 11

-- `none` is the panic.
unfoldable pub mmu_get_level : ℕ → ℕ → Option ℕ
mmu_get_level va level =
    if level == 5
    then some (va / 2 ^ 48 % 512)
    else if level == 4
    then some (va / 2 ^ 39 % 512)
    else if level == 3
    then some (va / 2 ^ 30 % 512)
    else if level == 2
    then some (va / 2 ^ 21 % 512)
    else if level == 1
    then some (va / 2 ^ 12 % 512)
    else if level == 0
    then some (va % 512)
    else none

unfoldable pub set_pte : ℕ → ℕ → Pte → Tables → Tables
set_pte f i e t g j = if g == f && j == i then e else t g j

-- `memset(PHYS_TO_VIRT(ret), 0, count * DEFAULT_PAGESIZE)` of `__vm_alloc_frame`.
unfoldable pub zero_frames : ℕ → ℕ → Tables → Tables
zero_frames idx count t g j = if leb idx g && ltb g (idx + count) then zero_pte else t g j

abbrev pub on_done : {A B : Type 0} → Outcome A → (A → Outcome B) → Outcome B
on_done (done a) k = k a
on_done fault k = fault
on_done panicked k = panicked

abbrev pub zeroed_at : ℕ → Mmu → ℕ × Frames → Outcome (ℕ × Mmu)
zeroed_at count m (ret, s) =
    done (ret, record { frames = s; tables = zero_frames (ret / pagesize) count m.tables })

-- `vm_alloc_frame`, with what it does to the memory.
unfoldable pub mmu_alloc : ℕ → Mmu → Outcome (ℕ × Mmu)
mmu_alloc count m = on_done (vm_alloc_frame count m.frames) (zeroed_at count m)

abbrev pub index_or : {A : Type 0} → Option ℕ → (ℕ → Outcome A) → Outcome A
index_or none k = panicked
index_or (some i) k = k i

-- The new frame is entered in the table, with PTE_P, PTE_RW and PTE_US, and the walk goes on in it.
abbrev pub enter_frame : ℕ → ℕ → ℕ × Mmu → (ℕ → Mmu → Outcome (Ret ℕ × Mmu)) → Outcome (Ret ℕ × Mmu)
enter_frame cur index (addr, m) k =
    k (addr / pagesize) (record m { tables = set_pte cur index (or_flags 7 0 addr) m.tables })

-- The loop of `mmu_read_level`, `n` levels above `lvl`, in the table `cur`.
unfoldable pub walk_levels : ℕ → ℕ → ℕ → Bool → ℕ → Mmu → Outcome (Ret ℕ × Mmu)
walk_levels zero va lvl a cur m = done (ok cur, m)
walk_levels (suc n) va lvl a cur m = index_or (mmu_get_level va (suc n + lvl)) λ index.
    let e = m.tables cur index in
    let next = walk_levels n va lvl a e.frame m in
    let alloc =
      on_done (mmu_alloc 1 m)
        λ r. enter_frame cur index r λ cur' m'. walk_levels n va lvl a cur' m' in
    if is_present e then next else if a then alloc else done (err epipe, m)

-- The result is the table; `cr3` is the address of the root.
unfoldable pub mmu_read_level : ℕ → ℕ → ℕ → Bool → Mmu → Outcome (Ret ℕ × Mmu)
mmu_read_level cr3 va lvl a m =
    if ltb mmu_l5 lvl
    then done (err einval, m)
    else walk_levels (mmu_l4 - lvl) va lvl a (cr3 / pagesize % 2 ^ 40) m

abbrev pub pte_of : ℕ → ℕ → Pte
pte_of prot pa = if prot == 0 then zero_pte else or_flags (low_flags prot) (high_flags prot) pa

-- `pte[index] = ...`
abbrev pub write_pte : ℕ → ℕ → ℕ → Ret ℕ × Mmu → Outcome (Ret (Unit {0}) × Mmu)
write_pte va pa prot (err e, m) = done (err e, m)
write_pte va pa prot (ok pte, m) =
    index_or (mmu_get_level va mmu_tbl)
      λ index. done (ok tt, record m { tables = set_pte pte index (pte_of prot pa) m.tables })

-- `va` and `pa` are the fields of `spec`.
unfoldable pub mmu_map_single : ℕ → ℕ → ℕ → ℕ → Mmu → Outcome (Ret (Unit {0}) × Mmu)
mmu_map_single cr3 va pa prot m =
    on_done (mmu_read_level cr3 va mmu_tbl true m) (write_pte va pa prot)

-- The lower half is zeroed, the higher half is that of the kernel's root `kcr3`.
unfoldable pub copy_half : ℕ → ℕ → Tables → Tables
copy_half src dest t g j = if g == dest then (if ltb j 256 then zero_pte else t src j) else t g j

-- The result is `res->cr3`.
unfoldable pub mmu_new_vas : ℕ → Mmu → Outcome (ℕ × Mmu)
mmu_new_vas kcr3 m = on_done (mmu_alloc 1 m) λ (frame, m'). done (
  frame,
  record m' { tables = copy_half (kcr3 / pagesize % 2 ^ 40) (frame / pagesize) m'.tables },
)

-- The tables below the root stay allocated.
unfoldable pub mmu_free_vas : ℕ → Mmu → Outcome (ℕ × Mmu)
mmu_free_vas cr3 m = on_done (vm_free_frame cr3 1 m.frames) λ s. done (0, record m { frames = s })
