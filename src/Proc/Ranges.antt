-- ===== src/Proc/Ranges.antt =====
-- The memory ranges of a process: `proc_add_range` and `proc_clear_ranges` of src/sys/os/os_proc.c.
use l5lunos.Prelude.{ℕ, ◌+◌, ◌-◌, ◌*◌, ◌/◌, ◌%◌, ◌^◌, Option, none, some, List, [], ◌∷◌, ◌++◌}
use l5lunos.Prelude.Errno.{Ret, ok, err, enomem}
use l5lunos.Mem.Kalloc.{Heap, kalloc}
use l5lunos.Vm.Frames.{Frames, Outcome, done, fault, panicked, pagesize, vm_free_frame}

-- `struct vm_range`
pub record VmRange : Type 0 where
  pub pa_base : ℕ
  pub va_base : ℕ
  pub len : ℕ

-- sizeof(struct vm_range) on amd64
abbrev pub sizeof_vm_range : ℕ
sizeof_vm_range = 40

-- ALIGN_UP(value, DEFAULT_PAGESIZE) on 64 bits
unfoldable pub align_up64 : ℕ → ℕ
align_up64 value = (value + (pagesize - 1)) % 2 ^ 64 / pagesize * pagesize

abbrev pub with_range :
    VmRange → List VmRange → Option ℕ × Heap → Ret (Unit {0}) × List VmRange × Heap
with_range r maplist (none, h) = (err enomem, maplist, h)
with_range r maplist (some p, h) = (ok tt, maplist ++ r ∷ [], h)

-- `maplist` is the list of a process that is there; the only caller tests for NULL.
unfoldable pub proc_add_range :
    ℕ → ℕ → ℕ → List VmRange → Heap → Ret (Unit {0}) × List VmRange × Heap
proc_add_range va pa len maplist h =
    with_range (record { pa_base = pa; va_base = va; len = align_up64 len }) maplist
      (kalloc sizeof_vm_range h)

-- The ranges stay in the list, and their blocks stay allocated.
unfoldable pub proc_clear_ranges : List VmRange → Frames → Outcome Frames
proc_clear_ranges [] s = done s
proc_clear_ranges (r ∷ rs) s = elim (vm_free_frame r.pa_base (align_up64 r.len / pagesize) s) [
  | done s' ↦ proc_clear_ranges rs s'
  | fault ↦ fault
  | panicked ↦ panicked
]
