-- ===== src/Pirho/Piir.antt =====
-- The queue of intermediate code, src/sys/np/codegen/gen_piir.c. Its lock has no counterpart here.
pub mod Fifo
use l5lunos.Prelude.{
  ℕ, ◌+◌, ◌%◌, ◌^◌, ◌-◌, Option, none, some, List, leb, ◌==◌, if◌then◌else◌, get_or, set, replicate,
}
use l5lunos.Prelude.Errno.{Ret, ok, err, fail}
use l5lunos.Prelude.Int8.{ℤ, pos, negsuc}
use l5lunos.Mem.Ptrbox.{Mem, ptrbox_alloc}

-- `struct piir_stack`
pub record PiirStack : Type 0 where
  pub opstore : List ℤ
  pub op_head : ℕ
  pub op_tail : ℕ

abbrev pub piir_stack_size : ℕ
piir_stack_size = 4096

-- sizeof(struct piir_stack): the store, the two indices and the lock
abbrev pub sizeof_piir_stack : ℕ
sizeof_piir_stack = 4104

-- The opcodes that the parser emits.
abbrev pub piir_nop : ℤ
piir_nop = pos 0

abbrev pub piir_ret_nil : ℤ
piir_ret_nil = pos 5

abbrev pub piir_ret_num : ℤ
piir_ret_num = pos 6

abbrev pub piir_ret_symbol : ℤ
piir_ret_symbol = pos 7

unfoldable pub new_stack : PiirStack
new_stack = record { opstore = replicate piir_stack_size (pos 0); op_head = 0; op_tail = 0 }

abbrev pub zeroed : Option ℕ × Mem → Option PiirStack × Mem
zeroed (none, m) = (none, m)
zeroed (some p, m) = (some new_stack, m)

-- `none` is -ENOMEM.
unfoldable pub piir_stack_new : Mem → Option PiirStack × Mem
piir_stack_new m = zeroed (ptrbox_alloc sizeof_piir_stack m)

unfoldable pub piir_push : PiirStack → ℤ → Ret (Unit {0}) × PiirStack
piir_push s byte = if leb (piir_stack_size - 1) s.op_head then (err fail, s) else (
  ok tt,
  record s { opstore = set s.opstore s.op_head byte; op_head = (s.op_head + 1) % 2 ^ 16 },
)

abbrev reset : PiirStack → PiirStack
reset s = record s { op_tail = 0; op_head = 0 }

unfoldable pub piir_pop : PiirStack → ℤ × PiirStack
piir_pop s = if s.op_tail == s.op_head then (negsuc 0, reset s) else (
  get_or s.opstore s.op_tail (pos 0),
  (if (s.op_tail + 1) % 2 ^ 16 == s.op_head
      then reset s
      else record s { op_tail = (s.op_tail + 1) % 2 ^ 16 }),
)
