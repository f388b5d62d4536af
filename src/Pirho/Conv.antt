-- ===== src/Pirho/Conv.antt =====
-- From intermediate code to instructions: src/sys/arch/amd64/np/piir_conv.c, and the loop over it
-- in src/sys/np/codegen/piir_engine.c. `none` is a fault, or a loop that ran out of fuel.
pub mod Emit
pub mod Spec
pub mod Cases
pub mod Decode
pub mod Inject
pub mod Total
use l5lunos.Prelude.{
  ℕ, zero, suc, ◌+◌, ◌-◌, ◌/◌, ◌%◌, Bool, true, false, Option, none, some, [], ◌∷◌, ltb, leb, ◌==◌,
  if◌then◌else◌, ◌>>=◌, Bytes, get_or, set, replicate,
}
use l5lunos.Prelude.Errno.{Ret, ok, err, fail}
use l5lunos.Prelude.Int8.{ℤ, pos, negsuc}
use l5lunos.Pirho.Symbol.{SymList, Symbol, Lookup, found, missing, fault, symbol_lookup_id}
use l5lunos.Pirho.Piir.{PiirStack, piir_pop}

-- `struct piir_vm`; a byte of `code` is its bit pattern.
pub record PiirVm : Type 0 where
  pub code : Bytes
  pub last_ir : ℤ
  pub code_i : ℕ
  pub regset : ℕ

-- What a conversion changes: the queue, the symbol table's cache, and the code.
pub record Gen : Type 0 where
  pub stack : PiirStack
  pub symlist : SymList
  pub vm : PiirVm

abbrev pub code_size : ℕ
code_size = 4096

-- `inst_t`, an array of eight bytes. What a read past its end gives is `beyond`.
abbrev pub inst_at : (ℕ → ℕ) → Bytes → ℕ → ℕ
inst_at beyond inst i = if ltb i 8 then get_or inst i 0 else beyond i

-- OP_NRET, OP_NOP, and OP_LOAD32_R32 and OP_LOAD64_R64 with the return register, which is 0.
abbrev pub op_nret : Bytes
op_nret = 0xc2 ∷ []

abbrev pub op_nop : Bytes
op_nop = 0x90 ∷ []

abbrev pub op_load32_r32 : ℕ → Bytes
op_load32_r32 imm = 0xb8 ∷ imm ∷ []

abbrev pub op_load64_r64 : ℕ → Bytes
op_load64_r64 imm = 0x48 ∷ 0xb8 ∷ imm ∷ []

-- The loop of `vm_push`, with `n` bytes left to push; `false` is -1.
unfoldable pub push_inst : (ℕ → ℕ) → Bytes → ℕ → ℕ → PiirVm → Bool × PiirVm
push_inst beyond inst zero i vm = (true, vm)
push_inst beyond inst (suc n) i vm =
    let rest = push_inst beyond inst n (i + 1) (record vm {
      code = set vm.code vm.code_i (inst_at beyond inst i);
      code_i = vm.code_i + 1;
    }) in
    if leb (code_size - 1) vm.code_i then (false, vm) else rest

unfoldable pub vm_push : (ℕ → ℕ) → Bytes → ℕ → PiirVm → Bool × PiirVm
vm_push beyond inst len vm = push_inst beyond inst len 0 vm

-- A store of `n` bytes of `v` at index `i`, the lowest first.
unfoldable pub store_bytes : ℕ → ℕ → ℕ → Bytes → Bytes
store_bytes zero i v code = code
store_bytes (suc n) i v code = store_bytes n (i + 1) (v / 256) (set code i (v % 256))

unfoldable pub vm_push64 : ℕ → PiirVm → PiirVm
vm_push64 v vm =
    if leb (code_size - 1) (vm.code_i + 8)
    then vm
    else record vm { code = store_bytes 8 vm.code_i v vm.code; code_i = vm.code_i + 8 }

-- The result of `md_piir_decode` that reports the outcome of `vm_push`.
abbrev pub pushed : PiirStack → SymList → Bool × PiirVm → Ret (Unit {0}) × Gen
pushed st sl (true, vm) = (ok tt, record { stack = st; symlist = sl; vm = vm })
pushed st sl (false, vm) = (err fail, record { stack = st; symlist = sl; vm = vm })

-- `case PIIR_RET_NUM`, with the operand.
abbrev pub ret_num : (ℕ → ℕ) → ℤ × PiirStack → Gen → Ret (Unit {0}) × Gen
ret_num beyond (pos n, st) g = pushed st g.symlist (vm_push beyond (op_load32_r32 n) 5 g.vm)
ret_num beyond (negsuc n, st) g = (err fail, record g { stack = st })

-- `vm->code_i -= sizeof(sym->addr)`, and the address in place of the padding.
abbrev pub load_addr : Symbol → PiirStack → SymList → Bool × PiirVm → Ret (Unit {0}) × Gen
load_addr sym st sl (false, vm) = (err fail, record { stack = st; symlist = sl; vm = vm })
load_addr sym st sl (true, vm) = (
  ok tt,
  record {
    stack = st;
    symlist = sl;
    vm = vm_push64 sym.addr (record vm { code_i = vm.code_i - 8 });
  },
)

abbrev pub load_symbol :
    (ℕ → ℕ) → Lookup × SymList → PiirStack → PiirVm → Option (Ret (Unit {0}) × Gen)
load_symbol beyond (fault, sl) st vm = none
load_symbol beyond (missing, sl) st vm =
    some (err fail, record { stack = st; symlist = sl; vm = vm })
load_symbol beyond (found sym, sl) st vm =
    some (load_addr sym st sl (vm_push beyond (op_load64_r64 0) 10 vm))

-- `case PIIR_RET_SYMBOL`, with the operand.
abbrev pub ret_symbol : (ℕ → ℕ) → ℤ × PiirStack → Gen → Option (Ret (Unit {0}) × Gen)
ret_symbol beyond (pos id, st) g = load_symbol beyond (symbol_lookup_id id g.symlist) st g.vm
ret_symbol beyond (negsuc n, st) g = some (err fail, record g { stack = st })

-- The `switch` of `md_piir_decode` on an opcode that is not negative.
unfoldable pub decode_op : (ℕ → ℕ) → ℕ → Gen → Option (Ret (Unit {0}) × Gen)
decode_op beyond op g =
    if op == 6
    then some (ret_num beyond (piir_pop g.stack) g)
    else if op == 7
    then ret_symbol beyond (piir_pop g.stack) g
    else if op == 0
    then some (pushed g.stack g.symlist (vm_push beyond op_nop 1 g.vm))
    else if op == 5
    then some (pushed g.stack g.symlist (vm_push beyond op_nret 1 g.vm))
    else some (ok tt, g)

unfoldable pub md_piir_decode : (ℕ → ℕ) → ℤ → Gen → Option (Ret (Unit {0}) × Gen)
md_piir_decode beyond (pos op) g =
    decode_op beyond op (record g { vm = record (g.vm) { last_ir = pos op } })
md_piir_decode beyond (negsuc n) g =
    some (ok tt, record g { vm = record (g.vm) { last_ir = negsuc n } })

-- The loop of `piir_inject`: what a decoding returns is ignored.
abbrev pub inject_op : (ℕ → ℕ) → (Gen → Option Gen) → ℤ × PiirStack → Gen → Option Gen
inject_op beyond again (negsuc n, st) g = some (record g { stack = st })
inject_op beyond again (pos op, st) g =
    md_piir_decode beyond (pos op) (record g { stack = st }) >>= λ (r, g'). again g'

unfoldable pub inject_loop : (ℕ → ℕ) → ℕ → Gen → Option Gen
inject_loop beyond zero g = none
inject_loop beyond (suc f) g = inject_op beyond (inject_loop beyond f) (piir_pop g.stack) g

unfoldable pub new_vm : PiirVm
new_vm = record { code = replicate code_size 0; last_ir = pos 0; code_i = 0; regset = 0 }

abbrev pub inject_fuel : PiirStack → ℕ
inject_fuel s = s.op_head - s.op_tail + 1

unfoldable pub piir_inject : (ℕ → ℕ) → PiirStack → SymList → Option Gen
piir_inject beyond st sl =
    inject_loop beyond (inject_fuel st) (record { stack = st; symlist = sl; vm = new_vm })
