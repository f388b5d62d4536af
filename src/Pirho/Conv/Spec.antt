-- ===== src/Pirho/Conv/Spec.antt =====
-- What the code generator of src/sys/arch/amd64/np/piir_conv.c is to make of a queue of
-- intermediate code: a function on lists.
use l5lunos.Prelude.{
  ℕ, ◌≤◌, ◌≡◌, true, false, List, [], ◌∷◌, ◌++◌, arith, ◌==◌, ==_iff, if◌then◌else◌, Bytes, length,
  append-nil,
}
use l5lunos.Prelude.Int8.{ℤ, pos, negsuc}
use l5lunos.Pirho.Symbol.{Symbol, Lookup, found, scan_queue_id}
use l5lunos.Pirho.Piir.Fifo.{pop_front}
use l5lunos.Pirho.Conv.Emit.{le_bytes}

-- An instruction with no operand: NOP, and the return that closes a block.
unfoldable pub inst_op : ℕ → Bytes
inst_op op = if op == 0 then 0x90 ∷ [] else if op == 5 then 0xc2 ∷ [] else []

-- MOV EAX, imm32. A negative operand yields nothing.
unfoldable pub inst_num : ℤ → Bytes
inst_num (pos n) = 0xb8 ∷ n ∷ 0 ∷ 0 ∷ 0 ∷ []
inst_num (negsuc n) = []

-- MOV RAX, imm64, with the symbol's address.
unfoldable pub inst_addr : Lookup → Bytes
inst_addr (found s) = 0x48 ∷ 0xb8 ∷ le_bytes 8 s.addr
inst_addr _ = []

unfoldable pub inst_symbol : List Symbol → ℤ → Bytes
unfolding inst_addr
inst_symbol syms (pos id) = inst_addr (scan_queue_id id syms)
inst_symbol syms (negsuc n) = []

-- The code of a queue. A negative byte in the place of an opcode ends it.
unfoldable pub translate : List Symbol → List ℤ → Bytes
unfolding inst_op inst_num inst_symbol
translate syms [] = []
translate syms (negsuc n ∷ q) = []
translate syms (pos op ∷ []) = inst_op op
translate syms (pos op ∷ b ∷ q) =
    let behind = translate syms q in
    let whole = translate syms (b ∷ q) in
    if op == 6
    then inst_num b ++ behind
    else if op == 7
    then inst_symbol syms b ++ behind
    else inst_op op ++ whole

pub translate_plain :
    (syms : List Symbol) (op : ℕ) (q : List ℤ)
    → (op == 6) ≡ false
    → (op == 7) ≡ false
    → inst_op op ++ translate syms q ≡ translate syms (pos op ∷ q)
unfolding translate
translate_plain syms op [] h k = append-nil (inst_op op)
translate_plain syms op (b ∷ q) h k = simp (h, k)

pub translate_num :
    (syms : List Symbol) (op : ℕ) (q : List ℤ)
    → (op == 6) ≡ true
    → inst_num (pop_front q).0 ++ translate syms (pop_front q).1 ≡ translate syms (pos op ∷ q)
unfolding translate pop_front
translate_num syms op [] h = rw ((==_iff op 6).0 h)
translate_num syms op (b ∷ q) h = simp h

pub translate_symbol :
    (syms : List Symbol) (op : ℕ) (q : List ℤ)
    → (op == 7) ≡ true
    → inst_symbol syms (pop_front q).0 ++ translate syms (pop_front q).1
      ≡ translate syms (pos op ∷ q)
unfolding translate pop_front
translate_symbol syms op [] h = rw ((==_iff op 7).0 h)
translate_symbol syms op (b ∷ q) h = rw ((==_iff op 7).0 h)

pub length-pop_front : (q : List ℤ) → length (pop_front q).1 ≤ length q
unfolding pop_front
length-pop_front [] = omega arith
length-pop_front (b ∷ q) = omega arith
