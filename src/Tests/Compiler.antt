-- ===== src/Tests/Compiler.antt =====
-- The Pirho compiler on small programs.
use l5lunos.Prelude.{
  codes, ◌≡◌, refl, arith, Option, none, some, [], ◌∷◌, ◌++◌, Bytes, replicate, take, set,
  length-replicate, true,
}
use l5lunos.Prelude.Errno.{Ret, ok, err, fail, page_fault, faults}
use l5lunos.Prelude.Int8.{pos}
use l5lunos.Pirho.Lexer.{lex_nom}
use l5lunos.Pirho.Lexer.Input.{Sees, pending, window}
use l5lunos.Pirho.Lexer.Scan.{scan}
use l5lunos.Pirho.Lexer.Refine.{Yields, lex_nom-scan}
use l5lunos.Pirho.Symbol.{Symbol, SymList, symbol_lookup_id, symbol_alloc, scan_queue_id}
use l5lunos.Pirho.Symbol.Cache
use l5lunos.Pirho.Symbol.Cache.{Answers, Enters, symbol_lookup_id-Answers, symbol_alloc-Enters}
use l5lunos.Pirho.Piir.{PiirStack, piir_push, piir_pop}
use l5lunos.Pirho.Piir.Fifo
use l5lunos.Pirho.Piir.Fifo.{contents, pop_front, piir_push_refines, piir_pop_refines}
use l5lunos.Pirho.Conv.{Gen, piir_inject}
use l5lunos.Pirho.Conv.Spec.{translate, inst_op, inst_num}
use l5lunos.Pirho.Conv.Inject.{piir_inject-translate}
use l5lunos.Pirho.Conv.Total.{piir_inject-total}
use l5lunos.Pirho.Compile.{Compiled, parse_work}
use l5lunos.Pirho.Compile.Total.{parse_work-total}
use l5lunos.Pirho.Compile.{parse_loop, parse_token, statement, open_block, close_block, open_proc}
use l5lunos.Pirho.Parser.{
  print_token, parse_proc, parse_return, must, parse_expect, parse_scan, parse_type, itype_of, emit,
  alloc_symbol, dup_ident, enter_func, check_type, nom, tt_code,
}
use l5lunos.Pirho.Lexer.{
  skip_space, nom_token, nom_default, lex_matchstr, match_id, lex_nomnum, nom_digits, lex_nomstr,
  nom_chars, lex_pop, lex_fuel,
}
use l5lunos.Pirho.Token.{lex_cmptok, lex_cmp_itype, lex_arithop, lex_cmpop, lex_punct}
use l5lunos.Pirho.Chars.{is_alpha, is_num, is_space}
use l5lunos.Mem.Kalloc.{kalloc, kfree}
use l5lunos.Mem.Ptrbox.{ptrbox_alloc, ptrbox_strdup}
use l5lunos.Pirho.Symbol.{symlist_init, scan_cache_id, symbol_cache}
use l5lunos.Pirho.Piir.{piir_stack_new, new_stack}
use l5lunos.Pirho.Conv.{
  inject_loop, md_piir_decode, decode_op, vm_push, push_inst, vm_push64, store_bytes, new_vm,
}
use l5lunos.Prelude.Int8.{to_i8}
use l5lunos.Pirho.Parser.{Work}
use l5lunos.Pirho.Parser.Return.{parse_return-number}
use l5lunos.Pirho.Token.{Token, number, val}
use l5lunos.Pirho.Lexer.Scan.{skip, scan_token, scan_default, scan_num}
use l5lunos.Pirho.Lexer.Input.{front, behind}
use l5lunos.Tests.Data.{mem, lexer, empty_token, work, return_5, return_hi, print_5}

return_5-Sees : Sees (lexer return_5) return_5 1 mem
unfolding pending window
return_5-Sees = record { size = omega arith; input = refl; line = refl; memory = refl }

lex_nom-scan_example :
    Yields (lex_nom empty_token (lexer return_5)) (scan empty_token return_5 1 mem)
lex_nom-scan_example = lex_nom-scan empty_token (lexer return_5) return_5 1 mem return_5-Sees

parse_work-total_example :
    (c : Compiled) × (parse_work (λ i. 0) (work return_5) ≡ some c)
    × (faults c.ret ≡ true → c.work.tok.token ≡ Token.str)
parse_work-total_example = parse_work-total (λ i. 0) (work return_5) (omega arith) refl

-- A symbol that was entered second, with a cache that holds the first.
abbrev first : Symbol
first = record { name = none; addr = 4096; id = 0 }

abbrev second : Symbol
second = record { name = none; addr = 8192; id = 1 }

abbrev table : SymList
table = record {
  symq = first ∷ second ∷ [];
  cache = set (replicate 32 none) 0 (some first);
  nsym = 2;
  cache_i = 1;
}

table-IsValid : Cache.IsValid table
unfolding scan_queue_id
table-IsValid = record {
  size = refl;
  index = omega arith;
  cached = (refl, tt);
  fresh = λ id h. ground arith;
}

symbol_lookup_id-Answers_example : Answers 1 table (symbol_lookup_id 1 table)
symbol_lookup_id-Answers_example = symbol_lookup_id-Answers 1 table table-IsValid

symbol_alloc-Enters_example : Enters table (symbol_alloc none (some 12288) table mem)
symbol_alloc-Enters_example = symbol_alloc-Enters none (some 12288) table mem table-IsValid

-- The queue with the code of a procedure that returns 5.
abbrev queue : PiirStack
queue = record {
  opstore = pos 0 ∷ pos 6 ∷ pos 5 ∷ pos 5 ∷ replicate 4092 (pos 0);
  op_head = 4;
  op_tail = 0;
}

queue-IsValid : Fifo.IsValid queue
queue-IsValid = record {
  store = omega (arith, length-replicate 4092 (pos 0));
  order = omega arith;
  head = omega arith;
}

piir_pop_refines_example :
    Fifo.IsValid (piir_pop queue).1
    × ((piir_pop queue).0 ≡ (pop_front (contents queue)).0)
    × (contents (piir_pop queue).1 ≡ (pop_front (contents queue)).1)
piir_pop_refines_example = piir_pop_refines queue queue-IsValid

piir_push_refines_example :
    Fifo.IsValid (piir_push queue (pos 7)).1
    × ((piir_push queue (pos 7)).0 ≡ ok tt)
    × (contents (piir_push queue (pos 7)).1 ≡ contents queue ++ pos 7 ∷ [])
piir_push_refines_example = piir_push_refines queue (pos 7) queue-IsValid

queue-code : translate table.symq (contents queue) ≡ 0x90 ∷ 0xb8 ∷ 5 ∷ 0 ∷ 0 ∷ 0 ∷ 0xc2 ∷ []
unfolding translate contents inst_op inst_num
queue-code = refl

piir_inject-translate_example :
    (g : Gen) × (piir_inject (λ i. 0) queue table ≡ some g)
    × (take g.vm.code_i g.vm.code ≡ translate table.symq (contents queue))
piir_inject-translate_example =
    piir_inject-translate (λ i. 0) queue table queue-IsValid table-IsValid
      (rw queue-code (omega arith))

piir_inject-total_example : (g : Gen) × (piir_inject (λ i. 0) queue table ≡ some g)
piir_inject-total_example = piir_inject-total (λ i. 0) queue table queue-IsValid table-IsValid

-- The state behind `return`, with a queue that has a byte.
abbrev returning : Work
returning = record (work (codes " 5 end")) { piir_stack = queue }

returning-number :
    (scan empty_token (pending returning.lex) 1 mem).tok ≡ record { token = number; value = val 5 }
unfolding pending window scan skip scan_token scan_default scan_num is_num is_space lex_punct front
    behind
returning-number = refl

returning-ok : (scan empty_token (pending returning.lex) 1 mem).ret ≡ ok tt
unfolding pending window scan skip scan_token scan_default scan_num is_num is_space lex_punct front
    behind
returning-ok = refl

parse_return-number_example :
    (w : Work) × (parse_return returning ≡ some (ok tt, w))
    × Fifo.IsValid w.piir_stack
    × (contents w.piir_stack ≡ contents queue ++ pos 6 ∷ pos 5 ∷ [])
    × (pending w.lex ≡ (scan empty_token (pending returning.lex) 1 mem).rest)
unfolding to_i8
parse_return-number_example =
    parse_return-number returning 5 (omega arith) queue-IsValid (omega arith) returning-ok
      returning-number

-- The code and the result of a compilation.
unfoldable run : Bytes → Bytes × Option (Ret (Unit {0}))
unfolding parse_work parse_loop parse_token statement open_block close_block open_proc parse_proc
    parse_return must parse_expect parse_scan parse_type itype_of emit alloc_symbol dup_ident
    enter_func check_type nom tt_code lex_nom skip_space nom_token nom_default lex_matchstr match_id
    lex_nomnum nom_digits lex_nomstr nom_chars lex_pop lex_fuel lex_cmptok lex_cmp_itype lex_arithop
    lex_cmpop lex_punct is_alpha is_num is_space kalloc kfree ptrbox_alloc ptrbox_strdup
    symbol_alloc symlist_init piir_push piir_pop piir_stack_new new_stack piir_inject inject_loop
    md_piir_decode decode_op vm_push push_inst vm_push64 store_bytes symbol_lookup_id scan_cache_id
    scan_queue_id symbol_cache new_vm to_i8
run src = elim (parse_work (λ i. 0) (work src)) [
  | none ↦ ([], none)
  | some c ↦ (elim c.vm [ none ↦ [] | some vm ↦ take vm.code_i vm.code ], some c.ret)
]

return_5-code : run return_5 ≡ (0x90 ∷ 0xb8 ∷ 5 ∷ 0 ∷ 0 ∷ 0 ∷ 0xc2 ∷ [], some (ok tt))
unfolding run
return_5-code = refl

-- The address of the string goes into the instruction.
return_hi-code :
    run return_hi ≡ (0x90 ∷ 0x48 ∷ 0xb8 ∷ 0 ∷ 16 ∷ 1 ∷ 0 ∷ 0 ∷ 0 ∷ 0 ∷ 0 ∷ 0xc2 ∷ [], some (ok tt))
unfolding run
return_hi-code = refl

-- A name that begins with the letter of a keyword is no identifier.
print_5-code : run print_5 ≡ ([], some (err fail))
unfolding run print_token
print_5-code = refl

-- The print of a string's name reads through NULL.
proc_string-code : run (codes "proc \"x\"") ≡ ([], some (err page_fault))
unfolding run print_token
proc_string-code = refl
