-- ===== src/Pirho/Compile.antt =====
-- The statements and the main loop of src/sys/np/core/np_parse.c.
pub mod Sound
pub mod Total
use l5lunos.Prelude.{ℕ, zero, suc, ◌+◌, ◌-◌, ◌%◌, Option, none, some, ltb, leb, if◌then◌else◌}
use l5lunos.Prelude.Errno.{Ret, ok, err, fail, lex_eof, enomem, page_fault}
use l5lunos.Mem.Ptrbox.{Mem}
use l5lunos.Pirho.Token.{Token}
use l5lunos.Pirho.Lexer.{lex_fuel}
use l5lunos.Pirho.Symbol.{symlist_init}
use l5lunos.Pirho.Piir.{PiirStack, piir_stack_new, piir_nop, piir_ret_nil}
use l5lunos.Pirho.Conv.{Gen, PiirVm, piir_inject}
use l5lunos.Pirho.Parser.{
  Work, Parse, ◌>>◌, pure, tt_code, nelem_stoktab, max_begin_depth, nom, emit, parse_return,
  parse_proc,
}

abbrev pub set_depth : ℕ → Parse (Unit {0})
set_depth n w = some (ok tt, record w { begin_depth = n })

-- `case TT_END`
unfoldable pub close_block : Parse (Unit {0})
close_block w =
    if ltb 0 w.begin_depth
    then (set_depth (w.begin_depth - 1) >> emit piir_ret_nil) w
    else some (err fail, w)

-- `case TT_BEGIN`, which has no `break` and goes on into `case TT_END`.
unfoldable pub open_block : Parse (Unit {0})
open_block w =
    if leb max_begin_depth w.begin_depth
    then some (err fail, w)
    else (set_depth ((w.begin_depth + 1) % 256) >> close_block) w

-- `case TT_PROC`; any error of `parse_proc` becomes -1. A fault stays one, here and in the loop.
abbrev pub or_fail : Option (Ret (Unit {0}) × Work) → Option (Ret (Unit {0}) × Work)
or_fail (some (err page_fault, w)) = some (err page_fault, w)
or_fail (some (err e, w)) = some (err fail, w)
or_fail r = r

unfoldable pub open_proc : Parse (Unit {0})
open_proc w =
    if w.in_func then some (err fail, w) else ((λ v. or_fail (parse_proc v)) >> emit piir_nop) w

-- The `switch` of `parse_token`.
unfoldable pub statement : Token → Parse (Unit {0})
statement Token.kw_begin = open_block
statement Token.kw_end = close_block
statement Token.kw_proc = open_proc
statement Token.kw_return = λ w. or_fail (parse_return w)
statement _ = pure tt

unfoldable pub parse_token : Parse (Unit {0})
parse_token w = statement w.tok.token w

-- What the loop of `parse_work` does after `parse_token` and after `lex_nom`.
abbrev pub after_token :
    (Work → Option (Ret (Unit {0}) × Work))
    → Option (Ret (Unit {0}) × Work)
    → Option (Ret (Unit {0}) × Work)
after_token again none = none
after_token again (some (err page_fault, w)) = some (err page_fault, w)
after_token again (some (err e, w)) = some (err fail, w)
after_token again (some (ok _, w)) = again w

abbrev pub after_nom :
    (Work → Option (Ret (Unit {0}) × Work))
    → Option (Ret (Unit {0}) × Work)
    → Option (Ret (Unit {0}) × Work)
after_nom again none = none
after_nom again (some (err lex_eof, w)) = some (ok tt, w)
after_nom again (some (err e, w)) = some (err e, w)
after_nom again (some (ok _, w)) =
    if ltb nelem_stoktab (tt_code w.tok.token)
    then some (err fail, w)
    else after_token again (parse_token w)

-- The loop of `parse_work`; `ok` is the end of the input.
unfoldable pub parse_loop : ℕ → Work → Option (Ret (Unit {0}) × Work)
parse_loop zero w = none
parse_loop (suc f) w = after_nom (parse_loop f) (nom w)

-- The result of `parse_work`, or `err page_fault`, with the state of the code generator where that was run: it is a
-- local variable of `piir_inject`, and the source drops it.
pub record Compiled : Type 0 where
  pub ret : Ret (Unit {0})
  pub work : Work
  pub vm : Option PiirVm

abbrev pub checked_depth : Work → Ret (Unit {0})
checked_depth w = if ltb 0 w.begin_depth then err fail else ok tt

abbrev pub injected : Work → Option Gen → Option Compiled
injected w none = none
injected w (some g) = some (record {
  ret = checked_depth w;
  work = record w { piir_stack = g.stack; symlist = g.symlist };
  vm = some g.vm;
})

abbrev pub generate : (ℕ → ℕ) → Option (Ret (Unit {0}) × Work) → Option Compiled
generate beyond none = none
generate beyond (some (err e, w)) = some (record { ret = err e; work = w; vm = none })
generate beyond (some (ok _, w)) = injected w (piir_inject beyond w.piir_stack w.symlist)

abbrev pub with_stack : (ℕ → ℕ) → Option PiirStack × Mem → Work → Option Compiled
with_stack beyond (none, m) w =
    some
      (record { ret = err enomem; work = record w { lex = record (w.lex) { mem = m } }; vm = none })
with_stack beyond (some st, m) w =
    let w' : Work = record w {
      lex = record (w.lex) { mem = m };
      piir_stack = st;
      symlist = symlist_init w.symlist.cache;
    } in
    generate beyond (parse_loop (lex_fuel w'.lex) w')

-- `beyond` is what the reads past the end of an instruction's array give.
unfoldable pub parse_work : (ℕ → ℕ) → Work → Option Compiled
parse_work beyond w = with_stack beyond (piir_stack_new w.lex.mem) w
