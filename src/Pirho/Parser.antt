-- ===== src/Pirho/Parser.antt =====
-- The parser, src/sys/np/core/np_parse.c. What it prints has no counterpart here, but for the name of a
-- token: `stoktab` has none for TT_STR, and the print of that reads through NULL.
pub mod Return
use l5lunos.Prelude.{ℕ, ◌+◌, ◌%◌, Bool, true, Option, none, some, ◌==◌, if◌then◌else◌}
use l5lunos.Prelude.Errno.{Errno, Ret, ok, err, fail, enomem, page_fault}
use l5lunos.Prelude.Int8.{ℤ, to_i8}
use l5lunos.Mem.Ptrbox.{Mem, CStr, ptrbox_strdup}
use l5lunos.Pirho.Token.{Token, TokVal, val, val_str, LexToken}
use l5lunos.Pirho.Lexer.{Lexer, lex_nom}
use l5lunos.Pirho.Symbol.{SymList, Symbol, symbol_alloc, text_of}
use l5lunos.Pirho.Piir.{PiirStack, piir_push, piir_ret_num, piir_ret_symbol}

-- `struct np_work`, with the token variable of `parse_work`.
pub record Work : Type 0 where
  pub lex : Lexer
  pub piir_stack : PiirStack
  pub symlist : SymList
  pub in_func : Bool
  pub begin_depth : ℕ
  pub tok : LexToken

-- A step of the parser; `none` means that a loop ran out of fuel, or a fault.
abbrev pub Parse : Type 0 → Type 0
Parse A = Work → Option (Ret A × Work)

module _ {A B : Type 0} where
  abbrev pub next : Option (Ret A × Work) → (A → Parse B) → Option (Ret B × Work)
  next none k = none
  next (some (ok a, w)) k = k a w
  next (some (err e, w)) k = some (err e, w)

  infixl 5 ◌>>=◌ ◌>>◌
  abbrev pub ◌>>=◌ : Parse A → (A → Parse B) → Parse B
  m >>= k = λ w. next (m w) k

  abbrev pub ◌>>◌ : Parse A → Parse B → Parse B
  m >> k = m >>= λ _. k

abbrev pub pure : {A : Type 0} → A → Parse A
pure a w = some (ok a, w)

abbrev pub stop : {A : Type 0} → Errno → Parse A
stop e w = some (err e, w)

-- MAX_BEGIN_DEPTH
abbrev pub max_begin_depth : ℕ
max_begin_depth = 8

-- `np_itype_t`
pub data IType : Type 0 where
  bad_type np_u8 np_u16 np_u32 np_u64 np_i8 np_i16 np_i32 np_i64 : IType

-- The value of a token type in the enumeration.
unfoldable pub tt_code : Token → ℕ
tt_code Token.no_token = 0
tt_code Token.lparen = 1
tt_code Token.rparen = 2
tt_code Token.ident = 3
tt_code Token.comma = 4
tt_code Token.star = 5
tt_code Token.minus = 6
tt_code Token.plus = 7
tt_code Token.slash = 8
tt_code Token.equals = 9
tt_code Token.gt = 10
tt_code Token.lt = 11
tt_code Token.lbrack = 12
tt_code Token.rbrack = 13
tt_code Token.colon = 14
tt_code Token.u8 = 15
tt_code Token.u16 = 16
tt_code Token.u32 = 17
tt_code Token.u64 = 18
tt_code Token.i8 = 19
tt_code Token.i16 = 20
tt_code Token.i32 = 21
tt_code Token.i64 = 22
tt_code Token.str = 23
tt_code Token.number = 24
tt_code Token.kw_begin = 25
tt_code Token.kw_proc = 26
tt_code Token.kw_end = 27
tt_code Token.kw_return = 28

-- NELEM(stoktab)
abbrev pub nelem_stoktab : ℕ
nelem_stoktab = 29

abbrev pub lexed :
    Work → Option (Ret (Unit {0}) × LexToken × Lexer) → Option (Ret (Unit {0}) × Work)
lexed w none = none
lexed w (some (r, t, s)) = some (r, record w { tok = t; lex = s })

-- `lex_nom(work, tok)`
unfoldable pub nom : Parse (Unit {0})
nom w = lexed w (lex_nom w.tok w.lex)

abbrev pub scanned : Option (Ret (Unit {0}) × Work) → Option (Ret Token × Work)
scanned none = none
scanned (some (ok _, w)) = some (ok w.tok.token, w)
scanned (some (err e, w)) = some (ok Token.no_token, w)

-- An error of the lexer becomes TT_NONE.
unfoldable pub parse_scan : Parse Token
parse_scan w = scanned (nom w)

-- The print of `stoktab[tok->token]`.
unfoldable pub print_token : Token → Parse (Unit {0})
print_token Token.str = stop page_fault
print_token _ = pure tt

abbrev pub not_expected : Parse Token
not_expected w = (print_token w.tok.token >> pure Token.no_token) w

unfoldable pub parse_expect : Token → Parse Token
parse_expect what = do t ← parse_scan; if tt_code t == tt_code what then pure t else not_expected

-- `parse_expect`, and a return of -1 where that gives TT_NONE.
unfoldable pub must : Token → Parse (Unit {0})
must what = do t ← parse_expect what; if tt_code t == 0 then stop fail else pure tt

unfoldable pub itype_of : Token → IType
itype_of Token.u8 = np_u8
itype_of Token.u16 = np_u16
itype_of Token.u32 = np_u32
itype_of Token.u64 = np_u64
itype_of Token.i8 = np_i8
itype_of Token.i16 = np_i16
itype_of Token.i32 = np_i32
itype_of Token.i64 = np_i64
itype_of _ = bad_type

unfoldable pub parse_type : Parse IType
parse_type = do t ← parse_scan; pure (itype_of t)

-- PIIR_PUSH: the byte is converted to `int8_t`, and the result of `piir_push` is ignored.
unfoldable pub emit : ℤ → Parse (Unit {0})
emit byte w = some (ok tt, record w { piir_stack = (piir_push w.piir_stack byte).1 })

-- The union of the token, read as a number and as a string. The parser reads the part that the
-- lexer wrote with the token's type.
abbrev pub num_of : TokVal → ℕ
num_of (val n) = n
num_of (val_str s) = 0

abbrev pub str_of : TokVal → Option CStr
str_of (val n) = none
str_of (val_str s) = s

abbrev pub addr_of : Option CStr → Option ℕ
addr_of none = none
addr_of (some s) = some s.addr

abbrev pub alloced : Work → Option Symbol × SymList × Mem → Option (Ret Symbol × Work)
alloced w (none, sl, m) =
    some (err fail, record w { symlist = sl; lex = record (w.lex) { mem = m } })
alloced w (some sym, sl, m) =
    some (ok sym, record w { symlist = sl; lex = record (w.lex) { mem = m } })

-- `symbol_alloc(&work->symlist, NULL, tok->val_str)`, and a return of -1 where that gives NULL.
unfoldable pub alloc_symbol : Parse Symbol
alloc_symbol w = alloced w (symbol_alloc none (addr_of (str_of w.tok.value)) w.symlist w.lex.mem)

abbrev pub return_value : Token → Parse (Unit {0})
return_value Token.number = emit piir_ret_num >> λ w. emit (to_i8 (num_of w.tok.value)) w
return_value Token.str = do sym ← alloc_symbol; emit piir_ret_symbol; emit (to_i8 sym.id)
return_value _ = stop fail

unfoldable pub parse_return : Parse (Unit {0})
parse_return = nom >> λ w. return_value w.tok.token w

abbrev pub dupped : Work → Option CStr × Mem → Option (Ret (Unit {0}) × Work)
dupped w (none, m) = some (err enomem, record w { lex = record (w.lex) { mem = m } })
dupped w (some s, m) = some (ok tt, record w { lex = record (w.lex) { mem = m } })

-- `ptrbox_strdup(tok->val_str, work->work_mem)`
unfoldable pub dup_ident : Parse (Unit {0})
dup_ident w = dupped w (ptrbox_strdup (text_of (str_of w.tok.value)) w.lex.mem)

-- `++work->begin_depth` on `uint8_t`, and `work->in_func = 1`
unfoldable pub enter_func : Parse (Unit {0})
enter_func w = some (ok tt, record w { begin_depth = (w.begin_depth + 1) % 256; in_func = true })

unfoldable pub check_type : IType → Parse (Unit {0})
check_type bad_type = λ w. (print_token w.tok.token >> stop fail) w
check_type _ = pure tt

-- Behind '-' and '>' the source tests the pointer `tok`, which is never NULL, for TT_NONE; so the
-- results of these two calls of `parse_expect` are not looked at.
unfoldable pub parse_proc : Parse (Unit {0})
parse_proc = do
  must Token.ident
  dup_ident
  must Token.lparen
  must Token.rparen
  parse_expect Token.minus
  parse_expect Token.gt
  t ← parse_type
  check_type t
  must Token.kw_begin
  enter_func
