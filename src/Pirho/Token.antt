-- ===== src/Pirho/Token.antt =====
-- src/sys/include/np/lex.h: token types and tokens, and the keyword tables of
-- src/sys/np/core/np_lex.c.
use l5lunos.Prelude.{
  ℕ, Option, none, some, ◌||◌, ◌==◌, if◌then◌else◌, Bytes, codes, same_text, get_or,
}
use l5lunos.Mem.Ptrbox.{CStr}

-- `tt_t`, without the prefix TT_; `kw_return` is TT_RETURN.
pub data Token : Type 0 where
  no_token lparen rparen ident comma star minus plus slash equals gt lt lbrack rbrack colon : Token
  u8 u16 u32 u64 i8 i16 i32 i64 str number kw_begin kw_proc kw_end kw_return : Token

-- The union of `struct lex_token`: what was last written to it.
pub data TokVal : Type 0 where
  val : ℕ → TokVal
  val_str : Option CStr → TokVal

pub record LexToken : Type 0 where
  pub token : Token
  pub value : TokVal

-- `lex_cmp_itype`; the token stays as it is where nothing matches.
unfoldable pub lex_cmp_itype : Bytes → Token → Token
unfolding same_text
lex_cmp_itype tokstr t =
    let first = get_or tokstr 0 0 in
    if first == b'u'
    then (if same_text tokstr (codes "u8")
        then u8
        else if same_text tokstr (codes "u16")
        then u16
        else if same_text tokstr (codes "u32")
        then u32
        else if same_text tokstr (codes "u64")
        then u64
        else t)
    else if first == b'i'
    then (if same_text tokstr (codes "i8")
        then i8
        else if same_text tokstr (codes "i16")
        then i16
        else if same_text tokstr (codes "i32")
        then i32
        else if same_text tokstr (codes "i64")
        then i64
        else t)
    else t

-- `lex_cmptok`, which always returns 0.
unfoldable pub lex_cmptok : Bytes → Token → Token
unfolding same_text lex_cmp_itype
lex_cmptok tokstr t =
    let first = get_or tokstr 0 0 in
    if first == b'r'
    then (if same_text tokstr (codes "return") then kw_return else t)
    else if first == b'b'
    then (if same_text tokstr (codes "begin") then kw_begin else t)
    else if first == b'e'
    then (if same_text tokstr (codes "end") then kw_end else t)
    else if first == b'p'
    then (if same_text tokstr (codes "proc") then kw_proc else t)
    else if first == b'u' || first == b'i'
    then lex_cmp_itype tokstr t
    else ident

-- `lex_arithop` and `lex_cmpop`: the token of an operator character.
unfoldable pub lex_arithop : ℕ → Option Token
lex_arithop c =
    if c == b'*'
    then some star
    else if c == b'-'
    then some minus
    else if c == b'+'
    then some plus
    else if c == b'/'
    then some slash
    else none

unfoldable pub lex_cmpop : ℕ → Option Token
lex_cmpop c = if c == b'>' then some gt else if c == b'<' then some lt else none

-- The cases of the `switch` of `lex_nom` that are a single character.
unfoldable pub lex_punct : ℕ → Option Token
lex_punct c =
    if c == b'('
    then some lparen
    else if c == b')'
    then some rparen
    else if c == b','
    then some comma
    else if c == b'='
    then some equals
    else if c == b'['
    then some lbrack
    else if c == b']'
    then some rbrack
    else if c == b':'
    then some colon
    else none
