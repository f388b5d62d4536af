-- ===== src/Pirho/Lexer.antt =====
-- The lexer, src/sys/np/core/np_lex.c. Each loop runs on fuel; `none` means that the fuel ran
-- out, and `lex_fuel` is enough, since each round takes a character and the end of the input ends
-- each loop.
pub mod Input
pub mod Scan
pub mod Loops
pub mod Refine
pub mod Progress
pub mod Results
use l5lunos.Prelude.{
  ℕ, zero, suc, ◌+◌, ◌-◌, ◌*◌, ◌%◌, ◌^◌, Bool, true, false, not, ◌&&◌, Option, none, some, [], ◌∷◌,
  ◌++◌, leb, ◌==◌, if◌then◌else◌, ◌>>=◌, Bytes, length, get_or,
}
use l5lunos.Prelude.Errno.{Ret, ok, err, fail, lex_eof}
use l5lunos.Mem.Kalloc.{Heap, kalloc, kfree}
use l5lunos.Mem.Ptrbox.{Mem, ptrbox_strdup}
use l5lunos.Pirho.Chars.{is_alpha, is_num, is_space}
use l5lunos.Pirho.Token.{
  no_token, number, str, val, val_str, LexToken, lex_cmptok, lex_arithop, lex_cmpop, lex_punct,
}

-- The fields of `struct np_work` that the lexer uses, `lex_st.source_idx` among them.
pub record Lexer : Type 0 where
  pub source : Bytes
  pub source_size : ℕ
  pub source_idx : ℕ
  pub ccache : ℕ
  pub line_no : ℕ
  pub mem : Mem

-- MAX_ID_LEN and LEX_MAX_STRLEN
abbrev pub max_id_len : ℕ
max_id_len = 32

abbrev pub lex_max_strlen : ℕ
lex_max_strlen = 4096

unfoldable pub lex_pop : Lexer → ℕ × Lexer
lex_pop s =
    if not (s.ccache == 0)
    then (s.ccache, record s { ccache = 0 })
    else if leb s.source_size s.source_idx
    then (0, s)
    else (get_or s.source s.source_idx 0, record s { source_idx = s.source_idx + 1 })

unfoldable pub lex_fuel : Lexer → ℕ
lex_fuel s = s.source_size - s.source_idx + 2

-- The loop of `lex_matchstr`: the identifier, or -1 where it is too long.
unfoldable pub match_id : ℕ → Bytes → ℕ → Lexer → Option (Ret Bytes × Lexer)
match_id zero id c s = none
match_id (suc f) id c s =
    let (c', s') = lex_pop s in
    let rest = match_id f (id ++ c ∷ []) c' s' in
    if leb max_id_len (length id)
    then some (err fail, s)
    else if not (is_alpha c) && not (is_num c)
    then some (ok id, record s { ccache = c })
    else if c' == 0
    then some (ok (id ++ c ∷ []), s')
    else rest

-- What `lex_matchstr` does with the identifier.
abbrev pub matched : LexToken → Ret Bytes × Lexer → Ret (Unit {0}) × LexToken × Lexer
matched res (err e, s) = (err e, res, s)
matched res (ok id, s) =
    let (p, m) = ptrbox_strdup (some id) s.mem in
    (ok tt, record { token = lex_cmptok id res.token; value = val_str p }, record s { mem = m })

unfoldable pub lex_matchstr : ℕ → LexToken → Lexer → Option (Ret (Unit {0}) × LexToken × Lexer)
lex_matchstr c res s = match_id (lex_fuel s) [] c s >>= λ r. some (matched res r)

-- The loop of `lex_nomnum`, over `uint64_t`.
unfoldable pub nom_digits : ℕ → ℕ → ℕ → Lexer → Option (ℕ × Lexer)
nom_digits zero num c s = none
nom_digits (suc f) num c s =
    let (c', s') = lex_pop s in
    let rest = nom_digits f ((num * 10 + (c - b'0')) % 2 ^ 64) c' s' in
    if is_num c then rest else some (num, s)

unfoldable pub lex_nomnum : ℕ → LexToken → Lexer → Option (LexToken × Lexer)
lex_nomnum c res s = nom_digits (lex_fuel s) 0 c s >>= λ (num, s').
    some (record { token = number; value = val num }, s')

-- The loop of `lex_nomstr`: `have_term` and the buffer.
unfoldable pub nom_chars : ℕ → Bytes → Lexer → Option (Bool × Bytes × Lexer)
nom_chars zero buf s = none
nom_chars (suc f) buf s =
    let (c, s') = lex_pop s in
    let rest = nom_chars f (buf ++ c ∷ []) s' in
    if c == 0
    then some (false, buf, s')
    else if leb (lex_max_strlen - 1) (length buf)
    then some (false, buf, s')
    else if c == b'"'
    then some (true, buf, s')
    else rest

-- `kfree(strbuf)`
abbrev pub free_buf : ℕ → Lexer → Lexer
free_buf p s = record s { mem = record (s.mem) { heap = kfree (some p) s.mem.heap } }

-- What `lex_nomstr` does with the buffer at address `p`.
abbrev pub finish_str : ℕ → LexToken → Bool × Bytes × Lexer → Ret (Unit {0}) × LexToken × Lexer
finish_str p res (true, buf, s) =
    let (q, m) = ptrbox_strdup (some buf) s.mem in
    (ok tt, record { token = str; value = val_str q }, free_buf p (record s { mem = m }))
finish_str p res (false, buf, s) = (err fail, record res { token = str }, free_buf p s)

abbrev pub with_strbuf :
    LexToken → Option ℕ × Heap → Lexer → Option (Ret (Unit {0}) × LexToken × Lexer)
with_strbuf res (none, h) s = some (err fail, res, record s { mem = record (s.mem) { heap = h } })
with_strbuf res (some p, h) s =
    let s' = record s { mem = record (s.mem) { heap = h } } in
    nom_chars (lex_fuel s') [] s' >>= λ r. some (finish_str p res r)

unfoldable pub lex_nomstr : LexToken → Lexer → Option (Ret (Unit {0}) × LexToken × Lexer)
lex_nomstr res s = with_strbuf res (kalloc lex_max_strlen s.mem.heap) s

-- The loop of `lex_nom` over white space: the first character behind it, or 0.
unfoldable pub skip_space : ℕ → Lexer → Option (ℕ × Lexer)
skip_space zero s = none
skip_space (suc f) s =
    let (c, s') = lex_pop s in
    let s'' = if c == b'\n' then record s' { line_no = s'.line_no + 1 } else s' in
    let rest = skip_space f s'' in
    if c == 0 then some (0, s') else if is_space c then rest else some (c, s'')

-- The `default` case of the `switch` of `lex_nom`.
unfoldable pub nom_default : ℕ → LexToken → Lexer → Option (Ret (Unit {0}) × LexToken × Lexer)
nom_default c res s =
    let as_number = lex_nomnum c res s >>= λ (t, s'). some (ok tt, t, s') in
    let as_word = lex_matchstr c res s in
    if is_num c then as_number else elim (lex_arithop c) [
      | some t ↦ some (ok tt, record res { token = t }, s)
      | none ↦ elim (lex_cmpop c) [
        | some t ↦ some (ok tt, record res { token = t }, s)
        | none ↦ if is_alpha c then as_word else some (err fail, res, s)
      ]
    ]

-- The `switch` of `lex_nom`.
unfoldable pub nom_token : ℕ → LexToken → Lexer → Option (Ret (Unit {0}) × LexToken × Lexer)
nom_token c res s =
    let as_str = lex_nomstr res s in
    let otherwise = nom_default c res s in
    if c == 0 then some (err lex_eof, res, s) else elim (lex_punct c) [
      | some t ↦ some (ok tt, record res { token = t }, s)
      | none ↦ if c == b'"' then as_str else otherwise
    ]

unfoldable pub lex_nom : LexToken → Lexer → Option (Ret (Unit {0}) × LexToken × Lexer)
lex_nom res s =
    skip_space (lex_fuel s) s >>= λ (c, s'). nom_token c (record res { token = no_token }) s'
