-- ===== src/Pirho/Lexer/Scan.antt =====
-- The specification of the lexer, src/sys/np/core/np_lex.c: functions on the characters that are
-- left.
use l5lunos.Prelude.{
  ℕ, ◌+◌, ◌-◌, ◌*◌, ◌%◌, ◌^◌, Bool, true, false, not, ◌&&◌, Option, none, some, [], ◌∷◌, ◌++◌, leb,
  ◌==◌, if◌then◌else◌, Bytes, length,
}
use l5lunos.Prelude.Errno.{Ret, ok, err, fail, lex_eof}
use l5lunos.Mem.Kalloc.{Heap, kalloc, kfree}
use l5lunos.Mem.Ptrbox.{Mem, ptrbox_strdup}
use l5lunos.Pirho.Chars.{is_alpha, is_num, is_space}
use l5lunos.Pirho.Token.{
  Token, no_token, number, str, val, val_str, LexToken, lex_cmptok, lex_arithop, lex_cmpop,
  lex_punct,
}
use l5lunos.Pirho.Lexer.{max_id_len, lex_max_strlen}

-- The result with the token, and what is left: the input, the line and the memory.
pub record Lexeme : Type 0 where
  pub ret : Ret (Unit {0})
  pub tok : LexToken
  pub rest : Bytes
  pub line : ℕ
  pub mem : Mem

-- The first character that is no white space, or 0, with the line and the input behind it.
unfoldable pub skip : ℕ → Bytes → ℕ × ℕ × Bytes
skip l [] = (0, l, [])
skip l (c ∷ p) =
    let again = skip (if c == b'\n' then l + 1 else l) p in if is_space c then again else (c, l, p)

-- The identifier that begins with `id` and `c`.
unfoldable pub scan_id : Bytes → ℕ → Bytes → Ret Bytes × Bytes
scan_id id c [] =
    if leb max_id_len (length id)
    then (err fail, [])
    else if not (is_alpha c) && not (is_num c)
    then (ok id, c ∷ [])
    else (ok (id ++ c ∷ []), [])
scan_id id c (c' ∷ p) =
    let again = scan_id (id ++ c ∷ []) c' p in
    if leb max_id_len (length id)
    then (err fail, c' ∷ p)
    else if not (is_alpha c) && not (is_num c)
    then (ok id, c ∷ c' ∷ p)
    else if c' == 0
    then (ok (id ++ c ∷ []), p)
    else again

-- The number whose next character is `c`. The character that ends it is lost.
unfoldable pub scan_num : ℕ → ℕ → Bytes → ℕ × Bytes
scan_num num c [] = if is_num c then ((num * 10 + (c - b'0')) % 2 ^ 64, []) else (num, [])
scan_num num c (c' ∷ p) =
    let again = scan_num ((num * 10 + (c - b'0')) % 2 ^ 64) c' p in
    if is_num c then again else (num, c' ∷ p)

-- A string up to its closing quote; `false` where there is none, or where it is too long.
unfoldable pub scan_str : Bytes → Bytes → Bool × Bytes × Bytes
scan_str buf [] = (false, buf, [])
scan_str buf (c ∷ p) =
    let again = scan_str (buf ++ c ∷ []) p in
    if c == 0
    then (false, buf, p)
    else if leb (lex_max_strlen - 1) (length buf)
    then (false, buf, p)
    else if c == b'"'
    then (true, buf, p)
    else again

abbrev pub word_lexeme : LexToken → ℕ → Mem → Ret Bytes × Bytes → Lexeme
word_lexeme res l m (err e, p) = record { ret = err e; tok = res; rest = p; line = l; mem = m }
word_lexeme res l m (ok id, p) =
    let (q, m') = ptrbox_strdup (some id) m in
    record {
      ret = ok tt;
      tok = record { token = lex_cmptok id res.token; value = val_str q };
      rest = p;
      line = l;
      mem = m';
    }

abbrev pub num_lexeme : ℕ → Mem → ℕ × Bytes → Lexeme
num_lexeme l m (n, p) = record {
  ret = ok tt;
  tok = record { token = number; value = val n };
  rest = p;
  line = l;
  mem = m;
}

abbrev pub freed : ℕ → Mem → Mem
freed p m = record m { heap = kfree (some p) m.heap }

abbrev pub closed_lexeme : LexToken → ℕ → ℕ → Mem → Bool × Bytes × Bytes → Lexeme
closed_lexeme res a l m (true, buf, p) =
    let (q, m') = ptrbox_strdup (some buf) m in
    record {
      ret = ok tt;
      tok = record { token = str; value = val_str q };
      rest = p;
      line = l;
      mem = freed a m';
    }
closed_lexeme res a l m (false, buf, p) = record {
  ret = err fail;
  tok = record res { token = str };
  rest = p;
  line = l;
  mem = freed a m;
}

abbrev pub str_lexeme : LexToken → Option ℕ × Heap → Bytes → ℕ → Mem → Lexeme
str_lexeme res (none, h) p l m = record {
  ret = err fail;
  tok = res;
  rest = p;
  line = l;
  mem = record m { heap = h };
}
str_lexeme res (some a, h) p l m = closed_lexeme res a l (record m { heap = h }) (scan_str [] p)

abbrev pub plain_lexeme : LexToken → Token → Bytes → ℕ → Mem → Lexeme
plain_lexeme res t p l m = record {
  ret = ok tt;
  tok = record res { token = t };
  rest = p;
  line = l;
  mem = m;
}

abbrev pub failed_lexeme : LexToken → Bytes → ℕ → Mem → Lexeme
failed_lexeme res p l m = record { ret = err fail; tok = res; rest = p; line = l; mem = m }

unfoldable pub scan_default : ℕ → LexToken → Bytes → ℕ → Mem → Lexeme
scan_default c res p l m =
    let as_number = num_lexeme l m (scan_num 0 c p) in
    let as_word = word_lexeme res l m (scan_id [] c p) in
    if is_num c then as_number else elim (lex_arithop c) [
      | some t ↦ plain_lexeme res t p l m
      | none ↦ elim (lex_cmpop c) [
        | some t ↦ plain_lexeme res t p l m
        | none ↦ if is_alpha c then as_word else failed_lexeme res p l m
      ]
    ]

unfoldable pub scan_token : ℕ → LexToken → Bytes → ℕ → Mem → Lexeme
scan_token c res p l m =
    let as_str = str_lexeme res (kalloc lex_max_strlen m.heap) p l m in
    let otherwise = scan_default c res p l m in
    let eof : Lexeme = record { ret = err lex_eof; tok = res; rest = p; line = l; mem = m } in
    if c == 0 then eof else elim (lex_punct c) [
      | some t ↦ plain_lexeme res t p l m
      | none ↦ if c == b'"' then as_str else otherwise
    ]

abbrev pub scan_from : LexToken → Mem → ℕ × ℕ × Bytes → Lexeme
scan_from res m (c, l, p) = scan_token c (record res { token = no_token }) p l m

-- The next token of the input `p` on line `l`.
unfoldable pub scan : LexToken → Bytes → ℕ → Mem → Lexeme
scan res p l m = scan_from res m (skip l p)
