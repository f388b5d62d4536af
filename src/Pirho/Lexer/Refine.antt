-- ===== src/Pirho/Lexer/Refine.antt =====
-- Proofs on `lex_nom` of src/sys/np/core/np_lex.c, against the specification.
use l5lunos.Prelude.{
  ℕ, ◌≡◌, refl, ap, inl, inr, Bool-cases, Option-cases, Bool, true, false, Option, none, some, [],
  arith, ◌==◌, ◌>>=◌, Bytes, length,
}
use l5lunos.Prelude.Errno.{Ret, ok, err, fail}
use l5lunos.Mem.Kalloc.{Heap, kalloc}
use l5lunos.Mem.Ptrbox.{Mem, ptrbox_strdup}
use l5lunos.Pirho.Chars.{is_alpha, is_num}
use l5lunos.Pirho.Token.{
  no_token, str, val_str, LexToken, lex_cmptok, lex_arithop, lex_cmpop, lex_punct,
}
use l5lunos.Pirho.Lexer.{
  Lexer, lex_max_strlen, lex_fuel, matched, lex_matchstr, lex_nomnum, finish_str, with_strbuf,
  lex_nomstr, nom_default, nom_token, lex_nom,
}
use l5lunos.Pirho.Lexer.Input.{Sees, Clear, pending, Clear-lt-lex_fuel, pending-lt-lex_fuel}
use l5lunos.Pirho.Lexer.Scan.{
  skip, scan_id, scan_num, scan_str, Lexeme, word_lexeme, num_lexeme, freed, closed_lexeme,
  str_lexeme, scan_default, scan_token, scan,
}
use l5lunos.Pirho.Lexer.Loops.{skip_space-Ends, match_id-Stops, nom_digits-Ends, nom_chars-Ends}

-- A step of the lexer that ends with the lexeme `x`.
abbrev pub Yields : Option (Ret (Unit {0}) × LexToken × Lexer) → Lexeme → Type 0
Yields o x = (s : Lexer) × (o ≡ some (x.ret, x.tok, s)) × Sees s x.rest x.line x.mem

mem-Sees :
    (s : Lexer) (p : Bytes) (l : ℕ) (m m' : Mem)
    → Sees s p l m
    → Sees (record s { mem = m' }) p l m'
unfolding pending
mem-Sees s p l m m' v = record { size = v.size; input = v.input; line = v.line; memory = refl }

mem-Clear :
    (s : Lexer) (p : Bytes) (l : ℕ) (m m' : Mem)
    → Clear s p l m
    → Clear (record s { mem = m' }) p l m'
mem-Clear s p l m m' v = record { sees = mem-Sees s p l m m' v.sees; cache = v.cache }

matched-Yields :
    (res : LexToken) (r : Ret Bytes × Bytes) (s : Lexer) (l : ℕ) (m : Mem)
    → Sees s r.1 l m
    → Yields (some (matched res (r.0, s))) (word_lexeme res l m r)
matched-Yields res (err e, p) s l m v = (s, refl, v)
matched-Yields res (ok id, p) s l m v = (
  record s { mem = (ptrbox_strdup (some id) m).1 },
  ap
      (λ k. some (
        ok tt,
        record { token = lex_cmptok id res.token; value = val_str (ptrbox_strdup (some id) k).0 },
        record s { mem = (ptrbox_strdup (some id) k).1 },
      ))
      v.memory,
  mem-Sees s p l m _ v,
)

lex_matchstr-Yields :
    (c : ℕ) (res : LexToken) (s : Lexer) (p : Bytes) (l : ℕ) (m : Mem)
    → Clear s p l m
    → (c == 0) ≡ false
    → Yields (lex_matchstr c res s) (word_lexeme res l m (scan_id [] c p))
unfolding lex_matchstr
lex_matchstr-Yields c res s p l m v n =
    let fuel = Clear-lt-lex_fuel s p l m v in
    let (s', e, w) = match_id-Stops (lex_fuel s) [] c s p l m v n (omega arith) in
    simp e (matched-Yields res (scan_id [] c p) s' l m w)

lex_nomnum-Yields :
    (c : ℕ) (res : LexToken) (s : Lexer) (p : Bytes) (l : ℕ) (m : Mem)
    → Clear s p l m
    → Yields
        (lex_nomnum c res s >>= λ (t, s'). some (ok tt, t, s'))
        (num_lexeme l m (scan_num 0 c p))
unfolding lex_nomnum
lex_nomnum-Yields c res s p l m v =
    let fuel = Clear-lt-lex_fuel s p l m v in
    let (s', e, w) = nom_digits-Ends (lex_fuel s) 0 c s p l m v (omega arith) in
    simp e (s', refl, w.sees)

finish_str-Yields :
    (a : ℕ) (res : LexToken) (r : Bool × Bytes × Bytes) (s : Lexer) (l : ℕ) (m : Mem)
    → Clear s r.2 l m
    → Yields (some (finish_str a res (r.0, r.1, s))) (closed_lexeme res a l m r)
finish_str-Yields a res (true, buf, p) s l m v = (
  record s { mem = freed a (ptrbox_strdup (some buf) m).1 },
  ap
      (λ k. some (
        ok tt,
        record { token = str; value = val_str (ptrbox_strdup (some buf) k).0 },
        record s { mem = freed a (ptrbox_strdup (some buf) k).1 },
      ))
      v.sees.memory,
  mem-Sees s p l m _ v.sees,
)
finish_str-Yields a res (false, buf, p) s l m v = (
  record s { mem = freed a m },
  ap (λ k. some (err fail, record res { token = str }, record s { mem = freed a k })) v.sees.memory,
  mem-Sees s p l m _ v.sees,
)

with_strbuf-Yields :
    (res : LexToken) (r : Option ℕ × Heap) (s : Lexer) (p : Bytes) (l : ℕ) (m : Mem)
    → Clear s p l m
    → Yields (with_strbuf res r s) (str_lexeme res r p l m)
with_strbuf-Yields res (none, h) s p l m v = (
  record s { mem = record m { heap = h } },
  ap (λ k. some (err fail, res, record s { mem = record k { heap = h } })) v.sees.memory,
  mem-Sees s p l m _ v.sees,
)
with_strbuf-Yields res (some a, h) s p l m v =
    let m' : Mem = record m { heap = h } in
    let s' : Lexer = record s { mem = record (s.mem) { heap = h } } in
    let v' : Clear s' p l m' = record {
      sees = record {
        size = v.sees.size;
        input = (mem-Sees s p l m (record (s.mem) { heap = h }) v.sees).input;
        line = v.sees.line;
        memory = ap (λ (k : Mem). record k { heap = h }) v.sees.memory;
      };
      cache = v.cache;
    } in
    let fuel = Clear-lt-lex_fuel s' p l m' v' in
    let (s'', e, w) = nom_chars-Ends (lex_fuel s') [] s' p l m' v' (omega arith) in
    simp e (finish_str-Yields a res (scan_str [] p) s'' l m' w)

module _ (res : LexToken) (s : Lexer) (p : Bytes) (l : ℕ) (m : Mem) (v : Clear s p l m) where
  nom_default-Yields :
      (c : ℕ) → (c == 0) ≡ false → Yields (nom_default c res s) (scan_default c res p l m)
  unfolding nom_default scan_default
  nom_default-Yields c n = elim (Bool-cases (is_num c)) [
    | inl d ↦ simp d (lex_nomnum-Yields c res s p l m v)
    | inr d ↦ elim (Option-cases (lex_arithop c)) [
      | inr (t, e) ↦ simp (d, e) (s, refl, v.sees)
      | inl e ↦ elim (Option-cases (lex_cmpop c)) [
        | inr (t, f) ↦ simp (d, e, f) (s, refl, v.sees)
        | inl f ↦ elim (Bool-cases (is_alpha c)) [
          | inl a ↦ simp (d, e, f, a) (lex_matchstr-Yields c res s p l m v n)
          | inr a ↦ simp (d, e, f, a) (s, refl, v.sees)
        ]
      ]
    ]
  ]

  lex_nomstr-Yields :
      Yields (lex_nomstr res s) (str_lexeme res (kalloc lex_max_strlen m.heap) p l m)
  unfolding lex_nomstr
  lex_nomstr-Yields = rw (← v.sees.memory) (
      with_strbuf-Yields res (kalloc lex_max_strlen s.mem.heap) s p l s.mem (record {
        sees = record {
          size = v.sees.size;
          input = v.sees.input;
          line = v.sees.line;
          memory = refl;
        };
        cache = v.cache;
      }))

  nom_token-Yields : (c : ℕ) → Yields (nom_token c res s) (scan_token c res p l m)
  unfolding nom_token scan_token
  nom_token-Yields c = elim (Bool-cases (c == 0)) [
    | inl z ↦ simp z (s, refl, v.sees)
    | inr n ↦ elim (Option-cases (lex_punct c)) [
      | inr (t, e) ↦ simp (n, e) (s, refl, v.sees)
      | inl e ↦ elim (Bool-cases (c == b'"')) [
        | inl q ↦ simp (n, e, q) lex_nomstr-Yields
        | inr q ↦ simp (n, e, q) (nom_default-Yields c n)
      ]
    ]
  ]

-- On every lexer whose source has at least `source_size` bytes, `lex_nom` ends, with the result, the
-- token, the rest of the input, the line and the memory that the specification `scan` gives for the
-- input that is left.
pub lex_nom-scan :
    (res : LexToken) (s : Lexer) (p : Bytes) (l : ℕ) (m : Mem)
    → Sees s p l m
    → Yields (lex_nom res s) (scan res p l m)
unfolding lex_nom scan
lex_nom-scan res s p l m v =
    let fuel = pending-lt-lex_fuel s in
    let (s', e, w) = skip_space-Ends (lex_fuel s) s p l m v (omega (arith, ap length v.input)) in
    simp e (
      nom_token-Yields (record res { token = no_token }) s' (skip l p).2 (skip l p).1 m w
        (skip l p).0)
