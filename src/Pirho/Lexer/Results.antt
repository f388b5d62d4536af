-- ===== src/Pirho/Lexer/Results.antt =====
-- Proofs on the results of the specification of the lexer, src/sys/np/core/np_lex.c: none is a fault.
use l5lunos.Prelude.{
  ℕ, ◌≡◌, refl, inl, inr, Bool-cases, Option-cases, Bool, true, false, Option, none, some, [], ◌∷◌,
  ◌++◌, arith, ◌==◌, Bytes,
}
use l5lunos.Prelude.Errno.{Ret, ok, err, fail, faults}
use l5lunos.Mem.Kalloc.{Heap, kalloc}
use l5lunos.Mem.Ptrbox.{Mem}
use l5lunos.Pirho.Chars.{is_alpha, is_num}
use l5lunos.Pirho.Token.{LexToken, no_token, lex_arithop, lex_cmpop, lex_punct}
use l5lunos.Pirho.Lexer.{lex_max_strlen}
use l5lunos.Pirho.Lexer.Scan.{
  skip, scan_id, scan_str, word_lexeme, closed_lexeme, str_lexeme, scan_default, scan_token, scan,
}

scan_id-faults : (id : Bytes) (c : ℕ) (p : Bytes) → faults (scan_id id c p).0 ≡ false
unfolding scan_id
scan_id-faults id c [] = ground arith
scan_id-faults id c (c' ∷ p) = ground (arith, scan_id-faults (id ++ c ∷ []) c' p)

word_lexeme-faults :
    (res : LexToken) (l : ℕ) (m : Mem) (r : Ret Bytes × Bytes)
    → faults r.0 ≡ false
    → faults (word_lexeme res l m r).ret ≡ false
word_lexeme-faults res l m (ok id, p) h = refl
word_lexeme-faults res l m (err fail, p) h = refl
word_lexeme-faults res l m (err e, p) h = h

closed_lexeme-faults :
    (res : LexToken) (a l : ℕ) (m : Mem) (r : Bool × Bytes × Bytes)
    → faults (closed_lexeme res a l m r).ret ≡ false
closed_lexeme-faults res a l m (true, buf, p) = refl
closed_lexeme-faults res a l m (false, buf, p) = refl

str_lexeme-faults :
    (res : LexToken) (r : Option ℕ × Heap) (p : Bytes) (l : ℕ) (m : Mem)
    → faults (str_lexeme res r p l m).ret ≡ false
str_lexeme-faults res (none, h) p l m = refl
str_lexeme-faults res (some a, h) p l m =
    closed_lexeme-faults res a l (record m { heap = h }) (scan_str [] p)

module _ (res : LexToken) (p : Bytes) (l : ℕ) (m : Mem) where
  scan_default-faults : (c : ℕ) → faults (scan_default c res p l m).ret ≡ false
  unfolding scan_default
  scan_default-faults c = elim (Bool-cases (is_num c)) [
    | inl d ↦ rw d refl
    | inr d ↦ elim (Option-cases (lex_arithop c)) [
      | inr (t, e) ↦ rw (d, e) refl
      | inl e ↦ elim (Option-cases (lex_cmpop c)) [
        | inr (t, f) ↦ rw (d, e, f) refl
        | inl f ↦ elim (Bool-cases (is_alpha c)) [
          | inl a ↦
              rw (d, e, f, a) (word_lexeme-faults res l m (scan_id [] c p) (scan_id-faults [] c p))
          | inr a ↦ rw (d, e, f, a) refl
        ]
      ]
    ]
  ]

  scan_token-faults : (c : ℕ) → faults (scan_token c res p l m).ret ≡ false
  unfolding scan_token
  scan_token-faults c = elim (Bool-cases (c == 0)) [
    | inl z ↦ rw z refl
    | inr n ↦ elim (Option-cases (lex_punct c)) [
      | inr (t, e) ↦ rw (n, e) refl
      | inl e ↦ elim (Bool-cases (c == b'"')) [
        | inl q ↦ rw (n, e, q) (str_lexeme-faults res (kalloc lex_max_strlen m.heap) p l m)
        | inr q ↦ rw (n, e, q) (scan_default-faults c)
      ]
    ]
  ]

pub scan-faults :
    (res : LexToken) (p : Bytes) (l : ℕ) (m : Mem) → faults (scan res p l m).ret ≡ false
unfolding scan
scan-faults res p l m =
    scan_token-faults (record res { token = no_token }) (skip l p).2 (skip l p).1 m (skip l p).0
