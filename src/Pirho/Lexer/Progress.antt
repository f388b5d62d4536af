-- ===== src/Pirho/Lexer/Progress.antt =====
-- Proofs on how much of its input the specification of the lexer, src/sys/np/core/np_lex.c,
-- takes.
use l5lunos.Prelude.{
  ℕ, ◌+◌, ◌-◌, ◌*◌, ◌%◌, ◌^◌, ◌<◌, ◌≤◌, ◌≡◌, ◌≢◌, ◌⊎◌, refl, inl, inr, Bool-cases, Option-cases,
  Bool, true, false, not, ◌&&◌, Option, none, some, [], ◌∷◌, ◌++◌, arith, ◌==◌, if◌then◌else◌,
  Bytes, length,
}
use l5lunos.Prelude.Errno.{Ret, ok, err}
use l5lunos.Mem.Kalloc.{Heap, kalloc}
use l5lunos.Mem.Ptrbox.{Mem}
use l5lunos.Pirho.Chars.{is_alpha, is_num, is_space}
use l5lunos.Pirho.Token.{LexToken, no_token, lex_arithop, lex_cmpop, lex_punct}
use l5lunos.Pirho.Lexer.{lex_max_strlen}
use l5lunos.Pirho.Lexer.Scan.{
  skip, scan_id, scan_num, scan_str, word_lexeme, closed_lexeme, str_lexeme, scan_default,
  scan_token, scan,
}

skip-length :
    (l : ℕ) (p : Bytes)
    → (length (skip l p).2 ≤ length p) × ((skip l p).0 ≡ 0 ⊎ (length (skip l p).2 < length p))
unfolding skip
skip-length l [] = (omega arith, inl refl)
skip-length l (c ∷ p) =
    let ih = skip-length (if c == b'\n' then l + 1 else l) p in
    elim (Bool-cases (is_space c)) [
      | inl e ↦ simp e (omega (arith, ih.0), ground (arith, ih.0, ih.1))
      | inr e ↦ simp e (omega arith, inr (omega arith))
    ]

scan_id-length :
    (id : Bytes) (c : ℕ) (p : Bytes)
    → (length (scan_id id c p).1 ≤ length p + 1)
      × ((not (is_alpha c) && not (is_num c)) ≡ false → length (scan_id id c p).1 ≤ length p)
unfolding scan_id
scan_id-length id c [] = ground arith
scan_id-length id c (c' ∷ p) = ground (arith, scan_id-length (id ++ c ∷ []) c' p)

scan_num-length : (num c : ℕ) (p : Bytes) → length (scan_num num c p).1 ≤ length p
unfolding scan_num
scan_num-length num c [] = ground arith
scan_num-length num c (c' ∷ p) = elim (Bool-cases (is_num c)) [
  | inl d ↦ let ih = scan_num-length ((num * 10 + (c - b'0')) % 2 ^ 64) c' p in simp d (omega arith)
  | inr d ↦ simp d (omega arith)
]

scan_str-length : (buf p : Bytes) → length (scan_str buf p).2 ≤ length p
unfolding scan_str
scan_str-length buf [] = omega arith
scan_str-length buf (c ∷ p) = ground (arith, scan_str-length (buf ++ c ∷ []) p)

word_lexeme-length :
    (res : LexToken) (l : ℕ) (m : Mem) (r : Ret Bytes × Bytes)
    → length (word_lexeme res l m r).rest ≤ length r.1
word_lexeme-length res l m (err e, p) = omega arith
word_lexeme-length res l m (ok id, p) = omega arith

str_lexeme-length :
    (res : LexToken) (r : Option ℕ × Heap) (p : Bytes) (l : ℕ) (m : Mem)
    → length (str_lexeme res r p l m).rest ≤ length p
str_lexeme-length res (none, h) p l m = omega arith
str_lexeme-length res (some a, h) p l m =
    closed (record m { heap = h }) (scan_str [] p) (scan_str-length [] p)
  where
    closed :
        (k : Mem) (r : Bool × Bytes × Bytes)
        → length r.2 ≤ length p
        → length (closed_lexeme res a l k r).rest ≤ length p
    closed k (true, buf, q) h = h
    closed k (false, buf, q) h = h

module _ (res : LexToken) (p : Bytes) (l : ℕ) (m : Mem) where
  scan_default-length : (c : ℕ) → length (scan_default c res p l m).rest ≤ length p
  unfolding scan_default
  scan_default-length c = elim (Bool-cases (is_num c)) [
    | inl d ↦ simp d (scan_num-length 0 c p)
    | inr d ↦ elim (Option-cases (lex_arithop c)) [
      | inr (t, e) ↦ simp (d, e) (omega arith)
      | inl e ↦ elim (Option-cases (lex_cmpop c)) [
        | inr (t, f) ↦ simp (d, e, f) (omega arith)
        | inl f ↦ elim (Bool-cases (is_alpha c)) [
          | inl a ↦
              simp (d, e, f, a)
                (omega (
                  arith,
                  word_lexeme-length res l m (scan_id [] c p),
                  (scan_id-length [] c p).1 (simp a),
                ))
          | inr a ↦ simp (d, e, f, a) (omega arith)
        ]
      ]
    ]
  ]

  scan_token-length :
      (c : ℕ)
      → (length (scan_token c res p l m).rest ≤ length p)
        × ((scan_token c res p l m).ret ≡ ok tt → c ≢ 0)
  unfolding scan_token
  scan_token-length c = elim (Bool-cases (c == 0)) [
    | inl z ↦ simp z (omega arith, λ e. cc)
    | inr n ↦ elim (Option-cases (lex_punct c)) [
      | inr (t, e) ↦ simp (n, e) (omega arith, λ k. ground arith)
      | inl e ↦ elim (Bool-cases (c == b'"')) [
        | inl q ↦
            simp (n, e, q)
              (str_lexeme-length res (kalloc lex_max_strlen m.heap) p l m, λ k. ground arith)
        | inr q ↦ simp (n, e, q) (scan_default-length c, λ k. ground arith)
      ]
    ]
  ]

-- The input never grows, and a token that is returned has taken a character of it.
pub scan-length :
    (res : LexToken) (p : Bytes) (l : ℕ) (m : Mem)
    → (length (scan res p l m).rest ≤ length p)
      × ((scan res p l m).ret ≡ ok tt → length (scan res p l m).rest < length p)
unfolding scan
scan-length res p l m =
    let r : LexToken = record res { token = no_token } in
    let k = skip-length l p in
    let t = scan_token-length r (skip l p).2 (skip l p).1 m (skip l p).0 in
    (omega (arith, k.0, t.0), λ e. ground (arith, k.1, t.0, t.1 e))
