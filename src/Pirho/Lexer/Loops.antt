-- ===== src/Pirho/Lexer/Loops.antt =====
-- Proofs on the loops of the lexer, src/sys/np/core/np_lex.c, against the specification.
use l5lunos.Prelude.{
  ℕ, zero, suc, ◌+◌, ◌-◌, ◌<◌, ◌≡◌, refl, ap, inl, inr, Bool-cases, true, false, not, ◌&&◌, Option,
  some, [], ◌∷◌, ◌++◌, arith, leb, ◌==◌, if◌then◌else◌, Bytes, length,
}
use l5lunos.Mem.Ptrbox.{Mem}
use l5lunos.Pirho.Chars.{is_alpha, is_num, is_space}
use l5lunos.Pirho.Lexer.{
  Lexer, max_id_len, lex_max_strlen, lex_pop, match_id, nom_digits, nom_chars, skip_space,
}
use l5lunos.Pirho.Lexer.Input.{Sees, Clear, pending, front, behind, lex_pop-Clear, cache-Sees}
use l5lunos.Pirho.Lexer.Scan.{skip, scan_id, scan_num, scan_str}

-- A loop that ends with the value `a`, at the input `p`.
abbrev pub Ends : {A : Type 0} → Option (A × Lexer) → A → Bytes → ℕ → Mem → Type 0
Ends o a p l m = (s : Lexer) × (o ≡ some (a, s)) × Clear s p l m

newline-Clear :
    (s : Lexer) (p : Bytes) (l : ℕ) (m : Mem) (c : ℕ)
    → Clear s p l m
    → Clear
        (if c == b'\n' then record s { line_no = s.line_no + 1 } else s)
        p
        (if c == b'\n' then l + 1 else l)
        m
unfolding pending
newline-Clear s p l m c v = elim (Bool-cases (c == b'\n')) [
  | inl e ↦ rw e (record {
    sees = record {
      size = v.sees.size;
      input = v.sees.input;
      line = ap (λ n. n + 1) v.sees.line;
      memory = v.sees.memory;
    };
    cache = v.cache;
  })
  | inr e ↦ rw e v
]

space-ne-zero : (c : ℕ) → is_space c ≡ true → (c == 0) ≡ false
unfolding is_space
space-ne-zero c h = ground arith

no_newline : (c : ℕ) → is_space c ≡ false → (c == b'\n') ≡ false
unfolding is_space
no_newline c h = ground arith

-- White space is skipped, and its lines are counted.
pub skip_space-Ends :
    (f : ℕ) (s : Lexer) (p : Bytes) (l : ℕ) (m : Mem)
    → Sees s p l m
    → length p < f
    → Ends (skip_space f s) (skip l p).0 (skip l p).2 (skip l p).1 m
unfolding skip_space skip front behind
skip_space-Ends zero s p l m v h = absurd (omega arith)
skip_space-Ends (suc f) s [] l m v h =
    let pop = lex_pop-Clear s [] l m v in ((lex_pop s).1, rw pop.0, pop.1)
skip_space-Ends (suc f) s (c ∷ p) l m v h =
    let pop = lex_pop-Clear s (c ∷ p) l m v in
    elim (Bool-cases (is_space c)) [
      | inl e ↦
          let next = newline-Clear (lex_pop s).1 p l m c pop.1 in
          simp (pop.0, space-ne-zero c e, e)
            (skip_space-Ends f
              (if c == b'\n'
                then record (lex_pop s).1 { line_no = (lex_pop s).1.line_no + 1 }
                else (lex_pop s).1)
              p (if c == b'\n' then l + 1 else l) m next.sees (omega arith))
      | inr e ↦ elim (Bool-cases (c == 0)) [
        | inl z ↦
            simp (pop.0, z, e)
              ((lex_pop s).1, ap (λ k. some (k, (lex_pop s).1)) (ground arith), pop.1)
        | inr n ↦ simp (pop.0, n, e, no_newline c e) ((lex_pop s).1, refl, pop.1)
      ]
    ]

-- The same, where a character may be in the cache.
abbrev pub Stops : {A : Type 0} → Option (A × Lexer) → A → Bytes → ℕ → Mem → Type 0
Stops o a p l m = (s : Lexer) × (o ≡ some (a, s)) × Sees s p l m

pub match_id-Stops :
    (f : ℕ) (id : Bytes) (c : ℕ) (s : Lexer) (p : Bytes) (l : ℕ) (m : Mem)
    → Clear s p l m
    → (c == 0) ≡ false
    → length p < f
    → Stops (match_id f id c s) (scan_id id c p).0 (scan_id id c p).1 l m
unfolding match_id scan_id front behind
match_id-Stops zero id c s p l m v n h = absurd (omega arith)
match_id-Stops (suc f) id c s [] l m v n h =
    let pop = lex_pop-Clear s [] l m v.sees in
    elim (Bool-cases (leb max_id_len (length id))) [
      | inl long ↦ simp long (s, refl, v.sees)
      | inr short ↦ elim (Bool-cases (not (is_alpha c) && not (is_num c))) [
        | inl other ↦ simp (short, other) (record s { ccache = c }, refl, cache-Sees s [] l m c v n)
        | inr alnum ↦ simp (short, alnum, pop.0) ((lex_pop s).1, refl, pop.1.sees)
      ]
    ]
match_id-Stops (suc f) id c s (c' ∷ p) l m v n h =
    let pop = lex_pop-Clear s (c' ∷ p) l m v.sees in
    elim (Bool-cases (leb max_id_len (length id))) [
      | inl long ↦ simp long (s, refl, v.sees)
      | inr short ↦ elim (Bool-cases (not (is_alpha c) && not (is_num c))) [
        | inl other ↦
            simp (short, other) (record s { ccache = c }, refl, cache-Sees s (c' ∷ p) l m c v n)
        | inr alnum ↦ elim (Bool-cases (c' == 0)) [
          | inl z ↦ simp (short, alnum, pop.0, z) ((lex_pop s).1, refl, pop.1.sees)
          | inr n' ↦
              simp (short, alnum, pop.0, n')
                (match_id-Stops f (id ++ c ∷ []) c' (lex_pop s).1 p l m pop.1 n' (omega arith))
        ]
      ]
    ]

nom_digits_end : (f num : ℕ) (s : Lexer) → 0 < f → nom_digits f num 0 s ≡ some (num, s)
unfolding nom_digits is_num
nom_digits_end zero num s h = absurd (omega arith)
nom_digits_end (suc f) num s h = refl

pub nom_digits-Ends :
    (f num c : ℕ) (s : Lexer) (p : Bytes) (l : ℕ) (m : Mem)
    → Clear s p l m
    → length p + 1 < f
    → Ends (nom_digits f num c s) (scan_num num c p).0 (scan_num num c p).1 l m
unfolding nom_digits scan_num front behind
nom_digits-Ends zero num c s p l m v h = absurd (omega arith)
nom_digits-Ends (suc f) num c s [] l m v h =
    let pop = lex_pop-Clear s [] l m v.sees in
    elim (Bool-cases (is_num c)) [
      | inl d ↦
          simp (pop.0, d) ((lex_pop s).1, nom_digits_end f _ (lex_pop s).1 (omega arith), pop.1)
      | inr d ↦ simp d (s, refl, v)
    ]
nom_digits-Ends (suc f) num c s (c' ∷ p) l m v h =
    let pop = lex_pop-Clear s (c' ∷ p) l m v.sees in
    elim (Bool-cases (is_num c)) [
      | inl d ↦ simp (pop.0, d) (nom_digits-Ends f _ c' (lex_pop s).1 p l m pop.1 (omega arith))
      | inr d ↦ simp d (s, refl, v)
    ]

pub nom_chars-Ends :
    (f : ℕ) (buf : Bytes) (s : Lexer) (p : Bytes) (l : ℕ) (m : Mem)
    → Clear s p l m
    → length p < f
    → (s' : Lexer) × (nom_chars f buf s ≡ some ((scan_str buf p).0, (scan_str buf p).1, s'))
      × Clear s' (scan_str buf p).2 l m
unfolding nom_chars scan_str front behind
nom_chars-Ends zero buf s p l m v h = absurd (omega arith)
nom_chars-Ends (suc f) buf s [] l m v h =
    let pop = lex_pop-Clear s [] l m v.sees in simp pop.0 ((lex_pop s).1, refl, pop.1)
nom_chars-Ends (suc f) buf s (c ∷ p) l m v h =
    let pop = lex_pop-Clear s (c ∷ p) l m v.sees in
    elim (Bool-cases (c == 0)) [
      | inl z ↦ simp (pop.0, z) ((lex_pop s).1, refl, pop.1)
      | inr n ↦ elim (Bool-cases (leb (lex_max_strlen - 1) (length buf))) [
        | inl long ↦ simp (pop.0, n, long) ((lex_pop s).1, refl, pop.1)
        | inr short ↦ elim (Bool-cases (c == b'"')) [
          | inl q ↦ simp (pop.0, n, short, q) ((lex_pop s).1, refl, pop.1)
          | inr q ↦
              simp (pop.0, n, short, q)
                (nom_chars-Ends f (buf ++ c ∷ []) (lex_pop s).1 p l m pop.1 (omega arith))
        ]
      ]
    ]
