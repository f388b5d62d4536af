-- ===== src/Pirho/Lexer/Input.antt =====
-- The input that is left to the lexer, src/sys/np/core/np_lex.c, and proofs on `lex_pop`.
use native.Mathlib.Numerals.{add-one}
use l5lunos.Prelude.{
  ℕ, ◌+◌, ◌-◌, ◌≤◌, ◌<◌, ◌≡◌, refl, ◌∙◌, sym, ap, inl, inr, Bool-cases, true, false, [], ◌∷◌, arith,
  leb, ◌==◌, if◌then◌else◌, Bytes, length, get_or, take, drop, window-cons, window-nil, length-take,
}
use l5lunos.Mem.Ptrbox.{Mem}
use l5lunos.Pirho.Lexer.{Lexer, lex_pop, lex_fuel}

unfoldable pub window : Lexer → Bytes
window s = take (s.source_size - s.source_idx) (drop s.source_idx s.source)

-- The characters that `lex_pop` will give: that of the cache, and the source's.
unfoldable pub pending : Lexer → Bytes
unfolding window
pending s = if s.ccache == 0 then window s else s.ccache ∷ window s

-- The lexer at the input `p`, on line `l`, with memory `m`.
pub record Sees (s : Lexer) (p : Bytes) (l : ℕ) (m : Mem) : Type 0 where
  pub size : s.source_size ≤ length s.source
  pub input : pending s ≡ p
  pub line : s.line_no ≡ l
  pub memory : s.mem ≡ m

-- The same, with an empty cache.
pub record Clear (s : Lexer) (p : Bytes) (l : ℕ) (m : Mem) : Type 0 where
  pub sees : Sees s p l m
  pub cache : s.ccache ≡ 0

-- What `lex_pop` gives of the input: the end of the input is 0.
unfoldable pub front : Bytes → ℕ
front [] = 0
front (c ∷ p) = c

unfoldable pub behind : Bytes → Bytes
behind [] = []
behind (c ∷ p) = p

pending-cached : (s : Lexer) → (s.ccache == 0) ≡ false → pending s ≡ s.ccache ∷ window s
unfolding pending
pending-cached s h = simp h

pending-clear : (s : Lexer) → (s.ccache == 0) ≡ true → pending s ≡ window s
unfolding pending
pending-clear s h = simp h

-- Where the cache is empty and the source is read: the character, and the window behind it.
pending-source :
    (s : Lexer)
    → (s.ccache == 0) ≡ true
    → s.source_idx < s.source_size
    → s.source_size ≤ length s.source
    → pending s
      ≡ get_or s.source s.source_idx 0 ∷ window (record s { source_idx = s.source_idx + 1 })
unfolding window
pending-source s h k n =
    pending-clear s h
    ∙ window-cons s.source s.source_idx s.source_size 0 k (omega arith)
    ∙ rw add-one

pending-end : (s : Lexer) → (s.ccache == 0) ≡ true → s.source_size ≤ s.source_idx → pending s ≡ []
unfolding window
pending-end s h k = pending-clear s h ∙ window-nil s.source s.source_idx s.source_size k

window-uncached : (s : Lexer) → pending (record s { ccache = 0 }) ≡ window s
unfolding window
window-uncached s = pending-clear (record s { ccache = 0 }) refl

module _ (s : Lexer) (p : Bytes) (l : ℕ) (m : Mem) (v : Sees s p l m) where
  abbrev Pops : ℕ × Lexer → Type 0
  Pops r = (r.0 ≡ front p) × Clear r.1 (behind p) l m

  pop_cached : (s.ccache == 0) ≡ false → Pops (s.ccache, record s { ccache = 0 })
  unfolding front behind
  pop_cached e =
      let k : p ≡ s.ccache ∷ window s = sym v.input ∙ pending-cached s e in
      rw k (
        refl,
        record {
          sees = record {
            size = v.size;
            input = window-uncached s;
            line = v.line;
            memory = v.memory;
          };
          cache = refl;
        },
      )

  pop_end : (s.ccache == 0) ≡ true → s.source_size ≤ s.source_idx → Pops (0, s)
  unfolding front behind
  pop_end e h =
      let k : p ≡ [] = sym v.input ∙ pending-end s e h in
      rw k (
        refl,
        record {
          sees = record {
            size = v.size;
            input = pending-end s e h;
            line = v.line;
            memory = v.memory;
          };
          cache = ground arith;
        },
      )

  pop_char :
      (s.ccache == 0) ≡ true
      → s.source_idx < s.source_size
      → Pops (get_or s.source s.source_idx 0, record s { source_idx = s.source_idx + 1 })
  unfolding front behind
  pop_char e h =
      let k = sym v.input ∙ pending-source s e h v.size in
      rw k (
        refl,
        record {
          sees = record {
            size = v.size;
            input = pending-clear (record s { source_idx = s.source_idx + 1 }) e;
            line = v.line;
            memory = v.memory;
          };
          cache = ground arith;
        },
      )

  -- `lex_pop` takes the first character of the input, and gives 0 and changes nothing at its end.
  pub lex_pop-Clear : ((lex_pop s).0 ≡ front p) × Clear (lex_pop s).1 (behind p) l m
  unfolding lex_pop
  lex_pop-Clear = elim (Bool-cases (s.ccache == 0)) [
    | inr e ↦ simp e (pop_cached e)
    | inl e ↦ elim (Bool-cases (leb s.source_size s.source_idx)) [
      | inl end ↦ simp (e, end) (pop_end e (ground arith))
      | inr more ↦ simp (e, more) (pop_char e (ground arith))
    ]
  ]

-- The fuel that the loops are given is more than the characters of the input.
pub pending-lt-lex_fuel : (s : Lexer) → length (pending s) < lex_fuel s
unfolding pending window lex_fuel
pending-lt-lex_fuel s =
    ground (arith, length-take (s.source_size - s.source_idx) (drop s.source_idx s.source))

-- A character that is put into the empty cache comes first again.
pub cache-Sees :
    (s : Lexer) (p : Bytes) (l : ℕ) (m : Mem) (c : ℕ)
    → Clear s p l m
    → (c == 0) ≡ false
    → Sees (record s { ccache = c }) (c ∷ p) l m
unfolding window
cache-Sees s p l m c v n = record {
  size = v.sees.size;
  input =
      pending-cached (record s { ccache = c }) n
      ∙ ap (λ q. c ∷ q) (sym (pending-clear s (ground (arith, v.cache))) ∙ v.sees.input);
  line = v.sees.line;
  memory = v.sees.memory;
}

-- With an empty cache there is one round more.
pub Clear-lt-lex_fuel :
    (s : Lexer) (p : Bytes) (l : ℕ) (m : Mem) → Clear s p l m → length p + 1 < lex_fuel s
unfolding window lex_fuel
Clear-lt-lex_fuel s p l m v = omega (
  arith,
  ap length (sym (pending-clear s (ground (arith, v.cache))) ∙ v.sees.input),
  length-take (s.source_size - s.source_idx) (drop s.source_idx s.source),
)
