-- ===== src/Str/Format/Output.antt =====
-- Proofs on the functions of src/sys/lib/string/vsnprintf.c that write characters into the buffer.
use l5lunos.Prelude.{
  ℕ, zero, suc, ◌+◌, ◌-◌, ◌^◌, ◌≤◌, ◌<◌, ◌≡◌, refl, sym, ap, ◌∙◌, ◌⊎◌, inl, inr, Bool-cases, [],
  ◌∷◌, ◌++◌, append-nil, some, arith, true, ltb, Bytes, length, length-append, length-set, take,
  set, get_elem?, get_elem?-set_self, replicate, min, snoc-append, take-drop-set, lt→ltb,
}
use l5lunos.Str.Format.{Out, poke, put, put_nul, printc, put_all, printstr, print_zeros, room}

-- The buffer holds the first `size - 1` bytes of a text, and the offset is behind them.
pub record Shown (size : ℕ) (t : Bytes) (o : Out) : Type 0 where
  pub counted : o.off ≡ min (length t) (size - 1)
  pub shown : take o.off o.buf ≡ take (size - 1) t
  pub whole : length o.buf ≡ size

-- The same, with a NUL behind it where something was printed.
pub record Ended (size : ℕ) (t : Bytes) (o : Out) : Type 0 where
  pub text : Shown size t o
  pub nul : (t ≡ []) ⊎ (get_elem? o.buf o.off ≡ some 0)

take-set_past : (xs : Bytes) (n i v : ℕ) → n ≤ i → take n (set xs i v) ≡ take n xs
take-set_past xs zero i v h = refl
take-set_past [] (suc n) i v h = refl
take-set_past (x ∷ xs) (suc n) zero v h = absurd (omega (arith, h))
take-set_past (x ∷ xs) (suc n) (suc i) v h =
    ap (λ l. x ∷ l) (take-set_past xs n i v (omega (arith, h)))

pub take-append_full : (xs ys : Bytes) (n : ℕ) → n ≤ length xs → take n (xs ++ ys) ≡ take n xs
take-append_full xs ys zero h = refl
take-append_full [] ys (suc n) h = absurd (omega (arith, h))
take-append_full (x ∷ xs) ys (suc n) h =
    ap (λ l. x ∷ l) (take-append_full xs ys n (omega (arith, h)))

pub take_all : (xs : Bytes) (n : ℕ) → length xs ≤ n → take n xs ≡ xs
take_all [] zero h = refl
take_all [] (suc n) h = refl
take_all (x ∷ xs) zero h = absurd (omega (arith, h))
take_all (x ∷ xs) (suc n) h = ap (λ l. x ∷ l) (take_all xs n (omega (arith, h)))

-- The sizes of a buffer that has room for a character and a NUL.
abbrev pub IsSize : ℕ → Type 0
IsSize size = (2 ≤ size) × (size < 2 ^ 64)

pub room_lem : (size : ℕ) → IsSize size → room size ≡ size - 1
room_lem size h = omega (arith, h.0, h.1)

put-Shown :
    (size c : ℕ) (t : Bytes) (o : Out)
    → Shown size t o
    → o.off < size - 1
    → (o' : Out) × (put c o ≡ some o') × Shown size (t ++ c ∷ []) o'
unfolding put poke
put-Shown size c t o s h =
    let short : length t < size - 1 = omega (arith, s.counted, h) in
    let inside : ltb o.off (length o.buf) ≡ true = lt→ltb _ _ (omega (arith, s.whole, h)) in
    let n = length-append t (c ∷ []) in
    let one_more : o.off + 1 ≡ suc o.off = omega arith in
    (
      record { buf = set o.buf o.off c; off = o.off + 1 },
      rw inside refl,
      record {
        counted = omega (arith, s.counted, short, n);
        shown =
            ap (λ n. take n (set o.buf o.off c)) one_more
            ∙ take-drop-set o.buf 0 o.off o.off c (omega arith) (omega (arith, s.whole, h))
            ∙ ap (λ l. l ++ c ∷ []) (s.shown ∙ take_all t (size - 1) (omega (arith, short)))
            ∙ sym (take_all (t ++ c ∷ []) (size - 1) (omega (arith, short, n)));
        whole = length-set o.buf o.off c ∙ s.whole;
      },
    )

-- Nothing more is shown once the buffer is full.
pub Shown-full :
    (size : ℕ) (t u : Bytes) (o : Out) → Shown size t o → size - 1 ≤ o.off → Shown size (t ++ u) o
Shown-full size t u o s h =
    let n = length-append t u in
    record {
      counted = omega (arith, s.counted, h, n);
      shown = s.shown ∙ sym (take-append_full t u (size - 1) (omega (arith, s.counted, h)));
      whole = s.whole;
    }

put_nul-Ended :
    (size : ℕ) (t : Bytes) (o : Out)
    → IsSize size
    → Shown size t o
    → (o' : Out) × (put_nul o ≡ some o') × Ended size t o'
unfolding put_nul poke
put_nul-Ended size t o h s =
    let k : o.off < length o.buf = omega (arith, s.counted, s.whole, h.0) in
    (
      record o { buf = set o.buf o.off 0 },
      rw (lt→ltb _ _ k) refl,
      record {
        text = record {
          counted = s.counted;
          shown = take-set_past o.buf o.off o.off 0 (omega arith) ∙ s.shown;
          whole = length-set o.buf o.off 0 ∙ s.whole;
        };
        nul = inr (get_elem?-set_self o.buf o.off 0 k);
      },
    )

pub printc-Ended :
    (size c : ℕ) (t : Bytes) (o : Out)
    → IsSize size
    → Shown size t o
    → (o' : Out) × (printc size o c ≡ some o') × Ended size (t ++ c ∷ []) o'
unfolding printc
printc-Ended size c t o h s = elim (Bool-cases (ltb o.off (room size))) [
  | inl e ↦
      let (o', p, s') = put-Shown size c t o s (ground (arith, e, h.0, h.1)) in
      rw (e, p) (put_nul-Ended size (t ++ c ∷ []) o' h s')
  | inr e ↦ rw e (
      put_nul-Ended size (t ++ c ∷ []) o h
        (Shown-full size t (c ∷ []) o s (ground (arith, e, h.0, h.1))))
]

put_all-Shown :
    (size : ℕ) (u t : Bytes) (o : Out)
    → IsSize size
    → Shown size t o
    → (o' : Out) × (put_all size u o ≡ some o') × Shown size (t ++ u) o'
unfolding put_all
put_all-Shown size [] t o h s = (o, refl, rw (append-nil t) s)
put_all-Shown size (c ∷ u) t o h s = elim (Bool-cases (ltb o.off (room size))) [
  | inl e ↦
      let (o', p, s') = put-Shown size c t o s (ground (arith, e, h.0, h.1)) in
      let ih = put_all-Shown size u (t ++ c ∷ []) o' h s' in rw (e, p, sym (snoc-append t c u)) ih
  | inr e ↦ rw e (o, refl, Shown-full size t (c ∷ u) o s (ground (arith, e, h.0, h.1)))
]

pub printstr-Ended :
    (size : ℕ) (u t : Bytes) (o : Out)
    → IsSize size
    → Shown size t o
    → (o' : Out) × (printstr size o u ≡ some o') × Ended size (t ++ u) o'
unfolding printstr
printstr-Ended size u t o h s =
    let (o', p, s') = put_all-Shown size u t o h s in rw p (put_nul-Ended size (t ++ u) o' h s')

pub print_zeros-Ended :
    (size n : ℕ) (t : Bytes) (o : Out)
    → IsSize size
    → Ended size t o
    → (o' : Out) × (print_zeros size n o ≡ some o') × Ended size (t ++ replicate n b'0') o'
unfolding print_zeros
print_zeros-Ended size zero t o h s = (o, refl, rw (append-nil t) s)
print_zeros-Ended size (suc n) t o h s =
    let (o', p, s') = printc-Ended size b'0' t o h s.text in
    rw (p, sym (snoc-append t b'0' (replicate n b'0')))
      (print_zeros-Ended size n (t ++ b'0' ∷ []) o' h s')
