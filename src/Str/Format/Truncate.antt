-- ===== src/Str/Format/Truncate.antt =====
-- Proofs on the loop of `vsnprintf`, src/sys/lib/string/vsnprintf.c.
use l5lunos.Prelude.{
  ℕ, zero, suc, ◌+◌, ◌-◌, ◌*◌, ◌%◌, ◌^◌, ◌≤◌, ◌<◌, ◌≡◌, refl, sym, ap, ◌∙◌, ◌⊎◌, inl, inr,
  Bool-cases, List, [], ◌∷◌, ◌++◌, append_assoc, append-nil, some, arith, false, ltb, ◌==◌, Bytes,
  length, take, replicate, min, snoc-append, get_elem?,
}
use l5lunos.Prelude.Int8.{ℤ, to_u64}
use l5lunos.Str.Itoa.{itoa_base10_convert, itoa_convert_base16}
use l5lunos.Str.Format.{
  Arg, u64_arg, int_arg, Out, room, literals, pad_digits, pad_width, directive, print_c, print_d,
  print_p, print_x, print_s, format_loop, vsnprintf, behind_literals,
}
use l5lunos.Str.Format.Expand.{
  Converts, char, percent, decimal, pointer, hex, string, Expands, finish, literal, conversion,
  padded, hex_digits, address,
}
use l5lunos.Str.Format.Output.{
  Ended, IsSize, room_lem, printc-Ended, printstr-Ended, print_zeros-Ended, Shown-full, take_all,
}

print_d-Ended :
    (size : ℕ) (num : ℤ) (args : List Arg) (pad : ℕ) (t : Bytes) (o : Out)
    → IsSize size
    → Ended size t o
    → (o' : Out) × (print_d size (int_arg num ∷ args) pad o ≡ some (args, 0, o'))
      × Ended size (t ++ padded pad num) o'
unfolding print_d
print_d-Ended size num args pad t o h s =
    let n = pad - length (itoa_base10_convert num) in
    let (o1, p1, s1) = print_zeros-Ended size n t o h s in
    let (o2, p2, s2) =
      printstr-Ended size (itoa_base10_convert num) (t ++ replicate n b'0') o1 h s1.text in
    (
      o2,
      rw (p1, p2) refl,
      rw (sym (append_assoc t (replicate n b'0') (itoa_base10_convert num))) s2,
    )

print_p-Ended :
    (size num : ℕ) (args : List Arg) (pad : ℕ) (t : Bytes) (o : Out)
    → IsSize size
    → Ended size t o
    → (o' : Out) × (print_p size (u64_arg num ∷ args) pad o ≡ some (args, pad, o'))
      × Ended size (t ++ address num) o'
unfolding print_p
print_p-Ended size num args pad t o h s =
    let zeros = replicate (18 - length (itoa_convert_base16 (num % 2 ^ 64))) b'0' in
    let (o1, p1, s1) = printc-Ended size b'0' t o h s.text in
    let (o2, p2, s2) = printc-Ended size b'x' (t ++ b'0' ∷ []) o1 h s1.text in
    let (o3, p3, s3) =
      print_zeros-Ended size (18 - length (itoa_convert_base16 (num % 2 ^ 64)))
        ((t ++ b'0' ∷ []) ++ b'x' ∷ []) o2 h s2 in
    let (o4, p4, s4) =
      printstr-Ended size (hex_digits num) (((t ++ b'0' ∷ []) ++ b'x' ∷ []) ++ zeros) o3 h
        s3.text in
    (
      o4,
      rw (p1, p2, p3, p4) refl,
      rw
          (
            sym (snoc-append t b'0' (b'x' ∷ zeros ++ hex_digits num)),
            sym (snoc-append (t ++ b'0' ∷ []) b'x' (zeros ++ hex_digits num)),
            sym (append_assoc ((t ++ b'0' ∷ []) ++ b'x' ∷ []) zeros (hex_digits num)),
          )
          s4,
    )

-- Each conversion prints its text, and takes its arguments.
directive-Ended :
    (size : ℕ) {c : ℕ} {args : List Arg} {pad : ℕ} {u : Bytes} {args' : List Arg} {pad' : ℕ}
    (t : Bytes) (o : Out)
    → IsSize size
    → Converts c args pad u args' pad'
    → Ended size t o
    → (o' : Out) × (directive size c args pad o ≡ some (args', pad', o')) × Ended size (t ++ u) o'
unfolding directive print_c print_x print_s
directive-Ended size t o h (char {num}) s =
    let (o', p, s') = printc-Ended size (to_u64 num % 256) t o h s.text in (o', rw p refl, s')
directive-Ended size t o h percent s =
    let (o', p, s') = printc-Ended size b'%' t o h s.text in (o', rw p refl, s')
directive-Ended size t o h (decimal {num} {args} {pad}) s = print_d-Ended size num args pad t o h s
directive-Ended size t o h (pointer {num} {args} {pad}) s = print_p-Ended size num args pad t o h s
directive-Ended size t o h (hex {num}) s =
    let (o', p, s') = printstr-Ended size (hex_digits num) t o h s.text in (o', rw p refl, s')
directive-Ended size t o h (string {s = u}) s =
    let (o', p, s') = printstr-Ended size u t o h s.text in (o', rw p refl, s')

-- Where the loop over literal characters stops.
data Stops : Bytes → Type 0 where
  at_end : Stops []
  at_percent : (fmt : Bytes) → Stops (b'%' ∷ fmt)

-- The format that is left behind the literal characters, the output, and the two parts of the text.
record StopsAt (size : ℕ) (fmt : Bytes) (args : List Arg) (pad : ℕ) (t u : Bytes) (o : Out)
    : Type 0 where
  fmt' : Bytes
  o' : Out
  before : Bytes
  after : Bytes
  reads : literals size fmt o ≡ some (fmt', o')
  parts : u ≡ before ++ after
  prints : Ended size (t ++ before) o'
  further : Expands fmt' args pad after
  stops : Stops fmt'
  shorter : length fmt' ≤ length fmt

literals-StopsAt :
    (size : ℕ) {fmt : Bytes} {args : List Arg} {pad : ℕ} {u : Bytes} (t : Bytes) (o : Out)
    → IsSize size
    → Expands fmt args pad u
    → Ended size t o
    → StopsAt size fmt args pad t u o
unfolding literals
literals-StopsAt size t o h finish s = record {
  fmt' = [];
  o' = o;
  before = [];
  after = [];
  reads = refl;
  parts = refl;
  prints = rw (append-nil t) s;
  further = finish;
  stops = at_end;
  shorter = omega arith;
}
literals-StopsAt size t o h (conversion {rest} {s = v} {t = u} w c x) s = record {
  fmt' = b'%' ∷ rest;
  o' = o;
  before = [];
  after = v ++ u;
  reads = refl;
  parts = refl;
  prints = rw (append-nil t) s;
  further = conversion w c x;
  stops = at_percent rest;
  shorter = omega arith;
}
literals-StopsAt size t o h (literal {c} {fmt} {t = u} n x) s =
    let (o1, p, s1) = printc-Ended size c t o h s.text in
    let l = literals-StopsAt size (t ++ c ∷ []) o1 h x s1 in
    let other : (c == b'%') ≡ false = ground (arith, n) in
    record {
      fmt' = l.fmt';
      o' = l.o';
      before = c ∷ l.before;
      after = l.after;
      reads = rw (other, p) l.reads;
      parts = ap (λ v. c ∷ v) l.parts;
      prints = rw (sym (snoc-append t c l.before)) l.prints;
      further = l.further;
      stops = l.stops;
      shorter = omega (arith, l.shorter);
    }

pad_digits_shorter : (fmt : Bytes) (pad : ℕ) → length ((pad_digits fmt pad).1) ≤ length fmt
unfolding pad_digits
pad_digits_shorter [] pad = omega arith
pad_digits_shorter (c ∷ fmt) pad =
    ground (arith, pad_digits_shorter fmt ((pad * 10 + (c - b'0')) % 256))

pad_width_shorter : (fmt : Bytes) (pad : ℕ) → length ((pad_width fmt pad).1) ≤ length fmt
unfolding pad_width
pad_width_shorter [] pad = omega arith
pad_width_shorter (c ∷ fmt) pad = ground (arith, pad_digits_shorter fmt pad)

-- The result and the buffer hold the first `size - 1` bytes of the text, with a NUL behind them
-- where there is a text, and the result is their number, or 0 where the buffer is full.
pub record Printed (size : ℕ) (t : Bytes) (r : ℕ × Bytes) : Type 0 where
  pub whole : length (r.1) ≡ size
  pub shown : take (min (length t) (size - 1)) (r.1) ≡ take (size - 1) t
  pub nul : (t ≡ []) ⊎ (get_elem? (r.1) (min (length t) (size - 1)) ≡ some 0)
  pub returned : (r.0 ≡ min (length t) (size - 1)) ⊎ ((size - 1 ≤ length t) × (r.0 ≡ 0))

Ended-Printed :
    (size : ℕ) (t : Bytes) (o : Out) (r : ℕ)
    → Ended size t o
    → (r ≡ o.off) ⊎ ((size - 1 ≤ length t) × (r ≡ 0))
    → Printed size t (r, o.buf)
Ended-Printed size t o r s e = record {
  whole = s.text.whole;
  shown = ap (λ n. take n o.buf) (sym s.text.counted) ∙ s.text.shown;
  nul = elim s.nul [ inl k ↦ inl k | inr k ↦ inr (ap (get_elem? o.buf) (sym s.text.counted) ∙ k) ];
  returned = elim e [ inl k ↦ inl (k ∙ s.text.counted) | inr k ↦ inr k ];
}

Ended-full :
    (size : ℕ) (t u : Bytes) (o : Out)
    → IsSize size
    → Ended size t o
    → size - 1 ≤ o.off
    → Ended size (t ++ u) o
Ended-full size t u o h s full = record {
  text = Shown-full size t u o s.text full;
  nul = elim s.nul [
    | inl k ↦ absurd (omega (arith, h.0, full, s.text.counted, ap length k))
    | inr k ↦ inr k
  ];
}

-- With fuel `f`, the loop prints every text whose format is shorter.
abbrev Prints : ℕ → ℕ → Type 0
Prints f size =
    (fmt : Bytes) (args : List Arg) (pad : ℕ) (t u : Bytes) (o : Out)
    → length fmt < f
    → Expands fmt args pad u
    → Ended size t o
    → (r : ℕ × Bytes) × (format_loop f size fmt args pad o ≡ some r) × Printed size (t ++ u) r

behind_literals-Printed :
    (f size : ℕ) {fmt : Bytes} (args : List Arg) (pad : ℕ) (t : Bytes) {u : Bytes} (o : Out)
    → IsSize size
    → Prints f size
    → length fmt ≤ f
    → Stops fmt
    → Expands fmt args pad u
    → Ended size t o
    → (r : ℕ × Bytes) × (behind_literals (format_loop f size) size args pad (fmt, o) ≡ some r)
      × Printed size (t ++ u) r
behind_literals-Printed f size args pad t o h ih l at_end finish s =
    ((o.off, o.buf), refl, rw (append-nil t) (Ended-Printed size t o o.off s (inl refl)))
behind_literals-Printed f size args pad t o h ih l (at_percent fmt) (literal n x) s =
    absurd (n refl)
behind_literals-Printed f size args pad t o h ih l (at_percent rest)
      (conversion {fmt} {args'} {pad''} {s = v} {t = u} w c x) s =
    elim (Bool-cases (o.off == room size)) [
      | inl e ↦
          let full : size - 1 ≤ o.off = ground (arith, e, room_lem size h) in
          let s' = Ended-full size t (v ++ u) o h s full in
          rw e ((o.off, o.buf), refl, Ended-Printed size (t ++ (v ++ u)) o o.off s' (inl refl))
      | inr e ↦
          let (o', p, s') = directive-Ended size t o h c s in
          let fuel : length fmt < f =
            omega (arith, l, pad_width_shorter rest pad, ap (λ k. length (k.1)) w) in
          rw (e, w, p, sym (append_assoc t v u)) (ih fmt args' pad'' (t ++ v) u o' fuel x s')
    ]

format_loop-Printed : (f size : ℕ) → IsSize size → Prints f size
unfolding format_loop
format_loop-Printed zero size h fmt args pad t u o l x s = absurd (omega (arith, l))
format_loop-Printed (suc f) size h fmt args pad t u o l x s =
    elim (Bool-cases (ltb o.off (room size))) [
      | inl e ↦
          let r = literals-StopsAt size t o h x s in
          let fuel : length r.fmt' ≤ f = omega (arith, l, r.shorter) in
          rw (e, r.reads, r.parts, sym (append_assoc t r.before r.after))
            (behind_literals-Printed f size args pad (t ++ r.before) r.o' h
              (format_loop-Printed f size h) fuel r.stops r.further r.prints)
      | inr e ↦
          let full : size - 1 ≤ o.off = ground (arith, e, room_lem size h) in
          let s' = Ended-full size t u o h s full in
          rw e (
            (0, o.buf),
            refl,
            Ended-Printed size (t ++ u) o 0 s' (inr (omega (arith, full, s'.text.counted), refl)),
          )
    ]

-- Where the buffer has 2 bytes or more, and the arguments are those that the format asks for,
-- vsnprintf writes the first size - 1 bytes of the text that the format stands for and nothing past
-- the buffer, with a NUL behind them where the text is not empty, and returns their number, or 0
-- where they fill the buffer.
pub vsnprintf-Printed :
    (s fmt : Bytes) (size : ℕ) (args : List Arg) (t : Bytes)
    → length s ≡ size
    → 2 ≤ size
    → size < 2 ^ 64
    → Expands fmt args 0 t
    → (r : ℕ × Bytes) × (vsnprintf s size fmt args ≡ some r) × Printed size t r
unfolding vsnprintf
vsnprintf-Printed s fmt size args t e lo hi x =
    format_loop-Printed (suc (length fmt)) size (lo, hi) fmt args 0 [] t
      (record { buf = s; off = 0 }) (omega arith) x
      (record {
        text = record {
          counted = omega arith;
          shown = sym (take_all [] (size - 1) (omega arith));
          whole = e;
        };
        nul = inl refl;
      })
