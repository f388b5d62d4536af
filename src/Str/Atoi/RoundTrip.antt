-- ===== src/Str/Atoi/RoundTrip.antt =====
-- Proofs on `atoi` of src/sys/lib/string/atoi.c behind `itoa` of itoa.c.
use mathlib.Core.List.{reverse, reverse-append, reverse-cons}
use l5lunos.Prelude.{
  ℕ, suc, ◌+◌, ◌-◌, ◌*◌, ◌%◌, ◌^◌, ◌≤◌, ◌<◌, ◌≡◌, refl, ◌∙◌, inl, inr, Bool-cases, [], ◌∷◌, ◌++◌,
  ◌==◌, arith, Bytes, true, false,
}
use l5lunos.Prelude.Int8.{ℤ, pos, negsuc, to_int}
use l5lunos.Str.Itoa.{convert_digits, itoa_base10, itoa_base10_convert}
use l5lunos.Str.Itoa.Digits.{value_of, AllDigits, value_of-convert_digits}
use l5lunos.Str.Itoa.Reverse.{unreversed-reverse}
use l5lunos.Str.Atoi.{atoi, atoi_digits, atoi_signed, signed_int, skip_spaces, is_digit}

-- The values of an `int`.
abbrev pub IsInt : ℤ → Type 0
IsInt (pos n) = n < 2 ^ 31
IsInt (negsuc n) = n < 2 ^ 31

-- Reading digits, the highest first.
atoi_digits-append_digit :
    (s : Bytes) (d n : ℕ)
    → AllDigits s
    → b'0' ≤ d
    → d ≤ b'9'
    → atoi_digits (s ++ d ∷ []) n ≡ (10 * atoi_digits s n + (d - b'0')) % 2 ^ 32
unfolding atoi_digits is_digit
atoi_digits-append_digit [] d n a lo hi = ground arith
atoi_digits-append_digit (c ∷ s) d n (l, h, a) lo hi =
    ground (arith, atoi_digits-append_digit s d ((10 * n + (c - b'0')) % 2 ^ 32) a lo hi)

AllDigits-append : (s t : Bytes) → AllDigits s → AllDigits t → AllDigits (s ++ t)
AllDigits-append [] t a b = b
AllDigits-append (c ∷ s) t (l, h, a) b = (l, h, AllDigits-append s t a b)

AllDigits-reverse : (s : Bytes) → AllDigits s → AllDigits (reverse s)
AllDigits-reverse [] a = tt
AllDigits-reverse (c ∷ s) (l, h, a) =
    rw (reverse-cons c s) (AllDigits-append (reverse s) (c ∷ []) (AllDigits-reverse s a) (l, h, tt))

-- The digits in reverse are read as their value, if that fits.
atoi_digits-reverse :
    (s : Bytes) → AllDigits s → value_of s < 2 ^ 32 → atoi_digits (reverse s) 0 ≡ value_of s
unfolding value_of atoi_digits
atoi_digits-reverse [] a h = refl
atoi_digits-reverse (c ∷ s) (l, u, a) h =
    rw
      (
        reverse-cons c s,
        atoi_digits-append_digit (reverse s) c 0 (AllDigits-reverse s a) l u,
        atoi_digits-reverse s a (omega (arith, h)),
      )
      (omega (arith, h))

-- The digits of a number are read as the number.
atoi_digits-convert_digits :
    (n : ℕ)
    → n < 2 ^ 32
    → AllDigits (reverse (convert_digits (suc n) n))
      × (atoi_digits (reverse (convert_digits (suc n) n)) 0 ≡ n)
atoi_digits-convert_digits n h =
    let (a, e) = value_of-convert_digits (suc n) n (omega arith) in
    (
      AllDigits-reverse (convert_digits (suc n) n) a,
      atoi_digits-reverse (convert_digits (suc n) n) a (omega (arith, e, h)) ∙ e,
    )

-- A text of digits has no space and no sign to skip.
atoi-digits : (s : Bytes) → AllDigits s → atoi s ≡ signed_int false (atoi_digits s 0)
unfolding atoi atoi_signed skip_spaces signed_int atoi_digits
atoi-digits [] a = refl
atoi-digits (c ∷ s) (l, h, a) = ground (arith, l, h)

atoi_zero : atoi (b'0' ∷ []) ≡ pos 0
unfolding atoi atoi_signed skip_spaces signed_int to_int atoi_digits is_digit
atoi_zero = refl

-- Behind a minus, the digits are read and negated.
atoi-minus : (s : Bytes) → atoi (b'-' ∷ s) ≡ signed_int true (atoi_digits s 0)
unfolding atoi atoi_signed skip_spaces
atoi-minus s = refl

-- Every number that fits an `int` is read back by `atoi` from the text that itoa_base10_convert
-- makes of it.
pub atoi-itoa_base10_convert : (v : ℤ) → IsInt v → atoi (itoa_base10_convert v) ≡ v
unfolding itoa_base10_convert itoa_base10 signed_int to_int
atoi-itoa_base10_convert (pos n) h = elim (Bool-cases (n == 0)) [
  | inl e ↦ rw (e, atoi_zero) (ground (arith, e))
  | inr e ↦
      let (a, k) = atoi_digits-convert_digits n (omega (arith, h)) in
      rw (e, unreversed-reverse (convert_digits (suc n) n), atoi-digits _ a, k) (ground (arith, h))
]
atoi-itoa_base10_convert (negsuc n) h =
    let (a, k) = atoi_digits-convert_digits (suc n) (omega (arith, h)) in
    let fits : (suc n == 2 ^ 63) ≡ false = ground (arith, h) in
    rw
      (
        fits,
        unreversed-reverse (convert_digits (suc (suc n)) (suc n) ++ b'-' ∷ []),
        reverse-append (convert_digits (suc (suc n)) (suc n)) (b'-' ∷ []),
        atoi-minus,
        k,
      )
      (ground (arith, h))
