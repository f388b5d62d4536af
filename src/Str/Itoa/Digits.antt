-- ===== src/Str/Itoa/Digits.antt =====
-- Proofs on the loop of `itoa_base10_convert`, src/sys/lib/string/itoa.c, that takes the digits off.
use l5lunos.Prelude.{
  ℕ, zero, suc, ◌+◌, ◌-◌, ◌*◌, ◌/◌, ◌≤◌, ◌<◌, ◌≡◌, inl, inr, Bool-cases, [], ◌∷◌, ◌==◌, arith,
  Bytes,
}
use l5lunos.Str.Itoa.{convert_digits}

-- The value of digits, the lowest first.
unfoldable pub value_of : Bytes → ℕ
value_of [] = 0
value_of (d ∷ ds) = (d - b'0') + 10 * value_of ds

abbrev pub AllDigits : Bytes → Type 0
AllDigits [] = Unit
AllDigits (d ∷ ds) = (b'0' ≤ d) × (d ≤ b'9') × AllDigits ds

-- With more fuel than the value, the loop gives characters that are all digits, and their value is
-- the value that was converted.
pub value_of-convert_digits :
    (f value : ℕ)
    → value < f
    → AllDigits (convert_digits f value) × (value_of (convert_digits f value) ≡ value)
unfolding convert_digits value_of
value_of-convert_digits zero value h = absurd (omega (arith, h))
value_of-convert_digits (suc f) value h = elim (Bool-cases (value == 0)) [
  | inl e ↦ simp e (tt, ground arith)
  | inr e ↦
      let smaller : value / 10 < f = ground (arith, e, h) in
      let ih = value_of-convert_digits f (value / 10) smaller in
      simp e ((omega arith, omega arith, ih.0), omega (arith, ih.1))
]
