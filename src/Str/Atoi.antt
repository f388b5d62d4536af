-- ===== src/Str/Atoi.antt =====
-- src/sys/lib/string/atoi.c: text to numbers, on the characters before the NUL. An `int` keeps its
-- 32 bits: where the digits overflow it, which C leaves undefined, it wraps around here.
pub mod RoundTrip
use l5lunos.Prelude.{
  ℕ, ◌+◌, ◌-◌, ◌*◌, ◌%◌, ◌^◌, Bool, true, false, ◌&&◌, [], ◌∷◌, leb, ltb, ◌==◌, if◌then◌else◌,
  Bytes,
}
use l5lunos.Prelude.Int8.{ℤ, to_int}

-- IS_DIGIT
unfoldable pub is_digit : ℕ → Bool
is_digit c = leb b'0' c && leb c b'9'

unfoldable pub skip_spaces : Bytes → Bytes
skip_spaces [] = []
skip_spaces (c ∷ s) = let rest = skip_spaces s in if c == b' ' then rest else c ∷ s

-- The loop over the digits; `n` is what was read so far.
unfoldable pub atoi_digits : Bytes → ℕ → ℕ
unfolding is_digit
atoi_digits [] n = n
atoi_digits (c ∷ s) n =
    let rest = atoi_digits s ((10 * n + (c - b'0')) % 2 ^ 32) in if is_digit c then rest else n

-- `sign * n`
unfoldable pub signed_int : Bool → ℕ → ℤ
unfolding to_int
signed_int is_negative n = to_int (if is_negative then (2 ^ 32 - n) % 2 ^ 32 else n)

unfoldable pub atoi_signed : Bytes → ℤ
unfolding atoi_digits signed_int
atoi_signed [] = signed_int false 0
atoi_signed (c ∷ s) =
    if c == b'-'
    then signed_int true (atoi_digits s 0)
    else if c == b'+'
    then signed_int false (atoi_digits s 0)
    else signed_int false (atoi_digits (c ∷ s) 0)

unfoldable pub atoi : Bytes → ℤ
unfolding skip_spaces atoi_signed
atoi s = atoi_signed (skip_spaces s)
