-- ===== src/Str/Itoa.antt =====
-- src/sys/lib/string/itoa.c: numbers to text. `char` is a byte; a text is what stands before the NUL.
pub mod Digits
pub mod Reverse
use l5lunos.Prelude.{
  ℕ, zero, suc, ◌+◌, ◌-◌, ◌/◌, ◌%◌, ◌^◌, Option, none, some, [], ◌∷◌, ◌++◌, ltb, ◌==◌,
  if◌then◌else◌, Bytes, codes, length, get_or, set,
}
use l5lunos.Prelude.Int8.{ℤ, pos, negsuc, to_u64}

-- The loop that takes the digits off, the lowest first. Fuel above `value` is enough.
unfoldable pub convert_digits : ℕ → ℕ → Bytes
convert_digits zero value = []
convert_digits (suc f) value =
    let rest = (b'0' + value % 10) ∷ convert_digits f (value / 10) in
    if value == 0 then [] else rest

abbrev pub swap_bytes : Bytes → ℕ → ℕ → Bytes
swap_bytes buf j i = set (set buf j (get_or buf i 0)) i (get_or buf j 0)

-- `for (int j = 0; j < i; ++j, --i)`: exchanges the ends.
unfoldable pub unreverse : ℕ → ℕ → ℕ → Bytes → Bytes
unreverse zero j i buf = buf
unreverse (suc f) j i buf =
    let rest = unreverse f (j + 1) (i - 1) (swap_bytes buf j i) in if ltb j i then rest else buf

-- The loop over the whole buffer; `i` is the index before the NUL.
unfoldable pub unreversed : Bytes → Bytes
unfolding unreverse
unreversed buf = unreverse (length buf) 0 (length buf - 1) buf

-- The text in the buffer, without its NUL, of a value that is not negative.
unfoldable pub itoa_base10 : ℕ → Bytes
itoa_base10 value =
    let buf = convert_digits (suc value) value in if value == 0 then b'0' ∷ [] else unreversed buf

-- The negation of the least `int64_t` is that value again, and the loop then makes no round.
unfoldable pub itoa_base10_convert : ℤ → Bytes
itoa_base10_convert (pos value) = itoa_base10 value
itoa_base10_convert (negsuc n) =
    let buf = convert_digits (suc (suc n)) (suc n) in
    unreversed ((if suc n == 2 ^ 63 then [] else buf) ++ b'-' ∷ [])

-- The loop over the nibbles, the lowest first. Fuel above `n` is enough.
unfoldable pub convert_nibbles : ℕ → ℕ → Bytes
convert_nibbles zero n = []
convert_nibbles (suc f) n =
    let rest = get_or (codes "0123456789ABCDEF") (n % 16) 0 ∷ convert_nibbles f (n / 16) in
    if n == 0 then [] else rest

unfoldable pub itoa_convert_base16 : ℕ → Bytes
itoa_convert_base16 n =
    let pad : Bytes = if ltb n 16 then b'0' ∷ [] else [] in
    let buf = convert_nibbles (suc n) n ++ pad ++ codes "x0" in
    if n == 0 then codes "0x00" else unreversed buf

-- `none` is NULL.
unfoldable pub itoa : ℤ → ℕ → Option Bytes
itoa value base =
    if base == 10
    then some (itoa_base10_convert value)
    else if base == 16
    then some (itoa_convert_base16 (to_u64 value))
    else none
