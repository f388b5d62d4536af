-- ===== src/Str/Format/Expand.antt =====
-- The text that a format stands for, behind src/sys/lib/string/vsnprintf.c: with no buffer and no limit.
use l5lunos.Prelude.{
  ℕ, ◌-◌, ◌%◌, ◌^◌, ◌≡◌, ◌≢◌, List, [], ◌∷◌, ◌++◌, Bytes, length, drop, replicate,
}
use l5lunos.Prelude.Int8.{ℤ, to_u64}
use l5lunos.Str.Itoa.{itoa_base10_convert, itoa_convert_base16}
use l5lunos.Str.Format.{Arg, int_arg, u64_arg, str_arg, pad_width}

-- A decimal number, with zeros up to the width before its sign and digits.
abbrev pub padded : ℕ → ℤ → Bytes
padded pad num = replicate (pad - length (itoa_base10_convert num)) b'0' ++ itoa_base10_convert num

-- The digits of a number to the base 16, without "0x".
abbrev pub hex_digits : ℕ → Bytes
hex_digits num = drop 2 (itoa_convert_base16 (num % 2 ^ 64))

-- An address: "0x", and the digits with zeros before them.
abbrev pub address : ℕ → Bytes
address num =
    b'0' ∷ b'x' ∷ replicate (18 - length (itoa_convert_base16 (num % 2 ^ 64))) b'0'
    ++ hex_digits num

-- What a conversion takes of the arguments, the text that it gives, and the width that it leaves.
pub data Converts : ℕ → List Arg → ℕ → Bytes → List Arg → ℕ → Type 0 where
  char :
      {num : ℤ} {args : List Arg} {pad : ℕ}
      → Converts b'c' (int_arg num ∷ args) pad (to_u64 num % 256 ∷ []) args pad
  percent : {args : List Arg} {pad : ℕ} → Converts b'%' args pad (b'%' ∷ []) args pad
  decimal :
      {num : ℤ} {args : List Arg} {pad : ℕ}
      → Converts b'd' (int_arg num ∷ args) pad (padded pad num) args 0
  pointer :
      {num : ℕ} {args : List Arg} {pad : ℕ}
      → Converts b'p' (u64_arg num ∷ args) pad (address num) args pad
  hex :
      {num : ℕ} {args : List Arg} {pad : ℕ}
      → Converts b'x' (u64_arg num ∷ args) pad (hex_digits num) args pad
  string : {s : Bytes} {args : List Arg} {pad : ℕ} → Converts b's' (str_arg s ∷ args) pad s args pad

-- The text of a format, with the width that an earlier conversion has left.
pub data Expands : Bytes → List Arg → ℕ → Bytes → Type 0 where
  finish : {args : List Arg} {pad : ℕ} → Expands [] args pad []
  literal :
      {c : ℕ} {fmt : Bytes} {args : List Arg} {pad : ℕ} {t : Bytes}
      → c ≢ b'%'
      → Expands fmt args pad t
      → Expands (c ∷ fmt) args pad (c ∷ t)
  conversion :
      {c : ℕ} {rest fmt : Bytes} {args args' : List Arg} {pad pad' pad'' : ℕ} {s t : Bytes}
      → pad_width rest pad ≡ (pad', c ∷ fmt)
      → Converts c args pad' s args' pad''
      → Expands fmt args' pad'' t
      → Expands (b'%' ∷ rest) args pad (s ++ t)
