-- ===== src/Str/Format.antt =====
-- src/sys/lib/string/vsnprintf.c: the formatting of text into a buffer. The buffer is a list of bytes;
-- a write past its end, a read past the format's NUL and an argument that is missing or of another
-- type are faults, which `none` stands for.
pub mod Output
pub mod Expand
pub mod Truncate
use l5lunos.Prelude.{
  ℕ, zero, suc, ◌+◌, ◌-◌, ◌*◌, ◌%◌, ◌^◌, Bool, Option, none, some, List, [], ◌∷◌, leb, ltb, ◌==◌,
  ◌&&◌, if◌then◌else◌, ◌>>=◌, Bytes, codes, length, set, drop,
}
use l5lunos.Prelude.Int8.{ℤ, to_u64}
use l5lunos.Str.Itoa.{itoa_base10_convert, itoa_convert_base16}

-- An argument: an `int`, a `uint64_t`, or a string before its NUL.
pub data Arg : Type 0 where
  int_arg : ℤ → Arg
  u64_arg : ℕ → Arg
  str_arg : Bytes → Arg

-- The buffer, and `off`.
pub record Out : Type 0 where
  pub buf : Bytes
  pub off : ℕ

-- `size - 1`, on `size_t`
abbrev pub room : ℕ → ℕ
room size = (size + (2 ^ 64 - 1)) % 2 ^ 64

unfoldable pub poke : ℕ → ℕ → Bytes → Option Bytes
poke i c buf = if ltb i (length buf) then some (set buf i c) else none

-- `buf[(*off)++] = c`
unfoldable pub put : ℕ → Out → Option Out
put c o = poke o.off c o.buf >>= λ buf. some (record { buf = buf; off = o.off + 1 })

-- `buf[*off] = 0`
unfoldable pub put_nul : Out → Option Out
put_nul o = poke o.off 0 o.buf >>= λ buf. some (record o { buf = buf })

unfoldable pub printc : ℕ → Out → ℕ → Option Out
printc size o c = (if ltb o.off (room size) then put c o else some o) >>= put_nul

-- The loop of `printstr`.
unfoldable pub put_all : ℕ → Bytes → Out → Option Out
put_all size [] o = some o
put_all size (c ∷ s) o =
    let rest = put c o >>= put_all size s in if ltb o.off (room size) then rest else some o

unfoldable pub printstr : ℕ → Out → Bytes → Option Out
printstr size o s = put_all size s o >>= put_nul

-- A loop of `printc(s, size, &off, '0')`.
unfoldable pub print_zeros : ℕ → ℕ → Out → Option Out
print_zeros size zero o = some o
print_zeros size (suc n) o = printc size o b'0' >>= print_zeros size n

-- `while (*fmt && *fmt != '%')`: the rest of the format, and the output.
unfoldable pub literals : ℕ → Bytes → Out → Option (Bytes × Out)
literals size [] o = some ([], o)
literals size (c ∷ fmt) o =
    let rest = printc size o c >>= literals size fmt in
    if c == b'%' then some (c ∷ fmt, o) else rest

-- The digits behind "%0"; `pad_width` is a `uint8_t`.
unfoldable pub pad_digits : Bytes → ℕ → ℕ × Bytes
pad_digits [] pad = (pad, [])
pad_digits (c ∷ fmt) pad =
    let rest = pad_digits fmt ((pad * 10 + (c - b'0')) % 256) in
    if leb b'0' c && leb c b'9' then rest else (pad, c ∷ fmt)

-- The width, and the format behind it; `pad` is the width that an earlier directive has left.
unfoldable pub pad_width : Bytes → ℕ → ℕ × Bytes
pad_width [] pad = (pad, [])
pad_width (c ∷ fmt) pad =
    let rest = pad_digits fmt pad in if c == b'0' then rest else (pad, c ∷ fmt)

-- The cases of the `switch`, on the arguments that are left; `pad_width` is set to 0 by "%d" alone.
-- The argument of "%p" and "%x" goes through an `int64_t` to the base 16.
unfoldable pub print_d : ℕ → List Arg → ℕ → Out → Option (List Arg × ℕ × Out)
print_d size (int_arg num ∷ args) pad o =
    let num_buf = itoa_base10_convert num in
    print_zeros size (pad - length num_buf) o >>= λ o'.
    printstr size o' num_buf >>= λ o''. some (args, 0, o'')
print_d size _ pad o = none

unfoldable pub print_p : ℕ → List Arg → ℕ → Out → Option (List Arg × ℕ × Out)
print_p size (u64_arg num ∷ args) pad o =
    let num_buf = itoa_convert_base16 (num % 2 ^ 64) in
    printc size o b'0' >>= λ o1. printc size o1 b'x' >>= λ o2.
    print_zeros size (18 - length num_buf) o2 >>= λ o3.
    printstr size o3 (drop 2 num_buf) >>= λ o4. some (args, pad, o4)
print_p size _ pad o = none

unfoldable pub print_x : ℕ → List Arg → ℕ → Out → Option (List Arg × ℕ × Out)
print_x size (u64_arg num ∷ args) pad o =
    printstr size o (drop 2 (itoa_convert_base16 (num % 2 ^ 64))) >>= λ o'. some (args, pad, o')
print_x size _ pad o = none

unfoldable pub print_s : ℕ → List Arg → ℕ → Out → Option (List Arg × ℕ × Out)
print_s size (str_arg s ∷ args) pad o = printstr size o s >>= λ o'. some (args, pad, o')
print_s size _ pad o = none

unfoldable pub print_c : ℕ → List Arg → ℕ → Out → Option (List Arg × ℕ × Out)
print_c size (int_arg num ∷ args) pad o =
    printc size o (to_u64 num % 256) >>= λ o'. some (args, pad, o')
print_c size _ pad o = none

-- The `switch`; a character that it does not know prints nothing.
unfoldable pub directive : ℕ → ℕ → List Arg → ℕ → Out → Option (List Arg × ℕ × Out)
directive size c args pad o =
    if c == b'c'
    then print_c size args pad o
    else if c == b'%'
    then (printc size o c >>= λ o'. some (args, pad, o'))
    else if c == b'd'
    then print_d size args pad o
    else if c == b'p'
    then print_p size args pad o
    else if c == b'x'
    then print_x size args pad o
    else if c == b's'
    then print_s size args pad o
    else some (args, pad, o)

abbrev pub Rounds : Type 0
Rounds = Bytes → List Arg → ℕ → Out → Option (ℕ × Bytes)

-- A round of the loop of `vsnprintf` behind the literal characters, before its further rounds.
abbrev pub behind_pad : Rounds → ℕ → ℕ × Bytes → List Arg → Out → Option (ℕ × Bytes)
behind_pad further size (pad, []) args o = none
behind_pad further size (pad, c ∷ fmt) args o =
    directive size c args pad o >>= λ (args', pad', o'). further fmt args' pad' o'

abbrev pub behind_literals : Rounds → ℕ → List Arg → ℕ → Bytes × Out → Option (ℕ × Bytes)
behind_literals further size args pad ([], o) = some (o.off, o.buf)
behind_literals further size args pad (_ ∷ fmt, o) =
    let rest = behind_pad further size (pad_width fmt pad) args o in
    if o.off == room size then some (o.off, o.buf) else rest

-- The loop of `vsnprintf`; fuel above the length of the format is enough. The result is the value that
-- is returned, and the buffer.
unfoldable pub format_loop : ℕ → ℕ → Rounds
format_loop zero size fmt args pad o = none
format_loop (suc f) size fmt args pad o =
    let rest = literals size fmt o >>= behind_literals (format_loop f size) size args pad in
    if ltb o.off (room size) then rest else some (0, o.buf)

-- The result that the loop gives on a fresh `off` and `pad_width`.
unfoldable pub vsnprintf : Bytes → ℕ → Bytes → List Arg → Option (ℕ × Bytes)
vsnprintf s size fmt args =
    format_loop (suc (length fmt)) size fmt args 0 (record { buf = s; off = 0 })
