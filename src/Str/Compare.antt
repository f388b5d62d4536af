-- ===== src/Str/Compare.antt =====
-- The comparisons of the string library: strcmp.c, strncmp.c and memcmp.c of src/sys/lib/string. A
-- string is its characters, as `unsigned char`, before the NUL.
pub mod Order
use l5lunos.Prelude.{
  ℕ, zero, suc, ◌-◌, Option, none, some, [], ◌∷◌, leb, ◌==◌, if◌then◌else◌, Bytes,
}
use l5lunos.Prelude.Int8.{ℤ, pos, negsuc}

-- The difference of two characters, as an `int`.
unfoldable pub char_diff : ℕ → ℕ → ℤ
char_diff a b = if leb b a then pos (a - b) else negsuc (b - a - 1)

unfoldable pub strcmp : Bytes → Bytes → ℤ
strcmp [] [] = pos 0
strcmp [] (b ∷ t) = char_diff 0 b
strcmp (a ∷ s) [] = char_diff a 0
strcmp (a ∷ s) (b ∷ t) = let rest = strcmp s t in if a == b then rest else char_diff a b

unfoldable pub strncmp : Bytes → Bytes → ℕ → ℤ
strncmp s t zero = pos 0
strncmp [] [] (suc n) = pos 0
strncmp [] (b ∷ t) (suc n) = char_diff 0 b
strncmp (a ∷ s) [] (suc n) = char_diff a 0
strncmp (a ∷ s) (b ∷ t) (suc n) = let rest = strncmp s t n in if a == b then rest else char_diff a b

-- `none` is a read past the end of a block.
unfoldable pub memcmp : Bytes → Bytes → ℕ → Option ℤ
memcmp s t zero = some (pos 0)
memcmp [] t (suc n) = none
memcmp (a ∷ s) [] (suc n) = none
memcmp (a ∷ s) (b ∷ t) (suc n) =
    let rest = memcmp s t n in if a == b then rest else some (char_diff a b)
