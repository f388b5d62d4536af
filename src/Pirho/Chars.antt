-- ===== src/Pirho/Chars.antt =====
-- The character classes of src/sys/np/core/np_lex.c. A `char` is its byte; `char` is signed on
-- amd64, but a byte from 128 on is in none of the classes either way.
use l5lunos.Prelude.{ℕ, Bool, ◌&&◌, ◌||◌, bit_or, leb, ◌==◌}

unfoldable pub to_lower : ℕ → ℕ
to_lower c = bit_or c 0x20

unfoldable pub is_alpha : ℕ → Bool
unfolding to_lower
is_alpha c = leb b'a' (to_lower c) && leb (to_lower c) b'z'

unfoldable pub is_num : ℕ → Bool
is_num c = leb b'0' c && leb c b'9'

unfoldable pub is_space : ℕ → Bool
is_space c = c == b' ' || c == b'\t' || c == 12 || c == b'\n'
