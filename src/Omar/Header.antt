-- ===== src/Omar/Header.antt =====
-- `struct omar_hdr`, which src/tools/omar/omar.c and src/sys/os/os_omar.c both declare, packed: four
-- bytes of magic, the type, the length of the name, and then the length of the file, the revision
-- and the mode, the numbers of four bytes from the lowest byte on.
use l5lunos.Prelude.{ℕ, ◌+◌, ◌*◌, ◌/◌, ◌%◌, ◌<◌, ◌≡◌, ◌^◌, arith, Option, none, some, ◌∷◌, Bytes}

pub record OmarHdr : Type 0 where
  pub type : ℕ
  pub namelen : ℕ
  pub len : ℕ
  pub rev : ℕ
  pub mode : ℕ

abbrev pub omar_reg : ℕ
omar_reg = 0

abbrev pub omar_dir : ℕ
omar_dir = 1

-- sizeof(struct omar_hdr)
abbrev pub sizeof_hdr : ℕ
sizeof_hdr = 15

abbrev pub block_size : ℕ
block_size = 512

-- A `uint32_t` in memory, before `rest`.
abbrev pub put32 : ℕ → Bytes → Bytes
put32 n rest = (n % 256) ∷ (n / 256 % 256) ∷ (n / 65536 % 256) ∷ (n / 16777216 % 256) ∷ rest

abbrev pub get32 : ℕ → ℕ → ℕ → ℕ → ℕ
get32 a b c d = a + 256 * b + 65536 * c + 16777216 * d

-- A header behind its magic, before `rest`.
abbrev pub put_hdr : OmarHdr → Bytes → Bytes
put_hdr h rest = h.type ∷ h.namelen ∷ put32 h.len (h.rev ∷ put32 h.mode rest)

-- The header behind its magic, and what follows it; `none` where the memory ends inside it.
unfoldable pub get_hdr : Bytes → Option (OmarHdr × Bytes)
get_hdr (t ∷ n ∷ a ∷ b ∷ c ∷ d ∷ r ∷ e ∷ f ∷ g ∷ h ∷ rest) =
    some
      (record { type = t; namelen = n; len = get32 a b c d; rev = r; mode = get32 e f g h }, rest)
get_hdr _ = none

pub get32-put32 :
    (n : ℕ)
    → n < 2 ^ 32
    → get32 (n % 256) (n / 256 % 256) (n / 65536 % 256) (n / 16777216 % 256) ≡ n
get32-put32 n h = omega arith
