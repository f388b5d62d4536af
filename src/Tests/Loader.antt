-- ===== src/Tests/Loader.antt =====
-- The loader on a program with a segment of three bytes, on the small memory of the page tables.
use l5lunos.Prelude.{ℕ, ◌≡◌, refl, some, [], ◌∷◌, ◌++◌, replicate, Bytes}
use l5lunos.Prelude.Errno.{ok}
use l5lunos.Str.Compare.{memcmp}
use l5lunos.Proc.Elf.{Phdr, le_bytes, read_field, elf64_verify}

abbrev zeros : ℕ → Bytes
zeros n = replicate n 0

abbrev ehdr : Bytes
ehdr =
    (0x7F ∷ b'E' ∷ b'L' ∷ b'F' ∷ 2 ∷ 1 ∷ 1 ∷ zeros 9)
    ++ (2 ∷ 0 ∷ 62 ∷ 0 ∷ 1 ∷ zeros 3)
    ++ (0 ∷ 0 ∷ 64 ∷ zeros 5)
    ++ (64 ∷ zeros 7)
    ++ zeros 12
    ++ (64 ∷ 0 ∷ 56 ∷ 0 ∷ 1 ∷ 0 ∷ zeros 6)

abbrev phdr : Bytes
phdr =
    (1 ∷ 0 ∷ 0 ∷ 0 ∷ 5 ∷ 0 ∷ 0 ∷ 0 ∷ 120 ∷ zeros 7)
    ++ (0 ∷ 0 ∷ 64 ∷ zeros 13)
    ++ (3 ∷ zeros 7)
    ++ (3 ∷ zeros 15)

abbrev pub program : Bytes
program = ehdr ++ phdr ++ (144 ∷ 144 ∷ 195 ∷ [])

abbrev text : Phdr
text = record { p_flags = 5; p_offset = 120; p_vaddr = 0x400000; p_filesz = 3; p_memsz = 3 }

program_verified : elf64_verify program ≡ some (ok tt)
unfolding elf64_verify read_field le_bytes memcmp
program_verified = refl
