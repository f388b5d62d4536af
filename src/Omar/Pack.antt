-- ===== src/Omar/Pack.antt =====
-- Writing an archive: `file_push` of src/tools/omar/omar.c. What `fstat` and `read` give of a file is
-- its record; the allocations and the write calls of the host are taken to succeed, and a `read` that
-- gives data to give all that was asked for.
use l5lunos.Prelude.{
  ℕ, ◌+◌, ◌-◌, ◌%◌, ◌^◌, Bool, [], ◌∷◌, ◌++◌, List, ◌==◌, if◌then◌else◌, Bytes, codes, length, take,
  replicate,
}
use l5lunos.Omar.Header.{OmarHdr, omar_reg, omar_dir, sizeof_hdr, block_size, put_hdr}

-- A file of the host: its name in the archive, st_mode, st_size and what `read` gives.
pub record HostFile : Type 0 where
  pub name : Bytes
  pub is_dir : Bool
  pub mode : ℕ
  pub size : ℕ
  pub contents : Bytes

abbrev pub hdr_of : HostFile → OmarHdr
hdr_of f = record {
  type = if f.is_dir then omar_dir else omar_reg;
  namelen = length f.name % 256;
  len = f.size % 2 ^ 32;
  rev = 2;
  mode = f.mode % 2 ^ 32;
}

-- `rem` and the padding behind `len` bytes.
abbrev pub dir_pad : ℕ → Bytes
dir_pad len = replicate (block_size - len % block_size) 0

abbrev pub reg_pad : ℕ → Bytes
reg_pad len = if len % block_size == 0 then [] else replicate (block_size - len % block_size) 0

-- What is written behind the name. Where `read` gives nothing the call fails here, and the padding is
-- left out.
unfoldable pub body_bytes : HostFile → Bytes
body_bytes f =
    let h = hdr_of f in
    if f.is_dir
    then dir_pad (sizeof_hdr + h.namelen)
    else if length f.contents == 0
    then []
    else f.contents ++ reg_pad (sizeof_hdr + (h.namelen + h.len))

-- `file_push` of a file: what it writes before `rest`.
unfoldable pub file_push : HostFile → Bytes → Bytes
unfolding body_bytes
file_push f rest =
    b'O'
    ∷ b'M'
    ∷ b'A'
    ∷ b'R'
    ∷ put_hdr (hdr_of f) (take (hdr_of f).namelen f.name ++ (body_bytes f ++ rest))

-- `file_push(NULL, "EOF")`; the mode is not written to, and is the parameter.
unfoldable pub eof_push : ℕ → Bytes
eof_push junk =
    b'R'
    ∷ b'A'
    ∷ b'M'
    ∷ b'O'
    ∷ put_hdr (record { type = omar_reg; namelen = 3; len = 0; rev = 2; mode = junk }) (codes "EOF")

-- The archive of files that are pushed in this order.
unfoldable pub archive : ℕ → List HostFile → Bytes
archive junk [] = eof_push junk
archive junk (f ∷ fs) = file_push f (archive junk fs)
