-- ===== src/Omar/Initrd.antt =====
-- Reading the initial ramdisk: src/sys/os/os_omar.c. The image is the memory from its root on; a read
-- past its end is a fault.
use l5lunos.Prelude.{
  ℕ, zero, suc, ◌+◌, ◌-◌, ◌*◌, ◌/◌, Bool, true, false, Option, none, some, [], ◌∷◌, ◌++◌, ltb, leb,
  ◌==◌, if◌then◌else◌, ◌>>=◌, Bytes, codes, length, take, drop, get_elem?,
}
use l5lunos.Prelude.Errno.{Ret, ok, err, einval, enoent, eio}
use l5lunos.Prelude.Int8.{ℤ, pos, negsuc}
use l5lunos.Str.Compare.{strcmp, strncmp}
use l5lunos.Omar.Header.{OmarHdr, omar_dir, sizeof_hdr, block_size, get_hdr}

-- `struct initrd_node`, whose `path` is never set; `bytes` is the memory from the file's data on.
pub record InitrdNode : Type 0 where
  pub bytes : Bytes
  pub size : ℕ
  pub mode : ℕ

abbrev pub is_zero : ℤ → Bool
is_zero (pos n) = n == 0
is_zero (negsuc n) = false

-- The characters before the NUL.
unfoldable pub c_string : Bytes → Bytes
c_string [] = []
c_string (c ∷ s) = let rest = c_string s in if c == 0 then [] else c ∷ rest

-- ALIGN_UP(value, BLOCK_SIZE)
abbrev pub block_up : ℕ → ℕ
block_up value = (value + (block_size - 1)) / block_size * block_size

-- The offset of the next header.
abbrev pub next_off : OmarHdr → ℕ
next_off h = if h.type == omar_dir then block_size else block_up (sizeof_hdr + h.namelen + h.len)

abbrev pub node_of : OmarHdr → Bytes → InitrdNode
node_of h rest = record { bytes = drop h.namelen rest; size = h.len; mode = h.mode }

-- A round of the loop behind the tests of the magic, with the header and what follows it.
abbrev pub match_entry :
    (Bytes → Option (Ret InitrdNode))
    → Bytes
    → Bytes
    → Option (OmarHdr × Bytes)
    → Option (Ret InitrdNode)
match_entry again path p none = none
match_entry again path p (some (h, rest)) =
    if ltb 255 h.namelen
    then some (err einval)
    else if ltb (length rest) h.namelen
    then none
    else if is_zero (strcmp (c_string (take h.namelen rest)) path)
    then some (ok (node_of h rest))
    else again (drop (next_off h) p)

-- The loop of `initrd_get_file`; `none` is a fault, or that the fuel ran out.
unfoldable pub walk : ℕ → Bytes → Bytes → Option (Ret InitrdNode)
walk zero path p = none
walk (suc f) path p =
    if ltb (length p) sizeof_hdr
    then none
    else if is_zero (strncmp p (codes "RAMO") 5)
    then some (err enoent)
    else if is_zero (strncmp p (codes "OMAR") 4)
    then match_entry (walk f path) path p (get_hdr (drop 4 p))
    else some (err einval)

-- Every header is at least a byte behind the one before, so the length of the image is enough fuel.
unfoldable pub initrd_get_file : Bytes → Bytes → Option (Ret InitrdNode)
initrd_get_file root path = walk (length root + 1) path root

abbrev pub opened : Ret InitrdNode → Ret (ℕ × Bytes)
opened (err e) = err e
opened (ok node) = ok (node.size, node.bytes)

-- The size and the data of a file; `path` is `none` for NULL.
unfoldable pub initrd_open : Bytes → Option Bytes → Option (Ret (ℕ × Bytes))
initrd_open root none = some (err einval)
initrd_open root (some []) = some (err enoent)
initrd_open root (some (c ∷ path)) =
    if c == b'/' then (initrd_get_file root path >>= λ r. some (opened r)) else some (err enoent)

-- The loop of `initrd_read`, with `n` bytes left to copy: the result, and the bytes that were copied.
-- `none` is a fault.
unfoldable pub copy_out : ℕ → ℕ → ℕ → InitrdNode → ℕ → Bytes → Option (ℕ × Bytes)
copy_out zero i off np len out = some (len, out)
copy_out (suc n) i off np len out =
    let rest =
      get_elem? np.bytes (off + i) >>= λ b. copy_out n (i + 1) off np len (out ++ b ∷ []) in
    if leb np.size (i + off) then some (0, out) else rest

-- MIN(data->len, np->size)
abbrev pub read_len : InitrdNode → ℕ → ℕ
read_len np len = if ltb len np.size then len else np.size

-- What it returns, and the bytes in the buffer; whether `data->data` is there, `data->vp` and its
-- `data` are arguments.
unfoldable pub initrd_read : Bool → Option (Option InitrdNode) → ℕ → ℕ → Option (Ret (ℕ × Bytes))
initrd_read false vp off len = some (err eio)
initrd_read true none off len = some (err eio)
initrd_read true (some none) off len = some (err eio)
initrd_read true (some (some np)) off len =
    copy_out (read_len np len) 0 off np (read_len np len) [] >>= λ r. some (ok r)
