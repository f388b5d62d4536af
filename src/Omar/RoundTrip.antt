-- ===== src/Omar/RoundTrip.antt =====
-- Proofs on `initrd_get_file` of src/sys/os/os_omar.c, on what src/tools/omar/omar.c packs.
use l5lunos.Prelude.{
  ℕ, zero, suc, ◌+◌, ◌%◌, ◌^◌, ◌≤◌, ◌<◌, ◌≡◌, refl, inl, inr, Bool-cases, true, false, Option, none,
  some, List, [], ◌∷◌, ◌++◌, ltb, ◌==◌, if◌then◌else◌, arith, Bytes, codes, same_text, length,
  length-append, append_assoc, take, take-length-append,
}
use l5lunos.Prelude.Errno.{Ret, ok, err, enoent}
use l5lunos.Str.Compare.{char_diff, strncmp}
use l5lunos.Str.Compare.Order.{IsText}
use l5lunos.Omar.Header.{sizeof_hdr}
use l5lunos.Omar.Pack.{reg_pad, HostFile, hdr_of, body_bytes, file_push, eof_push, archive}
use l5lunos.Omar.Initrd.{InitrdNode, is_zero, c_string, node_of, walk, initrd_get_file}
use l5lunos.Omar.Layout.{
  IsPackable, AllPackable, drop-length-append, drop-file_push, hdr_of-get_hdr, whole_contents,
  no_contents, c_string-text, is_zero-strcmp,
}

not_end :
    (f : HostFile) (rest : Bytes)
    → (ltb (length (file_push f rest)) sizeof_hdr ≡ false)
      × (is_zero (strncmp (file_push f rest) (codes "RAMO") 5) ≡ false)
      × (is_zero (strncmp (file_push f rest) (codes "OMAR") 4) ≡ true)
unfolding file_push strncmp char_diff
not_end f rest = (ground arith, refl, refl)

c_string-name :
    (f : HostFile) (rest : Bytes)
    → IsPackable f
    → c_string (take (length f.name % 256) (f.name ++ rest)) ≡ f.name
c_string-name f rest p =
    let k : length f.name % 256 ≡ length f.name = omega (arith, p.short) in
    rw (k, take-length-append f.name rest) (c_string-text f.name p.text)

node_of_lem :
    (f : HostFile) (rest : Bytes)
    → IsPackable f
    → node_of (hdr_of f) (f.name ++ rest) ≡ record { bytes = rest; size = f.size; mode = f.mode }
node_of_lem f rest p =
    let k : length f.name % 256 ≡ length f.name = omega (arith, p.short) in
    let s : f.size % 2 ^ 32 ≡ f.size = omega (arith, p.size) in
    let m : f.mode % 2 ^ 32 ≡ f.mode = omega (arith, p.mode) in
    rw (s, m, drop-length-append f.name rest (length f.name % 256) k) refl

-- What the walk comes to at the header of `f`.
walk-file_push :
    (fuel : ℕ) (path : Bytes) (f : HostFile) (rest : Bytes)
    → IsPackable f
    → IsText path
    → walk (suc fuel) path (file_push f rest) ≡ (
        if same_text f.name path
        then some (ok (record { bytes = body_bytes f ++ rest; size = f.size; mode = f.mode }))
        else walk fuel path rest)
unfolding walk
walk-file_push fuel path f rest p t =
    let tests = not_end f rest in
    let tail = body_bytes f ++ rest in
    let k : ltb 255 (length f.name % 256) ≡ false = ground arith in
    let fits : ltb (length (f.name ++ tail)) (length f.name % 256) ≡ false =
      ground (arith, p.short, length-append f.name tail) in
    rw
      (
        tests.0,
        tests.1,
        tests.2,
        hdr_of-get_hdr f rest p,
        k,
        fits,
        c_string-name f tail p,
        is_zero-strcmp f.name path p.text t,
        drop-file_push f rest p,
        node_of_lem f tail p,
      )
      refl

walk-eof_push :
    (fuel : ℕ) (path : Bytes) (junk : ℕ) → walk (suc fuel) path (eof_push junk) ≡ some (err enoent)
unfolding walk eof_push strncmp char_diff
walk-eof_push fuel path junk = refl

-- The first file of a name.
unfoldable pub find_file : Bytes → List HostFile → Option HostFile
find_file path [] = none
find_file path (f ∷ fs) =
    let rest = find_file path fs in if same_text f.name path then some f else rest

-- What the node of a file says: the file's mode and size, with its contents in the memory first.
abbrev pub Serves : HostFile → InitrdNode → Type 0
Serves f node =
    (node.mode ≡ f.mode) × (node.size ≡ f.size) × (take (length f.contents) node.bytes ≡ f.contents)

abbrev pub Answers : Option HostFile → Option (Ret InitrdNode) → Type 0
Answers none r = r ≡ some (err enoent)
Answers (some f) r = (node : InitrdNode) × (r ≡ some (ok node)) × Serves f node

contents-body_bytes :
    (f : HostFile) (rest : Bytes)
    → IsPackable f
    → take (length f.contents) (body_bytes f ++ rest) ≡ f.contents
unfolding body_bytes
contents-body_bytes f rest p = elim (Bool-cases f.is_dir) [
  | inl d ↦ rw (no_contents f.is_dir f.size f.contents d p.gives) refl
  | inr r ↦
      let g = whole_contents f.is_dir f.size f.contents r p.gives in
      let n : (length f.contents == 0) ≡ false = ground (arith, g.0, g.1) in
      let pad = reg_pad (sizeof_hdr + (length f.name % 256 + f.size % 2 ^ 32)) in
      simp (r, n, append_assoc f.contents pad rest) (take-length-append f.contents (pad ++ rest))
]

walk-archive :
    (fuel : ℕ) (path : Bytes) (junk : ℕ) (fs : List HostFile)
    → AllPackable fs
    → IsText path
    → length fs < fuel
    → Answers (find_file path fs) (walk fuel path (archive junk fs))
unfolding archive find_file
walk-archive zero path junk fs p t h = absurd (omega arith)
walk-archive (suc fuel) path junk [] p t h = walk-eof_push fuel path junk
walk-archive (suc fuel) path junk (f ∷ fs) p t h = elim (Bool-cases (same_text f.name path)) [
  | inl e ↦
      let rest = archive junk fs in
      rw e (
        record { bytes = body_bytes f ++ rest; size = f.size; mode = f.mode },
        rw (walk-file_push fuel path f rest p.0 t, e) refl,
        (refl, refl, contents-body_bytes f rest p.0),
      )
  | inr e ↦
      rw (e, walk-file_push fuel path f (archive junk fs) p.0 t, e)
        (walk-archive fuel path junk fs p.1 t (omega (arith, h)))
]

length-archive : (junk : ℕ) (fs : List HostFile) → length fs ≤ length (archive junk fs)
unfolding archive file_push
length-archive junk [] = omega arith
length-archive junk (f ∷ fs) =
    let body = body_bytes f in
    let name = take (length f.name % 256) f.name in
    omega (
      arith,
      length-archive junk fs,
      length-append name (body ++ archive junk fs),
      length-append body (archive junk fs),
    )

-- In an archive of packable files, `initrd_get_file` of a text gives the mode, the size and the
-- contents of the first file of that name, and ENOENT where no file has it. It reads nothing past
-- the archive, and does not run out of fuel.
pub initrd_get_file-archive :
    (path : Bytes) (junk : ℕ) (fs : List HostFile)
    → AllPackable fs
    → IsText path
    → Answers (find_file path fs) (initrd_get_file (archive junk fs) path)
unfolding initrd_get_file
initrd_get_file-archive path junk fs p t =
    walk-archive (length (archive junk fs) + 1) path junk fs p t
      (omega (arith, length-archive junk fs))
