-- ===== src/Files/Io/Seek.antt =====
-- Proofs on `lseek` of src/sys/os/os_filedes.c.
use l5lunos.Prelude.{
  ℕ, ◌%◌, ◌^◌, ◌<◌, ◌≡◌, refl, ap, ◌∙◌, Option, some, arith, set, length, length-set,
  get_elem?-set_self,
}
use l5lunos.Prelude.Errno.{Ret, ok}
use l5lunos.Prelude.Int8.{pos}
use l5lunos.Files.Filedes.{Filedesc, FdTab, Files, fd_get, no_none}
use l5lunos.Files.Table.{IsValid, IsNumbered-set}
use l5lunos.Files.Lookup.{at_slot, fd_get_lem, fdno-at, lt_length_of_slot}
use l5lunos.Files.Io.{move_off, seek_to, lseek}

-- An open descriptor is found, and carries its slot's number.
pub fd_get-open :
    (t : FdTab) (n : ℕ) (d : Filedesc)
    → IsValid t
    → at_slot t (pos n) ≡ some d
    → (fd_get t (pos n) ≡ some d) × (d.fdno ≡ n) × (n < length t)
unfolding at_slot
fd_get-open t n d v h =
    let got : fd_get t (pos n) ≡ some d = fd_get_lem t (pos n) v ∙ unfold at_slot in rw h in
    (got, omega (arith, fdno-at 0 n t d v.numbered h), lt_length_of_slot t n d h)

IsValid-set :
    (t : FdTab) (n : ℕ) (d : Filedesc) → IsValid t → d.fdno ≡ n → IsValid (set t n (some d))
IsValid-set t n d v e = record {
  size = length-set t n (some d) ∙ v.size;
  numbered = IsNumbered-set 0 n t d (omega (arith, e)) v.numbered;
}

-- The table in which slot `n` holds `d` at another offset.
abbrev pub moved : Files → ℕ → Filedesc → ℕ → Files
moved s n d off = record s { fdtab = set s.fdtab n (some (move_off off d)) }

at_slot-moved :
    (s : Files) (n : ℕ) (d : Filedesc) (off : ℕ)
    → n < length s.fdtab
    → at_slot (moved s n d off).fdtab (pos n) ≡ some (move_off off d)
unfolding at_slot
at_slot-moved s n d off h = ap no_none (get_elem?-set_self s.fdtab n (some (move_off off d)) h)

module _ {S : Type 0} (vop_getattr : Option ℕ → S → Ret ℕ × S) where
  lseek-open :
      (n offset whence size : ℕ) (s : Files) (w : S) (d : Filedesc)
      → IsValid s.fdtab
      → at_slot s.fdtab (pos n) ≡ some d
      → (vop_getattr d.vp w).0 ≡ ok size
      → let off = seek_to whence d.off offset size % 2 ^ 64 in
        lseek vop_getattr (pos n) offset whence s w
        ≡ (ok off, moved s n d off, (vop_getattr d.vp w).1)
  unfolding lseek
  lseek-open n offset whence size s w d v h k =
      let g = fd_get-open s.fdtab n d v h in simp (g.0, k, g.1)

  -- In a well formed table, and where the vnode's attributes are always to be had, `lseek` with
  -- SEEK_SET on a descriptor that its slot holds returns the offset, modulo 2^64, keeps the table well
  -- formed, and a second call with SEEK_CUR and 0 returns the same.
  pub lseek-lseek :
      (n offset size : ℕ) (s : Files) (w : S) (d : Filedesc)
      → IsValid s.fdtab
      → at_slot s.fdtab (pos n) ≡ some d
      → ((u : S) → (vop_getattr d.vp u).0 ≡ ok size)
      → let (r, s', w') = lseek vop_getattr (pos n) offset 0 s w in
        (r ≡ ok (offset % 2 ^ 64))
        × IsValid s'.fdtab
        × ((lseek vop_getattr (pos n) 0 1 s' w').0 ≡ ok (offset % 2 ^ 64))
  unfolding seek_to
  lseek-lseek n offset size s w d v h k =
      let g = fd_get-open s.fdtab n d v h in
      let off : ℕ = offset % 2 ^ 64 in
      let v' = IsValid-set s.fdtab n (move_off off d) v g.1 in
      let again =
        lseek-open n 0 1 size (moved s n d off) (vop_getattr d.vp w).1 (move_off off d) v'
          (at_slot-moved s n d off g.2) (k (vop_getattr d.vp w).1) in
      rw (lseek-open n offset 0 size s w d v h (k w))
        (refl, v', ap (λ x. x.0) again ∙ ap ok (omega arith))
