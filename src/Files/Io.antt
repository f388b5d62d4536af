-- ===== src/Files/Io.antt =====
-- Opening, reading, writing and seeking: the rest of src/sys/os/os_filedes.c. What a user's
-- address holds, the path lookup, the console and the vnode's operations are parameters, which
-- may change a state `S` of their own. A process is always at hand.
pub mod Seek
pub mod Open
use l5lunos.Prelude.{
  ℕ, zero, suc, ◌+◌, ◌%◌, ◌^◌, Bool, true, false, Option, none, some, ltb, ◌==◌, if◌then◌else◌,
  get_elem?, set, bit_and, Bytes,
}
use l5lunos.Prelude.Errno.{Errno, Ret, ok, err, fail, einval, eperm, ebadf, eio, esrch}
use l5lunos.Prelude.Int8.{ℤ, pos, negsuc}
use l5lunos.Files.Filedes.{Filedesc, FdTab, Files, o_rdwr, fd_alloc, fd_get, no_none, set_slot}

abbrev pub o_wronly : ℕ
o_wronly = 4

abbrev pub o_creat : ℕ
o_creat = 8

-- An update of the descriptor that `fd_get` gave: it stands in the slot of its number.
abbrev pub set_fd : Filedesc → (Filedesc → Filedesc) → Files → Files
set_fd d f s = record s { fdtab = set s.fdtab d.fdno (some (f d)) }

-- `off_t` is as wide as the offset's field, and wraps.
abbrev pub move_off : ℕ → Filedesc → Filedesc
move_off off d = record d { off = off % 2 ^ 64 }

-- SEEK_SET, SEEK_CUR and SEEK_END, with the size that `vop_getattr` gave; any other value of
-- `whence` leaves the offset as it is.
unfoldable pub seek_to : ℕ → ℕ → ℕ → ℕ → ℕ
seek_to whence off offset size =
    if whence == 0
    then offset
    else if whence == 1
    then off + offset
    else if whence == 2
    then size
    else off

-- Where the attributes are not to be had, the result is 0 and not an error.
abbrev pub seek_fd : Filedesc → ℕ → ℕ → Ret ℕ → Files → Ret ℕ × Files
seek_fd d offset whence (err e) s = (ok 0, s)
seek_fd d offset whence (ok size) s =
    let off = seek_to whence d.off offset size % 2 ^ 64 in (ok off, set_fd d (move_off off) s)

module _ {S : Type 0} (vop_getattr : Option ℕ → S → Ret ℕ × S) where
  abbrev pub seek_found : Option Filedesc → ℕ → ℕ → Files → S → Ret ℕ × Files × S
  seek_found none offset whence s w = (err ebadf, s, w)
  seek_found (some d) offset whence s w =
      let (a, w') = vop_getattr d.vp w in let (r, s') = seek_fd d offset whence a s in (r, s', w')

  unfoldable pub lseek : ℤ → ℕ → ℕ → Files → S → Ret ℕ × Files × S
  lseek (negsuc n) offset whence s w = (err ebadf, s, w)
  lseek (pos n) offset whence s w = seek_found (fd_get s.fdtab (pos n)) offset whence s w

-- The result of a vnode's operation on `count` bytes: where it is positive, the offset moves by
-- `count`, whatever the result is.
abbrev pub advance : Filedesc → ℕ → Files → Files
advance d count s = set_fd d (move_off (d.off + count)) s

abbrev pub read_result : Filedesc → ℕ → Ret ℕ → Files → Ret ℕ × Files
read_result d count (err e) s = (err e, s)
read_result d count (ok zero) s = (ok 0, s)
read_result d count (ok (suc n)) s = (ok (suc n), advance d count s)

module _ {S : Type 0} (proc_check_addr : ℕ → ℕ → Ret (Unit {0}))
    (vop_read : ℕ → ℕ → ℕ → ℕ → S → Ret ℕ × S) where
  abbrev pub read_vnode : Filedesc → Option ℕ → ℕ → ℕ → Files → S → Ret ℕ × Files × S
  read_vnode d none buf count s w = (err eio, s, w)
  read_vnode d (some vp) buf count s w =
      let (r, w') = vop_read vp buf d.off count w in
      let (r', s') = read_result d count r s in (r', s', w')

  abbrev pub read_found : Option Filedesc → ℕ → ℕ → Files → S → Ret ℕ × Files × S
  read_found none buf count s w = (err ebadf, s, w)
  read_found (some d) buf count s w =
      if d.mode == o_wronly then (err eperm, s, w) else read_vnode d d.vp buf count s w

  -- `buf` is `none` for NULL.
  unfoldable pub read : ℤ → Option ℕ → ℕ → Files → S → Ret ℕ × Files × S
  read fd none count s w = (err einval, s, w)
  read fd (some buf) count s w = elim (proc_check_addr buf count) [
    | err e ↦ (err e, s, w)
    | ok _ ↦ read_found (fd_get s.fdtab fd) buf count s w
  ]

abbrev pub write_result : Filedesc → ℕ → Ret ℕ → Files → Ret ℕ × Files
write_result d count (err e) s = (err e, s)
write_result d count (ok zero) s = (ok 0, s)
write_result d count (ok (suc n)) s = (ok count, advance d count s)

abbrev pub kbuf_size : ℕ
kbuf_size = 1024

module _ {S : Type 0} (proc_check_addr : ℕ → ℕ → Ret (Unit {0})) (cons_putstr : ℕ → ℕ → S → S)
    (vop_write : ℕ → ℕ → ℕ → ℕ → S → Ret ℕ × S) where
  abbrev pub write_vnode : Filedesc → Option ℕ → ℕ → ℕ → Files → S → Ret ℕ × Files × S
  write_vnode d none buf count s w = (err eio, s, w)
  write_vnode d (some vp) buf count s w =
      let (r, w') = vop_write vp buf d.off count w in
      let (r', s') = write_result d count r s in (r', s', w')

  -- Standard output goes to the console; the text is what stands at `buf`.
  abbrev pub write_to : ℤ → Filedesc → ℕ → ℕ → Files → S → Ret ℕ × Files × S
  write_to (pos (suc zero)) d buf count s w = (ok count, s, cons_putstr buf count w)
  write_to fd d buf count s w = write_vnode d d.vp buf count s w

  -- The copy into the buffer of 1024 bytes is not checked: above that it is a fault.
  abbrev pub write_found : Option Filedesc → ℤ → ℕ → ℕ → Files → S → Option (Ret ℕ × Files × S)
  write_found none fd buf count s w = some (err ebadf, s, w)
  write_found (some d) fd buf count s w =
      if bit_and d.mode (o_wronly + o_rdwr) == 0
      then some (err eperm, s, w)
      else if ltb kbuf_size count
      then none
      else some (write_to fd d buf count s w)

  unfoldable pub write : ℤ → ℕ → ℕ → Files → S → Option (Ret ℕ × Files × S)
  write fd buf count s w = elim (proc_check_addr buf count) [
    | err e ↦ some (err e, s, w)
    | ok _ ↦ write_found (fd_get s.fdtab fd) fd buf count s w
  ]

abbrev pub namei_flags : ℕ → ℕ
namei_flags mode = if bit_and mode o_creat == 0 then 0 else 1

-- Where the lookup fails, the descriptor stays in its slot.
abbrev pub open_slot : ℕ → ℕ → Ret ℕ → Files → Ret ℕ × Files
open_slot i mode (err e) s = (err e, s)
open_slot i mode (ok vp) s = (
  ok i,
  record s {
    fdtab =
        set_slot i (λ d. record d { vp = some vp; mode = mode }) (no_none (get_elem? s.fdtab i))
          s.fdtab;
  },
)

-- `namei` gives the vnode of a path.
module _ {S : Type 0} (namei : Bytes → ℕ → S → Ret ℕ × S) where
  abbrev pub open_with : Bytes → ℕ → Ret ℕ × Files → S → Ret ℕ × Files × S
  open_with path mode (err e, s) w = (err e, s, w)
  open_with path mode (ok i, s) w =
      let (v, w') = namei path (namei_flags mode) w in
      let (r, s') = open_slot i mode v s in (r, s', w')

  unfoldable pub fd_open : Option Bytes → ℕ → Files → S → Ret ℕ × Files × S
  fd_open none mode s w = (err esrch, s, w)
  fd_open (some path) mode s w = open_with path mode (fd_alloc s) w
