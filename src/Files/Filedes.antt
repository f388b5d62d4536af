-- ===== src/Files/Filedes.antt =====
-- The descriptor table of a process, src/sys/os/os_filedes.c. A descriptor is referred to by the
-- table alone, so the table holds descriptors and not pointers to them; the pointer that a
-- function returns is the slot. The operations of a vnode are a parameter.
use l5lunos.Prelude.{
  ℕ, ◌+◌, Bool, true, false, Option, none, some, List, [], ◌∷◌, ◌==◌, if◌then◌else◌, get_elem?, set,
}
use l5lunos.Prelude.Errno.{Ret, ok, err, fail, einval, emfile, ebadf, eio}
use l5lunos.Prelude.Int8.{ℤ, pos, negsuc}
use l5lunos.Mem.Kalloc.{Heap, kalloc, kfree}

-- `struct filedesc`, with its own address; `vp` is the number of a vnode, or `none` for NULL.
pub record Filedesc : Type 0 where
  pub self : ℕ
  pub fdno : ℕ
  pub off : ℕ
  pub vp : Option ℕ
  pub mode : ℕ

abbrev pub FdTab : Type 0
FdTab = List (Option Filedesc)

-- What the functions here change: `procp->fdtab`, the heap, and the reference counts of vnodes.
pub record Files : Type 0 where
  pub fdtab : FdTab
  pub heap : Heap
  pub refs : ℕ → ℕ

abbrev pub fd_max : ℕ
fd_max = 256

-- sizeof(struct filedesc) on amd64
abbrev pub sizeof_filedesc : ℕ
sizeof_filedesc = 32

-- O_RDWR is BIT(1).
abbrev pub o_rdwr : ℕ
o_rdwr = 2

abbrev pub fresh_fd : ℕ → ℕ → Filedesc
fresh_fd p i = record { self = p; fdno = i; off = 0; vp = none; mode = 0 }

-- The loop of `fd_alloc`: the first free slot, from slot `i` on.
unfoldable pub find_free : ℕ → FdTab → Option ℕ
find_free i [] = none
find_free i (none ∷ t) = some i
find_free i (some d ∷ t) = find_free (i + 1) t

abbrev pub fill_slot : ℕ → Files → Option ℕ × Heap → Ret ℕ × Files
fill_slot i s (none, h) = (err einval, record s { heap = h })
fill_slot i s (some p, h) =
    (ok i, record s { heap = h; fdtab = set s.fdtab i (some (fresh_fd p i)) })

abbrev pub take_slot : Option ℕ → Files → Ret ℕ × Files
take_slot none s = (err emfile, s)
take_slot (some i) s = fill_slot i s (kalloc sizeof_filedesc s.heap)

-- The slot of the new descriptor.
unfoldable pub fd_alloc : Files → Ret ℕ × Files
fd_alloc s = take_slot (find_free 0 s.fdtab) s

abbrev pub is_fd : ℕ → ℤ → Bool
is_fd n (pos m) = n == m
is_fd n (negsuc m) = false

-- The loop of `fd_get`, which leaves in `fdp` what it looked at last.
unfoldable pub scan_fds : ℤ → Option Filedesc → FdTab → Option Filedesc
scan_fds fd fdp [] = fdp
scan_fds fd fdp (none ∷ t) = scan_fds fd none t
scan_fds fd fdp (some d ∷ t) = if is_fd d.fdno fd then some d else scan_fds fd (some d) t

unfoldable pub fd_get : FdTab → ℤ → Option Filedesc
fd_get t fd = scan_fds fd none t

abbrev pub set_slot : ℕ → (Filedesc → Filedesc) → Option Filedesc → FdTab → FdTab
set_slot i f none t = t
set_slot i f (some d) t = set t i (some (f d))

-- `vnode_ref(old->vp)`, where that is not NULL
abbrev pub ref_vnode : Option ℕ → (ℕ → ℕ) → ℕ → ℕ
ref_vnode none refs v = refs v
ref_vnode (some u) refs v = if u == v then refs v + 1 else refs v

abbrev pub no_none : Option (Option Filedesc) → Option Filedesc
no_none none = none
no_none (some o) = o

abbrev pub copy_fd : Option Filedesc → Ret ℕ × Files → Option (Option ℕ × Files)
copy_fd old (err e, s) = some (none, s)
copy_fd none (ok i, s) = none
copy_fd (some d) (ok i, s) = some (
  some i,
  record s {
    fdtab =
        set_slot i (λ n. record n { mode = d.mode; vp = d.vp }) (no_none (get_elem? s.fdtab i))
          s.fdtab;
    refs = ref_vnode d.vp s.refs;
  },
)

-- The source tests the variable `new` before anything is written to it; `new_null` says whether it
-- happens to be NULL. The outer `none` is a fault: `old` is NULL and its fields are read.
unfoldable pub fd_dup : Bool → Files → ℤ → Option (Option ℕ × Files)
fd_dup true s fd = some (none, s)
fd_dup false s fd = copy_fd (fd_get s.fdtab fd) (fd_alloc s)

-- `vop_reclaim` is the parameter.
module _ {S : Type 0} (vop_reclaim : Option ℕ → S → Ret (Unit {0}) × S) where
  abbrev pub close_fd : Option Filedesc → Files → S → Ret (Unit {0}) × Files × S
  close_fd none s w = (err eio, s, w)
  close_fd (some d) s w =
      let (r, w') = vop_reclaim d.vp w in
      (r, record s { fdtab = set s.fdtab d.fdno none; heap = kfree (some d.self) s.heap }, w')

  unfoldable pub fd_close : ℤ → Files → S → Ret (Unit {0}) × Files × S
  fd_close (negsuc n) s w = (err ebadf, s, w)
  fd_close (pos n) s w = close_fd (fd_get s.fdtab (pos n)) s w

abbrev first_slot : FdTab → Option Filedesc
first_slot t = no_none (get_elem? t 0)

-- A call of `fd_dup` whose result is not looked at.
abbrev pub dup_ignored : Bool → ℤ → Option Files → Option Files
dup_ignored nul fd none = none
dup_ignored nul fd (some s) = elim (fd_dup nul s fd) [ none ↦ none | some (r, s') ↦ some s' ]

-- `fd->mode = O_RDWR`, a fault where `fd_alloc` failed and did not write `fd`.
abbrev pub open_stdin : Ret ℕ × Files → Option Files
open_stdin (err e, s) = none
open_stdin (ok i, s) = some (record s {
  fdtab = set_slot i (λ d. record d { mode = o_rdwr }) (no_none (get_elem? s.fdtab i)) s.fdtab;
})

abbrev pub init_streams : Bool → Bool → Files → Option (Ret (Unit {0}) × Files)
init_streams nul nul' s =
    elim (dup_ignored nul' (pos 0) (dup_ignored nul (pos 0) (open_stdin (fd_alloc s)))) [
      | none ↦ none
      | some s' ↦ some (ok tt, s')
    ]

-- `nul` and `nul'` are the values of the test of the unwritten variable in the two calls of `fd_dup`.
unfoldable pub fdtab_init : Bool → Bool → Files → Option (Ret (Unit {0}) × Files)
fdtab_init nul nul' s = elim (first_slot s.fdtab) [
  | some d ↦ some (err fail, s)
  | none ↦ init_streams nul nul' s
]
