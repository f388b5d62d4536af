-- ===== src/Files/Io/Open.antt =====
-- Proofs on `fd_open` of src/sys/os/os_filedes.c.
use l5lunos.Prelude.{
  ℕ, zero, suc, ◌<◌, ◌≡◌, refl, ap, ◌∙◌, Option, none, some, [], ◌∷◌, arith, get_elem?, set,
  length-set, Bytes,
}
use l5lunos.Prelude.Errno.{Errno, Ret, ok, err}
use l5lunos.Files.Filedes.{Filedesc, FdTab, Files, fresh_fd, fd_alloc}
use l5lunos.Files.Table.{
  IsValid, IsNumbered-set, Taken, Allocates, full, no_memory, slot, fd_alloc-Allocates,
}
use l5lunos.Files.Io.{open_slot, open_with, namei_flags, fd_open}

pub set-set : (t : FdTab) (i : ℕ) (x y : Option Filedesc) → set (set t i x) i y ≡ set t i y
set-set [] i x y = refl
set-set (z ∷ t) zero x y = refl
set-set (z ∷ t) (suc i) x y = ap (λ l. z ∷ l) (set-set t i x y)

pub get_elem?-set_slot :
    (t : FdTab) (i : ℕ) (x y : Option Filedesc)
    → get_elem? t i ≡ some x
    → get_elem? (set t i y) i ≡ some y
get_elem?-set_slot [] i x y h = cc
get_elem?-set_slot (z ∷ t) zero x y h = refl
get_elem?-set_slot (z ∷ t) (suc i) x y h = get_elem?-set_slot t i x y h

-- The descriptor of a file that was opened, at address `p` in slot `i`.
abbrev pub opened_fd : ℕ → ℕ → ℕ → ℕ → Filedesc
opened_fd p i vp mode = record (fresh_fd p i) { vp = some vp; mode = mode }

-- What an open does, where the lookup of the path gives `found`. No slot is taken, as `fd_alloc` fails;
-- or the lookup fails, and a fresh descriptor stays in the lowest free slot; or the slot holds the file
-- with the vnode that was found.
pub data Opens (found : Ret ℕ) (s : Files) (mode : ℕ) : Ret ℕ × Files → Type 0 where
  not_taken :
      (e : Errno) {s' : Files}
      → s'.fdtab ≡ s.fdtab
      → fd_alloc s ≡ (err e, s')
      → Opens found s mode (err e, s')
  left_behind :
      (e : Errno) (i p : ℕ) {s' : Files}
      → get_elem? s.fdtab i ≡ some none
      → ((n : ℕ) → n < i → Taken s.fdtab n)
      → s'.fdtab ≡ set s.fdtab i (some (fresh_fd p i))
      → IsValid s'.fdtab
      → found ≡ err e
      → Opens found s mode (err e, s')
  opened :
      (i p vp : ℕ) {s' : Files}
      → get_elem? s.fdtab i ≡ some none
      → ((n : ℕ) → n < i → Taken s.fdtab n)
      → s'.fdtab ≡ set s.fdtab i (some (opened_fd p i vp mode))
      → IsValid s'.fdtab
      → found ≡ ok vp
      → Opens found s mode (ok i, s')

open_slot-Opens :
    (s s' : Files) (mode i p : ℕ) (r : Ret ℕ)
    → IsValid s.fdtab
    → get_elem? s.fdtab i ≡ some none
    → ((n : ℕ) → n < i → Taken s.fdtab n)
    → s'.fdtab ≡ set s.fdtab i (some (fresh_fd p i))
    → IsValid s'.fdtab
    → Opens r s mode (open_slot i mode r s')
open_slot-Opens s s' mode i p (err e) v f g k v' = left_behind e i p f g k v' refl
open_slot-Opens s s' mode i p (ok vp) v f g k v' =
    let d = opened_fd p i vp mode in
    let same : (open_slot i mode (ok vp) s').1.fdtab ≡ set s.fdtab i (some d) =
      rw (k, get_elem?-set_slot s.fdtab i none (some (fresh_fd p i)) f)
        (set-set s.fdtab i (some (fresh_fd p i)) (some d)) in
    let new : IsValid (set s.fdtab i (some d)) = record {
      size = length-set s.fdtab i (some d) ∙ v.size;
      numbered = IsNumbered-set 0 i s.fdtab d (omega arith) v.numbered;
    } in
    opened i p vp f g same (rw same new) refl

module _ {S : Type 0} (namei : Bytes → ℕ → S → Ret ℕ × S) where
  open_with-Opens :
      (path : Bytes) (mode : ℕ) (s : Files) (w : S) {r : Ret ℕ × Files}
      → IsValid s.fdtab
      → fd_alloc s ≡ r
      → Allocates s r
      → let (r', s', w') = open_with namei path mode r w in
        Opens (namei path (namei_flags mode) w).0 s mode (r', s')
  open_with-Opens path mode s w v e (full k) = not_taken _ refl e
  open_with-Opens path mode s w v e (no_memory k q) = not_taken _ k e
  open_with-Opens path mode s w v e (slot i p {s'} f g k v' q) =
      open_slot-Opens s s' mode i p (namei path (namei_flags mode) w).0 v f g k v'

  -- In a well formed table, an open of a path takes no slot and gives fd_alloc's error where that
  -- fails; where the lookup of the path fails it gives that error and leaves an unused descriptor in
  -- the lowest free slot; otherwise the lowest free slot holds the open file, with the vnode that
  -- the lookup gives. In the last two cases the table stays well formed.
  pub fd_open-Opens :
      (path : Bytes) (mode : ℕ) (s : Files) (w : S)
      → IsValid s.fdtab
      → let (r, s', w') = fd_open namei (some path) mode s w in
        Opens (namei path (namei_flags mode) w).0 s mode (r, s')
  unfolding fd_open
  fd_open-Opens path mode s w v = open_with-Opens path mode s w v refl (fd_alloc-Allocates s v)
