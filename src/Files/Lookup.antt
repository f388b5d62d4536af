-- ===== src/Files/Lookup.antt =====
-- Proofs on `fd_get` and `fd_close` of src/sys/os/os_filedes.c.
use l5lunos.Prelude.{
  ℕ, zero, suc, ◌+◌, ◌<◌, ◌≡◌, refl, ◌∙◌, inl, inr, Bool-cases, Option, none, some, [], ◌∷◌, ◌==◌,
  ==_iff, ==-refl, if◌then◌else◌, arith, get_elem?, set, length, length-set, get_elem?-set_self,
  get_elem?-set_ne,
}
use l5lunos.Prelude.Errno.{Ret}
use l5lunos.Prelude.Int8.{ℤ, pos, negsuc}
use l5lunos.Files.Filedes.{Filedesc, FdTab, Files, scan_fds, fd_get, no_none, fd_close}
use l5lunos.Files.Table.{IsNumbered, IsValid, IsNumbered-clear}

-- The descriptor in the slot of that number.
unfoldable pub at_slot : FdTab → ℤ → Option Filedesc
at_slot t (pos n) = no_none (get_elem? t n)
at_slot t (negsuc n) = none

-- The last slot, or `o` in a table with no slot.
unfoldable pub last_slot : Option Filedesc → FdTab → Option Filedesc
last_slot o [] = o
last_slot o (x ∷ t) = last_slot x t

abbrev pub or_else : Option Filedesc → Option Filedesc → Option Filedesc
or_else none o = o
or_else (some d) o = some d

scan_fds-above :
    (k n : ℕ) (o : Option Filedesc) (t : FdTab)
    → IsNumbered k t
    → n < k
    → scan_fds (pos n) o t ≡ last_slot o t
unfolding scan_fds last_slot
scan_fds-above k n o [] v h = refl
scan_fds-above k n o (none ∷ t) v h = scan_fds-above (suc k) n none t v (omega arith)
scan_fds-above k n o (some d ∷ t) v h = ground (arith, v.0, scan_fds-above (suc k) n (some d) t v.1)

scan_fds-negsuc :
    (n : ℕ) (o : Option Filedesc) (t : FdTab) → scan_fds (negsuc n) o t ≡ last_slot o t
unfolding scan_fds last_slot
scan_fds-negsuc n o [] = refl
scan_fds-negsuc n o (none ∷ t) = scan_fds-negsuc n none t
scan_fds-negsuc n o (some d ∷ t) = scan_fds-negsuc n (some d) t

scan_fds-at :
    (k j n : ℕ) (o : Option Filedesc) (t : FdTab)
    → IsNumbered k t
    → n ≡ k + j
    → scan_fds (pos n) o t ≡ or_else (no_none (get_elem? t j)) (last_slot o t)
unfolding scan_fds last_slot
scan_fds-at k j n o [] v e = refl
scan_fds-at k zero n o (none ∷ t) v e = scan_fds-above (suc k) n none t v (omega arith)
scan_fds-at k zero n o (some d ∷ t) v e = ground (arith, v.0)
scan_fds-at k (suc j) n o (none ∷ t) v e = scan_fds-at (suc k) j n none t v (omega arith)
scan_fds-at k (suc j) n o (some d ∷ t) v e =
    ground (arith, v.0, scan_fds-at (suc k) j n (some d) t v.1)

-- In a well formed table `fd_get` returns the descriptor of that number where there is one, and
-- otherwise whatever the last slot holds: NULL only where that slot is free.
pub fd_get_lem :
    (t : FdTab) (fd : ℤ) → IsValid t → fd_get t fd ≡ or_else (at_slot t fd) (last_slot none t)
unfolding fd_get at_slot
fd_get_lem t (pos n) v = scan_fds-at 0 n n none t v.numbered (omega arith)
fd_get_lem t (negsuc n) v = scan_fds-negsuc n none t

pub fdno-at :
    (k j : ℕ) (t : FdTab) (d : Filedesc)
    → IsNumbered k t
    → no_none (get_elem? t j) ≡ some d
    → d.fdno ≡ k + j
fdno-at k j [] d v h = cc
fdno-at k zero (none ∷ t) d v h = cc
fdno-at k zero (some x ∷ t) d v h = ground (arith, v.0)
fdno-at k (suc j) (none ∷ t) d v h = omega (arith, fdno-at (suc k) j t d v h)
fdno-at k (suc j) (some x ∷ t) d v h = omega (arith, fdno-at (suc k) j t d v.1 h)

pub lt_length_of_slot :
    (t : FdTab) (n : ℕ) (d : Filedesc) → no_none (get_elem? t n) ≡ some d → n < length t
lt_length_of_slot [] n d h = cc
lt_length_of_slot (x ∷ t) zero d h = omega arith
lt_length_of_slot (x ∷ t) (suc n) d h = omega (arith, lt_length_of_slot t n d h)

cleared :
    (t : FdTab) (n : ℕ)
    → n < length t
    → (j : ℕ) → get_elem? (set t n none) j ≡ (if n == j then some none else get_elem? t j)
cleared t n h j = elim (Bool-cases (n == j)) [
  | inl e ↦ rw (← (==_iff n j).0 e, ==-refl n) (get_elem?-set_self t n none h)
  | inr e ↦ rw e (get_elem?-set_ne t n j none (λ k. ground arith))
]

module _ {S : Type 0} (vop_reclaim : Option ℕ → S → Ret (Unit {0}) × S) where
  -- In a well formed table, closing a descriptor that its slot holds frees that slot and changes no
  -- other, keeps the table well formed, and returns what the vnode's own operation returns.
  pub fd_close-open :
      (n : ℕ) (s : Files) (w : S) (d : Filedesc)
      → IsValid s.fdtab
      → at_slot s.fdtab (pos n) ≡ some d
      → let (r, s', w') = fd_close vop_reclaim (pos n) s w in
        (r ≡ (vop_reclaim d.vp w).0)
        × (w' ≡ (vop_reclaim d.vp w).1)
        × IsValid s'.fdtab
        × ((j : ℕ) → get_elem? s'.fdtab j ≡ (if n == j then some none else get_elem? s.fdtab j))
  unfolding fd_close at_slot
  fd_close-open n s w d v h =
      let got : fd_get s.fdtab (pos n) ≡ some d =
        fd_get_lem s.fdtab (pos n) v ∙ unfold at_slot in rw h in
      let number : d.fdno ≡ n = omega (arith, fdno-at 0 n s.fdtab d v.numbered h) in
      simp (got, number)
        (
          refl,
          refl,
          record {
            size = length-set s.fdtab n none ∙ v.size;
            numbered = IsNumbered-clear 0 n s.fdtab v.numbered;
          },
          cleared s.fdtab n (lt_length_of_slot s.fdtab n d h),
        )
