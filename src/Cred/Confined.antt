-- ===== src/Cred/Confined.antt =====
-- Proofs on `seteuid` of src/sys/os/os_ucred.c.
use l5lunos.Prelude.{ℕ, ◌≡◌, ◌≢◌, ◌⊎◌, refl, inl, inr, Bool-cases, Option, some, arith}
use l5lunos.Cred.{Ucred, may_set, set_checked, own, seteuid}

-- Credentials that calls of `seteuid` lead to, in any order and with any result.
pub data Reaches (c : Ucred) : Option Ucred → Type 0 where
  stays : Reaches c (some c)
  calls : (euid : ℕ) {o : Option Ucred} → Reaches c o → Reaches c (seteuid euid o).1

-- The credentials differ from `c` in the effective user at most, which is one of the users of `c`.
pub data Confined (c : Ucred) : Option Ucred → Type 0 where
  confined :
      {d : Ucred}
      → d.ruid ≡ c.ruid
      → d.suid ≡ c.suid
      → (d.euid ≡ c.euid) ⊎ ((d.euid ≡ c.ruid) ⊎ (d.euid ≡ c.suid))
      → Confined c (some d)

Confined-set_checked :
    (euid : ℕ) (c d : Ucred)
    → c.ruid ≢ 0
    → c.euid ≢ 0
    → c.suid ≢ 0
    → d.ruid ≡ c.ruid
    → d.suid ≡ c.suid
    → (d.euid ≡ c.euid) ⊎ ((d.euid ≡ c.ruid) ⊎ (d.euid ≡ c.suid))
    → Confined c (own (set_checked euid d)).1
Confined-set_checked euid c d r e s p q o = elim (Bool-cases (may_set euid d)) [
  | inl t ↦ rw t (confined p q (ground (arith, t, r, e, s, p, q, o)))
  | inr t ↦ rw t (confined p q o)
]

Confined-seteuid :
    (euid : ℕ) (c : Ucred) {o : Option Ucred}
    → c.ruid ≢ 0
    → c.euid ≢ 0
    → c.suid ≢ 0
    → Confined c o
    → Confined c (seteuid euid o).1
unfolding seteuid
Confined-seteuid euid c r e s (confined {d} p q o) = Confined-set_checked euid c d r e s p q o

-- A process none of whose users is root keeps its real and its saved user through any calls of
-- `seteuid`, and its effective user is always one of the three that it began with, so it never becomes root.
pub seteuid-Confined :
    (c : Ucred) {o : Option Ucred}
    → c.ruid ≢ 0
    → c.euid ≢ 0
    → c.suid ≢ 0
    → Reaches c o
    → Confined c o
seteuid-Confined c r e s stays = confined refl refl (inl refl)
seteuid-Confined c r e s (calls euid h) = Confined-seteuid euid c r e s (seteuid-Confined c r e s h)
