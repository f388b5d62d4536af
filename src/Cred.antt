-- ===== src/Cred.antt =====
-- The credentials of a process: src/sys/os/os_ucred.c.
use l5lunos.Prelude.{ℕ, Bool, true, false, ◌||◌, Option, none, some, ◌==◌, if◌then◌else◌}
use l5lunos.Prelude.Errno.{Ret, ok, err, einval, eperm, esrch}
pub mod Confined

-- `struct ucred`
pub record Ucred : Type 0 where
  pub ruid : ℕ
  pub euid : ℕ
  pub suid : ℕ

-- The credentials with the real user of a process, or of root, in all places.
abbrev pub real_user : Option Ucred → ℕ
real_user none = 0
real_user (some c) = c.ruid

-- `ucred_init`: `proc` is the credentials of the process, or `none` for NULL; whether `cred` is there
-- is an argument. The result is what is written to `cred`.
unfoldable pub ucred_init : Option Ucred → Bool → Ret Ucred
ucred_init proc false = err einval
ucred_init proc true =
    ok (record { ruid = real_user proc; euid = real_user proc; suid = real_user proc })

abbrev pub may_set : ℕ → Ucred → Bool
may_set euid c = (euid == c.euid) || (euid == c.ruid) || (euid == c.suid) || (c.euid == 0)

abbrev pub set_checked : ℕ → Ucred → Ret ℕ × Ucred
set_checked euid c = if may_set euid c then (ok 0, record c { euid = euid }) else (err eperm, c)

abbrev pub own : Ret ℕ × Ucred → Ret ℕ × Option Ucred
own (r, c) = (r, some c)

-- `seteuid`, by a process with these credentials, or by none.
unfoldable pub seteuid : ℕ → Option Ucred → Ret ℕ × Option Ucred
seteuid euid none = (err esrch, none)
seteuid euid (some c) = own (set_checked euid c)
