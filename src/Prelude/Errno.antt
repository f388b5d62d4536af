-- ===== src/Prelude/Errno.antt =====
-- src/sys/include/sys/errno.h: the error results of the kernel's functions. A function that
-- returns a negative `int` on error returns a `Ret` here.

use mathlib.Core.Bool.{Bool, true, false}

-- `page_fault` is no number: the kernel reads through NULL there, and nothing runs behind it. `fail` is a
-- plain -1, and `lex_eof` is LEX_EOF of src/sys/include/np/lex.h.
pub data Errno : Type 0 where
  fail lex_eof einval eio enomem enoent emfile ebadf eperm esrch enotsup eagain eacces : Errno
  enametoolong eexist epipe efault enoexec enxio page_fault : Errno

pub data Ret {ℓ} (A : Type ℓ) : Type ℓ where
  ok : A → Ret A
  err : Errno → Ret A

abbrev pub is_fault : Errno → Bool
is_fault page_fault = true
is_fault _ = false

abbrev pub faults {ℓ} : {A : Type ℓ} → Ret A → Bool
faults (ok a) = false
faults (err e) = is_fault e
