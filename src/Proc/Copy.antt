-- ===== src/Proc/Copy.antt =====
-- Copies between the kernel and the memory of the current process, src/sys/os/os_systm.c, and
-- `proc_check_addr` of src/sys/os/os_proc.c. The memory is a function from addresses to bytes. The kernel's
-- side is a buffer that is there; 0 is NULL for the user's. `proc_check_addr` compares with a
-- variable that it never writes: `stack_end` gives what that holds when an address is checked.
pub mod Text
use l5lunos.Prelude.{
  ℕ, zero, suc, ◌+◌, ◌-◌, ◌%◌, ◌^◌, Bool, ◌&&◌, ◌||◌, [], ◌∷◌, leb, ltb, ◌==◌, if◌then◌else◌, Bytes,
  length, take, min,
}
use l5lunos.Prelude.Errno.{Ret, ok, err, einval, eio, efault}

abbrev pub Memory : Type 0
Memory = ℕ → ℕ

-- STACK_TOP and STACK_LEN
abbrev pub stack_top : ℕ
stack_top = 0xBFFFFFFF

abbrev pub stack_len : ℕ
stack_len = 4096

-- The addresses that the first test of `proc_check_addr` accepts.
abbrev pub in_stack : ℕ → Bool
in_stack addr = leb (stack_top - stack_len) addr && leb addr stack_top

unfoldable pub proc_check_addr : ℕ → ℕ → ℕ → Ret (Unit {0})
proc_check_addr stack_end addr len =
    if in_stack addr
    then ok tt
    else if ltb ((stack_top - stack_len + len) % 2 ^ 64) stack_end
    then ok tt
    else err efault

-- `memcpy` from the memory.
unfoldable pub read_bytes : Memory → ℕ → ℕ → Bytes
read_bytes u addr zero = []
read_bytes u addr (suc n) = u addr ∷ read_bytes u ((addr + 1) % 2 ^ 64) n

-- `memcpy` to the memory.
unfoldable pub write_bytes : Bytes → ℕ → Memory → Memory
write_bytes [] addr u = u
write_bytes (c ∷ s) addr u = write_bytes s ((addr + 1) % 2 ^ 64) (λ a. if a == addr then c else u a)

abbrev pub copied_in : Bytes → Ret (Unit {0}) → Ret Bytes
copied_in s (err e) = err e
copied_in s (ok z) = ok s

abbrev pub copied_out : Memory → Memory → Ret (Unit {0}) → Ret (Unit {0}) × Memory
copied_out u u' (err e) = (err e, u)
copied_out u u' (ok z) = (ok tt, u')

-- -EFAULT where a character cannot be copied.
abbrev pub when_copied : Ret (Unit {0}) × Bytes → Ret Bytes → Ret (Unit {0}) × Bytes
when_copied rest (err e) = (err efault, [])
when_copied rest (ok s) = rest

abbrev pub keep_char : ℕ → Ret (Unit {0}) × Bytes → Ret (Unit {0}) × Bytes
keep_char c (r, dest) = (r, c ∷ dest)

module _ (stack_end : ℕ → ℕ) (has_self : Bool) where
  -- The tests that `copyin` and `copyout` begin with.
  unfoldable pub copy_checked : ℕ → ℕ → Ret (Unit {0})
  copy_checked uaddr len =
      if uaddr == 0 || len == 0
      then err einval
      else if has_self
      then proc_check_addr (stack_end uaddr) uaddr len
      else err eio

  -- The bytes that are written to `kaddr`.
  unfoldable pub copyin : Memory → ℕ → ℕ → Ret Bytes
  copyin u uaddr len = copied_in (read_bytes u uaddr len) (copy_checked uaddr len)

  -- `len` is at most the length of `kaddr`.
  unfoldable pub copyout : Bytes → ℕ → ℕ → Memory → Ret (Unit {0}) × Memory
  copyout kaddr uaddr len u =
      copied_out u (write_bytes (take len kaddr) uaddr u) (copy_checked uaddr len)

  -- The loop of `copyinstr` from address `addr` on, with room for `n` characters; the bytes that it
  -- writes, a NUL among them.
  unfoldable pub copy_chars : Memory → ℕ → ℕ → Ret (Unit {0}) × Bytes
  copy_chars u addr zero = (ok tt, [])
  copy_chars u addr (suc n) =
      let rest = keep_char (u addr) (copy_chars u ((addr + 1) % 2 ^ 64) n) in
      when_copied (if u addr == 0 then (ok tt, 0 ∷ []) else rest) (copyin u addr 1)

  unfoldable pub copyinstr : Memory → ℕ → ℕ → Ret (Unit {0}) × Bytes
  copyinstr u uaddr len = when_copied (copy_chars u uaddr len) (copyin u uaddr 1)

  -- The string without its NUL is what `strlen` counts.
  unfoldable pub copyoutstr : Bytes → ℕ → ℕ → Memory → Ret (Unit {0}) × Memory
  copyoutstr text addr len u = copyout text addr (min (length text) len) u
