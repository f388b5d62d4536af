-- ===== src/Proc/Copy/Text.antt =====
-- Proofs on the copies of src/sys/os/os_systm.c.
use mathlib.Core.Path.{ap₂}
use l5lunos.Prelude.{
  ℕ, zero, suc, ◌+◌, ◌%◌, ◌^◌, ◌≤◌, ◌<◌, ◌≡◌, ◌≢◌, refl, sym, ap, ◌∙◌, true, false, ◌||◌, [], ◌∷◌,
  ◌++◌, arith, ◌==◌, if◌then◌else◌, Bytes, length, take,
}
use l5lunos.Prelude.Errno.{ok}
use l5lunos.Proc.Copy.{
  Memory, in_stack, proc_check_addr, read_bytes, write_bytes, copy_checked, copyin, copyout,
  copy_chars, copyinstr,
}

-- A text and its NUL lie in the memory, on addresses of the stack.
abbrev pub HoldsText : Memory → ℕ → Bytes → Type 0
HoldsText u addr [] = (in_stack addr ≡ true) × (u addr ≡ 0)
HoldsText u addr (c ∷ s) =
    (in_stack addr ≡ true) × (u addr ≡ c) × (c ≢ 0) × HoldsText u (addr + 1) s

take_nil : (n : ℕ) → take {A = ℕ} n [] ≡ []
take_nil zero = refl
take_nil (suc n) = refl

take-length : (s : Bytes) → take (length s) s ≡ s
take-length [] = refl
take-length (c ∷ s) = ap (λ l. c ∷ l) (take-length s)

module _ (stack_end : ℕ → ℕ) where
  -- An address of the stack is accepted, whatever the variable holds.
  copy_checked_lem :
      (addr len : ℕ) → in_stack addr ≡ true → 0 < len → copy_checked stack_end true addr len ≡ ok tt
  unfolding proc_check_addr copy_checked
  copy_checked_lem addr len h l =
      let there : (addr == 0 || len == 0) ≡ false = ground (arith, h, l) in rw (there, h) refl

  copyin_lem :
      (u : Memory) (addr len : ℕ)
      → in_stack addr ≡ true
      → 0 < len
      → copyin stack_end true u addr len ≡ ok (read_bytes u addr len)
  unfolding copyin
  copyin_lem u addr len h l = rw (copy_checked_lem addr len h l) refl

  HoldsText-in_stack :
      (u : Memory) (addr : ℕ) (s : Bytes) → HoldsText u addr s → in_stack addr ≡ true
  HoldsText-in_stack u addr [] h = h.0
  HoldsText-in_stack u addr (c ∷ s) h = h.0

  next_addr : (addr : ℕ) → in_stack addr ≡ true → (addr + 1) % 2 ^ 64 ≡ addr + 1
  next_addr addr h = ground (arith, h)

  copy_chars_lem :
      (u : Memory) (s : Bytes) (addr n : ℕ)
      → HoldsText u addr s
      → copy_chars stack_end true u addr n ≡ (ok tt, take n (s ++ 0 ∷ []))
  unfolding copy_chars
  copy_chars_lem u s addr zero h = refl
  copy_chars_lem u [] addr (suc n) (i, z) =
      rw (copyin_lem u addr 1 i (omega arith), z)
        (ap (λ (l : Bytes). (ok tt, 0 ∷ l)) (sym (take_nil n)))
  copy_chars_lem u (c ∷ s) addr (suc n) (i, e, n0, h) =
      let not_nul : (c == 0) ≡ false = ground (arith, n0) in
      rw
        (
          copyin_lem u addr 1 i (omega arith),
          e,
          not_nul,
          next_addr addr i,
          copy_chars_lem u s (addr + 1) n h,
        )
        refl

  -- Where a process runs, and a text and its NUL lie in the stack, copyinstr succeeds and writes the
  -- text and the NUL, as many bytes of them as there is room for.
  pub copyinstr-HoldsText :
      (u : Memory) (s : Bytes) (addr len : ℕ)
      → HoldsText u addr s
      → copyinstr stack_end true u addr len ≡ (ok tt, take len (s ++ 0 ∷ []))
  unfolding copyinstr
  copyinstr-HoldsText u s addr len h =
      rw (copyin_lem u addr 1 (HoldsText-in_stack u addr s h) (omega arith))
        (copy_chars_lem u s addr len h)

  write_bytes-before :
      (s : Bytes) (addr a : ℕ) (u : Memory)
      → a < addr
      → addr + length s ≤ 2 ^ 64
      → write_bytes s addr u a ≡ u a
  unfolding write_bytes
  write_bytes-before [] addr a u h l = refl
  write_bytes-before (c ∷ []) addr a u h l = ground (arith, h)
  write_bytes-before (c ∷ d ∷ s) addr a u h l =
      let next : (addr + 1) % 2 ^ 64 ≡ addr + 1 = omega (arith, l) in
      let ne : (a == addr) ≡ false = ground (arith, h) in
      rw next (
        write_bytes-before (d ∷ s) (addr + 1) a _ (omega (arith, h)) (omega (arith, l))
        ∙ rw ne refl)

  write_bytes-cons :
      (c : ℕ) (s : Bytes) (addr : ℕ) (u : Memory)
      → addr + 1 < 2 ^ 64
      → write_bytes (c ∷ s) addr u ≡ write_bytes s (addr + 1) (λ a. if a == addr then c else u a)
  unfolding write_bytes
  write_bytes-cons c s addr u l =
      ap (λ k. write_bytes s k (λ a. if a == addr then c else u a)) (omega (arith, l))

  read_bytes-cons :
      (u : Memory) (addr n : ℕ)
      → addr + 1 < 2 ^ 64
      → read_bytes u addr (suc n) ≡ u addr ∷ read_bytes u (addr + 1) n
  unfolding read_bytes
  read_bytes-cons u addr n l = ap (λ k. u addr ∷ read_bytes u k n) (omega (arith, l))

  read_bytes-write_bytes :
      (s : Bytes) (addr : ℕ) (u : Memory)
      → addr + length s < 2 ^ 64
      → read_bytes (write_bytes s addr u) addr (length s) ≡ s
  unfolding read_bytes
  read_bytes-write_bytes [] addr u l = refl
  read_bytes-write_bytes (c ∷ s) addr u l =
      let u' : Memory = λ a. if a == addr then c else u a in
      let fits : addr + 1 < 2 ^ 64 = omega (arith, l) in
      let w = write_bytes-cons c s addr u fits in
      let here : (addr == addr) ≡ true = ground arith in
      read_bytes-cons (write_bytes (c ∷ s) addr u) addr (length s) fits
      ∙ ap₂ ◌∷◌
          (ap (λ m. m addr) w
            ∙ write_bytes-before s (addr + 1) addr u' (omega arith) (omega (arith, l))
            ∙ rw here refl)
          (ap (λ m. read_bytes m (addr + 1) (length s)) w
            ∙ read_bytes-write_bytes s (addr + 1) u' (omega (arith, l)))

  -- Where a process runs, bytes that copyout copies to an address of the stack are read again by copyin.
  pub copyin-copyout :
      (u : Memory) (s : Bytes) (addr : ℕ)
      → in_stack addr ≡ true
      → 0 < length s
      → addr + length s < 2 ^ 64
      → (copyout stack_end true s addr (length s) u ≡ (ok tt, write_bytes s addr u))
        × (copyin stack_end true (write_bytes s addr u) addr (length s) ≡ ok s)
  unfolding copyout
  copyin-copyout u s addr h l b = (
    rw (copy_checked_lem addr (length s) h l, take-length s) refl,
    copyin_lem (write_bytes s addr u) addr (length s) h l
        ∙ ap ok (read_bytes-write_bytes s addr u b),
  )
