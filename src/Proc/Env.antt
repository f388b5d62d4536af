-- ===== src/Proc/Env.antt =====
-- The environment block of a process: `penv_blk_cpy` and `sys_spawn` of src/sys/os/os_proc.c. The process
-- that runs is given its pointer box; the block goes to the process that is spawned.
use l5lunos.Prelude.{
  ℕ, zero, suc, ◌+◌, ◌*◌, ◌%◌, ◌^◌, Bool, true, false, Option, none, some, List, [], ◌∷◌, ltb, ◌==◌,
  if◌then◌else◌, Bytes, get_or, take,
}
use l5lunos.Prelude.Errno.{Ret, ok, err}
use l5lunos.Mem.Kalloc.{Heap, kalloc, kfree}
use l5lunos.Mem.Ptrbox.{
  Ptrbox, Mem, CStr, ptrbox_init, ptrbox_alloc, ptrbox_strdup, ptrbox_terminate,
}
use l5lunos.Vm.Frames.{Outcome, done, fault}
use l5lunos.Vm.Mmu.{on_done}
use l5lunos.Proc.Copy.{Memory, proc_check_addr, copyin, copyinstr, read_bytes}
use l5lunos.Proc.State.{Penv, Procs, change_proc}
use l5lunos.Proc.Life.{Platform}
use l5lunos.Proc.Spawn.{proc_spawn}

-- NARG_MAX, ARG_LEN, PATH_MAX, and sizeof(struct penv_blk) on amd64
abbrev pub narg_max : ℕ
narg_max = 16

abbrev pub arg_len : ℕ
arg_len = 64

abbrev pub path_max : ℕ
path_max = 1024

abbrev pub sizeof_penv : ℕ
sizeof_penv = 16

-- A number of the memory, with its low byte first.
unfoldable pub number_of : Bytes → ℕ
number_of [] = 0
number_of (c ∷ s) = c + 256 * number_of s

-- The text of a buffer; `none` where it holds no NUL.
unfoldable pub text_before_nul : Bytes → Option Bytes
text_before_nul [] = none
text_before_nul (c ∷ s) =
    let rest = elim (text_before_nul s) as (λ x. Option Bytes) [
      | none ↦ none
      | some t ↦ some (c ∷ t)
    ] in
    if c == 0 then some [] else rest

abbrev pub text_of_str : Option CStr → Option Bytes
text_of_str none = none
text_of_str (some c) = some c.text

-- What the loop over the arguments leaves: whether it met an error, the copies, and the heap with the box.
abbrev pub Dupped : Type 0
Dupped = Bool × List (Option Bytes) × Mem

abbrev pub one_more : Option Bytes → Dupped → Outcome Dupped
one_more a (e, args, m) = done (e, a ∷ args, m)

-- `ptrbox_strdup` of the buffer, which reads past it where no NUL was copied.
abbrev pub dup_arg : (Mem → Outcome Dupped) → Mem → Ret (Unit {0}) × Bytes → Outcome Dupped
dup_arg rest m (err e, buf) = done (true, [], m)
dup_arg rest m (ok z, buf) = elim (text_before_nul buf) [
  | none ↦ fault
  | some t ↦ let (r, m') = ptrbox_strdup (some t) m in on_done (rest m') (one_more (text_of_str r))
]

abbrev pub checked_arg : Outcome Dupped → Mem → Ret (Unit {0}) → Outcome Dupped
checked_arg copied m (err e) = done (true, [], m)
checked_arg copied m (ok z) = copied

-- The loop over `n` arguments; the next pointer is read at `p`.
unfoldable pub dup_args : (ℕ → ℕ) → Memory → ℕ → ℕ → Mem → Outcome Dupped
dup_args stack_end u zero p m = done (false, [], m)
dup_args stack_end u (suc n) p m =
    checked_arg
      (dup_arg (dup_args stack_end u n ((p + 8) % 2 ^ 64)) m
        (copyinstr stack_end true u (number_of (read_bytes u p 8)) arg_len))
      m (proc_check_addr (stack_end p) p 8)

-- The block, the box of the process, and the heap.
abbrev pub EnvCopy : Type 0
EnvCopy = Option Penv × Option Ptrbox × Heap

abbrev pub args_dupped : ℕ → ℕ → Dupped → Outcome EnvCopy
args_dupped blk argv (true, args, m) =
    let m' = ptrbox_terminate m in done (none, some m'.box, kfree (some blk) m'.heap)
args_dupped blk argv (false, args, m) =
    done (some (record { self = blk; argv = argv; args = args }), some m.box, m.heap)

abbrev pub with_argv : (ℕ → ℕ) → Memory → ℕ → ℕ → ℕ → Option ℕ × Mem → Outcome EnvCopy
with_argv stack_end u blk u_argv argc (none, m) = done (none, some m.box, kfree (some blk) m.heap)
with_argv stack_end u blk u_argv argc (some argv, m) =
    on_done (dup_args stack_end u argc u_argv m) (args_dupped blk argv)

-- Where there is no memory for the box, the block stays allocated.
abbrev pub with_env_box :
    (ℕ → ℕ) → Memory → ℕ → ℕ → ℕ → Option Ptrbox → Option Ptrbox × Heap → Outcome EnvCopy
with_env_box stack_end u blk u_argv argc old (none, h) = done (none, old, h)
with_env_box stack_end u blk u_argv argc old (some b, h) =
    with_argv stack_end u blk u_argv argc (ptrbox_alloc (8 * argc) (record { heap = h; box = b }))

-- The pointer `argv` and the count `argc` of the user's block.
abbrev pub copied_blk : (ℕ → ℕ) → Memory → ℕ → Option Ptrbox → Heap → Ret Bytes → Outcome EnvCopy
copied_blk stack_end u blk old h (err e) = done (none, old, kfree (some blk) h)
copied_blk stack_end u blk old h (ok bytes) =
    let argc = get_or bytes 8 0 + 256 * get_or bytes 9 0 in
    if ltb narg_max argc
    then done (none, old, kfree (some blk) h)
    else with_env_box stack_end u blk (number_of (take 8 bytes)) argc old (ptrbox_init h)

abbrev pub with_blk : (ℕ → ℕ) → Memory → ℕ → Option Ptrbox → Option ℕ × Heap → Outcome EnvCopy
with_blk stack_end u u_blk old (none, h) = done (none, old, h)
with_blk stack_end u u_blk old (some blk, h) =
    copied_blk stack_end u blk old h (copyin stack_end true u u_blk sizeof_penv)

-- `penv_blk_cpy`, by a process whose box was `old`; 0 is NULL.
unfoldable pub penv_blk_cpy : (ℕ → ℕ) → Memory → ℕ → Option Ptrbox → Heap → Outcome EnvCopy
penv_blk_cpy stack_end u u_blk old h =
    let copied = with_blk stack_end u u_blk old (kalloc sizeof_penv h) in
    if u_blk == 0 then done (none, old, h) else copied

abbrev pub box_at : ℕ → Procs → Option Ptrbox
box_at a s = elim (s.store a) [ none ↦ none | some p ↦ p.envblk_box ]

abbrev pub spawn_copied : Platform → Bytes → ℕ → Procs → EnvCopy → Outcome (Ret ℕ × Procs)
spawn_copied pf path a s (env, box, h) =
    proc_spawn pf path env
      (change_proc a (λ p. record p { envblk_box = box }) (record s { heap = h }))

abbrev pub spawn_path :
    (ℕ → ℕ) → Platform → Memory → ℕ → ℕ → Procs → Ret (Unit {0}) × Bytes → Outcome (Ret ℕ × Procs)
spawn_path stack_end pf u u_blk a s (err e, buf) = done (err e, s)
spawn_path stack_end pf u u_blk a s (ok z, buf) = elim (text_before_nul buf) [
  | none ↦ fault
  | some path ↦
      on_done (penv_blk_cpy stack_end u u_blk (box_at a s) s.heap) (spawn_copied pf path a s)
]

-- `sys_spawn` by the process at `a`, on its memory `u`.
unfoldable pub sys_spawn : (ℕ → ℕ) → Platform → Memory → ℕ → ℕ → ℕ → Procs → Outcome (Ret ℕ × Procs)
sys_spawn stack_end pf u u_path u_blk a s =
    spawn_path stack_end pf u u_blk a s (copyinstr stack_end true u u_path path_max)
