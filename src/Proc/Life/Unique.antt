-- ===== src/Proc/Life/Unique.antt =====
-- Proofs on `proc_init` and `proc_lookup` of src/sys/os/os_proc.c.
use l5lunos.Prelude.{
  ℕ, ◌≡◌, refl, ap, ◌∙◌, inl, inr, Bool-cases, Bool, Option, none, some, List, ◌==◌,
}
use l5lunos.Prelude.Errno.{Ret, ok, err}
use l5lunos.Files.Filedes.{Files}
use l5lunos.Vm.Frames.{Outcome, done, fault, panicked}
use l5lunos.Vm.Mmu.{Mmu, on_done, mmu_new_vas}
use l5lunos.Vm.Map.{Space, vm_map}
use l5lunos.Proc.Ranges.{VmRange}
use l5lunos.Proc.Copy.{stack_len}
use l5lunos.Proc.State.{Process, Procs, changed, change_proc, space_of, put_ranges, put_space}
use l5lunos.Proc.Life.{
  Platform, md_proc_init, map_stack, put_files, with_fdtab, fresh_proc, proc_init, stack_spec,
  stack_prot,
}

-- A predicate on what a call returns, if it does not fault or panic.
abbrev pub Returns : {A : Type 0} → (A → Type 0) → Outcome A → Type 0
Returns P (done x) = P x
Returns P fault = Unit
Returns P panicked = Unit

pub on_done-Returns :
    {A B : Type 0} (P : A → Type 0) (Q : B → Type 0) (o : Outcome A) (k : A → Outcome B)
    → Returns P o
    → ((x : A) → P x → Returns Q (k x))
    → Returns Q (on_done o k)
on_done-Returns P Q (done x) k h f = f x h
on_done-Returns P Q fault k h f = tt
on_done-Returns P Q panicked k h f = tt

pub on_done-Returns_all :
    {A B : Type 0} (Q : B → Type 0) (o : Outcome A) (k : A → Outcome B)
    → ((x : A) → Returns Q (k x))
    → Returns Q (on_done o k)
on_done-Returns_all Q (done x) k f = f x
on_done-Returns_all Q fault k f = tt
on_done-Returns_all Q panicked k f = tt

abbrev pub pid_of : Option Process → Option ℕ
pid_of none = none
pid_of (some p) = some p.pid

-- The processes, their numbers and the queue of all are as before.
pub record KeepsPids (s s' : Procs) : Type 0 where
  pub pids : (b : ℕ) → pid_of (s'.store b) ≡ pid_of (s.store b)
  pub queue : s'.procq ≡ s.procq
  pub next : s'.next_pid ≡ s.next_pid
  pub init : s'.is_procq_init ≡ s.is_procq_init

-- The same of the state in a result.
abbrev pub Kept : {A : Type 0} → Procs → A × Procs → Type 0
Kept s (r, s') = KeepsPids s s'

pub KeepsPids-then : (s s1 s2 : Procs) → KeepsPids s s1 → KeepsPids s1 s2 → KeepsPids s s2
KeepsPids-then s s1 s2 a b = record {
  pids = λ c. b.pids c ∙ a.pids c;
  queue = b.queue ∙ a.queue;
  next = b.next ∙ a.next;
  init = b.init ∙ a.init;
}

pid_of-changed :
    (f : Process → Process) (o : Option Process)
    → ((p : Process) → (f p).pid ≡ p.pid)
    → pid_of (changed f o) ≡ pid_of o
pid_of-changed f none h = refl
pid_of-changed f (some p) h = ap some (h p)

pub change_proc-KeepsPids :
    (a : ℕ) (f : Process → Process) (s : Procs)
    → ((p : Process) → (f p).pid ≡ p.pid)
    → KeepsPids s (change_proc a f s)
unfolding change_proc
change_proc-KeepsPids a f s h = record {
  pids = λ b. elim (Bool-cases (b == a)) [
    | inl e ↦ rw e (pid_of-changed f (s.store b) h)
    | inr e ↦ rw e refl
  ];
  queue = refl;
  next = refl;
  init = refl;
}

put_ranges-KeepsPids :
    (a : Option ℕ) (r : Option (List VmRange)) (s : Procs) → KeepsPids s (put_ranges a r s)
put_ranges-KeepsPids none r s = record { pids = λ b. refl; queue = refl; next = refl; init = refl }
put_ranges-KeepsPids (some a) none s = record {
  pids = λ b. refl;
  queue = refl;
  next = refl;
  init = refl;
}
put_ranges-KeepsPids (some a) (some r) s =
    change_proc-KeepsPids a (λ p. record p { maplist = r }) s (λ p. refl)

pub put_space-KeepsPids : (sp : Space) (s : Procs) → KeepsPids s (put_space sp s)
unfolding put_space
put_space-KeepsPids sp s =
    let k = put_ranges-KeepsPids s.current sp.self (record s { mmu = sp.mmu; heap = sp.heap }) in
    record { pids = k.pids; queue = k.queue; next = k.next; init = k.init }

map_stack-KeepsPids :
    (a : ℕ) (ktd : Bool) (s : Procs) (r : ℕ × Mmu) → Returns (Kept s) (map_stack a ktd s r)
map_stack-KeepsPids a ktd s (cr3, m) =
    let s1 : Procs =
      change_proc a (λ p. record p { cr3 = cr3; ktd = ktd }) (record s { mmu = m }) in
    let k =
      change_proc-KeepsPids a (λ p. record p { cr3 = cr3; ktd = ktd }) (record s { mmu = m })
        (λ p. refl) in
    let k' : KeepsPids s s1 = record {
      pids = k.pids;
      queue = k.queue;
      next = k.next;
      init = k.init;
    } in
    on_done-Returns_all (Kept {A = Ret (Unit {0})} s)
      (vm_map cr3 stack_spec stack_len stack_prot (space_of s1))
      (λ (r', spec, sp). done (ok tt, put_space sp s1))
      λ (r', spec, sp). KeepsPids-then s s1 (put_space sp s1) k' (put_space-KeepsPids sp s1)

put_files-KeepsPids :
    (a : ℕ) (s0 s : Procs) (o : Option (Ret (Unit {0}) × Files))
    → KeepsPids s0 s
    → Returns (Kept s0) (put_files a s o)
put_files-KeepsPids a s0 s none h = tt
put_files-KeepsPids a s0 s (some (r, f)) h =
    let s1 : Procs = record s { heap = f.heap; refs = f.refs } in
    let k = change_proc-KeepsPids a (λ p. record p { fdtab = f.fdtab }) s1 (λ p. refl) in
    KeepsPids-then s0 s1 (change_proc a (λ p. record p { fdtab = f.fdtab }) s1)
      (record { pids = h.pids; queue = h.queue; next = h.next; init = h.init }) k

with_fdtab-KeepsPids :
    (pf : Platform) (a : ℕ) (s0 : Procs) (x : Ret (Unit {0}) × Procs)
    → Kept s0 x
    → Returns (Kept s0) (with_fdtab pf a x)
with_fdtab-KeepsPids pf a s0 (err e, s) k = k
with_fdtab-KeepsPids pf a s0 (ok z, s) k = put_files-KeepsPids a s0 s _ k

-- Behind `proc_init`, the process has the next number, and the others keep theirs.
pub proc_init-KeepsPids :
    (pf : Platform) (a : ℕ) (ktd : Bool) (s : Procs)
    → Returns (Kept (fresh_proc a s)) (proc_init pf a ktd s)
unfolding proc_init md_proc_init
proc_init-KeepsPids pf a ktd s =
    let s0 : Procs = fresh_proc a s in
    on_done-Returns (Kept s0) (Kept s0) (md_proc_init pf.kcr3 a ktd s0) (with_fdtab pf a)
      (on_done-Returns_all (Kept s0) (mmu_new_vas pf.kcr3 s0.mmu) (map_stack a ktd s0)
        (map_stack-KeepsPids a ktd s0))
      (with_fdtab-KeepsPids pf a s0)
