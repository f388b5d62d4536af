-- ===== src/Pirho/Conv/Total.antt =====
-- Proofs that the code generator, src/sys/arch/amd64/np/piir_conv.c, gives a result.
use native.Mathlib.Numerals.{add-one}
use l5lunos.Prelude.{
  ℕ, zero, suc, ◌-◌, ◌≤◌, ◌<◌, ◌≡◌, refl, sym, ap, ◌∙◌, inl, inr, Bool-cases, Bool, true, false,
  Option, some, List, [], ◌∷◌, arith, ◌==◌, ◌>>=◌, length,
}
use l5lunos.Prelude.Errno.{Ret, ok, err, fail}
use l5lunos.Prelude.Int8.{ℤ, pos, negsuc}
use l5lunos.Pirho.Symbol.{SymList, Lookup, found, missing, fault, symbol_lookup_id}
use l5lunos.Pirho.Symbol.Cache
use l5lunos.Pirho.Symbol.Cache.{symbol_lookup_id-Answers, scan_queue_id-ne-fault}
use l5lunos.Pirho.Piir.{PiirStack, piir_pop}
use l5lunos.Pirho.Piir.Fifo
use l5lunos.Pirho.Piir.Fifo.{contents, pop_front, piir_pop_refines, length-contents}
use l5lunos.Pirho.Conv.{
  PiirVm, Gen, vm_push, pushed, ret_num, load_addr, load_symbol, op_nop, op_nret, op_load64_r64,
  ret_symbol, decode_op, md_piir_decode, inject_op, inject_loop, new_vm, piir_inject,
}

-- The queue and the table are well formed, and at most `n` bytes wait.
pub record IsSound (n : ℕ) (g : Gen) : Type 0 where
  pub queue : Fifo.IsValid g.stack
  pub few : length (contents g.stack) ≤ n
  pub table : Cache.IsValid g.symlist

-- No fault, and a sound state.
data Survives (n : ℕ) : Option (Ret (Unit {0}) × Gen) → Type 0 where
  survives : (r : Ret (Unit {0})) {g : Gen} → IsSound n g → Survives n (some (r, g))

length-pop :
    (q : List ℤ)
    → (length (pop_front q).1 ≤ length q)
      × ((b : ℕ) → (pop_front q).0 ≡ pos b → length (pop_front q).1 < length q)
unfolding pop_front
length-pop [] = (omega arith, λ b e. cc)
length-pop (b ∷ q) = (omega arith, λ b e. omega arith)

-- What `piir_pop` does to the length of the queue.
pop-few :
    (s : PiirStack) (n : ℕ)
    → Fifo.IsValid s
    → length (contents s) ≤ n
    → Fifo.IsValid (piir_pop s).1
      × (length (contents (piir_pop s).1) ≤ n)
      × ((b : ℕ) → (piir_pop s).0 ≡ pos b → length (contents (piir_pop s).1) < length (contents s))
pop-few s n v h =
    let p = piir_pop_refines s v in
    let l = length-pop (contents s) in
    (
      p.0,
      omega (arith, ap length p.2, l.0),
      λ b e. omega (arith, ap length p.2, l.1 b (sym p.1 ∙ e)),
    )

module _ (beyond : ℕ → ℕ) (n : ℕ) where
  pushed-Survives :
      (st : PiirStack) (sl : SymList) (r : Bool × PiirVm)
      → Fifo.IsValid st
      → length (contents st) ≤ n
      → Cache.IsValid sl
      → Survives n (some (pushed st sl r))
  pushed-Survives st sl (true, vm) v h c =
      survives (ok tt) (record { queue = v; few = h; table = c })
  pushed-Survives st sl (false, vm) v h c =
      survives (err fail) (record { queue = v; few = h; table = c })

  ret_num-Survives :
      (p : ℤ × PiirStack) (g : Gen)
      → Fifo.IsValid p.1
      → length (contents p.1) ≤ n
      → Cache.IsValid g.symlist
      → Survives n (some (ret_num beyond p g))
  ret_num-Survives (pos k, st) g v h c = pushed-Survives st g.symlist _ v h c
  ret_num-Survives (negsuc k, st) g v h c =
      survives (err fail) (record { queue = v; few = h; table = c })

  load_addr-Survives :
      (a : Lookup) (st : PiirStack) (vm : PiirVm) (sl : SymList)
      → Fifo.IsValid st
      → length (contents st) ≤ n
      → Cache.IsValid sl
      → (a ≡ fault → ⊥)
      → Survives n (load_symbol beyond (a, sl) st vm)
  load_addr-Survives (found s) st vm sl v h c k = loaded (vm_push beyond (op_load64_r64 0) 10 vm)
    where
      loaded : (r : Bool × PiirVm) → Survives n (some (load_addr s st sl r))
      loaded (true, vm') = survives (ok tt) (record { queue = v; few = h; table = c })
      loaded (false, vm') = survives (err fail) (record { queue = v; few = h; table = c })
  load_addr-Survives missing st vm sl v h c k =
      survives (err fail) (record { queue = v; few = h; table = c })
  load_addr-Survives fault st vm sl v h c k = absurd (k refl)

  ret_symbol-Survives :
      (p : ℤ × PiirStack) (g : Gen)
      → Fifo.IsValid p.1
      → length (contents p.1) ≤ n
      → Cache.IsValid g.symlist
      → Survives n (ret_symbol beyond p g)
  ret_symbol-Survives (pos id, st) g v h c =
      let a = symbol_lookup_id-Answers id g.symlist c in
      load_addr-Survives (symbol_lookup_id id g.symlist).0 st g.vm (symbol_lookup_id id g.symlist).1
        v h a.valid (λ k. scan_queue_id-ne-fault id g.symlist.symq (sym a.result ∙ k))
  ret_symbol-Survives (negsuc k, st) g v h c =
      survives (err fail) (record { queue = v; few = h; table = c })

  decode_op-Survives : (op : ℕ) (g : Gen) → IsSound n g → Survives n (decode_op beyond op g)
  unfolding decode_op
  decode_op-Survives op g s =
      let p = pop-few g.stack n s.queue s.few in
      elim (Bool-cases (op == 6)) [
        | inl e ↦ simp e (ret_num-Survives (piir_pop g.stack) g p.0 p.1 s.table)
        | inr a ↦ elim (Bool-cases (op == 7)) [
          | inl e ↦ simp (a, e) (ret_symbol-Survives (piir_pop g.stack) g p.0 p.1 s.table)
          | inr b ↦ elim (Bool-cases (op == 0)) [
            | inl e ↦
                simp (a, b, e)
                  (pushed-Survives g.stack g.symlist (vm_push beyond op_nop 1 g.vm) s.queue s.few
                    s.table)
            | inr c ↦ elim (Bool-cases (op == 5)) [
              | inl e ↦
                  simp (a, b, c, e)
                    (pushed-Survives g.stack g.symlist (vm_push beyond op_nret 1 g.vm) s.queue s.few
                      s.table)
              | inr d ↦ simp (a, b, c, d) (survives (ok tt) s)
            ]
          ]
        ]
      ]

module _ (beyond : ℕ → ℕ) where
  md_piir_decode-Survives :
      (n op : ℕ) (g : Gen) → IsSound n g → Survives n (md_piir_decode beyond (pos op) g)
  unfolding md_piir_decode
  md_piir_decode-Survives n op g s =
      decode_op-Survives beyond n op (record g { vm = record (g.vm) { last_ir = pos op } })
        (record { queue = s.queue; few = s.few; table = s.table })

  module _ (f : ℕ)
      (ih : (g : Gen) → IsSound f g → (g' : Gen) × (inject_loop beyond (suc f) g ≡ some g')) where
    continue :
        {o : Option (Ret (Unit {0}) × Gen)}
        → Survives f o
        → (g' : Gen) × ((o >>= λ (r, g). inject_loop beyond (suc f) g) ≡ some g')
    continue (survives r {g} s) = ih g s

    inject_op-total :
        (p : ℤ × PiirStack) (g : Gen)
        → Fifo.IsValid p.1
        → Cache.IsValid g.symlist
        → ((b : ℕ) → p.0 ≡ pos b → length (contents p.1) ≤ f)
        → (g' : Gen) × (inject_op beyond (inject_loop beyond (suc f)) p g ≡ some g')
    inject_op-total (pos op, st) g v c h = continue (
        md_piir_decode-Survives f op (record g { stack = st })
          (record { queue = v; few = h op refl; table = c }))
    inject_op-total (negsuc k, st) g v c h = (record g { stack = st }, refl)

  -- The last round: nothing waits.
  inject_end :
      (p : ℤ × PiirStack) (g : Gen)
      → ((b : ℕ) → p.0 ≡ pos b → ⊥)
      → (g' : Gen) × (inject_op beyond (inject_loop beyond zero) p g ≡ some g')
  inject_end (pos op, st) g h = absurd (h op refl)
  inject_end (negsuc k, st) g h = (record g { stack = st }, refl)

  inject_loop-total :
      (f : ℕ) (g : Gen) → IsSound f g → (g' : Gen) × (inject_loop beyond (suc f) g ≡ some g')
  unfolding inject_loop
  inject_loop-total zero g s =
      let p = pop-few g.stack zero s.queue s.few in
      inject_end (piir_pop g.stack) g (λ b e. omega (arith, p.2 b e, s.few))
  inject_loop-total (suc f) g s =
      let p = pop-few g.stack (suc f) s.queue s.few in
      inject_op-total f (inject_loop-total f) (piir_pop g.stack) g p.0 s.table
        (λ b e. omega (arith, p.2 b e, s.few))

-- `piir_inject` ends without a fault on every well formed queue and symbol table.
pub piir_inject-total :
    (beyond : ℕ → ℕ) (st : PiirStack) (sl : SymList)
    → Fifo.IsValid st
    → Cache.IsValid sl
    → (g : Gen) × (piir_inject beyond st sl ≡ some g)
unfolding piir_inject
piir_inject-total beyond st sl v c = rw add-one (
    inject_loop-total beyond (st.op_head - st.op_tail)
      (record { stack = st; symlist = sl; vm = new_vm })
      (record { queue = v; few = omega (arith, length-contents v); table = c }))
