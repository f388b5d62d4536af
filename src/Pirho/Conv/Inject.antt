-- ===== src/Pirho/Conv/Inject.antt =====
-- Proofs on the loop of `piir_inject`, src/sys/np/codegen/piir_engine.c, against the
-- specification.
use mathlib.Core.Path.{subst}
use l5lunos.Prelude.{
  ℕ, zero, suc, ◌+◌, ◌-◌, ◌≤◌, ◌<◌, ◌≡◌, refl, sym, ap, Option, some, List, [], ◌∷◌, ◌++◌, arith,
  ◌>>=◌, Bytes, length, length-append, length-replicate, append-nil, append_assoc, take,
}
use l5lunos.Prelude.Errno.{Ret}
use l5lunos.Prelude.Int8.{ℤ, pos, negsuc}
use l5lunos.Pirho.Symbol.{Symbol, SymList}
use l5lunos.Pirho.Symbol.Cache
use l5lunos.Pirho.Symbol.Cache.{Answers, symbol_lookup_id-Answers}
use l5lunos.Pirho.Piir.{PiirStack, piir_pop}
use l5lunos.Pirho.Piir.Fifo
use l5lunos.Pirho.Piir.Fifo.{contents, pop_front, piir_pop_refines, length-contents}
use l5lunos.Pirho.Conv.{Gen, code_size, inject_op, inject_loop, new_vm, inject_fuel, piir_inject}
use l5lunos.Pirho.Conv.Emit.{Emitted}
use l5lunos.Pirho.Conv.Spec.{translate}
use l5lunos.Pirho.Conv.Cases.{Holds, Decodes, decodes}
use l5lunos.Pirho.Conv.Decode.{Progress, operand, md_piir_decode-Decodes}

module _ (beyond : ℕ → ℕ) (syms : List Symbol) where
  -- The loop ends, with the code of `q` behind `bs`.
  abbrev Ends : Bytes → List ℤ → Option Gen → Type 0
  Ends bs q o = (g : Gen) × (o ≡ some g) × Emitted g.vm (bs ++ translate syms q)

  abbrev Fits : ℕ → Bytes → List ℤ → Type 0
  Fits f bs q = (length q < f) × (length bs + length (translate syms q) ≤ code_size - 2)

  module _ (f : ℕ)
      (ih : (g : Gen) (q : List ℤ) (bs : Bytes)
        → Holds syms q bs g
        → Fits f bs q
        → Ends bs q (inject_loop beyond f g)) where
    resume :
        (op : ℕ) (q : List ℤ) (bs : Bytes) {o : Option (Ret (Unit {0}) × Gen)}
        → Decodes (Progress beyond syms op q bs) o
        → Fits (suc f) bs (pos op ∷ q)
        → Ends bs (pos op ∷ q) (o >>= λ (r, g). inject_loop beyond f g)
    resume op q bs (decodes r {g} (rest, done, h, eq, le)) fit =
        let (g', e, em) = ih g rest (bs ++ done) h (
          omega (arith, fit.0),
          omega (
            arith,
            fit.1,
            ap length eq,
            length-append done (translate syms rest),
            length-append bs done,
          ),
        ) in
        (g', e, rw (← eq, ← append_assoc) em)

    inject_op-Ends :
        (p : ℤ × PiirStack) (g : Gen) (q : List ℤ) (bs : Bytes)
        → Fifo.IsValid p.1
        → contents p.1 ≡ (pop_front q).1
        → p.0 ≡ (pop_front q).0
        → Holds syms q bs g
        → Fits (suc f) bs q
        → Ends bs q (inject_op beyond (inject_loop beyond f) p g)
    unfolding translate pop_front
    inject_op-Ends (pos op, st) g [] bs v w b h fit = cc
    inject_op-Ends (pos op, st) g (negsuc n ∷ q) bs v w b h fit = cc
    inject_op-Ends (pos op, st) g (pos op' ∷ q) bs v w b h fit =
        let e : op ≡ op' = cc in
        let fit' = subst (λ x. Fits (suc f) bs (pos x ∷ q)) (sym e) fit in
        let h' : Holds syms q bs (record g { stack = st }) = record {
          queue = v;
          waits = w;
          table = h.table;
          symbols = h.symbols;
          emitted = h.emitted;
        } in
        subst (λ x. Ends bs (pos x ∷ q) (inject_op beyond (inject_loop beyond f) (pos op, st) g)) e
          (resume op q bs
            (md_piir_decode-Decodes beyond syms op (record g { stack = st }) q bs h' fit'.1) fit')
    inject_op-Ends (negsuc n, st) g [] bs v w b h fit =
        (record g { stack = st }, refl, rw append-nil h.emitted)
    inject_op-Ends (negsuc n, st) g (negsuc m ∷ q) bs v w b h fit =
        (record g { stack = st }, refl, rw append-nil h.emitted)
    inject_op-Ends (negsuc n, st) g (pos op' ∷ q) bs v w b h fit = cc

  inject_loop-Ends :
      (f : ℕ) (g : Gen) (q : List ℤ) (bs : Bytes)
      → Holds syms q bs g
      → Fits f bs q
      → Ends bs q (inject_loop beyond f g)
  unfolding inject_loop
  inject_loop-Ends zero g q bs h fit = absurd (omega (arith, fit.0))
  inject_loop-Ends (suc f) g q bs h fit =
      let p = operand beyond syms g q bs h in
      inject_op-Ends f (inject_loop-Ends f) (piir_pop g.stack) g q bs p.0 p.1 p.2 h fit

new_vm-Emitted : Emitted new_vm []
unfolding new_vm
new_vm-Emitted = record { size = length-replicate {A = ℕ} code_size 0; index = refl; code = refl }

-- From a well formed queue and symbol table, `piir_inject` ends without a fault, and what it leaves
-- in the code buffer is the translation of the queue, if that has at most 4094 bytes. What lies past
-- the end of an instruction's array does not show in it.
pub piir_inject-translate :
    (beyond : ℕ → ℕ) (st : PiirStack) (sl : SymList)
    → Fifo.IsValid st
    → Cache.IsValid sl
    → length (translate sl.symq (contents st)) ≤ code_size - 2
    → (g : Gen) × (piir_inject beyond st sl ≡ some g)
      × (take g.vm.code_i g.vm.code ≡ translate sl.symq (contents st))
unfolding piir_inject
piir_inject-translate beyond st sl v c fit =
    let (g, e, em) =
      inject_loop-Ends beyond sl.symq (inject_fuel st)
        (record { stack = st; symlist = sl; vm = new_vm }) (contents st) []
        (record { queue = v; waits = refl; table = c; symbols = refl; emitted = new_vm-Emitted })
        (omega (arith, length-contents v), omega (arith, fit)) in
    (g, e, em.code)
