-- ===== src/Pirho/Conv/Cases.antt =====
-- Proofs on the cases of `md_piir_decode`, src/sys/arch/amd64/np/piir_conv.c.
use l5lunos.Prelude.{
  ℕ, ◌+◌, ◌-◌, ◌≤◌, ◌<◌, ◌≡◌, ◌≢◌, refl, sym, ap, ◌∙◌, Bool, true, false, Option, some, List, [],
  ◌∷◌, ◌++◌, arith, Bytes, length, length-append, append-nil, append_assoc,
}
use l5lunos.Prelude.Errno.{Ret, ok, err, fail}
use l5lunos.Prelude.Int8.{ℤ, pos, negsuc}
use l5lunos.Pirho.Symbol.{
  Symbol, SymList, Lookup, found, missing, fault, scan_queue_id, symbol_lookup_id,
}
use l5lunos.Pirho.Symbol.Cache
use l5lunos.Pirho.Symbol.Cache.{Answers, symbol_lookup_id-Answers}
use l5lunos.Pirho.Piir.{PiirStack}
use l5lunos.Pirho.Piir.Fifo
use l5lunos.Pirho.Piir.Fifo.{contents, pop_front, piir_pop_refines, length-contents}
use l5lunos.Pirho.Conv.{
  PiirVm, Gen, code_size, op_load32_r32, op_load64_r64, vm_push, pushed, ret_num, load_addr,
  load_symbol, ret_symbol,
}
use l5lunos.Pirho.Conv.Emit.{
  Emitted, length-le_bytes, push_inst-Emitted, vm_push64-Emitted, cut-Emitted,
}
use l5lunos.Pirho.Conv.Spec.{inst_num, inst_addr, inst_symbol}

-- `q` waits in the queue, and the code so far is `bs`.
pub record Holds (syms : List Symbol) (q : List ℤ) (bs : Bytes) (g : Gen) : Type 0 where
  pub queue : Fifo.IsValid g.stack
  pub waits : contents g.stack ≡ q
  pub table : Cache.IsValid g.symlist
  pub symbols : g.symlist.symq ≡ syms
  pub emitted : Emitted g.vm bs

-- A decoding that ends without a fault, in a state that `P` holds of.
pub data Decodes (P : Gen → Type 0) : Option (Ret (Unit {0}) × Gen) → Type 0 where
  decodes : (r : Ret (Unit {0})) {g : Gen} → P g → Decodes P (some (r, g))

pub Decodes-mono :
    {P Q : Gen → Type 0} {o : Option (Ret (Unit {0}) × Gen)}
    → Decodes P o
    → ((g : Gen) → P g → Q g)
    → Decodes Q o
Decodes-mono (decodes r {g} p) f = decodes r (f g p)

module _ (beyond : ℕ → ℕ) (syms : List Symbol) where
  pub pushed-Decodes :
      (st : PiirStack) (sl : SymList) (r : Bool × PiirVm) (q : List ℤ) (bs : Bytes)
      → Fifo.IsValid st
      → contents st ≡ q
      → Cache.IsValid sl
      → sl.symq ≡ syms
      → r.0 ≡ true
      → Emitted r.1 bs
      → Decodes (Holds syms q bs) (some (pushed st sl r))
  pushed-Decodes st sl (true, vm) q bs v w c s t e =
      decodes (ok tt) (record { queue = v; waits = w; table = c; symbols = s; emitted = e })
  pushed-Decodes st sl (false, vm) q bs v w c s t e = cc

  pub ret_num-Decodes :
      (p : ℤ × PiirStack) (g : Gen) (q : List ℤ) (bs : Bytes)
      → Fifo.IsValid p.1
      → contents p.1 ≡ q
      → Cache.IsValid g.symlist
      → g.symlist.symq ≡ syms
      → Emitted g.vm bs
      → length bs + length (inst_num p.0) ≤ code_size - 2
      → Decodes (Holds syms q (bs ++ inst_num p.0)) (some (ret_num beyond p g))
  unfolding inst_num vm_push
  ret_num-Decodes (pos n, st) g q bs v w c s e h =
      let done = push_inst-Emitted beyond (op_load32_r32 n) 5 0 g.vm bs e (omega arith) in
      pushed-Decodes st g.symlist _ q _ v w c s done.0 done.1
  ret_num-Decodes (negsuc n, st) g q bs v w c s e h =
      decodes (err fail)
        (record { queue = v; waits = w; table = c; symbols = s; emitted = rw append-nil e })

  load_addr-Decodes :
      (s : Symbol) (st : PiirStack) (sl : SymList) (r : Bool × PiirVm) (q : List ℤ) (bs pad : Bytes)
      → Fifo.IsValid st
      → contents st ≡ q
      → Cache.IsValid sl
      → sl.symq ≡ syms
      → r.0 ≡ true
      → Emitted r.1 ((bs ++ 0x48 ∷ 0xb8 ∷ []) ++ pad)
      → length pad ≡ 8
      → length bs + 10 ≤ code_size - 2
      → Decodes (Holds syms q (bs ++ inst_addr (found s))) (some (load_addr s st sl r))
  unfolding inst_addr
  load_addr-Decodes s st sl (true, vm) q bs pad v w c t ok' e k h =
      let cut = cut-Emitted 8 vm (bs ++ 0x48 ∷ 0xb8 ∷ []) pad e (omega (arith, k)) in
      let room : length (bs ++ 0x48 ∷ 0xb8 ∷ []) + 8 < code_size - 1 =
        omega (arith, length-append bs (0x48 ∷ 0xb8 ∷ [])) in
      decodes (ok tt) (record {
        queue = v;
        waits = w;
        table = c;
        symbols = t;
        emitted = rw append_assoc at (vm_push64-Emitted s.addr _ _ cut room);
      })
  load_addr-Decodes s st sl (false, vm) q bs pad v w c t ok' e k h = cc

  load_symbol-Decodes :
      (r : Lookup × SymList) (st : PiirStack) (vm : PiirVm) (q : List ℤ) (bs : Bytes)
      → Fifo.IsValid st
      → contents st ≡ q
      → Cache.IsValid r.1
      → r.1.symq ≡ syms
      → r.0 ≢ fault
      → Emitted vm bs
      → length bs + length (inst_addr r.0) ≤ code_size - 2
      → Decodes (Holds syms q (bs ++ inst_addr r.0)) (load_symbol beyond r st vm)
  unfolding inst_addr vm_push
  load_symbol-Decodes (found s, sl) st vm q bs v w c t n e h =
      let fits : length bs + 10 ≤ code_size - 2 = omega (arith, length-le_bytes 8 s.addr) in
      let done = push_inst-Emitted beyond (op_load64_r64 0) 10 0 vm bs e (omega arith) in
      let pad : Bytes = 0 ∷ 0 ∷ 0 ∷ 0 ∷ 0 ∷ 0 ∷ beyond 8 ∷ beyond 9 ∷ [] in
      load_addr-Decodes s st sl _ q bs pad v w c t done.0 (rw append_assoc done.1) refl fits
  load_symbol-Decodes (missing, sl) st vm q bs v w c t n e h =
      decodes (err fail)
        (record { queue = v; waits = w; table = c; symbols = t; emitted = rw append-nil e })
  load_symbol-Decodes (fault, sl) st vm q bs v w c t n e h = absurd (n refl)

  pub ret_symbol-Decodes :
      (p : ℤ × PiirStack) (g : Gen) (q : List ℤ) (bs : Bytes)
      → Fifo.IsValid p.1
      → contents p.1 ≡ q
      → Cache.IsValid g.symlist
      → g.symlist.symq ≡ syms
      → Emitted g.vm bs
      → length bs + length (inst_symbol syms p.0) ≤ code_size - 2
      → Decodes (Holds syms q (bs ++ inst_symbol syms p.0)) (ret_symbol beyond p g)
  unfolding inst_symbol
  ret_symbol-Decodes (pos id, st) g q bs v w c s e h =
      let a = symbol_lookup_id-Answers id g.symlist c in
      let same : (symbol_lookup_id id g.symlist).0 ≡ scan_queue_id id syms =
        a.result ∙ ap (scan_queue_id id) s in
      rw (← same) (
        load_symbol-Decodes (symbol_lookup_id id g.symlist) st g.vm q bs v w a.valid
          (a.same_queue ∙ s) (λ k. Cache.scan_queue_id-ne-fault id syms (sym same ∙ k)) e
          (rw same h))
  ret_symbol-Decodes (negsuc n, st) g q bs v w c s e h =
      decodes (err fail)
        (record { queue = v; waits = w; table = c; symbols = s; emitted = rw append-nil e })
