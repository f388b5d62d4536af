-- ===== src/Pirho/Conv/Decode.antt =====
-- Proofs on `md_piir_decode` of src/sys/arch/amd64/np/piir_conv.c, against the specification.
use l5lunos.Prelude.{
  ℕ, ◌+◌, ◌-◌, ◌≤◌, ◌≡◌, sym, ap, ◌∙◌, inl, inr, Bool-cases, true, false, some, List, [], ◌∷◌, ◌++◌,
  arith, ◌==◌, Bytes, length, length-append, append-nil,
}
use l5lunos.Prelude.Errno.{ok}
use l5lunos.Prelude.Int8.{ℤ, pos}
use l5lunos.Pirho.Symbol.{Symbol}
use l5lunos.Pirho.Piir.{piir_pop}
use l5lunos.Pirho.Piir.Fifo
use l5lunos.Pirho.Piir.Fifo.{contents, pop_front, piir_pop_refines, length-contents}
use l5lunos.Pirho.Conv.{
  Gen, code_size, vm_push, pushed, ret_num, ret_symbol, decode_op, md_piir_decode,
}
use l5lunos.Pirho.Conv.Emit.{push_inst-Emitted}
use l5lunos.Pirho.Conv.Spec.{
  inst_op, inst_num, inst_symbol, translate, translate_plain, translate_num, translate_symbol,
  length-pop_front,
}
use l5lunos.Pirho.Conv.Cases.{
  Holds, Decodes, decodes, Decodes-mono, pushed-Decodes, ret_num-Decodes, ret_symbol-Decodes,
}

module _ (beyond : ℕ → ℕ) (syms : List Symbol) where
  -- What is left to do after a decoding: `done` is the code of what was taken from the queue.
  abbrev pub Progress : ℕ → List ℤ → Bytes → Gen → Type 0
  Progress op q bs g =
      (rest : List ℤ) × (done : Bytes) × Holds syms rest (bs ++ done) g
      × (done ++ translate syms rest ≡ translate syms (pos op ∷ q))
      × (length rest ≤ length q)

  plain-Decodes :
      (op byte : ℕ) (g : Gen) (q : List ℤ) (bs : Bytes)
      → Holds syms q bs g
      → (op == 6) ≡ false
      → (op == 7) ≡ false
      → inst_op op ≡ byte ∷ []
      → length bs + length (translate syms (pos op ∷ q)) ≤ code_size - 2
      → Decodes
          (Progress op q bs)
          (some (pushed g.stack g.symlist (vm_push beyond (byte ∷ []) 1 g.vm)))
  unfolding vm_push
  plain-Decodes op byte g q bs h n6 n7 i fit =
      let eq : byte ∷ translate syms q ≡ translate syms (pos op ∷ q) =
        ap (λ l. l ++ translate syms q) (sym i) ∙ translate_plain syms op q n6 n7 in
      let done =
        push_inst-Emitted beyond (byte ∷ []) 1 0 g.vm bs h.emitted (omega (arith, ap length eq)) in
      Decodes-mono
        (pushed-Decodes beyond syms g.stack g.symlist _ q _ h.queue h.waits h.table h.symbols done.0
          done.1)
        λ g' k. (q, byte ∷ [], k, eq, omega arith)

  -- The operand of an opcode is the next byte of the queue, or -1.
  pub operand :
      (g : Gen) (q : List ℤ) (bs : Bytes)
      → Holds syms q bs g
      → Fifo.IsValid (piir_pop g.stack).1
        × (contents (piir_pop g.stack).1 ≡ (pop_front q).1)
        × ((piir_pop g.stack).0 ≡ (pop_front q).0)
  operand g q bs h =
      let p = piir_pop_refines g.stack h.queue in
      (p.0, p.2 ∙ ap (λ l. (pop_front l).1) h.waits, p.1 ∙ ap (λ l. (pop_front l).0) h.waits)

  num-Decodes :
      (op : ℕ) (g : Gen) (q : List ℤ) (bs : Bytes)
      → Holds syms q bs g
      → (op == 6) ≡ true
      → length bs + length (translate syms (pos op ∷ q)) ≤ code_size - 2
      → Decodes (Progress op q bs) (some (ret_num beyond (piir_pop g.stack) g))
  num-Decodes op g q bs h e fit =
      let p = operand g q bs h in
      let rest = (pop_front q).1 in
      let done = inst_num (piir_pop g.stack).0 in
      let eq : done ++ translate syms rest ≡ translate syms (pos op ∷ q) =
        rw p.2 (translate_num syms op q e) in
      Decodes-mono
        (ret_num-Decodes beyond syms (piir_pop g.stack) g rest bs p.0 p.1 h.table h.symbols
          h.emitted (omega (arith, ap length eq, length-append done (translate syms rest))))
        λ g' k. (rest, done, k, eq, length-pop_front q)

  symbol-Decodes :
      (op : ℕ) (g : Gen) (q : List ℤ) (bs : Bytes)
      → Holds syms q bs g
      → (op == 7) ≡ true
      → length bs + length (translate syms (pos op ∷ q)) ≤ code_size - 2
      → Decodes (Progress op q bs) (ret_symbol beyond (piir_pop g.stack) g)
  symbol-Decodes op g q bs h e fit =
      let p = operand g q bs h in
      let rest = (pop_front q).1 in
      let done = inst_symbol syms (piir_pop g.stack).0 in
      let eq : done ++ translate syms rest ≡ translate syms (pos op ∷ q) =
        rw p.2 (translate_symbol syms op q e) in
      Decodes-mono
        (ret_symbol-Decodes beyond syms (piir_pop g.stack) g rest bs p.0 p.1 h.table h.symbols
          h.emitted (omega (arith, ap length eq, length-append done (translate syms rest))))
        λ g' k. (rest, done, k, eq, length-pop_front q)

  decode_op-Decodes :
      (op : ℕ) (g : Gen) (q : List ℤ) (bs : Bytes)
      → Holds syms q bs g
      → length bs + length (translate syms (pos op ∷ q)) ≤ code_size - 2
      → Decodes (Progress op q bs) (decode_op beyond op g)
  unfolding decode_op inst_op
  decode_op-Decodes op g q bs h fit = elim (Bool-cases (op == 6)) [
    | inl e ↦ simp e (num-Decodes op g q bs h e fit)
    | inr n6 ↦ elim (Bool-cases (op == 7)) [
      | inl e ↦ simp (n6, e) (symbol-Decodes op g q bs h e fit)
      | inr n7 ↦ elim (Bool-cases (op == 0)) [
        | inl e ↦ simp (n6, n7, e) (plain-Decodes op 0x90 g q bs h n6 n7 (simp e) fit)
        | inr n0 ↦ elim (Bool-cases (op == 5)) [
          | inl e ↦ simp (n6, n7, n0, e) (plain-Decodes op 0xc2 g q bs h n6 n7 (simp (n0, e)) fit)
          | inr n5 ↦
              simp (n6, n7, n0, n5)
                (decodes (ok tt) {g = g} (
                  q,
                  [],
                  rw append-nil h,
                  simp (n0, n5) at (translate_plain syms op q n6 n7),
                  omega arith,
                ))
        ]
      ]
    ]
  ]

  pub md_piir_decode-Decodes :
      (op : ℕ) (g : Gen) (q : List ℤ) (bs : Bytes)
      → Holds syms q bs g
      → length bs + length (translate syms (pos op ∷ q)) ≤ code_size - 2
      → Decodes (Progress op q bs) (md_piir_decode beyond (pos op) g)
  unfolding md_piir_decode
  md_piir_decode-Decodes op g q bs h fit =
      decode_op-Decodes op (record g { vm = record (g.vm) { last_ir = pos op } }) q bs
        (record {
          queue = h.queue;
          waits = h.waits;
          table = h.table;
          symbols = h.symbols;
          emitted = record {
            size = h.emitted.size;
            index = h.emitted.index;
            code = h.emitted.code;
          };
        })
        fit
