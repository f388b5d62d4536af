-- ===== src/Pirho/Parser/Return.antt =====
-- Proofs on `parse_return` of src/sys/np/core/np_parse.c.
use l5lunos.Prelude.{
  ℕ, ◌+◌, ◌-◌, ◌≤◌, ◌<◌, ◌≡◌, refl, ap, ◌∙◌, false, some, [], ◌∷◌, ◌++◌, arith, leb, length,
  append_assoc,
}
use l5lunos.Prelude.Errno.{ok}
use l5lunos.Prelude.Int8.{ℤ, to_i8}
use l5lunos.Pirho.Token.{number, val, LexToken}
use l5lunos.Pirho.Lexer.Input.{Sees, pending}
use l5lunos.Pirho.Lexer.Scan.{scan}
use l5lunos.Pirho.Lexer.Refine.{lex_nom-scan}
use l5lunos.Pirho.Piir.{PiirStack, piir_stack_size, piir_push, piir_ret_num}
use l5lunos.Pirho.Piir.Fifo
use l5lunos.Pirho.Piir.Fifo.{contents, piir_push_refines}
use l5lunos.Pirho.Parser.{Work, nom, emit, parse_return}

-- A push into a queue with room.
push_room :
    (s : PiirStack) (b : ℤ)
    → Fifo.IsValid s
    → s.op_head < piir_stack_size - 1
    → Fifo.IsValid (piir_push s b).1
      × (contents (piir_push s b).1 ≡ contents s ++ b ∷ [])
      × ((piir_push s b).1.op_head ≡ s.op_head + 1)
unfolding piir_push
push_room s b v h =
    let full : leb (piir_stack_size - 1) s.op_head ≡ false = ground (arith, h) in
    let p = piir_push_refines s b v in (p.0, p.2 ∙ rw full refl, rw full (omega (arith, h)))

-- The queue after two pushes.
abbrev pub pushed_twice : PiirStack → ℤ → ℤ → PiirStack
pushed_twice s a b = (piir_push (piir_push s a).1 b).1

pushed_twice-contents :
    (s : PiirStack) (a b : ℤ)
    → Fifo.IsValid s
    → s.op_head + 2 ≤ piir_stack_size - 1
    → Fifo.IsValid (pushed_twice s a b) × (contents (pushed_twice s a b) ≡ contents s ++ a ∷ b ∷ [])
pushed_twice-contents s a b v h =
    let p = push_room s a v (omega (arith, h)) in
    let q = push_room (piir_push s a).1 b p.0 (omega (arith, h, p.2)) in
    (q.0, q.1 ∙ ap (λ l. l ++ b ∷ []) p.1 ∙ append_assoc (contents s) (a ∷ []) (b ∷ []))

-- Where the next lexeme is the number `n`, and the queue is well formed and has room for two bytes,
-- `parse_return` succeeds, appends the opcode and the number's low byte to the queue, and leaves the
-- input behind the lexeme.
pub parse_return-number :
    (w : Work) (n : ℕ)
    → w.lex.source_size ≤ length w.lex.source
    → Fifo.IsValid w.piir_stack
    → w.piir_stack.op_head + 2 ≤ piir_stack_size - 1
    → (scan w.tok (pending w.lex) w.lex.line_no w.lex.mem).ret ≡ ok tt
    → (scan w.tok (pending w.lex) w.lex.line_no w.lex.mem).tok
      ≡ record { token = number; value = val n }
    → (w' : Work) × (parse_return w ≡ some (ok tt, w'))
      × Fifo.IsValid w'.piir_stack
      × (contents w'.piir_stack ≡ contents w.piir_stack ++ piir_ret_num ∷ to_i8 n ∷ [])
      × (pending w'.lex ≡ (scan w.tok (pending w.lex) w.lex.line_no w.lex.mem).rest)
unfolding parse_return nom emit
parse_return-number w n size v room ret tok =
    let sees : Sees w.lex (pending w.lex) w.lex.line_no w.lex.mem = record {
      size = size;
      input = refl;
      line = refl;
      memory = refl;
    } in
    let (s, e, k) = lex_nom-scan w.tok w.lex (pending w.lex) w.lex.line_no w.lex.mem sees in
    let t : LexToken = record { token = number; value = val n } in
    let st = pushed_twice w.piir_stack piir_ret_num (to_i8 n) in
    let q = pushed_twice-contents w.piir_stack piir_ret_num (to_i8 n) v room in
    (record w { tok = t; lex = s; piir_stack = st }, rw (e, ret, tok) refl, q.0, q.1, k.input)
