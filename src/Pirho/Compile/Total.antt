-- ===== src/Pirho/Compile/Total.antt =====
-- Proofs on the loop of `parse_work`, src/sys/np/core/np_parse.c.
use l5lunos.Prelude.{
  ℕ, zero, suc, ◌+◌, ◌-◌, ◌%◌, ◌≤◌, ◌<◌, ◌≡◌, refl, Bool, true, false, Option, none, some, arith,
  if◌then◌else◌, length, ltb,
}
use l5lunos.Prelude.Errno.{Ret, ok, err, fail, lex_eof, page_fault, faults}
use l5lunos.Mem.Ptrbox.{Mem}
use l5lunos.Pirho.Token.{Token}
use l5lunos.Pirho.Lexer.{lex_fuel}
use l5lunos.Pirho.Lexer.Input.{pending, pending-lt-lex_fuel}
use l5lunos.Pirho.Symbol.Cache.{symlist_init-IsValid}
use l5lunos.Pirho.Piir.{piir_nop, piir_ret_nil, piir_stack_new, zeroed}
use l5lunos.Pirho.Piir.Fifo.{new_stack-IsValid}
use l5lunos.Pirho.Conv.{Gen}
use l5lunos.Pirho.Conv.Total.{piir_inject-total}
use l5lunos.Pirho.Parser.{Work, Parse, parse_return, parse_proc}
use l5lunos.Pirho.Compile.{
  set_depth, close_block, open_block, or_fail, open_proc, statement, parse_token, after_token,
  after_nom, parse_loop, Compiled, injected, generate, with_stack, parse_work,
}
use l5lunos.Pirho.Compile.Sound.{
  IsSound, Blames, Survives, survives, Keeps, Keeps-bind, Keeps-pure, Noms, token, no_token,
  nom-Noms, Keeps-emit, Keeps-parse_return, Keeps-parse_proc,
}

module _ (n : ℕ) where
  Survives-if :
      (b : Bool) {p q : Option (Ret (Unit {0}) × Work)}
      → Survives n p
      → Survives n q
      → Survives n (if b then p else q)
  Survives-if true h k = h
  Survives-if false h k = k

  Keeps-set_depth : (d : ℕ) → Keeps n (set_depth d)
  unfolding pending
  Keeps-set_depth d = record {
    at = λ w s.
        survives (ok tt) (record { size = s.size; left = s.left; queue = s.queue; table = s.table })
          (λ f. absurd (cc f));
  }

  Keeps-close_block : Keeps n close_block
  unfolding close_block
  Keeps-close_block = record {
    at = λ w s.
        Survives-if _
          ((Keeps-bind n _ _ (Keeps-set_depth (w.begin_depth - 1))
              (λ _. Keeps-emit n piir_ret_nil)).at
            w s)
          (survives (err fail) s (λ f. absurd (cc f)));
  }

  Keeps-open_block : Keeps n open_block
  unfolding open_block
  Keeps-open_block = record {
    at = λ w s. Survives-if _ (survives (err fail) s (λ f. absurd (cc f))) (
        (Keeps-bind n _ _ (Keeps-set_depth ((w.begin_depth + 1) % 256)) (λ _. Keeps-close_block)).at
          w s);
  }

  or_fail-Survives : {o : Option (Ret (Unit {0}) × Work)} → Survives n o → Survives n (or_fail o)
  or_fail-Survives (survives (ok a) s b) = survives (ok a) s b
  or_fail-Survives (survives (err page_fault) s b) = survives (err page_fault) s b
  or_fail-Survives (survives (err _) s b) = survives (err fail) s (λ f. absurd (cc f))

  Keeps-or_fail : (m : Parse (Unit {0})) → Keeps n m → Keeps n (λ w. or_fail (m w))
  Keeps-or_fail m h = record { at = λ w s. or_fail-Survives (h.at w s) }

  Keeps-open_proc : Keeps n open_proc
  unfolding open_proc
  Keeps-open_proc = record {
    at = λ w s. Survives-if _ (survives (err fail) s (λ f. absurd (cc f))) (
        (Keeps-bind n _ _ (Keeps-or_fail parse_proc (Keeps-parse_proc n))
            (λ _. Keeps-emit n piir_nop)).at
          w s);
  }

  Keeps-statement : (t : Token) → Keeps n (statement t)
  unfolding statement
  Keeps-statement Token.kw_begin = Keeps-open_block
  Keeps-statement Token.kw_end = Keeps-close_block
  Keeps-statement Token.kw_proc = Keeps-open_proc
  Keeps-statement Token.kw_return = Keeps-or_fail parse_return (Keeps-parse_return n)
  Keeps-statement _ = Keeps-pure n tt

  Keeps-parse_token : Keeps n parse_token
  unfolding parse_token
  Keeps-parse_token = record { at = λ w s. (Keeps-statement w.tok.token).at w s }

  after_token-Survives :
      (again : Work → Option (Ret (Unit {0}) × Work)) {o : Option (Ret (Unit {0}) × Work)}
      → Survives n o
      → ((w : Work) → IsSound n w → Survives n (again w))
      → Survives n (after_token again o)
  after_token-Survives again (survives (ok a) s b) h = h _ s
  after_token-Survives again (survives (err page_fault) s b) h = survives (err page_fault) s b
  after_token-Survives again (survives (err _) s b) h = survives (err fail) s (λ f. absurd (cc f))

Survives-mono : (m n : ℕ) {o : Option (Ret (Unit {0}) × Work)} → m ≤ n → Survives m o → Survives n o
Survives-mono m n l (survives r s b) =
    survives r
      (record { size = s.size; left = omega (arith, s.left); queue = s.queue; table = s.table }) b

after_nom-Survives :
    (n : ℕ) (again : Work → Option (Ret (Unit {0}) × Work)) {o : Option (Ret (Unit {0}) × Work)}
    → Noms n o
    → (0 < n → (w : Work) → IsSound (n - 1) w → Survives (n - 1) (again w))
    → Survives n (after_nom again o)
after_nom-Survives n again (token {w} s p t) h =
    Survives-if n _ (survives (err fail) s (λ f. absurd (cc f))) (
      Survives-mono (n - 1) n (omega arith)
        (after_token-Survives (n - 1) again ((Keeps-parse_token (n - 1)).at w t) (h p)))
after_nom-Survives n again (no_token lex_eof s f) h = survives (ok tt) s (λ g. absurd (cc g))
after_nom-Survives n again (no_token e s f) h = survives _ s (λ g. absurd (cc (f, g)))

parse_loop-Survives : (f n : ℕ) (w : Work) → IsSound n w → n < f → Survives n (parse_loop f w)
unfolding parse_loop
parse_loop-Survives zero n w s l = absurd (omega (arith, l))
parse_loop-Survives (suc f) n w s l =
    after_nom-Survives n (parse_loop f) (nom-Noms n w s)
      (λ p v t. parse_loop-Survives f (n - 1) v t (omega (arith, l, p)))

-- An end of `parse_work`: it returns, or it reads through NULL where the token is a string.
abbrev pub Ends : Option Compiled → Type 0
Ends o = (c : Compiled) × (o ≡ some c) × Blames c.ret c.work

injected-Ends : (w : Work) {o : Option Gen} → (g : Gen) × (o ≡ some g) → Ends (injected w o)
injected-Ends w (g, e) = rw e (_, refl, λ f. depth (ltb 0 w.begin_depth) f)
  where
    depth :
        {C : Type 0} (b : Bool) → faults {A = Unit {0}} (if b then err fail else ok tt) ≡ true → C
    depth true f = absurd (cc f)
    depth false f = absurd (cc f)

generate-Ends :
    (beyond : ℕ → ℕ) (n : ℕ) {o : Option (Ret (Unit {0}) × Work)}
    → Survives n o
    → Ends (generate beyond o)
generate-Ends beyond n (survives (ok a) {w} s b) =
    injected-Ends w (piir_inject-total beyond w.piir_stack w.symlist s.queue s.table)
generate-Ends beyond n (survives (err e) s b) = (_, refl, b)

with_stack-Ends :
    (beyond : ℕ → ℕ) (w : Work) (r : Option ℕ × Mem)
    → w.lex.source_size ≤ length w.lex.source
    → length w.symlist.cache ≡ 32
    → Ends (with_stack beyond (zeroed r) w)
unfolding lex_fuel pending
with_stack-Ends beyond w (none, m) h k = (_, refl, λ f. absurd (cc f))
with_stack-Ends beyond w (some a, m) h k = generate-Ends beyond (length (pending w.lex)) (
    parse_loop-Survives (lex_fuel w.lex) (length (pending w.lex)) _
      (record {
        size = h;
        left = omega arith;
        queue = new_stack-IsValid.0;
        table = symlist_init-IsValid w.symlist.cache k;
      })
      (pending-lt-lex_fuel w.lex))

-- For every source text, whatever the allocator grants, parse_work ends, where the size of the source is
-- at most its length and the symbol cache has its 32 entries: it gives a result, or it reads through
-- NULL to print the name of a token, and then the token is a string.
pub parse_work-total :
    (beyond : ℕ → ℕ) (w : Work)
    → w.lex.source_size ≤ length w.lex.source
    → length w.symlist.cache ≡ 32
    → (c : Compiled) × (parse_work beyond w ≡ some c)
      × (faults c.ret ≡ true → c.work.tok.token ≡ Token.str)
unfolding parse_work piir_stack_new
parse_work-total beyond w h k = with_stack-Ends beyond w _ h k
