-- ===== src/Pirho/Compile/Sound.antt =====
-- The well formed states of the parser, src/sys/np/core/np_parse.c, and proofs on its steps.
use l5lunos.Prelude.{
  ℕ, ◌-◌, ◌≤◌, ◌<◌, ◌≡◌, refl, sym, ap, Bool, true, false, Option, none, some, arith, if◌then◌else◌,
  Bytes, length,
}
use l5lunos.Prelude.Errno.{Errno, Ret, ok, err, fail, enomem, page_fault, is_fault, faults}
use l5lunos.Prelude.Int8.{ℤ, to_i8}
use l5lunos.Mem.Ptrbox.{Mem, CStr}
use l5lunos.Pirho.Token.{Token, LexToken}
use l5lunos.Pirho.Lexer.{Lexer}
use l5lunos.Pirho.Lexer.Input.{Sees, pending}
use l5lunos.Pirho.Lexer.Scan.{scan}
use l5lunos.Pirho.Lexer.Refine.{lex_nom-scan}
use l5lunos.Pirho.Lexer.Progress.{scan-length}
use l5lunos.Pirho.Lexer.Results.{scan-faults}
use l5lunos.Pirho.Symbol.{SymList, Symbol}
use l5lunos.Pirho.Symbol.Cache
use l5lunos.Pirho.Symbol.Cache.{Enters, symbol_alloc-Enters, symlist_init-IsValid}
use l5lunos.Pirho.Piir.Fifo
use l5lunos.Pirho.Piir.Fifo.{piir_push_refines, new_stack-IsValid}
use l5lunos.Pirho.Parser.{
  Work, Parse, next, ◌>>=◌, ◌>>◌, print_token, not_expected, pure, stop, IType, bad_type, lexed,
  nom, scanned, parse_scan, parse_expect, must, parse_type, emit, num_of, str_of, addr_of, alloced,
  alloc_symbol, return_value, parse_return, dupped, dup_ident, enter_func, check_type, parse_proc,
}

-- At most `n` characters are left, and the queue and the symbol table are well formed.
pub record IsSound (n : ℕ) (w : Work) : Type 0 where
  pub size : w.lex.source_size ≤ length w.lex.source
  pub left : length (pending w.lex) ≤ n
  pub queue : Fifo.IsValid w.piir_stack
  pub table : Cache.IsValid w.symlist

-- A fault is the print of a string's name.
abbrev pub Blames : {A : Type 0} → Ret A → Work → Type 0
Blames r w = faults r ≡ true → w.tok.token ≡ Token.str

pub no_fault : {A : Type 0} (r : Ret A) (w : Work) → faults r ≡ false → Blames r w
no_fault r w h k = absurd (cc (h, k))

-- A step that ends in a sound state.
pub data Survives (n : ℕ) {A : Type 0} : Option (Ret A × Work) → Type 0 where
  survives : (r : Ret A) {w : Work} → IsSound n w → Blames r w → Survives n (some (r, w))

pub record Keeps (n : ℕ) {A : Type 0} (m : Parse A) : Type 0 where
  pub at : (w : Work) → IsSound n w → Survives n (m w)

module _ (n : ℕ) {A : Type 0} where
  pub Keeps-pure : (a : A) → Keeps n (pure a)
  Keeps-pure a = record { at = λ w s. survives (ok a) s (no_fault (ok a) w refl) }

  pub Keeps-stop : (e : Errno) → is_fault e ≡ false → Keeps n (stop {A = A} e)
  Keeps-stop e h = record { at = λ w s. survives (err e) s (no_fault {A = A} (err e) w h) }

  Keeps-if : (b : Bool) (p q : Parse A) → Keeps n p → Keeps n q → Keeps n (if b then p else q)
  Keeps-if true p q h k = h
  Keeps-if false p q h k = k

module _ (n : ℕ) {A B : Type 0} where
  pub next-Survives :
      {o : Option (Ret A × Work)} (k : A → Parse B)
      → Survives n o
      → ((a : A) → Keeps n (k a))
      → Survives n (next o k)
  next-Survives k (survives (ok a) s b) h = (h a).at _ s
  next-Survives k (survives (err e) s b) h = survives (err e) s b

  pub Keeps-bind :
      (m : Parse A) (k : A → Parse B) → Keeps n m → ((a : A) → Keeps n (k a)) → Keeps n (m >>= k)
  Keeps-bind m k h g = record { at = λ w s. next-Survives k (h.at w s) g }

pending-Sees : (w : Work) (n : ℕ) → IsSound n w → Sees w.lex (pending w.lex) w.lex.line_no w.lex.mem
pending-Sees w n s = record { size = s.size; input = refl; line = refl; memory = refl }

-- `lex_nom` ends; where it returns a token, fewer characters are left.
pub data Noms (n : ℕ) : Option (Ret (Unit {0}) × Work) → Type 0 where
  token : {w : Work} → IsSound n w → 0 < n → IsSound (n - 1) w → Noms n (some (ok tt, w))
  no_token : (e : Errno) {w : Work} → IsSound n w → is_fault e ≡ false → Noms n (some (err e, w))

lexed-IsSound :
    (n k : ℕ) (w : Work) (t : LexToken) (s : Lexer) (p : Bytes) (l : ℕ) (m : Mem)
    → IsSound n w
    → Sees s p l m
    → length p ≤ k
    → IsSound k (record w { tok = t; lex = s })
lexed-IsSound n k w t s p l m g v h = record {
  size = v.size;
  left = omega (arith, ap length v.input);
  queue = g.queue;
  table = g.table;
}

lexed-Noms :
    (n : ℕ) (w : Work) (r : Ret (Unit {0})) (t : LexToken) (s : Lexer) (p : Bytes) (l : ℕ) (m : Mem)
    → IsSound n w
    → Sees s p l m
    → length p ≤ n
    → (r ≡ ok tt → length p < n)
    → faults r ≡ false
    → Noms n (lexed w (some (r, t, s)))
lexed-Noms n w (ok tt) t s p l m g v h k f =
    token (lexed-IsSound n n w t s p l m g v h) (omega (arith, k refl))
      (lexed-IsSound n (n - 1) w t s p l m g v (omega (arith, k refl)))
lexed-Noms n w (err e) t s p l m g v h k f = no_token e (lexed-IsSound n n w t s p l m g v h) f

pub nom-Noms : (n : ℕ) (w : Work) → IsSound n w → Noms n (nom w)
unfolding nom
nom-Noms n w g =
    let p = pending w.lex in
    let (s, e, v) = lex_nom-scan w.tok w.lex p w.lex.line_no w.lex.mem (pending-Sees w n g) in
    let x = scan w.tok p w.lex.line_no w.lex.mem in
    let h = scan-length w.tok p w.lex.line_no w.lex.mem in
    rw e (
      lexed-Noms n w x.ret x.tok s x.rest x.line x.mem g v (omega (arith, h.0, g.left))
        (λ k. omega (arith, h.1 k, g.left)) (scan-faults w.tok p w.lex.line_no w.lex.mem))

module _ (n : ℕ) where
  Noms-Survives : {o : Option (Ret (Unit {0}) × Work)} → Noms n o → Survives n o
  Noms-Survives (token {w} s p f) = survives (ok tt) s (no_fault (ok tt) w refl)
  Noms-Survives (no_token e {w} s f) = survives (err e) s (no_fault {A = Unit {0}} (err e) w f)

  Keeps-nom : Keeps n nom
  Keeps-nom = record { at = λ w s. Noms-Survives (nom-Noms n w s) }

  scanned-Survives : {o : Option (Ret (Unit {0}) × Work)} → Survives n o → Survives n (scanned o)
  scanned-Survives (survives (ok a) {w} s b) =
      survives (ok w.tok.token) s (no_fault (ok w.tok.token) w refl)
  scanned-Survives (survives (err e) {w} s b) =
      survives (ok Token.no_token) s (no_fault (ok Token.no_token) w refl)

  Keeps-parse_scan : Keeps n parse_scan
  unfolding parse_scan
  Keeps-parse_scan = record { at = λ w s. scanned-Survives (Keeps-nom.at w s) }

  -- The print of a token's name.
  print_token-Survives :
      (t : Token) (w : Work) → IsSound n w → w.tok.token ≡ t → Survives n (print_token t w)
  unfolding print_token
  print_token-Survives Token.str w s e = survives (err page_fault) s (λ f. e)
  print_token-Survives _ w s e = survives (ok tt) s (no_fault (ok tt) w refl)

  Keeps-print :
      {A : Type 0} (k : Parse A) → Keeps n k → Keeps n (λ w. (print_token w.tok.token >> k) w)
  Keeps-print k h = record {
    at = λ w s. next-Survives n (λ a. k) (print_token-Survives w.tok.token w s refl) (λ a. h);
  }

  Keeps-not_expected : Keeps n not_expected
  Keeps-not_expected = Keeps-print (pure Token.no_token) (Keeps-pure n Token.no_token)

  Keeps-parse_expect : (t : Token) → Keeps n (parse_expect t)
  unfolding parse_expect
  Keeps-parse_expect t =
      Keeps-bind n parse_scan _ Keeps-parse_scan
        (λ a. Keeps-if n _ _ _ (Keeps-pure n a) Keeps-not_expected)

  Keeps-must : (t : Token) → Keeps n (must t)
  unfolding must
  Keeps-must t =
      Keeps-bind n (parse_expect t) _ (Keeps-parse_expect t)
        (λ a. Keeps-if n _ _ _ (Keeps-stop n fail refl) (Keeps-pure n tt))

  Keeps-parse_type : Keeps n parse_type
  unfolding parse_type
  Keeps-parse_type = Keeps-bind n parse_scan _ Keeps-parse_scan (λ a. Keeps-pure n _)

  pub Keeps-emit : (b : ℤ) → Keeps n (emit b)
  unfolding emit
  Keeps-emit b = record {
    at = λ w s.
        survives (ok tt)
          (record {
            size = s.size;
            left = s.left;
            queue = (piir_push_refines w.piir_stack b s.queue).0;
            table = s.table;
          })
          (λ f. absurd (cc f));
  }

  alloced-Survives :
      (w : Work) (r : Option Symbol × SymList × Mem)
      → IsSound n w
      → Cache.IsValid r.1
      → Survives n (alloced w r)
  unfolding pending
  alloced-Survives w (none, sl, m) s v =
      survives (err fail) (record { size = s.size; left = s.left; queue = s.queue; table = v })
        (λ f. absurd (cc f))
  alloced-Survives w (some sym, sl, m) s v =
      survives (ok sym) (record { size = s.size; left = s.left; queue = s.queue; table = v })
        (λ f. absurd (cc f))

  Keeps-alloc_symbol : Keeps n alloc_symbol
  unfolding alloc_symbol
  Keeps-alloc_symbol = record {
    at = λ w s.
        alloced-Survives w _ s
          (symbol_alloc-Enters none (addr_of (str_of w.tok.value)) w.symlist w.lex.mem
            s.table).valid;
  }

  Keeps-return_value : (t : Token) → Keeps n (return_value t)
  Keeps-return_value Token.number =
      Keeps-bind n _ _ (Keeps-emit _)
        (λ a. record { at = λ w s. (Keeps-emit (to_i8 (num_of w.tok.value))).at w s })
  Keeps-return_value Token.str =
      Keeps-bind n alloc_symbol _ Keeps-alloc_symbol
        (λ sym. Keeps-bind n _ _ (Keeps-emit _) (λ a. Keeps-emit _))
  Keeps-return_value _ = Keeps-stop n fail refl

  pub Keeps-parse_return : Keeps n parse_return
  unfolding parse_return
  Keeps-parse_return =
      Keeps-bind n nom _ Keeps-nom
        (λ a. record { at = λ w s. (Keeps-return_value w.tok.token).at w s })

  dupped-Survives : (w : Work) (r : Option CStr × Mem) → IsSound n w → Survives n (dupped w r)
  unfolding pending
  dupped-Survives w (none, m) s =
      survives (err enomem)
        (record { size = s.size; left = s.left; queue = s.queue; table = s.table })
        (λ f. absurd (cc f))
  dupped-Survives w (some c, m) s =
      survives (ok tt) (record { size = s.size; left = s.left; queue = s.queue; table = s.table })
        (λ f. absurd (cc f))

  Keeps-dup_ident : Keeps n dup_ident
  unfolding dup_ident
  Keeps-dup_ident = record { at = λ w s. dupped-Survives w _ s }

  Keeps-enter_func : Keeps n enter_func
  unfolding enter_func
  Keeps-enter_func = record {
    at = λ w s.
        survives (ok tt) (record { size = s.size; left = s.left; queue = s.queue; table = s.table })
          (λ f. absurd (cc f));
  }

  Keeps-check_type : (t : IType) → Keeps n (check_type t)
  unfolding check_type
  Keeps-check_type bad_type = Keeps-print (stop fail) (Keeps-stop n fail refl)
  Keeps-check_type _ = Keeps-pure n tt

  pub Keeps-parse_proc : Keeps n parse_proc
  unfolding parse_proc
  Keeps-parse_proc =
      search
        (
          Keeps-bind, Keeps-must, Keeps-dup_ident, Keeps-parse_expect, Keeps-parse_type,
          Keeps-check_type, Keeps-enter_func,
        )
        depth 20
