-- ===== src/Str/Itoa/Reverse.antt =====
-- Proofs on the loop of src/sys/lib/string/itoa.c that turns the text in the buffer round.
use mathlib.Core.List.{reverse, reverse-append, reverse-cons}
use l5lunos.Prelude.{
  ℕ, zero, suc, ◌+◌, ◌-◌, ◌≤◌, ◌≡◌, refl, sym, ap, ◌∙◌, [], ◌∷◌, ◌++◌, append_assoc, append-nil,
  arith, Bytes, length, length-append, get_or, set, snoc-append, true, ltb, lt→ltb,
}
use l5lunos.Str.Itoa.{swap_bytes, unreverse, unreversed}

get_or-append :
    (pre : Bytes) (x : ℕ) (post : Bytes) (j : ℕ) → j ≡ length pre → get_or (pre ++ x ∷ post) j 0 ≡ x
get_or-append [] x post zero e = refl
get_or-append [] x post (suc j) e = absurd (omega (arith, e))
get_or-append (y ∷ pre) x post zero e = absurd (omega (arith, e))
get_or-append (y ∷ pre) x post (suc j) e = get_or-append pre x post j (omega (arith, e))

set-append :
    (pre : Bytes) (x v : ℕ) (post : Bytes) (j : ℕ)
    → j ≡ length pre
    → set (pre ++ x ∷ post) j v ≡ pre ++ v ∷ post
set-append [] x v post zero e = refl
set-append [] x v post (suc j) e = absurd (omega (arith, e))
set-append (y ∷ pre) x v post zero e = absurd (omega (arith, e))
set-append (y ∷ pre) x v post (suc j) e =
    ap (λ l. y ∷ l) (set-append pre x v post j (omega (arith, e)))

-- A list seen from both ends.
data Ends : Bytes → Type 0 where
  no_byte : Ends []
  one_byte : (x : ℕ) → Ends (x ∷ [])
  two_bytes : (x : ℕ) (mid : Bytes) (y : ℕ) → Ends (x ∷ mid ++ y ∷ [])

Ends-cons : (x : ℕ) {l : Bytes} → Ends l → Ends (x ∷ l)
Ends-cons x no_byte = one_byte x
Ends-cons x (one_byte y) = two_bytes x [] y
Ends-cons x (two_bytes y mid z) = two_bytes x (y ∷ mid) z

ends : (l : Bytes) → Ends l
ends [] = no_byte
ends (x ∷ l) = Ends-cons x (ends l)

swap_bytes-ends :
    (pre : Bytes) (x : ℕ) (mid : Bytes) (y : ℕ) (post : Bytes) (j i : ℕ)
    → j ≡ length pre
    → i ≡ suc (j + length mid)
    → swap_bytes (pre ++ (x ∷ mid ++ y ∷ post)) j i ≡ pre ++ (y ∷ mid ++ x ∷ post)
swap_bytes-ends pre x mid y post j i e k =
    rw
      (
        last,
        get_or-append pre x (mid ++ y ∷ post) j e,
        set-append pre x y (mid ++ y ∷ post) j e,
        sym (append_assoc pre (y ∷ mid) (y ∷ post)),
        set-append (pre ++ y ∷ mid) y x post i (len y),
      )
      (append_assoc pre (y ∷ mid) (x ∷ post))
  where
    len : (z : ℕ) → i ≡ length (pre ++ z ∷ mid)
    len z = omega (arith, e, k, length-append pre (z ∷ mid))

    last : get_or (pre ++ (x ∷ mid ++ y ∷ post)) i 0 ≡ y
    last =
        ap (λ l. get_or l i 0) (sym (append_assoc pre (x ∷ mid) (y ∷ post)))
        ∙ get_or-append (pre ++ x ∷ mid) y post i (len x)

reverse-ends :
    (x : ℕ) (mid : Bytes) (y : ℕ) → reverse (x ∷ mid ++ y ∷ []) ≡ y ∷ reverse mid ++ x ∷ []
reverse-ends x mid y =
    reverse-cons x (mid ++ y ∷ []) ∙ ap (λ l. l ++ x ∷ []) (reverse-append mid (y ∷ []))

-- The loop turns the window from `j` to `i` round, and leaves what is outside it.
unreverse-Ends :
    (f j i : ℕ) (pre : Bytes) {mid : Bytes} (post : Bytes)
    → length mid ≤ f
    → j ≡ length pre
    → suc i ≡ j + length mid
    → Ends mid
    → unreverse f j i (pre ++ (mid ++ post)) ≡ pre ++ (reverse mid ++ post)
unfolding unreverse
unreverse-Ends zero j i pre post h e k no_byte = refl
unreverse-Ends zero j i pre post h e k (one_byte x) = absurd (omega (arith, h))
unreverse-Ends zero j i pre post h e k (two_bytes x mid y) = absurd (omega (arith, h))
unreverse-Ends (suc f) j i pre post h e k no_byte = ground (arith, k)
unreverse-Ends (suc f) j i pre post h e k (one_byte x) = ground (arith, k)
unreverse-Ends (suc f) j i pre post h e k (two_bytes x mid y) =
    let n = length-append mid (y ∷ []) in
    let lt : ltb j i ≡ true = lt→ltb j i (omega (arith, k, n)) in
    let e' : j + 1 ≡ length (pre ++ y ∷ []) = omega (arith, e, length-append pre (y ∷ [])) in
    let ih =
      unreverse-Ends f (j + 1) (i - 1) (pre ++ y ∷ []) (x ∷ post) (omega (arith, h, n)) e'
        (omega (arith, k, n)) (ends mid) in
    rw
      (
        lt,
        append_assoc mid (y ∷ []) post,
        swap_bytes-ends pre x mid y post j i e (omega (arith, k, n)),
        sym (snoc-append pre y (mid ++ x ∷ post)),
        ih,
        snoc-append pre y (reverse mid ++ x ∷ post),
        reverse-ends x mid y,
      )
      (ap (λ l. pre ++ y ∷ l) (sym (append_assoc (reverse mid) (x ∷ []) post)))

-- On every buffer, the loop that exchanges the ends gives the bytes in reverse.
pub unreversed-reverse : (buf : Bytes) → unreversed buf ≡ reverse buf
unfolding unreversed unreverse
unreversed-reverse [] = refl
unreversed-reverse (x ∷ buf) =
    let r =
      unreverse-Ends (length (x ∷ buf)) 0 (length (x ∷ buf) - 1) [] [] (omega arith) refl
        (omega arith) (ends (x ∷ buf)) in
    ap (unreverse (length (x ∷ buf)) 0 (length (x ∷ buf) - 1)) (sym (append-nil (x ∷ buf)))
    ∙ r
    ∙ append-nil (reverse (x ∷ buf))
