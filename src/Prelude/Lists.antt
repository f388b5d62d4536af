-- ===== src/Prelude/Lists.antt =====
-- C arrays as lists with native indices, and texts as lists of bytes.
use Prim.Native.Nat.{ℕ, zero, suc, ◌+◌, ◌-◌, ◌≤◌, ◌<◌, min}
use Prim.Native.Char.{code}
use Prim.Native.String.{String}
use mathlib.Core.Path.{◌≡◌, refl, ap, ap₂}
use mathlib.Core.Bool.{Bool, true, false, ◌&&◌}
use mathlib.Core.Logic.{◌≢◌, ◌↔◌}
use mathlib.Core.List.{List, [], ◌∷◌, ◌++◌}
use mathlib.Core.Option.{Option, none, some}
use native.Mathlib.Omega.{arith}
use l5lunos.Prelude.Tests.{◌==◌}

abbrev pub Bytes : Type 0
Bytes = List ℕ

-- The bytes of a string literal of the source, without its NUL.
abbrev pub codes : String → Bytes
codes String.[] = []
codes (String.◌∷◌ c s) = code c ∷ codes s

-- `strcmp(a, b) == 0`, on texts that hold no NUL.
unfoldable pub same_text : Bytes → Bytes → Bool
same_text [] [] = true
same_text [] (y ∷ ys) = false
same_text (x ∷ xs) [] = false
same_text (x ∷ xs) (y ∷ ys) = x == y && same_text xs ys

pub same_text_iff : (xs ys : Bytes) → (same_text xs ys ≡ true) ↔ (xs ≡ ys)
unfolding same_text
same_text_iff [] [] = ground arith
same_text_iff [] (y ∷ ys) = ground arith
same_text_iff (x ∷ xs) [] = ground arith
same_text_iff (x ∷ xs) (y ∷ ys) = ground (arith, same_text_iff xs ys)

module _ {ℓ} {A : Type ℓ} where
  abbrev pub length : List A → ℕ
  length [] = 0
  length (x ∷ xs) = suc (length xs)

  abbrev pub get_elem? : List A → ℕ → Option A
  get_elem? [] i = none
  get_elem? (x ∷ xs) zero = some x
  get_elem? (x ∷ xs) (suc i) = get_elem? xs i

  abbrev pub get_or : List A → ℕ → A → A
  get_or [] i d = d
  get_or (x ∷ xs) zero d = x
  get_or (x ∷ xs) (suc i) d = get_or xs i d

  -- A write out of bounds changes nothing.
  abbrev pub set : List A → ℕ → A → List A
  set [] i v = []
  set (x ∷ xs) zero v = v ∷ xs
  set (x ∷ xs) (suc i) v = x ∷ set xs i v

  abbrev pub take : ℕ → List A → List A
  take zero xs = []
  take (suc n) [] = []
  take (suc n) (x ∷ xs) = x ∷ take n xs

  abbrev pub drop : ℕ → List A → List A
  drop zero xs = xs
  drop (suc n) [] = []
  drop (suc n) (x ∷ xs) = drop n xs

  abbrev pub replicate : ℕ → A → List A
  replicate zero a = []
  replicate (suc n) a = a ∷ replicate n a

module _ {ℓ} {A : Type ℓ} where
  pub length-append : (xs ys : List A) → length (xs ++ ys) ≡ length xs + length ys
  length-append [] ys = omega arith
  length-append (x ∷ xs) ys = omega (arith, length-append xs ys)

  pub length-set : (xs : List A) (i : ℕ) (v : A) → length (set xs i v) ≡ length xs
  length-set [] i v = refl
  length-set (x ∷ xs) zero v = refl
  length-set (x ∷ xs) (suc i) v = ap suc (length-set xs i v)

  pub length-take : (n : ℕ) (xs : List A) → length (take n xs) ≡ min n (length xs)
  length-take zero xs = omega arith
  length-take (suc n) [] = omega arith
  length-take (suc n) (x ∷ xs) = omega (arith, length-take n xs)

  pub length-drop : (n : ℕ) (xs : List A) → length (drop n xs) ≡ length xs - n
  length-drop zero xs = omega arith
  length-drop (suc n) [] = omega arith
  length-drop (suc n) (x ∷ xs) = omega (arith, length-drop n xs)

  pub length-replicate : (n : ℕ) (a : A) → length (replicate n a) ≡ n
  length-replicate zero a = refl
  length-replicate (suc n) a = ap suc (length-replicate n a)

  pub get_elem?-set_self :
      (xs : List A) (i : ℕ) (v : A) → i < length xs → get_elem? (set xs i v) i ≡ some v
  get_elem?-set_self [] i v h = absurd (omega arith)
  get_elem?-set_self (x ∷ xs) zero v h = refl
  get_elem?-set_self (x ∷ xs) (suc i) v h = get_elem?-set_self xs i v (omega arith)

  pub get_elem?-set_ne :
      (xs : List A) (i j : ℕ) (v : A) → i ≢ j → get_elem? (set xs i v) j ≡ get_elem? xs j
  get_elem?-set_ne [] i j v h = refl
  get_elem?-set_ne (x ∷ xs) zero zero v h = absurd (h refl)
  get_elem?-set_ne (x ∷ xs) zero (suc j) v h = refl
  get_elem?-set_ne (x ∷ xs) (suc i) zero v h = refl
  get_elem?-set_ne (x ∷ xs) (suc i) (suc j) v h = get_elem?-set_ne xs i j v (λ e. h (ap suc e))

  pub drop_nil : (n : ℕ) → drop {A = A} n [] ≡ []
  drop_nil zero = refl
  drop_nil (suc n) = refl

  pub drop-cons :
      (xs : List A) (i : ℕ) (d : A) → i < length xs → drop i xs ≡ get_or xs i d ∷ drop (suc i) xs
  drop-cons [] i d h = absurd (omega arith)
  drop-cons (x ∷ xs) zero d h = refl
  drop-cons (x ∷ xs) (suc i) d h = drop-cons xs i d (omega arith)

  -- A write just past a window extends it.
  pub take-drop-set :
      (xs : List A) (lo n i : ℕ) (v : A)
      → i ≡ lo + n
      → i < length xs
      → take (suc n) (drop lo (set xs i v)) ≡ take n (drop lo xs) ++ v ∷ []
  take-drop-set [] lo n i v e h = absurd (omega arith)
  take-drop-set (x ∷ xs) zero zero zero v e h = refl
  take-drop-set (x ∷ xs) zero zero (suc i) v e h = absurd (omega arith)
  take-drop-set (x ∷ xs) zero (suc n) zero v e h = absurd (omega arith)
  take-drop-set (x ∷ xs) zero (suc n) (suc i) v e h =
      ap (λ l. x ∷ l) (take-drop-set xs zero n i v (omega arith) (omega arith))
  take-drop-set (x ∷ xs) (suc lo) n zero v e h = absurd (omega arith)
  take-drop-set (x ∷ xs) (suc lo) n (suc i) v e h =
      take-drop-set xs lo n i v (omega arith) (omega arith)

  pub take-length-append : (xs ys : List A) → take (length xs) (xs ++ ys) ≡ xs
  take-length-append [] ys = refl
  take-length-append (x ∷ xs) ys = ap (λ l. x ∷ l) (take-length-append xs ys)

  -- A prefix of a prefix.
  pub take-take_prefix :
      (j k : ℕ) (l xs ys : List A) → take k l ≡ xs ++ ys → j ≡ length xs → take j l ≡ xs
  take-take_prefix zero k l [] ys h e = refl
  take-take_prefix zero k l (x ∷ xs) ys h e = absurd (omega arith)
  take-take_prefix (suc j) k l [] ys h e = absurd (omega arith)
  take-take_prefix (suc j) zero l (x ∷ xs) ys h e = cc
  take-take_prefix (suc j) (suc k) [] (x ∷ xs) ys h e = cc
  take-take_prefix (suc j) (suc k) (z ∷ l) (x ∷ xs) ys h e =
      ap₂ ◌∷◌ (cc h) (take-take_prefix j k l xs ys (cc h) (omega arith))

  pub snoc-append : (xs : List A) (y : A) (ys : List A) → (xs ++ y ∷ []) ++ ys ≡ xs ++ (y ∷ ys)
  snoc-append [] y ys = refl
  snoc-append (x ∷ xs) y ys = ap (λ l. x ∷ l) (snoc-append xs y ys)

  -- A window that is not empty begins with the element at its lower end.
  pub window-cons :
      (xs : List A) (a b : ℕ) (d : A)
      → a < b
      → a < length xs
      → take (b - a) (drop a xs) ≡ get_or xs a d ∷ take (b - suc a) (drop (suc a) xs)
  window-cons xs a b d h k = rw (one_more, drop-cons xs a d k)
    where
      one_more : b - a ≡ suc (b - suc a)
      one_more = omega arith

  pub window-nil : (xs : List A) (a b : ℕ) → b ≤ a → take (b - a) (drop a xs) ≡ []
  window-nil xs a b h = rw none_left
    where
      none_left : b - a ≡ 0
      none_left = omega arith
