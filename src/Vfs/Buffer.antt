-- ===== src/Vfs/Buffer.antt =====
-- `memcpy` into a buffer and out of it. A copy that ends past the buffer is a fault, `none`.
use l5lunos.Prelude.{
  ◌∙◌, ◌⊎◌, inl, inr, ℕ, zero, suc, ◌+◌, ◌≤◌, ◌<◌, ◌≡◌, refl, sym, ap, Option, none, some, [], ◌∷◌,
  ◌++◌, leb, if◌then◌else◌, arith, Bytes, length, take, drop, drop_nil, take-length-append,
  get_elem?, length-append, length-take, length-drop,
}

abbrev pub pasted : ℕ → Bytes → Bytes → Bytes
pasted off src dest = take off dest ++ (src ++ drop (off + length src) dest)

unfoldable pub copy_in : ℕ → Bytes → Bytes → Option Bytes
copy_in off src dest =
    if leb (off + length src) (length dest) then some (pasted off src dest) else none

unfoldable pub copy_from : ℕ → ℕ → Bytes → Option Bytes
copy_from off n src = if leb (off + n) (length src) then some (take n (drop off src)) else none

pub length-pasted :
    (off : ℕ) (src dest : Bytes)
    → off + length src ≤ length dest
    → length (pasted off src dest) ≡ length dest
length-pasted off src dest h = omega (
  arith,
  length-append (take off dest) (src ++ drop (off + length src) dest),
  length-append src (drop (off + length src) dest),
  length-take off dest,
  length-drop (off + length src) dest,
)

pasted-cons :
    (off : ℕ) (src dest : Bytes) (x : ℕ) → pasted (suc off) src (x ∷ dest) ≡ x ∷ pasted off src dest
pasted-cons off src dest x =
    let e : suc off + length src ≡ suc (off + length src) = omega arith in rw e refl

-- What was copied in is read again.
pub window-pasted :
    (off : ℕ) (src dest : Bytes)
    → off ≤ length dest
    → take (length src) (drop off (pasted off src dest)) ≡ src
window-pasted zero src dest h = take-length-append src (drop (0 + length src) dest)
window-pasted (suc off) src [] h = absurd (omega (arith, h))
window-pasted (suc off) src (x ∷ dest) h =
    ap (λ l. take (length src) (drop (suc off) l)) (pasted-cons off src dest x)
    ∙ window-pasted off src dest (omega (arith, h))

-- The bytes before the window stay.
pub take-pasted :
    (off : ℕ) (src dest : Bytes)
    → off ≤ length dest
    → take off (pasted off src dest) ≡ take off dest
take-pasted zero src dest h = refl
take-pasted (suc off) src [] h = absurd (omega (arith, h))
take-pasted (suc off) src (x ∷ dest) h =
    ap (take (suc off)) (pasted-cons off src dest x)
    ∙ ap (λ l. x ∷ l) (take-pasted off src dest (omega (arith, h)))

drop-append : (xs ys : Bytes) → drop (length xs) (xs ++ ys) ≡ ys
drop-append [] ys = refl
drop-append (x ∷ xs) ys = drop-append xs ys

-- And so do those behind it.
pub drop-pasted :
    (off : ℕ) (src dest : Bytes)
    → off ≤ length dest
    → drop (off + length src) (pasted off src dest) ≡ drop (off + length src) dest
drop-pasted zero src dest h =
    let e : 0 + length src ≡ length src = omega arith in
    ap (λ n. drop n (src ++ drop (0 + length src) dest)) e
    ∙ drop-append src (drop (0 + length src) dest)
drop-pasted (suc off) src [] h = absurd (omega (arith, h))
drop-pasted (suc off) src (x ∷ dest) h =
    let e : suc off + length src ≡ suc (off + length src) = omega arith in
    rw (pasted-cons off src dest x, e) (drop-pasted off src dest (omega (arith, h)))

pub get_elem?-take : (n : ℕ) (xs : Bytes) (k : ℕ) → k < n → get_elem? (take n xs) k ≡ get_elem? xs k
get_elem?-take zero xs k h = absurd (omega (arith, h))
get_elem?-take (suc n) [] k h = refl
get_elem?-take (suc n) (x ∷ xs) zero h = refl
get_elem?-take (suc n) (x ∷ xs) (suc k) h = get_elem?-take n xs k (omega (arith, h))

behind :
    (src dest : Bytes) (k : ℕ)
    → length src ≤ k
    → get_elem? (src ++ drop (length src) dest) k ≡ get_elem? dest k
behind [] dest k h = refl
behind (y ∷ src) dest zero h = absurd (omega (arith, h))
behind (y ∷ src) [] (suc k) h =
    ap (λ l. get_elem? (src ++ l) k) (sym (drop_nil (length src)))
    ∙ behind src [] k (omega (arith, h))
behind (y ∷ src) (x ∷ dest) (suc k) h = behind src dest k (omega (arith, h))

-- The bytes outside of the window stay.
pub get_elem?-pasted :
    (off : ℕ) (src dest : Bytes) (k : ℕ)
    → off ≤ length dest
    → (k < off) ⊎ (off + length src ≤ k)
    → get_elem? (pasted off src dest) k ≡ get_elem? dest k
get_elem?-pasted zero src dest k h (inl l) = absurd (omega (arith, l))
get_elem?-pasted zero src dest k h (inr l) =
    let e : 0 + length src ≡ length src = omega arith in rw e (behind src dest k (omega (arith, l)))
get_elem?-pasted (suc off) src [] k h o = absurd (omega (arith, h))
get_elem?-pasted (suc off) src (x ∷ dest) zero h o =
    ap (λ l. get_elem? l 0) (pasted-cons off src dest x)
get_elem?-pasted (suc off) src (x ∷ dest) (suc k) h o =
    ap (λ l. get_elem? l (suc k)) (pasted-cons off src dest x)
    ∙ get_elem?-pasted off src dest k (omega (arith, h)) (ground (arith, o))
