-- ===== src/Str/Compare/Order.antt =====
-- Proofs on the comparisons of src/sys/lib/string.
use l5lunos.Prelude.{
  ℕ, zero, suc, ◌≤◌, ◌≡◌, ◌≢◌, ◌↔◌, refl, sym, ap, ◌∙◌, inl, inr, Bool-cases, some, [], ◌∷◌, ◌==◌,
  ==_iff, if◌then◌else◌, arith, Bytes, length, take,
}
use l5lunos.Prelude.Int8.{pos}
use l5lunos.Str.Compare.{char_diff, strcmp, strncmp, memcmp}

-- No character is NUL.
abbrev pub IsText : Bytes → Type 0
IsText [] = Unit
IsText (c ∷ s) = (c ≢ 0) × IsText s

char_diff-zero : (a b : ℕ) → char_diff a b ≡ pos 0 → a ≡ b
unfolding char_diff
char_diff-zero a b h = ground arith

strcmp_refl : (s : Bytes) → strcmp s s ≡ pos 0
unfolding strcmp
strcmp_refl [] = refl
strcmp_refl (a ∷ s) = ground (arith, strcmp_refl s)

strcmp-equal : (s t : Bytes) → IsText s → IsText t → strcmp s t ≡ pos 0 → s ≡ t
unfolding strcmp
strcmp-equal [] [] v w h = refl
strcmp-equal [] (b ∷ t) v w h = absurd (w.0 (sym (char_diff-zero 0 b h)))
strcmp-equal (a ∷ s) [] v w h = absurd (v.0 (char_diff-zero a 0 h))
strcmp-equal (a ∷ s) (b ∷ t) v w h = elim (Bool-cases (a == b)) [
  | inl e ↦ rw ((==_iff a b).0 e) (ap (λ l. b ∷ l) (strcmp-equal s t v.1 w.1 (simp e at h)))
  | inr e ↦ absurd (ground (arith, e, char_diff-zero a b (simp e at h)))
]

-- `strcmp` gives 0 for two strings without a NUL exactly where they are the same.
pub strcmp_iff : (s t : Bytes) → IsText s → IsText t → (strcmp s t ≡ pos 0) ↔ (s ≡ t)
strcmp_iff s t v w = (strcmp-equal s t v w, λ e. ap (λ x. strcmp s x) (sym e) ∙ strcmp_refl s)

-- `strncmp` compares the first `n` characters as `strcmp` does.
pub strncmp-take : (s t : Bytes) (n : ℕ) → strncmp s t n ≡ strcmp (take n s) (take n t)
unfolding strncmp strcmp
strncmp-take s t zero = refl
strncmp-take [] [] (suc n) = refl
strncmp-take [] (b ∷ t) (suc n) = refl
strncmp-take (a ∷ s) [] (suc n) = refl
strncmp-take (a ∷ s) (b ∷ t) (suc n) =
    ap (λ r. if a == b then r else char_diff a b) (strncmp-take s t n)

-- `memcmp` on two blocks of at least `n` bytes reads no further, and compares their first `n` bytes
-- as `strcmp` does.
pub memcmp-take :
    (s t : Bytes) (n : ℕ)
    → n ≤ length s
    → n ≤ length t
    → memcmp s t n ≡ some (strcmp (take n s) (take n t))
unfolding memcmp strcmp
memcmp-take s t zero h k = refl
memcmp-take [] t (suc n) h k = absurd (omega arith)
memcmp-take (a ∷ s) [] (suc n) h k = absurd (omega arith)
memcmp-take (a ∷ s) (b ∷ t) (suc n) h k = elim (Bool-cases (a == b)) [
  | inl e ↦ simp e (memcmp-take s t n (omega (arith, h)) (omega (arith, k)))
  | inr e ↦ simp e refl
]
