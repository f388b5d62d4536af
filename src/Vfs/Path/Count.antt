-- ===== src/Vfs/Path/Count.antt =====
-- Proofs on `vfs_cmp_cnt` of src/sys/os/vfs_subr.c.
use l5lunos.Prelude.{
  ℕ, zero, suc, ◌+◌, ◌≤◌, ◌<◌, ◌≡◌, refl, ap, ◌∙◌, inl, inr, Bool-cases, Bool, true, false, not,
  ◌&&◌, some, List, [], ◌∷◌, ◌++◌, ◌==◌, if◌then◌else◌, arith, Bytes, length, length-append,
}
use l5lunos.Prelude.Errno.{Ret, ok, err, einval}
use l5lunos.Vfs.Path.{
  vfs_pathc_valid, skip_slashes, scan_name, after_name, count_names, vfs_cmp_cnt,
}

-- A component: it has a character, and no '/'.
abbrev pub NoSlash : Bytes → Type 0
NoSlash [] = Unit
NoSlash (c ∷ s) = ((c == b'/') ≡ false) × NoSlash s

pub record IsName (s : Bytes) : Type 0 where
  pub whole : NoSlash s
  pub filled : 0 < length s

abbrev pub AllNames : List Bytes → Type 0
AllNames [] = Unit
AllNames (c ∷ cs) = IsName c × AllNames cs

-- A path that is made of components.
unfoldable pub path_of : List Bytes → Bytes
path_of [] = []
path_of (c ∷ cs) = b'/' ∷ (c ++ path_of cs)

-- Whether the last character of a component is one that `vfs_pathc_valid` takes.
unfoldable pub is_good : Bool → Bytes → Bool
is_good good [] = good
is_good good (c ∷ s) = is_good (vfs_pathc_valid c) s

unfoldable pub all_good : List Bytes → Bool
all_good [] = true
all_good (c ∷ cs) = is_good true c && all_good cs

pub skip_slashes-name : (s rest : Bytes) → IsName s → skip_slashes (s ++ rest) ≡ s ++ rest
unfolding skip_slashes
skip_slashes-name [] rest n = absurd (omega (arith, n.filled))
skip_slashes-name (c ∷ s) rest n = let e = n.whole.0 in rw e refl

not-not : (b : Bool) → not (not b) ≡ b
not-not true = refl
not-not false = refl

scan_name-name :
    (bad : Bool) (s : Bytes) (cs : List Bytes)
    → NoSlash s
    → scan_name bad (s ++ path_of cs) ≡ (not (is_good (not bad) s), path_of cs)
unfolding scan_name path_of is_good
scan_name-name true [] [] n = refl
scan_name-name false [] [] n = refl
scan_name-name true [] (c ∷ cs) n = refl
scan_name-name false [] (c ∷ cs) n = refl
scan_name-name bad (c ∷ s) cs n = rw (n.0) (
    scan_name-name (not (vfs_pathc_valid c)) s cs n.1
    ∙ ap (λ g. (not (is_good g s), path_of cs)) (not-not (vfs_pathc_valid c)))

is_good-filled : (a b : Bool) (s : Bytes) → 0 < length s → is_good a s ≡ is_good b s
unfolding is_good
is_good-filled a b [] h = absurd (omega (arith, h))
is_good-filled a b (c ∷ s) h = refl

-- The answer for components, the first of which is at hand.
abbrev answer : ℕ → Bytes → List Bytes → Ret ℕ
answer cnt c cs = if all_good (c ∷ cs) then ok (cnt + length (c ∷ cs)) else err einval

read_name :
    (bad : Bool) (c : Bytes) (cs : List Bytes)
    → IsName c
    → scan_name bad (skip_slashes (c ++ path_of cs)) ≡ (not (is_good true c), path_of cs)
read_name bad c cs n =
    ap (scan_name bad) (skip_slashes-name c (path_of cs) n)
    ∙ scan_name-name bad c cs n.whole
    ∙ ap (λ g. (not g, path_of cs)) (is_good-filled (not bad) true c n.filled)

-- What the rounds on `fuel` come to.
abbrev Counts : ℕ → Type 0
Counts fuel =
    (bad : Bool) (cnt : ℕ) (c : Bytes) (cs : List Bytes)
    → IsName c
    → AllNames cs
    → length cs < fuel
    → count_names fuel bad cnt (c ++ path_of cs) ≡ answer cnt c cs

after_name-names :
    (fuel cnt : ℕ) (c : Bytes) (cs : List Bytes)
    → Counts fuel
    → AllNames cs
    → length cs ≤ fuel
    → after_name (λ b q. count_names fuel b (cnt + 1) q) cnt (not (is_good true c), path_of cs)
      ≡ answer cnt c cs
unfolding path_of all_good
after_name-names fuel cnt c [] ih m h = elim (Bool-cases (is_good true c)) [
  | inl g ↦ rw g refl
  | inr g ↦ rw g refl
]
after_name-names fuel cnt c (d ∷ cs) ih m h = elim (Bool-cases (is_good true c)) [
  | inl g ↦
      let e : cnt + 1 + suc (length cs) ≡ cnt + suc (suc (length cs)) = omega arith in
      rw g (
        ih false (cnt + 1) d cs m.0 m.1 (omega (arith, h))
        ∙ ap (λ n. if all_good (d ∷ cs) then ok n else err einval) e)
  | inr g ↦ rw g refl
]

count_names-names : (fuel : ℕ) → Counts fuel
unfolding count_names
count_names-names zero bad cnt c cs n m h = absurd (omega (arith, h))
count_names-names (suc fuel) bad cnt [] cs n m h = absurd (omega (arith, n.filled))
count_names-names (suc fuel) bad cnt (x ∷ s) cs n m h =
    ap (after_name (λ b q. count_names fuel b (cnt + 1) q) cnt) (read_name bad (x ∷ s) cs n)
    ∙ after_name-names fuel cnt (x ∷ s) cs (count_names-names fuel) m (omega (arith, h))

pub length-path_of : (cs : List Bytes) → length cs ≤ length (path_of cs)
unfolding path_of
length-path_of [] = omega arith
length-path_of (c ∷ cs) = omega (arith, length-path_of cs, length-append c (path_of cs))

-- On a path of one component or more, each with a character and without '/', `vfs_cmp_cnt` gives the number of
-- components, or EINVAL where the last character of one is not valid. What `error` held before
-- does not matter.
pub vfs_cmp_cnt-path_of :
    (bad : Bool) (c : Bytes) (cs : List Bytes)
    → IsName c
    → AllNames cs
    → vfs_cmp_cnt bad (some (path_of (c ∷ cs)))
      ≡ (if all_good (c ∷ cs) then ok (length (c ∷ cs)) else err einval)
unfolding vfs_cmp_cnt path_of count_names skip_slashes
vfs_cmp_cnt-path_of bad [] cs n m = absurd (omega (arith, n.filled))
vfs_cmp_cnt-path_of bad (x ∷ s) cs n m =
    let tail = s ++ path_of cs in
    let e : suc (length tail) + 1 ≡ suc (suc (length tail)) = omega arith in
    let l : length cs ≤ suc (length tail) =
      omega (arith, length-path_of cs, length-append s (path_of cs)) in
    rw e (
      ap (after_name (λ b q. count_names (suc (length tail)) b (0 + 1) q) 0)
        (read_name bad (x ∷ s) cs n)
      ∙ after_name-names (suc (length tail)) 0 (x ∷ s) cs (count_names-names (suc (length tail))) m
          l
      ∙ ap (λ n. if all_good ((x ∷ s) ∷ cs) then ok n else err einval) zero_count)
  where
    zero_count : 0 + suc (length cs) ≡ suc (length cs)
    zero_count = omega arith
