-- ===== src/Omar/Layout.antt =====
-- Proofs on the layout of what `file_push` of src/tools/omar/omar.c writes.
use l5lunos.Prelude.{
  ℕ, zero, suc, ◌+◌, ◌-◌, ◌%◌, ◌^◌, ◌≤◌, ◌<◌, ◌≡◌, refl, sym, ap, ◌∙◌, inl, inr, Bool-cases, Bool,
  true, false, some, List, [], ◌∷◌, ◌++◌, ◌==◌, arith, Bytes, same_text, same_text_iff, length,
  length-append, length-replicate, append_assoc, take, drop, drop_nil,
}
use l5lunos.Prelude.Int8.{ℤ, pos, negsuc}
use l5lunos.Str.Compare.{strcmp}
use l5lunos.Str.Compare.Order.{IsText, strcmp_iff}
use l5lunos.Omar.Header.{sizeof_hdr, block_size, get_hdr, get32-put32}
use l5lunos.Omar.Pack.{reg_pad, HostFile, hdr_of, body_bytes, file_push}
use l5lunos.Omar.Initrd.{block_up, is_zero, c_string, next_off}

-- A directory gives no data, and a file gives as much as its size says, which is not 0.
abbrev pub Gives : Bool → ℕ → Bytes → Type 0
Gives true size contents = contents ≡ []
Gives false size contents = (size ≡ length contents) × (0 < size)

-- What `file_push` can pack: the name fits its length's byte, and the numbers fit their words.
pub record IsPackable (f : HostFile) : Type 0 where
  pub text : IsText f.name
  pub short : length f.name ≤ 255
  pub mode : f.mode < 2 ^ 32
  pub size : f.size < 2 ^ 32
  pub gives : Gives f.is_dir f.size f.contents

abbrev pub AllPackable : List HostFile → Type 0
AllPackable [] = Unit
AllPackable (f ∷ fs) = IsPackable f × AllPackable fs

pub c_string-text : (s : Bytes) → IsText s → c_string s ≡ s
unfolding c_string
c_string-text [] t = refl
c_string-text (c ∷ s) t =
    let e : (c == 0) ≡ false = ground (arith, t.0) in simp e (ap (λ l. c ∷ l) (c_string-text s t.1))

pub drop-length-append : (xs ys : Bytes) (n : ℕ) → n ≡ length xs → drop n (xs ++ ys) ≡ ys
drop-length-append [] ys zero e = refl
drop-length-append [] ys (suc n) e = absurd (omega (arith, e))
drop-length-append (x ∷ xs) ys zero e = absurd (omega (arith, e))
drop-length-append (x ∷ xs) ys (suc n) e = drop-length-append xs ys n (omega (arith, e))

take_all : (xs : Bytes) (n : ℕ) → n ≡ length xs → take n xs ≡ xs
take_all [] zero e = refl
take_all [] (suc n) e = absurd (omega (arith, e))
take_all (x ∷ xs) zero e = absurd (omega (arith, e))
take_all (x ∷ xs) (suc n) e = ap (λ l. x ∷ l) (take_all xs n (omega (arith, e)))

-- The names are the same exactly where `strcmp` gives 0.
pub is_zero-strcmp : (s t : Bytes) → IsText s → IsText t → is_zero (strcmp s t) ≡ same_text s t
is_zero-strcmp s t v w = elim (Bool-cases (same_text s t)) [
  | inl e ↦ rw (e, (strcmp_iff s t v w).1 ((same_text_iff s t).0 e))
  | inr e ↦ elim (Bool-cases (is_zero (strcmp s t))) [
    | inl z ↦
        let same : s ≡ t = (strcmp_iff s t v w).0 (zero_of (strcmp s t) z) in
        absurd (ground (arith, e, (same_text_iff s t).1 same))
    | inr n ↦ n ∙ sym e
  ]
]
  where
    zero_of : (z : ℤ) → is_zero z ≡ true → z ≡ pos 0
    zero_of (pos n) h = ground arith
    zero_of (negsuc n) h = cc

pub whole_contents :
    (b : Bool) (n : ℕ) (c : Bytes) → b ≡ false → Gives b n c → (n ≡ length c) × (0 < n)
whole_contents true n c e g = cc e
whole_contents false n c e g = g

pub no_contents : (b : Bool) (n : ℕ) (c : Bytes) → b ≡ true → Gives b n c → c ≡ []
no_contents true n c e g = g
no_contents false n c e g = cc e

length-reg_pad : (n : ℕ) → n + length (reg_pad n) ≡ block_up n
length-reg_pad n = elim (Bool-cases (n % block_size == 0)) [
  | inl e ↦ simp e (ground arith)
  | inr e ↦ simp e (ground (arith, length-replicate {A = ℕ} (block_size - n % block_size) 0))
]

-- The next header stands behind the body.
block_length :
    (f : HostFile)
    → IsPackable f
    → sizeof_hdr + (length f.name + length (body_bytes f)) ≡ next_off (hdr_of f)
unfolding body_bytes
block_length f p = elim (Bool-cases f.is_dir) [
  | inl d ↦ simp d (
      omega (
        arith,
        p.short,
        length-replicate {A = ℕ} (block_size - (sizeof_hdr + length f.name % 256) % block_size) 0,
      ))
  | inr r ↦
      let g = whole_contents f.is_dir f.size f.contents r p.gives in
      let n : (length f.contents == 0) ≡ false = ground (arith, g.0, g.1) in
      let k : length f.name % 256 ≡ length f.name = omega (arith, p.short) in
      let s : f.size % 2 ^ 32 ≡ f.size = omega (arith, p.size) in
      let pad = reg_pad (sizeof_hdr + (length f.name + f.size)) in
      simp (r, n, k, s)
        (omega (
          arith,
          g.0,
          length-append f.contents pad,
          length-reg_pad (sizeof_hdr + (length f.name + f.size)),
        ))
]

named : (f : HostFile) → IsPackable f → take (length f.name % 256) f.name ≡ f.name
named f p =
    let k : length f.name % 256 ≡ length f.name = omega (arith, p.short) in
    take_all f.name (length f.name % 256) k

drop_add : (a b : ℕ) (xs : Bytes) → drop (a + b) xs ≡ drop b (drop a xs)
drop_add zero b xs = ap (λ n. drop n xs) (omega arith)
drop_add (suc a) b [] = drop_nil (suc a + b) ∙ sym (drop_nil b)
drop_add (suc a) b (x ∷ xs) =
    let e : suc a + b ≡ suc (a + b) = omega arith in ap (λ n. drop n (x ∷ xs)) e ∙ drop_add a b xs

drop_hdr :
    (f : HostFile) (rest : Bytes) (m : ℕ)
    → IsPackable f
    → drop (sizeof_hdr + m) (file_push f rest) ≡ drop m (f.name ++ (body_bytes f ++ rest))
unfolding file_push
drop_hdr f rest m p =
    drop_add sizeof_hdr m (file_push f rest)
    ∙ ap (λ l. drop m (l ++ (body_bytes f ++ rest))) (named f p)

pub drop-file_push :
    (f : HostFile) (rest : Bytes)
    → IsPackable f
    → drop (next_off (hdr_of f)) (file_push f rest) ≡ rest
drop-file_push f rest p =
    ap (λ n. drop n (file_push f rest)) (sym (block_length f p))
    ∙ drop_hdr f rest (length f.name + length (body_bytes f)) p
    ∙ ap (λ l. drop (length f.name + length (body_bytes f)) l)
        (sym (append_assoc f.name (body_bytes f) rest))
    ∙ drop-length-append (f.name ++ body_bytes f) rest (length f.name + length (body_bytes f))
        (omega (arith, length-append f.name (body_bytes f)))

pub hdr_of-get_hdr :
    (f : HostFile) (rest : Bytes)
    → IsPackable f
    → get_hdr (drop 4 (file_push f rest)) ≡ some (hdr_of f, f.name ++ (body_bytes f ++ rest))
unfolding file_push get_hdr
hdr_of-get_hdr f rest p =
    rw
      (
        named f p,
        get32-put32 (f.size % 2 ^ 32) (omega arith),
        get32-put32 (f.mode % 2 ^ 32) (omega arith),
      )
      refl
