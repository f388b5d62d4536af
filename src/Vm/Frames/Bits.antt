-- ===== src/Vm/Frames/Bits.antt =====
-- Proofs on the bits that the frame allocator, src/sys/vm/vm_seg.c, sets and clears.
use l5lunos.Prelude.{
  ℕ, zero, suc, ◌+◌, ◌≤◌, ◌<◌, ◌≡◌, refl, ◌∙◌, Bool, true, ◌&&◌, some, List, [], ◌∷◌, leb, ltb,
  ◌==◌, if◌then◌else◌, arith, get_elem?, set, length, length-set,
}
use l5lunos.Vm.Frames.{write_bit, write_bits}

-- Whether frame `k` is one of `n` frames from `i` on.
abbrev pub within : ℕ → ℕ → ℕ → Bool
within i n k = leb i k && ltb k (i + n)

get_elem?-set :
    (bm : List Bool) (i k : ℕ) (v : Bool)
    → i < length bm
    → get_elem? (set bm i v) k ≡ (if i == k then some v else get_elem? bm k)
get_elem?-set [] i k v h = absurd (omega arith)
get_elem?-set (b ∷ bm) zero zero v h = refl
get_elem?-set (b ∷ bm) zero (suc k) v h = ground arith
get_elem?-set (b ∷ bm) (suc i) zero v h = ground arith
get_elem?-set (b ∷ bm) (suc i) (suc k) v h = get_elem?-set bm i k v (omega arith) ∙ ground arith

-- Inside the bitmap the loop writes its frames and no other.
pub write_bits_lem :
    (v : Bool) (n i : ℕ) (bm : List Bool)
    → i + n ≤ length bm
    → (bm' : List Bool) × (write_bits v n i bm ≡ some bm')
      × (length bm' ≡ length bm)
      × ((k : ℕ) → get_elem? bm' k ≡ (if within i n k then some v else get_elem? bm k))
unfolding write_bits write_bit
write_bits_lem v zero i bm h = (bm, refl, refl, λ k. ground arith)
write_bits_lem v (suc n) i bm h =
    let fits : ltb i (length bm) ≡ true = ground arith in
    let (bm', e, l, f) =
      write_bits_lem v n (i + 1) (set bm i v) (omega (arith, length-set bm i v)) in
    (
      bm',
      simp fits e,
      l ∙ length-set bm i v,
      λ k. f k ∙ ground (arith, get_elem?-set bm i k v (omega arith)),
    )

-- Two bitmaps with the same bits are the same.
pub bits_ext : (a b : List Bool) → ((k : ℕ) → get_elem? a k ≡ get_elem? b k) → a ≡ b
bits_ext [] [] h = refl
bits_ext [] (y ∷ b) h = cc (h 0)
bits_ext (x ∷ a) [] h = cc (h 0)
bits_ext (x ∷ a) (y ∷ b) h = let e : x ≡ y = cc (h 0) in let f = bits_ext a b (λ k. h (suc k)) in cc
