-- ===== src/Omar/Read.antt =====
-- Proofs on `initrd_read` of src/sys/os/os_omar.c.
use l5lunos.Prelude.{
  ℕ, zero, suc, ◌+◌, ◌-◌, ◌≤◌, ◌<◌, ◌≡◌, refl, ap, ◌∙◌, inl, inr, Bool-cases, true, false, some, [],
  ◌∷◌, ◌++◌, leb, if◌then◌else◌, arith, Bytes, length, append-nil, get_elem?, get_or, take, drop,
  drop-cons, snoc-append,
}
use l5lunos.Prelude.Errno.{ok}
use l5lunos.Omar.Initrd.{InitrdNode, copy_out, read_len, initrd_read}

get_elem?-get_or : (xs : Bytes) (i : ℕ) → i < length xs → get_elem? xs i ≡ some (get_or xs i 0)
get_elem?-get_or [] i h = absurd (omega arith)
get_elem?-get_or (x ∷ xs) zero h = refl
get_elem?-get_or (x ∷ xs) (suc i) h = get_elem?-get_or xs i (omega arith)

-- The byte at `i` moves from the window into the buffer.
step :
    (np : InitrdNode) (k m : ℕ) (out : Bytes)
    → k < length np.bytes
    → (out ++ get_or np.bytes k 0 ∷ []) ++ take m (drop (suc k) np.bytes)
      ≡ out ++ take (suc m) (drop k np.bytes)
step np k m out h =
    rw (drop-cons np.bytes k 0 h)
      (snoc-append out (get_or np.bytes k 0) (take m (drop (suc k) np.bytes)))

copy_out-fits :
    (n i off : ℕ) (np : InitrdNode) (len : ℕ) (out : Bytes)
    → i + n + off ≤ np.size
    → np.size ≤ length np.bytes
    → copy_out n i off np len out ≡ some (len, out ++ take n (drop (off + i) np.bytes))
unfolding copy_out
copy_out-fits zero i off np len out h b = rw (append-nil out) refl
copy_out-fits (suc n) i off np len out h b =
    let t : leb np.size (i + off) ≡ false = ground arith in
    let k : off + (i + 1) ≡ suc (off + i) = omega arith in
    simp (t, get_elem?-get_or np.bytes (off + i) (omega arith))
      (copy_out-fits n (i + 1) off np len (out ++ get_or np.bytes (off + i) 0 ∷ []) (omega arith) b
        ∙ ap
            (λ j. some (len, (out ++ get_or np.bytes (off + i) 0 ∷ []) ++ take n (drop j np.bytes)))
            k
        ∙ ap (λ l. some (len, l)) (step np (off + i) n out (omega arith)))

copy_out-ends :
    (n i off : ℕ) (np : InitrdNode) (len : ℕ) (out : Bytes)
    → 0 < n
    → np.size < i + n + off
    → np.size ≤ length np.bytes
    → copy_out n i off np len out
      ≡ some (0, out ++ take (np.size - (off + i)) (drop (off + i) np.bytes))
unfolding copy_out
copy_out-ends zero i off np len out z h b = absurd (omega arith)
copy_out-ends (suc n) i off np len out z h b = elim (Bool-cases (leb np.size (i + off))) [
  | inl t ↦ let k : np.size - (off + i) ≡ 0 = ground (arith, t) in rw (t, k, append-nil out) refl
  | inr t ↦
      let k : off + (i + 1) ≡ suc (off + i) = omega arith in
      let m : np.size - (off + i) ≡ suc (np.size - suc (off + i)) = ground (arith, t) in
      let l : off + i < length np.bytes = ground (arith, t) in
      let z' : 0 < n = ground (arith, t) in
      simp (t, get_elem?-get_or np.bytes (off + i) l, m)
        (copy_out-ends n (i + 1) off np len (out ++ get_or np.bytes (off + i) 0 ∷ []) z'
            (omega arith) b
          ∙ ap
              (λ j. some (
                0,
                (out ++ get_or np.bytes (off + i) 0 ∷ []) ++ take (np.size - j) (drop j np.bytes),
              ))
              k
          ∙ ap (λ l. some (0, l)) (step np (off + i) (np.size - suc (off + i)) out l))
]

copy_out-cases :
    (n off : ℕ) (np : InitrdNode)
    → n ≤ np.size
    → np.size ≤ length np.bytes
    → copy_out n 0 off np n [] ≡ (
        if leb (off + n) np.size
        then some (n, take n (drop off np.bytes))
        else some (0, take (np.size - off) (drop off np.bytes)))
unfolding copy_out
copy_out-cases zero off np h b = elim (Bool-cases (leb (off + 0) np.size)) [
  | inl t ↦ rw t refl
  | inr t ↦ let k : np.size - off ≡ 0 = ground (arith, t) in rw (t, k) refl
]
copy_out-cases (suc n) off np h b =
    let k : off + 0 ≡ off = omega arith in
    elim (Bool-cases (leb (off + suc n) np.size)) [
      | inl t ↦ rw t (
          copy_out-fits (suc n) 0 off np (suc n) [] (ground (arith, t)) b
          ∙ ap (λ j. some (suc n, take (suc n) (drop j np.bytes))) k)
      | inr t ↦ rw t (
          copy_out-ends (suc n) 0 off np (suc n) [] (omega arith) (ground (arith, t)) b
          ∙ ap (λ j. some (0, take (np.size - j) (drop j np.bytes))) k)
    ]

-- `initrd_read` never reads past a file that is whole in memory. Of `len` bytes, or of the file's
-- size where that is less, it copies and counts all where they end within the file; otherwise it
-- returns 0, although it has copied the bytes from the offset to the end of the file.
pub initrd_read_lem :
    (np : InitrdNode) (off len : ℕ)
    → np.size ≤ length np.bytes
    → initrd_read true (some (some np)) off len ≡ (
        if leb (off + read_len np len) np.size
        then some (ok (read_len np len, take (read_len np len) (drop off np.bytes)))
        else some (ok (0, take (np.size - off) (drop off np.bytes))))
unfolding initrd_read
initrd_read_lem np off len b =
    let c = copy_out-cases (read_len np len) off np (ground arith) b in
    elim (Bool-cases (leb (off + read_len np len) np.size)) [
      | inl t ↦ rw (c, t) refl
      | inr t ↦ rw (c, t) refl
    ]
