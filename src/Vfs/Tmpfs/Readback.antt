-- ===== src/Vfs/Tmpfs/Readback.antt =====
-- Proofs on the data of a node of src/sys/fs/tmpfs.c.
use l5lunos.Prelude.{
  ℕ, ◌+◌, ◌%◌, ◌^◌, ◌≤◌, ◌<◌, ◌≡◌, ◌⊎◌, refl, sym, ap, ◌∙◌, inl, inr, Bool-cases, Option-cases,
  true, false, Option, none, some, [], ◌∷◌, ltb, leb, ◌==◌, if◌then◌else◌, arith, Bytes, length,
  take, drop, get_elem?,
}
use l5lunos.Prelude.Errno.{Ret, ok, err, enomem}
use l5lunos.Vfs.State.{TmpfsNode}
use l5lunos.Vfs.Buffer.{
  copy_in, copy_from, length-pasted, window-pasted, get_elem?-take, get_elem?-pasted,
}
use l5lunos.Vfs.Tmpfs.Data.{Realloc, wider, expand, store, write_node, read_node}

-- The buffer is as long as `len` says, and not empty.
pub record IsValid (np : TmpfsNode) : Type 0 where
  pub sized : length np.buf ≡ np.len
  pub roomy : 0 < np.len

-- What the manual of `realloc` says of a request for no less than there is: the new block has the
-- size that was asked for, and begins with the old bytes.
pub record IsRealloc (realloc : Realloc) : Type 0 where
  pub sized :
      (b : ℕ) (buf : Bytes) (n b' : ℕ) (buf' : Bytes)
      → length buf ≤ n
      → realloc b buf n ≡ some (b', buf')
      → length buf' ≡ n
  pub keeps :
      (b : ℕ) (buf : Bytes) (n b' : ℕ) (buf' : Bytes)
      → length buf ≤ n
      → realloc b buf n ≡ some (b', buf')
      → take (length buf) buf' ≡ buf

-- The buffer after a write of `src` at `off`, where `old` is the one before.
pub record Holds (off : ℕ) (src old : Bytes) (buf : Bytes) : Type 0 where
  pub window : take (length src) (drop off buf) ≡ src
  pub others :
      (k : ℕ)
      → k < length old
      → (k < off) ⊎ (off + length src ≤ k)
      → get_elem? buf k ≡ get_elem? old k

-- The two ends of `write_node`: no memory, with the data as before, or the bytes in place.
pub data Writes (off : ℕ) (src : Bytes) (np : TmpfsNode) : Option (Ret ℕ × TmpfsNode) → Type 0 where
  refused :
      {np' : TmpfsNode}
      → np'.self ≡ np.self
      → np'.buf ≡ np.buf
      → np'.real_len ≡ np.real_len
      → Writes off src np (some (err enomem, np'))
  stored :
      {np' : TmpfsNode}
      → np'.self ≡ np.self
      → IsValid np'
      → np'.real_len ≡ np.real_len + length src
      → off + length src ≤ np'.len
      → Holds off src np.buf np'.buf
      → Writes off src np (some (ok (length src), np'))

take_whole : (xs : Bytes) → take (length xs) xs ≡ xs
take_whole [] = refl
take_whole (x ∷ xs) = ap (λ l. x ∷ l) (take_whole xs)

-- The node behind the expansion, where there was memory.
record Expanded (np : TmpfsNode) (end : ℕ) (np' : TmpfsNode) : Type 0 where
  same_self : np'.self ≡ np.self
  valid : IsValid np'
  same_real_len : np'.real_len ≡ np.real_len
  room : end ≤ np'.len
  kept : take (length np.buf) np'.buf ≡ np.buf

store-Writes :
    (off : ℕ) (src : Bytes) (np np' : TmpfsNode)
    → Expanded np (length src + off) np'
    → np.real_len + length src < 2 ^ 64
    → Writes off src np (store off (length src) src (true, np'))
unfolding copy_in copy_from
store-Writes off src np np' x h =
    let f : leb (0 + length src) (length src) ≡ true = ground arith in
    let g : leb (off + length src) (length np'.buf) ≡ true =
      ground (arith, x.room, x.valid.sized) in
    let d : off ≤ length np'.buf = omega (arith, x.room, x.valid.sized) in
    let e : off + length src ≤ length np'.buf = omega (arith, x.room, x.valid.sized) in
    rw (f, take_whole src, g)
      (stored x.same_self
        (record {
          sized = length-pasted off src np'.buf e ∙ x.valid.sized;
          roomy = omega (arith, x.valid.roomy);
        })
        (omega (arith, x.same_real_len)) (omega (arith, x.room))
        (record {
          window = window-pasted off src np'.buf d;
          others = λ k l o.
              get_elem?-pasted off src np'.buf k d o
              ∙ sym (get_elem?-take (length np.buf) np'.buf k l)
              ∙ ap (λ b. get_elem? b k) x.kept;
        }))

resized-Expanded :
    (realloc : Realloc) (np : TmpfsNode) (end n b : ℕ) (buf : Bytes)
    → IsRealloc realloc
    → IsValid np
    → np.len < n
    → end ≤ n
    → realloc np.block np.buf n ≡ some (b, buf)
    → Expanded np end (record np { len = n; block = b; buf = buf })
resized-Expanded realloc np end n b buf r v l k e =
    let s = r.sized np.block np.buf n b buf (omega (arith, l, v.sized)) e in
    record {
      same_self = refl;
      valid = record { sized = s; roomy = omega (arith, l) };
      same_real_len = refl;
      room = k;
      kept = r.keeps np.block np.buf n b buf (omega (arith, l, v.sized)) e;
    }

-- A write never leaves the buffer of a valid node, as long as the numbers do not wrap and `realloc`
-- does what its manual says.
pub write_node-Writes :
    (realloc : Realloc) (off : ℕ) (src : Bytes) (np : TmpfsNode)
    → IsRealloc realloc
    → IsValid np
    → length src + off + 1 < 2 ^ 64
    → np.real_len + length src < 2 ^ 64
    → Writes off src np (write_node realloc off (length src) src np)
unfolding write_node expand
write_node-Writes realloc off src np r v h k =
    let w : (length src + off) % 2 ^ 64 ≡ length src + off = omega (arith, h) in
    elim (Bool-cases (ltb np.len (length src + off))) [
      | inl t ↦
          let n : wider np (length src + off) ≡ length src + off + 1 = ground (arith, h, t) in
          elim (Option-cases (realloc np.block np.buf (length src + off + 1))) [
            | inl e ↦ rw (w, t, n, e) (refused refl refl refl)
            | inr (a, e) ↦
                rw (w, t, n, e)
                  (store-Writes off src np
                    (record np { len = length src + off + 1; block = a.0; buf = a.1 })
                    (resized-Expanded realloc np (length src + off) (length src + off + 1) a.0 a.1 r
                      v (ground (arith, t)) (omega arith) e)
                    k)
          ]
      | inr t ↦
          rw (w, t)
            (store-Writes off src np np
              (record {
                same_self = refl;
                valid = v;
                same_real_len = refl;
                room = ground (arith, t);
                kept = take_whole np.buf;
              })
              k)
    ]

-- On a valid node, and where the offset and the length do not wrap, a read gives nothing at the end
-- of the file and past it. Before it, a read that ends within the buffer gives its bytes, one from
-- offset 0 gives the whole buffer at most, and any other faults.
pub read_node_lem :
    (off len : ℕ) (np : TmpfsNode)
    → IsValid np
    → len + off < 2 ^ 64
    → read_node off len np ≡ (
        if leb np.real_len off
        then some []
        else if leb (off + len) np.len
        then some (take len (drop off np.buf))
        else if off == 0
        then some np.buf
        else none)
unfolding read_node copy_from
read_node_lem off len np v h =
    let w : (len + off) % 2 ^ 64 ≡ len + off = omega (arith, h) in
    elim (Bool-cases (leb np.real_len off)) [
      | inl e ↦ rw e refl
      | inr e ↦ elim (Bool-cases (leb (off + len) np.len)) [
        | inl i ↦
            let c : ltb np.len (len + off) ≡ false = ground (arith, i) in
            let d : ltb len len ≡ false = ground arith in
            let f : leb (off + len) (length np.buf) ≡ true = ground (arith, i, v.sized) in
            elim (Bool-cases (len == 0)) [
              | inl z ↦
                  let n : len ≡ 0 = ground (arith, z) in
                  rw (e, i, w, c, z) (ap (λ m. some (take m (drop off np.buf))) (sym n))
              | inr z ↦ rw (e, i, w, c, z, d, f) refl
            ]
        | inr i ↦
            let c : ltb np.len (len + off) ≡ true = ground (arith, i) in
            let n : (np.len == 0) ≡ false = ground (arith, v.roomy) in
            elim (Bool-cases (off == 0)) [
              | inl z ↦
                  let o : off ≡ 0 = ground (arith, z) in
                  let d : ltb len np.len ≡ false = ground (arith, i, o) in
                  let f : leb (off + np.len) (length np.buf) ≡ true = ground (arith, o, v.sized) in
                  rw (e, i, w, c, n, z, d, f)
                    (ap (λ m. some (take m (drop off np.buf))) (sym v.sized)
                      ∙ ap (λ m. some (take (length np.buf) (drop m np.buf))) o
                      ∙ ap some (take_whole np.buf))
              | inr z ↦
                  let f : leb (off + np.len) (length np.buf) ≡ false = ground (arith, z, v.sized) in
                  elim (Bool-cases (ltb len np.len)) [
                    | inl d ↦ rw (e, i, w, c, n, z, d) refl
                    | inr d ↦ rw (e, i, w, c, n, z, d, f) refl
                  ]
            ]
      ]
    ]

-- The bytes of a write are read again, unless the write stands past the size that is counted.
pub read_node-stored :
    (off : ℕ) (src : Bytes) (np np' : TmpfsNode)
    → length src + off + 1 < 2 ^ 64
    → IsValid np'
    → np'.real_len ≡ np.real_len + length src
    → off + length src ≤ np'.len
    → Holds off src np.buf np'.buf
    → read_node off (length src) np' ≡ some (if leb (np.real_len + length src) off then [] else src)
read_node-stored off src np np' h v r l k =
    let f : leb (off + length src) np'.len ≡ true = ground (arith, l) in
    rw (read_node_lem off (length src) np' v (omega (arith, h)), r, f, k.window)
      (elim (leb (np.real_len + length src) off)
        as (λ b. (if b then some [] else some src) ≡ some (if b then [] else src)) [
          | true ↦ refl
          | false ↦ refl
        ])
