-- ===== src/Vm/Frames/Search.antt =====
-- Proofs on the search of the frame allocator, src/sys/vm/vm_seg.c, for a run of free frames.
use l5lunos.Prelude.{
  ℕ, zero, suc, ◌+◌, ◌-◌, ◌≤◌, ◌<◌, ◌≡◌, refl, sym, inl, inr, Bool-cases, Bool, true, false, Option,
  none, some, List, [], ◌∷◌, leb, arith, get_elem?, length, drop,
}
use l5lunos.Vm.Frames.{start_run, find_run}

-- The frames from `j` on, `n` of them, are in the bitmap and free.
abbrev pub FreeAt : List Bool → ℕ → ℕ → Type 0
FreeAt bm j n = (k : ℕ) → k < n → get_elem? bm (j + k) ≡ some false

-- What the search has seen at frame `i`: no run, or a run of free frames that ends there.
pub data Seen (bm : List Bool) (i : ℕ) : Option ℕ → ℕ → Type 0 where
  no_run : Seen bm i none 0
  run : (j n : ℕ) → j + n ≡ i → FreeAt bm j n → Seen bm i (some j) n

-- What the search may end with at frame `m`.
pub data Finds (bm : List Bool) (m : ℕ) : Option (Option ℕ × ℕ) → Type 0 where
  nothing : Finds bm m (some (none, 0))
  found : (j n : ℕ) → j + n ≤ m → FreeAt bm j n → Finds bm m (some (some j, n))

FreeAt-extend :
    (bm : List Bool) (j n i : ℕ)
    → j + n ≡ i
    → FreeAt bm j n
    → get_elem? bm i ≡ some false
    → FreeAt bm j (n + 1)
FreeAt-extend bm j n i e f h k l = elim (Bool-cases (leb n k)) [
  | inl b ↦ let same : j + k ≡ i = ground arith in rw same h
  | inr b ↦ f k (ground arith)
]

Seen-step :
    (bm : List Bool) (i n : ℕ) (idx : Option ℕ)
    → Seen bm i idx n
    → get_elem? bm i ≡ some false
    → Seen bm (i + 1) (start_run idx i) (n + 1)
Seen-step bm i n none no_run h =
    run i 1 refl (FreeAt-extend bm i 0 i (omega arith) (λ k l. absurd (omega (arith, l))) h)
Seen-step bm i n (some j) (run _ _ e f) h =
    run j (n + 1) (omega (arith, e)) (FreeAt-extend bm j n i e f h)

Seen-Finds :
    (bm : List Bool) (i m n : ℕ) (idx : Option ℕ)
    → Seen bm i idx n
    → i ≤ m
    → Finds bm m (some (idx, n))
Seen-Finds bm i m n none no_run h = nothing
Seen-Finds bm i m n (some j) (run _ _ e f) h = found j n (omega (arith, e, h)) f

-- The list of a search is the bitmap from frame `i` on.
abbrev pub IsTail : List Bool → ℕ → List Bool → Type 0
IsTail bm i bits = (k : ℕ) → get_elem? bits k ≡ get_elem? bm (i + k)

IsTail-head :
    (bm : List Bool) (i : ℕ) (b : Bool) (bits : List Bool)
    → IsTail bm i (b ∷ bits)
    → get_elem? bm i ≡ some b
IsTail-head bm i b bits t = let z : i + 0 ≡ i = omega arith in rw z at (sym (t 0))

IsTail-IsTail :
    (bm : List Bool) (i : ℕ) (b : Bool) (bits : List Bool)
    → IsTail bm i (b ∷ bits)
    → IsTail bm (i + 1) bits
IsTail-IsTail bm i b bits t k = let z : i + suc k ≡ i + 1 + k = omega arith in rw z at (t (suc k))

pub drop-IsTail : (bm : List Bool) (i : ℕ) → IsTail bm i (drop i bm)
drop-IsTail bm zero k = let z : 0 + k ≡ k = omega arith in rw z
drop-IsTail [] (suc i) k = refl
drop-IsTail (b ∷ bm) (suc i) k =
    let z : suc i + k ≡ suc (i + k) = omega arith in rw z (drop-IsTail bm i k)

-- A search that stays inside the bitmap ends with a run of free frames, or with none.
pub find_run-Finds :
    (bm : List Bool) (n i : ℕ) (bits : List Bool) (count : ℕ) (idx : Option ℕ) (frames : ℕ)
    → IsTail bm i bits
    → n ≤ length bits
    → Seen bm i idx frames
    → Finds bm (i + n) (find_run n i bits count idx frames)
unfolding find_run
find_run-Finds bm zero i bits count idx frames t h s =
    Seen-Finds bm i (i + 0) frames idx s (omega arith)
find_run-Finds bm (suc n) i [] count idx frames t h s = absurd (omega (arith, h))
find_run-Finds bm (suc n) i (true ∷ bits) count idx frames t h s =
    let z : i + 1 + n ≡ i + suc n = omega arith in
    rw z at (
      find_run-Finds bm n (i + 1) bits count none 0 (IsTail-IsTail bm i true bits t)
        (omega (arith, h)) no_run)
find_run-Finds bm (suc n) i (false ∷ bits) count idx frames t h s =
    let step = Seen-step bm i frames idx s (IsTail-head bm i false bits t) in
    let z : i + 1 + n ≡ i + suc n = omega arith in
    elim (Bool-cases (leb count (frames + 1))) [
      | inl e ↦
          rw e (Seen-Finds bm (i + 1) (i + suc n) (frames + 1) (start_run idx i) step (omega arith))
      | inr e ↦
          rw (e, ← z)
            (find_run-Finds bm n (i + 1) bits count (start_run idx i) (frames + 1)
              (IsTail-IsTail bm i false bits t) (omega (arith, h)) step)
    ]

-- The search ends with `count` frames.
abbrev pub Succeeds : ℕ → Option (Option ℕ × ℕ) → Type 0
Succeeds count o = (j : ℕ) × (o ≡ some (some j, count))

last_start : (idx : Option ℕ) (i count : ℕ) → Succeeds count (some (start_run idx i, count))
last_start none i count = (i, refl)
last_start (some j) i count = (j, refl)

FreeAt-behind :
    (b : Bool) (bits : List Bool) (j n : ℕ) → FreeAt (b ∷ bits) (suc j) n → FreeAt bits j n
FreeAt-behind b bits j n f k m = let z : suc j + k ≡ suc (j + k) = omega arith in rw z at (f k m)

-- A search that has seen `frames` frames and has the others before it succeeds.
find_run_next :
    (n i : ℕ) (bits : List Bool) (count : ℕ) (idx : Option ℕ) (frames : ℕ)
    → frames < count
    → count ≤ frames + n
    → ((k : ℕ) → k < count - frames → get_elem? bits k ≡ some false)
    → Succeeds count (find_run n i bits count idx frames)
unfolding find_run
find_run_next zero i bits count idx frames l h f = absurd (omega (arith, l, h))
find_run_next (suc n) i [] count idx frames l h f = cc (f 0 (omega (arith, l)))
find_run_next (suc n) i (true ∷ bits) count idx frames l h f = cc (f 0 (omega (arith, l)))
find_run_next (suc n) i (false ∷ bits) count idx frames l h f =
    elim (Bool-cases (leb count (frames + 1))) [
      | inl e ↦
          let all : frames + 1 ≡ count = ground (arith, l) in rw (e, all) (last_start idx i count)
      | inr e ↦ rw e (
          find_run_next n (i + 1) bits count (start_run idx i) (frames + 1) (ground arith)
            (omega (arith, h)) (λ k m. f (suc k) (omega (arith, m))))
    ]

-- A search succeeds where a run of `count` free frames lies before it.
pub find_run-Succeeds :
    (n i : ℕ) (bits : List Bool) (count : ℕ) (idx : Option ℕ) (frames j : ℕ)
    → frames < count
    → FreeAt bits j count
    → j + count ≤ n
    → Succeeds count (find_run n i bits count idx frames)
unfolding find_run
find_run-Succeeds zero i bits count idx frames j l f h = absurd (omega (arith, l, h))
find_run-Succeeds (suc n) i [] count idx frames j l f h = cc (f 0 (omega (arith, l)))
find_run-Succeeds (suc n) i (true ∷ bits) count idx frames zero l f h = cc (f 0 (omega (arith, l)))
find_run-Succeeds (suc n) i (true ∷ bits) count idx frames (suc j) l f h =
    find_run-Succeeds n (i + 1) bits count none 0 j (omega (arith, l))
      (FreeAt-behind true bits j count f) (omega (arith, h))
find_run-Succeeds (suc n) i (false ∷ bits) count idx frames zero l f h =
    find_run_next (suc n) i (false ∷ bits) count idx frames l (omega (arith, h))
      (λ k m. let z : 0 + k ≡ k = omega arith in rw z at (f k (omega (arith, m))))
find_run-Succeeds (suc n) i (false ∷ bits) count idx frames (suc j) l f h =
    elim (Bool-cases (leb count (frames + 1))) [
      | inl e ↦
          let all : frames + 1 ≡ count = ground (arith, l) in rw (e, all) (last_start idx i count)
      | inr e ↦ rw e (
          find_run-Succeeds n (i + 1) bits count (start_run idx i) (frames + 1) j (ground arith)
            (FreeAt-behind false bits j count f) (omega (arith, h)))
    ]
