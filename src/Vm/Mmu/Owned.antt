-- ===== src/Vm/Mmu/Owned.antt =====
-- Proofs on the tables of src/sys/arch/amd64/cpu/mmu.c: the tables of an address space are a tree.
use l5lunos.Prelude.{
  ℕ, zero, suc, ◌+◌, ◌*◌, ◌/◌, ◌%◌, ◌^◌, ◌≤◌, ◌<◌, ◌≡◌, ◌≢◌, refl, sym, ap, ◌∙◌, inl, inr,
  Bool-cases, true, false, ◌&&◌, Option, none, some, arith, ◌==◌, ==_iff, get_elem?,
}
use l5lunos.Vm.Frames.{pagesize}
use l5lunos.Vm.Frames.Grant
use l5lunos.Vm.Mmu.{Pte, zero_pte, Tables, Mmu, is_present, or_flags, set_pte, zero_frames}
use l5lunos.Vm.Mmu.Translate.{prefix, look, look-present, look-absent, look-same}

-- The level of each table, and the addresses that it serves: the prefix of their pages.
abbrev pub Owner : Type 0
Owner = ℕ → Option (ℕ × ℕ)

-- The tables that a root reaches are a tree: each serves one prefix, its entries lead to the tables of
-- the longer prefixes, and its frame is in use.
pub record IsTree (own : Owner) (root : ℕ) (m : Mmu) : Type 0 where
  pub at_root : own root ≡ some (4, 0)
  pub child :
      (f i k q : ℕ)
      → own f ≡ some (suc (suc k), q)
      → i < 512
      → is_present (m.tables f i) ≡ true
      → own (m.tables f i).frame ≡ some (suc k, q * 512 + i)
  pub used : (f k q : ℕ) → own f ≡ some (k, q) → get_elem? m.frames.bitmap f ≡ some true
  pub valid : Grant.IsValid m.frames
  pub small : m.frames.highest_frame_idx ≤ 2 ^ 40

pub set_pte_self : (f i : ℕ) (e : Pte) (t : Tables) → set_pte f i e t f i ≡ e
unfolding set_pte
set_pte_self f i e t = ground (arith, ==_iff f f, ==_iff i i)

pub set_pte-other :
    (f i : ℕ) (e : Pte) (t : Tables) (g j : ℕ)
    → (g == f && j == i) ≡ false
    → set_pte f i e t g j ≡ t g j
unfolding set_pte
set_pte-other f i e t g j h = rw h refl

zero_frames-at : (idx j : ℕ) (t : Tables) → zero_frames idx 1 t idx j ≡ zero_pte
unfolding zero_frames
zero_frames-at idx j t = ground (arith)

zero_frames-other : (idx : ℕ) (t : Tables) (g j : ℕ) → g ≢ idx → zero_frames idx 1 t g j ≡ t g j
unfolding zero_frames
zero_frames-other idx t g j h = ground (arith, h)

-- The entry that `mmu_read_level` writes for a new table.
pub new_entry :
    (idx : ℕ)
    → idx < 2 ^ 40
    → or_flags 7 0 (idx * pagesize) ≡ record { low = 7; frame = idx; high = 0 }
unfolding or_flags
new_entry idx h =
    let low : idx * pagesize % pagesize ≡ 0 = omega arith in
    let mid : idx * pagesize / pagesize % 2 ^ 40 ≡ idx = omega (arith, h) in
    let high : idx * pagesize / 2 ^ 52 % 2 ^ 12 ≡ 0 = omega (arith, h) in rw (low, mid, high) refl

-- The tables with a new one, `idx`, which the entry `index` of `cur` leads to.
abbrev pub grown : ℕ → ℕ → ℕ → Tables → Tables
grown cur index idx t = set_pte cur index (or_flags 7 0 (idx * pagesize)) (zero_frames idx 1 t)

pub grown-other :
    (cur index idx : ℕ) (t : Tables) (g j : ℕ)
    → g ≢ idx
    → (g == cur && j == index) ≡ false
    → grown cur index idx t g j ≡ t g j
grown-other cur index idx t g j n h =
    set_pte-other cur index _ (zero_frames idx 1 t) g j h ∙ zero_frames-other idx t g j n

pub same_entry : (g f j i : ℕ) → (g == f && j == i) ≡ true → (g ≡ f) × (j ≡ i)
same_entry g f j i h = ground (arith, h)

-- An entry that is present is not the one that is written.
pub present-other :
    (cur index : ℕ) (t : Tables) (g j : ℕ)
    → is_present (t cur index) ≡ false
    → is_present (t g j) ≡ true
    → (g == cur && j == index) ≡ false
present-other cur index t g j n h = elim (Bool-cases (g == cur && j == index)) [
  | inl e ↦
      let (a, b) = same_entry g cur j index e in
      let both : is_present (t g j) ≡ is_present (t cur index) = rw (a, b) refl in
      absurd (cc (both, n, h))
  | inr e ↦ e
]

-- A new table holds no entry that is present.
pub grown-new :
    (cur index idx : ℕ) (t : Tables) (j : ℕ) → idx ≢ cur → grown cur index idx t idx j ≡ zero_pte
grown-new cur index idx t j h =
    set_pte-other cur index _ (zero_frames idx 1 t) idx j (ground (arith, h))
    ∙ zero_frames-at idx j t

look-new_table :
    (n p cur index idx : ℕ) (t : Tables)
    → idx ≢ cur
    → look (suc n) p idx (grown cur index idx t) ≡ none
look-new_table n p cur index idx t h =
    look-absent n p idx (grown cur index idx t)
      (ap is_present (grown-new cur index idx t (prefix (n + 0) p % 512) h))

pub owner_level :
    (own : Owner) (f a q b q' : ℕ) → own f ≡ some (a, q) → own f ≡ some (b, q') → (a ≡ b) × (q ≡ q')
owner_level own f a q b q' h k = (cc (h, k), cc (h, k))

pub owned-ne : (own : Owner) (f g : ℕ) (x : ℕ × ℕ) → own f ≡ some x → own g ≡ none → f ≢ g
owned-ne own f g x h k = λ e. cc (h, k, e)

module _ (own : Owner) (root : ℕ) (m : Mmu) (cur index idx k q0 : ℕ) (v : IsTree own root m)
    (c : own cur ≡ some (suc (suc k), q0)) (i : own idx ≡ none) (b : idx < 2 ^ 40)
    (a : is_present (m.tables cur index) ≡ false) where
  abbrev t' : Tables
  t' = grown cur index idx m.tables

  -- The table that is entered: below the new entry there is nothing, as before.
  look-grown_at :
      (n p f q : ℕ)
      → own f ≡ some (suc n, q)
      → f ≡ cur
      → prefix (n + 0) p % 512 ≡ index
      → look (suc n) p f t' ≡ look (suc n) p f m.tables
  look-grown_at zero p f q o e d =
      absurd (omega (arith, (owner_level own cur (suc zero) q (suc (suc k)) q0 (rw (sym e) o) c).0))
  look-grown_at (suc n) p f q o e d =
      let entry : t' f (prefix (suc n + 0) p % 512) ≡ or_flags 7 0 (idx * pagesize) =
        rw (e, d) (set_pte_self cur index _ (zero_frames idx 1 m.tables)) in
      let now = look-present (suc n) p f t' (ap is_present (entry ∙ new_entry idx b)) in
      let then_none =
        look-new_table n p cur index idx m.tables (λ z. owned-ne own cur idx _ c i (sym z)) in
      let old : is_present (m.tables f (prefix (suc n + 0) p % 512)) ≡ false = rw (e, d) a in
      now
      ∙ ap (λ w. look (suc n) p w.frame t') (entry ∙ new_entry idx b)
      ∙ then_none
      ∙ sym (look-absent (suc n) p f m.tables old)

  look-grown_step :
      (n p f q : ℕ)
      → own f ≡ some (suc n, q)
      → (let w = m.tables f (prefix (n + 0) p % 512) in
          is_present w ≡ true → look n p w.frame t' ≡ look n p w.frame m.tables)
      → look (suc n) p f t' ≡ look (suc n) p f m.tables
  look-grown_step n p f q o ih = elim (Bool-cases (f == cur && prefix (n + 0) p % 512 == index)) [
    | inl e ↦
        let (x, y) = same_entry f cur (prefix (n + 0) p % 512) index e in
        look-grown_at n p f q o x y
    | inr e ↦
        let j = prefix (n + 0) p % 512 in
        look-same n p f m.tables t'
          (grown-other cur index idx m.tables f j (owned-ne own f idx _ o i) e) ih
  ]

  -- What a table with an owner translates does not change.
  pub look-grown : (n p f q : ℕ) → own f ≡ some (n, q) → look n p f t' ≡ look n p f m.tables
  unfolding look
  look-grown zero p f q o = refl
  look-grown (suc zero) p f q o = look-grown_step zero p f q o (λ h. refl)
  look-grown (suc (suc n)) p f q o =
      look-grown_step (suc n) p f q o
        λ h. look-grown (suc n) p _ _ (v.child f (prefix (suc n + 0) p % 512) n q o (omega arith) h)
