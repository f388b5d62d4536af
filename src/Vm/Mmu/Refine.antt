-- ===== src/Vm/Mmu/Refine.antt =====
-- Proofs on `mmu_map_single` of src/sys/arch/amd64/cpu/mmu.c.
use l5lunos.Prelude.{
  ℕ, zero, suc, ◌+◌, ◌*◌, ◌/◌, ◌%◌, ◌^◌, ◌≤◌, ◌<◌, ◌≡◌, ◌≢◌, refl, sym, ap, ◌∙◌, inl, inr,
  Bool-cases, Bool, not, true, false, ◌&&◌, Option, none, some, arith, ◌==◌, if◌then◌else◌,
  get_elem?, bit_or,
}
use l5lunos.Prelude.Errno.{Ret, ok}
use l5lunos.Vm.Frames.{Outcome, done, panicked, pagesize}
use l5lunos.Vm.Frames.Count.{free_count}
use l5lunos.Vm.Mmu.{
  Pte, Tables, Mmu, is_present, or_flags, set_pte, is_set, on_done, pte_of, write_pte,
  mmu_read_level, mmu_map_single,
}
use l5lunos.Vm.Mmu.Translate.{
  Access, access, prefix, reach, look, look-present, prefix_top, page_of, mmu_get_level-prefix,
  reach-present, reach-absent, look-same,
}
use l5lunos.Vm.Mmu.Owned.{Owner, IsTree, same_entry, set_pte_self, set_pte-other, owner_level}
use l5lunos.Vm.Mmu.Walk.{missing, Walks, no_frame, arrives, walk_levels-Walks, below}

-- What the entry of a page gives.
abbrev pub leaf : Pte → Option Access
leaf e = if is_present e then some (access e) else none

-- The writing of an entry of level 1.
module _ (own : Owner) (root : ℕ) (m : Mmu) (table q i : ℕ) (e : Pte) (v : IsTree own root m)
    (c : own table ≡ some (1, q)) where
  abbrev t' : Tables
  t' = set_pte table i e m.tables

  -- The tables of the other levels do not change.
  upper : (f j n r : ℕ) → own f ≡ some (suc (suc n), r) → t' f j ≡ m.tables f j
  upper f j n r o = set_pte-other table i e m.tables f j (elim (Bool-cases (f == table && j == i)) [
    | inl z ↦
        let (x, y) = same_entry f table j i z in
        let (l, k) = owner_level own table (suc (suc n)) r 1 q (rw (sym x) o) c in
        absurd (omega (arith, l))
    | inr z ↦ z
  ])

  leaf-IsTree : IsTree own root (record m { tables = t' })
  leaf-IsTree = record {
    at_root = v.at_root;
    child = λ f j n r o l p.
        let same = upper f j n r o in
        ap (λ w. own w.frame) same ∙ v.child f j n r o l (sym (ap is_present same) ∙ p);
    used = v.used;
    valid = v.valid;
    small = v.small;
  }

  -- The page that is mapped.
  look-leaf :
      (n p f r : ℕ)
      → own f ≡ some (suc n, r)
      → reach n 1 p f m.tables ≡ some table
      → p % 512 ≡ i
      → look (suc n) p f t' ≡ leaf e
  unfolding reach look prefix
  look-leaf zero p f r o h k =
      let same : f ≡ table = cc h in rw (same, k, set_pte_self table i e m.tables) refl
  look-leaf (suc n) p f r o h k =
      elim (Bool-cases (is_present (m.tables f (prefix (n + 1) p % 512)))) [
        | inl z ↦
            let j = prefix (suc n + 0) p % 512 in
            let index : j ≡ prefix (n + 1) p % 512 = ap (λ l. prefix l p % 512) (omega arith) in
            let same = upper f j n r o in
            let deeper = sym (reach-present n 1 p f m.tables z) ∙ h in
            let o' = v.child f (prefix (n + 1) p % 512) n r o (omega arith) z in
            look-present (suc n) p f t' (ap is_present (same ∙ ap (m.tables f) index) ∙ z)
            ∙ ap (λ w. look (suc n) p w.frame t') (same ∙ ap (m.tables f) index)
            ∙ look-leaf n p (m.tables f (prefix (n + 1) p % 512)).frame _ o' deeper k
        | inr z ↦ absurd (cc (h, reach-absent n 1 p f m.tables z))
      ]

  other_entry :
      (n p f : ℕ)
      → own f ≡ some (suc n, prefix (suc n) p)
      → p ≢ q * 512 + i
      → t' f (prefix (n + 0) p % 512) ≡ m.tables f (prefix (n + 0) p % 512)
  unfolding prefix
  other_entry zero p f o h =
      set_pte-other table i e m.tables f (p % 512) (elim (Bool-cases (f == table && p % 512 == i)) [
        | inl z ↦
            let (x, y) = same_entry f table (p % 512) i z in
            let (l, k) = owner_level own table 1 (p / 512) 1 q (rw (sym x) o) c in
            absurd (h (omega (arith, k, y)))
        | inr z ↦ z
      ])
  other_entry (suc n) p f o h = upper f _ n _ o

  -- The other pages.
  look-other :
      (n p f : ℕ)
      → own f ≡ some (suc n, prefix (suc n) p)
      → p ≢ q * 512 + i
      → look (suc n) p f t' ≡ look (suc n) p f m.tables
  unfolding look
  look-other zero p f o h = look-same zero p f m.tables t' (other_entry zero p f o h) (λ z. refl)
  look-other (suc n) p f o h = look-same (suc n) p f m.tables t' (other_entry (suc n) p f o h) λ z.
      let child =
        v.child f (prefix (suc n + 0) p % 512) n (prefix (suc (suc n)) p) o (omega arith) z in
      let index = ap (λ l. prefix (suc (suc n)) p * 512 + prefix l p % 512) (omega arith) in
      look-other n p _ (child ∙ ap (λ w. some (suc n, w)) (index ∙ below n p)) h

-- What a mapping of a page with these protection flags gives: nothing, where it may not be read.
abbrev pub mapping : ℕ → ℕ → Option Access
mapping prot pa =
    if is_set prot 1
    then some (record {
      frame = pa / pagesize;
      writable = is_set prot 2;
      user = is_set prot 8;
      executable = is_set prot 4;
    })
    else none

-- The flags of an entry are those of the mapping.
module _ (r w u : Bool) where
  abbrev low_bits : ℕ
  low_bits = (if r then 1 else 0) + (if w then 2 else 0) + (if u then 4 else 0)

  record LowBits : Type 0 where
    plain : bit_or low_bits 0 ≡ low_bits
    present : (low_bits % 2 == 1) ≡ r
    writes : is_set low_bits 2 ≡ w
    users : is_set low_bits 4 ≡ u

low_bits-LowBits : (r w u : Bool) → LowBits r w u
low_bits-LowBits true true true = record {
  plain = refl;
  present = refl;
  writes = refl;
  users = refl;
}
low_bits-LowBits true true false = record {
  plain = refl;
  present = refl;
  writes = refl;
  users = refl;
}
low_bits-LowBits true false true = record {
  plain = refl;
  present = refl;
  writes = refl;
  users = refl;
}
low_bits-LowBits true false false = record {
  plain = refl;
  present = refl;
  writes = refl;
  users = refl;
}
low_bits-LowBits false true true = record {
  plain = refl;
  present = refl;
  writes = refl;
  users = refl;
}
low_bits-LowBits false true false = record {
  plain = refl;
  present = refl;
  writes = refl;
  users = refl;
}
low_bits-LowBits false false true = record {
  plain = refl;
  present = refl;
  writes = refl;
  users = refl;
}
low_bits-LowBits false false false = record {
  plain = refl;
  present = refl;
  writes = refl;
  users = refl;
}

high_bits_lem : (x : Bool) → not (is_set (bit_or (if x then 0 else 2 ^ 11) 0) (2 ^ 11)) ≡ x
high_bits_lem true = refl
high_bits_lem false = refl

leaf-pte_of :
    (prot pa : ℕ) → pa % pagesize ≡ 0 → pa < 2 ^ 52 → leaf (pte_of prot pa) ≡ mapping prot pa
unfolding or_flags
leaf-pte_of prot pa h l = elim (Bool-cases (prot == 0)) [
  | inl z ↦ let same : prot ≡ 0 = ground (arith, z) in rw same refl
  | inr z ↦
      let b = low_bits-LowBits (is_set prot 1) (is_set prot 2) (is_set prot 8) in
      let top : pa / 2 ^ 52 % 2 ^ 12 ≡ 0 = omega (arith, l) in
      let frame : pa / pagesize % 2 ^ 40 ≡ pa / pagesize = omega (arith, l) in
      rw (z, h, top, frame, b.plain, b.present, b.writes, b.users, high_bits_lem (is_set prot 4))
        refl
]

-- The abstract view of an address space: the frame that each page is translated to,
-- and what the entry of the page allows. The entries above it, which `mmu_read_level` writes, allow all.
abbrev pub View : Type 0
View = ℕ → Option Access

abbrev pub view : ℕ → Tables → View
view root t p = look 4 p root t

-- What a mapping does: it panics where fewer frames are free than tables are missing, or the page of `va` is mapped and
-- no other, the tables are a tree again, and no frame that was in use is free.
pub data Maps (own : Owner) (root va pa prot : ℕ) (m : Mmu)
    : Outcome (Ret (Unit {0}) × Mmu) → Type 0 where
  no_table :
      free_count m.frames < missing 3 (page_of va) root m.tables
      → Maps own root va pa prot m panicked
  maps :
      (own' : Owner) {m' : Mmu}
      → IsTree own' root m'
      → ((f : ℕ) (x : ℕ × ℕ) → own f ≡ some x → own' f ≡ some x)
      → ((k : ℕ)
          → get_elem? m.frames.bitmap k ≡ some true
          → get_elem? m'.frames.bitmap k ≡ some true)
      → (view root m'.tables (page_of va) ≡ mapping prot pa)
      → ((p : ℕ) → p < 2 ^ 36 → p ≢ page_of va → view root m'.tables p ≡ view root m.tables p)
      → free_count m.frames ≤ free_count m'.frames + 3
      → Maps own root va pa prot m (done (ok tt, m'))

write_pte-Maps :
    (own : Owner) (root va pa prot : ℕ) (m : Mmu) {o : Outcome (Ret ℕ × Mmu)}
    → IsTree own root m
    → pa % pagesize ≡ 0
    → pa < 2 ^ 52
    → Walks own root (page_of va) 3 root m o
    → Maps own root va pa prot m (on_done o (write_pte va pa prot))
unfolding prefix
write_pte-Maps own root va pa prot m v h l (no_frame g) = no_table g
write_pte-Maps own root va pa prot m v h l (arrives own' table {m'} v' e a r g) =
    let p = page_of va in
    let i = p % 512 in
    let x = pte_of prot pa in
    let target = look-leaf own' root m' table (p / 512) i x v' a 3 p root 0 v'.at_root r refl in
    let others = λ (p' : ℕ) (k : p' < 2 ^ 36) (n : p' ≢ page_of va).
      look-other own' root m' table (p / 512) i x v' a 3 p' root
        (v'.at_root ∙ ap (λ w. some (4, w)) (sym (prefix_top p' k))) (λ z. n (z ∙ omega arith))
      ∙ e.translations root 4 0 p' v.at_root in
    rw (mmu_get_level-prefix 0 va (omega arith)) (
      maps own' (leaf-IsTree own' root m' table (p / 512) i x v' a) e.owners e.in_use
        (target ∙ leaf-pte_of prot pa h l) others g)

pub mmu_map_single-Maps :
    (own : Owner) (cr3 va pa prot : ℕ) (m : Mmu)
    → IsTree own (cr3 / pagesize % 2 ^ 40) m
    → pa % pagesize ≡ 0
    → pa < 2 ^ 52
    → Maps own (cr3 / pagesize % 2 ^ 40) va pa prot m (mmu_map_single cr3 va pa prot m)
unfolding mmu_map_single mmu_read_level
mmu_map_single-Maps own cr3 va pa prot m v h l =
    let root = cr3 / pagesize % 2 ^ 40 in
    let top : own root ≡ some (4, prefix 4 (page_of va)) =
      v.at_root ∙ ap (λ w. some (4, w)) (sym (prefix_top (page_of va) (omega arith))) in
    write_pte-Maps own root va pa prot m v h l
      (walk_levels-Walks va 3 own root root m (omega arith) v top)
