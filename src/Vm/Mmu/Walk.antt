-- ===== src/Vm/Mmu/Walk.antt =====
-- Proofs on `mmu_read_level` of src/sys/arch/amd64/cpu/mmu.c: the walk down to a table, and the new tables
-- that it enters.
use l5lunos.Prelude.{
  ℕ, zero, suc, ◌+◌, ◌*◌, ◌/◌, ◌%◌, ◌^◌, ◌≤◌, ◌<◌, ◌≡◌, ◌≢◌, refl, sym, ap, ◌∙◌, inl, inr,
  Bool-cases, true, false, ◌&&◌, none, some, arith, ◌==◌, ==-refl, if◌then◌else◌, get_elem?,
  Option-cases,
}
use l5lunos.Prelude.Errno.{Ret, ok}
use l5lunos.Vm.Frames.{Frames, Outcome, done, panicked, pagesize, count_used}
use l5lunos.Vm.Frames.Grant
use l5lunos.Vm.Frames.Grant.{Takes, Allocates, no_memory, taken, vm_alloc_frame-Allocates}
use l5lunos.Vm.Frames.Count.{free_count, free_count-none, Takes-free_count}
use l5lunos.Vm.Mmu.{
  Mmu, Tables, is_present, or_flags, zero_frames, mmu_alloc, walk_levels, mmu_get_level, on_done,
  zeroed_at, enter_frame,
}
use l5lunos.Vm.Mmu.Translate.{
  prefix, reach, look, prefix-split, page_of, mmu_get_level-prefix, reach-present,
}
use l5lunos.Vm.Mmu.Owned.{
  Owner, IsTree, grown, grown-other, same_entry, present-other, set_pte_self, grown-new, new_entry,
  owned-ne, owner_level, look-grown,
}

-- One table more has an owner.
unfoldable pub give : ℕ → ℕ × ℕ → Owner → Owner
give idx x own f = if f == idx then some x else own f

give-at : (idx : ℕ) (x : ℕ × ℕ) (own : Owner) → give idx x own idx ≡ some x
unfolding give
give-at idx x own = rw (==-refl idx) refl

give-other : (idx : ℕ) (x : ℕ × ℕ) (own : Owner) (f : ℕ) → f ≢ idx → give idx x own f ≡ own f
unfolding give
give-other idx x own f h = ground (arith, h)

give-keeps :
    (idx : ℕ) (x y : ℕ × ℕ) (own : Owner) (f : ℕ)
    → own idx ≡ none
    → own f ≡ some y
    → give idx x own f ≡ some y
give-keeps idx x y own f n h = give-other idx x own f (owned-ne own f idx y h n) ∙ h

-- What a walk leaves as it was.
pub record Extends (own own' : Owner) (m m' : Mmu) : Type 0 where
  pub owners : (f : ℕ) (x : ℕ × ℕ) → own f ≡ some x → own' f ≡ some x
  pub entries :
      (f j : ℕ) (x : ℕ × ℕ)
      → own f ≡ some x
      → is_present (m.tables f j) ≡ true
      → m'.tables f j ≡ m.tables f j
  pub translations :
      (f n q p : ℕ) → own f ≡ some (n, q) → look n p f m'.tables ≡ look n p f m.tables
  pub in_use :
      (k : ℕ) → get_elem? m.frames.bitmap k ≡ some true → get_elem? m'.frames.bitmap k ≡ some true

Extends-same : (own : Owner) (m : Mmu) → Extends own own m m
Extends-same own m = record {
  owners = λ f x h. h;
  entries = λ f j x h k. refl;
  translations = λ f n q p h. refl;
  in_use = λ k h. h;
}

Extends-then :
    (own own1 own2 : Owner) (m m1 m2 : Mmu)
    → Extends own own1 m m1
    → Extends own1 own2 m1 m2
    → Extends own own2 m m2
Extends-then own own1 own2 m m1 m2 a b = record {
  owners = λ f x h. b.owners f x (a.owners f x h);
  entries = λ f j x h k.
      let e = a.entries f j x h k in b.entries f j x (a.owners f x h) (ap is_present e ∙ k) ∙ e;
  translations =
      λ f n q p h. b.translations f n q p (a.owners f (n, q) h) ∙ a.translations f n q p h;
  in_use = λ k h. b.in_use k (a.in_use k h);
}

-- A free frame becomes a table of a tree.
module _ (own : Owner) (root : ℕ) (m : Mmu) (cur index idx k q0 : ℕ) (s' : Frames)
    (v : IsTree own root m) (c : own cur ≡ some (suc (suc k), q0))
    (a : is_present (m.tables cur index) ≡ false) (t : Takes 1 idx m.frames s')
    (v' : Grant.IsValid (count_used 1 s')) where
  small : idx < 2 ^ 40
  small = omega (arith, t.below, v.small)

  unowned : own idx ≡ none
  unowned = elim (Option-cases (own idx)) [
    | inl e ↦ e
    | inr ((n, q), e) ↦
        let free : get_elem? m.frames.bitmap idx ≡ some false =
          ap (get_elem? m.frames.bitmap) (omega arith) ∙ t.free 0 (omega arith) in
        absurd (cc (v.used idx n q e, free))
  ]

  abbrev own' : Owner
  own' = give idx (suc k, q0 * 512 + index) own

  abbrev m' : Mmu
  m' = record { frames = count_used 1 s'; tables = grown cur index idx m.tables }

  still_used : (f : ℕ) → get_elem? m.frames.bitmap f ≡ some true → get_elem? s'.bitmap f ≡ some true
  still_used f h = ground (arith, t.bits f, h)

  pub grown-Extends : Extends own own' m m'
  grown-Extends = record {
    owners = λ f x h. give-keeps idx _ x own f unowned h;
    entries = λ f j x h p.
        grown-other cur index idx m.tables f j (owned-ne own f idx x h unowned)
          (present-other cur index m.tables f j a p);
    translations =
        λ f n q p h. look-grown own root m cur index idx k q0 v c unowned small a n p f q h;
    in_use = still_used;
  }

  grown-child_entered :
      (f i n q : ℕ)
      → own f ≡ some (suc (suc n), q)
      → (f ≡ cur) × (i ≡ index)
      → own' (m'.tables f i).frame ≡ some (suc n, q * 512 + i)
  grown-child_entered f i n q o (x, y) =
      let (l, r) = owner_level own cur (suc (suc n)) q (suc (suc k)) q0 (rw (sym x) o) c in
      let up : suc n ≡ suc k = omega (arith, l) in
      let entry : m'.tables f i ≡ or_flags 7 0 (idx * pagesize) =
        rw (x, y) (set_pte_self cur index _ (zero_frames idx 1 m.tables)) in
      rw (entry ∙ new_entry idx small, give-at idx (suc k, q0 * 512 + index) own, up, r, y) refl

  grown-child :
      (f i n q : ℕ)
      → own' f ≡ some (suc (suc n), q)
      → i < 512
      → is_present (m'.tables f i) ≡ true
      → own' (m'.tables f i).frame ≡ some (suc n, q * 512 + i)
  grown-child f i n q o l p = elim (Bool-cases (f == idx)) [
    | inl e ↦
        let same : f ≡ idx = ground (arith, e) in
        let absent : is_present (m'.tables f i) ≡ false = rw same (
          ap is_present
            (grown-new cur index idx m.tables i (λ z. owned-ne own cur idx _ c unowned (sym z)))) in
        absurd (cc (p, absent))
    | inr e ↦
        let ne : f ≢ idx = ground (arith, e) in
        let old : own f ≡ some (suc (suc n), q) = sym (give-other idx _ own f ne) ∙ o in
        elim (Bool-cases (f == cur && i == index)) [
          | inl z ↦ grown-child_entered f i n q old (same_entry f cur i index z)
          | inr z ↦
              let same = grown-other cur index idx m.tables f i ne z in
              ap (λ w. own' w.frame) same
              ∙ give-keeps idx _ _ own (m.tables f i).frame unowned
                  (v.child f i n q old l (sym (ap is_present same) ∙ p))
        ]
  ]

  pub grown-IsTree : IsTree own' root m'
  grown-IsTree = record {
    at_root = give-keeps idx _ _ own root unowned v.at_root;
    child = grown-child;
    used = λ f n q o. elim (Bool-cases (f == idx)) [
      | inl e ↦ ground (arith, t.bits f, e)
      | inr e ↦ still_used f (v.used f n q (sym (give-other idx _ own f (ground (arith, e))) ∙ o))
    ];
    valid = v';
    small = omega (arith, t.same_highest, v.small);
  }

-- The tables that the walk does not find.
unfoldable pub missing : ℕ → ℕ → ℕ → Tables → ℕ
missing zero p cur t = 0
missing (suc n) p cur t =
    let e = t cur (prefix (n + 1) p % 512) in
    let next = missing n p e.frame t in if is_present e then next else suc n

pub missing-le : (n p cur : ℕ) (t : Tables) → missing n p cur t ≤ n
unfolding missing
missing-le zero p cur t = omega arith
missing-le (suc n) p cur t = elim (Bool-cases (is_present (t cur (prefix (n + 1) p % 512)))) [
  | inl e ↦ rw e (omega (arith, missing-le n p (t cur (prefix (n + 1) p % 512)).frame t))
  | inr e ↦ rw e (omega arith)
]

-- A walk from the table `cur` ends at the table of level 1 for the page, or fewer
-- frames are free than it misses tables.
pub data Walks (own : Owner) (root p n cur : ℕ) (m : Mmu) : Outcome (Ret ℕ × Mmu) → Type 0 where
  no_frame : free_count m.frames < missing n p cur m.tables → Walks own root p n cur m panicked
  arrives :
      (own' : Owner) (table : ℕ) {m' : Mmu}
      → IsTree own' root m'
      → Extends own own' m m'
      → own' table ≡ some (1, prefix 1 p)
      → reach n 1 p cur m'.tables ≡ some table
      → free_count m.frames ≤ free_count m'.frames + n
      → Walks own root p n cur m (done (ok table, m'))

-- One level above a walk whose first entry stays.
Walks-up :
    (own own1 : Owner) (root p n cur f : ℕ) (m m1 : Mmu) {o : Outcome (Ret ℕ × Mmu)} (x : ℕ × ℕ)
    → Extends own own1 m m1
    → own1 cur ≡ some x
    → (let w = m1.tables cur (prefix (n + 1) p % 512) in (is_present w ≡ true) × (w.frame ≡ f))
    → free_count m.frames ≤ free_count m1.frames + 1
    → (free_count m1.frames < missing n p f m1.tables
        → free_count m.frames < missing (suc n) p cur m.tables)
    → Walks own1 root p n f m1 o
    → Walks own root p (suc n) cur m o
Walks-up own own1 root p n cur f m m1 x e c h l k (no_frame g) = no_frame (k g)
Walks-up own own1 root p n cur f m m1 x e c h l k (arrives own' table {m'} v e' a r g) =
    let j = prefix (n + 1) p % 512 in
    let same = e'.entries cur j x c h.0 in
    arrives own' table v (Extends-then own own1 own' m m1 m' e e') a
      (reach-present n 1 p cur m'.tables (ap is_present same ∙ h.0)
        ∙ ap (λ w. reach n 1 p w.frame m'.tables) same
        ∙ ap (λ w. reach n 1 p w m'.tables) h.1
        ∙ r)
      (omega (arith, l, g))

pub below : (n p : ℕ) → prefix (suc (suc n)) p * 512 + prefix (n + 1) p % 512 ≡ prefix (suc n) p
below n p =
    ap (λ k. prefix (suc (suc n)) p * 512 + prefix k p % 512) (omega arith)
    ∙ sym (prefix-split (suc n) p)

absent-missing :
    (n p cur : ℕ) (t : Tables)
    → is_present (t cur (prefix (n + 1) p % 512)) ≡ false
    → missing (suc n) p cur t ≡ suc n
unfolding missing
absent-missing n p cur t a = rw a refl

present-missing :
    (n p cur : ℕ) (t : Tables)
    → is_present (t cur (prefix (n + 1) p % 512)) ≡ true
    → missing (suc n) p cur t ≡ missing n p (t cur (prefix (n + 1) p % 512)).frame t
unfolding missing
present-missing n p cur t a = rw a refl

-- The walk in the new table, behind an allocation.
enter_frame-Walks :
    (own : Owner) (root p n cur : ℕ) (m : Mmu) (k : ℕ → Mmu → Outcome (Ret ℕ × Mmu))
    → IsTree own root m
    → own cur ≡ some (suc (suc n), prefix (suc (suc n)) p)
    → is_present (m.tables cur (prefix (n + 1) p % 512)) ≡ false
    → ((own' : Owner) (f : ℕ) (m' : Mmu)
        → IsTree own' root m'
        → own' f ≡ some (suc n, prefix (suc n) p)
        → Walks own' root p n f m' (k f m'))
    → {o : Outcome (ℕ × Frames)} → Allocates 1 m.frames o
    → Walks own root p
        (suc n)
        cur
        m
        (on_done (on_done o (zeroed_at 1 m)) λ r. enter_frame cur (prefix (n + 1) p % 512) r k)
enter_frame-Walks own root p n cur m k v c a ih (no_memory h) =
    no_frame (rw (free_count-none m.frames h, absent-missing n p cur m.tables a) (omega arith))
enter_frame-Walks own root p n cur m k v c a ih (taken idx {s'} t v') =
    let i = prefix (n + 1) p % 512 in
    let q0 = prefix (suc (suc n)) p in
    let own1 = give idx (suc n, q0 * 512 + i) own in
    let m1 : Mmu = record { frames = count_used 1 s'; tables = grown cur i idx m.tables } in
    let back : idx * pagesize / pagesize ≡ idx = omega arith in
    let fits : idx < 2 ^ 40 = omega (arith, t.below, v.small) in
    let e = grown-Extends own root m cur i idx n q0 s' v c a t v' in
    let entry =
      set_pte_self cur i (or_flags 7 0 (idx * pagesize)) (zero_frames idx 1 m.tables)
      ∙ new_entry idx fits in
    let deeper = give-at idx (suc n, q0 * 512 + i) own ∙ ap (λ w. some (suc n, w)) (below n p) in
    rw back (
      Walks-up own own1 root p n cur idx m m1 (suc (suc n), q0) e (e.owners cur _ c)
        (ap is_present entry, ap (λ w. w.frame) entry) (Takes-free_count 1 idx m.frames s' t)
        (λ g.
          rw (absent-missing n p cur m.tables a)
            (omega (arith, g, missing-le n p idx m1.tables, Takes-free_count 1 idx m.frames s' t)))
        (ih own1 idx m1 (grown-IsTree own root m cur i idx n q0 s' v c a t v') deeper))

-- On a tree, the walk from a table of the address's own ends at its table of level 1, in a tree, unless
-- it misses more tables than frames are free.
pub walk_levels-Walks :
    (va n : ℕ) (own : Owner) (root cur : ℕ) (m : Mmu)
    → n < 4
    → IsTree own root m
    → own cur ≡ some (suc n, prefix (suc n) (page_of va))
    → Walks own root (page_of va) n cur m (walk_levels n va 1 true cur m)
unfolding walk_levels reach mmu_alloc
walk_levels-Walks va zero own root cur m h v c =
    arrives own cur v (Extends-same own m) c refl (omega arith)
walk_levels-Walks va (suc n) own root cur m h v c =
    let p = page_of va in
    let i = prefix (n + 1) p % 512 in
    let level : mmu_get_level va (suc n + 1) ≡ some i =
      ap (mmu_get_level va) (omega arith) ∙ mmu_get_level-prefix (n + 1) va (omega (arith, h)) in
    let next = λ (own' : Owner) (f : ℕ) (m' : Mmu).
      walk_levels-Walks va n own' root f m' (omega (arith, h)) in
    rw level (elim (Bool-cases (is_present (m.tables cur i))) [
      | inl e ↦
          let f = (m.tables cur i).frame in
          let o = v.child cur i n (prefix (suc (suc n)) p) c (omega arith) e in
          rw e (
            Walks-up own own root p n cur f m m (suc (suc n), prefix (suc (suc n)) p)
              (Extends-same own m) c (e, refl) (omega arith)
              (λ g. rw (present-missing n p cur m.tables e) g)
              (next own f m v (o ∙ ap (λ w. some (suc n, w)) (below n p))))
      | inr e ↦ rw e (
          enter_frame-Walks own root p n cur m (walk_levels n va 1 true) v c e next
            (vm_alloc_frame-Allocates 1 m.frames v.valid (omega arith)))
    ])
