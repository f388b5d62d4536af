-- ===== src/Vm/Mmu/Translate.antt =====
-- The translation of addresses that a processor with four levels makes of the tables that
-- src/sys/arch/amd64/cpu/mmu.c writes.
use l5lunos.Prelude.{
  ℕ, zero, suc, ◌+◌, ◌*◌, ◌/◌, ◌%◌, ◌^◌, ◌<◌, ◌≡◌, refl, sym, ap, ◌∙◌, inl, inr, Bool-cases, Bool,
  not, true, false, Option, none, some, arith, if◌then◌else◌,
}
use l5lunos.Vm.Frames.{pagesize}
use l5lunos.Vm.Mmu.{Pte, Tables, is_present, is_set, mmu_get_level}

-- The number of a page without its lowest `n` indices of 9 bits.
unfoldable pub prefix : ℕ → ℕ → ℕ
prefix zero p = p
prefix (suc n) p = prefix n p / 512

-- From the table `cur`, `n` levels down to a table of level `l`.
unfoldable pub reach : ℕ → ℕ → ℕ → ℕ → Tables → Option ℕ
reach zero l p cur t = some cur
reach (suc n) l p cur t =
    let e = t cur (prefix (n + l) p % 512) in
    let next = reach n l p e.frame t in if is_present e then next else none

-- What an entry of a page gives: the frame, and what may be done there, by the bits PTE_RW, PTE_US and
-- PTE_NX.
pub record Access : Type 0 where
  pub frame : ℕ
  pub writable : Bool
  pub user : Bool
  pub executable : Bool

abbrev pub access : Pte → Access
access e = record {
  frame = e.frame;
  writable = is_set e.low 2;
  user = is_set e.low 4;
  executable = not (is_set e.high (2 ^ 11));
}

-- What the entry `e`, `n` levels above that of a page, gives, where `next` is what the table gives that
-- it leads to.
abbrev pub step : ℕ → Pte → Option Access → Option Access
step zero e next = some (access e)
step (suc n) e next = next

-- From the table `cur`, `n` levels down to a page.
unfoldable pub look : ℕ → ℕ → ℕ → Tables → Option Access
look zero p cur t = none
look (suc n) p cur t =
    let e = t cur (prefix (n + 0) p % 512) in
    let next = step n e (look n p e.frame t) in if is_present e then next else none

-- The number of the page that an address of 48 bits is in.
abbrev pub page_of : ℕ → ℕ
page_of va = va / pagesize % 2 ^ 36

-- `mmu_get_level` takes the indices that the processor takes.
pub mmu_get_level-prefix :
    (n va : ℕ) → n < 4 → mmu_get_level va (suc n) ≡ some (prefix n (page_of va) % 512)
unfolding mmu_get_level prefix
mmu_get_level-prefix zero va h = ap some (omega arith)
mmu_get_level-prefix (suc zero) va h = ap some (omega arith)
mmu_get_level-prefix (suc (suc zero)) va h = ap some (omega arith)
mmu_get_level-prefix (suc (suc (suc zero))) va h = ap some (omega arith)
mmu_get_level-prefix (suc (suc (suc (suc n)))) va h = absurd (omega (arith, h))

pub prefix-split : (n p : ℕ) → prefix n p ≡ prefix (suc n) p * 512 + prefix n p % 512
unfolding prefix
prefix-split n p = omega arith

pub prefix_top : (p : ℕ) → p < 2 ^ 36 → prefix 4 p ≡ 0
unfolding prefix
prefix_top p h = omega (arith, h)

pub reach-present :
    (n l p cur : ℕ) (t : Tables)
    → is_present (t cur (prefix (n + l) p % 512)) ≡ true
    → reach (suc n) l p cur t ≡ reach n l p (t cur (prefix (n + l) p % 512)).frame t
unfolding reach
reach-present n l p cur t h = rw h refl

pub reach-absent :
    (n l p cur : ℕ) (t : Tables)
    → is_present (t cur (prefix (n + l) p % 512)) ≡ false
    → reach (suc n) l p cur t ≡ none
unfolding reach
reach-absent n l p cur t h = rw h refl

pub look-present :
    (n p cur : ℕ) (t : Tables)
    → is_present (t cur (prefix (n + 0) p % 512)) ≡ true
    → (let e = t cur (prefix (n + 0) p % 512) in
        look (suc n) p cur t ≡ step n e (look n p e.frame t))
unfolding look
look-present n p cur t h = rw h refl

pub look-absent :
    (n p cur : ℕ) (t : Tables)
    → is_present (t cur (prefix (n + 0) p % 512)) ≡ false
    → look (suc n) p cur t ≡ none
unfolding look
look-absent n p cur t h = rw h refl

-- An entry that stays, and leads to what stays.
pub look-same :
    (n p cur : ℕ) (t t' : Tables)
    → t' cur (prefix (n + 0) p % 512) ≡ t cur (prefix (n + 0) p % 512)
    → (let w = t cur (prefix (n + 0) p % 512) in
        is_present w ≡ true → look n p w.frame t' ≡ look n p w.frame t)
    → look (suc n) p cur t' ≡ look (suc n) p cur t
look-same n p cur t t' same ih = elim (Bool-cases (is_present (t cur (prefix (n + 0) p % 512)))) [
  | inl z ↦
      look-present n p cur t' (ap is_present same ∙ z)
      ∙ ap (λ w. step n w (look n p w.frame t')) same
      ∙ ap (step n (t cur (prefix (n + 0) p % 512))) (ih z)
      ∙ sym (look-present n p cur t z)
  | inr z ↦ look-absent n p cur t' (ap is_present same ∙ z) ∙ sym (look-absent n p cur t z)
]
