-- ===== src/Sched/Cores.antt =====
-- The choice of a processor core: `cpu_sched` of src/sys/os/os_sched.c, and `cpu_get` of
-- src/sys/arch/amd64/cpu/cpu_mp.c.
use l5lunos.Prelude.{
  ℕ, zero, suc, ◌+◌, ◌-◌, ◌%◌, ◌^◌, ◌≤◌, ◌≡◌, refl, inl, inr, Bool-cases, Option, none, some, List,
  [], ◌∷◌, leb, ◌==◌, if◌then◌else◌, arith, get_elem?, length,
}

-- `ncores_up`, the boot processor `g_bsp`, and `corelist`, which holds the others that are up.
pub record Cores : Type 0 where
  pub ncores_up : ℕ
  pub bsp : ℕ
  pub corelist : List ℕ

-- `none` is NULL. An entry of `corelist` below `ncores_up` was written when its core came up.
unfoldable pub cpu_get : Cores → ℕ → Option ℕ
cpu_get c index =
    if index == 0
    then some c.bsp
    else if leb (c.ncores_up - 1) (index - 1)
    then none
    else get_elem? c.corelist (index - 1)

-- The core that is chosen, and `arbiter.rr_id` behind it.
abbrev pub chosen : Cores → ℕ → Option ℕ → Option ℕ × ℕ
chosen c rr_id none = (cpu_get c 0, 1)
chosen c rr_id (some p) = (some p, (rr_id + 1) % 2 ^ 64)

-- The index is converted to `uint16_t`.
unfoldable pub cpu_sched : Cores → ℕ → Option ℕ × ℕ
cpu_sched c rr_id = chosen c rr_id (cpu_get c (rr_id % 2 ^ 16))

-- The cores that are up are in the list, and CPU_MAX bounds their number.
pub record IsValid (c : Cores) : Type 0 where
  pub some_up : 1 ≤ c.ncores_up
  pub bound : c.ncores_up ≤ 256
  pub listed : c.ncores_up ≤ length c.corelist + 1

get_elem?-some : (l : List ℕ) (i : ℕ) → suc i ≤ length l → (p : ℕ) × (get_elem? l i ≡ some p)
get_elem?-some [] i h = absurd (omega arith)
get_elem?-some (x ∷ l) zero h = (x, refl)
get_elem?-some (x ∷ l) (suc i) h = get_elem?-some l i (omega arith)

cpu_get-up :
    (c : Cores) (i : ℕ) → IsValid c → suc i ≤ c.ncores_up → (p : ℕ) × (cpu_get c i ≡ some p)
unfolding cpu_get
cpu_get-up c zero v h = (c.bsp, refl)
cpu_get-up c (suc i) v h =
    let (p, e) = get_elem?-some c.corelist i (omega (arith, v.listed)) in (p, ground (arith, e))

cpu_get-end : (c : Cores) → IsValid c → cpu_get c c.ncores_up ≡ none
unfolding cpu_get
cpu_get-end c v = ground (arith, v.some_up)

-- Where the cores that are up are listed and at most 256, and `rr_id` is at most their number,
-- `cpu_sched` goes round: it gives core `rr_id`, or core 0 behind the last one, never NULL, and `rr_id`
-- is then the next number.
pub cpu_sched-round :
    (c : Cores) (rr_id : ℕ)
    → IsValid c
    → rr_id ≤ c.ncores_up
    → let i : ℕ = if rr_id == c.ncores_up then 0 else rr_id in
      (p : ℕ) × (cpu_get c i ≡ some p)
      × (cpu_sched c rr_id ≡ (some p, i + 1))
      × (i + 1 ≤ c.ncores_up)
unfolding cpu_sched
cpu_sched-round c rr_id v h = elim (Bool-cases (rr_id == c.ncores_up)) [
  | inl e ↦
      let last : rr_id % 2 ^ 16 ≡ c.ncores_up = ground (arith, v.bound, e) in
      let (p, k) = cpu_get-up c 0 v v.some_up in
      simp (e, last, cpu_get-end c v) (p, k, simp k refl, v.some_up)
  | inr e ↦
      let same : rr_id % 2 ^ 16 ≡ rr_id = omega (arith, v.bound, h) in
      let wrap : (rr_id + 1) % 2 ^ 64 ≡ rr_id + 1 = omega (arith, v.bound, h) in
      let (p, k) = cpu_get-up c rr_id v (ground (arith, e, h)) in
      simp (e, same) (p, k, simp (k, wrap) refl, ground (arith, e, h))
]
