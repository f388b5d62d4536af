-- ===== src/Tests/Paging.antt =====
-- The page tables and the mappings on a small memory, whose frame 2 is the root of an address space.
use l5lunos.Prelude.{
  ℕ, ◌/◌, ◌%◌, ◌^◌, ◌≡◌, refl, inl, inr, Bool-cases, true, false, none, some, [], ◌∷◌, arith, ◌==◌,
  if◌then◌else◌, get_elem?, List, Bool,
}
use l5lunos.Vm.Frames.{Frames}
use l5lunos.Vm.Mmu.{Mmu, zero_pte}
use l5lunos.Vm.Mmu.Owned.{Owner, IsTree}
use l5lunos.Vm.Map.{Space}
use l5lunos.Tests.Data.{heap}

abbrev bits : List Bool
bits =
    true ∷ true ∷ true ∷ false ∷ false ∷ false ∷ false ∷ false ∷ false ∷ false ∷ false ∷ false ∷ []

abbrev frames : Frames
frames = record {
  bitmap = bits;
  highest_frame_idx = 12;
  last_idx = 0;
  pages_free = 9;
  pages_used = 3;
  pages_total = 12;
  bitmap_free_start = 3;
}

abbrev mmu : Mmu
mmu = record { frames = frames; tables = λ f i. zero_pte }

abbrev pub owner : Owner
owner f = if f == 2 then some (4, 0) else none

owner-used : (f k q : ℕ) → owner f ≡ some (k, q) → get_elem? bits f ≡ some true
owner-used f k q h = elim (Bool-cases (f == 2)) [
  | inl e ↦ let same : f ≡ 2 = ground (arith, e) in simp same refl
  | inr e ↦ ground (arith, e, h)
]

pub mmu-IsTree : IsTree owner (8192 / 4096 % 2 ^ 40) mmu
mmu-IsTree = record {
  at_root = refl;
  child = λ f i k q o l p. absurd (cc p);
  used = owner-used;
  valid = record { covered = omega arith; last = omega arith; zero_used = refl };
  small = omega arith;
}

abbrev pub space : Space
space = record { mmu = mmu; heap = heap; self = some [] }
