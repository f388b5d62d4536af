-- ===== src/Pirho/Conv/Emit.antt =====
-- Proofs on `vm_push` and `vm_push64` of src/sys/arch/amd64/np/piir_conv.c.
use native.Mathlib.Numerals.{add-one}
use native.Mathlib.Nat.{add-zero}
use l5lunos.Prelude.{
  ℕ, zero, suc, ◌+◌, ◌-◌, ◌/◌, ◌%◌, ◌≤◌, ◌<◌, ◌≡◌, refl, ap, ◌∙◌, true, false, [], ◌∷◌, ◌++◌, arith,
  leb, Bytes, length, length-append, length-set, set, take, take-drop-set, take-take_prefix,
  snoc-append, append-nil,
}
use l5lunos.Pirho.Conv.{PiirVm, code_size, inst_at, push_inst, store_bytes, vm_push64}

-- The code up to `code_i` is `bs`.
pub record Emitted (vm : PiirVm) (bs : Bytes) : Type 0 where
  pub size : length vm.code ≡ code_size
  pub index : vm.code_i ≡ length bs
  pub code : take vm.code_i vm.code ≡ bs

-- The `n` bytes of an instruction from index `i` on.
abbrev pub inst_bytes : (ℕ → ℕ) → Bytes → ℕ → ℕ → Bytes
inst_bytes beyond inst zero i = []
inst_bytes beyond inst (suc n) i = inst_at beyond inst i ∷ inst_bytes beyond inst n (i + 1)

pub set-Emitted :
    (vm : PiirVm) (bs : Bytes) (b : ℕ)
    → Emitted vm bs
    → length bs < code_size
    → Emitted (record vm { code = set vm.code vm.code_i b; code_i = vm.code_i + 1 }) (bs ++ b ∷ [])
set-Emitted vm bs b e h = record {
  size = length-set vm.code vm.code_i b ∙ e.size;
  index = omega (arith, e.index, length-append bs (b ∷ []));
  code = rw add-one (
      take-drop-set vm.code 0 vm.code_i vm.code_i b (omega arith) (omega (arith, e.index, e.size))
      ∙ ap (λ l. l ++ b ∷ []) e.code);
}

-- `vm_push` appends the bytes, if they fit.
pub push_inst-Emitted :
    (beyond : ℕ → ℕ) (inst : Bytes) (n i : ℕ) (vm : PiirVm) (bs : Bytes)
    → Emitted vm bs
    → length bs + n ≤ code_size - 1
    → ((push_inst beyond inst n i vm).0 ≡ true)
      × Emitted (push_inst beyond inst n i vm).1 (bs ++ inst_bytes beyond inst n i)
unfolding push_inst
push_inst-Emitted beyond inst zero i vm bs e h = (refl, rw append-nil e)
push_inst-Emitted beyond inst (suc n) i vm bs e h =
    let b = inst_at beyond inst i in
    let vm' : PiirVm = record vm { code = set vm.code vm.code_i b; code_i = vm.code_i + 1 } in
    let more : leb (code_size - 1) vm.code_i ≡ false = ground (arith, e.index) in
    let ih =
      push_inst-Emitted beyond inst n (i + 1) vm' (bs ++ b ∷ [])
        (set-Emitted vm bs b e (omega arith)) (omega (arith, length-append bs (b ∷ []))) in
    simp more (ih.0, rw snoc-append at ih.1)

-- The low `n` bytes of `v`, the lowest first.
unfoldable pub le_bytes : ℕ → ℕ → Bytes
le_bytes zero v = []
le_bytes (suc n) v = (v % 256) ∷ le_bytes n (v / 256)

store_bytes-take :
    (n i v : ℕ) (code bs : Bytes)
    → take i code ≡ bs
    → i + n ≤ length code
    → (take (i + n) (store_bytes n i v code) ≡ bs ++ le_bytes n v)
      × (length (store_bytes n i v code) ≡ length code)
unfolding store_bytes le_bytes
store_bytes-take zero i v code bs e h = (rw (add-zero, append-nil) e, refl)
store_bytes-take (suc n) i v code bs e h =
    let code' = set code i (v % 256) in
    let grown : take (i + 1) code' ≡ bs ++ (v % 256) ∷ [] = rw add-one (
      take-drop-set code 0 i i (v % 256) (omega arith) (omega arith)
      ∙ ap (λ l. l ++ (v % 256) ∷ []) e) in
    let ih =
      store_bytes-take n (i + 1) (v / 256) code' (bs ++ (v % 256) ∷ []) grown
        (omega (arith, length-set code i (v % 256))) in
    (
      ap (λ k. take k (store_bytes n (i + 1) (v / 256) code')) (omega arith)
          ∙ ih.0
          ∙ snoc-append bs (v % 256) (le_bytes n (v / 256)),
      ih.1 ∙ length-set code i (v % 256),
    )

pub length-le_bytes : (n v : ℕ) → length (le_bytes n v) ≡ n
unfolding le_bytes
length-le_bytes zero v = refl
length-le_bytes (suc n) v = ap suc (length-le_bytes n (v / 256))

-- `vm_push64` appends the eight bytes of the value, if they fit.
pub vm_push64-Emitted :
    (v : ℕ) (vm : PiirVm) (bs : Bytes)
    → Emitted vm bs
    → length bs + 8 < code_size - 1
    → Emitted (vm_push64 v vm) (bs ++ le_bytes 8 v)
unfolding vm_push64
vm_push64-Emitted v vm bs e h =
    let room : leb (code_size - 1) (vm.code_i + 8) ≡ false = ground (arith, e.index) in
    let stored =
      store_bytes-take 8 vm.code_i v vm.code bs e.code (omega (arith, e.index, e.size)) in
    simp room (record {
      size = stored.1 ∙ e.size;
      index = omega (arith, e.index, length-append bs (le_bytes 8 v), length-le_bytes 8 v);
      code = stored.0;
    })

-- Moving `code_i` back drops the last bytes.
pub cut-Emitted :
    (k : ℕ) (vm : PiirVm) (bs cs : Bytes)
    → Emitted vm (bs ++ cs)
    → k ≡ length cs
    → Emitted (record vm { code_i = vm.code_i - k }) bs
cut-Emitted k vm bs cs e h =
    let back : vm.code_i - k ≡ length bs = omega (arith, e.index, length-append bs cs) in
    record {
      size = e.size;
      index = back;
      code = take-take_prefix (vm.code_i - k) vm.code_i vm.code bs cs e.code back;
    }
