-- ===== src/Pirho/Piir/Fifo.antt =====
-- The bytes that wait in the queue of src/sys/np/codegen/gen_piir.c, and proofs on its
-- operations.
use l5lunos.Prelude.{
  ℕ, suc, ◌+◌, ◌-◌, ◌%◌, ◌^◌, ◌≤◌, ◌<◌, ◌≡◌, refl, ◌∙◌, inl, inr, Bool-cases, List, [], ◌∷◌, ◌++◌,
  arith, leb, ◌==◌, if◌then◌else◌, length, get_or, take, drop, length-set, take-drop-set, drop-cons,
  length-replicate, length-take, length-drop,
}
use l5lunos.Prelude.Errno.{ok, err, fail}
use l5lunos.Prelude.Int8.{ℤ, pos, negsuc}
use l5lunos.Pirho.Piir.{PiirStack, piir_stack_size, new_stack, piir_push, piir_pop}

pub record IsValid (s : PiirStack) : Type 0 where
  pub store : length s.opstore ≡ piir_stack_size
  pub order : s.op_tail ≤ s.op_head
  pub head : s.op_head ≤ piir_stack_size - 1

-- The bytes that wait, the oldest first.
unfoldable pub contents : PiirStack → List ℤ
contents s = take (s.op_head - s.op_tail) (drop s.op_tail s.opstore)

-- The specification of `piir_pop`: -1 where nothing waits.
unfoldable pub pop_front : List ℤ → ℤ × List ℤ
pop_front [] = (negsuc 0, [])
pop_front (b ∷ q) = (b, q)

pub length-contents : {s : PiirStack} → IsValid s → length (contents s) ≡ s.op_head - s.op_tail
unfolding contents
length-contents {s} v = omega (
  arith,
  length-take (s.op_head - s.op_tail) (drop s.op_tail s.opstore),
  length-drop s.op_tail s.opstore,
  v.store,
)

pub new_stack-IsValid : IsValid new_stack × (contents new_stack ≡ [])
unfolding new_stack contents
new_stack-IsValid = (
  record {
    store = length-replicate piir_stack_size (pos 0);
    order = omega arith;
    head = omega arith;
  },
  refl,
)

-- On a well formed queue, which it keeps so, `piir_push` appends the byte and returns 0, or, when
-- 4095 bytes were pushed, returns -1 and changes nothing.
pub piir_push_refines :
    (s : PiirStack) (b : ℤ)
    → IsValid s
    → IsValid (piir_push s b).1
      × ((piir_push s b).0 ≡ (if leb (piir_stack_size - 1) s.op_head then err fail else ok tt))
      × (contents (piir_push s b).1
          ≡ (if leb (piir_stack_size - 1) s.op_head then contents s else contents s ++ b ∷ []))
unfolding piir_push contents
piir_push_refines s b v = elim (Bool-cases (leb (piir_stack_size - 1) s.op_head)) [
  | inl full ↦ simp full (v, refl, refl)
  | inr room ↦ simp room (
    record {
      store = length-set s.opstore s.op_head b ∙ v.store;
      order = ground arith;
      head = ground arith;
    },
    refl,
    rw (extent (ground arith)) (
        take-drop-set s.opstore s.op_tail (s.op_head - s.op_tail) s.op_head b (omega arith)
          (ground arith)),
  )
]
  where
    extent : s.op_head < 4095 → (s.op_head + 1) % 2 ^ 16 - s.op_tail ≡ suc (s.op_head - s.op_tail)
    extent h = omega arith

contents-nil : (s : PiirStack) → s.op_tail ≡ s.op_head → contents s ≡ []
unfolding contents
contents-nil s e = rw (zero_of s.op_tail s.op_head e)
  where
    zero_of : (a b : ℕ) → a ≡ b → b - a ≡ 0
    zero_of a b h = omega arith

contents-cons :
    (s : PiirStack)
    → IsValid s
    → s.op_tail < s.op_head
    → contents s
      ≡ get_or s.opstore s.op_tail (pos 0)
        ∷ take (s.op_head - suc s.op_tail) (drop (suc s.op_tail) s.opstore)
unfolding contents
contents-cons s v h =
    rw (
      one_more s.op_tail s.op_head h,
      drop-cons s.opstore s.op_tail (pos 0) (omega (arith, v.store)),
    )
  where
    one_more : (a b : ℕ) → a < b → b - a ≡ suc (b - suc a)
    one_more a b h = omega arith

emptied :
    (s : PiirStack)
    → s.op_head ≡ suc s.op_tail
    → contents (record s { op_tail = 0; op_head = 0 })
      ≡ take (s.op_head - suc s.op_tail) (drop (suc s.op_tail) s.opstore)
emptied s e = contents-nil _ refl ∙ rw (zero_of s.op_head (suc s.op_tail) e)
  where
    zero_of : (a b : ℕ) → a ≡ b → a - b ≡ 0
    zero_of a b h = omega arith

advanced :
    (s : PiirStack)
    → (s.op_tail + 1) % 2 ^ 16 ≡ suc s.op_tail
    → contents (record s { op_tail = (s.op_tail + 1) % 2 ^ 16 })
      ≡ take (s.op_head - suc s.op_tail) (drop (suc s.op_tail) s.opstore)
unfolding contents
advanced s e = rw e

-- On a well formed queue, which it keeps so, `piir_pop` takes the byte that waits longest, or
-- returns -1 where none waits.
pub piir_pop_refines :
    (s : PiirStack)
    → IsValid s
    → IsValid (piir_pop s).1
      × ((piir_pop s).0 ≡ (pop_front (contents s)).0)
      × (contents (piir_pop s).1 ≡ (pop_front (contents s)).1)
unfolding piir_pop pop_front
piir_pop_refines s v = elim (Bool-cases (s.op_tail == s.op_head)) [
  | inl e ↦
      simp (e, contents-nil s (ground arith))
        (
          record { store = v.store; order = omega arith; head = omega arith },
          refl,
          contents-nil _ refl,
        )
  | inr ne ↦ elim (Bool-cases ((s.op_tail + 1) % 2 ^ 16 == s.op_head)) [
    | inl e ↦
        simp (ne, e, contents-cons s v (ground arith))
          (
            record { store = v.store; order = omega arith; head = omega arith },
            refl,
            emptied s (ground arith),
          )
    | inr more ↦
        simp (ne, more, contents-cons s v (ground arith))
          (
            record { store = v.store; order = ground arith; head = ground arith },
            refl,
            advanced s (ground arith),
          )
  ]
]
