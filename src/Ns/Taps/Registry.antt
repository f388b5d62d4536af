-- ===== src/Ns/Taps/Registry.antt =====
-- Proofs on `iotap_register` and `iotap_lookup` of src/sys/os/os_iotap.c.
use l5lunos.Prelude.{
  ℕ, ◌+◌, ◌%◌, ◌^◌, ◌<◌, ◌≡◌, refl, true, Option, none, some, ◌∷◌, ◌==◌, if◌then◌else◌, ◌>>=◌,
  arith, Bytes, length,
}
use l5lunos.Prelude.Errno.{Ret, ok}
use l5lunos.Prelude.Int8.{ℤ, pos}
use l5lunos.Mem.Kalloc.{Heap, kalloc}
use l5lunos.Ns.{Namespaces, key_of, strdup, ns_obj_enter}
use l5lunos.Ns.Lookup.{
  IsNamespaces, slot, Enters, taken, entered, ns_obj_enter-Enters, ns_obj_lookup-ns_obj_enter,
}
use l5lunos.Ns.Taps.{
  IotapDesc, Taps, sizeof_iotap_desc, sizeof_ns_obj, to_iotap, with_obj, handle, entered_tap,
  register_named, iotap_register, answers, iotap_lookup,
}

-- The heap grants every request.
pub record GrantsAll (h : Heap) : Type 0 where
  pub init : h.is_init ≡ true
  pub all : (n sz : ℕ) → (p : ℕ) × (h.grants n sz ≡ some p)

-- A request to such a heap.
record Granted (sz : ℕ) (h : Heap) : Type 0 where
  addr : ℕ
  rest : Heap
  answer : kalloc sz h ≡ (some addr, rest)
  more : GrantsAll rest

kalloc-GrantsAll : (sz : ℕ) (h : Heap) → GrantsAll h → Granted sz h
unfolding kalloc
kalloc-GrantsAll sz h g =
    let (p, e) = g.all h.calls sz in
    record {
      addr = p;
      rest = record h { calls = h.calls + 1; live = p ∷ h.live };
      answer = rw (g.init, e) refl;
      more = record { init = g.init; all = g.all };
    }

-- The slot of a name is free.
abbrev pub IsFree : Bytes → Namespaces → Type 0
IsFree name s = slot s 0 (key_of name) ≡ some (record { obj = none; name = none })

-- The state with the copy of the descriptor, and its number.
abbrev noted : IotapDesc → Bytes → ℕ → Taps → Taps
noted desc name tap s = record s {
  descs = λ q.
      if q == tap
      then some (record desc { id = to_iotap ((s.next_id + 1) % 2 ^ 64); name = some name })
      else s.descs q;
  next_id = (s.next_id + 1) % 2 ^ 64;
}

-- A tap was registered: its number is the next and above zero, and the lookup of the name gives the copy
-- with it.
pub data Registers (desc : IotapDesc) (name : Bytes) (s : Taps) : Option (ℤ × Taps) → Type 0 where
  registered :
      {s' : Taps}
      → s'.next_id ≡ s.next_id + 1
      → IsNamespaces s'.ns
      → iotap_lookup (some name) true s'
        ≡ answers (ok (record desc { name = some name; id = pos (s.next_id + 1) }))
      → Registers desc name s (some (pos (s.next_id + 1), s'))

-- The next number, as an `int16_t`.
next_tap :
    (n : ℕ)
    → n + 1 < 2 ^ 15
    → ((n + 1) % 2 ^ 64 ≡ n + 1) × (to_iotap ((n + 1) % 2 ^ 64) ≡ pos (n + 1))
unfolding to_iotap
next_tap n l = (omega (arith, l), ground (arith, l))

handle-Enters :
    (desc : IotapDesc) (name : Bytes) (tap o : ℕ) (s : Taps) (n : Namespaces)
    (r : Option (Ret ℕ × Namespaces))
    → IsNamespaces n
    → IsFree name n
    → (strdup name n.heap).0 ≡ some name
    → (n.objects o).content ≡ some tap
    → ns_obj_enter 0 (some o) (some name) n ≡ r
    → Enters 0 o name n r
    → s.next_id + 1 < 2 ^ 15
    → Registers desc name s (
        r >>= λ q.
        some (handle tap o (to_iotap ((s.next_id + 1) % 2 ^ 64)) (noted desc name tap s) q))
unfolding iotap_lookup
handle-Enters desc name tap o s n _ v f d c q (taken e p g h) l = cc (f, g, h)
handle-Enters desc name tap o s n _ v f d c q (entered {s'} w _ g other) b =
    let (count, id) = next_tap s.next_id b in
    let l = ns_obj_lookup-ns_obj_enter 0 o name n s' v (omega arith) f d q in
    let r : (tap == tap) ≡ true = ground arith in rw id (registered count w (rw (l, c, r, id) refl))

entered_tap-Registers :
    (desc : IotapDesc) (name : Bytes) (tap o : ℕ) (s : Taps) (h : Heap)
    → IsNamespaces s.ns
    → IsFree name s.ns
    → (strdup name h).0 ≡ some name
    → s.next_id + 1 < 2 ^ 15
    → Registers desc name s (entered_tap desc name tap o s (some name, h))
entered_tap-Registers desc name tap o s h v f d b =
    let n = with_obj o tap (record (s.ns) { heap = h }) in
    let w : IsNamespaces n = record { spaces = v.spaces; maps = v.maps } in
    let r : (o == o) ≡ true = ground arith in
    handle-Enters desc name tap o s n (ns_obj_enter 0 (some o) (some name) n) w f d (rw r refl) refl
      (ns_obj_enter-Enters 0 o name n w (omega arith)) b

register_named-Registers :
    (desc : IotapDesc) (name : Bytes) (s : Taps) (o : Option Bytes)
    → IsNamespaces s.ns
    → GrantsAll s.ns.heap
    → IsFree name s.ns
    → o ≡ some name
    → s.next_id + 1 < 2 ^ 15
    → Registers desc name s (register_named desc s o)
register_named-Registers desc name s none v g f e l = cc e
register_named-Registers desc name s (some t) v g f e l =
    let i : t ≡ name = cc e in
    let a = kalloc-GrantsAll sizeof_iotap_desc s.ns.heap g in
    let b = kalloc-GrantsAll sizeof_ns_obj a.rest a.more in
    let c = kalloc-GrantsAll (length name + 1) b.rest b.more in
    let d = kalloc-GrantsAll (length name + 1) c.rest c.more in
    rw (i, a.answer, b.answer, c.answer)
      (entered_tap-Registers desc name a.addr b.addr s c.rest v f (rw (d.answer) refl) l)

-- Where the heap grants every request, the slot of the name's hash is free, and fewer than 2^15 - 1
-- numbers were given, `iotap_register` of a descriptor with a name succeeds and returns the next number,
-- and `iotap_lookup` of the name then gives the descriptor with that number.
pub iotap_register-Registers :
    (desc : IotapDesc) (name : Bytes) (s : Taps)
    → IsNamespaces s.ns
    → GrantsAll s.ns.heap
    → IsFree name s.ns
    → desc.name ≡ some name
    → s.next_id + 1 < 2 ^ 15
    → Registers desc name s (iotap_register desc s)
unfolding iotap_register
iotap_register-Registers desc name s v g f e l =
    register_named-Registers desc name s desc.name v g f e l
