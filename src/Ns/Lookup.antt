-- ===== src/Ns/Lookup.antt =====
-- Proofs on src/sys/os/os_ns.c.
use l5lunos.Prelude.{
  ◌⊎◌, ℕ, zero, suc, ◌+◌, ◌<◌, ◌≡◌, ◌≢◌, refl, sym, ◌∙◌, inl, inr, Bool-cases, true, false, Option,
  none, some, List, [], ◌∷◌, leb, ◌==◌, if◌then◌else◌, ◌>>=◌, arith, Bytes, length, length-set,
  get_elem?, get_elem?-set_self, get_elem?-set_ne, set, same_text, same_text_iff,
}
use l5lunos.Prelude.Errno.{Ret, ok, err, enoent}
use l5lunos.Ns.{
  HashmapEntry, NsHashmap, Namespaces, ns_hm_entries, nsmax, key_of, filled, strdup, enter_slot,
  ns_obj_enter, Looked, returns, look_map, match_name, content_of, ns_obj_lookup,
}

unfoldable pub AllSized : List NsHashmap → Type 0
AllSized [] = Unit
AllSized (hm ∷ hms) = (length hm.entries ≡ ns_hm_entries) × AllSized hms

-- The arrays have their sizes.
pub record IsNamespaces (s : Namespaces) : Type 0 where
  pub spaces : length s.spaces ≡ nsmax
  pub maps : AllSized s.spaces

-- The slot of a name.
abbrev pub slot : Namespaces → ℕ → ℕ → Option HashmapEntry
slot s ns key = get_elem? s.spaces ns >>= λ hm. get_elem? hm.entries key

get_elem?-lt :
    {A : Type 0} (xs : List A) (i : ℕ) → i < length xs → (x : A) × (get_elem? xs i ≡ some x)
get_elem?-lt [] i h = absurd (omega (arith, h))
get_elem?-lt (x ∷ xs) zero h = (x, refl)
get_elem?-lt (x ∷ xs) (suc i) h = get_elem?-lt xs i (omega (arith, h))

sized_at :
    (hms : List NsHashmap) (ns : ℕ) (hm : NsHashmap)
    → AllSized hms
    → get_elem? hms ns ≡ some hm
    → length hm.entries ≡ ns_hm_entries
unfolding AllSized
sized_at [] ns hm a h = cc h
sized_at (x ∷ hms) zero hm a h = let e : x ≡ hm = cc h in rw (sym e) (a.0)
sized_at (x ∷ hms) (suc ns) hm a h = sized_at hms ns hm a.1 h

AllSized-set :
    (hms : List NsHashmap) (ns : ℕ) (hm : NsHashmap)
    → AllSized hms
    → length hm.entries ≡ ns_hm_entries
    → AllSized (set hms ns hm)
unfolding AllSized
AllSized-set [] ns hm a h = tt
AllSized-set (x ∷ hms) zero hm a h = (h, a.1)
AllSized-set (x ∷ hms) (suc ns) hm a h = (a.0, AllSized-set hms ns hm a.1 h)

-- What `ns_obj_enter` comes to: the slot was taken and nothing happens, or the object is in it, with a
-- copy of the name or NULL for it, and every other slot is as before.
pub data Enters (ns obj : ℕ) (name : Bytes) (s : Namespaces)
    : Option (Ret ℕ × Namespaces) → Type 0 where
  taken :
      (e : HashmapEntry) (o : ℕ)
      → slot s ns (key_of name) ≡ some e
      → e.obj ≡ some o
      → Enters ns obj name s (some (ok 0, s))
  entered :
      {s' : Namespaces}
      → IsNamespaces s'
      → s'.objects ≡ s.objects
      → slot s' ns (key_of name) ≡ some (record { obj = some obj; name = (strdup name s.heap).0 })
      → ((m key : ℕ) → (m ≢ ns) ⊎ (key ≢ key_of name) → slot s' m key ≡ slot s m key)
      → Enters ns obj name s (some (ok 0, s'))

other_slot :
    (s : Namespaces) (ns k : ℕ) (hm : NsHashmap) (e : HashmapEntry) (n : ℕ) (m key : ℕ)
    → get_elem? s.spaces ns ≡ some hm
    → ns < length s.spaces
    → (m ≢ ns) ⊎ (key ≢ k)
    → (get_elem? (set s.spaces ns (record { entries = set hm.entries k e; entry_count = n })) m
        >>= λ h. get_elem? h.entries key)
      ≡ slot s m key
other_slot s ns k hm e n m key g l d = elim (Bool-cases (ns == m)) [
  | inl t ↦
      let q : ns ≡ m = ground (arith, t) in
      let c : k ≢ key = ground (arith, d, q) in
      rw
        (
          sym q,
          get_elem?-set_self s.spaces ns (record { entries = set hm.entries k e; entry_count = n })
              l,
          g,
        )
        (get_elem?-set_ne hm.entries k key e c)
  | inr t ↦
      let q : ns ≢ m = ground (arith, t) in
      rw
        (get_elem?-set_ne s.spaces ns m (record { entries = set hm.entries k e; entry_count = n })
          q)
        refl
]

filled-Enters :
    (ns obj : ℕ) (name : Bytes) (s : Namespaces) (hm : NsHashmap)
    → IsNamespaces s
    → ns < nsmax
    → get_elem? s.spaces ns ≡ some hm
    → Enters ns obj name s (some (ok 0, filled ns (key_of name) hm obj (strdup name s.heap) s))
filled-Enters ns obj name s hm v h g =
    let l : ns < length s.spaces = omega (arith, h, v.spaces) in
    let z = sized_at s.spaces ns hm v.maps g in
    let k : key_of name < length hm.entries = omega (arith, z) in
    let e : HashmapEntry = record { obj = some obj; name = (strdup name s.heap).0 } in
    let hm' : NsHashmap = record {
      entries = set hm.entries (key_of name) e;
      entry_count = hm.entry_count + 1;
    } in
    entered
      (record {
        spaces = length-set s.spaces ns hm' ∙ v.spaces;
        maps = AllSized-set s.spaces ns hm' v.maps (length-set hm.entries (key_of name) e ∙ z);
      })
      refl
      (rw (get_elem?-set_self s.spaces ns hm' l) (get_elem?-set_self hm.entries (key_of name) e k))
      (λ m key d. other_slot s ns (key_of name) hm e (hm.entry_count + 1) m key g l d)

enter_slot-Enters :
    (ns obj : ℕ) (name : Bytes) (s : Namespaces) (hm : NsHashmap) (e : HashmapEntry) (o : Option ℕ)
    → IsNamespaces s
    → ns < nsmax
    → get_elem? s.spaces ns ≡ some hm
    → get_elem? hm.entries (key_of name) ≡ some e
    → e.obj ≡ o
    → Enters ns obj name s (some (enter_slot ns (key_of name) hm obj name s o))
enter_slot-Enters ns obj name s hm e none v h g f q = filled-Enters ns obj name s hm v h g
enter_slot-Enters ns obj name s hm e (some o) v h g f q = taken e o (rw (g, f) refl) q

-- `ns_obj_enter` of an object and a name in one of the 8 namespaces stays within the arrays and
-- returns 0. Where the slot of the name's hash is free it gets the object and the copy of the name, and every other
-- slot stays; where it is taken nothing happens.
pub ns_obj_enter-Enters :
    (ns obj : ℕ) (name : Bytes) (s : Namespaces)
    → IsNamespaces s
    → ns < nsmax
    → Enters ns obj name s (ns_obj_enter ns (some obj) (some name) s)
unfolding ns_obj_enter
ns_obj_enter-Enters ns obj name s v h =
    let b : leb nsmax ns ≡ false = ground (arith, h) in
    let (hm, g) = get_elem?-lt s.spaces ns (omega (arith, h, v.spaces)) in
    let z = sized_at s.spaces ns hm v.maps g in
    let (e, f) = get_elem?-lt hm.entries (key_of name) (omega (arith, z)) in
    rw (b, g, f) (enter_slot-Enters ns obj name s hm e e.obj v h g f refl)

look_map-slot :
    (ns : ℕ) (name : Bytes) (s : Namespaces) (e : HashmapEntry)
    → slot s ns (key_of name) ≡ some e
    → look_map name s (get_elem? s.spaces ns) ≡ match_name name s e.obj e.name
look_map-slot ns name s e q = at_map (get_elem? s.spaces ns) q
  where
    at_map :
        (o : Option NsHashmap)
        → (o >>= λ hm. get_elem? hm.entries (key_of name)) ≡ some e
        → look_map name s o ≡ match_name name s e.obj e.name
    at_map none q = cc q
    at_map (some hm) q = rw q refl

-- What `ns_obj_lookup` gives for what a slot holds: the object's data where the names are the same; it does not return
-- where the object has no data, and gives ENOENT for another name.
abbrev pub expected : Namespaces → Bytes → Bytes → ℕ → Looked
expected s name n obj =
    if same_text n name then content_of (s.objects obj).content else returns (err enoent)

-- A lookup in a namespace where the slot of the name's hash has been filled gives the data of the object where it was entered under that
-- name, and ENOENT where it was entered under another. It never returns where the object has no data.
pub ns_obj_lookup-expected :
    (ns obj : ℕ) (name n : Bytes) (s : Namespaces)
    → ns < nsmax
    → slot s ns (key_of name) ≡ some (record { obj = some obj; name = some n })
    → ns_obj_lookup ns (some name) true s ≡ expected s name n obj
unfolding ns_obj_lookup
ns_obj_lookup-expected ns obj name n s h q =
    let b : leb nsmax ns ≡ false = ground (arith, h) in
    rw b (look_map-slot ns name s (record { obj = some obj; name = some n }) q)

lookup-Enters :
    (ns obj : ℕ) (name : Bytes) (s s' : Namespaces) (r : Option (Ret ℕ × Namespaces))
    → Enters ns obj name s r
    → r ≡ some (ok 0, s')
    → ns < nsmax
    → slot s ns (key_of name) ≡ some (record { obj = none; name = none })
    → (strdup name s.heap).0 ≡ some name
    → ns_obj_lookup ns (some name) true s' ≡ content_of (s.objects obj).content
lookup-Enters ns obj name s t _ (taken e o f g) q h k d = cc (f, g, k)
lookup-Enters ns obj name s t _ (entered {s'} v o f other) q h k d =
    let i : s' ≡ t = cc q in
    let c : slot s' ns (key_of name) ≡ some (record { obj = some obj; name = some name }) =
      rw (sym d) f in
    rw (sym i) (
      ns_obj_lookup-expected ns obj name name s' h c
      ∙ rw ((same_text_iff name name).1 refl, o) refl)

-- An object that is entered in a free slot, with memory for the copy of its name, is found again
-- under that name, and its data are given; where it has none the lookup does not return.
pub ns_obj_lookup-ns_obj_enter :
    (ns obj : ℕ) (name : Bytes) (s s' : Namespaces)
    → IsNamespaces s
    → ns < nsmax
    → slot s ns (key_of name) ≡ some (record { obj = none; name = none })
    → (strdup name s.heap).0 ≡ some name
    → ns_obj_enter ns (some obj) (some name) s ≡ some (ok 0, s')
    → ns_obj_lookup ns (some name) true s' ≡ content_of (s.objects obj).content
ns_obj_lookup-ns_obj_enter ns obj name s s' v h k d q =
    lookup-Enters ns obj name s s' (ns_obj_enter ns (some obj) (some name) s)
      (ns_obj_enter-Enters ns obj name s v h) q h k d
