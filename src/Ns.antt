-- ===== src/Ns.antt =====
-- The namespaces of kernel objects: src/sys/os/os_ns.c. The `next` pointers of the hash maps are never
-- set, so a namespace is its 16 entries.
use Prim.Native.Nat.{bit_xor}
use l5lunos.Prelude.{
  ℕ, suc, ◌+◌, ◌*◌, ◌%◌, ◌^◌, Bool, true, false, Option, none, some, List, [], ◌∷◌, leb, ◌==◌,
  if◌then◌else◌, ◌>>=◌, Bytes, length, get_elem?, set, replicate, same_text,
}
use l5lunos.Prelude.Errno.{Ret, ok, err, einval, enoent}
use l5lunos.Mem.Kalloc.{Heap, kalloc}
pub mod Lookup
pub mod Taps

-- NS_HM_ENTRIES and NSMAX
abbrev pub ns_hm_entries : ℕ
ns_hm_entries = 16

abbrev pub nsmax : ℕ
nsmax = 8

-- `struct hashmap_entry`: `obj` is the address of the object, `data` in the source. The key is never
-- written.
pub record HashmapEntry : Type 0 where
  pub obj : Option ℕ
  pub name : Option Bytes

-- `struct ns_hashmap`
pub record NsHashmap : Type 0 where
  pub entries : List HashmapEntry
  pub entry_count : ℕ

-- `struct ns_obj`: whether there is a `read`, and the address of the data.
pub record NsObj : Type 0 where
  pub has_read : Bool
  pub content : Option ℕ
  pub refcount : ℕ

-- `namespace`, the heap, and the objects by their address.
pub record Namespaces : Type 0 where
  pub spaces : List NsHashmap
  pub heap : Heap
  pub objects : ℕ → NsObj

-- A round of the loop of `fnv1_hash`, on a `uint32_t`.
abbrev pub fnv1_step : ℕ → ℕ → ℕ
fnv1_step hash c = bit_xor hash c * 16777619 % 2 ^ 32

unfoldable pub fnv1_from : ℕ → Bytes → ℕ
fnv1_from hash [] = hash
fnv1_from hash (c ∷ s) = fnv1_from (fnv1_step hash c) s

unfoldable pub fnv1_hash : Bytes → ℕ
fnv1_hash s = fnv1_from 2166136261 s

abbrev pub key_of : Bytes → ℕ
key_of name = fnv1_hash name % ns_hm_entries

-- `strdup` of src/sys/lib/string/strdup.c
abbrev pub dup_of : Bytes → Option ℕ × Heap → Option Bytes × Heap
dup_of s (none, h) = (none, h)
dup_of s (some p, h) = (some s, h)

abbrev pub strdup : Bytes → Heap → Option Bytes × Heap
strdup s h = dup_of s (kalloc (length s + 1) h)

abbrev pub empty_entry : HashmapEntry
empty_entry = record { obj = none; name = none }

abbrev pub filled : ℕ → ℕ → NsHashmap → ℕ → Option Bytes × Heap → Namespaces → Namespaces
filled ns key hm obj (name, h) s = record s {
  heap = h;
  spaces = set s.spaces ns (record {
    entries = set hm.entries key (record { obj = some obj; name = name });
    entry_count = hm.entry_count + 1;
  });
}

-- A slot that is taken is left alone, and there is no next map.
abbrev pub enter_slot : ℕ → ℕ → NsHashmap → ℕ → Bytes → Namespaces → Option ℕ → Ret ℕ × Namespaces
enter_slot ns key hm obj name s none = (ok 0, filled ns key hm obj (strdup name s.heap) s)
enter_slot ns key hm obj name s (some o) = (ok 0, s)

abbrev pub enter_map : ℕ → ℕ → Bytes → Namespaces → NsHashmap → Option (Ret ℕ × Namespaces)
enter_map ns obj name s hm = get_elem? hm.entries (key_of name) >>= λ e.
    some (enter_slot ns (key_of name) hm obj name s e.obj)

-- `none` is an access outside of the arrays.
unfoldable pub ns_obj_enter : ℕ → Option ℕ → Option Bytes → Namespaces → Option (Ret ℕ × Namespaces)
ns_obj_enter ns none name s = some (err einval, s)
ns_obj_enter ns (some obj) none s = some (err einval, s)
ns_obj_enter ns (some obj) (some name) s =
    let rest = get_elem? s.spaces ns >>= λ hm. enter_map ns obj name s hm in
    if leb nsmax ns then some (err einval, s) else rest

-- What the lookup comes to.
pub data Looked : Type 0 where
  returns : Ret ℕ → Looked
  spins : Looked
  fault : Looked

-- Where a pointer is NULL, `continue` goes round again with the same map, and so for ever.
abbrev pub content_of : Option ℕ → Looked
content_of none = spins
content_of (some d) = returns (ok d)

abbrev pub object_of : Namespaces → Option ℕ → Looked
object_of s none = spins
object_of s (some obj) = content_of (s.objects obj).content

abbrev pub match_name : Bytes → Namespaces → Option ℕ → Option Bytes → Looked
match_name name s obj none = returns (err enoent)
match_name name s obj (some n) = if same_text n name then object_of s obj else returns (err enoent)

abbrev pub look_entry : Bytes → Namespaces → Option HashmapEntry → Looked
look_entry name s none = fault
look_entry name s (some e) = match_name name s e.obj e.name

abbrev pub look_map : Bytes → Namespaces → Option NsHashmap → Looked
look_map name s none = fault
look_map name s (some hm) = look_entry name s (get_elem? hm.entries (key_of name))

-- The address that is written to `*res_p`; whether `res_p` is there is an argument.
unfoldable pub ns_obj_lookup : ℕ → Option Bytes → Bool → Namespaces → Looked
ns_obj_lookup ns none res s = returns (err einval)
ns_obj_lookup ns (some name) false s = returns (err einval)
ns_obj_lookup ns (some name) true s =
    if leb nsmax ns then returns (err einval) else look_map name s (get_elem? s.spaces ns)

-- `ns_obj_init`, of an object that is there or NULL.
abbrev pub fresh_obj : NsObj
fresh_obj = record { has_read = false; content = none; refcount = 1 }

unfoldable pub ns_obj_init : Option ℕ → Namespaces → Ret ℕ × Namespaces
ns_obj_init none s = (err einval, s)
ns_obj_init (some p) s =
    (ok 0, record s { objects = λ q. if q == p then fresh_obj else s.objects q })

-- `ns_obj_read`: the length that is returned, and the address from which so many bytes are dup_of. The
-- offset is not used, and `read` is not called.
abbrev pub source_of : NsObj → Option ℕ
source_of o = if o.has_read then none else o.content

unfoldable pub ns_obj_read : Option NsObj → Bool → ℕ → ℕ → Ret (ℕ × Option ℕ)
ns_obj_read none buf off len = err einval
ns_obj_read (some o) false off len = err einval
ns_obj_read (some o) true off len = if len == 0 then err einval else ok (len, source_of o)

-- `ns_init`
unfoldable pub ns_init : Namespaces → Namespaces
ns_init s = record s {
  spaces =
      replicate nsmax (record { entries = replicate ns_hm_entries empty_entry; entry_count = 0 });
}
