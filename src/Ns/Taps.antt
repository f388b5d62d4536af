-- ===== src/Ns/Taps.antt =====
-- I/O taps: src/sys/os/os_iotap.c, over the namespaces. The devices' `read` is a parameter.
use l5lunos.Prelude.{
  ℕ, ◌+◌, ◌-◌, ◌%◌, ◌^◌, Bool, true, false, not, ◌||◌, Option, none, some, List, [], ◌∷◌, ltb, ◌==◌,
  if◌then◌else◌, ◌>>=◌, Bytes,
}
use l5lunos.Prelude.Errno.{Errno, Ret, ok, err, einval, enotsup}
use l5lunos.Prelude.Int8.{ℤ, pos, negsuc}
use l5lunos.Mem.Kalloc.{Heap, kalloc, kfree}
use l5lunos.Ns.{
  NsObj, Namespaces, strdup, fresh_obj, ns_obj_enter, Looked, returns, spins, fault, ns_obj_lookup,
}
pub mod Registry

-- `struct iotap_desc`; `ops` is the address of the vector, whose `read` may be NULL.
pub record IotapDesc : Type 0 where
  pub name : Option Bytes
  pub id : ℤ
  pub ops : ℕ

-- The namespaces, the descriptors by their address, and `next_id`.
pub record Taps : Type 0 where
  pub ns : Namespaces
  pub descs : ℕ → Option IotapDesc
  pub next_id : ℕ

-- NS_IOTAP
abbrev pub ns_iotap : ℕ
ns_iotap = 0

-- sizeof(struct iotap_desc) and sizeof(struct ns_obj) on amd64
abbrev pub sizeof_iotap_desc : ℕ
sizeof_iotap_desc = 24

abbrev pub sizeof_ns_obj : ℕ
sizeof_ns_obj = 24

-- The conversion to `iotap_t`, an `int16_t`.
unfoldable pub to_iotap : ℕ → ℤ
to_iotap n =
    if ltb (n % 2 ^ 16) (2 ^ 15) then pos (n % 2 ^ 16) else negsuc (2 ^ 16 - 1 - n % 2 ^ 16)

abbrev pub with_heap : Heap → Taps → Taps
with_heap h s = record s { ns = record (s.ns) { heap = h } }

-- The object at `o` with its data at `tap`.
abbrev pub with_obj : ℕ → ℕ → Namespaces → Namespaces
with_obj o tap s = record s {
  objects = λ q. if q == o then record fresh_obj { content = some tap } else s.objects q;
}

-- -EINVAL
abbrev pub einval_tap : ℤ
einval_tap = negsuc 21

-- What follows `ns_obj_enter`, which has no other error than -EINVAL.
abbrev pub handle : ℕ → ℕ → ℤ → Taps → Ret ℕ × Namespaces → ℤ × Taps
handle tap o id s (err e, n) =
    (einval_tap, record s { ns = record n { heap = kfree (some o) (kfree (some tap) n.heap) } })
handle tap o id s (ok z, n) = (id, record s { ns = n })

-- The copy of the descriptor with its number and its name, and the entry of the object.
abbrev pub entered_tap : IotapDesc → Bytes → ℕ → ℕ → Taps → Option Bytes × Heap → Option (ℤ × Taps)
entered_tap desc name tap o s (copy, h) =
    let id = to_iotap ((s.next_id + 1) % 2 ^ 64) in
    let d : IotapDesc = record desc { id = id; name = copy } in
    let s' : Taps = record s {
      descs = λ q. if q == tap then some d else s.descs q;
      next_id = (s.next_id + 1) % 2 ^ 64;
    } in
    ns_obj_enter ns_iotap (some o) (some name) (with_obj o tap (record (s.ns) { heap = h }))
    >>= λ r. some (handle tap o id s' r)

abbrev pub with_tap_obj : IotapDesc → Bytes → ℕ → Taps → Option ℕ × Heap → Option (ℤ × Taps)
with_tap_obj desc name tap s (none, h) = some (einval_tap, with_heap (kfree (some tap) h) s)
with_tap_obj desc name tap s (some o, h) = entered_tap desc name tap o s (strdup name h)

abbrev pub with_tap : IotapDesc → Bytes → Taps → Option ℕ × Heap → Option (ℤ × Taps)
with_tap desc name s (none, h) = some (einval_tap, with_heap h s)
with_tap desc name s (some tap, h) = with_tap_obj desc name tap s (kalloc sizeof_ns_obj h)

abbrev pub register_named : IotapDesc → Taps → Option Bytes → Option (ℤ × Taps)
register_named desc s none = some (einval_tap, s)
register_named desc s (some name) = with_tap desc name s (kalloc sizeof_iotap_desc s.ns.heap)

-- The number of the tap, an `iotap_t`, or an error below zero; `none` is an access outside of an array.
unfoldable pub iotap_register : IotapDesc → Taps → Option (ℤ × Taps)
iotap_register desc s = register_named desc s desc.name

-- What the lookup of a tap comes to.
pub data Found (A : Type 0) : Type 0 where
  answers : Ret A → Found A
  never_returns faults : Found A

abbrev pub desc_at : Option IotapDesc → Found IotapDesc
desc_at none = faults
desc_at (some d) = answers (ok d)

abbrev pub found_tap : Taps → Looked → Found IotapDesc
found_tap s (returns (ok p)) = desc_at (s.descs p)
found_tap s (returns (err e)) = answers (err e)
found_tap s spins = never_returns
found_tap s fault = faults

-- What is written to `*dp_res`; whether `dp_res` is there is an argument.
unfoldable pub iotap_lookup : Option Bytes → Bool → Taps → Found IotapDesc
iotap_lookup none res s = answers (err einval)
iotap_lookup (some name) false s = answers (err einval)
iotap_lookup (some name) true s = found_tap s (ns_obj_lookup ns_iotap (some name) true s.ns)

-- `struct iotap_msg`, with whether there is a buffer.
pub record IotapMsg : Type 0 where
  pub opcode : ℕ
  pub has_buf : Bool
  pub len : ℕ

-- IOTAP_OPC_READ
abbrev pub iotap_opc_read : ℕ
iotap_opc_read = 0

-- A device's `read`: what it returns for a tap and a length, and the bytes in the buffer.
abbrev pub TapRead : Type 0
TapRead = IotapDesc → ℕ → Ret (ℕ × Bytes)

-- The vectors by their address, `none` for a `read` that is NULL.
abbrev pub TapOps : Type 0
TapOps = ℕ → Option TapRead

abbrev pub read_tap : IotapDesc → ℕ → Option TapRead → Ret (ℕ × Bytes)
read_tap desc len none = err enotsup
read_tap desc len (some read) = read desc len

abbrev pub do_opcode : TapOps → IotapMsg → Found IotapDesc → Found (ℕ × Bytes)
do_opcode ops msg never_returns = never_returns
do_opcode ops msg faults = faults
do_opcode ops msg (answers (err e)) = answers (err e)
do_opcode ops msg (answers (ok desc)) =
    if msg.opcode == iotap_opc_read
    then answers (read_tap desc msg.len (ops desc.ops))
    else answers (err einval)

unfoldable pub iotap_mux : TapOps → Option Bytes → Option IotapMsg → Taps → Found (ℕ × Bytes)
iotap_mux ops name none s = answers (err einval)
iotap_mux ops name (some msg) s =
    if not msg.has_buf || (msg.len == 0)
    then answers (err einval)
    else do_opcode ops msg (iotap_lookup name true s)
