-- ===== src/Mem/Ptrbox.antt =====
-- src/sys/lib/ptrbox.c: a queue of the blocks that were allocated for one purpose.
pub mod Balance
use l5lunos.Prelude.{
  ℕ, ◌+◌, Option, none, some, List, [], ◌∷◌, ◌++◌, ◌==◌, if◌then◌else◌, Bytes, length, map,
}
use l5lunos.Mem.Kalloc.{Heap, kalloc, kfree}

-- `struct ptrbox_entry`, with its own address.
pub record Entry : Type 0 where
  pub node : ℕ
  pub block : Option ℕ
  pub len : ℕ

-- `struct ptrbox`, with its own address.
pub record Ptrbox : Type 0 where
  pub self : ℕ
  pub count : ℕ
  pub q : List Entry

-- The heap with the box that the compiler allocates from.
pub record Mem : Type 0 where
  pub heap : Heap
  pub box : Ptrbox

-- A `char *` that is not NULL: its address, and the text before the NUL.
pub record CStr : Type 0 where
  pub addr : ℕ
  pub text : Bytes

-- sizeof(struct ptrbox_entry) and sizeof(struct ptrbox) on amd64
abbrev pub sizeof_entry : ℕ
sizeof_entry = 32

abbrev pub sizeof_ptrbox : ℕ
sizeof_ptrbox = 24

-- `ent->data = kalloc(len)` with what follows it.
abbrev pub alloc_block : ℕ → ℕ → Option ℕ × Heap → Ptrbox → Option ℕ × Mem
alloc_block len ent (none, h) box = (none, record { heap = kfree (some ent) h; box = box })
alloc_block len ent (some p, h) box = (
  some p,
  record {
    heap = h;
    box = record box { q = box.q ++ (record { node = ent; block = some p; len = len }) ∷ [] };
  },
)

abbrev pub alloc_entry : ℕ → Option ℕ × Heap → Ptrbox → Option ℕ × Mem
alloc_entry len (none, h) box = (none, record { heap = h; box = box })
alloc_entry len (some ent, h) box = alloc_block len ent (kalloc len h) box

unfoldable pub ptrbox_alloc : ℕ → Mem → Option ℕ × Mem
ptrbox_alloc len m =
    if len == 0 then (none, m) else alloc_entry len (kalloc sizeof_entry m.heap) m.box

-- The loop of `ptrbox_terminate`: each entry's block is released, and its pointer cleared.
unfoldable pub reap : List Entry → Heap → List Entry × Heap
reap [] h = ([], h)
reap (e ∷ es) h =
    let (es', h') = reap es (kfree e.block h) in ((record e { block = none }) ∷ es', h')

-- After TAILQ_FOREACH the cursor `ent` is NULL, and that is what the last `kfree` is given.
unfoldable pub ptrbox_terminate : Mem → Mem
unfolding reap
ptrbox_terminate m =
    let (es, h) = reap m.box.q m.heap in
    record { heap = kfree none h; box = record (m.box) { q = es } }

abbrev pub new_box : Option ℕ × Heap → Option Ptrbox × Heap
new_box (none, h) = (none, h)
new_box (some p, h) = (some (record { self = p; count = 0; q = [] }), h)

-- `none` is -ENOMEM.
unfoldable pub ptrbox_init : Heap → Option Ptrbox × Heap
ptrbox_init h = new_box (kalloc sizeof_ptrbox h)

abbrev pub copied : Bytes → Option ℕ × Mem → Option CStr × Mem
copied s (none, m) = (none, m)
copied s (some p, m) = (some (record { addr = p; text = s }), m)

-- `none` as the argument is a NULL string.
unfoldable pub ptrbox_strdup : Option Bytes → Mem → Option CStr × Mem
unfolding ptrbox_alloc
ptrbox_strdup none m = (none, m)
ptrbox_strdup (some s) m = copied s (ptrbox_alloc (length s + 1) m)
