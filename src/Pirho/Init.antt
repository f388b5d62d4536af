-- ===== src/Pirho/Init.antt =====
-- The entry of the compiler: src/sys/np/core/np_init.c, and `lex_init` of src/sys/np/core/np_lex.c.
use l5lunos.Prelude.{ℕ, Bool, true, false, Option, none, some, ◌>>=◌, Bytes}
use l5lunos.Prelude.Errno.{Ret, ok, err, einval, enomem, page_fault}
use l5lunos.Mem.Kalloc.{Heap}
use l5lunos.Mem.Ptrbox.{Mem, Ptrbox, ptrbox_init, ptrbox_terminate}
use l5lunos.Omar.Initrd.{initrd_open}
use l5lunos.Pirho.Lexer.{Lexer}
use l5lunos.Pirho.Parser.{Work}
use l5lunos.Pirho.Compile.{Compiled, parse_work}
pub mod Boot

-- The work with the file's text and line 1.
abbrev pub with_source : ℕ → Bytes → Work → Work
with_source size source w = record w {
  lex = record (w.lex) { source = source; source_size = size; line_no = 1 };
}

-- `lex_init` clears `lex_st`, which holds the index.
abbrev pub lex_init : Work → Work
lex_init w = record w { lex = record (w.lex) { source_idx = 0 } }

abbrev pub with_mem : Mem → Work → Work
with_mem m w = record w { lex = record (w.lex) { mem = m } }

-- What `parse_work` returns is dropped, where it returns.
abbrev pub terminated : Compiled → Ret (Unit {0}) → Option (Ret ℕ × Work)
terminated c (err page_fault) = none
terminated c _ = some (ok 0, with_mem (ptrbox_terminate c.work.lex.mem) c.work)

abbrev pub with_box : (ℕ → ℕ) → Work → Option Ptrbox × Heap → Option (Ret ℕ × Work)
with_box beyond w (none, h) =
    some (err enomem, with_mem (record { heap = h; box = w.lex.mem.box }) w)
with_box beyond w (some box, h) =
    parse_work beyond (with_mem (record { heap = h; box = box }) w) >>= λ c. terminated c c.ret

-- `source_size` has no sign, so an error of `initrd_open` is not seen, and the lexer reads through a
-- pointer that was never set: a fault.
abbrev pub load : (ℕ → ℕ) → Work → Ret (ℕ × Bytes) → Option (Ret ℕ × Work)
load beyond w (err e) = none
load beyond w (ok (size, source)) =
    with_box beyond (lex_init (with_source size source w)) (ptrbox_init w.lex.mem.heap)

-- On the ramdisk `root`; `none` is a fault, or that the fuel ran out. `in_path` and the work may be
-- NULL.
unfoldable pub np_init : (ℕ → ℕ) → Bytes → Option Bytes → Option Work → Option (Ret ℕ × Option Work)
np_init beyond root none w = some (err einval, w)
np_init beyond root (some path) none = some (err einval, none)
np_init beyond root (some path) (some w) =
    initrd_open root (some path) >>= λ r. load beyond w r >>= λ l. some (l.0, some (l.1))

-- `np_compile` does nothing yet.
abbrev pub np_compile : Option Work → Ret ℕ
np_compile none = err einval
np_compile (some w) = ok 0
