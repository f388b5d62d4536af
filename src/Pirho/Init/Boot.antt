-- ===== src/Pirho/Init/Boot.antt =====
-- Proofs on `np_init` of src/sys/np/core/np_init.c, on a ramdisk that src/tools/omar/omar.c packed.
use l5lunos.Prelude.{
  ℕ, ◌≤◌, ◌≡◌, refl, sym, ap, ◌∙◌, inl, inr, true, false, Option, none, some, List, [], ◌∷◌, ◌>>=◌,
  arith, Bytes, length, length-take, take, Bool-cases, same_text,
}
use l5lunos.Prelude.Errno.{Ret, ok, err, enomem, page_fault, faults}
use l5lunos.Pirho.Token.{Token}
use l5lunos.Mem.Kalloc.{Heap}
use l5lunos.Mem.Ptrbox.{Mem, Ptrbox, ptrbox_init, ptrbox_terminate}
use l5lunos.Str.Compare.Order.{IsText}
use l5lunos.Omar.Pack.{HostFile, archive}
use l5lunos.Omar.Initrd.{initrd_get_file, initrd_open}
use l5lunos.Omar.Layout.{IsPackable, AllPackable, whole_contents}
use l5lunos.Omar.RoundTrip.{find_file, Answers, initrd_get_file-archive}
use l5lunos.Pirho.Parser.{Work}
use l5lunos.Pirho.Compile.{Compiled, parse_work}
use l5lunos.Pirho.Compile.Total.{parse_work-total}
use l5lunos.Pirho.Init.{with_source, lex_init, with_mem, terminated, with_box, np_init}

-- The ends of `np_init` on a file: no memory for the box, or the compiler has run on a text that begins
-- with the file's contents, and its size; a fault is that of the compiler on such a text, which stops at
-- a string.
pub data Boots (beyond : ℕ → ℕ) (f : HostFile) (w : Work)
    : Option (Ret ℕ × Option Work) → Type 0 where
  no_box : {w' : Work} → Boots beyond f w (some (err enomem, some w'))
  booted :
      (source : Bytes) (m : Mem) (c : Compiled) {w' : Work}
      → take f.size source ≡ f.contents
      → parse_work beyond (with_mem m (lex_init (with_source f.size source w))) ≡ some c
      → faults c.ret ≡ false
      → w' ≡ with_mem (ptrbox_terminate c.work.lex.mem) c.work
      → Boots beyond f w (some (ok 0, some w'))
  faulted :
      (source : Bytes) (m : Mem) (c : Compiled)
      → take f.size source ≡ f.contents
      → parse_work beyond (with_mem m (lex_init (with_source f.size source w))) ≡ some c
      → faults c.ret ≡ true
      → c.work.tok.token ≡ Token.str
      → Boots beyond f w none

terminated-Boots :
    (beyond : ℕ → ℕ) (f : HostFile) (w : Work) (source : Bytes) (m : Mem) (c : Compiled)
    (r : Ret (Unit {0}))
    → take f.size source ≡ f.contents
    → parse_work beyond (with_mem m (lex_init (with_source f.size source w))) ≡ some c
    → (faults c.ret ≡ true → c.work.tok.token ≡ Token.str)
    → c.ret ≡ r
    → Boots beyond f w (terminated c r >>= λ l. some (l.0, some (l.1)))
terminated-Boots beyond f w source m c (ok a) e p b q = booted source m c e p (ap faults q) refl
terminated-Boots beyond f w source m c (err page_fault) e p b q =
    faulted source m c e p (ap faults q) (b (ap faults q))
terminated-Boots beyond f w source m c (err _) e p b q = booted source m c e p (ap faults q) refl

with_box-Boots :
    (beyond : ℕ → ℕ) (f : HostFile) (w : Work) (source : Bytes) (o : Option Ptrbox × Heap)
    → take f.size source ≡ f.contents
    → f.size ≤ length source
    → length w.symlist.cache ≡ 32
    → Boots beyond f w
        (with_box beyond (lex_init (with_source f.size source w)) o >>= λ l. some (l.0, some (l.1)))
with_box-Boots beyond f w source (none, h) e l k = no_box
with_box-Boots beyond f w source (some box, h) e l k =
    let m : Mem = record { heap = h; box = box } in
    let (c, p, b) =
      parse_work-total beyond (with_mem m (lex_init (with_source f.size source w))) l k in
    rw p (terminated-Boots beyond f w source m c c.ret e p b refl)

find_file-IsPackable :
    (path : Bytes) (f : HostFile) (fs : List HostFile)
    → AllPackable fs
    → find_file path fs ≡ some f
    → IsPackable f
unfolding find_file
find_file-IsPackable path f [] a h = cc h
find_file-IsPackable path f (x ∷ fs) a h = elim (Bool-cases (same_text x.name path)) [
  | inl t ↦ let e : some x ≡ some f = simp t at h in let i : x ≡ f = cc e in rw (sym i) (a.0)
  | inr t ↦ find_file-IsPackable path f fs a.1 (simp t at h)
]

-- On a ramdisk of packable files, np_init of the absolute path of a regular file reads nothing outside
-- of the ramdisk, and it ends, where the symbol cache has its 32 entries: it fails with ENOMEM alone, or
-- it compiles a text that begins with the contents of the first file of that name, releases the box, and
-- returns 0; or the compiler reads through NULL on that text, at a token that is a string.
pub np_init-archive :
    (beyond : ℕ → ℕ) (path : Bytes) (junk : ℕ) (fs : List HostFile) (f : HostFile) (w : Work)
    → AllPackable fs
    → IsText path
    → find_file path fs ≡ some f
    → f.is_dir ≡ false
    → length w.symlist.cache ≡ 32
    → Boots beyond f w (np_init beyond (archive junk fs) (some (b'/' ∷ path)) (some w))
unfolding np_init initrd_open
np_init-archive beyond path junk fs f w a t e d k =
    let answer : Answers (some f) (initrd_get_file (archive junk fs) path) =
      simp e at (initrd_get_file-archive path junk fs a t) in
    let (node, q, (mode, size, text)) = answer in
    let p = find_file-IsPackable path f fs a e in
    let g = whole_contents f.is_dir f.size f.contents d p.gives in
    let source : take f.size node.bytes ≡ f.contents = ap (λ n. take n node.bytes) g.0 ∙ text in
    let l : f.size ≤ length node.bytes =
      omega (arith, g.0, length-take (length f.contents) node.bytes, ap length text) in
    rw (q, size) (with_box-Boots beyond f w node.bytes (ptrbox_init w.lex.mem.heap) source l k)
