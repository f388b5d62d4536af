-- ===== src/Tests/Archive.antt =====
-- A small archive, its reader, and the compiler on a file of it.
use l5lunos.Prelude.{
  ◌+◌, ◌≡◌, refl, true, false, some, List, [], ◌∷◌, arith, codes, length, take, drop, same_text,
  leb, if◌then◌else◌,
}
use l5lunos.Prelude.Errno.{ok}
use l5lunos.Str.Compare.Order.{IsText}
use l5lunos.Omar.Pack.{HostFile, archive}
use l5lunos.Omar.Initrd.{InitrdNode, read_len, initrd_get_file, initrd_read}
use l5lunos.Omar.Layout.{IsPackable}
use l5lunos.Omar.RoundTrip.{find_file, Answers, initrd_get_file-archive}
use l5lunos.Omar.Read.{initrd_read_lem}
use l5lunos.Pirho.Init.{np_init}
use l5lunos.Pirho.Init.Boot.{Boots, np_init-archive}
use l5lunos.Tests.Data.{work, return_5}

abbrev usr : HostFile
usr = record { name = codes "usr"; is_dir = true; mode = 16877; size = 4096; contents = [] }

abbrev main_np : HostFile
main_np = record {
  name = codes "usr/m.np";
  is_dir = false;
  mode = 33188;
  size = length return_5;
  contents = return_5;
}

abbrev files : List HostFile
files = usr ∷ main_np ∷ []

usr-IsPackable : IsPackable usr
usr-IsPackable = record {
  text = ground arith;
  short = omega arith;
  mode = omega arith;
  size = omega arith;
  gives = refl;
}

main_np-IsPackable : IsPackable main_np
main_np-IsPackable = record {
  text = ground arith;
  short = omega arith;
  mode = omega arith;
  size = omega arith;
  gives = (refl, omega arith);
}

path-IsText : IsText (codes "usr/m.np")
path-IsText = ground arith

initrd_get_file-archive_example :
    Answers
      (find_file (codes "usr/m.np") files)
      (initrd_get_file (archive 0 files) (codes "usr/m.np"))
initrd_get_file-archive_example =
    initrd_get_file-archive (codes "usr/m.np") 0 files (usr-IsPackable, (main_np-IsPackable, tt))
      path-IsText

-- A file of 5 bytes, the first bytes of the memory.
abbrev node : InitrdNode
node = record { bytes = codes "hello, world"; size = 5; mode = 33188 }

initrd_read_lem_example : initrd_read true (some (some node)) 3 4 ≡ (
    if leb (3 + read_len node 4) 5
    then some (ok (read_len node 4, take (read_len node 4) (drop 3 node.bytes)))
    else some (ok (0, take 2 (drop 3 node.bytes))))
initrd_read_lem_example = initrd_read_lem node 3 4 (omega arith)

np_init-archive_example :
    Boots
      (λ i. 0)
      main_np
      (work [])
      (np_init (λ i. 0) (archive 0 files) (some (codes "/usr/m.np")) (some (work [])))
unfolding find_file same_text
np_init-archive_example =
    np_init-archive (λ i. 0) (codes "usr/m.np") 0 files main_np (work [])
      (usr-IsPackable, (main_np-IsPackable, tt)) path-IsText refl refl refl
