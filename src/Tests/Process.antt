-- ===== src/Tests/Process.antt =====
-- Processes, copies from their memory, and formatted text, on small states.
use l5lunos.Prelude.{
  ℕ, ◌+◌, ◌*◌, ◌≡◌, refl, arith, true, false, Option, none, some, [], ◌∷◌, ◌++◌, codes, take,
  length, replicate, Bytes, ◌==◌, if◌then◌else◌,
}
use l5lunos.Prelude.Errno.{Ret, ok}
use l5lunos.Prelude.Int8.{pos, negsuc}
use l5lunos.Str.Itoa.{itoa_base10_convert, itoa_base10, unreversed, unreverse, convert_digits}
use l5lunos.Str.Atoi.{atoi}
use l5lunos.Str.Atoi.RoundTrip.{atoi-itoa_base10_convert}
use l5lunos.Str.Format.{
  int_arg, str_arg, vsnprintf, format_loop, literals, printc, put, poke, put_nul, pad_width,
  pad_digits, directive, print_d, print_zeros, printstr, put_all, print_s,
}
use l5lunos.Str.Format.Expand.{Expands, finish, literal, conversion, decimal, string}
use l5lunos.Str.Format.Truncate.{Printed, vsnprintf-Printed}
use l5lunos.Proc.Copy.{Memory, copyinstr}
use l5lunos.Proc.Copy.Text.{HoldsText, copyinstr-HoldsText}
use l5lunos.Vm.Frames.{Outcome, done}
use l5lunos.Vm.Mmu.{zero_pte}
use l5lunos.Proc.State.{Procs, zero_proc}
use l5lunos.Proc.Life.{Platform, proc_lookup}
use l5lunos.Proc.Life.Unique.{Returns}
use l5lunos.Proc.Life.Numbers.{IsNumbered, GrantsFresh}
use l5lunos.Proc.Spawn.{proc_spawn}
use l5lunos.Proc.Spawn.Lookup.{Spawns, proc_spawn-Spawns}
use l5lunos.Omar.Pack.{archive}
use l5lunos.Tests.Loader.{program}
use l5lunos.Tests.Data.{heap}

atoi-itoa_base10_convert_example : atoi (itoa_base10_convert (negsuc 406)) ≡ negsuc 406
atoi-itoa_base10_convert_example = atoi-itoa_base10_convert (negsuc 406) (omega arith)

abbrev buffer : Bytes
buffer = 7 ∷ 7 ∷ 7 ∷ 7 ∷ 7 ∷ 7 ∷ []

-- The text of "a%03d%s".
abbrev text : Bytes
text = codes "a007xyz"

text-Expands : Expands (codes "a%03d%s") (int_arg (pos 7) ∷ str_arg (codes "xyz") ∷ []) 0 text
unfolding itoa_base10_convert itoa_base10 unreversed unreverse convert_digits pad_width pad_digits
text-Expands =
    literal (λ e. absurd (omega (arith, e)))
      (conversion refl decimal (conversion refl string finish))

cut_short :
    vsnprintf buffer 6 (codes "a%03d%s") (int_arg (pos 7) ∷ str_arg (codes "xyz") ∷ [])
    ≡ some (0, codes "a007x" ++ 0 ∷ [])
unfolding vsnprintf format_loop literals printc put poke put_nul pad_width pad_digits directive
    print_d print_zeros itoa_base10_convert itoa_base10 unreversed convert_digits printstr put_all
    unreverse print_s
cut_short = refl

vsnprintf-Printed_example :
    (r : ℕ × Bytes) × (vsnprintf buffer 6
        (codes "a%03d%s")
        (int_arg (pos 7) ∷ str_arg (codes "xyz") ∷ [])
      ≡ some r)
    × Printed 6 text r
vsnprintf-Printed_example =
    vsnprintf-Printed buffer (codes "a%03d%s") 6 (int_arg (pos 7) ∷ str_arg (codes "xyz") ∷ []) text
      refl (omega arith) (omega arith) text-Expands

-- "hi" at the address 0xBFFFF010.
abbrev memory : Memory
memory a = if a == 0xBFFFF010 then b'h' else if a == 0xBFFFF011 then b'i' else 0

memory-HoldsText : HoldsText memory 0xBFFFF010 (codes "hi")
memory-HoldsText = (
  refl,
  refl,
  (λ e. absurd (omega (arith, e))),
  (refl, refl, (λ e. absurd (omega (arith, e))), (refl, refl)),
)

copyinstr-HoldsText_example :
    copyinstr (λ a. 0) true memory 0xBFFFF010 64 ≡ (ok tt, take 64 (codes "hi" ++ 0 ∷ []))
copyinstr-HoldsText_example =
    copyinstr-HoldsText (λ a. 0) memory (codes "hi") 0xBFFFF010 64 memory-HoldsText

-- A ramdisk with one program.
abbrev image : Bytes
image = archive 0 (
    record {
      name = codes "bin/sh";
      is_dir = false;
      mode = 33188;
      size = length program;
      contents = program;
    }
    ∷ [])

abbrev platform : Platform
platform = record { kcr3 = 4096; sizeof_proc = 4096; nul = false; nul' = false; root = image }

-- The process with the number 1 runs, at the address 64.
abbrev one_process : Procs
one_process = record {
  mmu = record {
    frames = record {
      bitmap = true ∷ true ∷ true ∷ replicate 21 false;
      highest_frame_idx = 24;
      last_idx = 0;
      pages_free = 21;
      pages_used = 3;
      pages_total = 24;
      bitmap_free_start = 3;
    };
    tables = λ f i. zero_pte;
  };
  copies = [];
  heap = heap;
  refs = λ n. 1;
  store = λ a. if a == 64 then some (record (zero_proc 64) { pid = 1 }) else none;
  procq = 64 ∷ [];
  is_procq_init = true;
  next_pid = 1;
  cores = record { ncores_up = 1; bsp = 0; corelist = [] };
  rr_id = 0;
  scq = λ c. record { q = []; nproc = 0 };
  current = some 64;
}

one_process-IsNumbered : IsNumbered one_process
one_process-IsNumbered = record { init = refl; ascending = (1, refl, omega arith, omega arith) }

one_process-GrantsFresh : GrantsFresh one_process
one_process-GrantsFresh n sz p h =
    let same : 4096 * (n + 1) ≡ p = cc h in ((λ e. absurd (omega (arith, e, same))), tt)

proc_spawn-Spawns_example :
    Returns (Spawns one_process) (proc_spawn platform (codes "/bin/sh") none one_process)
proc_spawn-Spawns_example =
    proc_spawn-Spawns platform (codes "/bin/sh") none one_process one_process-IsNumbered
      one_process-GrantsFresh (omega arith)

-- What a spawn returns, and where the number 2 leads behind it.
abbrev returned : Outcome (Ret ℕ × Procs) → Option (Ret ℕ × Option ℕ)
returned (done (r, s)) = some (r, proc_lookup 2 s)
returned _ = none

proc_spawn_returns :
    returned (proc_spawn platform (codes "/bin/sh") none one_process) ≡ some (ok 2, some 4096)
unfolding l5lunos.Proc.Life.lookup_in l5lunos.Proc.Life.proc_lookup l5lunos.Proc.Life.enq_proc
    l5lunos.Proc.Life.md_proc_init l5lunos.Proc.Life.proc_init l5lunos.Proc.Spawn.proc_spawn
    l5lunos.Proc.State.put_proc l5lunos.Proc.State.put_space l5lunos.Proc.Ranges.align_up64
    l5lunos.Proc.Ranges.proc_add_range l5lunos.Proc.Elf.le_bytes l5lunos.Proc.Elf.read_field
    l5lunos.Proc.Elf.elf64_verify l5lunos.Proc.Elf.load_segment l5lunos.Proc.Elf.get_phdr
    l5lunos.Proc.Elf.load_phdr l5lunos.Proc.Elf.load_segments l5lunos.Proc.Elf.elf64_do_load
    l5lunos.Proc.Elf.elf_load l5lunos.Vm.Mmu.or_flags l5lunos.Vm.Mmu.mmu_get_level
    l5lunos.Vm.Mmu.set_pte l5lunos.Vm.Mmu.zero_frames l5lunos.Vm.Mmu.mmu_alloc
    l5lunos.Vm.Mmu.walk_levels l5lunos.Vm.Mmu.mmu_read_level l5lunos.Vm.Mmu.mmu_map_single
    l5lunos.Vm.Mmu.copy_half l5lunos.Vm.Mmu.mmu_new_vas l5lunos.Vm.Frames.write_bit
    l5lunos.Vm.Frames.write_bits l5lunos.Vm.Frames.find_run l5lunos.Vm.Frames.alloc_run
    l5lunos.Vm.Frames.vm_alloc_frame l5lunos.Vm.Map.map_pages l5lunos.Vm.Map.assign_spec
    l5lunos.Vm.Map.map_region l5lunos.Vm.Map.vm_map_aligned l5lunos.Vm.Map.vm_map
    l5lunos.Mem.Kalloc.kalloc l5lunos.Omar.Initrd.c_string l5lunos.Omar.Initrd.walk
    l5lunos.Omar.Initrd.initrd_get_file l5lunos.Omar.Initrd.initrd_open l5lunos.Omar.Pack.file_push
    l5lunos.Omar.Pack.eof_push l5lunos.Omar.Pack.archive l5lunos.Omar.Header.get_hdr
    l5lunos.Str.Compare.char_diff l5lunos.Str.Compare.strcmp l5lunos.Str.Compare.strncmp
    l5lunos.Str.Compare.memcmp l5lunos.Sched.Cores.cpu_get l5lunos.Sched.Cores.cpu_sched
    l5lunos.Files.Filedes.find_free l5lunos.Files.Filedes.fd_alloc l5lunos.Files.Filedes.scan_fds
    l5lunos.Files.Filedes.fd_get l5lunos.Files.Filedes.fd_dup l5lunos.Files.Filedes.fdtab_init
    l5lunos.Cred.ucred_init
proc_spawn_returns = refl
