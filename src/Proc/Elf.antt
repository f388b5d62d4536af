-- ===== src/Proc/Elf.antt =====
-- The loader of programs, src/sys/os/os_elf64.c. The image of a program is the memory from its first
-- byte on; a read past its end is a fault, and so is a copy past the frames that were allocated, which
-- would overwrite other memory. `elf_load` is called with a path, a process and a result that are there.
pub mod Segment
pub mod Program
use l5lunos.Prelude.{
  ℕ, zero, suc, ◌+◌, ◌*◌, ◌/◌, ◌%◌, ◌^◌, Bool, ◌&&◌, Option, none, some, List, [], ◌∷◌, ◌++◌, ltb,
  ◌==◌, if◌then◌else◌, ◌>>=◌, Bytes, length, take, drop,
}
use l5lunos.Prelude.Errno.{Ret, ok, err, enoexec, enomem, fail}
use l5lunos.Prelude.Int8.{ℤ}
use l5lunos.Str.Compare.{memcmp}
use l5lunos.Omar.Initrd.{is_zero, initrd_open}
use l5lunos.Vm.Frames.{Outcome, done, fault, panicked, pagesize}
use l5lunos.Vm.Mmu.{Mmu, on_done, mmu_alloc, is_set}
use l5lunos.Vm.Map.{MmuMap, Space, is_negative, vm_map}
use l5lunos.Proc.Ranges.{align_up64}

-- The program header of a segment.
pub record Phdr : Type 0 where
  pub p_flags : ℕ
  pub p_offset : ℕ
  pub p_vaddr : ℕ
  pub p_filesz : ℕ
  pub p_memsz : ℕ

-- The address space that is loaded, and what was copied to physical addresses, the last copy first.
pub record Loading : Type 0 where
  pub space : Space
  pub copies : List (ℕ × Bytes)

abbrev pub or_fault : {A B : Type 0} → Option A → (A → Outcome B) → Outcome B
or_fault none k = fault
or_fault (some a) k = k a

-- A number in memory, from the lowest byte on.
unfoldable pub le_bytes : Bytes → ℕ
le_bytes [] = 0
le_bytes (b ∷ s) = b + 256 * le_bytes s

-- A field of `n` bytes.
unfoldable pub read_field : ℕ → ℕ → Bytes → Option ℕ
read_field off n image =
    if ltb (length image) (off + n) then none else some (le_bytes (take n (drop off image)))

-- ELFMAG
abbrev pub elf_magic : Bytes
elf_magic = 0x7F ∷ b'E' ∷ b'L' ∷ b'F' ∷ []

-- EM_X86_64
abbrev pub em_x86_64 : ℕ
em_x86_64 = 62

abbrev pub ev_current : ℕ
ev_current = 1

unfoldable pub elf64_verify : Bytes → Option (Ret (Unit {0}))
elf64_verify eh =
    let bad : Option (Ret (Unit {0})) = some (err enoexec) in
    let version =
      read_field 6 1 eh >>= λ v. if v == ev_current then some (ok tt) else some (err enoexec) in
    let machine = read_field 18 2 eh >>= λ m. if m == em_x86_64 then version else bad in
    memcmp eh elf_magic 4 >>= λ r. if is_zero r then machine else bad

-- PROT_READ and PROT_USER, and PROT_WRITE and PROT_EXEC for PF_W and PF_X
abbrev pub segment_prot : Phdr → ℕ
segment_prot ph =
    9 + (if is_set ph.p_flags 2 then 2 else 0) + (if is_set ph.p_flags 1 then 4 else 0)

abbrev pub segment_len : Phdr → ℕ
segment_len ph = align_up64 ((ph.p_memsz + ph.p_memsz % pagesize) % 2 ^ 64)

abbrev pub segment_pages : ℕ → ℕ
segment_pages len = if len / pagesize == 0 then 1 else len / pagesize

-- What is copied to the frames of a segment.
abbrev pub segment_data : Phdr → ℕ → Bytes → Option Bytes
segment_data ph npgs image =
    if ltb (npgs * pagesize) ph.p_filesz
    then none
    else if ltb (length image) (ph.p_offset + ph.p_filesz)
    then none
    else some (take ph.p_filesz (drop ph.p_offset image))

-- `vm_map` gives no other negative number than -1.
abbrev pub mapped_segment :
    List (ℕ × Bytes) → ℤ × MmuMap × Space → Outcome (Ret (Unit {0}) × Loading)
mapped_segment copies (error, spec, s) =
    let l : Loading = record { space = s; copies = copies } in
    if is_negative error then done (err fail, l) else done (ok tt, l)

abbrev pub fill_segment : ℕ → Bytes → Phdr → Loading → ℕ × Mmu → Outcome (Ret (Unit {0}) × Loading)
fill_segment cr3 image ph l (frame, m) =
    let s = record l.space { mmu = m } in
    let filled = or_fault (segment_data ph (segment_pages (segment_len ph)) image) λ bytes.
      on_done
        (vm_map cr3 (record { va = ph.p_vaddr; pa = frame }) (segment_len ph) (segment_prot ph) s)
        (mapped_segment ((frame, bytes) ∷ l.copies)) in
    if frame == 0 then done (err enomem, record l { space = s }) else filled

-- The segment of a header of the type PT_LOAD.
unfoldable pub load_segment : ℕ → Bytes → Phdr → Loading → Outcome (Ret (Unit {0}) × Loading)
load_segment cr3 image ph l =
    let loaded =
      on_done (mmu_alloc (segment_pages (segment_len ph)) l.space.mmu)
        (fill_segment cr3 image ph l) in
    if ph.p_memsz == 0 && ph.p_filesz == 0 then done (ok tt, l) else loaded

-- The fields of a program header behind its type.
unfoldable pub get_phdr : ℕ → Bytes → Option Phdr
get_phdr off image = read_field (off + 4) 4 image >>= λ flags.
    read_field (off + 8) 8 image >>= λ offset. read_field (off + 16) 8 image >>= λ vaddr.
    read_field (off + 32) 8 image >>= λ filesz. read_field (off + 40) 8 image >>= λ memsz.
    some (record {
      p_flags = flags;
      p_offset = offset;
      p_vaddr = vaddr;
      p_filesz = filesz;
      p_memsz = memsz;
    })

-- A round of the loop of `elf64_do_load`; the type PT_LOAD is 1.
unfoldable pub load_phdr : ℕ → Bytes → ℕ → Loading → Outcome (Ret (Unit {0}) × Loading)
load_phdr cr3 image off l = or_fault (read_field off 4 image) λ type.
    let loaded = or_fault (get_phdr off image) λ ph. load_segment cr3 image ph l in
    if type == 1 then loaded else done (ok tt, l)

abbrev pub next_segment :
    (Loading → Outcome (Ret (Unit {0}) × Loading))
    → Ret (Unit {0}) × Loading
    → Outcome (Ret (Unit {0}) × Loading)
next_segment rest (err e, l) = done (err e, l)
next_segment rest (ok z, l) = rest l

-- The loop over `n` headers of `phentsize` bytes, from the offset `off` on.
unfoldable pub load_segments : ℕ → ℕ → Bytes → ℕ → ℕ → Loading → Outcome (Ret (Unit {0}) × Loading)
load_segments zero cr3 image phentsize off l = done (ok tt, l)
load_segments (suc n) cr3 image phentsize off l =
    on_done (load_phdr cr3 image off l)
      (next_segment (load_segments n cr3 image phentsize (off + phentsize)))

unfoldable pub elf64_do_load : ℕ → Bytes → Space → Outcome (Ret (Unit {0}) × Loading)
elf64_do_load cr3 eh s = or_fault (read_field 32 8 eh) λ phoff.
    or_fault (read_field 54 2 eh) λ phentsize.
      or_fault (read_field 56 2 eh)
        λ phnum. load_segments phnum cr3 eh phentsize phoff (record { space = s; copies = [] })

abbrev pub give_entry : Bytes → Ret (Unit {0}) × Loading → Outcome (Ret ℕ × Loading)
give_entry eh (err e, l) = done (err e, l)
give_entry eh (ok z, l) = or_fault (read_field 24 8 eh) λ entry. done (ok entry, l)

abbrev pub verified : ℕ → Bytes → Space → Ret (Unit {0}) → Outcome (Ret ℕ × Loading)
verified cr3 eh s (err e) = done (err e, record { space = s; copies = [] })
verified cr3 eh s (ok z) = on_done (elf64_do_load cr3 eh s) (give_entry eh)

abbrev pub load_opened : ℕ → Space → Ret (ℕ × Bytes) → Outcome (Ret ℕ × Loading)
load_opened cr3 s (err e) = done (err e, record { space = s; copies = [] })
load_opened cr3 s (ok (len, eh)) = or_fault (elf64_verify eh) (verified cr3 eh s)

-- The result is the entry point; `root` is the image of the ramdisk, and `cr3` the root of the process.
unfoldable pub elf_load : Bytes → Bytes → ℕ → Space → Outcome (Ret ℕ × Loading)
elf_load root path cr3 s = or_fault (initrd_open root (some path)) (load_opened cr3 s)
