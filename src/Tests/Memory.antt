-- ===== src/Tests/Memory.antt =====
-- The page frames, the namespaces, the I/O taps and the credentials on small states.
use l5lunos.Prelude.{
  ◌+◌, ◌*◌, ◌%◌, ◌≤◌, ◌≡◌, ◌↔◌, refl, true, false, ◌&&◌, leb, none, some, [], ◌∷◌, arith, Bytes,
  codes, replicate,
}
use l5lunos.Vm.Frames.{
  Frames, done, bitmap_size, vm_alloc_frame, vm_free_frame, alloc_run, find_run, write_bits,
  write_bit,
}
use l5lunos.Vm.Frames.Grant
use l5lunos.Vm.Frames.Grant.{Allocates, vm_alloc_frame-Allocates}
use l5lunos.Vm.Frames.Restore.{Restored, vm_free_frame-vm_alloc_frame}
use l5lunos.Vm.Frames.Size.{bitmap_size_bounds}
use l5lunos.Ns.{
  Namespaces, content_of, key_of, fnv1_hash, fnv1_from, ns_obj_enter, ns_obj_lookup, filled,
}
use l5lunos.Ns.Lookup.{IsNamespaces, AllSized, ns_obj_lookup-ns_obj_enter}
use l5lunos.Mem.Kalloc.{kalloc}
use l5lunos.Prelude.Int8.{pos}
use l5lunos.Ns.Taps.{IotapDesc, Taps, iotap_register}
use l5lunos.Ns.Taps.Registry.{GrantsAll, Registers, iotap_register-Registers}
use l5lunos.Cred.{Ucred, seteuid}
use l5lunos.Cred.Confined.{Confined, stays, calls, seteuid-Confined}
use l5lunos.Tests.Data.{heap}

-- Six frames, of which 0 and 2 are in use.
abbrev frames : Frames
frames = record {
  bitmap = true ∷ false ∷ true ∷ false ∷ false ∷ false ∷ [];
  highest_frame_idx = 6;
  last_idx = 0;
  pages_free = 4;
  pages_used = 2;
  pages_total = 6;
  bitmap_free_start = 1;
}

-- The frames 3 and 4 are handed out.
abbrev frames_after : Frames
frames_after = record frames {
  bitmap = true ∷ false ∷ true ∷ true ∷ true ∷ false ∷ [];
  last_idx = 3;
  pages_free = 2;
  pages_used = 4;
}

frames-IsValid : Grant.IsValid frames
frames-IsValid = record { covered = omega arith; last = omega arith; zero_used = refl }

vm_alloc_frame-Allocates_example : Allocates 2 frames (vm_alloc_frame 2 frames)
vm_alloc_frame-Allocates_example = vm_alloc_frame-Allocates 2 frames frames-IsValid (omega arith)

frames_taken : vm_alloc_frame 2 frames ≡ done (12288, frames_after)
unfolding vm_alloc_frame alloc_run find_run write_bits write_bit
frames_taken = refl

vm_free_frame-vm_alloc_frame_example :
    (s : Frames) × (vm_free_frame 12288 2 frames_after ≡ done s) × Restored frames s
vm_free_frame-vm_alloc_frame_example =
    vm_free_frame-vm_alloc_frame 2 12288 frames frames_after frames-IsValid (omega arith)
      frames_taken

-- 128 MiB and a frame.
bitmap_size_bounds_example :
    (32769 ≤ 8 * bitmap_size 32769) ↔ ((leb 1 (32769 % 32768) && leb (32769 % 32768) 7) ≡ false)
bitmap_size_bounds_example = bitmap_size_bounds 32769

-- Empty namespaces, and an object with data.
abbrev spaces : Namespaces
spaces = record {
  spaces =
      replicate 8
        (record { entries = replicate 16 (record { obj = none; name = none }); entry_count = 0 });
  heap = heap;
  objects = λ p. record { has_read = false; content = some 777; refcount = 1 };
}

abbrev space_name : Bytes
space_name = codes "tap"

abbrev spaces_after : Namespaces
spaces_after =
    filled 0 (key_of space_name)
      (record { entries = replicate 16 (record { obj = none; name = none }); entry_count = 0 }) 512
      (some space_name, (kalloc 4 heap).1) spaces

spaces-IsNamespaces : IsNamespaces spaces
unfolding AllSized
spaces-IsNamespaces = record {
  spaces = refl;
  maps = (refl, (refl, (refl, (refl, (refl, (refl, (refl, (refl, tt))))))));
}

ns_obj_lookup-ns_obj_enter_example :
    ns_obj_lookup 0 (some space_name) true spaces_after ≡ content_of (some 777)
unfolding ns_obj_enter fnv1_hash fnv1_from kalloc
ns_obj_lookup-ns_obj_enter_example =
    ns_obj_lookup-ns_obj_enter 0 512 space_name spaces spaces_after spaces-IsNamespaces
      (omega arith) refl refl refl

-- The namespaces with no tap, and a descriptor.
abbrev no_taps : Taps
no_taps = record { ns = spaces; descs = λ p. none; next_id = 0 }

abbrev tap_desc : IotapDesc
tap_desc = record { name = some space_name; id = pos 0; ops = 1024 }

heap-GrantsAll : GrantsAll heap
heap-GrantsAll = record { init = refl; all = λ n sz. (4096 * (n + 1), refl) }

iotap_register-Registers_example :
    Registers tap_desc space_name no_taps (iotap_register tap_desc no_taps)
unfolding fnv1_hash fnv1_from
iotap_register-Registers_example =
    iotap_register-Registers tap_desc space_name no_taps spaces-IsNamespaces heap-GrantsAll refl
      refl (omega arith)

-- A user, and two calls of `seteuid`, the first to root.
abbrev user : Ucred
user = record { ruid = 1000; euid = 1001; suid = 1002 }

seteuid-Confined_example : Confined user (seteuid 1002 (seteuid 0 (some user)).1).1
seteuid-Confined_example =
    seteuid-Confined user (omega arith) (omega arith) (omega arith) (calls 1002 (calls 0 stays))
