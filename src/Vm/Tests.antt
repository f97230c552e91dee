-- ===== src/Vm/Tests.antt =====
-- A machine with flat memory as the kernel of the debugged task: runs of MachVMRegion and
-- MachVMMemory on it, and their theorems at it.
use debug_learning.Prelude.{
  ℕ, ◌+◌, ◌/◌, ◌%◌, ◌^◌, ◌≤◌, ◌<◌, ◌≡◌, refl, false, some, none, List, [], ◌∷◌, length, get_or, ltb,
  sub64, if◌then◌else◌, arith,
}
use debug_learning.DnbError.{assign}
use debug_learning.Vm.Calls.{VmCalls, RegionInfo}
use debug_learning.Vm.Region.{get_region_for_address, set_protections, clear_region}
use debug_learning.Vm.Region.Protections.{touches, ProtectLaws}
use debug_learning.Vm.Memory.{
  read_loop, write_loop, write_round, MachVmMemory, new_memory, page_size, max_bytes_left_in_page,
  read, write_region, write_region_loop, write,
}
use debug_learning.Vm.Memory.Chunks.{max_bytes_left_in_page_lem}
use debug_learning.Vm.Memory.Reading.{bytes_at, ReadLaws, IsRead, read-IsRead}
use debug_learning.Vm.Memory.Writing.{WriteLaws, IsWritten, write_region-IsWritten}
use debug_learning.Vm.Memory.Faults.{
  RejectLaws, IsLost, write_region-IsLost, write_region_loop_stuck,
}
use debug_learning.Vm.Memory.Ending.{Ends, write-Ends}
use debug_learning.Vm.Memory.Keeping.{RestoreLaws}
use debug_learning.Vm.Memory.Mapped.{MappedLaws}
use debug_learning.Vm.Memory.Storing.{IsStored, write-IsStored}
use debug_learning.Vm.Memory.Restoring.{HasProtections, write-HasProtections}

record Machine : Type 0 where
  mem : ℕ → ℕ
  prot : ℕ → ℕ

abbrev page : ℕ → ℕ
page x = x / 0x1000

-- All memory belongs to one region of three pages, and those around it to none.
abbrev region_info : RegionInfo
region_info = record { protection = 1; user_tag = 0; share_mode = 0 }

abbrev flat : VmCalls Machine
flat = record {
  mach_vm_protect =
      λ t a n max p w. (0, record w { prot = λ x. if touches page a n x then p % 8 else w.prot x });
  mach_vm_region_recurse = λ t a size depth info w.
      (record { kr = 0; start = 0x1000; size = 0x3000; depth = 0; info = region_info }, w);
  task_vm_page_size = λ t w. (0, 0x1000, w);
  host_page_size = λ w. (0, 0x1000, w);
  mach_vm_read = λ t a n w. (0, bytes_at w.mem a n, w);
  mach_vm_write = λ t a bytes w. (
    0,
    record w {
      mem = λ x. if ltb (sub64 x a) (length bytes) then get_or bytes (sub64 x a) 0 else w.mem x;
    },
  );
  vm_machine_attribute = λ t a n w. (0, w);
  mach_vm_page_range_query = λ t a size count w. (0, count, λ i. 0, w);
}

-- The same machine, whose kernel rejects every write.
abbrev sealed : VmCalls Machine
sealed = record flat { mach_vm_write = λ t a bytes w. (2, w) }

abbrev counting : Machine
counting = record { mem = λ x. x % 0x100; prot = λ x. 1 }

abbrev mem_of : Machine → ℕ → ℕ → ℕ
mem_of w t = w.mem

abbrev prot_of : Machine → ℕ → ℕ → ℕ
prot_of w t = w.prot

flat-ReadLaws : ReadLaws flat mem_of
flat-ReadLaws = record {
  returns = λ t a n w h. refl;
  read_keeps = λ t a n x w. refl;
  host_keeps = λ t x w. refl;
  task_keeps = λ t x w. refl;
}

flat-WriteLaws : WriteLaws flat mem_of
flat-WriteLaws = record {
  writes = λ t a x bytes w h hx near. ground arith;
  spares = λ t a x bytes w hx far. ground arith;
  flush_keeps = λ t a n x w. refl;
  host_keeps = λ t x w. refl;
  task_keeps = λ t x w. refl;
}

sealed-RejectLaws : RejectLaws sealed mem_of 7
sealed-RejectLaws = record {
  rejects = λ a bytes w. omega arith;
  write_keeps = λ a x bytes w. refl;
  flushes = λ a n w. refl;
  flush_keeps = λ a n x w. refl;
  host_keeps = λ x w. refl;
  task_keeps = λ x w. refl;
}

flat-ProtectLaws : ProtectLaws flat page prot_of
flat-ProtectLaws = record {
  page_mono = λ x y h. omega arith;
  protects = λ t a n p x w h. refl;
  refuses = λ t a n p x w h. absurd (h refl);
}

flat-RestoreLaws : RestoreLaws flat page prot_of 7 (λ x. 1)
flat-RestoreLaws = record {
  protection = flat-ProtectLaws;
  accepts = λ a n p w h. refl;
  small = λ a size depth info w. omega arith;
  describes = λ a size depth x info w same ok inside. refl;
  recurse_keeps = λ a size depth x info w. refl;
  write_keeps = λ a x bytes w. refl;
  flush_keeps = λ a n x w. refl;
  host_keeps = λ x w. refl;
  task_keeps = λ x w. refl;
}

-- Five bytes across a page boundary.
read-flat :
    read flat false 7 0x1ffe 5 new_memory counting
    ≡ some
        (5, 0xfe ∷ 0xff ∷ 0 ∷ 1 ∷ 2 ∷ [], record { page_size = 0x1000; err = assign 0 }, counting)
unfolding read read_loop max_bytes_left_in_page page_size
read-flat = refl

read-IsRead_example :
    IsRead mem_of 7 0x1ffe 5 counting.mem (read flat false 7 0x1ffe 5 new_memory counting)
read-IsRead_example =
    read-IsRead flat-ReadLaws 7 0x1ffe 5 new_memory counting (omega arith) (omega arith)
      (omega arith)

abbrev two_bytes : List ℕ
two_bytes = 0xaa ∷ 0xbb ∷ []

write_region-IsWritten_example :
    IsWritten mem_of 7 0x1fff 2 two_bytes counting.mem
      (write_region flat 7 0x1fff (some two_bytes) 2 new_memory counting)
write_region-IsWritten_example =
    write_region-IsWritten flat-WriteLaws 7 0x1fff 2 two_bytes new_memory counting (omega arith)
      (omega arith) (omega arith) (omega arith) (λ a bytes w. refl)

write_region-IsLost_example :
    IsLost mem_of 7 2 counting.mem
      (write_region sealed 7 0x1fff (some two_bytes) 2 new_memory counting)
write_region-IsLost_example =
    write_region-IsLost sealed-RejectLaws 0x1fff 2 two_bytes new_memory counting (omega arith)
      (omega arith)

abbrev no_page_size : MachVmMemory
no_page_size = record new_memory { page_size = 0 }

write_region_loop_stuck_example :
    write_region_loop flat 1000 7 (2 ^ 32) 0 0x1fff two_bytes no_page_size counting ≡ none
write_region_loop_stuck_example =
    write_region_loop_stuck flat (λ t a n w. refl) 1000 7 0x1fff (2 ^ 32) two_bytes no_page_size
      counting refl (omega arith) refl

-- The bytes arrive, and the pages are read-only again.
write-flat :
    (n : ℕ) × (m : MachVmMemory) × (w : Machine) × (write flat 7 0x1fff
        (some two_bytes)
        2
        new_memory
        counting
      ≡ some (n, m, w))
    × (n ≡ 2)
    × (w.mem 0x1fff ≡ 0xaa)
    × (w.mem 0x2000 ≡ 0xbb)
    × (w.mem 0x2001 ≡ 1)
    × (w.prot 0x1fff ≡ 1)
unfolding write write_loop write_round write_region write_region_loop max_bytes_left_in_page
    page_size get_region_for_address set_protections clear_region
write-flat = (2, _, _, refl, refl, refl, refl, refl, refl)

write-Ends_example : Ends 2 (write flat 7 0x1fff (some two_bytes) 2 new_memory counting)
write-Ends_example = write-Ends flat 7 0x1fff 2 (some two_bytes) new_memory counting (omega arith)

write-HasProtections_example :
    HasProtections prot_of 7 (λ x. 1) (write flat 7 0x1fff (some two_bytes) 2 new_memory counting)
write-HasProtections_example =
    write-HasProtections flat-RestoreLaws 0x1fff 2 (some two_bytes) new_memory counting
      (omega arith) (λ x. refl)

flat-MappedLaws : MappedLaws flat mem_of 7 0x1fff 2
flat-MappedLaws = record {
  maps = λ x size depth info w low high. (refl, omega arith, omega arith, omega arith);
  protects = λ x n prot w. refl;
  accepts = λ a bytes w. refl;
  flushes = λ x n w. refl;
  protect_keeps = λ x n prot y w. refl;
  recurse_keeps = λ x size depth y info w. refl;
}

write-IsStored_example :
    IsStored mem_of 7 0x1fff 2 two_bytes counting.mem
      (write flat 7 0x1fff (some two_bytes) 2 new_memory counting)
write-IsStored_example =
    write-IsStored flat-MappedLaws two_bytes new_memory counting flat-WriteLaws (omega arith)
      (omega arith) (omega arith)

max_bytes_left_in_page_example :
    let size = (page_size flat 7 new_memory counting).0 in
    let n = (max_bytes_left_in_page flat 7 0x1ffe 5 new_memory counting).0 in
    (0 < n)
    × (n ≤ 5)
    × (0 < size → 0x1ffe % size + n ≤ size)
    × (n < 5 → 0x1ffe % size + n ≡ size)
    × (size ≡ 0 → n ≡ 5)
max_bytes_left_in_page_example =
    max_bytes_left_in_page_lem flat 7 0x1ffe 5 new_memory counting (omega arith)
