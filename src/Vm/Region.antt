-- ===== src/Vm/Region.antt =====
-- The class MachVMRegion of mac_ptrace/lldb/MachVMRegion.h and MachVMRegion.cpp: one region of
-- the task's address space, with the protections that were changed on a part of it.
--
-- A method takes the object and the state of the system and returns both with its result. The
-- destructor is `clear_region`. An out-parameter of the kernel is read at its C width.
pub mod Lookup
pub mod Protections
pub mod Framing
use debug_learning.Prelude.{
  ℕ, ◌-◌, ◌^◌, Bool, true, false, ◌&&◌, ◌||◌, not, List, [], ◌∷◌, ◌++◌, ltb, leb, ◌==◌, ◌/=◌,
  if◌then◌else◌, bit_and, bit_or, add64, sub64, u32, u64,
}
use debug_learning.Sdk.{
  vm_prot_none, vm_prot_read, vm_prot_write, vm_prot_execute, vm_prot_all, vm_prot_copy,
}
use debug_learning.DnbError.{DnbError, clear, assign, success, fail}
use debug_learning.Vm.Calls.{VmCalls, RegionInfo, RegionReply}

abbrev pub invalid_nub_address : ℕ
invalid_nub_address = 2 ^ 64 - 1

pub record MachVmRegion : Type 0 where
  pub task : ℕ
  pub addr : ℕ
  pub err : DnbError
  pub start : ℕ
  pub size : ℕ
  pub depth : ℕ
  pub info : RegionInfo
  pub curr_protection : ℕ
  pub protection_addr : ℕ
  pub protection_size : ℕ

abbrev pub no_info : RegionInfo
no_info = record { protection = 0; user_tag = 0; share_mode = 0 }

-- The constructor, and what `Clear` leaves in the fields.
abbrev pub new_region : ℕ → MachVmRegion
new_region task = record {
  task = task;
  addr = invalid_nub_address;
  err = clear;
  start = invalid_nub_address;
  size = 0;
  depth = 2 ^ 32 - 1;
  info = no_info;
  curr_protection = 0;
  protection_addr = invalid_nub_address;
  protection_size = 0;
}

abbrev pub end_address : MachVmRegion → ℕ
end_address r = add64 r.start r.size

abbrev pub contains_address : MachVmRegion → ℕ → Bool
contains_address r a = leb r.start a && ltb a (end_address r)

abbrev pub bytes_remaining : MachVmRegion → ℕ → ℕ
bytes_remaining r a = if contains_address r a then sub64 r.size (sub64 a r.start) else 0

-- `prot_size` of `SetProtections`: the size that was asked for, or what is left of the region.
abbrev pub clipped : MachVmRegion → ℕ → ℕ → ℕ
clipped r a size = let left = sub64 (end_address r) a in if ltb left size then left else size

unfoldable pub get_dnb_permissions : MachVmRegion → ℕ
get_dnb_permissions r =
    if r.addr == invalid_nub_address || r.start == invalid_nub_address || r.size == 0
    then 0
    else let p0 : ℕ = 0 in
      let p1 = if bit_and r.info.protection vm_prot_read == vm_prot_read then bit_or p0 2 else p0 in
      let p2 =
        if bit_and r.info.protection vm_prot_write == vm_prot_write then bit_or p1 1 else p1 in
      if bit_and r.info.protection vm_prot_execute == vm_prot_execute then bit_or p2 4 else p2

module _ {W : Type 0} (k : VmCalls W) where
  -- The two calls in `SetProtections`: the second asks for a copy on write.
  unfoldable pub protect_or_copy : MachVmRegion → ℕ → ℕ → ℕ → W → DnbError × W
  protect_or_copy r a n prot w =
      let (kr, w') = k.mach_vm_protect r.task a n 0 prot w in
      if fail (assign kr)
      then (let (kr', w'') = k.mach_vm_protect r.task a n 0 (bit_or prot vm_prot_copy) w' in
          (assign kr', w''))
      else (assign kr, w')

  -- The call and what is remembered of it when it succeeds.
  unfoldable pub protect_range : MachVmRegion → ℕ → ℕ → ℕ → W → Bool × MachVmRegion × W
  unfolding protect_or_copy
  protect_range r a n prot w =
      let (e, w') = protect_or_copy r a n prot w in
      if success e
      then (
        true,
        record r { err = e; curr_protection = prot; protection_addr = a; protection_size = n },
        w',
      )
      else (false, record r { err = e }, w')

  unfoldable pub set_protections : MachVmRegion → ℕ → ℕ → ℕ → W → Bool × MachVmRegion × W
  unfolding protect_range
  set_protections r a size prot w =
      if contains_address r a
      then (let prot_size = clipped r a size in
          if ltb 0 prot_size
          then if prot == bit_and r.curr_protection vm_prot_all
            then (true, r, w)
            else protect_range r a prot_size prot w
          else (false, r, w))
      else (false, r, w)

  unfoldable pub restore_protections : MachVmRegion → W → Bool × MachVmRegion × W
  restore_protections r w =
      if r.curr_protection /= r.info.protection && ltb 0 r.protection_size
      then (let (kr, w') =
            k.mach_vm_protect r.task r.protection_addr r.protection_size 0 r.info.protection w in
          if success (assign kr)
          then (
            true,
            record r {
              err = assign kr;
              protection_size = 0;
              protection_addr = invalid_nub_address;
              curr_protection = r.info.protection;
            },
            w',
          )
          else (false, record r { err = assign kr }, w'))
      else (true, record r { err = clear }, w)

  -- `Clear`, which the destructor calls too.
  unfoldable pub clear_region : MachVmRegion → W → MachVmRegion × W
  unfolding restore_protections
  clear_region r w = (new_region r.task, (restore_protections r w).2)

  unfoldable pub get_region_for_address : MachVmRegion → ℕ → W → Bool × MachVmRegion × W
  unfolding clear_region
  get_region_for_address r a w =
      let (r', w') = clear_region r w in
      let (reply, w'') = k.mach_vm_region_recurse r'.task a r'.size 1024 r'.info w' in
      let found = record r' {
        addr = a;
        err = assign reply.kr;
        start = u64 reply.start;
        size = u64 reply.size;
        depth = u32 reply.depth;
        info = reply.info;
      } in
      if fail found.err
      then (false, found, w'')
      else (let r'' = record found { curr_protection = reply.info.protection } in
          (not (ltb a r''.start || leb (end_address r'') a), r'', w''))
