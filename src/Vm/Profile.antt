-- ===== src/Vm/Profile.antt =====
-- `GetPhysicalMemory` and `MachVMMemory::GetMemoryProfile` of MachVMMemory.cpp: what the profile of
-- a task is made from. The static variables of both functions are a record. The part for
-- WITH_FBS or WITH_BKS, which no build file defines, is left out, so `memory_cap` is not touched;
-- the arguments that are not read (`ti`, `cputype`, `pid`) are left out too.
pub mod Caching
mod Tests
use debug_learning.Prelude.{
  ℕ, ◌+◌, ◌^◌, Bool, true, false, Option, none, some, List, bit_and, ◌==◌, ◌/=◌, add64, sub64, u32,
  u64, if◌then◌else◌,
}
use debug_learning.Sdk.{kern_success}

-- the bits of `DNBProfileDataScanType` that are tested
abbrev pub e_profile_host_memory : ℕ
e_profile_host_memory = 2 ^ 5

abbrev pub e_profile_memory : ℕ
e_profile_memory = 2 ^ 6

abbrev pub e_profile_memory_anonymous : ℕ
e_profile_memory_anonymous = 2 ^ 8

-- The fields that are read of `task_vm_info_data_t`.
pub record VmInfo : Type 0 where
  pub internal : ℕ
  pub compressed : ℕ
  pub purgeable_volatile_pmap : ℕ
  pub phys_footprint : ℕ

-- `Stats` is `vm_statistics64_data_t`, which the function only passes on.
pub record ProfileCalls (W : Type 0) (Stats : Type 0) : Type 0 where
  -- `sysctlbyname("hw.memsize", &value, …)`: the value afterwards; the result is not looked at
  pub sysctl_memsize : ℕ → W → ℕ × W
  pub mach_host_self : W → ℕ × W
  -- `host_statistics64(host, HOST_VM_INFO64, &vminfo, …)`: what `vminfo` then is
  pub host_statistics64 : ℕ → Stats → W → Stats × W
  -- `task_info(task, TASK_VM_INFO_PURGEABLE, …)`
  pub task_vm_info : ℕ → W → ℕ × VmInfo × W

-- `physical_memory` and `calculated` of the one function, `localHost` of the other, which is set
-- when control first gets there.
pub record Statics : Type 0 where
  pub physical_memory : ℕ
  pub calculated : Bool
  pub local_host : Option ℕ

abbrev pub first_statics : Statics
first_statics = record { physical_memory = 0; calculated = false; local_host = none }

-- the parameters that are references
pub record Profile (Stats : Type 0) : Type 0 where
  pub vminfo : Stats
  pub physical_memory : ℕ
  pub anonymous : ℕ
  pub phys_footprint : ℕ
  pub memory_cap : ℕ

module _ {W Stats : Type 0} (k : ProfileCalls W Stats) where
  -- `GetPhysicalMemory`
  unfoldable pub get_physical_memory : Statics → W → ℕ × Statics × W
  get_physical_memory s w =
      if s.calculated
      then (s.physical_memory, s, w)
      else (let (value, w') = k.sysctl_memsize s.physical_memory w in
          (u64 value, record s { physical_memory = u64 value; calculated = true }, w'))

  -- `static mach_port_t localHost = mach_host_self();`
  abbrev pub ask_local_host : Statics → W → ℕ × Statics × W
  ask_local_host s w = elim s.local_host [
    | some host ↦ (host, s, w)
    | none ↦
        (let (host, w') = k.mach_host_self w in (host, record s { local_host = some host }, w'))
  ]

  -- What is taken from `vm_info`.
  abbrev pub take_info : ℕ → VmInfo → Profile Stats → Profile Stats
  take_info scan i q = record q {
    anonymous =
        if bit_and scan e_profile_memory_anonymous /= 0
        then sub64 (add64 i.internal i.compressed) i.purgeable_volatile_pmap
        else q.anonymous;
    phys_footprint = i.phys_footprint;
  }

  -- the body of `if (scanType & eProfileMemory)`
  unfoldable pub profile_memory : ℕ → ℕ → Profile Stats → Statics → W → Profile Stats × Statics × W
  profile_memory scan task q s w =
      let (host, s', w1) = ask_local_host s w in
      let (stats, w2) = k.host_statistics64 host q.vminfo w1 in
      let (kr, i, w3) = k.task_vm_info task w2 in
      let q' = record q { vminfo = stats } in
      (if u32 kr == kern_success then take_info scan i q' else q', s', w3)

  -- the first statement
  unfoldable pub profile_host : ℕ → Profile Stats → Statics → W → Profile Stats × Statics × W
  unfolding get_physical_memory
  profile_host scan q s w =
      if bit_and scan e_profile_host_memory /= 0
      then (let (value, s', w') = get_physical_memory s w in
          (record q { physical_memory = value }, s', w'))
      else (q, s, w)

  -- `GetMemoryProfile`
  unfoldable pub get_memory_profile :
      ℕ → ℕ → Profile Stats → Statics → W → Bool × Profile Stats × Statics × W
  unfolding profile_host profile_memory
  get_memory_profile scan task q s w =
      let (q1, s1, w1) = profile_host scan q s w in
      let (q2, s2, w2) =
        if bit_and scan e_profile_memory /= 0
        then profile_memory scan task q1 s1 w1
        else (q1, s1, w1) in
      (true, q2, s2, w2)
