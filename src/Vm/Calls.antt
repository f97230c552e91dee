-- ===== src/Vm/Calls.antt =====
-- The calls of the Mach kernel that MachVMRegion and MachVMMemory make. The kernel is not part of
-- the sources: each call is a function of its arguments and of the state `W` of everything
-- outside the debugger, and a theorem names what it relies on in a record of laws.
use debug_learning.Prelude.{ℕ, List}

-- What the program reads of `vm_region_submap_short_info_data_64_t`.
pub record RegionInfo : Type 0 where
  pub protection : ℕ
  pub user_tag : ℕ
  pub share_mode : ℕ

-- The out-parameters of `mach_vm_region_recurse`, with its result.
pub record RegionReply : Type 0 where
  pub kr : ℕ
  pub start : ℕ
  pub size : ℕ
  pub depth : ℕ
  pub info : RegionInfo

pub record VmCalls (W : Type 0) : Type 0 where
  -- `mach_vm_protect(task, addr, size, set_maximum, prot)`
  pub mach_vm_protect : ℕ → ℕ → ℕ → ℕ → ℕ → W → ℕ × W
  -- `mach_vm_region_recurse(task, &start, &size, &depth, &info, &count)`
  pub mach_vm_region_recurse : ℕ → ℕ → ℕ → ℕ → RegionInfo → W → RegionReply × W
  -- `task_info(task, TASK_VM_INFO, …)`: the result and the field `page_size`
  pub task_vm_page_size : ℕ → W → ℕ × ℕ × W
  -- `host_page_size(mach_host_self(), &size)`
  pub host_page_size : W → ℕ × ℕ × W
  -- `mach_vm_read(task, addr, size, &data, &count)`: the result and the bytes that came back
  pub mach_vm_read : ℕ → ℕ → ℕ → W → ℕ × List ℕ × W
  -- `mach_vm_write(task, addr, data, count)`, with the bytes that `data` and `count` delimit
  pub mach_vm_write : ℕ → ℕ → List ℕ → W → ℕ × W
  -- `vm_machine_attribute(task, addr, size, MATTR_CACHE, &MATTR_VAL_CACHE_FLUSH)`
  pub vm_machine_attribute : ℕ → ℕ → ℕ → W → ℕ × W
  -- `mach_vm_page_range_query(task, addr, size, dispositions, &count)`: the result, the count that
  -- came back and the disposition of each page
  pub mach_vm_page_range_query : ℕ → ℕ → ℕ → ℕ → W → ℕ × ℕ × (ℕ → ℕ) × W
