-- ===== src/Vm/Info.antt =====
-- What MachVMMemory.cpp and MachVMRegion.cpp report of a region: `get_dirty_pages`,
-- `MachVMRegion::GetMemoryTypes` and `MachVMMemory::GetMemoryRegionInfo`.
--
-- `vm_page_size` is a variable of the system and a parameter. The count of the pages is an `int`;
-- a negative one is the size of an array, which is undefined, and `none` here.
pub mod Dirty
pub mod Covering
mod Tests
use Prim.Native.String.{String}
use debug_learning.Prelude.{
  ℕ, zero, suc, ◌+◌, ◌-◌, ◌*◌, ◌/◌, ◌^◌, Bool, true, false, ◌||◌, Option, none, some, List, [], ◌∷◌,
  ◌++◌, ltb, leb, ◌==◌, ◌/=◌, if◌then◌else◌, bit_and, add64, u32, u64,
}
use debug_learning.Sdk.{
  vm_prot_none, kern_success, vm_memory_malloc, vm_memory_malloc_small, vm_memory_malloc_large,
  vm_memory_malloc_huge, vm_memory_sbrk, vm_memory_realloc, vm_memory_malloc_tiny,
  vm_memory_malloc_large_reusable, vm_memory_malloc_large_reused, vm_memory_malloc_nano,
  vm_memory_stack, sm_empty,
}
use debug_learning.DnbError.{success}
use debug_learning.Vm.Calls.{VmCalls, RegionInfo}
use debug_learning.Vm.Region.{
  MachVmRegion, new_region, get_region_for_address, get_dnb_permissions, clear_region,
  invalid_nub_address,
}

-- `MAX_STACK_ALLOC_DISPOSITIONS`, 16 KiB of `int`
abbrev pub max_stack_alloc_dispositions : ℕ
max_stack_alloc_dispositions = 4096

-- `VM_PAGE_QUERY_PAGE_DIRTY`
abbrev pub page_dirty : ℕ
page_dirty = 8

-- The inner loop, with `n` rounds left from `i` on: the addresses of the dirty pages.
unfoldable pub dirty_in_chunk : ℕ → ℕ → ℕ → ℕ → (ℕ → ℕ) → List ℕ
dirty_in_chunk page zero i start dispositions = []
dirty_in_chunk page (suc n) i start dispositions =
    let rest = dirty_in_chunk page n (i + 1) start dispositions in
    if bit_and (dispositions i) page_dirty /= 0 then add64 start (u64 (i * page)) ∷ rest else rest

module _ {W : Type 0} (k : VmCalls W) (page : ℕ) where
  -- The outer loop, with `n` chunks left from the chunk `c` on.
  unfoldable pub dirty_chunks : ℕ → ℕ → ℕ → ℕ → ℕ → ℕ → List ℕ → W → List ℕ × W
  unfolding dirty_in_chunk
  dirty_chunks zero c task addr pages most dirty w = (dirty, w)
  dirty_chunks (suc n) c task addr pages most dirty w =
      let queried = c * max_stack_alloc_dispositions in
      let asked = if ltb (pages - queried) most then pages - queried else most in
      let start = add64 addr (u64 (queried * page)) in
      let (kr, count, dispositions, w') =
        k.mach_vm_page_range_query task start (u64 (asked * page)) asked w in
      let rest =
        dirty_chunks n (c + 1) task addr pages most
          (dirty ++ dirty_in_chunk page count 0 start dispositions) w' in
      if kr /= kern_success then (dirty, w') else rest

  -- `get_dirty_pages`
  unfoldable pub get_dirty_pages : ℕ → ℕ → ℕ → W → Option (List ℕ × W)
  unfolding dirty_chunks
  get_dirty_pages task addr size w =
      let pages = u32 (size / page) in
      let most =
        if ltb pages max_stack_alloc_dispositions then pages else max_stack_alloc_dispositions in
      let chunks = (pages + max_stack_alloc_dispositions - 1) / max_stack_alloc_dispositions in
      if leb (2 ^ 31) pages then none else some (dirty_chunks chunks 0 task addr pages most [] w)

-- the test for "heap"
abbrev pub is_heap : ℕ → Bool
is_heap t =
    t == vm_memory_malloc_nano
    || t == vm_memory_malloc_tiny
    || t == vm_memory_malloc_small
    || t == vm_memory_malloc_large
    || t == vm_memory_malloc_large_reused
    || t == vm_memory_malloc_large_reusable
    || t == vm_memory_malloc_huge
    || t == vm_memory_realloc
    || t == vm_memory_sbrk

-- `if (…) { types.push_back(…); }`
abbrev pub push_if : Bool → String → List String → List String
push_if test s types = if test then types ++ (s ∷ []) else types

-- `GetMemoryTypes`
unfoldable pub get_memory_types : RegionInfo → List String
get_memory_types d =
    let t1 =
      push_if (d.user_tag == vm_memory_stack)
        (if d.protection == vm_prot_none then "stack-guard" else "stack") [] in
    let t2 =
      push_if (d.user_tag == vm_memory_malloc)
        (if d.protection == vm_prot_none
          then "malloc-guard"
          else if d.share_mode == sm_empty
          then "malloc-reserved"
          else "malloc-metadata")
        t1 in
    let t3 = push_if (is_heap d.user_tag) "heap" t2 in
    let t4 = push_if (d.user_tag == vm_memory_malloc_tiny) "malloc-tiny" t3 in
    let t5 = push_if (d.user_tag == vm_memory_malloc_large) "malloc-large" t4 in
    push_if (d.user_tag == vm_memory_malloc_small) "malloc-small" t5

-- `DNBRegionInfo`
pub record DnbRegionInfo : Type 0 where
  pub addr : ℕ
  pub size : ℕ
  pub permissions : ℕ
  pub dirty_pages : List ℕ
  pub vm_types : List String

-- The answer where there is no region at `address`.
abbrev pub no_region_info : MachVmRegion → ℕ → DnbRegionInfo → DnbRegionInfo
no_region_info r address i =
    let size =
      if success r.err then (if ltb address r.start then r.start - address else 0) else 0 in
    record i {
      addr = address;
      size = if size == 0 then invalid_nub_address - address else size;
      permissions = 0;
    }

module _ {W : Type 0} (k : VmCalls W) (page : ℕ) where
  -- the answer for a region
  abbrev pub region_info :
      MachVmRegion → Option (List ℕ × W) → Option (DnbRegionInfo × MachVmRegion × W)
  region_info r none = none
  region_info r (some (dirty, w)) = some (
    record {
      addr = r.start;
      size = r.size;
      permissions = get_dnb_permissions r;
      dirty_pages = dirty;
      vm_types = get_memory_types r.info;
    },
    r,
    w,
  )

  -- the destructor of the region object
  abbrev pub forget : Option (DnbRegionInfo × MachVmRegion × W) → Option (DnbRegionInfo × W)
  forget none = none
  forget (some (i, r, w)) = some (i, (clear_region k r w).1)

  -- `GetMemoryRegionInfo`, with the values that `*region_info` has before
  unfoldable pub get_memory_region_info : ℕ → ℕ → DnbRegionInfo → W → Option (DnbRegionInfo × W)
  get_memory_region_info task address i w =
      let (found, r, w1) = get_region_for_address k (new_region task) address w in
      forget (
        if found
        then region_info r (get_dirty_pages k page task r.start r.size w1)
        else some (no_region_info r address i, r, w1))
