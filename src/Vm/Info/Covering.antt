-- ===== src/Vm/Info/Covering.antt =====
-- The region that `GetMemoryRegionInfo` of MachVMMemory.cpp reports holds the address.
use debug_learning.Prelude.{
  ℕ, ◌+◌, ◌-◌, ◌/◌, ◌^◌, ◌≤◌, ◌<◌, ◌≡◌, refl, Bool, true, false, Option, some, none, arith, u32,
  leb, Bool-cases, inl, inr,
}
use debug_learning.Vm.Calls.{VmCalls}
use debug_learning.Vm.Region.{MachVmRegion, new_region, get_region_for_address}
use debug_learning.Vm.Region.Lookup.{get_region_for_address_iff}
use debug_learning.Vm.Info.{
  DnbRegionInfo, get_memory_region_info, get_dirty_pages, region_info, forget,
}

-- What is reported holds the address, and without a region nothing is permitted there; there is
-- no answer only where the pages of the region found are too many for an `int`.
abbrev pub Covers :
    {W : Type 0} → ℕ → ℕ → Bool × MachVmRegion × W → Option (DnbRegionInfo × W) → Type 0
Covers page a (found, r, w1) none = (found ≡ true) × (2 ^ 31 ≤ u32 (r.size / page))
Covers page a (found, r, w1) (some (i, w)) =
    (i.addr ≤ a) × (a < i.addr + i.size) × (found ≡ false → i.permissions ≡ 0)

module _ {W : Type 0} (k : VmCalls W) (page : ℕ) where
  pages-Covers :
      (a task : ℕ) (r : MachVmRegion) (w : W)
      → r.start ≤ a
      → a < r.start + r.size
      → Covers page a
          (true, r, w)
          (forget k page (region_info k page r (get_dirty_pages k page task r.start r.size w)))
  unfolding get_dirty_pages
  pages-Covers a task r w low high = elim (Bool-cases (leb (2 ^ 31) (u32 (r.size / page)))) [
    | inl many ↦ rw many (refl, ground (arith, many))
    | inr few ↦ rw few (low, high, λ h. cc)
  ]

  -- For an address but the last one, `GetMemoryRegionInfo` reports a piece of the address space
  -- that holds the address, whether a region was found or not; without a region it permits
  -- nothing. It has no defined answer only where the pages of the region are too many for an `int`.
  pub get_memory_region_info-Covers :
      (task a : ℕ) (i : DnbRegionInfo) (w : W)
      → a < 2 ^ 64 - 1
      → Covers page a
          (get_region_for_address k (new_region task) a w)
          (get_memory_region_info k page task a i w)
  unfolding get_memory_region_info
  get_memory_region_info-Covers task a i w h =
      let (found, r, w1) = get_region_for_address k (new_region task) a w in
      elim (Bool-cases found) [
        | inl yes_found ↦ rw yes_found (
            pages-Covers a task r w1
              (ground (arith, yes_found, get_region_for_address_iff k (new_region task) a w))
              (ground (arith, yes_found, get_region_for_address_iff k (new_region task) a w)))
        | inr not_found ↦ rw not_found (ground arith)
      ]
