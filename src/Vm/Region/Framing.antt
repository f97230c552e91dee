-- ===== src/Vm/Region/Framing.antt =====
-- What the methods of MachVMRegion.cpp leave alone: all that neither a change of a protection nor a
-- question for a region touches.
use debug_learning.Prelude.{ℕ, ◌≡◌, arith, bit_or}
use debug_learning.Sdk.{vm_prot_copy}
use debug_learning.Vm.Calls.{VmCalls, RegionInfo}
use debug_learning.Vm.Region.{
  MachVmRegion, get_region_for_address, set_protections, clear_region, clipped, no_info,
}
use debug_learning.Vm.Region.Lookup.{get_region_for_address-reply}

module _ {W X : Type 0} (k : VmCalls W) (obs : W → X) (task : ℕ)
    (protect_same : (x n prot : ℕ) (w : W) → obs (k.mach_vm_protect task x n 0 prot w).1 ≡ obs w)
    (recurse_same : (x size depth : ℕ) (info : RegionInfo) (w : W)
      → obs (k.mach_vm_region_recurse task x size depth info w).1 ≡ obs w) where
  pub clear_region-frames :
      (r : MachVmRegion) (w : W) → r.task ≡ task → obs (clear_region k r w).1 ≡ obs w
  unfolding clear_region
  clear_region-frames r w h =
      ground (arith, protect_same r.protection_addr r.protection_size r.info.protection w)

  pub lookup-frames :
      (r : MachVmRegion) (x : ℕ) (w : W)
      → r.task ≡ task
      → obs (get_region_for_address k r x w).2 ≡ obs w
  lookup-frames r x w h = ground (
    arith,
    recurse_same x 0 1024 no_info (clear_region k r w).1,
    get_region_for_address-reply k task r x w h,
    clear_region-frames r w h,
  )

  pub set_protections-frames :
      (r : MachVmRegion) (x n prot : ℕ) (w : W)
      → r.task ≡ task
      → obs (set_protections k r x n prot w).2 ≡ obs w
  unfolding set_protections
  set_protections-frames r x n prot w h =
      let size = clipped r x n in
      let (kr, w') = k.mach_vm_protect task x size 0 prot w in
      ground (arith, protect_same x size prot w, protect_same x size (bit_or prot vm_prot_copy) w')
