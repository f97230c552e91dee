-- ===== src/Vm/Region/Lookup.antt =====
-- What GetRegionForAddress, SetProtections and GetDNBPermissions of MachVMRegion.cpp promise.
use debug_learning.Prelude.{
  ℕ, u64, ◌+◌, ◌*◌, ◌/◌, ◌%◌, ◌<◌, ◌^◌, ◌≡◌, true, ◌&&◌, if◌then◌else◌, arith, ◌==◌,
}
use debug_learning.Prelude.Bits.{bit_and-one, bit_and_two, bit_and_four}
use debug_learning.DnbError.{success, assign}
use debug_learning.Vm.Calls.{VmCalls}
use debug_learning.Vm.Region.{
  MachVmRegion, invalid_nub_address, end_address, contains_address, bytes_remaining,
  get_dnb_permissions, get_region_for_address, set_protections, no_info, clear_region,
}

module _ {W : Type 0} (k : VmCalls W) where
  -- The lookup answers true exactly when the kernel succeeded and the region that it described
  -- holds the address; either way the object is about the address that was asked for, and no
  -- changed protection is left in it.
  pub get_region_for_address_iff :
      (r : MachVmRegion) (a : ℕ) (w : W)
      → let (found, r', _) = get_region_for_address k r a w in
        (found ≡ (success r'.err && contains_address r' a))
        × (r'.addr ≡ a)
        × (r'.task ≡ r.task)
        × (r'.protection_size ≡ 0)
        × (found ≡ true → r'.curr_protection ≡ r'.info.protection)
  unfolding get_region_for_address
  get_region_for_address_iff r a w = ground arith

  -- The fields and the state that a lookup leaves, from the answer of the kernel.
  pub get_region_for_address-reply :
      (t : ℕ) (r : MachVmRegion) (a : ℕ) (w : W)
      → r.task ≡ t
      → let (_, r', w') = get_region_for_address k r a w in
        let (reply, w'') = k.mach_vm_region_recurse t a 0 1024 no_info (clear_region k r w).1 in
        (w' ≡ w'')
        × (r'.start ≡ u64 reply.start)
        × (r'.size ≡ u64 reply.size)
        × (r'.info ≡ reply.info)
        × (r'.err ≡ assign reply.kr)
  unfolding get_region_for_address
  get_region_for_address-reply t r a w h = ground arith

  pub set_protections-same :
      (r : MachVmRegion) (a size prot : ℕ) (w : W)
      → let (_, r', _) = set_protections k r a size prot w in
        (r'.task ≡ r.task) × (r'.info ≡ r.info)
  unfolding set_protections
  set_protections-same r a size prot w = ground arith

  pub get_region_for_address-words :
      (r : MachVmRegion) (a : ℕ) (w : W)
      → let (_, r', _) = get_region_for_address k r a w in (r'.start < 2 ^ 64) × (r'.size < 2 ^ 64)
  unfolding get_region_for_address
  get_region_for_address-words r a w = ground arith

  -- In a region whose fields are 64-bit words, an address that it contains has a positive number
  -- of bytes left, which lead to the region's end.
  pub bytes_remaining_lem :
      (r : MachVmRegion) (a : ℕ)
      → r.start < 2 ^ 64
      → r.size < 2 ^ 64
      → contains_address r a ≡ true
      → (0 < bytes_remaining r a)
        × (a + bytes_remaining r a ≡ end_address r)
        × (end_address r ≡ r.start + r.size)
  bytes_remaining_lem r a hs hz h = ground arith

-- The three tests on the protection read its three lowest bits.
pub get_dnb_permissions_lem :
    (r : MachVmRegion)
    → get_dnb_permissions r ≡ (
        if r.addr == invalid_nub_address
        then 0
        else if r.start == invalid_nub_address
        then 0
        else if r.size == 0
        then 0
        else r.info.protection % 2 * 2 + r.info.protection / 2 % 2 + r.info.protection / 4 % 2 * 4)
unfolding get_dnb_permissions
get_dnb_permissions_lem r = ground (
  arith,
  bit_and-one r.info.protection,
  bit_and_two r.info.protection,
  bit_and_four r.info.protection,
)
