-- ===== src/Vm/Region/Protections.antt =====
-- Changing the protections of a part of a region and putting them back: SetProtections,
-- RestoreProtections and Clear of MachVMRegion.cpp, over a kernel whose `mach_vm_protect` sets the
-- protection of the pages that a range touches, or fails and changes nothing.
use debug_learning.Prelude.{
  ℕ, ◌+◌, ◌-◌, ◌%◌, ◌<◌, ◌≤◌, ◌^◌, ◌≡◌, ◌≢◌, Bool, true, false, ◌&&◌, ltb, leb, ◌/=◌, if◌then◌else◌,
  arith, u32, ◌⊎◌, inl, inr, refl,
}
use debug_learning.DnbError.{success}
use debug_learning.Vm.Calls.{VmCalls}
use debug_learning.Vm.Region.{
  MachVmRegion, contains_address, protect_or_copy, protect_range, clipped, set_protections,
  restore_protections,
}

-- `x` lies on a page of the `n` bytes from `a` on.
abbrev pub touches : (ℕ → ℕ) → ℕ → ℕ → ℕ → Bool
touches page a n x = leb (page a) (page x) && leb (page x) (page (a + n - 1))

-- `prot w t x` is the protection of address `x` of task `t`, and `page x` the page of `x`.
pub record ProtectLaws {W : Type 0} (k : VmCalls W) (page : ℕ → ℕ) (prot : W → ℕ → ℕ → ℕ)
    : Type 0 where
  pub page_mono : (x y : ℕ) → x ≤ y → page x ≤ page y
  pub protects :
      (t a n p x : ℕ) (w : W)
      → u32 (k.mach_vm_protect t a n 0 p w).0 ≡ 0
      → prot (k.mach_vm_protect t a n 0 p w).1 t x
        ≡ (if touches page a n x then p % 8 else prot w t x)
  pub refuses :
      (t a n p x : ℕ) (w : W)
      → u32 (k.mach_vm_protect t a n 0 p w).0 ≢ 0
      → prot (k.mach_vm_protect t a n 0 p w).1 t x ≡ prot w t x

-- The object remembers a range whose protection differs from the region's own.
abbrev pub is_changed : MachVmRegion → Bool
is_changed r = r.curr_protection /= r.info.protection && ltb 0 r.protection_size

abbrev pub in_range : (ℕ → ℕ) → MachVmRegion → ℕ → Bool
in_range page r x = touches page r.protection_addr r.protection_size x

-- `now` differs from `orig` at most on the range that the object remembers, and there `orig` is
-- the region's own protection.
pub record Pending (page orig now : ℕ → ℕ) (r : MachVmRegion) : Type 0 where
  pub saved : (x : ℕ) → is_changed r ≡ true → in_range page r x ≡ true → orig x ≡ r.info.protection
  pub outside : (x : ℕ) → is_changed r ≡ true → in_range page r x ≡ false → now x ≡ orig x
  pub quiet : (x : ℕ) → is_changed r ≡ false → now x ≡ orig x

-- The region's own protection is what its pages have.
abbrev pub Uniform : (ℕ → ℕ) → (ℕ → ℕ) → MachVmRegion → Type 0
Uniform page now r = (x : ℕ) → touches page r.start r.size x ≡ true → now x ≡ r.info.protection

module _ {W : Type 0} {k : VmCalls W} {page : ℕ → ℕ} {prot : W → ℕ → ℕ → ℕ}
    (laws : ProtectLaws k page prot) where
  -- A successful restore of a pending region gives every address the protection that it had.
  pub restore_protections-Pending :
      (orig : ℕ → ℕ) (r : MachVmRegion) (w : W)
      → r.info.protection < 8
      → Pending page orig (prot w r.task) r
      → (restore_protections k r w).0 ≡ true
      → (x : ℕ) → prot (restore_protections k r w).2 r.task x ≡ orig x
  unfolding restore_protections
  restore_protections-Pending orig r w small p e x = ground (
    arith,
    p.saved x,
    p.outside x,
    p.quiet x,
    laws.protects r.task r.protection_addr r.protection_size r.info.protection x w,
  )

  -- The two calls of `SetProtections` together set the range to `p`, or fail and change nothing.
  pub protect_or_copy_lem :
      (r : MachVmRegion) (a n p x : ℕ) (w : W)
      → p ≡ 3
      → let (e, w') = protect_or_copy k r a n p w in
        prot w' r.task x
        ≡ (if success e then if touches page a n x then p else prot w r.task x else prot w r.task x)
  unfolding protect_or_copy
  protect_or_copy_lem r a n p x w h = rw h (
      ground (
        arith,
        laws.protects r.task a n p x w,
        laws.refuses r.task a n p x w,
        laws.protects r.task a n 19 x (k.mach_vm_protect r.task a n 0 p w).1,
        laws.refuses r.task a n 19 x (k.mach_vm_protect r.task a n 0 p w).1,
      ))

  -- After a lookup, `SetProtections(a, size, VM_PROT_READ | VM_PROT_WRITE)` leaves the region
  -- pending, whether it succeeds or not.
  module _ (orig : ℕ → ℕ) (r : MachVmRegion) (a size : ℕ) (w : W) (hs : r.start < 2 ^ 64)
      (hz : r.size < 2 ^ 64) (fresh : r.curr_protection ≡ r.info.protection)
      (small : r.info.protection < 8) (uniform : Uniform page orig r)
      (same : (x : ℕ) → prot w r.task x ≡ orig x) where
    range_in_region :
        (n x : ℕ)
        → contains_address r a ≡ true
        → 0 < n
        → a + n ≤ r.start + r.size
        → touches page a n x ≡ true
        → orig x ≡ r.info.protection
    range_in_region n x h pos fits t = uniform x (
        ground (arith, laws.page_mono r.start a, laws.page_mono (a + n - 1) (r.start + r.size - 1)))

    protect_range-Pending :
        (n : ℕ)
        → contains_address r a ≡ true
        → 0 < n
        → a + n ≤ r.start + r.size
        → let (_, r', w') = protect_range k r a n 3 w in Pending page orig (prot w' r.task) r'
    unfolding protect_range
    protect_range-Pending n h pos fits = record {
      saved = λ x. ground (arith, range_in_region n x h pos fits);
      outside = λ x. ground (arith, same x, protect_or_copy_lem r a n 3 x w refl);
      quiet = λ x.
          ground
            (arith, same x, range_in_region n x h pos fits, protect_or_copy_lem r a n 3 x w refl);
    }

    untouched-Pending : Pending page orig (prot w r.task) r
    untouched-Pending = record {
      saved = λ x. ground arith;
      outside = λ x. ground (arith, same x);
      quiet = λ x. ground (arith, same x);
    }

    set_protections-cases :
        (set_protections k r a size 3 w ≡ (true, r, w))
        ⊎ (set_protections k r a size 3 w ≡ (false, r, w))
        ⊎ ((contains_address r a ≡ true)
            × (0 < clipped r a size)
            × (a + clipped r a size ≤ r.start + r.size)
            × (set_protections k r a size 3 w ≡ protect_range k r a (clipped r a size) 3 w))
    unfolding set_protections
    set_protections-cases = ground arith

    pub set_protections-Pending :
        let (_, r', w') = set_protections k r a size 3 w in Pending page orig (prot w' r.task) r'
    set_protections-Pending = elim set_protections-cases [
      | inl e ↦ rw e untouched-Pending
      | inr (inl e) ↦ rw e untouched-Pending
      | inr (inr (h, pos, fits, e)) ↦ rw e (protect_range-Pending (clipped r a size) h pos fits)
    ]
