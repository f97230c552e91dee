-- ===== src/Vm/Memory/Keeping.antt =====
-- What the region object of Write in MachVMMemory.cpp knows of the changed protections, through
-- the methods of MachVMRegion.cpp that Write calls.
use debug_learning.Prelude.{
  ℕ, ◌<◌, ◌≡◌, refl, Bool, true, List, arith, u32, u64, Bool-cases, inl, inr, sym, ◌∙◌, subst,
  fun_ext,
}
use debug_learning.Vm.Calls.{VmCalls, RegionReply}
use debug_learning.Vm.Region.{
  MachVmRegion, get_region_for_address, set_protections, restore_protections, new_region,
  clear_region, no_info,
}
use debug_learning.Vm.Region.Lookup.{
  get_region_for_address-reply, get_region_for_address_iff, get_region_for_address-words,
  set_protections-same,
}
use debug_learning.Vm.Region.Protections.{
  touches, ProtectLaws, is_changed, Pending, Uniform, restore_protections-Pending,
  set_protections-Pending,
}
use debug_learning.Vm.Memory.{read_write}

-- What the restoring rests on: the kernel tells the protection of a region truly, accepts a
-- protection that all pages of a range had in `orig`, and changes protections by
-- `mach_vm_protect` alone.
pub record RestoreLaws {W : Type 0} (k : VmCalls W) (page : ℕ → ℕ) (prot : W → ℕ → ℕ → ℕ) (t : ℕ)
    (orig : ℕ → ℕ) : Type 0 where
  pub protection : ProtectLaws k page prot
  pub accepts :
      (a n p : ℕ) (w : W)
      → ((x : ℕ) → touches page a n x ≡ true → orig x ≡ p)
      → u32 (k.mach_vm_protect t a n 0 p w).0 ≡ 0
  pub small :
      (a size depth : ℕ) (info : _) (w : W)
      → (k.mach_vm_region_recurse t a size depth info w).0.info.protection < 8
  pub describes :
      (a size depth x : ℕ) (info : _) (w : W)
      → ((y : ℕ) → prot w t y ≡ orig y)
      → let reply = (k.mach_vm_region_recurse t a size depth info w).0 in
        u32 reply.kr ≡ 0
        → touches page (u64 reply.start) (u64 reply.size) x ≡ true
        → orig x ≡ reply.info.protection
  pub recurse_keeps :
      (a size depth x : ℕ) (info : _) (w : W)
      → prot (k.mach_vm_region_recurse t a size depth info w).1 t x ≡ prot w t x
  pub write_keeps :
      (a x : ℕ) (bytes : List ℕ) (w : W) → prot (k.mach_vm_write t a bytes w).1 t x ≡ prot w t x
  pub flush_keeps : (a n x : ℕ) (w : W) → prot (k.vm_machine_attribute t a n w).1 t x ≡ prot w t x
  pub host_keeps : (x : ℕ) (w : W) → prot (k.host_page_size w).2 t x ≡ prot w t x
  pub task_keeps : (x : ℕ) (w : W) → prot (k.task_vm_page_size t w).2 t x ≡ prot w t x

module _ {W : Type 0} {k : VmCalls W} {page : ℕ → ℕ} {prot : W → ℕ → ℕ → ℕ} {task : ℕ}
    {orig : ℕ → ℕ} (laws : RestoreLaws k page prot task orig) where
  -- The region object knows all that differs from `orig`.
  pub record Kept (r : MachVmRegion) (w : W) : Type 0 where
    pub here : r.task ≡ task
    pub small : r.info.protection < 8
    pub pending : Pending page orig (prot w r.task) r

  restored : (r : MachVmRegion) (w : W) → Kept r w → (restore_protections k r w).0 ≡ true
  unfolding restore_protections
  restored r w h = elim (Bool-cases (is_changed r)) [
    | inr clean ↦ ground arith
    | inl changed ↦
        let ok =
          laws.accepts r.protection_addr r.protection_size r.info.protection w
            (λ x t. h.pending.saved x changed t) in
        let here = h.here in ground arith
  ]

  pub clear_region-Kept :
      (r : MachVmRegion) (w : W) → Kept r w → (x : ℕ) → prot (clear_region k r w).1 task x ≡ orig x
  unfolding clear_region
  clear_region-Kept r w h x =
      let same =
        restore_protections-Pending laws.protection orig r w h.small h.pending (restored r w h) x in
      subst (λ t. prot (clear_region k r w).1 t x ≡ orig x) h.here same

  -- A lookup restores what was changed, and finds a region that its pages agree with.
  module _ (r : MachVmRegion) (a : ℕ) (w : W) (h : Kept r w) where
    abbrev looked_up : Bool × MachVmRegion × W
    looked_up = get_region_for_address k r a w

    cleared : (x : ℕ) → prot (clear_region k r w).1 task x ≡ orig x
    cleared = clear_region-Kept r w h

    asked : RegionReply × W
    asked = k.mach_vm_region_recurse task a 0 1024 no_info (clear_region k r w).1

    pub lookup_keeps : (x : ℕ) → prot looked_up.2 task x ≡ orig x
    lookup_keeps x =
        rw (get_region_for_address-reply k task r a w h.here).0
          (laws.recurse_keeps a 0 1024 x no_info (clear_region k r w).1 ∙ cleared x)

    lookup-Uniform : looked_up.0 ≡ true → Uniform page orig looked_up.1
    lookup-Uniform found x t =
        let (_, es, ez, ei, ee) = get_region_for_address-reply k task r a w h.here in
        rw ei (
          laws.describes a 0 1024 x no_info (clear_region k r w).1 cleared
            (ground (arith, get_region_for_address_iff k r a w, ee)) (rw (← es, ← ez) t))

    lookup-small : looked_up.1.info.protection < 8
    lookup-small =
        rw (get_region_for_address-reply k task r a w h.here).3
          (laws.small a 0 1024 no_info (clear_region k r w).1)

    -- Nothing is changed in what a lookup leaves.
    pub lookup-Kept : Kept looked_up.1 looked_up.2
    lookup-Kept =
        let (_, _, here, clean, _) = get_region_for_address_iff k r a w in
        record {
          here = here ∙ h.here;
          small = lookup-small;
          pending = record {
            saved = λ x c. ground arith;
            outside = λ x c. ground arith;
            quiet = λ x _. rw (here ∙ h.here) (lookup_keeps x);
          };
        }

    -- What `SetProtections` leaves after a lookup that found the address.
    pub guarded-Kept :
        (n : ℕ)
        → looked_up.0 ≡ true
        → let (_, r', w') = set_protections k looked_up.1 a n read_write looked_up.2 in Kept r' w'
    guarded-Kept n found =
        let (_, _, here, _, fresh) = get_region_for_address_iff k r a w in
        let (hs, hz) = get_region_for_address-words k r a w in
        let (here', info) = set_protections-same k looked_up.1 a n read_write looked_up.2 in
        let at : looked_up.1.task ≡ task = here ∙ h.here in
        record {
          here = here' ∙ at;
          small = rw info lookup-small;
          pending = rw here' (
              set_protections-Pending laws.protection orig looked_up.1 a n looked_up.2 hs hz
                (fresh found) lookup-small (lookup-Uniform found) (λ x. rw at (lookup_keeps x)));
        }

  pub Kept-ext :
      (r : MachVmRegion) (w w' : W)
      → Kept r w
      → ((x : ℕ) → prot w' task x ≡ prot w task x)
      → Kept r w'
  Kept-ext r w w' h same = record {
    here = h.here;
    small = h.small;
    pending =
        let e : prot w r.task ≡ prot w' r.task = fun_ext λ x. rw h.here (sym (same x)) in
        subst (λ f. Pending page orig f r) e h.pending;
  }

  pub fresh-Kept : (w : W) → ((x : ℕ) → prot w task x ≡ orig x) → Kept (new_region task) w
  fresh-Kept w same = record {
    here = refl;
    small = omega arith;
    pending = record {
      saved = λ x c. ground arith;
      outside = λ x c. ground arith;
      quiet = λ x _. same x;
    };
  }
