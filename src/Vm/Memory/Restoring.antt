-- ===== src/Vm/Memory/Restoring.antt =====
-- Write of MachVMMemory.cpp gives every page its protection back: the loop changes protections
-- region by region, and each lookup, and the destructor at the end, restores them.
use debug_learning.Prelude.{
  ℕ, zero, suc, ◌+◌, ◌-◌, ◌<◌, ◌^◌, ◌≡◌, Bool, some, none, Option, List, ltb, Bool-cases, inl, inr,
  ap, fun_ext, ◌==◌, if◌then◌else◌,
}
use debug_learning.Vm.Calls.{VmCalls}
use debug_learning.Vm.Region.{
  MachVmRegion, bytes_remaining, get_region_for_address, set_protections, new_region,
}
use debug_learning.Vm.Memory.Ending.{Ends, write-Ends}
use debug_learning.Vm.Memory.{
  MachVmMemory, Round, Written, write_region, write_round, write_loop, write, read_write, wrote,
  destroy, after_round,
}
use debug_learning.Vm.Memory.Framing.{Leaves, write_region-Leaves}
use debug_learning.Vm.Memory.Keeping.{
  RestoreLaws, Kept, clear_region-Kept, lookup-Kept, guarded-Kept, Kept-ext, fresh-Kept,
}

-- A call returned, and left the protections `orig` in task `t`.
abbrev pub HasProtections :
    {W : Type 0} → (W → ℕ → ℕ → ℕ) → ℕ → (ℕ → ℕ) → Option (ℕ × MachVmMemory × W) → Type 0
HasProtections prot t orig none = ⊥
HasProtections prot t orig (some (_, _, w)) = (x : ℕ) → prot w t x ≡ orig x

module _ {W : Type 0} {k : VmCalls W} {page : ℕ → ℕ} {prot : W → ℕ → ℕ → ℕ} {task : ℕ}
    {orig : ℕ → ℕ} (laws : RestoreLaws k page prot task orig) where
  -- `WriteRegion` leaves the protections alone.
  abbrev Unchanged : W → Option (ℕ × MachVmMemory × W) → Type 0
  Unchanged w none = Unit
  Unchanged w (some (_, _, w')) = (x : ℕ) → prot w' task x ≡ prot w task x

  Leaves-Unchanged :
      (w : W) (o : Option (ℕ × MachVmMemory × W))
      → Leaves (λ w'. prot w' task) (prot w task) o
      → Unchanged w o
  Leaves-Unchanged w none h = tt
  Leaves-Unchanged w (some (n, m, w')) h = λ x. ap (λ f. f x) h

  write_region-Unchanged :
      (a count : ℕ) (bytes : Option (List ℕ)) (m : MachVmMemory) (w : W)
      → Unchanged w (write_region k task a bytes count m w)
  write_region-Unchanged a count bytes m w =
      Leaves-Unchanged w (write_region k task a bytes count m w) (
        write_region-Leaves k (λ w'. prot w' task) task (λ w'. fun_ext λ x. laws.host_keeps x w')
          (λ w'. fun_ext λ x. laws.task_keeps x w')
          (λ b bs w'. fun_ext λ x. laws.write_keeps b x bs w')
          (λ b n w'. fun_ext λ x. laws.flush_keeps b n x w') a count bytes m w)

  abbrev RoundKept : Option (Round W) → Type 0
  RoundKept none = Unit
  RoundKept (some q) = Kept laws q.region q.world

  wrote-RoundKept :
      (r : MachVmRegion) (w : W) (o : Option (ℕ × MachVmMemory × W))
      → Unchanged w o
      → Kept laws r w
      → RoundKept (wrote r o)
  wrote-RoundKept r w none same h = tt
  wrote-RoundKept r w (some (n, m, w')) same h = Kept-ext laws r w w' h same

  write_round-RoundKept :
      (a left : ℕ) (bytes : Option (List ℕ)) (m : MachVmMemory) (r : MachVmRegion) (w : W)
      → Kept laws r w
      → RoundKept (write_round k task a left bytes m r w)
  unfolding write_round
  write_round-RoundKept a left bytes m r w h = elim (Bool-cases found.0) [
    | inr missing ↦ rw missing (lookup-Kept laws r a w h)
    | inl there ↦ rw there (elim (Bool-cases (bytes_remaining found.1 a == 0)) [
      | inl full ↦ rw full (lookup-Kept laws r a w h)
      | inr room ↦ rw room (elim (Bool-cases ready.0) [
        | inr refused ↦ rw refused (guarded-Kept laws r a w h n there)
        | inl open_ ↦ rw open_ (
            wrote-RoundKept _ _ _ (write_region-Unchanged a n bytes m ready.2)
              (guarded-Kept laws r a w h n there))
      ])
    ])
  ]
    where
      found : Bool × MachVmRegion × W
      found = get_region_for_address k r a w

      n : ℕ
      n = if ltb (bytes_remaining found.1 a) left then bytes_remaining found.1 a else left

      ready : Bool × MachVmRegion × W
      ready = set_protections k found.1 a n read_write found.2

  abbrev LoopKept : Option (Written W) → Type 0
  LoopKept none = Unit
  LoopKept (some (_, _, r, w)) = Kept laws r w

  after-LoopKept :
      (next : Round W → Option (Written W)) (total : ℕ) (o : Option (Round W))
      → RoundKept o
      → ((q : Round W) → Kept laws q.region q.world → LoopKept (next q))
      → LoopKept (after_round next total o)
  after-LoopKept next total (some q) h ih = elim (Bool-cases q.more) [
    | inl more ↦ simp more (ih q h)
    | inr over ↦ simp over h
  ]
  after-LoopKept next total none h ih = tt

  write_loop-LoopKept :
      (fuel count total a : ℕ) (bytes : Option (List ℕ)) (m : MachVmMemory) (r : MachVmRegion)
      (w : W)
      → Kept laws r w
      → LoopKept (write_loop k fuel task count total a bytes m r w)
  unfolding write_loop
  write_loop-LoopKept zero count total a bytes m r w h = tt
  write_loop-LoopKept (suc fuel) count total a bytes m r w h = elim (Bool-cases (ltb total count)) [
    | inr done ↦ rw done h
    | inl go ↦ rw go (
        after-LoopKept _ total _ (write_round-RoundKept a (count - total) bytes m r w h)
          (λ q kept. write_loop-LoopKept fuel count _ _ _ _ _ _ kept))
  ]

  destroy-HasProtections :
      (o : Option (Written W)) (count : ℕ)
      → Ends count (destroy k o)
      → LoopKept o
      → HasProtections prot task orig (destroy k o)
  unfolding destroy
  destroy-HasProtections none count e h = e
  destroy-HasProtections (some (n, m, r, w)) count e h = clear_region-Kept laws r w h

  -- `Write` of fewer than 2 ^ 32 bytes returns, and then every address of the task has the
  -- protection that it had before.
  pub write-HasProtections :
      (a count : ℕ) (bytes : Option (List ℕ)) (m : MachVmMemory) (w : W)
      → count < 2 ^ 32
      → ((x : ℕ) → prot w task x ≡ orig x)
      → HasProtections prot task orig (write k task a bytes count m w)
  unfolding write
  write-HasProtections a count bytes m w hc same =
      destroy-HasProtections _ count (write-Ends k task a count bytes m w hc) (
        write_loop-LoopKept (count + 1) count 0 a bytes m (new_region task) w
          (fresh-Kept laws w same))
