-- ===== src/Vm/Memory/Framing.antt =====
-- What Read and Write of MachVMMemory.cpp leave alone: all that none of their calls touches.
use Prim.{Unit, tt}
use debug_learning.Prelude.{
  ℕ, zero, suc, ◌+◌, ◌-◌, ◌≡◌, refl, Bool, some, none, Option, List, [], take, ltb, arith, u32, ◌∙◌,
  ◌==◌, if◌then◌else◌, Bool-cases, inl, inr, subst,
}
use debug_learning.DnbError.{success, assign}
use debug_learning.Vm.Calls.{VmCalls, RegionInfo}
use debug_learning.Vm.Region.{
  MachVmRegion, bytes_remaining, get_region_for_address, set_protections, new_region,
}
use debug_learning.Vm.Region.Lookup.{get_region_for_address_iff, set_protections-same}
use debug_learning.Vm.Region.Framing.{clear_region-frames, lookup-frames, set_protections-frames}
use debug_learning.Vm.Memory.{
  MachVmMemory, Round, Written, max_bytes_left_in_page, read_loop, read, write_region_loop,
  write_region, write_round, write_loop, write, wrote, read_write, destroy, after_round,
}
use debug_learning.Vm.Memory.Chunks.{max_bytes_left_in_page-same}

-- `WriteRegion` left the value `v` of `obs`, if it returned.
abbrev pub Leaves : {W X : Type 0} → (W → X) → X → Option (ℕ × MachVmMemory × W) → Type 0
Leaves obs v none = Unit
Leaves obs v (some (n, m, w)) = obs w ≡ v

module _ {W X : Type 0} (k : VmCalls W) (obs : W → X) (task : ℕ)
    (host_same : (w : W) → obs (k.host_page_size w).2 ≡ obs w)
    (task_same : (w : W) → obs (k.task_vm_page_size task w).2 ≡ obs w)
    (write_same : (a : ℕ) (bytes : List ℕ) (w : W) → obs (k.mach_vm_write task a bytes w).1 ≡ obs w)
    (flush_same : (a n : ℕ) (w : W) → obs (k.vm_machine_attribute task a n w).1 ≡ obs w) where
  write_region_loop-Leaves :
      (fuel count total a : ℕ) (bytes : List ℕ) (m : MachVmMemory) (v : X) (w : W)
      → obs w ≡ v
      → Leaves obs v (write_region_loop k fuel task count total a bytes m w)
  unfolding write_region_loop
  write_region_loop-Leaves zero count total a bytes m v w same = tt
  write_region_loop-Leaves (suc fuel) count total a bytes m v w same =
      let (left, m1, w1) = max_bytes_left_in_page k task a (count - total) m w in
      let (kr1, w2) = k.mach_vm_write task a (take (u32 left) bytes) w1 in
      let (kr2, w3) = k.vm_machine_attribute task a (u32 left) w2 in
      let still : obs w3 ≡ v =
        flush_same a (u32 left) w2
        ∙ write_same a (take (u32 left) bytes) w1
        ∙ max_bytes_left_in_page-same k obs task host_same task_same a (count - total) m w
        ∙ same in
      elim (Bool-cases (ltb total count)) [
        | inr done ↦ rw done same
        | inl go ↦ rw go (elim (Bool-cases (success (assign kr2))) [
          | inr failed ↦ rw failed still
          | inl done ↦ rw done (write_region_loop-Leaves fuel count _ _ _ _ v _ still)
        ])
      ]

  pub write_region-Leaves :
      (a count : ℕ) (bytes : Option (List ℕ)) (m : MachVmMemory) (w : W)
      → Leaves obs (obs w) (write_region k task a bytes count m w)
  unfolding write_region
  write_region-Leaves a count none m w = refl
  write_region-Leaves a count (some bytes) m w = elim (Bool-cases (count == 0)) [
    | inl empty ↦ rw empty refl
    | inr filled ↦ rw filled (write_region_loop-Leaves (count + 1) count 0 a bytes m (obs w) w refl)
  ]

module _ {W X : Type 0} (k : VmCalls W) (obs : W → X) (task : ℕ) where
  -- None of the calls on memory touches `obs`.
  pub record VmFrame : Type 0 where
    pub host_same : (w : W) → obs (k.host_page_size w).2 ≡ obs w
    pub task_same : (w : W) → obs (k.task_vm_page_size task w).2 ≡ obs w
    pub read_same : (a n : ℕ) (w : W) → obs (k.mach_vm_read task a n w).2 ≡ obs w
    pub write_same :
        (a : ℕ) (bytes : List ℕ) (w : W) → obs (k.mach_vm_write task a bytes w).1 ≡ obs w
    pub flush_same : (a n : ℕ) (w : W) → obs (k.vm_machine_attribute task a n w).1 ≡ obs w
    pub protect_same : (x n prot : ℕ) (w : W) → obs (k.mach_vm_protect task x n 0 prot w).1 ≡ obs w
    pub recurse_same :
        (x size depth : ℕ) (info : RegionInfo) (w : W)
        → obs (k.mach_vm_region_recurse task x size depth info w).1 ≡ obs w

  module _ (frame : VmFrame) where
    abbrev pub ReadLeaves : X → Option (ℕ × List ℕ × MachVmMemory × W) → Type 0
    ReadLeaves v none = Unit
    ReadLeaves v (some (n, buf, m, w)) = obs w ≡ v

    read_loop-ReadLeaves :
        (fuel count total a : ℕ) (buf : List ℕ) (m : MachVmMemory) (v : X) (w : W)
        → obs w ≡ v
        → ReadLeaves v (read_loop k fuel task count total a buf m w)
    unfolding read_loop
    read_loop-ReadLeaves zero count total a buf m v w same = tt
    read_loop-ReadLeaves (suc fuel) count total a buf m v w same =
        let (left, m1, w1) = max_bytes_left_in_page k task a (count - total) m w in
        let (kr, bytes, w2) = k.mach_vm_read task a left w1 in
        let still : obs w2 ≡ v =
          frame.read_same a left w1
          ∙ max_bytes_left_in_page-same k obs task frame.host_same frame.task_same a (count - total)
              m w
          ∙ same in
        elim (Bool-cases (ltb total count)) [
          | inr done ↦ rw done same
          | inl go ↦ rw go (elim (Bool-cases (success (assign kr))) [
            | inr failed ↦ rw failed still
            | inl done ↦ rw done (read_loop-ReadLeaves fuel count _ _ _ _ v _ still)
          ])
        ]

    pub read-ReadLeaves :
        (is_null : Bool) (a count : ℕ) (m : MachVmMemory) (w : W)
        → ReadLeaves (obs w) (read k is_null task a count m w)
    unfolding read
    read-ReadLeaves is_null a count m w =
        ground (arith, read_loop-ReadLeaves (count + 1) count 0 a [] m (obs w) w refl)

    -- A round of the loop of `Write`, and the loop, keep the task of the region object too.
    abbrev RoundLeaves : X → Option (Round W) → Type 0
    RoundLeaves v none = Unit
    RoundLeaves v (some q) = (obs q.world ≡ v) × (q.region.task ≡ task)

    wrote-RoundLeaves :
        (v : X) (r : MachVmRegion) (o : Option (ℕ × MachVmMemory × W))
        → r.task ≡ task
        → Leaves obs v o
        → RoundLeaves v (wrote r o)
    wrote-RoundLeaves v r none h same = tt
    wrote-RoundLeaves v r (some (n, m, w)) h same = (same, h)

    write_round-RoundLeaves :
        (a left : ℕ) (bytes : Option (List ℕ)) (m : MachVmMemory) (r : MachVmRegion) (v : X) (w : W)
        → r.task ≡ task
        → obs w ≡ v
        → RoundLeaves v (write_round k task a left bytes m r w)
    unfolding write_round
    write_round-RoundLeaves a left bytes m r v w h same =
        let (found, r1, w1) = get_region_for_address k r a w in
        let room = bytes_remaining r1 a in
        let n = if ltb room left then room else left in
        let (ready, r2, w2) = set_protections k r1 a n read_write w1 in
        let o = write_region k task a bytes n m w2 in
        let looked =
          lookup-frames k obs task frame.protect_same frame.recurse_same r a w h ∙ same in
        let here : r1.task ≡ task = (get_region_for_address_iff k r a w).2 ∙ h in
        let there : r2.task ≡ task = (set_protections-same k r1 a n read_write w1).0 ∙ here in
        let opened =
          set_protections-frames k obs task frame.protect_same frame.recurse_same r1 a n read_write
            w1 here
          ∙ looked in
        elim (Bool-cases found) [
          | inr missing ↦ rw missing (looked, here)
          | inl found_it ↦ rw found_it (elim (Bool-cases (room == 0)) [
            | inl full ↦ rw full (looked, here)
            | inr free ↦ rw free (elim (Bool-cases ready) [
              | inr refused ↦ rw refused (opened, there)
              | inl open_ ↦ rw open_ (
                  wrote-RoundLeaves v r2 o there (
                    subst (λ x. Leaves obs x o) opened
                      (write_region-Leaves k obs task frame.host_same frame.task_same
                        frame.write_same frame.flush_same a n bytes m w2)))
            ])
          ])
        ]

    abbrev LoopLeaves : X → Option (Written W) → Type 0
    LoopLeaves v none = Unit
    LoopLeaves v (some (n, m, r, w)) = (obs w ≡ v) × (r.task ≡ task)

    after-LoopLeaves :
        (next : Round W → Option (Written W)) (total : ℕ) (v : X) (o : Option (Round W))
        → RoundLeaves v o
        → ((q : Round W) → q.region.task ≡ task → obs q.world ≡ v → LoopLeaves v (next q))
        → LoopLeaves v (after_round next total o)
    after-LoopLeaves next total v none h ih = tt
    after-LoopLeaves next total v (some q) h ih = elim (Bool-cases q.more) [
      | inl more ↦ simp more (ih q h.1 h.0)
      | inr over ↦ simp over h
    ]

    write_loop-LoopLeaves :
        (fuel count total a : ℕ) (bytes : Option (List ℕ)) (m : MachVmMemory) (r : MachVmRegion)
        (v : X) (w : W)
        → r.task ≡ task
        → obs w ≡ v
        → LoopLeaves v (write_loop k fuel task count total a bytes m r w)
    unfolding write_loop
    write_loop-LoopLeaves zero count total a bytes m r v w h same = tt
    write_loop-LoopLeaves (suc fuel) count total a bytes m r v w h same =
        elim (Bool-cases (ltb total count)) [
          | inr done ↦ rw done (same, h)
          | inl go ↦ rw go (
              after-LoopLeaves _ total v _
                (write_round-RoundLeaves a (count - total) bytes m r v w h same)
                (λ q here still. write_loop-LoopLeaves fuel count _ _ _ _ _ v _ here still))
        ]

    destroy-Leaves : (v : X) (o : Option (Written W)) → LoopLeaves v o → Leaves obs v (destroy k o)
    unfolding destroy
    destroy-Leaves v none h = tt
    destroy-Leaves v (some (n, m, r, w)) h =
        clear_region-frames k obs task frame.protect_same frame.recurse_same r w h.1 ∙ h.0

    pub write-Leaves :
        (a count : ℕ) (bytes : Option (List ℕ)) (m : MachVmMemory) (w : W)
        → Leaves obs (obs w) (write k task a bytes count m w)
    unfolding write
    write-Leaves a count bytes m w =
        destroy-Leaves (obs w) _ (
          write_loop-LoopLeaves (count + 1) count 0 a bytes m (new_region task) (obs w) w refl refl)
