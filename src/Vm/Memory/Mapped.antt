-- ===== src/Vm/Memory/Mapped.antt =====
-- The calls of Write in MachVMMemory.cpp and MachVMRegion.cpp over a task whose memory is mapped and
-- whose kernel accepts every call.
use debug_learning.Prelude.{
  ℕ, zero, suc, ◌+◌, ◌-◌, ◌<◌, ◌≤◌, ◌^◌, ◌≡◌, true, some, none, Option, List, ltb, arith, u32, u64,
  Bool-cases, inl, inr, take, ne→==_false,
}
use debug_learning.DnbError.{success, assign}
use debug_learning.Vm.Calls.{VmCalls, RegionInfo}
use debug_learning.Vm.Region.{
  MachVmRegion, get_region_for_address, set_protections, clear_region, contains_address, clipped,
  no_info,
}
use debug_learning.Vm.Region.Lookup.{get_region_for_address_iff, get_region_for_address-reply}
use debug_learning.Vm.Region.Framing.{clear_region-frames, lookup-frames, set_protections-frames}
use debug_learning.Vm.Memory.{MachVmMemory, max_bytes_left_in_page, write_region_loop, write_region}
use debug_learning.Vm.Memory.Writing.{Accepts}
use debug_learning.Vm.Memory.Chunks.{max_bytes_left_in_page_lem}

-- Each address from `a` to `a + count` lies in a region that the kernel describes, protections can
-- be changed, and no call on regions or protections touches the memory `mem`.
pub record MappedLaws {W : Type 0} (k : VmCalls W) (mem : W → ℕ → ℕ → ℕ) (task a count : ℕ)
    : Type 0 where
  pub maps :
      (x size depth : ℕ) (info : RegionInfo) (w : W)
      → a ≤ x
      → x < a + count
      → let reply = (k.mach_vm_region_recurse task x size depth info w).0 in
        (u32 reply.kr ≡ 0)
        × (u64 reply.start ≤ x)
        × (x < u64 reply.start + u64 reply.size)
        × (u64 reply.start + u64 reply.size < 2 ^ 64)
  pub protects : (x n prot : ℕ) (w : W) → u32 (k.mach_vm_protect task x n 0 prot w).0 ≡ 0
  pub accepts : Accepts k task
  pub flushes : (x n : ℕ) (w : W) → u32 (k.vm_machine_attribute task x n w).0 ≡ 0
  pub protect_keeps :
      (x n prot y : ℕ) (w : W) → mem (k.mach_vm_protect task x n 0 prot w).1 task y ≡ mem w task y
  pub recurse_keeps :
      (x size depth y : ℕ) (info : RegionInfo) (w : W)
      → mem (k.mach_vm_region_recurse task x size depth info w).1 task y ≡ mem w task y

module _ {W : Type 0} {k : VmCalls W} {mem : W → ℕ → ℕ → ℕ} {task a0 count : ℕ}
    (laws : MappedLaws k mem task a0 count) where
  pub clear_region-keeps :
      (r : MachVmRegion) (w : W) (y : ℕ)
      → r.task ≡ task
      → mem (clear_region k r w).1 task y ≡ mem w task y
  clear_region-keeps r w y h =
      clear_region-frames k (λ w'. mem w' task y) task (λ x n p w'. laws.protect_keeps x n p y w')
        (λ x n d i w'. laws.recurse_keeps x n d y i w') r w h

  pub lookup-keeps :
      (r : MachVmRegion) (x : ℕ) (w : W) (y : ℕ)
      → r.task ≡ task
      → mem (get_region_for_address k r x w).2 task y ≡ mem w task y
  lookup-keeps r x w y h =
      lookup-frames k (λ w'. mem w' task y) task (λ x n p w'. laws.protect_keeps x n p y w')
        (λ x n d i w'. laws.recurse_keeps x n d y i w') r x w h

  pub set_protections-keeps :
      (r : MachVmRegion) (x n prot : ℕ) (w : W) (y : ℕ)
      → r.task ≡ task
      → mem (set_protections k r x n prot w).2 task y ≡ mem w task y
  set_protections-keeps r x n prot w y h =
      set_protections-frames k (λ w'. mem w' task y) task
        (λ x n p w'. laws.protect_keeps x n p y w') (λ x n d i w'. laws.recurse_keeps x n d y i w')
        r x n prot w h

  -- In a region that holds the address, protections can be changed there.
  pub set_protections-ready :
      (r : MachVmRegion) (x n prot : ℕ) (w : W)
      → r.task ≡ task
      → contains_address r x ≡ true
      → 0 < clipped r x n
      → (set_protections k r x n prot w).0 ≡ true
  unfolding set_protections
  set_protections-ready r x n prot w h inside pos =
      ground (arith, laws.protects x (clipped r x n) prot w)

  -- A lookup finds the region that holds the address.
  pub lookup-holds :
      (r : MachVmRegion) (x : ℕ) (w : W)
      → r.task ≡ task
      → a0 ≤ x
      → x < a0 + count
      → let (found, r1, w1) = get_region_for_address k r x w in
        (found ≡ true)
        × (r1.task ≡ task)
        × (contains_address r1 x ≡ true)
        × (x < r1.start + r1.size)
        × (r1.start + r1.size < 2 ^ 64)
        × (r1.start ≤ x)
  lookup-holds r x w h low high = ground (
    arith,
    get_region_for_address_iff k r x w,
    get_region_for_address-reply k task r x w h,
    laws.maps x 0 1024 no_info (clear_region k r w).1 low high,
  )

  -- All of the bytes were written.
  abbrev pub IsFull : ℕ → Option (ℕ × MachVmMemory × W) → Type 0
  IsFull n none = ⊥
  IsFull n (some (written, _, _)) = written ≡ n

  write_region_loop-IsFull :
      (fuel n total x : ℕ) (bytes : List ℕ) (m : MachVmMemory) (w : W)
      → n < 2 ^ 32
      → n - total < fuel
      → total ≤ n
      → IsFull n (write_region_loop k fuel task n total x bytes m w)
  unfolding write_region_loop
  write_region_loop-IsFull zero n total x bytes m w hn enough below = absurd (omega arith)
  write_region_loop-IsFull (suc fuel) n total x bytes m w hn enough below =
      let (left, m1, w1) = max_bytes_left_in_page k task x (n - total) m w in
      let piece = u32 left in
      let w2 = (k.mach_vm_write task x (take piece bytes) w1).1 in
      let fact : ltb total n ≡ true → (0 < piece) × (total + piece ≤ n) =
        λ go. ground (arith, max_bytes_left_in_page_lem k task x (n - total) m w) in
      let ok : success (assign (k.vm_machine_attribute task x piece w2).0) ≡ true =
        ground (arith, laws.flushes x piece w2) in
      elim (Bool-cases (ltb total n)) [
        | inr done ↦ rw done (ground arith)
        | inl go ↦ rw go (
            rw ok (
              write_region_loop-IsFull fuel n _ _ _ _ _ hn (omega (arith, fact go))
                (omega (arith, fact go))))
      ]

  pub write_region-IsFull :
      (n x : ℕ) (bytes : List ℕ) (m : MachVmMemory) (w : W)
      → 0 < n
      → n < 2 ^ 32
      → IsFull n (write_region k task x (some bytes) n m w)
  unfolding write_region
  write_region-IsFull n x bytes m w pos hn =
      rw (ne→==_false n 0 (omega arith))
        (write_region_loop-IsFull (n + 1) n 0 x bytes m w hn (omega arith) (omega arith))
