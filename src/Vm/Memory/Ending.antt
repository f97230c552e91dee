-- ===== src/Vm/Memory/Ending.antt =====
-- The loops of WriteRegion and Write of MachVMMemory.cpp end, whatever the kernel answers, if
-- fewer than 2 ^ 32 bytes are written.
use debug_learning.Prelude.{
  ℕ, zero, suc, ◌+◌, ◌-◌, ◌<◌, ◌≤◌, ◌^◌, ◌≡◌, true, some, none, Option, List, take, ltb, arith,
  ◌==◌, if◌then◌else◌, u32, Bool-cases, inl, inr,
}
use debug_learning.DnbError.{success, assign}
use debug_learning.Vm.Calls.{VmCalls}
use debug_learning.Vm.Region.{
  MachVmRegion, bytes_remaining, get_region_for_address, set_protections, new_region,
}
use debug_learning.Vm.Memory.{
  MachVmMemory, Round, max_bytes_left_in_page, write_region_loop, write_region, write_round,
  write_loop, write, destroy, read_write, Written, after_round,
}
use debug_learning.Vm.Memory.Chunks.{max_bytes_left_in_page_lem}

-- A result, with at most `count` bytes.
abbrev pub Ends : {W : Type 0} → ℕ → Option (ℕ × MachVmMemory × W) → Type 0
Ends count none = ⊥
Ends count (some (n, _, _)) = n ≤ count

module _ {W : Type 0} (k : VmCalls W) where
  write_region_loop-Ends :
      (fuel task count total a : ℕ) (bytes : List ℕ) (m : MachVmMemory) (w : W)
      → count < 2 ^ 32
      → count - total < fuel
      → total ≤ count
      → Ends count (write_region_loop k fuel task count total a bytes m w)
  unfolding write_region_loop
  write_region_loop-Ends zero task count total a bytes m w hc enough below = absurd (omega arith)
  write_region_loop-Ends (suc fuel) task count total a bytes m w hc enough below =
      elim (Bool-cases (ltb total count)) [
        | inr done ↦ rw done below
        | inl go ↦ rw go (elim (Bool-cases (success (assign flushed))) [
          | inr failed ↦ rw failed below
          | inl done ↦ rw done (
              write_region_loop-Ends fuel task count _ _ _ _ _ hc (omega (arith, fact go))
                (omega (arith, fact go)))
        ])
      ]
    where
      piece : ℕ × MachVmMemory × W
      piece = max_bytes_left_in_page k task a (count - total) m w

      n : ℕ
      n = u32 piece.0

      flushed : ℕ
      flushed =
          (k.vm_machine_attribute task a n (k.mach_vm_write task a (take n bytes) piece.2).1).0

      fact : ltb total count ≡ true → (0 < n) × (total + n ≤ count)
      fact go = ground (arith, max_bytes_left_in_page_lem k task a (count - total) m w)

  pub write_region-Ends :
      (task a count : ℕ) (bytes : Option (List ℕ)) (m : MachVmMemory) (w : W)
      → count < 2 ^ 32
      → Ends count (write_region k task a bytes count m w)
  unfolding write_region
  write_region-Ends task a count none m w hc = omega arith
  write_region-Ends task a count (some bytes) m w hc = elim (Bool-cases (count == 0)) [
    | inl empty ↦ rw empty (omega arith)
    | inr some_bytes ↦
        rw some_bytes (
          write_region_loop-Ends (count + 1) task count 0 a bytes m w hc (omega arith)
            (omega arith))
  ]

  abbrev IsRound : ℕ → Option (Round W) → Type 0
  IsRound left none = ⊥
  IsRound left (some q) = (q.written ≤ left) × (q.more ≡ true → 0 < q.written)

  -- A round of the loop of `Write` ends, and goes on only if it has written something.
  write_round-IsRound :
      (task a left : ℕ) (bytes : Option (List ℕ)) (m : MachVmMemory) (r : MachVmRegion) (w : W)
      → left < 2 ^ 32
      → IsRound left (write_round k task a left bytes m r w)
  unfolding write_round
  write_round-IsRound task a left bytes m r w hl =
      let found = get_region_for_address k r a w in
      let room = bytes_remaining found.1 a in
      let n = if ltb room left then room else left in
      let ready = set_protections k found.1 a n read_write found.2 in
      ground (arith, write_region-Ends task a n bytes m ready.2)

  abbrev IsLoopEnd : ℕ → Option (Written W) → Type 0
  IsLoopEnd count none = ⊥
  IsLoopEnd count (some (n, _, _, _)) = n ≤ count

  after-IsLoopEnd :
      (next : Round W → Option (Written W)) (total count : ℕ) (o : Option (Round W))
      → total < count
      → IsRound (count - total) o
      → ((q : Round W) → q.written ≤ count - total → 0 < q.written → IsLoopEnd count (next q))
      → IsLoopEnd count (after_round next total o)
  after-IsLoopEnd next total count (some q) below h ih = elim (Bool-cases q.more) [
    | inl more ↦ simp more (ih q h.0 (h.1 more))
    | inr over ↦ simp over (omega arith)
  ]
  after-IsLoopEnd next total count none below h ih = h

  write_loop-IsLoopEnd :
      (fuel task count total a : ℕ) (bytes : Option (List ℕ)) (m : MachVmMemory) (r : MachVmRegion)
      (w : W)
      → count < 2 ^ 32
      → count - total < fuel
      → total ≤ count
      → IsLoopEnd count (write_loop k fuel task count total a bytes m r w)
  unfolding write_loop
  write_loop-IsLoopEnd zero task count total a bytes m r w hc enough below = absurd (omega arith)
  write_loop-IsLoopEnd (suc fuel) task count total a bytes m r w hc enough below =
      elim (Bool-cases (ltb total count)) [
        | inr done ↦ rw done below
        | inl go ↦ rw go (
            after-IsLoopEnd _ total count _ (ground arith)
              (write_round-IsRound task a (count - total) bytes m r w (omega arith))
              (λ q n more.
                write_loop-IsLoopEnd fuel task count _ _ _ _ _ _ hc (omega arith) (omega arith)))
      ]

  -- `Write` of fewer than 2 ^ 32 bytes always ends, and reports at most `count` bytes.
  pub write-Ends :
      (task a count : ℕ) (bytes : Option (List ℕ)) (m : MachVmMemory) (w : W)
      → count < 2 ^ 32
      → Ends count (write k task a bytes count m w)
  unfolding write
  write-Ends task a count bytes m w hc =
      after (write_loop k (count + 1) task count 0 a bytes m (new_region task) w) (
        write_loop-IsLoopEnd (count + 1) task count 0 a bytes m (new_region task) w hc (omega arith)
          (omega arith))
    where
      after : (o : Option (Written W)) → IsLoopEnd count o → Ends count (destroy k o)
      after none h = h
      after (some (n, m', r, w')) h = h
