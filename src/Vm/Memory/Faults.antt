-- ===== src/Vm/Memory/Faults.antt =====
-- Two inputs that WriteRegion of MachVMMemory.cpp does not handle: a write that the kernel rejects,
-- whose result the flush of the cache overwrites, and a count that the cast to 32 bits makes 0.
use debug_learning.Prelude.{
  ℕ, zero, suc, ◌+◌, ◌-◌, ◌%◌, ◌<◌, ◌≤◌, ◌^◌, ◌≡◌, ◌≢◌, refl, true, false, some, none, Option, List,
  take, ltb, arith, u32, Bool-cases, inl, inr, ◌∙◌, ==_iff, ne→==_false, lt→ltb,
}
use debug_learning.DnbError.{success, fail, assign}
use debug_learning.Vm.Calls.{VmCalls}
use debug_learning.Vm.Memory.{
  MachVmMemory, page_size, max_bytes_left_in_page, write_region_loop, write_region,
}
use debug_learning.Vm.Memory.Chunks.{max_bytes_left_in_page_lem, max_bytes_left_in_page-same}

-- A task whose memory the kernel refuses to write, while it flushes the cache.
pub record RejectLaws {W : Type 0} (k : VmCalls W) (mem : W → ℕ → ℕ → ℕ) (t : ℕ) : Type 0 where
  pub rejects : (a : ℕ) (bytes : List ℕ) (w : W) → u32 (k.mach_vm_write t a bytes w).0 ≢ 0
  pub write_keeps :
      (a x : ℕ) (bytes : List ℕ) (w : W) → mem (k.mach_vm_write t a bytes w).1 t x ≡ mem w t x
  pub flushes : (a n : ℕ) (w : W) → u32 (k.vm_machine_attribute t a n w).0 ≡ 0
  pub flush_keeps : (a n x : ℕ) (w : W) → mem (k.vm_machine_attribute t a n w).1 t x ≡ mem w t x
  pub host_keeps : (x : ℕ) (w : W) → mem (k.host_page_size w).2 t x ≡ mem w t x
  pub task_keeps : (x : ℕ) (w : W) → mem (k.task_vm_page_size t w).2 t x ≡ mem w t x

-- All `count` bytes are reported as written and no error is left, and the memory is `orig`.
abbrev pub IsLost :
    {W : Type 0} → (W → ℕ → ℕ → ℕ) → ℕ → ℕ → (ℕ → ℕ) → Option (ℕ × MachVmMemory × W) → Type 0
IsLost mem task count orig none = ⊥
IsLost mem task count orig (some (n, m, w)) =
    (n ≡ count) × (fail m.err ≡ false) × ((x : ℕ) → mem w task x ≡ orig x)

module _ {W : Type 0} {k : VmCalls W} {mem : W → ℕ → ℕ → ℕ} {task : ℕ}
    (laws : RejectLaws k mem task) where
  max_bytes_left_in_page-keeps :
      (a count x : ℕ) (m : MachVmMemory) (w : W)
      → mem (max_bytes_left_in_page k task a count m w).2 task x ≡ mem w task x
  max_bytes_left_in_page-keeps a count x m w =
      max_bytes_left_in_page-same k (λ w. mem w task x) task (λ w. laws.host_keeps x w)
        (λ w. laws.task_keeps x w) a count m w

  write_region_loop-IsLost :
      (count : ℕ) (orig : ℕ → ℕ) (fuel total a : ℕ) (bytes : List ℕ) (m : MachVmMemory) (w : W)
      → count < 2 ^ 32
      → count - total < fuel
      → total ≤ count
      → ((total ≡ count) → fail m.err ≡ false)
      → ((x : ℕ) → mem w task x ≡ orig x)
      → IsLost mem task count orig (write_region_loop k fuel task count total a bytes m w)
  unfolding write_region_loop
  write_region_loop-IsLost count orig zero total a bytes m w hc enough below clean same =
      absurd (omega arith)
  write_region_loop-IsLost count orig (suc fuel) total a bytes m w hc enough below clean same =
      elim (Bool-cases (ltb total count)) [
        | inr done ↦ rw done (ground arith, clean (ground arith), same)
        | inl go ↦
            rw (go, flushed)
              (write_region_loop-IsLost count orig fuel _ _ _ _ _ hc (omega (arith, fact go))
                (omega (arith, fact go)) (λ _. ground (arith, flushed)) still)
      ]
    where
      piece : ℕ × MachVmMemory × W
      piece = max_bytes_left_in_page k task a (count - total) m w

      n : ℕ
      n = u32 piece.0

      written : W
      written = (k.mach_vm_write task a (take n bytes) piece.2).1

      flushed : success (assign (k.vm_machine_attribute task a n written).0) ≡ true
      flushed = ground (arith, laws.flushes a n written)

      still : (x : ℕ) → mem (k.vm_machine_attribute task a n written).1 task x ≡ orig x
      still x =
          laws.flush_keeps a n x written
          ∙ laws.write_keeps a x (take n bytes) piece.2
          ∙ max_bytes_left_in_page-keeps a (count - total) x m w
          ∙ same x

      fact : ltb total count ≡ true → (0 < n) × (total + n ≤ count)
      fact go = ground (arith, max_bytes_left_in_page_lem k task a (count - total) m w)

  -- If the kernel rejects every write and flushes the cache, `WriteRegion` reports that all bytes
  -- were written, keeps no error, and has changed nothing.
  pub write_region-IsLost :
      (a count : ℕ) (bytes : List ℕ) (m : MachVmMemory) (w : W)
      → 0 < count
      → count < 2 ^ 32
      → IsLost mem task count (mem w task) (write_region k task a (some bytes) count m w)
  unfolding write_region
  write_region-IsLost a count bytes m w pos hc = rw (ne→==_false count 0 (omega arith)) (
      write_region_loop-IsLost count (mem w task) (count + 1) 0 a bytes m w hc (omega arith)
        (omega arith) (λ e. absurd (omega arith)) (λ x. refl))

module _ {W : Type 0} (k : VmCalls W)
    (flushes : (t a n : ℕ) (w : W) → u32 (k.vm_machine_attribute t a n w).0 ≡ 0) where
  max_bytes_unknown :
      (task a count : ℕ) (m : MachVmMemory) (w : W)
      → m.page_size ≡ 0
      → ((max_bytes_left_in_page k task a count m w).0 ≡ count)
        × ((max_bytes_left_in_page k task a count m w).1.page_size ≡ 0)
  unfolding max_bytes_left_in_page page_size
  max_bytes_unknown task a count m w h = ground arith

  write_region_loop-none :
      (fuel task total a count : ℕ) (bytes : List ℕ) (m : MachVmMemory) (w : W)
      → m.page_size ≡ 0
      → total ≡ 0
      → 0 < count
      → count % 2 ^ 32 ≡ 0
      → write_region_loop k fuel task count total a bytes m w ≡ none
  unfolding write_region_loop
  write_region_loop-none zero task total a count bytes m w unknown start pos whole = refl
  write_region_loop-none (suc fuel) task total a count bytes m w unknown start pos whole =
      rw (lt→ltb total count (omega arith), flushed)
        (write_region_loop-none fuel task _ _ count _ _ _ known.1
          (omega (arith, known, start, whole)) pos whole)
    where
      piece : ℕ × MachVmMemory × W
      piece = max_bytes_left_in_page k task a (count - total) m w

      known : (piece.0 ≡ count - total) × (piece.1.page_size ≡ 0)
      known = max_bytes_unknown task a (count - total) m w unknown

      flushed :
          success (
            assign
              (k.vm_machine_attribute task a
                (u32 piece.0)
                (k.mach_vm_write task a (take (u32 piece.0) bytes) piece.2).1).0)
          ≡ true
      flushed = (==_iff _ 0).1 (flushes task a (u32 piece.0) _)

  -- If the page size is not known and every flush of the cache succeeds, the loop of
  -- `WriteRegion` over a positive multiple of 2 ^ 32 bytes never ends: no fuel suffices.
  pub write_region_loop_stuck :
      (fuel task a count : ℕ) (bytes : List ℕ) (m : MachVmMemory) (w : W)
      → m.page_size ≡ 0
      → 0 < count
      → count % 2 ^ 32 ≡ 0
      → write_region_loop k fuel task count 0 a bytes m w ≡ none
  write_region_loop_stuck fuel task a count bytes m w unknown pos whole =
      write_region_loop-none fuel task 0 a count bytes m w unknown refl pos whole
