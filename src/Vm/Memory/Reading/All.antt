-- ===== src/Vm/Memory/Reading/All.antt =====
-- Read of MachVMMemory.cpp gets all bytes where no call of `mach_vm_read` fails.
use debug_learning.Prelude.{
  ℕ, zero, suc, ◌+◌, ◌-◌, ◌<◌, ◌≤◌, ◌^◌, ◌≡◌, List, [], ◌++◌, length, arith, u32, add64, Option,
  some, none, false, ap, ◌∙◌,
}
use debug_learning.DnbError.{assign}
use debug_learning.Vm.Calls.{VmCalls}
use debug_learning.Vm.Memory.{MachVmMemory, max_bytes_left_in_page, read_loop, read}
use debug_learning.Vm.Memory.Chunks.{max_bytes_left_in_page_lem}
use debug_learning.Vm.Memory.Reading.{ReadLaws, length-bytes_at}

-- All of the `count` bytes came back.
abbrev pub IsAll : {W : Type 0} → ℕ → Option (ℕ × List ℕ × MachVmMemory × W) → Type 0
IsAll count none = ⊥
IsAll count (some (n, buf, m, w)) = n ≡ count

-- No read of the task fails.
abbrev pub NoneFails : {W : Type 0} → VmCalls W → ℕ → Type 0
NoneFails {W = W} k task = (a n : ℕ) (w : W) → u32 (k.mach_vm_read task a n w).0 ≡ 0

module _ {W : Type 0} {k : VmCalls W} {mem : W → ℕ → ℕ → ℕ} (laws : ReadLaws k mem) (task : ℕ)
    (sure : NoneFails k task) where
  read_loop-IsAll :
      (fuel count total a : ℕ) (buf : List ℕ) (m : MachVmMemory) (w : W)
      → count < 2 ^ 64
      → count - total < fuel
      → total ≤ count
      → IsAll count (read_loop k fuel task count total a buf m w)
  unfolding read_loop
  read_loop-IsAll zero count total a buf m w hc enough below = absurd (omega arith)
  read_loop-IsAll (suc fuel) count total a buf m w hc enough below =
      let (n, m1, w1) = max_bytes_left_in_page k task a (count - total) m w in
      let (kr, bytes, w2) = k.mach_vm_read task a n w1 in
      let size : length bytes ≡ n =
        ap length (laws.returns task a n w1 (sure a n w1)) ∙ length-bytes_at _ a n in
      ground (
        arith,
        size,
        sure a n w1,
        max_bytes_left_in_page_lem k task a (count - total) m w,
        read_loop-IsAll fuel count (add64 total (length bytes)) (add64 a (length bytes))
            (buf ++ bytes) (record m1 { err = assign kr }) w2 hc,
      )

  pub read-IsAll :
      (a count : ℕ) (m : MachVmMemory) (w : W)
      → count < 2 ^ 64
      → IsAll count (read k false task a count m w)
  unfolding read
  read-IsAll a count m w hc = ground (arith, read_loop-IsAll (count + 1) count 0 a [] m w hc)
