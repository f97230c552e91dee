-- ===== src/Vm/Memory/Chunks.antt =====
-- The size of one piece: MaxBytesLeftInPage and PageSize of MachVMMemory.cpp.
use debug_learning.Prelude.{ℕ, ◌+◌, ◌%◌, ◌<◌, ◌≤◌, ◌≡◌, ◌≢◌, arith}
use debug_learning.Vm.Calls.{VmCalls}
use debug_learning.Vm.Memory.{MachVmMemory, invalid_page_size, page_size, max_bytes_left_in_page}

module _ {W : Type 0} (k : VmCalls W) where
  -- A piece is not empty, not longer than what was asked for, stays inside the page, and is
  -- shorter than what was asked for only where it ends the page. With page size 0, which stands
  -- for a failure, the piece is all that was asked for.
  pub max_bytes_left_in_page_lem :
      (task a count : ℕ) (m : MachVmMemory) (w : W)
      → 0 < count
      → let size = (page_size k task m w).0 in
        let n = (max_bytes_left_in_page k task a count m w).0 in
        (0 < n)
        × (n ≤ count)
        × (0 < size → a % size + n ≤ size)
        × (n < count → a % size + n ≡ size)
        × (size ≡ 0 → n ≡ count)
  unfolding max_bytes_left_in_page
  max_bytes_left_in_page_lem task a count m w h = ground arith

  -- Once the page size is known, or known to be unknown, asking again makes no call.
  pub page_size_again :
      (task : ℕ) (m : MachVmMemory) (w : W)
      → let (size, m', w') = page_size k task m w in
        size ≢ invalid_page_size → (m'.page_size ≡ size) × (page_size k task m' w' ≡ (size, m', w'))
  unfolding page_size
  page_size_again task m w = ground arith

-- What no question for the page size changes, `MaxBytesLeftInPage` does not change.
module _ {W X : Type 0} (k : VmCalls W) (obs : W → X) (task : ℕ)
    (host_same : (w : W) → obs (k.host_page_size w).2 ≡ obs w)
    (task_same : (w : W) → obs (k.task_vm_page_size task w).2 ≡ obs w) where
  pub max_bytes_left_in_page-same :
      (a count : ℕ) (m : MachVmMemory) (w : W)
      → obs (max_bytes_left_in_page k task a count m w).2 ≡ obs w
  unfolding max_bytes_left_in_page page_size
  max_bytes_left_in_page-same a count m w =
      ground (arith, host_same w, task_same w, host_same (k.task_vm_page_size task w).2)
