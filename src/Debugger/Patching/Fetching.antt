-- ===== src/Debugger/Patching/Fetching.antt =====
-- `read_memory` of DebuggerController (mac_ptrace/main.cpp) gets the bytes of the process, as far as
-- they can be read.
use debug_learning.Debugger.Patching.Vector.{vector}
use debug_learning.Prelude.{
  ℕ, ◌-◌, ◌<◌, ◌≤◌, ◌^◌, ◌≡◌, ◌≢◌, refl, List, ◌++◌, true, Option, some, none, length, replicate,
  arith, ◌/=◌, ap,
}
use debug_learning.Outcome.{Outcome, returned, thrown, aborted, endless}
use debug_learning.Task
use debug_learning.Task.{MachTask}
use debug_learning.Vm.Memory.{MachVmMemory}
use debug_learning.Vm.Memory.Reading.{ReadLaws, IsRead, length-bytes_at, read-IsRead}
use debug_learning.Vm.Memory.Reading.All.{IsAll, NoneFails, read-IsAll}
use debug_learning.Process.{is_stop}
use debug_learning.Process.Access
use debug_learning.Process.Access.{after_read, after_write}
use debug_learning.Process.Method.{MachProcess, stop, proceed, pure}
use debug_learning.Debugger.Controller
use debug_learning.Debugger.Controller.{Host, debug, show_all}

-- `read_memory` of the controller returned the vector; `n` bytes of it were read, all where no read
-- fails. The memory is `orig`.
abbrev pub HasRead :
    {W : Type 0}
    → (W → ℕ → ℕ → ℕ)
    → ℕ
    → ℕ
    → ℕ
    → (ℕ → ℕ)
    → Type 0
    → Outcome (List ℕ) × MachProcess × W
    → Type 0
HasRead mem task a size orig sure (returned bytes, p, w) =
    (n : ℕ) × (n ≤ size)
    × (sure → n ≡ size)
    × (bytes ≡ vector orig a n size)
    × (p.status ≡ stop)
    × (p.task.task ≡ task)
    × ((x : ℕ) → mem w task x ≡ orig x)
HasRead mem task a size orig sure (thrown c, p, w) = ⊥
HasRead mem task a size orig sure (aborted, p, w) = ⊥
HasRead mem task a size orig sure (endless, p, w) = ⊥

module _ {W : Type 0} (host : Host W) (mem : W → ℕ → ℕ → ℕ)
    (reads : ReadLaws host.calls.vm mem) where
  got-HasRead :
      (a size : ℕ) (orig : ℕ → ℕ) (p : MachProcess) (w : W)
      (o : Option (ℕ × List ℕ × MachVmMemory × W))
      → p.status ≡ stop
      → IsRead mem p.task.task a size orig o
      → (NoneFails host.calls.vm p.task.task → IsAll size o)
      → let (out, q, w') = after_read host.calls p w (elim o [
        | none ↦ none
        | some (n, buf, m, w') ↦ some (n, buf, record p.task { vm_memory = m }, w')
      ]) in
        HasRead mem p.task.task a size orig
          (NoneFails host.calls.vm p.task.task)
          (proceed (λ got. pure (got.1 ++ replicate (size - length got.1) 0)) out q w')
  got-HasRead a size orig p w none stopped h all = h
  got-HasRead a size orig p w (some (n, buf, m, w')) stopped h all =
      (n, h.0, all, rw (h.1, length-bytes_at orig a n) refl, stopped, refl, h.3)

  pub controller_read-HasRead :
      (a size : ℕ) (p : MachProcess) (w : W)
      → a < 2 ^ 64
      → 0 < size
      → size < 2 ^ 64
      → p.status ≡ stop
      → p.task.task ≢ 0
      → HasRead mem p.task.task a size
          (mem w p.task.task)
          (NoneFails host.calls.vm p.task.task)
          (Controller.read_memory host a size p w)
  unfolding Controller.read_memory Access.read_memory Task.read_memory
  controller_read-HasRead a size p w ha pos hs stopped valid =
      let there : (p.task.task /= 0) ≡ true = ground arith in
      let may : is_stop p.status ≡ true = ap is_stop stopped in
      rw (may, there)
        (got-HasRead a size _ p w _ stopped
          (read-IsRead reads p.task.task a size p.task.vm_memory w ha pos hs)
          (λ sure. read-IsAll reads p.task.task sure a size p.task.vm_memory w hs))
