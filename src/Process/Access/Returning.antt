-- ===== src/Process/Access/Returning.antt =====
-- `WriteMemory` and then `ReadMemory` of MachProcess.cpp.
mod Tests
use debug_learning.Prelude.{
  ℕ, ◌+◌, ◌<◌, ◌^◌, ◌≡◌, ◌≢◌, refl, List, length, arith, Option, some, none, false, true, ap, ◌/=◌,
}
use debug_learning.Sdk.{task_null}
use debug_learning.Outcome.{Outcome, returned, thrown, aborted, endless}
use debug_learning.Task
use debug_learning.Vm.Memory.{MachVmMemory, read, write}
use debug_learning.Vm.Memory.Reading.{ReadLaws}
use debug_learning.Vm.Memory.Reading.All.{NoneFails}
use debug_learning.Vm.Memory.Writing.{WriteLaws}
use debug_learning.Vm.Memory.Mapped.{MappedLaws}
use debug_learning.Vm.Memory.Returning.{IsBack, CanRead, read-write}
use debug_learning.Process.{is_stop}
use debug_learning.Process.Access
use debug_learning.Process.Access.{after_read, after_write}
use debug_learning.Process.Method.{MachProcess, stop, ProcessCalls, Action, proceed, ◌>>=◌}

-- The read returned the bytes, and the process is stopped still.
abbrev pub IsReadBack : {W : Type 0} → List ℕ → Outcome (ℕ × List ℕ) × MachProcess × W → Type 0
IsReadBack bytes (o, p, w) = (o ≡ returned (length bytes, bytes)) × (p.status ≡ stop)

module _ {W : Type 0} (k : ProcessCalls W) where
  back-IsReadBack :
      (bytes : List ℕ) (p : MachProcess) (w : W) (o : Option (ℕ × List ℕ × MachVmMemory × W))
      → p.status ≡ stop
      → IsBack bytes o
      → IsReadBack bytes (
          after_read k p w (elim o [
            | none ↦ none
            | some (n, buf, m, w') ↦ some (n, buf, record p.task { vm_memory = m }, w')
          ]))
  back-IsReadBack bytes p w none stopped h = elim h [ ]
  back-IsReadBack bytes p w (some (n, buf, m, w')) stopped h = (rw (h.0, h.1) refl, stopped)

  written-IsReadBack :
      (a : ℕ) (bytes : List ℕ) (p : MachProcess) (w : W) (o : Option (ℕ × MachVmMemory × W))
      → p.status ≡ stop
      → p.task.task ≢ 0
      → CanRead k.vm p.task.task a bytes o
      → let (out, q, w1) = after_write k p w (elim o [
        | none ↦ none
        | some (n, m, w') ↦ some (n, record p.task { vm_memory = m }, w')
      ]) in
        IsReadBack bytes (proceed (λ n. Access.read_memory k false a (length bytes)) out q w1)
  unfolding Access.read_memory Task.read_memory
  written-IsReadBack a bytes p w none stopped valid h = elim h [ ]
  written-IsReadBack a bytes p w (some (n, m, w')) stopped valid h =
      let there : (p.task.task /= 0) ≡ true = ground arith in
      let may : is_stop p.status ≡ true = ap is_stop stopped in
      rw (may, there)
        (back-IsReadBack bytes (record p { task = record p.task { vm_memory = m } }) w' _ stopped h)

  -- Over a kernel that maps the range, accepts the calls for it and fails no read of it: in a stopped process that has a task, `ReadMemory` behind `WriteMemory` of at least
  -- one and fewer than 2 ^ 32 bytes returns these bytes, and their number.
  pub read_memory-write_memory :
      (mem : W → ℕ → ℕ → ℕ) (a : ℕ) (bytes : List ℕ) (p : MachProcess) (w : W)
      → MappedLaws k.vm mem p.task.task a (length bytes)
      → ReadLaws k.vm mem
      → WriteLaws k.vm mem
      → NoneFails k.vm p.task.task
      → 0 < length bytes
      → a + length bytes < 2 ^ 64
      → length bytes < 2 ^ 32
      → p.status ≡ stop
      → p.task.task ≢ 0
      → IsReadBack bytes (
          (do
            n ← Access.write_memory k a (length bytes) (some bytes)
            Access.read_memory k false a (length bytes))
            p w)
  unfolding Access.write_memory Task.write_memory
  read_memory-write_memory mem a bytes p w maps reads writes sure some_bytes end_ few stopped
        valid =
      let there : (p.task.task /= 0) ≡ true = ground arith in
      let may : is_stop p.status ≡ true = ap is_stop stopped in
      rw (may, there)
        (written-IsReadBack a bytes p w _ stopped valid
          (read-write bytes maps reads writes sure some_bytes end_ few p.task.vm_memory w))
