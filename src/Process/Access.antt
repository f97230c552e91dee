-- ===== src/Process/Access.antt =====
-- The methods of MachProcess.cpp on the memory and the registers of the process.
pub mod Returning
pub mod Sample
use debug_learning.Prelude.{ℕ, Bool, Option, none, some, List, [], ◌∷◌, ◌++◌}
use debug_learning.Outcome.{Outcome, returned, endless}
use debug_learning.Task
use debug_learning.Task.{MachTask}
use debug_learning.Process.Method.{
  MachProcess, ProcessCalls, Action, pure, ◌>>=◌, ◌>>◌, assert_status, call, gets,
}
use debug_learning.Process.{is_stop, throw_if_fail}

module _ {W : Type 0} (k : ProcessCalls W) where
  -- What `m_task.ReadMemory` and `m_task.WriteMemory` leave.
  abbrev pub after_read :
      MachProcess → W → Option (ℕ × List ℕ × MachTask × W) → Outcome (ℕ × List ℕ) × MachProcess × W
  after_read p w none = (endless, p, w)
  after_read p w (some (n, buf, t, w')) = (returned (n, buf), record p { task = t }, w')

  abbrev pub after_write : MachProcess → W → Option (ℕ × MachTask × W) → Outcome ℕ × MachProcess × W
  after_write p w none = (endless, p, w)
  after_write p w (some (n, t, w')) = (returned n, record p { task = t }, w')

  -- `ReadMemory`
  unfoldable pub read_memory : Bool → ℕ → ℕ → Action W (ℕ × List ℕ)
  read_memory is_null addr size = do
    assert_status is_stop
    λ p w. after_read p w (Task.read_memory k.vm is_null addr size p.task w)

  -- `WriteMemory`
  unfoldable pub write_memory : ℕ → ℕ → Option (List ℕ) → Action W ℕ
  write_memory addr size bytes = do
    assert_status is_stop
    λ p w. after_write p w (Task.write_memory k.vm addr size bytes p.task w)

  -- The loop of `ReadRegister`; `registers` is what has been read.
  unfoldable pub read_each : List ℕ → List (List ℕ) → Action W (List (List ℕ))
  read_each [] registers = pure registers
  read_each (thread ∷ threads) registers = do
    got ←
        call {A = ℕ × List ℕ}
          (λ w. let (kr, gpr, w') = k.thread_get_registers thread w in ((kr, gpr), w'))
    throw_if_fail got.0
    read_each threads (registers ++ (got.1 ∷ []))

  -- `ReadRegister`
  unfoldable pub read_register : Action W (List (List ℕ))
  unfolding read_each
  read_register = do
    task ← gets (λ p. p.task.task)
    got ←
        call {A = ℕ × List ℕ}
          (λ w. let (kr, threads, w') = k.threads.task_threads task w in ((kr, threads), w'))
    throw_if_fail got.0
    read_each got.1 []
