-- ===== src/Debugger.antt =====
-- mac_ptrace/main.cpp: `main`, a script over DebuggerController.
--
-- While the program sleeps, the exception thread delivers the messages of a list.
pub mod Controller
pub mod Working
pub mod Script
pub mod Patching
mod Tests
use Prim.{Unit, tt}
use Prim.Native.String.{String}
use debug_learning.Prelude.{codes, ℕ, zero, suc, List, [], ◌∷◌, some, ◌==◌, drop, if◌then◌else◌}
use debug_learning.Outcome.{Outcome, aborted}
use debug_learning.Exception.Message.{Message}
use debug_learning.Process.{new_process}
use debug_learning.Process.Method.{MachProcess, Action, pure, ◌>>=◌, ◌>>◌}
use debug_learning.Process.Monitor.Bundling.{deliver_all}
use debug_learning.Debugger.Controller
use debug_learning.Debugger.Controller.{Host, new_task, info, debug, show_all, read_pc}

-- `ADDR`
abbrev pub addr : ℕ
addr = 0x104910000

-- What the exception thread delivers: in the pause after `attach`, in the two pauses of a round,
-- and in a single step.
pub record Arrivals : Type 0 where
  pub attaching : List Message
  pub running : ℕ → List Message
  pub stopped : ℕ → List Message
  pub stepping : ℕ → List Message

module _ {W : Type 0} (host : Host W) where
  -- the first loop of `main`, with `n` rounds left
  unfoldable pub run_and_stop : ℕ → ℕ → Arrivals → Action W Unit
  run_and_stop zero pid arrivals = pure tt
  run_and_stop (suc n) pid arrivals = do
    Controller.resume host pid
    deliver_all host.calls (arrivals.running n)
    Controller.stop host pid
    deliver_all host.calls (arrivals.stopped n)
    run_and_stop n pid arrivals

  -- the second loop of `main`
  unfoldable pub step_and_show : ℕ → ℕ → Arrivals → Action W Unit
  step_and_show zero pid arrivals = pure tt
  step_and_show (suc n) pid arrivals = do
    Controller.single_step host pid (arrivals.stepping n)
    pcs ← read_pc host
    info host (codes "pc register:" ∷ show_all host pcs ∷ [])
    step_and_show n pid arrivals

  -- the part of `main` that reads the code at `ADDR` and puts two zeros there; `data.size()` is the
  -- size that the vector was made with
  unfoldable pub patch : Action W Unit
  patch = do
    bytes ← Controller.read_memory host addr 12
    debug host (show_all host bytes ∷ [])
    Controller.write_memory host addr (some (0 ∷ 0 ∷ drop 2 bytes)) 12

  -- `main` behind the test of `argc`
  unfoldable pub script : ℕ → Arrivals → Action W Unit
  script pid arrivals = do
    Controller.attach host pid
    deliver_all host.calls arrivals.attaching
    patch
    run_and_stop 3 pid arrivals
    step_and_show 100 pid arrivals
    Controller.resume host pid
    Controller.detach host pid

  -- `main`
  unfoldable pub main : Arrivals → ℕ → String → W → Outcome Unit × MachProcess × W
  main arrivals argc arg w =
      let p = new_process new_task in
      if argc == 2 then script (host.atoi arg) arrivals p w else (aborted, p, w)
