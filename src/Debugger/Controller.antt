-- ===== src/Debugger/Controller.antt =====
-- The class DebuggerController of mac_ptrace/main.cpp, with what it prints to the log.
--
-- The controller's process is there from `attach` on, the first call of `main`, so the object is the
-- argument of each method. The number format of `std::ostream` and `arm_thread_state64_get_pc` are
-- parameters.
use Prim.{Unit, tt}
use Prim.Native.String.{String}
use debug_learning.Prelude.{
  Text, codes, ℕ, ◌-◌, ◌^◌, List, [], ◌∷◌, ◌++◌, Option, false, length, replicate, map,
}
use debug_learning.Exception.Message.{Message}
use debug_learning.Vm.Memory.{new_memory}
use debug_learning.Task.{MachTask}
use debug_learning.Process
use debug_learning.Process.Access
use debug_learning.Process.{new_process}
use debug_learning.Process.Method.{ProcessCalls, Action, pure, call, modify, ◌>>=◌, ◌>>◌}
use debug_learning.Logger.{log_iteratorable}
use debug_learning.Logger.Output.{StreamCalls, new_logger, log_info, log_debug}

-- What the program runs on: the system, the stream of the log, and functions of the C and C++
-- libraries and of the headers of the machine.
pub record Host (W : Type 0) : Type 0 where
  pub calls : ProcessCalls W
  pub out : StreamCalls W
  pub show : ℕ → Text
  pub get_pc : List ℕ → ℕ
  pub atoi : String → ℕ

-- `MachTask(process)`, where `memset` clears the saved ports
abbrev pub new_task : MachTask
new_task = record {
  task = 0;
  exc_port_info = record {
    mask = 0;
    entries = λ i. record { mask = 0; port = 0; behavior = 0; flavor = 0 };
    count = 0;
  };
  exception_port = 0;
  exception_thread = 0;
  vm_memory = new_memory;
}

-- `EXC_MASK_BAD_ACCESS`, `EXC_MASK_BAD_INSTRUCTION`, `EXC_MASK_ARITHMETIC`
abbrev pub ignores : List ℕ
ignores = 2 ^ 1 ∷ 2 ^ 2 ∷ 2 ^ 3 ∷ []

module _ {W : Type 0} (host : Host W) where
  -- `Logger::logInfo` and `Logger::logDebug`, to the console
  abbrev pub info : List Text → Action W Unit
  info args = call (λ w. (tt, log_info host.out args new_logger w))

  abbrev pub debug : List Text → Action W Unit
  debug args = call (λ w. (tt, log_debug host.out args new_logger w))

  -- `operator<<` of a vector of numbers
  abbrev pub show_all : List ℕ → Text
  show_all ns = log_iteratorable (map host.show ns)

  unfoldable pub attach : ℕ → Action W Unit
  attach pid = do
    modify (λ p. new_process new_task)
    Process.attach host.calls pid ignores
    info (codes "attach process pid" ∷ host.show pid ∷ [])

  unfoldable pub detach : ℕ → Action W Unit
  detach pid = do Process.detach host.calls; info (codes "detach process pid" ∷ host.show pid ∷ [])

  unfoldable pub resume : ℕ → Action W Unit
  resume pid = do Process.resume host.calls; info (codes "resume process pid" ∷ host.show pid ∷ [])

  unfoldable pub stop : ℕ → Action W Unit
  stop pid = do Process.stop host.calls; info (codes "stop process pid" ∷ host.show pid ∷ [])

  -- with what arrives in the single step
  unfoldable pub single_step : ℕ → List Message → Action W Unit
  single_step pid arriving = do
    Process.single_step host.calls arriving
    info (codes "single step pid" ∷ host.show pid ∷ [])

  -- into a vector of zeros
  unfoldable pub read_memory : ℕ → ℕ → Action W (List ℕ)
  read_memory a size = do
    got ← Access.read_memory host.calls false a size
    pure (got.1 ++ replicate (size - length got.1) 0)

  unfoldable pub write_memory : ℕ → Option (List ℕ) → ℕ → Action W Unit
  write_memory a bytes size = do n ← Access.write_memory host.calls a size bytes; pure tt

  unfoldable pub read_pc : Action W (List ℕ)
  read_pc = do regs ← Access.read_register host.calls; pure (map host.get_pc regs)
