-- ===== src/Process/Method.antt =====
-- The object of the class MachProcess (mac_ptrace/lldb/MachProcess.h), the calls that its methods
-- make, and the form of a method: a function of the object and the state of the system, which
-- both come back however the method ends.
use Prim.{Unit, tt}
use debug_learning.Prelude.{ℕ, Bool, List, if◌then◌else◌}
use debug_learning.Outcome.{Outcome, returned, thrown, aborted, endless, Cause}
use debug_learning.Exception.Message.{Message, MessageCalls}
use debug_learning.Exception.Ports.{PortCalls}
use debug_learning.Task.{MachTask, TaskCalls}
use debug_learning.Task.Stepping.{ThreadCalls}
use debug_learning.Vm.Calls.{VmCalls}

-- `enum ProcessStatus`
pub data Status : Type 0 where
  detach running stop : Status

pub record MachProcess : Type 0 where
  pub status : Status
  pub pid : ℕ
  pub task : MachTask
  pub exception_messages : List Message
  pub single_step : Bool

-- The calls of the system. A call that sets `errno` returns its result and `errno`.
pub record ProcessCalls (W : Type 0) : Type 0 where
  pub tasks : TaskCalls W
  pub ports : PortCalls W
  pub threads : ThreadCalls W
  pub vm : VmCalls W
  pub messages : MessageCalls W
  -- `EXC_MASK_ALL` of the headers
  pub exc_mask_all : ℕ
  -- `getpgid(pid)`, the 32-bit pattern of an `int`
  pub getpgid : ℕ → W → ℕ × W
  -- `ptrace(PT_ATTACHEXC, pid, 0, 0)`, `ptrace(PT_DETACH, pid, 1, 0)`, `kill(pid, signal)`
  pub ptrace_attachexc : ℕ → W → (ℕ × ℕ) × W
  pub ptrace_detach : ℕ → W → (ℕ × ℕ) × W
  pub kill : ℕ → ℕ → W → (ℕ × ℕ) × W
  -- `thread_get_state(thread, ARM_THREAD_STATE64, …)`: the result and the words of the state
  pub thread_get_registers : ℕ → W → ℕ × List ℕ × W

abbrev pub Action : Type 0 → Type 0 → Type 0
Action W A = MachProcess → W → Outcome A × MachProcess × W

-- The rest of a method, after a part that ended so.
abbrev pub proceed :
    {W A B : Type 0} → (A → Action W B) → Outcome A → MachProcess → W → Outcome B × MachProcess × W
proceed f (returned a) p w = f a p w
proceed f (thrown c) p w = (thrown c, p, w)
proceed f aborted p w = (aborted, p, w)
proceed f endless p w = (endless, p, w)

infixl 5 ◌>>=◌ ◌>>◌
abbrev pub ◌>>=◌ : {W A B : Type 0} → Action W A → (A → Action W B) → Action W B
◌>>=◌ m f p w = let (o, p', w') = m p w in proceed f o p' w'

abbrev pub ◌>>◌ : {W B : Type 0} → Action W Unit → Action W B → Action W B
m >> f = m >>= λ _. f

-- The result and the task of a method of `m_task`; a method that does not return leaves the object.
abbrev pub kept_task : {A : Type 0} → MachTask → Outcome (A × MachTask) → Outcome A × MachTask
kept_task t (returned (a, t')) = (returned a, t')
kept_task t (thrown c) = (thrown c, t)
kept_task t aborted = (aborted, t)
kept_task t endless = (endless, t)

-- The method returned, with an object for which `P` holds; or it did not return.
abbrev pub Returned : {W A : Type 0} → (MachProcess → Type 0) → Outcome A × MachProcess × W → Type 0
Returned P (returned a, p, w) = P p
Returned P (thrown c, p, w) = Unit
Returned P (aborted, p, w) = Unit
Returned P (endless, p, w) = Unit

module _ {W : Type 0} where
  abbrev pub pure : {A : Type 0} → A → Action W A
  pure a p w = (returned a, p, w)

  -- `assert` of a test of the status
  abbrev pub assert_status : (Status → Bool) → Action W Unit
  assert_status test p w = (if test p.status then returned tt else aborted, p, w)

  -- `if (…) { throw std::runtime_error(…); }`
  abbrev pub throw_if : Bool → Cause → Action W Unit
  throw_if test c p w = (if test then thrown c else returned tt, p, w)

  abbrev pub gets : {A : Type 0} → (MachProcess → A) → Action W A
  gets f p w = (returned (f p), p, w)

  abbrev pub modify : (MachProcess → MachProcess) → Action W Unit
  modify f p w = (returned tt, f p, w)

  -- a call of the system
  abbrev pub call : {A : Type 0} → (W → A × W) → Action W A
  call f p w = let (a, w') = f w in (returned a, p, w')

  -- a method of `m_task` that leaves the object as it is
  abbrev pub on_task : {A : Type 0} → (MachTask → W → Outcome A × W) → Action W A
  on_task f p w = let (o, w') = f p.task w in (o, p, w')

  -- a method of `m_task` that changes it
  abbrev pub with_task : {A : Type 0} → (MachTask → W → Outcome (A × MachTask) × W) → Action W A
  with_task f p w =
      let (o, w') = f p.task w in
      let (o', t) = kept_task p.task o in (o', record p { task = t }, w')
