-- ===== src/Process/Following.antt =====
-- The state machine of MachProcess.cpp: the order in which its methods may be called, and that
-- they keep to it.
use Prim.{Unit, tt}
use debug_learning.Prelude.{ℕ, ◌≡◌, ◌≢◌, refl, Bool, Option, none, some, List, [], ◌∷◌, ◌++◌, arith}
use debug_learning.Outcome.{Outcome, aborted}
use debug_learning.Exception.Message.{Message, reply}
use debug_learning.Process.Method.{
  MachProcess, Status, detach, running, stop, ProcessCalls, Action, pure, ◌>>=◌, ◌>>◌, modify,
  Returned,
}
use debug_learning.Task.{task_port_changed}
use debug_learning.Process
use debug_learning.Process.Access
use debug_learning.Process.{
  attach, signal, single_step, reply_each, reply_to_all_exceptions, exception_message_received,
  deliver, spin,
}
use debug_learning.Process.Access.{read_register}

-- A call of a method, with its arguments and what arrives while it waits.
pub data Command : Type 0 where
  attach_to : (pid : ℕ) (ignored : List ℕ) → Command
  detach_from : Command
  resume_it : Command
  stop_it : Command
  step : (arriving : List Message) → Command
  read_at : (is_null : Bool) (addr size : ℕ) → Command
  write_at : (addr size : ℕ) (bytes : Option (List ℕ)) → Command
  read_registers : Command
  -- what the exception thread does between two calls: `TaskPortChanged`, and
  -- `ExceptionMessageReceived`
  change_port : (task : ℕ) → Command
  receive : (m : Message) → Command

-- The protocol: the status after the call, or none where the call is not allowed.
abbrev pub follows : Command → Status → Option Status
follows (attach_to pid ignored) detach = some stop
follows (attach_to pid ignored) s = none
follows detach_from detach = none
follows detach_from s = some detach
follows resume_it stop = some running
follows resume_it s = none
follows stop_it running = some stop
follows stop_it s = none
follows (step arriving) stop = some stop
follows (step arriving) s = none
follows (read_at is_null addr size) stop = some stop
follows (read_at is_null addr size) s = none
follows (write_at addr size bytes) stop = some stop
follows (write_at addr size bytes) s = none
follows read_registers s = some s
follows (change_port task) s = some s
follows (receive m) s = some s

module _ {W : Type 0} (k : ProcessCalls W) where
  -- A method of which the result is dropped.
  abbrev pub void : {A : Type 0} → Action W A → Action W Unit
  void m = m >>= λ _. pure tt

  abbrev pub run : Command → Action W Unit
  run (attach_to pid ignored) = attach k pid ignored
  run detach_from = Process.detach k
  run resume_it = Process.resume k
  run stop_it = Process.stop k
  run (step arriving) = single_step k arriving
  run (read_at is_null addr size) = void (Access.read_memory k is_null addr size)
  run (write_at addr size bytes) = void (Access.write_memory k addr size bytes)
  run read_registers = void (read_register k)
  run (change_port task) = modify (λ p. record p { task = task_port_changed task p.task })
  run (receive m) = deliver k m

  abbrev pub run_all : List Command → Action W Unit
  run_all [] = pure tt
  run_all (c ∷ cs) = run c >> run_all cs

-- The method returned with the status `s`, or did not return.
abbrev pub Keeps : {W A : Type 0} → Status → Outcome A × MachProcess × W → Type 0
Keeps s = Returned (λ p. p.status ≡ s)

module _ {W : Type 0} (k : ProcessCalls W) where
  signal-Keeps : (n : ℕ) (p : MachProcess) (w : W) → Keeps p.status (signal k n p w)
  unfolding signal
  signal-Keeps n p w = ground arith

  stop-Keeps : (p : MachProcess) (w : W) → p.status ≡ running → Keeps stop (Process.stop k p w)
  unfolding Process.stop
  stop-Keeps p w h = ground arith

  attach-Keeps :
      (pid : ℕ) (ignored : List ℕ) (p : MachProcess) (w : W)
      → p.status ≡ detach
      → Keeps stop (attach k pid ignored p w)
  unfolding attach
  attach-Keeps pid ignored p w h = ground arith

  detach-Keeps : (p : MachProcess) (w : W) → p.status ≢ detach → Keeps detach (Process.detach k p w)
  unfolding Process.detach
  detach-Keeps p w h = ground arith

  reply_each-Keeps :
      (ms : List Message) (p : MachProcess) (w : W) → Keeps p.status (reply_each k ms p w)
  unfolding reply_each
  reply_each-Keeps [] p w = refl
  reply_each-Keeps (m ∷ ms) p w =
      ground (arith, reply_each-Keeps ms p (reply k.messages p.task.task p.pid 0 m w).1)

  -- `reply_each` leaves the object as it is.
  pub reply_each-same : (ms : List Message) (p : MachProcess) (w : W) → (reply_each k ms p w).1 ≡ p
  unfolding reply_each
  reply_each-same [] p w = refl
  reply_each-same (m ∷ ms) p w =
      ground (arith, reply_each-same ms p (reply k.messages p.task.task p.pid 0 m w).1)

  resume-Keeps : (p : MachProcess) (w : W) → p.status ≡ stop → Keeps running (Process.resume k p w)
  unfolding Process.resume
  resume-Keeps p w h = ground (arith, reply_each-same p.exception_messages p w)

  received-Keeps :
      (m : Message) (p : MachProcess) (w : W) → Keeps p.status (exception_message_received k m p w)
  unfolding exception_message_received
  received-Keeps m p w = ground arith

  deliver-Keeps : (m : Message) (p : MachProcess) (w : W) → Keeps p.status (deliver k m p w)
  unfolding deliver
  deliver-Keeps m p w = ground arith

  spin-Keeps : (ms : List Message) (p : MachProcess) (w : W) → Keeps p.status (spin k ms p w)
  unfolding spin
  spin-Keeps [] p w = ground arith
  spin-Keeps (m ∷ ms) p w =
      let (o, p', w') = deliver k m p w in ground (arith, deliver-Keeps m p w, spin-Keeps ms p' w')

  single_step-Keeps :
      (ms : List Message) (p : MachProcess) (w : W)
      → p.status ≡ stop
      → Keeps stop (single_step k ms p w)
  unfolding single_step
  single_step-Keeps ms p w h = ground arith

  read_each-Keeps :
      (ts : List ℕ) (rs : List (List ℕ)) (p : MachProcess) (w : W)
      → Keeps p.status (Access.read_each k ts rs p w)
  unfolding Access.read_each
  read_each-Keeps [] rs p w = refl
  read_each-Keeps (t ∷ ts) rs p w =
      let (kr, gpr, w') = k.thread_get_registers t w in
      ground (arith, read_each-Keeps ts (rs ++ (gpr ∷ [])) p w')

  read_register-Keeps : (p : MachProcess) (w : W) → Keeps p.status (read_register k p w)
  unfolding read_register
  read_register-Keeps p w =
      let (kr, ts, w') = k.threads.task_threads p.task.task w in
      ground (arith, read_each-Keeps ts [] p w')

  read_memory-Keeps :
      (is_null : Bool) (addr size : ℕ) (p : MachProcess) (w : W)
      → p.status ≡ stop
      → Keeps stop (Access.read_memory k is_null addr size p w)
  unfolding Access.read_memory
  read_memory-Keeps is_null addr size p w h = ground arith

  write_memory-Keeps :
      (addr size : ℕ) (bytes : Option (List ℕ)) (p : MachProcess) (w : W)
      → p.status ≡ stop
      → Keeps stop (Access.write_memory k addr size bytes p w)
  unfolding Access.write_memory
  write_memory-Keeps addr size bytes p w h = ground arith

-- How a call ends that the protocol allows with the status `s` after it, and one that it does not
-- allow: this fails the assert, and changes nothing.
abbrev pub Follows :
    {W : Type 0} → Option Status → MachProcess → W → Outcome Unit × MachProcess × W → Type 0
Follows none p w r = r ≡ (aborted, p, w)
Follows (some s) p w r = Keeps s r

module _ {W : Type 0} (k : ProcessCalls W) where
  -- A call that the protocol does not allow fails an assert before it changes anything; a call that
  -- it allows, if it returns, leaves the status that the protocol says.
  pub run-Follows :
      (c : Command) (p : MachProcess) (w : W) → Follows (follows c p.status) p w (run k c p w)
  unfolding attach Process.detach Process.resume Process.stop single_step Access.read_memory
      Access.write_memory
  run-Follows (attach_to pid ignored) p w = ground (arith, attach-Keeps k pid ignored p w)
  run-Follows detach_from p w = ground (arith, detach-Keeps k p w)
  run-Follows resume_it p w = ground (arith, resume-Keeps k p w)
  run-Follows stop_it p w = ground (arith, stop-Keeps k p w)
  run-Follows (step arriving) p w = ground (arith, single_step-Keeps k arriving p w)
  run-Follows (read_at is_null addr size) p w =
      ground (arith, read_memory-Keeps k is_null addr size p w)
  run-Follows (write_at addr size bytes) p w =
      ground (arith, write_memory-Keeps k addr size bytes p w)
  run-Follows read_registers p w = ground (arith, read_register-Keeps k p w)
  run-Follows (change_port task) p w = refl
  run-Follows (receive m) p w = deliver-Keeps k m p w
