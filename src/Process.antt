-- ===== src/Process.antt =====
-- The class MachProcess of mac_ptrace/lldb/MachProcess.h and MachProcess.cpp: the process that is
-- debugged, with its state machine and the exception messages that wait for a reply.
--
-- A method is an `Action`. The exception thread runs beside the methods: what it delivers while
-- `SingleStep` waits is an argument of it, in the order of arrival. The methods on memory and
-- registers are in Process/Access.
pub mod Method
pub mod Access
pub mod Following
pub mod Monitor
pub mod Threads
pub mod Suspending
pub mod Attaching
pub mod Racing
pub mod Sample
mod Tests
use Prim.{Unit, tt}
use debug_learning.Prelude.{
  ℕ, ◌^◌, Bool, true, false, not, ◌||◌, Option, none, some, List, [], ◌∷◌, ◌++◌, ◌==◌, ◌/=◌, leb,
  if◌then◌else◌,
}
use debug_learning.Sdk.{sigstop}
use debug_learning.DnbError.{DnbError, clear, assign, fail}
use debug_learning.Outcome.{
  Outcome, returned, thrown, aborted, endless, message, status, errno, prefixed, map_outcome,
}
use debug_learning.Exception.Message.{Message, reply}
use debug_learning.Task
use debug_learning.Task.{MachTask}
use debug_learning.Task.Starting.{start_exception_thread, shut_down_exception_thread}
use debug_learning.Task.Stepping.{enable_single_step, disable_single_step}
use debug_learning.Process.Method.{
  MachProcess, Status, ProcessCalls, Action, pure, ◌>>=◌, ◌>>◌, assert_status, throw_if, call, gets,
  modify, on_task, with_task,
}

-- `MachProcess()`, around a task whose fields are not yet set
abbrev pub new_process : MachTask → MachProcess
new_process task = record {
  status = Status.detach;
  pid = Task.invalid_nub_process;
  task = task;
  exception_messages = [];
  single_step = false;
}

abbrev pub is_detach : Status → Bool
is_detach Status.detach = true
is_detach s = false

abbrev pub is_running : Status → Bool
is_running Status.running = true
is_running s = false

abbrev pub is_stop : Status → Bool
is_stop Status.stop = true
is_stop s = false

abbrev pub is_attached : Status → Bool
is_attached s = is_running s || is_stop s

-- `n < 0` for the pattern of an `int`
abbrev pub is_negative : ℕ → Bool
is_negative n = leb (2 ^ 31) n

module _ {W : Type 0} where
  -- `m_status = …`
  abbrev pub set_status : Status → Action W Unit
  set_status s = modify (λ p. record p { status = s })

  -- `err = …; if (err.Fail()) { throw std::runtime_error(err.AsString()); }`
  abbrev pub throw_if_fail : ℕ → Action W Unit
  throw_if_fail kr = throw_if (fail (assign kr)) (status (assign kr))

  -- `if (0 != …) { throw std::runtime_error(::strerror(errno)); }`
  abbrev pub throw_if_errno : ℕ × ℕ → Action W Unit
  throw_if_errno (ret, n) = throw_if (ret /= 0) (errno n)

  -- The first two statements of `SingleStep`.
  abbrev pub ask_step : Action W Unit
  ask_step = do assert_status is_stop; modify (λ p. record p { single_step = true })

module _ {W : Type 0} (k : ProcessCalls W) where
  -- `m_task.StartExceptionThread(ignored_exceptions, err)`, with a new `err`
  abbrev pub start : List ℕ → Action W (Bool × DnbError)
  start ignored p =
      with_task
        (λ t w.
          let (o, w') =
            start_exception_thread k.tasks k.ports k.exc_mask_all p.pid ignored clear t w in
          (map_outcome (λ (ok, e, t'). ((ok, e), t')) o, w'))
        p

  -- `Attach` up to the start of the exception thread
  unfoldable pub begin_attach : ℕ → List ℕ → Action W Unit
  begin_attach pid ignored = do
    assert_status is_detach
    throw_if (pid == 0) (message "pid == 0")
    pgid ← call (k.getpgid pid)
    throw_if (is_negative pgid) (message "no such process")
    modify (λ p. record p { pid = pid })
    started ← start ignored
    throw_if (not started.0) (prefixed "unable to start the exception thread due to " started.1)

  -- the rest of `Attach`
  unfoldable pub finish_attach : ℕ → Action W Unit
  finish_attach pid = do
    attached ← call (k.ptrace_attachexc pid)
    throw_if_errno attached
    call (λ w. (tt, k.tasks.usleep 250000 w))
    set_status Status.stop

  -- `Attach`
  unfoldable pub attach : ℕ → List ℕ → Action W Unit
  unfolding begin_attach finish_attach
  attach pid ignored = do begin_attach pid ignored; finish_attach pid

  -- `Signal`
  unfoldable pub signal : ℕ → Action W Unit
  signal n p = (do sent ← call (k.kill p.pid n); throw_if_errno sent) p

  -- `Stop`
  unfoldable pub stop : Action W Unit
  unfolding signal
  stop = do assert_status is_running; signal sigstop; set_status Status.stop

  -- `m_task.Resume()`
  abbrev pub resume_task : Action W ℕ
  resume_task p = call (Task.resume k.tasks p.task) p

  -- `if (m_status == ProcessStatus::RUNNING) { Stop(); }`
  unfoldable pub stop_if_running : Action W Unit
  unfolding stop
  stop_if_running p = elim p.status [ Status.running ↦ stop p | _ ↦ pure tt p ]

  -- `Detach`
  unfoldable pub detach : Action W Unit
  unfolding stop_if_running
  detach = do
    assert_status is_attached
    stop_if_running
    closed ← with_task (shut_down_exception_thread k.tasks k.ports k.exc_mask_all)
    throw_if_fail closed
    pid ← gets (λ p. p.pid)
    detached ← call (k.ptrace_detach pid)
    throw_if_errno detached
    set_status Status.detach
    resumed ← resume_task
    throw_if_fail resumed

  -- The loop of `ReplyToAllExceptions`; the status of a reply is not looked at.
  unfoldable pub reply_each : List Message → Action W Unit
  reply_each [] = pure tt
  reply_each (m ∷ ms) = do
    _ ← λ p w. let (o, w') = reply k.messages p.task.task p.pid 0 m w in (o, p, w')
    reply_each ms

  -- `ReplyToAllExceptions`
  unfoldable pub reply_to_all_exceptions : Action W Unit
  unfolding reply_each
  reply_to_all_exceptions = do
    assert_status is_stop
    ms ← gets (λ p. p.exception_messages)
    reply_each ms
    modify (λ p. record p { exception_messages = [] })

  -- `Resume`
  unfoldable pub resume : Action W Unit
  unfolding reply_to_all_exceptions
  resume = do
    assert_status is_stop
    reply_to_all_exceptions
    resumed ← resume_task
    throw_if_fail resumed
    set_status Status.running

  -- the first statement of `ExceptionMessageReceived`; the status of `Suspend` is not looked at
  abbrev pub suspend_if_first : Action W Unit
  suspend_if_first p w = elim p.exception_messages [
    | [] ↦ (let (kr, w') = Task.suspend k.tasks p.task w in (returned tt, p, w'))
    | m ∷ ms ↦ (returned tt, p, w)
  ]

  -- `if (m_single_step) { … }`
  unfoldable pub end_step : Action W Unit
  end_step p =
      if p.single_step
      then (do
        on_task (disable_single_step k.threads)
        modify (λ q. record q { single_step = false }))
          p
      else pure tt p

  -- `ExceptionMessageReceived`
  unfoldable pub exception_message_received : Message → Action W Unit
  unfolding end_step
  exception_message_received m = do
    suspend_if_first
    end_step
    modify (λ p. record p { exception_messages = p.exception_messages ++ (m ∷ []) })

  -- The same on the exception thread, where an exception ends the program.
  unfoldable pub deliver : Message → Action W Unit
  unfolding exception_message_received
  deliver m p w =
      let (o, p', w') = exception_message_received m p w in
      (elim o [ thrown c ↦ aborted | other ↦ other ], p', w')

  -- `while (m_single_step) {}`: the messages are those that arrive while it waits.
  unfoldable pub spin : List Message → Action W Unit
  unfolding deliver
  spin [] p w = (if p.single_step then endless else returned tt, p, w)
  spin (m ∷ ms) p w =
      let more = (do deliver m; spin ms) p w in if p.single_step then more else (returned tt, p, w)

  -- its third statement
  abbrev pub enable_step : Action W Unit
  enable_step = on_task (enable_single_step k.threads)

  -- `SingleStep` up to the loop in which it waits
  unfoldable pub begin_step : Action W Unit
  unfolding resume
  begin_step = do ask_step; enable_step; resume

  -- `SingleStep`
  unfoldable pub single_step : List Message → Action W Unit
  unfolding begin_step spin
  single_step arriving = do begin_step; spin arriving; set_status Status.stop
