-- ===== src/Process/Monitor.antt =====
-- The exception thread, `MachTask::ExceptionThread` of mac_ptrace/lldb/MachTask.cpp. A round of its
-- loop has two parts, since the methods of the main thread may run while `Receive` waits: `ask` up
-- to the end of `Receive`, and `answer` behind it.
--
-- The name and the priority of the thread and the printing are left out. `pthread_testcancel` is a
-- parameter that says whether the thread is cancelled there.
pub mod Ensuring
pub mod Bundling
pub mod Handling
use Prim.{Unit, tt}
use debug_learning.Prelude.{
  ℕ, ◌+◌, u32, Bool, true, false, not, ◌&&◌, ltb, ◌==◌, ◌/=◌, if◌then◌else◌,
}
use debug_learning.Sdk.{kern_success, mach_rcv_timed_out, mach_rcv_interrupted, mach_port_dead}
use debug_learning.Outcome.{Outcome, returned, thrown, aborted, endless}
use debug_learning.Exception.Data
use debug_learning.Exception.Data.{ExceptionData}
use debug_learning.Exception.Message.{
  Message, new_message, receive, catch_exception_raise, mach_rcv_msg, mach_rcv_timeout,
  mach_rcv_interrupt,
}
use debug_learning.Task
use debug_learning.Process.Method.{MachProcess, ProcessCalls}
use debug_learning.Process.{deliver}

-- The local variables of `ExceptionThread` that last for more than a round.
pub record Locals : Type 0 where
  pub num_exceptions_received : ℕ
  pub task : ℕ
  pub periodic_timeout : ℕ

-- What the thread starts with.
abbrev pub first_locals : MachProcess → Locals
first_locals p = record { num_exceptions_received = 0; task = p.task.task; periodic_timeout = 0 }

-- How a round ends: the loop goes on, it is left, or the program ends.
pub data Turn : Type 0 where
  again leave crash : Turn

-- `ExceptionPortIsValid`
abbrev pub exception_port_is_valid : MachProcess → Bool
exception_port_is_valid p = p.task.exception_port /= 0 && p.task.exception_port /= mach_port_dead

-- the options and the timeout for `Receive`
abbrev pub how_to_receive : Locals → ℕ × ℕ
how_to_receive l =
    let timed = mach_rcv_msg + mach_rcv_interrupt + mach_rcv_timeout in
    if ltb 0 l.num_exceptions_received
    then (timed, 1)
    else if ltb 0 l.periodic_timeout
    then (timed, l.periodic_timeout)
    else (mach_rcv_msg + mach_rcv_interrupt, 0)

-- Whether the data are about another task: the program went on as another one.
abbrev pub changes_task : Locals → ExceptionData → Bool
changes_task l d = d.task_port /= l.task && Data.is_valid d

-- The two assignments for that, to the variable `task` and by `TaskPortChanged`.
abbrev pub next_locals : Locals → ExceptionData → Locals
next_locals l d = if changes_task l d then record l { task = d.task_port } else l

abbrev pub moved : Locals → ExceptionData → MachProcess → MachProcess
moved l d p =
    if changes_task l d then record p { task = Task.task_port_changed d.task_port p.task } else p

-- A part of a round, with what it leaves.
abbrev pub Round : Type 0 → Type 0
Round W = Turn × Locals × MachProcess × W

module _ {W : Type 0} (k : ProcessCalls W) where
  -- `if (MachTask::IsValid(task)) { continue; } else { break; }`
  abbrev pub while_valid : Locals → MachProcess → W → Round W
  while_valid l p w =
      let (valid, w') = Task.is_valid k.tasks l.task w in (if valid then again else leave, l, p, w')

  -- the round after `ExceptionMessageReceived`
  abbrev pub after_deliver : Locals → Outcome Unit × MachProcess × W → Round W
  after_deliver l (returned u, p, w) = (again, l, p, w)
  after_deliver l (thrown c, p, w) = (crash, l, p, w)
  after_deliver l (aborted, p, w) = (crash, l, p, w)
  after_deliver l (endless, p, w) = (crash, l, p, w)

  -- a message was received: `CatchExceptionRaise`, and what follows
  unfoldable pub handle : Message → Locals → MachProcess → W → Round W
  handle m l p w =
      let (caught, m', w') = catch_exception_raise k.messages (Task.is_valid k.tasks) l.task m w in
      let l' = next_locals l m'.state in
      if caught
      then after_deliver
          (record l' { num_exceptions_received = u32 (l.num_exceptions_received + 1) })
          (deliver k m' (moved l m'.state p) w')
      else (again, l, p, w')

  -- The round behind `Receive`, with its status.
  unfoldable pub answer : ℕ → Message → Locals → MachProcess → W → Round W
  unfolding handle
  answer status m l p w =
      if status == mach_rcv_interrupted
      then if not (exception_port_is_valid p) then (leave, l, p, w) else while_valid l p w
      else if status == mach_rcv_timed_out
      then if ltb 0 l.num_exceptions_received
        then while_valid (record l { num_exceptions_received = 0 }) p w
        else (again, l, p, w)
      else if status /= kern_success
      then (again, l, p, w)
      else handle m l p w

-- Where the thread is: at the test of `while`, behind `Receive`, at its end, or where it ended the
-- program.
pub data Point : Type 0 where
  top : (l : Locals) → Point
  received : (l : Locals) (status : ℕ) (m : Message) → Point
  ended crashed : Point

-- the point after a round
abbrev pub point_after : Turn → Locals → Point
point_after again l = top l
point_after leave l = ended
point_after crash l = crashed

module _ {W : Type 0} (k : ProcessCalls W) (testcancel : W → Bool × W) where
  -- The test of `while`, `pthread_testcancel` and `Receive`.
  unfoldable pub ask : Locals → MachProcess → W → Point × MachProcess × W
  ask l p w =
      let (cancelled, w1) = testcancel w in
      let (options, timeout) = how_to_receive l in
      let (status, m, w2) =
        receive k.messages p.task.exception_port options timeout new_message w1 in
      if not (exception_port_is_valid p)
      then (ended, p, w)
      else if cancelled
      then (ended, p, w1)
      else (received l status m, p, w2)

  -- The next part of a round.
  unfoldable pub advance : Point → MachProcess → W → Point × MachProcess × W
  unfolding ask answer
  advance (top l) p w = ask l p w
  advance (received l status m) p w =
      let (turn, l', p', w') = answer k status m l p w in (point_after turn l', p', w')
  advance ended p w = (ended, p, w)
  advance crashed p w = (crashed, p, w)
