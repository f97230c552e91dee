-- ===== src/Process/Racing.antt =====
-- `MachProcess::Resume` on the main thread while `MachProcess::ExceptionMessageReceived` runs on the
-- exception thread, both of MachProcess.cpp, statement by statement: nothing in the code keeps the
-- two apart.
--
-- An access to the vector of messages is one step. `push_back` is taken to find room, so that the
-- iterators of `ReplyToAllExceptions` stay valid.
pub mod Serial
pub mod Losing
mod Tests
use Prim.{Unit, tt}
use debug_learning.Prelude.{ℕ, zero, suc, Bool, true, false, List, [], ◌∷◌, ◌++◌, if◌then◌else◌}
use debug_learning.DnbError.{assign, fail}
use debug_learning.Outcome.{Outcome, returned, thrown, aborted, endless, status}
use debug_learning.Exception.Message.{Message, reply}
use debug_learning.Task
use debug_learning.Process.{is_stop, suspend_if_first, end_step}
use debug_learning.Process.Method.{MachProcess, Status, ProcessCalls}

-- Where `Resume` is: before its first statement, in the loop of `ReplyToAllExceptions` with what is
-- left between `pos` and `end`, before `clear`, before `m_task.Resume`, or at its end.
pub data Resuming : Type 0 where
  calling : Resuming
  replying : (rest : List Message) → Resuming
  clearing restarting : Resuming
  finished : (o : Outcome Unit) → Resuming

-- Where `ExceptionMessageReceived` is: before each of its three statements, or at its end.
pub data Receiving : Type 0 where
  testing stepping storing : (m : Message) → Receiving
  settled : (o : Outcome Unit) → Receiving

pub data Choice : Type 0 where
  main_turn thread_turn : Choice

-- behind the asserts and the test of `empty`
abbrev pub first_point : Bool → List Message → Resuming
first_point false ms = finished aborted
first_point true [] = restarting
first_point true (m ∷ ms) = replying (m ∷ ms)

-- behind a reply; its status is not looked at
abbrev pub after_reply : List Message → Outcome ℕ → Resuming
after_reply rest (returned n) = replying rest
after_reply rest (thrown c) = finished (thrown c)
after_reply rest aborted = finished aborted
after_reply rest endless = finished endless

abbrev pub after_end_step : Message → Outcome Unit → Receiving
after_end_step m (returned u) = storing m
after_end_step m (thrown c) = settled (thrown c)
after_end_step m aborted = settled aborted
after_end_step m endless = settled endless

pub record Race (W : Type 0) : Type 0 where
  pub main : Resuming
  pub thread : Receiving
  pub proc : MachProcess
  pub world : W

module _ {W : Type 0} (k : ProcessCalls W) where
  -- the end of `Resume`, where it is known whether `m_task.Resume()` failed
  abbrev pub after_restart : Bool → ℕ → MachProcess → W → Resuming × MachProcess × W
  after_restart true kr p w = (finished (thrown (status (assign kr))), p, w)
  after_restart false kr p w = (finished (returned tt), record p { status = Status.running }, w)

  -- the next statement of `Resume`
  abbrev pub resume_step : Resuming → MachProcess → W → Resuming × MachProcess × W
  resume_step calling p w = (first_point (is_stop p.status) p.exception_messages, p, w)
  resume_step (replying []) p w = (clearing, p, w)
  resume_step (replying (m ∷ ms)) p w =
      let (o, w') = reply k.messages p.task.task p.pid 0 m w in (after_reply ms o, p, w')
  resume_step clearing p w = (restarting, record p { exception_messages = [] }, w)
  resume_step restarting p w =
      let (kr, w') = Task.resume k.tasks p.task w in after_restart (fail (assign kr)) kr p w'
  resume_step (finished o) p w = (finished o, p, w)

  -- the next statement of `ExceptionMessageReceived`
  abbrev pub receive_step : Receiving → MachProcess → W → Receiving × MachProcess × W
  receive_step (testing m) p w = let (o, p', w') = suspend_if_first k p w in (stepping m, p', w')
  receive_step (stepping m) p w = let (o, p', w') = end_step k p w in (after_end_step m o, p', w')
  receive_step (storing m) p w =
      (settled (returned tt), record p { exception_messages = p.exception_messages ++ (m ∷ []) }, w)
  receive_step (settled o) p w = (settled o, p, w)

  abbrev pub take_turn : Choice → Race W → Race W
  take_turn main_turn s =
      let (main, p, w) = resume_step s.main s.proc s.world in
      record s { main = main; proc = p; world = w }
  take_turn thread_turn s =
      let (thread, p, w) = receive_step s.thread s.proc s.world in
      record s { thread = thread; proc = p; world = w }

  -- The turns of a schedule, one after the other.
  abbrev pub take_turns : List Choice → Race W → Race W
  take_turns [] s = s
  take_turns (t ∷ ts) s = take_turns ts (take_turn t s)
