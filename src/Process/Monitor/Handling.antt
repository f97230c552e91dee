-- ===== src/Process/Monitor/Handling.antt =====
-- What a round of `MachTask::ExceptionThread` of MachTask.cpp does with a message that it received.
use Prim.{Unit, tt}
use debug_learning.Prelude.{◌+◌, u32, ◌≡◌, ◌≢◌, sym, Bool, true, false, [], ◌∷◌, ◌++◌, arith}
use debug_learning.Exception.Data
use debug_learning.Exception.Data.{no_exception}
use debug_learning.Exception.Message.{MachMessage, Message, catch_exception_raise}
use debug_learning.Exception.Message.Handling.{
  Request, ServerLaws, is_known, is_accepted, Carries, catch_exception_raise-Caught,
}
use debug_learning.Outcome.{Outcome, returned, thrown, aborted, endless}
use debug_learning.Task
use debug_learning.Task.Stepping.{disable_single_step}
use debug_learning.Process.{deliver, suspend_if_first}
use debug_learning.Process.Method.{MachProcess, ProcessCalls}
use debug_learning.Process.Monitor.{again, leave, crash, Locals, Round, handle, moved}

module _ {W : Type 0} (k : ProcessCalls W) where
  -- A single step was asked for, and the bits of the threads cannot be taken back.
  abbrev pub CannotEnd : MachProcess → W → Type 0
  CannotEnd p w =
      (p.single_step ≡ true)
      × ((disable_single_step k.threads p.task (suspend_if_first k p w).2).0 ≢ returned tt)

  -- The message waits behind the others; or the single step could not be ended.
  abbrev Delivered : Message → MachProcess → W → Outcome Unit × MachProcess × W → Type 0
  Delivered m p w (returned u, q, w') = q.exception_messages ≡ p.exception_messages ++ (m ∷ [])
  Delivered m p w (thrown c, q, w') = CannotEnd p w
  Delivered m p w (aborted, q, w') = CannotEnd p w
  Delivered m p w (endless, q, w') = CannotEnd p w

  deliver-Delivered : (m : Message) (p : MachProcess) (w : W) → Delivered m p w (deliver k m p w)
  unfolding deliver
  deliver-Delivered m p w = ground arith

  -- The loop goes on, with one more message that waits for a reply, or the program ends, as the single
  -- step cannot be ended; or nothing has changed.
  abbrev pub Handled : Bool → Message → Locals → MachProcess → W → Round W → Type 0
  Handled true m l p w1 (again, l', p', w) =
      (p'.exception_messages ≡ p.exception_messages ++ (m ∷ []))
      × (l'.num_exceptions_received ≡ u32 (l.num_exceptions_received + 1))
  Handled true m l p w1 (leave, l', p', w) = ⊥
  Handled true m l p w1 (crash, l', p', w) = CannotEnd (moved l m.state p) w1
  Handled false m l p w1 (turn, l', p', w) = (turn ≡ again) × (l' ≡ l) × (p' ≡ p)

module _ {W : Type 0} (k : ProcessCalls W) (request : MachMessage → Request)
    (laws : ServerLaws k.messages request) where
  -- With a generated server as documented, each request of the interface becomes a message that
  -- waits for a reply, also one that the handler refused, whose data are then not valid; where the
  -- handler accepted, the message carries the exception. The one exception: where a single step was
  -- asked for and DisableSingleStep does not return, the program ends. Anything else changes nothing.
  pub handle-Handled :
      (m : Message) (l : Locals) (p : MachProcess) (w : W)
      → m.state ≡ no_exception
      → let (done, m', w') = catch_exception_raise k.messages (Task.is_valid k.tasks) l.task m w in
        let accepted = is_accepted l.task (Task.is_valid k.tasks l.task w).0 (request m.exc_msg) in
        Handled k (is_known (request m.exc_msg)) m' l p w' (handle k m l p w)
        × (Data.is_valid m'.state ≡ true → accepted ≡ true)
        × (accepted ≡ true → Carries (request m.exc_msg) m'.state)
  unfolding handle
  handle-Handled m l p w fresh =
      let (done, m', w') = catch_exception_raise k.messages (Task.is_valid k.tasks) l.task m w in
      let (eq, valid, carries) =
        catch_exception_raise-Caught k.messages request laws (Task.is_valid k.tasks) l.task m w
          fresh in
      (rw (sym eq) (ground (arith, deliver-Delivered k m' (moved l m'.state p) w')), valid, carries)
