-- ===== src/Process/Tests.antt =====
-- Runs of the model of MachProcess on a small system, and the theorems at those inputs.
use debug_learning.Prelude.{ℕ, ◌≡◌, refl, ap, inl, inr, Bool, true, false, [], ◌∷◌}
use debug_learning.Outcome.{aborted, endless}
use debug_learning.Exception.Data
use debug_learning.Exception.Data.{ExceptionData, Raise}
use debug_learning.Exception.Message.{
  Message, MachMessage, Handler, new_message, catch_exception_raise,
}
use debug_learning.Exception.Message.Handling.{Request, raise, ServerLaws, Carries}
use debug_learning.Exception.Ports.{save}
use debug_learning.Task
use debug_learning.Task.Starting.{start_exception_thread}
use debug_learning.Task.Stepping.{enable_single_step}
use debug_learning.Process
use debug_learning.Process.{new_process, attach, deliver, begin_attach}
use debug_learning.Process.Method.{MachProcess, running, stop, ◌>>◌}
use debug_learning.Process.Following.{resume_it, run, run-Follows}
use debug_learning.Process.Monitor.{first_locals, top, ended, Locals, handle}
use debug_learning.Process.Monitor.Handling.{Handled, handle-Handled}
use debug_learning.Process.Monitor.Bundling.{deliver_all, resume-burst}
use debug_learning.Process.Monitor.Ensuring.{Ensures}
use debug_learning.Process.Sample.{sample, hit, raised, stopped, sample-BundleLaws}
use debug_learning.Process.Threads.{
  Sys, free, attaching, Reach, here, next, attach_1, thread, thread_step,
}
use debug_learning.Process.Threads.Safety.{IsSafe, Reach-IsSafe}
use debug_learning.Debugger.Controller.{new_task}

abbrev fresh : MachProcess
fresh = new_process new_task

-- The process 8, attached and stopped.
abbrev attached : MachProcess
attached = (attach sample 8 [] fresh 0).1

attached-status : attached.status ≡ stop
unfolding attach start_exception_thread Task.is_valid Task.task_port_for_process_id save
attached-status = refl

run-Follows_example : run sample resume_it fresh 0 ≡ (aborted, fresh, 0)
run-Follows_example = run-Follows sample resume_it fresh 0

resume-burst_example :
    Ensures
      (λ p' w'. (p'.exception_messages ≡ []) × (p'.status ≡ running) × (w' ≡ 4))
      ((do deliver_all sample (hit ∷ hit ∷ []); Process.resume sample) stopped 4)
resume-burst_example =
    resume-burst sample (λ w task. w) sample-BundleLaws hit (hit ∷ []) stopped 4 refl

-- A single step during which nothing arrives does not end.
step-endless : (Process.single_step sample [] stopped 0).0 ≡ endless
unfolding Process.single_step enable_single_step Task.resume
step-endless = refl

burst-count : (deliver_all sample (hit ∷ hit ∷ []) stopped 4).2 ≡ 5
unfolding deliver Task.suspend
burst-count = refl

-- The two threads from a new object: the first half of `Attach`, and one turn of the exception
-- thread.
abbrev new_sys : Sys ℕ
new_sys = record { main = free; point = ended; proc = fresh; world = 0 }

abbrev attaching_sys : Sys ℕ
attaching_sys =
    let p = (begin_attach sample 8 [] fresh 0).1 in
    record { main = attaching 8; point = top (first_locals p); proc = p; world = 0 }

attaching-Reach :
    Reach sample (λ w. (false, w)) new_sys (thread_step sample (λ w. (false, w)) attaching_sys)
unfolding begin_attach start_exception_thread Task.is_valid Task.task_port_for_process_id save
attaching-Reach = next (next here (attach_1 8 [] attaching_sys.proc 0 refl refl refl)) (thread refl)

Reach-IsSafe_example : IsSafe (thread_step sample (λ w. (false, w)) attaching_sys)
Reach-IsSafe_example =
    Reach-IsSafe sample (λ w. (false, w)) attaching-Reach (refl, refl, refl, refl)

-- Every message is the exception `raised`.
abbrev request : MachMessage → Request
request m = raise raised

raised-server :
    (h : Handler ℕ) (m r : MachMessage) (q : Raise) (d : ExceptionData) (w : ℕ)
    → request m ≡ raise q
    → let (done, m', r', d', w') = sample.messages.mach_exc_server h m r d w in
      let (kr, d'', w'') = h q d w in (done ≡ true) × (d' ≡ d'') × (w' ≡ w'')
raised-server h m r q d w e =
    let same : raised ≡ q = cc in (refl, ap (λ x. (h x d w).1) same, ap (λ x. (h x d w).2) same)

sample-ServerLaws : ServerLaws sample.messages request
sample-ServerLaws = record {
  on_raise = λ h m r q d w e. raised-server h m r q d w e;
  on_state = λ h m r d w e. elim e [ inl a ↦ cc | inr b ↦ cc ];
  on_unknown = λ h m r d w e. cc;
}

abbrev arrived : Message
arrived = record new_message { exc_msg = record { msgh_size = 64; body = [] } }

abbrev monitoring : Locals
monitoring = record { num_exceptions_received = 0; task = 77; periodic_timeout = 0 }

handle-Handled_example :
    let (done, m', w') =
      catch_exception_raise sample.messages (Task.is_valid sample.tasks) 77 arrived 4 in
    Handled sample true m' monitoring stopped w' (handle sample arrived monitoring stopped 4)
    × (Data.is_valid m'.state ≡ true → ◌≡◌ {A = Bool} true true)
    × (◌≡◌ {A = Bool} true true → Carries (raise raised) m'.state)
handle-Handled_example =
    handle-Handled sample request sample-ServerLaws arrived monitoring stopped 4 refl
