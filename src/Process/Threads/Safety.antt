-- ===== src/Process/Threads/Safety.antt =====
-- What holds however the two threads of MachProcess.cpp and MachTask.cpp are interleaved.
use Prim.{Unit, tt}
use debug_learning.Prelude.{
  ℕ, Bool, true, Option, none, some, List, [], ◌∷◌, ◌++◌, ◌≡◌, refl, sym, ◌∙◌, subst, arith,
}
use debug_learning.Outcome.{Outcome, thrown}
use debug_learning.Exception.Message.{Message, catch_exception_raise}
use debug_learning.Task
use debug_learning.Task.{MachTask}
use debug_learning.Process
use debug_learning.Process.Access
use debug_learning.Process.{begin_attach, finish_attach, ask_step, enable_step, reply_each, deliver}
use debug_learning.Process.Method.{MachProcess, detach, running, stop, ProcessCalls, Returned}
use debug_learning.Process.Following.{
  Command, attach_to, detach_from, resume_it, stop_it, step, read_at, write_at, read_registers,
  change_port, receive, run, reply_each-same,
}
use debug_learning.Process.Monitor.{
  Point, top, received, ended, crashed, Locals, point_after, moved, advance, handle,
}
use debug_learning.Process.Threads.{
  free, spinning, Sys, Step, Reach, here, next, thread, plain, attach_1, attach_2, attach_throws,
  step_1, step_2, step_3, step_4, is_plain, is_attaching, is_starting, is_stepping, IsInitial,
}

-- The variable `task` of the exception thread is the port that the object holds.
abbrev pub SameTask : Point → MachProcess → Type 0
SameTask (top l) p = l.task ≡ p.task.task
SameTask (received l status m) p = l.task ≡ p.task.task
SameTask ended p = Unit
SameTask crashed p = Unit

SameTask-kept :
    (point : Point) (p p' : MachProcess)
    → SameTask point p
    → p'.task.task ≡ p.task.task
    → SameTask point p'
SameTask-kept (top l) p p' h e = h ∙ sym e
SameTask-kept (received l status m) p p' h e = h ∙ sym e
SameTask-kept ended p p' h e = tt
SameTask-kept crashed p p' h e = tt

pub record IsSafe {W : Type 0} (s : Sys W) : Type 0 where
  -- both threads mean the same task
  pub same_task : SameTask s.point s.proc
  -- stepping is asked for only inside `SingleStep`, which has the process stopped up to its `Resume`,
  -- and running when it waits
  pub flagged : s.proc.single_step ≡ true → is_stepping s.main ≡ true
  pub stops : is_starting s.main ≡ true → s.proc.status ≡ stop
  pub runs : s.main ≡ spinning → s.proc.status ≡ running
  -- between two methods there is no exception thread while the process is not attached; inside
  -- `Attach`, and when it threw, the process does not count as attached
  pub idle : s.main ≡ free → s.proc.status ≡ detach → s.point ≡ ended
  pub starts : is_attaching s.main ≡ true → s.proc.status ≡ detach

-- What a method left when it returned: one that is a step of its own, the two halves of `Attach`,
-- `Detach`, and the parts of `SingleStep`.
module _ {W A : Type 0} (p : MachProcess) where
  abbrev Leaves : Outcome A × MachProcess × W → Type 0
  Leaves = Returned (λ p'.
      (p'.task.task ≡ p.task.task)
      × (p'.single_step ≡ p.single_step)
      × (p'.status ≡ detach → p.status ≡ detach))

  abbrev Attaching : Outcome A × MachProcess × W → Type 0
  Attaching = Returned (λ p'. (p'.single_step ≡ p.single_step) × (p'.status ≡ detach))

  abbrev Attached : Outcome A × MachProcess × W → Type 0
  Attached =
      Returned
        (λ p'. (p'.task.task ≡ p.task.task) × (p'.single_step ≡ p.single_step) × (p'.status ≡ stop))

  abbrev Detached : Outcome A × MachProcess × W → Type 0
  Detached = Returned (λ p'. p'.single_step ≡ p.single_step)

  abbrev Asked : Outcome A × MachProcess × W → Type 0
  Asked = Returned (λ p'. (p'.task.task ≡ p.task.task) × (p'.status ≡ stop))

  abbrev Enabled : Outcome A × MachProcess × W → Type 0
  Enabled = Returned (λ p'. p' ≡ p)

  abbrev Resumed : Outcome A × MachProcess × W → Type 0
  Resumed = Returned (λ p'. (p'.task.task ≡ p.task.task) × (p'.status ≡ running))

  -- where it threw
  abbrev Threw : Outcome A × MachProcess × W → Type 0
  Threw (thrown c, p', w) = p' ≡ p
  Threw (o, p', w) = Unit

-- `ReadMemory` and `WriteMemory` of the task leave its port.
module _ {W : Type 0} (t : MachTask) where
  abbrev ReadKeeps : Option (ℕ × List ℕ × MachTask × W) → Type 0
  ReadKeeps none = Unit
  ReadKeeps (some (n, buf, t', w)) = t'.task ≡ t.task

  abbrev WriteKeeps : Option (ℕ × MachTask × W) → Type 0
  WriteKeeps none = Unit
  WriteKeeps (some (n, t', w)) = t'.task ≡ t.task

-- A part of a round of the exception thread, for the point behind it.
abbrev Advances : {W : Type 0} → MachProcess → Point × MachProcess × W → Type 0
Advances p (point, p', w) =
    SameTask point p' × (p'.status ≡ p.status) × (p'.single_step ≡ true → p.single_step ≡ true)

module _ {W : Type 0} (k : ProcessCalls W) where
  resume-Leaves : (p : MachProcess) (w : W) → Leaves p (Process.resume k p w)
  unfolding Process.resume
  resume-Leaves p w = ground (arith, reply_each-same k p.exception_messages p w)

  stop-Leaves : (p : MachProcess) (w : W) → Leaves p (Process.stop k p w)
  unfolding Process.stop
  stop-Leaves p w = ground arith

  read_each-Leaves :
      (ts : List ℕ) (rs : List (List ℕ)) (p : MachProcess) (w : W)
      → Leaves p (Access.read_each k ts rs p w)
  unfolding Access.read_each
  read_each-Leaves [] rs p w = ground arith
  read_each-Leaves (t ∷ ts) rs p w =
      let (kr, gpr, w') = k.thread_get_registers t w in
      ground (arith, read_each-Leaves ts (rs ++ (gpr ∷ [])) p w')

  read_memory-ReadKeeps :
      (is_null : Bool) (addr size : ℕ) (t : MachTask) (w : W)
      → ReadKeeps t (Task.read_memory k.vm is_null addr size t w)
  unfolding Task.read_memory
  read_memory-ReadKeeps is_null addr size t w = ground arith

  write_memory-WriteKeeps :
      (addr size : ℕ) (bytes : Option (List ℕ)) (t : MachTask) (w : W)
      → WriteKeeps t (Task.write_memory k.vm addr size bytes t w)
  unfolding Task.write_memory
  write_memory-WriteKeeps addr size bytes t w = ground arith

  run-Leaves : (c : Command) (p : MachProcess) (w : W) → is_plain c ≡ true → Leaves p (run k c p w)
  unfolding Access.read_memory Access.write_memory Access.read_register
  run-Leaves (attach_to pid ignored) p w h = cc
  run-Leaves detach_from p w h = cc
  run-Leaves resume_it p w h = resume-Leaves p w
  run-Leaves stop_it p w h = stop-Leaves p w
  run-Leaves (step arriving) p w h = cc
  run-Leaves (read_at is_null addr size) p w h =
      ground (arith, read_memory-ReadKeeps is_null addr size p.task w)
  run-Leaves (write_at addr size bytes) p w h =
      ground (arith, write_memory-WriteKeeps addr size bytes p.task w)
  run-Leaves read_registers p w h =
      let (kr, ts, w') = k.threads.task_threads p.task.task w in
      ground (arith, read_each-Leaves ts [] p w')
  run-Leaves (change_port task) p w h = cc
  run-Leaves (receive m) p w h = cc

  begin_attach-Attaching :
      (pid : ℕ) (ignored : List ℕ) (p : MachProcess) (w : W)
      → Attaching p (begin_attach k pid ignored p w)
  unfolding begin_attach
  begin_attach-Attaching pid ignored p w = ground arith

  finish_attach-Attached :
      (pid : ℕ) (p : MachProcess) (w : W) → Attached p (finish_attach k pid p w)
  unfolding finish_attach
  finish_attach-Attached pid p w = ground arith

  detach-Detached : (p : MachProcess) (w : W) → Detached p (Process.detach k p w)
  unfolding Process.detach
  detach-Detached p w = ground arith

  finish_attach-Threw : (pid : ℕ) (p : MachProcess) (w : W) → Threw p (finish_attach k pid p w)
  unfolding finish_attach
  finish_attach-Threw pid p w = ground arith

  ask_step-Asked : (p : MachProcess) (w : W) → Asked p (ask_step p w)
  ask_step-Asked p w = ground arith

  enable_step-Enabled : (p : MachProcess) (w : W) → Enabled p (enable_step k p w)
  enable_step-Enabled p w = ground arith

  resume-Resumed : (p : MachProcess) (w : W) → Resumed p (Process.resume k p w)
  unfolding Process.resume
  resume-Resumed p w = ground (arith, reply_each-same k p.exception_messages p w)

  deliver-kept :
      (m : Message) (p : MachProcess) (w : W)
      → let (o, p', w') = deliver k m p w in
        (p'.task ≡ p.task) × (p'.status ≡ p.status) × (p'.single_step ≡ true → p.single_step ≡ true)
  unfolding deliver
  deliver-kept m p w = ground arith

  handle-Advances :
      (m : Message) (l : Locals) (p : MachProcess) (w : W)
      → l.task ≡ p.task.task
      → let (turn, l', p', w') = handle k m l p w in Advances p (point_after turn l', p', w')
  unfolding handle
  handle-Advances m l p w h =
      let (caught, m', w') = catch_exception_raise k.messages (Task.is_valid k.tasks) l.task m w in
      ground (arith, deliver-kept m' (moved l m'.state p) w')

module _ {W : Type 0} (k : ProcessCalls W) (testcancel : W → Bool × W) where
  advance-Advances :
      (point : Point) (p : MachProcess) (w : W)
      → SameTask point p
      → Advances p (advance k testcancel point p w)
  unfolding advance
  advance-Advances (top l) p w h = ground arith
  advance-Advances (received l status m) p w h = ground (arith, handle-Advances k m l p w)
  advance-Advances ended p w h = ground arith
  advance-Advances crashed p w h = ground arith

  -- A thread that has ended does not come back.
  advance-ended :
      (point : Point) (p : MachProcess) (w : W)
      → point ≡ ended
      → (advance k testcancel point p w).0 ≡ ended
  unfolding advance
  advance-ended (top l) p w h = cc
  advance-ended (received l status m) p w h = cc
  advance-ended ended p w h = refl
  advance-ended crashed p w h = cc

  Step-IsSafe : {s t : Sys W} → Step k testcancel s t → IsSafe s → IsSafe t
  Step-IsSafe {s} (thread e) h = rw e (
      ground (
        arith,
        advance-Advances s.point s.proc s.world h.same_task,
        advance-ended s.point s.proc s.world,
      ))
  Step-IsSafe {s} (plain c p w ok at_main done e) h =
      let left = subst (Leaves s.proc) done (run-Leaves k c s.proc s.world ok) in
      rw e (ground (arith, SameTask-kept s.point s.proc p h.same_task left.0))
  Step-IsSafe {s} (attach_1 pid ignored p w at_main done e) h =
      let left =
        subst (Attaching s.proc) done (begin_attach-Attaching k pid ignored s.proc s.world) in
      rw e (ground arith)
  Step-IsSafe {s} (attach_2 pid p w at_main done e) h =
      let left = subst (Attached s.proc) done (finish_attach-Attached k pid s.proc s.world) in
      rw e (ground (arith, SameTask-kept s.point s.proc p h.same_task left.0))
  Step-IsSafe {s} (Step.detach p w at_main done e) h =
      let left = subst (Detached s.proc) done (detach-Detached k s.proc s.world) in
      rw e (ground arith)
  Step-IsSafe {s} (attach_throws pid c p w at_main done e) h =
      let left = subst (Threw s.proc) done (finish_attach-Threw k pid s.proc s.world) in
      rw (e, left) (ground arith)
  Step-IsSafe {s} (step_1 p w at_main done e) h =
      let left = subst (Asked s.proc) done (ask_step-Asked k s.proc s.world) in
      rw e (ground (arith, SameTask-kept s.point s.proc p h.same_task left.0))
  Step-IsSafe {s} (step_2 p w at_main done e) h =
      let left = subst (Enabled s.proc) done (enable_step-Enabled k s.proc s.world) in
      rw (e, left) (ground arith)
  Step-IsSafe {s} (step_3 p w at_main done e) h =
      let left = subst (Resumed s.proc) done (resume-Resumed k s.proc s.world) in
      rw e (ground (arith, SameTask-kept s.point s.proc p h.same_task left.0))
  Step-IsSafe {s} (step_4 at_main low e) h = rw e (ground arith)

  -- From a new object on, whatever the two threads do and however their steps are ordered, with a
  -- method of the main thread as one step except for Attach, of two steps, and SingleStep, of
  -- four, and as long as no method throws, or until an Attach does: the port for which the
  -- exception thread handles messages is that of the object; a single step is asked for only
  -- inside SingleStep, where the status is STOP up to its Resume and RUNNING when it waits; inside
  -- Attach behind the start of the exception thread, and for good where Attach then throws, the
  -- status is DETACH; and between two methods with the status DETACH, no exception thread goes on.
  pub Reach-IsSafe : {s t : Sys W} → Reach k testcancel s t → IsInitial s → IsSafe t
  Reach-IsSafe here h = ground arith
  Reach-IsSafe (next r st) h = Step-IsSafe st (Reach-IsSafe r h)
