-- ===== src/Process/Suspending.antt =====
-- Whether the task of MachProcess.cpp is suspended: `ExceptionMessageReceived` suspends it for the
-- first message that waits, `Resume` replies to all and takes that back, and no other method that
-- is called while the process is attached changes the suspend count.
pub mod Detaching
mod Tests
use Prim.{tt}
use debug_learning.Prelude.{
  ℕ, ◌≡◌, ◌∙◌, ap, Bool, true, false, Option, List, [], ◌∷◌, ◌++◌, arith, u32, Bool-cases, inl, inr,
  if◌then◌else◌,
}
use debug_learning.Sdk.{sigstop}
use debug_learning.Outcome.{returned}
use debug_learning.Exception.Message.{Message}
use debug_learning.Task
use debug_learning.Task.{MachTask}
use debug_learning.Task.Stepping.{enable_single_step, with_step}
use debug_learning.Vm.Memory.Framing.{VmFrame, read-ReadLeaves, write-Leaves}
use debug_learning.Process
use debug_learning.Process.Access
use debug_learning.Process.{deliver, spin, begin_step, single_step}
use debug_learning.Process.Method.{MachProcess, ProcessCalls}
use debug_learning.Process.Following.{
  Command, attach_to, detach_from, resume_it, stop_it, step, read_at, write_at, read_registers,
  change_port, receive, run, run_all,
}
use debug_learning.Process.Monitor.Ensuring.{Ensures, Ensures-proceed, Ensures-map, Ensures-if}
use debug_learning.Process.Monitor.Bundling.{
  BundleLaws, is_nil, is_nil-append, deliver-Added, resume-Ensures, step_threads-count,
}

-- The kernel lets the debugger suspend a task, and no call but those that suspend and resume the task
-- changes its suspend count.
pub record QuietLaws {W : Type 0} (k : ProcessCalls W) (count : W → ℕ → ℕ) : Type 0 where
  pub bundle : BundleLaws k count
  pub suspends : (task : ℕ) (w : W) → u32 (k.tasks.task_suspend task w).0 ≡ 0
  pub kill_keeps : (pid n x : ℕ) (w : W) → count (k.kill pid n w).1 x ≡ count w x
  pub registers_keep :
      (thread x : ℕ) (w : W) → count (k.thread_get_registers thread w).2 x ≡ count w x
  pub vm_keeps : (task x : ℕ) → VmFrame k.vm (λ w. count w x) task

-- The task is suspended once if a message waits, and not at all otherwise.
abbrev pub Suspended : {W : Type 0} → (W → ℕ → ℕ) → MachProcess → W → Type 0
Suspended count p w = count w p.task.task ≡ (if is_nil p.exception_messages then 0 else 1)

-- The calls that keep the process attached, and its task.
abbrev pub is_inside : Command → Bool
is_inside (attach_to pid ignored) = false
is_inside detach_from = false
is_inside (change_port task) = false
is_inside c = true

abbrev pub all_inside : List Command → Bool
all_inside [] = true
all_inside (c ∷ cs) = if is_inside c then all_inside cs else false

module _ {W : Type 0} (k : ProcessCalls W) (count : W → ℕ → ℕ) (laws : QuietLaws k count) where
  deliver-Suspended :
      (m : Message) (p : MachProcess) (w : W)
      → Suspended count p w
      → Ensures (Suspended count) (deliver k m p w)
  deliver-Suspended m p w h =
      let (o, p1, w1) = deliver k m p w in
      Ensures-map _ _ o p1 w1
        (λ (em, ec, et, es).
          let filled = is_nil-append p.exception_messages m in
          let nil1 = ap is_nil em ∙ filled in
          let c1 = ap (λ (t : MachTask). count w1 t.task) et in
          let sure = laws.suspends p.task.task w in
          let goal : count w1 p1.task.task ≡ 1 = ground (arith, c1, ec, h, sure) in rw nil1 goal)
        (deliver-Added k count laws.bundle m p w)

  resume-Suspended :
      (p : MachProcess) (w : W)
      → Suspended count p w
      → Ensures (Suspended count) (Process.resume k p w)
  resume-Suspended p w h =
      let (o, p1, w1) = Process.resume k p w in
      Ensures-map _ _ o p1 w1
        (λ (em, es, ec, et).
          let c1 = ap (λ (t : MachTask). count w1 t.task) et in
          let none_left = ap is_nil em in
          let goal : count w1 p1.task.task ≡ 0 = ground (arith, c1, ec, h) in rw none_left goal)
        (resume-Ensures k count laws.bundle p w)

  stop-Suspended :
      (p : MachProcess) (w : W)
      → Suspended count p w
      → Ensures (Suspended count) (Process.stop k p w)
  unfolding Process.stop
  stop-Suspended p w h = ground (arith, h, laws.kill_keeps p.pid sigstop p.task.task w)

  enable-count :
      (t : MachTask) (x : ℕ) (w : W) → count (enable_single_step k.threads t w).1 x ≡ count w x
  unfolding enable_single_step
  enable-count t x w =
      let (kr, ts, w1) = k.threads.task_threads t.task w in
      ground (
        arith,
        laws.bundle.threads_keep t.task x w,
        step_threads-count k count laws.bundle with_step ts x w1,
      )

  begin_step-Suspended :
      (p : MachProcess) (w : W) → Suspended count p w → Ensures (Suspended count) (begin_step k p w)
  unfolding begin_step
  begin_step-Suspended p w h =
      let p' = record p { single_step = true } in
      let (o, w1) = enable_single_step k.threads p.task w in
      ground (
        arith,
        h,
        enable-count p.task p.task.task w,
        resume-Suspended p' w1 (enable-count p.task p.task.task w ∙ h),
      )

  spin-Suspended :
      (ms : List Message) (p : MachProcess) (w : W)
      → Suspended count p w
      → Ensures (Suspended count) (spin k ms p w)
  unfolding spin
  spin-Suspended [] p w h = ground (arith, h)
  spin-Suspended (m ∷ ms) p w h =
      let (o, p1, w1) = deliver k m p w in
      Ensures-if (Suspended count) p.single_step _ (returned tt, p, w)
        (Ensures-proceed (Suspended count) (Suspended count) (λ a. spin k ms) o p1 w1
          (deliver-Suspended m p w h) (λ a h1. spin-Suspended ms p1 w1 h1))
        h

  single_step-Suspended :
      (ms : List Message) (p : MachProcess) (w : W)
      → Suspended count p w
      → Ensures (Suspended count) (single_step k ms p w)
  unfolding single_step
  single_step-Suspended ms p w h =
      let (o, p1, w1) = begin_step k p w in
      Ensures-proceed (Suspended count) (Suspended count) _ o p1 w1 (begin_step-Suspended p w h)
        (λ a h1.
          let (o2, p2, w2) = spin k ms p1 w1 in
          Ensures-proceed (Suspended count) (Suspended count) _ o2 p2 w2
            (spin-Suspended ms p1 w1 h1) (λ a h2. h2))

  read_memory-Suspended :
      (is_null : Bool) (addr size : ℕ) (p : MachProcess) (w : W)
      → Suspended count p w
      → Ensures (Suspended count) (Access.read_memory k is_null addr size p w)
  unfolding Access.read_memory Task.read_memory
  read_memory-Suspended is_null addr size p w h = ground (
    arith,
    h,
    read-ReadLeaves k.vm (λ w'. count w' p.task.task) p.task.task
        (laws.vm_keeps p.task.task p.task.task) is_null addr size p.task.vm_memory w,
  )

  write_memory-Suspended :
      (addr size : ℕ) (bytes : Option (List ℕ)) (p : MachProcess) (w : W)
      → Suspended count p w
      → Ensures (Suspended count) (Access.write_memory k addr size bytes p w)
  unfolding Access.write_memory Task.write_memory
  write_memory-Suspended addr size bytes p w h = ground (
    arith,
    h,
    write-Leaves k.vm (λ w'. count w' p.task.task) p.task.task
        (laws.vm_keeps p.task.task p.task.task) addr size bytes p.task.vm_memory w,
  )

  read_each-Suspended :
      (ts : List ℕ) (rs : List (List ℕ)) (p : MachProcess) (w : W)
      → Suspended count p w
      → Ensures (Suspended count) (Access.read_each k ts rs p w)
  unfolding Access.read_each
  read_each-Suspended [] rs p w h = h
  read_each-Suspended (t ∷ ts) rs p w h =
      let (kr, gpr, w1) = k.thread_get_registers t w in
      ground (
        arith,
        read_each-Suspended ts (rs ++ (gpr ∷ [])) p w1 (laws.registers_keep t p.task.task w ∙ h),
      )

  read_register-Suspended :
      (p : MachProcess) (w : W)
      → Suspended count p w
      → Ensures (Suspended count) (Access.read_register k p w)
  unfolding Access.read_register
  read_register-Suspended p w h =
      let (kr, ts, w1) = k.threads.task_threads p.task.task w in
      ground (
        arith,
        read_each-Suspended ts [] p w1 (laws.bundle.threads_keep p.task.task p.task.task w ∙ h),
      )

  run-Suspended :
      (c : Command) (p : MachProcess) (w : W)
      → is_inside c ≡ true
      → Suspended count p w
      → Ensures (Suspended count) (run k c p w)
  run-Suspended (attach_to pid ignored) p w inside h = cc
  run-Suspended detach_from p w inside h = cc
  run-Suspended resume_it p w inside h = resume-Suspended p w h
  run-Suspended stop_it p w inside h = stop-Suspended p w h
  run-Suspended (step ms) p w inside h = single_step-Suspended ms p w h
  run-Suspended (read_at is_null addr size) p w inside h =
      ground (arith, read_memory-Suspended is_null addr size p w h)
  run-Suspended (write_at addr size bytes) p w inside h =
      ground (arith, write_memory-Suspended addr size bytes p w h)
  run-Suspended read_registers p w inside h = ground (arith, read_register-Suspended p w h)
  run-Suspended (change_port task) p w inside h = cc
  run-Suspended (receive m) p w inside h = deliver-Suspended m p w h

  -- Over a system in which `task_suspend` never fails and only it and `task_resume` change the
  -- suspend count: if the task is suspended once where a message waits for its reply, and not at all
  -- otherwise, then this is so again after any calls of methods other than `Attach` and `Detach`, and
  -- any messages that arrive between them and in the single steps, where each call returns and no
  -- message moves the object to another task.
  pub run_all-Suspended :
      (cs : List Command) (p : MachProcess) (w : W)
      → all_inside cs ≡ true
      → Suspended count p w
      → Ensures (Suspended count) (run_all k cs p w)
  run_all-Suspended [] p w inside h = h
  run_all-Suspended (c ∷ cs) p w inside h = elim (Bool-cases (is_inside c)) [
    | inr outside ↦ absurd (ground (arith, inside, outside))
    | inl here ↦
        let (o, p1, w1) = run k c p w in
        Ensures-proceed (Suspended count) (Suspended count) (λ a. run_all k cs) o p1 w1
          (run-Suspended c p w here h)
          (λ a h1. run_all-Suspended cs p1 w1 (ground (arith, inside, here)) h1)
  ]
