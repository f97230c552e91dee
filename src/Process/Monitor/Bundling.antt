-- ===== src/Process/Monitor/Bundling.antt =====
-- A burst of exception messages: `ExceptionMessageReceived` of MachProcess.cpp suspends the task
-- for the first, and `Resume` takes that back.
use Prim.{Unit, tt}
use debug_learning.Prelude.{
  ℕ, ◌+◌, ◌-◌, ◌^◌, ◌<◌, ◌≡◌, refl, sym, ◌∙◌, ap, subst, ◌==◌, Bool, true, false, List, [], ◌∷◌,
  ◌++◌, append_assoc, append-nil, arith, u32, if◌then◌else◌,
}
use debug_learning.Exception.Data.{soft_signal}
use debug_learning.Exception.Message.{Message, reply, no_pid}
use debug_learning.Task
use debug_learning.Task.{MachTask}
use debug_learning.Task.Control.{CountLaws, resume-count}
use debug_learning.Task.Stepping.{disable_single_step, step_threads, without_step, DebugState}
use debug_learning.Process
use debug_learning.Process.{deliver, reply_each, reply_to_all_exceptions}
use debug_learning.Process.Method.{MachProcess, Status, ProcessCalls, Action, pure, ◌>>◌}
use debug_learning.Process.Following.{reply_each-same}
use debug_learning.Process.Monitor.Ensuring.{Ensures, Ensures-proceed, Ensures-map}

-- The kernel keeps the suspend counts as documented, and changes no count in the calls that are
-- about other things.
pub record BundleLaws {W : Type 0} (k : ProcessCalls W) (count : W → ℕ → ℕ) : Type 0 where
  pub counts : CountLaws k.tasks count
  pub threads_keep : (task x : ℕ) (w : W) → count (k.threads.task_threads task w).2 x ≡ count w x
  pub get_keeps :
      (thread x : ℕ) (w : W) → count (k.threads.thread_get_state thread w).3 x ≡ count w x
  pub set_keeps :
      (thread n x : ℕ) (d : DebugState) (w : W)
      → count (k.threads.thread_set_state thread d n w).1 x ≡ count w x
  pub send_keeps : (m : _) (n x : ℕ) (w : W) → count (k.messages.send_msg m n w).1 x ≡ count w x
  pub update_keeps :
      (pid thread signal x : ℕ) (w : W)
      → count (k.messages.ptrace_thupdate pid thread signal w).1 x ≡ count w x
  pub pid_keeps :
      (task pid x : ℕ) (w : W) → count (k.messages.pid_for_task task pid w).2 x ≡ count w x

module _ {W : Type 0} (k : ProcessCalls W) where
  -- The messages of the list arrive one after the other.
  abbrev pub deliver_all : List Message → Action W Unit
  deliver_all [] = pure tt
  deliver_all (m ∷ ms) = do deliver k m; deliver_all ms

abbrev pub is_nil : {A : Type 0} → List A → Bool
is_nil [] = true
is_nil (x ∷ xs) = false

-- What `task_suspend`, called for the task, would add to its suspend count.
abbrev pub one_if_suspended : {W : Type 0} → ProcessCalls W → MachProcess → W → ℕ
one_if_suspended k p w = if u32 (k.tasks.task_suspend p.task.task w).0 == 0 then 1 else 0

-- `ms` was added to the messages, and `n` to the suspend count.
abbrev pub Added :
    {W : Type 0} → (W → ℕ → ℕ) → List Message → ℕ → MachProcess → W → MachProcess → W → Type 0
Added count ms n p w p' w' =
    (p'.exception_messages ≡ p.exception_messages ++ ms)
    × (count w' p.task.task ≡ count w p.task.task + n)
    × (p'.task ≡ p.task)
    × (p'.status ≡ p.status)

pub is_nil-append : {A : Type 0} (xs : List A) (x : A) → is_nil (xs ++ (x ∷ [])) ≡ false
is_nil-append [] x = refl
is_nil-append (y ∷ xs) x = refl

Added-append :
    {W : Type 0} (count : W → ℕ → ℕ) (m : Message) (ms : List Message) (n : ℕ)
    (p p1 p2 : MachProcess) (w w1 w2 : W)
    → Added count (m ∷ []) n p w p1 w1
    → Added count ms 0 p1 w1 p2 w2
    → Added count (m ∷ ms) n p w p2 w2
Added-append count m ms n p p1 p2 w w1 w2 (em, ec, et, es) (fm, fc, ft, fs) = (
  fm ∙ ap (λ l. l ++ ms) em ∙ append_assoc p.exception_messages (m ∷ []) ms,
  omega
      (arith, ap (λ (t : MachTask). count w2 t.task) et, ap (λ (t : MachTask). count w1 t.task) et),
  ft ∙ et,
  fs ∙ es,
)

module _ {W : Type 0} (k : ProcessCalls W) (count : W → ℕ → ℕ) (laws : BundleLaws k count) where
  pub step_threads-count :
      (change : DebugState → DebugState) (ts : List ℕ) (x : ℕ) (w : W)
      → count (step_threads k.threads change ts w).1 x ≡ count w x
  unfolding step_threads
  step_threads-count change [] x w = refl
  step_threads-count change (t ∷ ts) x w =
      let (kr1, dbg, n, w1) = k.threads.thread_get_state t w in
      let (kr2, w2) = k.threads.thread_set_state t (change dbg) n w1 in
      ground (
        arith,
        laws.get_keeps t x w,
        laws.set_keeps t n x (change dbg) w1,
        step_threads-count change ts x w2,
      )

  disable-count :
      (t : MachTask) (x : ℕ) (w : W) → count (disable_single_step k.threads t w).1 x ≡ count w x
  unfolding disable_single_step
  disable-count t x w =
      let (kr, ts, w1) = k.threads.task_threads t.task w in
      ground (arith, laws.threads_keep t.task x w, step_threads-count without_step ts x w1)

  pub deliver-Added :
      (m : Message) (p : MachProcess) (w : W)
      → Ensures
          (Added count
            (m ∷ [])
            (if is_nil p.exception_messages then one_if_suspended k p w else 0)
            p
            w)
          (deliver k m p w)
  unfolding deliver Task.suspend
  deliver-Added m p w =
      let (kr, w1) = k.tasks.task_suspend p.task.task w in
      ground (
        arith,
        laws.counts.suspend_lem p.task.task w,
        disable-count p.task p.task.task w,
        disable-count p.task p.task.task w1,
      )

  -- The first of several messages, and the others.
  more :
      (m : Message) (ms : List Message) (n : ℕ) (p : MachProcess) (w : W)
      → Ensures (Added count (m ∷ []) n p w) (deliver k m p w)
      → ((p1 : MachProcess) (w1 : W)
          → p1.exception_messages ≡ p.exception_messages ++ (m ∷ [])
          → Ensures (Added count ms 0 p1 w1) (deliver_all k ms p1 w1))
      → Ensures (Added count (m ∷ ms) n p w) (deliver_all k (m ∷ ms) p w)
  more m ms n p w one rest =
      let (o, p1, w1) = deliver k m p w in
      Ensures-proceed (Added count (m ∷ []) n p w) _ (λ a. deliver_all k ms) o p1 w1 one
        (λ a first.
          let (o2, p2, w2) = deliver_all k ms p1 w1 in
          Ensures-map _ _ o2 p2 w2 (Added-append count m ms n p p1 p2 w w1 w2 first)
            (rest p1 w1 first.0))

  deliver_all-Added :
      (ms : List Message) (p : MachProcess) (w : W)
      → is_nil p.exception_messages ≡ false
      → Ensures (Added count ms 0 p w) (deliver_all k ms p w)
  deliver_all-Added [] p w h = (sym (append-nil p.exception_messages), omega arith, refl, refl)
  deliver_all-Added (m ∷ ms) p w h =
      more m ms 0 p w (rw h at (deliver-Added m p w))
        (λ p1 w1 e. deliver_all-Added ms p1 w1 (rw e (is_nil-append p.exception_messages m)))

  -- A burst of messages that finds none waiting suspends the task once, for the first of them, where
  -- the kernel does that, and keeps them in the order of arrival.
  pub burst-Added :
      (m : Message) (ms : List Message) (p : MachProcess) (w : W)
      → p.exception_messages ≡ []
      → Ensures (Added count (m ∷ ms) (one_if_suspended k p w) p w) (deliver_all k (m ∷ ms) p w)
  burst-Added m ms p w h =
      let n = one_if_suspended k p w in
      more m ms n p w
        (subst (λ b. Ensures (Added count (m ∷ []) (if b then n else 0) p w) (deliver k m p w))
          (ap is_nil h) (deliver-Added m p w))
        (λ p1 w1 e. deliver_all-Added ms p1 w1 (rw e (is_nil-append p.exception_messages m)))

  reply-count :
      (task pid signal x : ℕ) (m : Message) (w : W)
      → count (reply k.messages task pid signal m w).1 x ≡ count w x
  unfolding reply
  reply-count task pid signal x m w =
      let d = m.state in
      let (kr, pid', w1) = k.messages.pid_for_task d.task_port no_pid w in
      let w2 = (k.messages.ptrace_thupdate pid d.thread_port signal w).1 in
      let w3 = (k.messages.ptrace_thupdate pid' d.thread_port (soft_signal d) w1).1 in
      let n = m.reply_msg.msgh_size in
      ground (
        arith,
        laws.send_keeps m.reply_msg n x w,
        laws.send_keeps m.reply_msg n x w2,
        laws.send_keeps m.reply_msg n x w3,
        laws.update_keeps pid d.thread_port signal x w,
        laws.update_keeps pid' d.thread_port (soft_signal d) x w1,
        laws.pid_keeps d.task_port no_pid x w,
      )

  pub reply_each-count :
      (ms : List Message) (x : ℕ) (p : MachProcess) (w : W)
      → count (reply_each k ms p w).2 x ≡ count w x
  unfolding reply_each
  reply_each-count [] x p w = refl
  reply_each-count (m ∷ ms) x p w = ground (
    arith,
    reply-count p.task.task p.pid 0 x m w,
    reply_each-count ms x p (reply k.messages p.task.task p.pid 0 m w).1,
  )

  resume-word : (t : MachTask) (w : W) → (Task.resume k.tasks t w).0 < 2 ^ 32
  unfolding Task.resume Task.basic_info
  resume-word t w = ground arith

  -- `Resume` replies to all messages, and takes one from the suspend count.
  pub resume-Ensures :
      (p : MachProcess) (w : W)
      → Ensures
          (λ p' w'.
            (p'.exception_messages ≡ [])
            × (p'.status ≡ Status.running)
            × (count w' p.task.task ≡ count w p.task.task - 1)
            × (p'.task ≡ p.task))
          (Process.resume k p w)
  unfolding Process.resume
  resume-Ensures p w =
      let ms = p.exception_messages in
      let (o, p1, w1) = reply_each k ms p w in
      ground (
        arith,
        reply_each-same k ms p w,
        reply_each-count ms p.task.task p w,
        resume-count k.tasks count laws.counts p.task w1,
        resume-word p.task w1,
      )

  -- Over a kernel that keeps the suspend counts as documented, and changes none in a call about
  -- something else: a burst of messages of which none was waiting before, and then `Resume`. Where
  -- they return, no message waits, and the process runs. The suspend count is again what it was
  -- before the burst if `task_suspend` succeeded for the first message; if it failed, which nobody
  -- notices, the count is one less, but not below 0.
  pub resume-burst :
      (m : Message) (ms : List Message) (p : MachProcess) (w : W)
      → p.exception_messages ≡ []
      → Ensures
          (λ p' w'.
            (p'.exception_messages ≡ [])
            × (p'.status ≡ Status.running)
            × (count w' p.task.task ≡ (
                if u32 (k.tasks.task_suspend p.task.task w).0 == 0
                then count w p.task.task
                else count w p.task.task - 1)))
          ((do deliver_all k (m ∷ ms); Process.resume k) p w)
  resume-burst m ms p w h =
      let (o, p1, w1) = deliver_all k (m ∷ ms) p w in
      Ensures-proceed (Added count (m ∷ ms) (one_if_suspended k p w) p w) _ (λ a. Process.resume k)
        o p1 w1 (burst-Added m ms p w h)
        (λ a (em, ec, et, es).
          let (o2, p2, w2) = Process.resume k p1 w1 in
          Ensures-map _ _ o2 p2 w2
            (λ (fm, fs, fc, ft).
              let c1 = ap (λ (t : MachTask). count w1 t.task) et in
              let c2 = ap (λ (t : MachTask). count w2 t.task) et in
              (fm, fs, ground (arith, c1, c2, fc, ec)))
            (resume-Ensures p1 w1))
