-- ===== src/Debugger/Script/Methods.antt =====
-- Over a system in which no call fails, each method of MachProcess.cpp that the protocol allows
-- returns.
use debug_learning.Prelude.{
  ℕ, ◌<◌, ◌^◌, ◌≡◌, ◌≢◌, refl, List, [], ◌∷◌, ◌++◌, true, false, Option, arith,
}
use debug_learning.Sdk.{sigstop}
use debug_learning.DnbError.{clear}
use debug_learning.Outcome.{Outcome, returned, thrown, aborted, endless}
use debug_learning.Exception.Message.{Message, reply}
use debug_learning.Task
use debug_learning.Task.Starting.{start_exception_thread, shut_down_exception_thread}
use debug_learning.Task.Stepping.{enable_single_step}
use debug_learning.Vm.Memory.Ending.{write-Ends}
use debug_learning.Process
use debug_learning.Process.Access
use debug_learning.Process.{attach, signal, reply_each, deliver, spin, begin_step, single_step}
use debug_learning.Process.Access.{read_each, read_register}
use debug_learning.Process.Method.{
  MachProcess, Status, detach, running, stop, ProcessCalls, Action, proceed, kept_task,
}
use debug_learning.Process.Following.{reply_each-same}
use debug_learning.Process.Monitor.Bundling.{deliver_all}
use debug_learning.Debugger.Working.{
  Works, start-IsStarted, enable-Returns, disable-Returns, reply-Returns, resume-zero,
  shut_down-IsClosed, read-IsSome,
}

-- The method returned, with an object for which `P` holds.
abbrev pub Reaches : {W A : Type 0} → (MachProcess → Type 0) → Outcome A × MachProcess × W → Type 0
Reaches P (returned a, p, w) = P p
Reaches P (thrown c, p, w) = ⊥
Reaches P (aborted, p, w) = ⊥
Reaches P (endless, p, w) = ⊥

pub Reaches-proceed :
    {W A B : Type 0} (P Q : MachProcess → Type 0) (f : A → Action W B) (o : Outcome A)
    (p : MachProcess) (w : W)
    → Reaches P (o, p, w)
    → ((a : A) → P p → Reaches Q (f a p w))
    → Reaches Q (proceed f o p w)
Reaches-proceed P Q f (returned a) p w h next = next a h
Reaches-proceed P Q f (thrown c) p w h next = elim h [ ]
Reaches-proceed P Q f aborted p w h next = elim h [ ]
Reaches-proceed P Q f endless p w h next = elim h [ ]

-- The process `pid` with its task and the status `s`, with no single step asked for.
abbrev pub IsLive : ℕ → Status → MachProcess → Type 0
IsLive pid s p = (p.status ≡ s) × (p.task.task ≢ 0) × (p.pid ≡ pid) × (p.single_step ≡ false)

module _ {W : Type 0} (k : ProcessCalls W) (pid : ℕ) (works : Works k pid) where
  pub attach-Reaches :
      (ignored : List ℕ) (p : MachProcess) (w : W)
      → p.status ≡ detach
      → p.task.task ≡ 0
      → p.single_step ≡ false
      → Reaches (IsLive pid stop) (attach k pid ignored p w)
  unfolding attach
  attach-Reaches ignored p w hs ht hf =
      let (pgid, w1) = k.getpgid pid w in
      let (o, w2) =
        start_exception_thread k.tasks k.ports k.exc_mask_all pid ignored clear p.task w1 in
      ground (
        arith,
        works.has_pid,
        works.group w,
        start-IsStarted k pid works ignored p.task w1,
        works.attaches w2,
      )

  pub deliver-Reaches :
      (m : Message) (s : Status) (p : MachProcess) (w : W)
      → p.status ≡ s
      → p.task.task ≢ 0
      → p.pid ≡ pid
      → Reaches (IsLive pid s) (deliver k m p w)
  unfolding deliver
  deliver-Reaches m s p w hs ht hp =
      let (kr, w1) = Task.suspend k.tasks p.task w in
      ground (arith, disable-Returns k pid works p.task w, disable-Returns k pid works p.task w1)

  reply_each-Returns :
      (ms : List Message) (p : MachProcess) (w : W)
      → p.pid ≡ pid
      → Reaches (λ q. q ≡ p) (reply_each k ms p w)
  unfolding reply_each
  reply_each-Returns [] p w h = refl
  reply_each-Returns (m ∷ ms) p w h =
      let (o, w1) = reply k.messages p.task.task p.pid 0 m w in
      ground (arith, reply-Returns k pid works p.task.task 0 m w, reply_each-Returns ms p w1 h)

  pub resume-Reaches :
      (p : MachProcess) (w : W)
      → IsLive pid stop p
      → Reaches (IsLive pid running) (Process.resume k p w)
  unfolding Process.resume
  resume-Reaches p w h =
      let (o, p1, w1) = reply_each k p.exception_messages p w in
      ground (
        arith,
        reply_each-Returns p.exception_messages p w h.2,
        reply_each-same k p.exception_messages p w,
        resume-zero k pid works p.task w1 h.1,
      )

  pub stop-Reaches :
      (p : MachProcess) (w : W)
      → IsLive pid running p
      → Reaches (IsLive pid stop) (Process.stop k p w)
  unfolding Process.stop
  stop-Reaches p w h = ground (arith, works.kills w)

  pub deliver_all-Reaches :
      (ms : List Message) (s : Status) (p : MachProcess) (w : W)
      → IsLive pid s p
      → Reaches (IsLive pid s) (deliver_all k ms p w)
  deliver_all-Reaches [] s p w h = h
  deliver_all-Reaches (m ∷ ms) s p w h =
      let (o, p1, w1) = deliver k m p w in
      Reaches-proceed (IsLive pid s) _ (λ a. deliver_all k ms) o p1 w1
        (deliver-Reaches m s p w h.0 h.1 h.2) (λ a live. deliver_all-Reaches ms s p1 w1 live)

  begin_step-Reaches :
      (p : MachProcess) (w : W)
      → IsLive pid stop p
      → Reaches
          (λ q. (q.status ≡ running) × (q.task.task ≢ 0) × (q.pid ≡ pid) × (q.single_step ≡ true))
          (begin_step k p w)
  unfolding begin_step Process.resume
  begin_step-Reaches p w h =
      let p1 = record p { single_step = true } in
      let (o1, w1) = enable_single_step k.threads p.task w in
      let (o, p2, w2) = reply_each k p.exception_messages p1 w1 in
      ground (
        arith,
        enable-Returns k pid works p.task w,
        reply_each-Returns p.exception_messages p1 w1 h.2,
        reply_each-same k p.exception_messages p1 w1,
        resume-zero k pid works p.task w2 h.1,
      )

  spin-low :
      (ms : List Message) (p : MachProcess) (w : W)
      → p.single_step ≡ false
      → Reaches (λ q. q ≡ p) (spin k ms p w)
  unfolding spin
  spin-low [] p w h = rw h refl
  spin-low (m ∷ ms) p w h = rw h refl

  spin-Reaches :
      (m : Message) (ms : List Message) (p : MachProcess) (w : W)
      → p.status ≡ running
      → p.task.task ≢ 0
      → p.pid ≡ pid
      → p.single_step ≡ true
      → Reaches (IsLive pid running) (spin k (m ∷ ms) p w)
  unfolding spin
  spin-Reaches m ms p w hs ht hp hf =
      let (o, p1, w1) = deliver k m p w in
      ground (arith, deliver-Reaches m running p w hs ht hp, spin-low ms p1 w1)

  -- A single step during which a message arrives.
  pub single_step-Reaches :
      (m : Message) (ms : List Message) (p : MachProcess) (w : W)
      → IsLive pid stop p
      → Reaches (IsLive pid stop) (single_step k (m ∷ ms) p w)
  unfolding single_step
  single_step-Reaches m ms p w h =
      let (o, p1, w1) = begin_step k p w in
      ground (arith, begin_step-Reaches p w h, spin-Reaches m ms p1 w1)

  pub read_memory-Reaches :
      (a size : ℕ) (p : MachProcess) (w : W)
      → size < 2 ^ 64
      → IsLive pid stop p
      → Reaches (IsLive pid stop) (Access.read_memory k false a size p w)
  unfolding Access.read_memory Task.read_memory
  read_memory-Reaches a size p w hs h =
      ground (arith, read-IsSome k pid works p.task.task a size p.task.vm_memory w hs)

  pub write_memory-Reaches :
      (a size : ℕ) (bytes : Option (List ℕ)) (p : MachProcess) (w : W)
      → size < 2 ^ 32
      → IsLive pid stop p
      → Reaches (IsLive pid stop) (Access.write_memory k a size bytes p w)
  unfolding Access.write_memory Task.write_memory
  write_memory-Reaches a size bytes p w hs h =
      ground (arith, write-Ends k.vm p.task.task a size bytes p.task.vm_memory w hs)

  read_each-Reaches :
      (ts : List ℕ) (rs : List (List ℕ)) (p : MachProcess) (w : W)
      → Reaches (λ q. q ≡ p) (read_each k ts rs p w)
  unfolding read_each
  read_each-Reaches [] rs p w = refl
  read_each-Reaches (t ∷ ts) rs p w =
      let (kr, gpr, w') = k.thread_get_registers t w in
      ground (arith, works.registers t w, read_each-Reaches ts (rs ++ (gpr ∷ [])) p w')

  pub read_register-Reaches : (p : MachProcess) (w : W) → Reaches (λ q. q ≡ p) (read_register k p w)
  unfolding read_register
  read_register-Reaches p w =
      let (kr, ts, w') = k.threads.task_threads p.task.task w in
      ground (arith, works.threads p.task.task w, read_each-Reaches ts [] p w')

  pub detach-Reaches :
      (p : MachProcess) (w : W)
      → IsLive pid running p
      → Reaches (λ q. q.status ≡ detach) (Process.detach k p w)
  unfolding Process.detach
  detach-Reaches p w h =
      let w1 = (k.kill p.pid sigstop w).1 in
      let (o, w2) = shut_down_exception_thread k.tasks k.ports k.exc_mask_all p.task w1 in
      let (o', t) = kept_task p.task o in
      let w3 = (k.ptrace_detach p.pid w2).1 in
      ground (
        arith,
        works.kills w,
        shut_down-IsClosed k pid works p.task w1,
        works.detaches w2,
        resume-zero k pid works t w3,
      )
