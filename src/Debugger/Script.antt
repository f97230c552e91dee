-- ===== src/Debugger/Script.antt =====
-- Over a system in which no call fails, the script of mac_ptrace/main.cpp runs to its end.
pub mod Methods
use Prim.{Unit, tt}
use Prim.Native.String.{String}
use debug_learning.Prelude.{
  codes, ℕ, zero, suc, ◌<◌, ◌^◌, ◌≡◌, ◌≢◌, refl, List, [], ◌∷◌, Bool, true, false, Option, some,
  drop, arith,
}
use debug_learning.Outcome.{Outcome}
use debug_learning.Exception.Message.{Message}
use debug_learning.Process
use debug_learning.Process.{new_process}
use debug_learning.Process.Method.{
  MachProcess, Status, detach, running, stop, Action, proceed, ◌>>=◌, ◌>>◌,
}
use debug_learning.Debugger.{script, main, run_and_stop, step_and_show, patch, addr, Arrivals}
use debug_learning.Debugger.Controller
use debug_learning.Debugger.Controller.{Host, ignores, new_task, read_pc, info, debug, show_all}
use debug_learning.Debugger.Working.{Works}
use debug_learning.Debugger.Script.Methods.{
  Reaches, Reaches-proceed, IsLive, attach-Reaches, deliver_all-Reaches, resume-Reaches,
  stop-Reaches, single_step-Reaches, read_memory-Reaches, write_memory-Reaches,
  read_register-Reaches, detach-Reaches,
}

-- A message arrives in each single step.
abbrev pub IsAnswered : Arrivals → Type 0
IsAnswered arrivals = (n : ℕ) → arrivals.stepping n ≢ []

module _ {W : Type 0} (host : Host W) (pid : ℕ) (works : Works host.calls pid) where
  controller_attach-Reaches :
      (p : MachProcess) (w : W) → Reaches (IsLive pid stop) (Controller.attach host pid p w)
  unfolding Controller.attach
  controller_attach-Reaches p w =
      Reaches-proceed (IsLive pid stop) _ _ _ _ _
        (attach-Reaches host.calls pid works ignores (new_process new_task) w refl refl refl)
        (λ a h. h)

  controller_detach-Reaches :
      (p : MachProcess) (w : W)
      → IsLive pid running p
      → Reaches (λ q. q.status ≡ detach) (Controller.detach host pid p w)
  unfolding Controller.detach
  controller_detach-Reaches p w live =
      Reaches-proceed (λ q. q.status ≡ detach) _ _ _ _ _
        (detach-Reaches host.calls pid works p w live) (λ a h. h)

  controller_resume-Reaches :
      (p : MachProcess) (w : W)
      → IsLive pid stop p
      → Reaches (IsLive pid running) (Controller.resume host pid p w)
  unfolding Controller.resume
  controller_resume-Reaches p w live =
      Reaches-proceed (IsLive pid running) _ _ _ _ _ (resume-Reaches host.calls pid works p w live)
        (λ a h. h)

  controller_stop-Reaches :
      (p : MachProcess) (w : W)
      → IsLive pid running p
      → Reaches (IsLive pid stop) (Controller.stop host pid p w)
  unfolding Controller.stop
  controller_stop-Reaches p w live =
      Reaches-proceed (IsLive pid stop) _ _ _ _ _ (stop-Reaches host.calls pid works p w live)
        (λ a h. h)

  step-Reaches :
      (ms : List Message) (p : MachProcess) (w : W)
      → ms ≢ []
      → IsLive pid stop p
      → Reaches (IsLive pid stop) (Controller.single_step host pid ms p w)
  unfolding Controller.single_step
  step-Reaches [] p w h live = absurd (h refl)
  step-Reaches (m ∷ ms) p w h live =
      Reaches-proceed (IsLive pid stop) _ _ _ _ _
        (single_step-Reaches host.calls pid works m ms p w live) (λ a h1. h1)

  controller_read-Reaches :
      (p : MachProcess) (w : W)
      → IsLive pid stop p
      → Reaches (IsLive pid stop) (Controller.read_memory host addr 12 p w)
  unfolding Controller.read_memory
  controller_read-Reaches p w live =
      Reaches-proceed (IsLive pid stop) _ _ _ _ _
        (read_memory-Reaches host.calls pid works addr 12 p w (omega arith) live) (λ a h. h)

  controller_write-Reaches :
      (bytes : Option (List ℕ)) (p : MachProcess) (w : W)
      → IsLive pid stop p
      → Reaches (IsLive pid stop) (Controller.write_memory host addr bytes 12 p w)
  unfolding Controller.write_memory
  controller_write-Reaches bytes p w live =
      Reaches-proceed (IsLive pid stop) _ _ _ _ _
        (write_memory-Reaches host.calls pid works addr 12 bytes p w (omega arith) live) (λ a h. h)

  read_pc-Reaches :
      (p : MachProcess) (w : W) → IsLive pid stop p → Reaches (IsLive pid stop) (read_pc host p w)
  unfolding read_pc
  read_pc-Reaches p w h = ground (arith, read_register-Reaches host.calls pid works p w)

  patch-Reaches :
      (p : MachProcess) (w : W) → IsLive pid stop p → Reaches (IsLive pid stop) (patch host p w)
  unfolding patch
  patch-Reaches p w live =
      Reaches-proceed (IsLive pid stop) _ _ _ _ _ (controller_read-Reaches p w live)
        (λ bytes h. controller_write-Reaches (some (0 ∷ 0 ∷ drop 2 bytes)) _ _ h)

  module _ (arrivals : Arrivals) where
    run_and_stop-Reaches :
        (n : ℕ) (p : MachProcess) (w : W)
        → IsLive pid stop p
        → Reaches (IsLive pid stop) (run_and_stop host n pid arrivals p w)
    unfolding run_and_stop
    run_and_stop-Reaches zero p w h = h
    run_and_stop-Reaches (suc n) p w h =
        Reaches-proceed (IsLive pid running) _ _ _ _ _ (controller_resume-Reaches p w h) (λ a h1.
          Reaches-proceed (IsLive pid running) _ _ _ _ _
            (deliver_all-Reaches host.calls pid works (arrivals.running n) running _ _ h1)
            (λ a h2.
              Reaches-proceed (IsLive pid stop) _ _ _ _ _ (controller_stop-Reaches _ _ h2) (λ a h3.
                Reaches-proceed (IsLive pid stop) _ _ _ _ _
                  (deliver_all-Reaches host.calls pid works (arrivals.stopped n) stop _ _ h3)
                  (λ a h4. run_and_stop-Reaches n _ _ h4))))

    step_and_show-Reaches :
        (n : ℕ) (p : MachProcess) (w : W)
        → IsAnswered arrivals
        → IsLive pid stop p
        → Reaches (IsLive pid stop) (step_and_show host n pid arrivals p w)
    unfolding step_and_show
    step_and_show-Reaches zero p w answered h = h
    step_and_show-Reaches (suc n) p w answered h =
        Reaches-proceed (IsLive pid stop) _ _ _ _ _
          (step-Reaches (arrivals.stepping n) p w (answered n) h)
          (λ a h1.
            Reaches-proceed (IsLive pid stop) _ _ _ _ _ (read_pc-Reaches _ _ h1)
              (λ a h2. step_and_show-Reaches n _ _ answered h2))

    -- The two loops, and the end.
    loops-Reaches :
        (p : MachProcess) (w : W)
        → IsAnswered arrivals
        → IsLive pid stop p
        → Reaches
            (λ q. q.status ≡ detach)
            ((do
              run_and_stop host 3 pid arrivals
              step_and_show host 100 pid arrivals
              Controller.resume host pid
              Controller.detach host pid)
              p w)
    loops-Reaches p w answered h =
        Reaches-proceed (IsLive pid stop) _ _ _ _ _ (run_and_stop-Reaches 3 p w h) (λ a h1.
          Reaches-proceed (IsLive pid stop) _ _ _ _ _ (step_and_show-Reaches 100 _ _ answered h1)
            (λ a h2.
              Reaches-proceed (IsLive pid running) _ _ _ _ _ (controller_resume-Reaches _ _ h2)
                (λ a h3. controller_detach-Reaches _ _ h3)))

    -- From the first call to the last.
    script-Reaches :
        (p : MachProcess) (w : W)
        → IsAnswered arrivals
        → Reaches (λ q. q.status ≡ detach) (script host pid arrivals p w)
    unfolding script
    script-Reaches p w answered =
        Reaches-proceed (IsLive pid stop) _ _ _ _ _ (controller_attach-Reaches p w) (λ a h1.
          Reaches-proceed (IsLive pid stop) _ _ _ _ _
            (deliver_all-Reaches host.calls pid works arrivals.attaching stop _ _ h1)
            (λ a h2.
              Reaches-proceed (IsLive pid stop) _ _ _ _ _ (patch-Reaches _ _ h2)
                (λ a h3. loops-Reaches _ _ answered h3)))

-- Over a system in which no call fails for the process that the argument names, and where a message
-- arrives in each single step, `main` returns: it meets every assert, throws nothing and does not
-- wait without end, and it leaves the process detached, whatever else arrives.
pub main-Reaches :
    {W : Type 0} (host : Host W) (arrivals : Arrivals) (arg : String) (w : W)
    → Works host.calls (host.atoi arg)
    → IsAnswered arrivals
    → Reaches (λ q. q.status ≡ detach) (main host arrivals 2 arg w)
unfolding main
main-Reaches host arrivals arg w works answered =
    script-Reaches host (host.atoi arg) works arrivals (new_process new_task) w answered
