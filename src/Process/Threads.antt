-- ===== src/Process/Threads.antt =====
-- The main thread and the exception thread of MachProcess.cpp and MachTask.cpp side by side: the
-- steps of both, in any order, and what holds after each of them.
--
-- A method of MachProcess is one step of the main thread, but for `Attach`, during which the
-- exception thread starts, and `SingleStep`, which has a step for each of its statements: it asks
-- for the step, sets the bits of the threads, resumes, and waits. `Detach` joins the exception
-- thread, which then has ended. A method that throws ends the main thread's part; for `Attach`, which
-- throws with the exception thread started, this is a step, after which that thread goes on alone.
pub mod Safety
use Prim.{Unit, tt}
use debug_learning.Prelude.{ℕ, Bool, true, false, List, ◌≡◌}
use debug_learning.Outcome.{Cause, returned, thrown}
use debug_learning.Process
use debug_learning.Process.{begin_attach, finish_attach, ask_step, enable_step}
use debug_learning.Process.Method.{MachProcess, Status, ProcessCalls}
use debug_learning.Process.Following.{
  Command, attach_to, detach_from, resume_it, stop_it, step, read_at, write_at, read_registers,
  change_port, receive, run,
}
use debug_learning.Process.Monitor.{Point, top, ended, first_locals, advance}

-- Where the main thread is: between two methods; in `Attach` with the exception thread started, or
-- behind it when it threw; in `SingleStep` before `EnableSingleStep`, before `Resume`, or in the loop.
pub data Main : Type 0 where
  free : Main
  attaching : (pid : ℕ) → Main
  failed : Main
  asking enabled spinning : Main

-- `Attach` has not got to its end.
abbrev pub is_attaching : Main → Bool
is_attaching (attaching pid) = true
is_attaching failed = true
is_attaching m = false

-- `SingleStep` has asked for the step, and has not resumed.
abbrev pub is_starting : Main → Bool
is_starting asking = true
is_starting enabled = true
is_starting m = false

-- `SingleStep` has asked for the step, and has not returned.
abbrev pub is_stepping : Main → Bool
is_stepping spinning = true
is_stepping m = is_starting m

pub record Sys (W : Type 0) : Type 0 where
  pub main : Main
  pub point : Point
  pub proc : MachProcess
  pub world : W

-- The methods that are one step of the main thread and leave the exception thread alone.
abbrev pub is_plain : Command → Bool
is_plain (attach_to pid ignored) = false
is_plain detach_from = false
is_plain (step arriving) = false
is_plain (change_port task) = false
is_plain (receive m) = false
is_plain c = true

module _ {W : Type 0} where
  abbrev pub with_proc : Sys W → MachProcess → W → Sys W
  with_proc s p w = record s { proc = p; world = w }

  -- A new object, before anything was done.
  abbrev pub IsInitial : Sys W → Type 0
  IsInitial s =
      (s.main ≡ free)
      × (s.point ≡ ended)
      × (s.proc.status ≡ Status.detach)
      × (s.proc.single_step ≡ false)

module _ {W : Type 0} (k : ProcessCalls W) (testcancel : W → Bool × W) where
  -- the next part of a round of the exception thread
  abbrev pub thread_step : Sys W → Sys W
  thread_step s =
      let (point, p, w) = advance k testcancel s.point s.proc s.world in
      record s { point = point; proc = p; world = w }

  pub data Step (s : Sys W) (t : Sys W) : Type 0 where
    thread : t ≡ thread_step s → Step s t
    plain :
        (c : Command) (p : MachProcess) (w : W)
        → is_plain c ≡ true
        → s.main ≡ free
        → run k c s.proc s.world ≡ (returned tt, p, w)
        → t ≡ with_proc s p w
        → Step s t
    attach_1 :
        (pid : ℕ) (ignored : List ℕ) (p : MachProcess) (w : W)
        → s.main ≡ free
        → begin_attach k pid ignored s.proc s.world ≡ (returned tt, p, w)
        → t ≡ record { main = attaching pid; point = top (first_locals p); proc = p; world = w }
        → Step s t
    attach_2 :
        (pid : ℕ) (p : MachProcess) (w : W)
        → s.main ≡ attaching pid
        → finish_attach k pid s.proc s.world ≡ (returned tt, p, w)
        → t ≡ record (with_proc s p w) { main = free }
        → Step s t
    attach_throws :
        (pid : ℕ) (c : Cause) (p : MachProcess) (w : W)
        → s.main ≡ attaching pid
        → finish_attach k pid s.proc s.world ≡ (thrown c, p, w)
        → t ≡ record (with_proc s p w) { main = failed }
        → Step s t
    detach :
        (p : MachProcess) (w : W)
        → s.main ≡ free
        → Process.detach k s.proc s.world ≡ (returned tt, p, w)
        → t ≡ record (with_proc s p w) { point = ended }
        → Step s t
    step_1 :
        (p : MachProcess) (w : W)
        → s.main ≡ free
        → ask_step s.proc s.world ≡ (returned tt, p, w)
        → t ≡ record (with_proc s p w) { main = asking }
        → Step s t
    step_2 :
        (p : MachProcess) (w : W)
        → s.main ≡ asking
        → enable_step k s.proc s.world ≡ (returned tt, p, w)
        → t ≡ record (with_proc s p w) { main = enabled }
        → Step s t
    step_3 :
        (p : MachProcess) (w : W)
        → s.main ≡ enabled
        → Process.resume k s.proc s.world ≡ (returned tt, p, w)
        → t ≡ record (with_proc s p w) { main = spinning }
        → Step s t
    step_4 :
        s.main ≡ spinning
        → s.proc.single_step ≡ false
        → t ≡ record s { main = free; proc = record s.proc { status = Status.stop } }
        → Step s t

  pub data Reach (s : Sys W) : Sys W → Type 0 where
    here : Reach s s
    next : {t u : Sys W} → Reach s t → Step t u → Reach s u
