-- ===== src/Process/Racing/Losing.antt =====
-- Two orders of the statements of `Resume` and `ExceptionMessageReceived` that neither order of the
-- two methods explains.
use Prim.{Unit, tt}
use debug_learning.Prelude.{ℕ, ◌≡◌, refl, sym, ap₂, subst, ◌∙◌, false, List, [], ◌∷◌, arith}
use debug_learning.Outcome.{Outcome, returned}
use debug_learning.Exception.Message.{Message}
use debug_learning.Task
use debug_learning.Task.{MachTask}
use debug_learning.Process.{reply_each, end_step}
use debug_learning.Process.Method.{MachProcess, Status, ProcessCalls}
use debug_learning.Process.Following.{reply_each-same}
use debug_learning.Process.Monitor.Bundling.{BundleLaws, reply_each-count}
use debug_learning.Task.Control.{resume-count}
use debug_learning.Process.Racing.{
  Receiving, calling, clearing, finished, testing, stepping, settled, Choice, main_turn,
  thread_turn, Race, take_turns,
}
use debug_learning.Process.Racing.Serial.{
  after_loop, thread_turns, loop_turns, resume_turns, replying-turns,
}

-- The message arrives behind the loop and before `clear`.
abbrev pub late : List Message → List Choice
late ms = loop_turns ms (thread_turns (main_turn ∷ main_turn ∷ []))

-- The message arrives first, and is stored last.
abbrev pub early : List Message → List Choice
early ms = thread_turn ∷ resume_turns ms (thread_turn ∷ thread_turn ∷ [])

-- A stopped process without a single step, for which messages wait.
abbrev pub waiting : ℕ → MachTask → List Message → MachProcess
waiting pid t ms = record {
  status = Status.stop;
  pid = pid;
  task = t;
  exception_messages = ms;
  single_step = false;
}

module _ {W : Type 0} (k : ProcessCalls W) where
  -- Both ended well, no message waits, and the state is `w`.
  abbrev pub Dropped : W → Race W → Type 0
  Dropped w s =
      (s.main ≡ finished (returned tt))
      × (s.thread ≡ settled (returned tt))
      × (s.proc.exception_messages ≡ [])
      × (s.world ≡ w)

  module _ (pid : ℕ) (t : MachTask) (n : Message) (ms : List Message) (m : Message) where
    abbrev p : MachProcess
    p = waiting pid t (n ∷ ms)

    behind_loop-Dropped :
        (w : W)
        → (Task.resume k.tasks t w).0 ≡ 0
        → Dropped (Task.resume k.tasks t w).1 (
            take_turns k
              (thread_turns (main_turn ∷ main_turn ∷ []))
              (record { main = clearing; thread = testing m; proc = p; world = w }))
    unfolding end_step
    behind_loop-Dropped w resumes = rw resumes (refl, refl, refl, refl)

    -- Both ended well, only the new message waits, and the state is `w`.
    abbrev pub Stored : W → Race W → Type 0
    Stored w s =
        (s.main ≡ finished (returned tt))
        × (s.thread ≡ settled (returned tt))
        × (s.proc.exception_messages ≡ m ∷ [])
        × (s.world ≡ w)

    behind_loop-Stored :
        (w : W)
        → (Task.resume k.tasks t w).0 ≡ 0
        → Stored (Task.resume k.tasks t w).1 (
            take_turns k
              (main_turn ∷ main_turn ∷ thread_turn ∷ thread_turn ∷ [])
              (record { main = clearing; thread = stepping m; proc = p; world = w }))
    unfolding end_step
    behind_loop-Stored w resumes = rw resumes (refl, refl, refl, refl)

    -- The loop of replies, where all of them return.
    looped :
        (ts : List Choice) (r : Receiving) (w : W)
        → (reply_each k (n ∷ ms) p w).0 ≡ returned tt
        → take_turns k
            (loop_turns (n ∷ ms) ts)
            (record { main = calling; thread = r; proc = p; world = w })
          ≡ take_turns k ts (record {
            main = clearing;
            thread = r;
            proc = p;
            world = (reply_each k (n ∷ ms) p w).2;
          })
    looped ts r w replies =
        let w1 = (reply_each k (n ∷ ms) p w).2 in
        replying-turns k (n ∷ ms) ts r p w
        ∙ ap₂
            (λ (o : Outcome Unit) (q : MachProcess).
              take_turns k ts (record { main = after_loop k o; thread = r; proc = q; world = w1 }))
            replies (reply_each-same k (n ∷ ms) p w)

    -- Two orders in which a message arrives while `Resume` runs, with other messages waiting and the
    -- task suspended for them, and both functions return. Behind the loop and before `clear`, the
    -- message is dropped: none waits, and the calls that were made are the replies to the others and
    -- the one that resumes the task. If the test for other messages comes before `Resume` and the
    -- rest after it, the message waits, but the task runs: its suspend count is 0.
    pub resume-receive_lem :
        (count : W → ℕ → ℕ) (w : W)
        → BundleLaws k count
        → count w t.task ≡ 1
        → let (o, q, w1) = reply_each k (n ∷ ms) p w in
          o ≡ returned tt
          → (Task.resume k.tasks t w1).0 ≡ 0
          → let s : Race W = record { main = calling; thread = testing m; proc = p; world = w } in
            Dropped (Task.resume k.tasks t w1).1 (take_turns k (late (n ∷ ms)) s)
            × Stored (Task.resume k.tasks t w1).1 (take_turns k (early (n ∷ ms)) s)
            × (count (Task.resume k.tasks t w1).1 t.task ≡ 0)
    resume-receive_lem count w laws once replies resumes =
        let w1 = (reply_each k (n ∷ ms) p w).2 in
        (
          subst (Dropped (Task.resume k.tasks t w1).1)
              (sym (looped (thread_turns (main_turn ∷ main_turn ∷ [])) (testing m) w replies))
              (behind_loop-Dropped w1 resumes),
          subst (Stored (Task.resume k.tasks t w1).1)
              (sym (
                looped (main_turn ∷ main_turn ∷ thread_turn ∷ thread_turn ∷ []) (stepping m) w
                  replies))
              (behind_loop-Stored w1 resumes),
          ground (
            arith,
            resumes,
            once,
            reply_each-count k count laws (n ∷ ms) t.task p w,
            resume-count k.tasks count laws.counts t w1,
          ),
        )
