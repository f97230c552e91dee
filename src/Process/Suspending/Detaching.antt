-- ===== src/Process/Suspending/Detaching.antt =====
-- `Detach` of MachProcess.cpp does not look at the messages that wait, and what comes of that after
-- the next `Attach` of the same object.
use debug_learning.Prelude.{ℕ, ◌≡◌, ◌∙◌, ap, false, List, [], ◌∷◌, ◌++◌, arith}
use debug_learning.Exception.Message.{Message}
use debug_learning.Process
use debug_learning.Process.{attach, deliver}
use debug_learning.Process.Method.{MachProcess, ProcessCalls, ◌>>◌}
use debug_learning.Process.Monitor.Ensuring.{Ensures, Ensures-proceed, Ensures-map}
use debug_learning.Process.Monitor.Bundling.{BundleLaws, is_nil, deliver-Added}

module _ {W : Type 0} (k : ProcessCalls W) where
  abbrev SameMessages : MachProcess → MachProcess → W → Type 0
  SameMessages p p' w' = p'.exception_messages ≡ p.exception_messages

  detach-SameMessages : (p : MachProcess) (w : W) → Ensures (SameMessages p) (Process.detach k p w)
  unfolding Process.detach
  detach-SameMessages p w = ground arith

  attach-SameMessages :
      (pid : ℕ) (ignored : List ℕ) (p : MachProcess) (w : W)
      → Ensures (SameMessages p) (attach k pid ignored p w)
  unfolding attach
  attach-SameMessages pid ignored p w = ground arith

  -- Where messages wait when the process is detached, and the object attaches to a process again:
  -- they still wait, and the next message that arrives is kept behind them without a change of the
  -- suspend count, so that the task is not suspended for it.
  pub attach-detach :
      (count : W → ℕ → ℕ) (pid : ℕ) (ignored : List ℕ) (m : Message) (p : MachProcess) (w : W)
      → BundleLaws k count
      → is_nil p.exception_messages ≡ false
      → Ensures
          (λ p1 w1.
            (p1.exception_messages ≡ p.exception_messages)
            × Ensures
                (λ p2 w2.
                  (p2.exception_messages ≡ p.exception_messages ++ (m ∷ []))
                  × (count w2 p1.task.task ≡ count w1 p1.task.task))
                (deliver k m p1 w1))
          ((do Process.detach k; attach k pid ignored) p w)
  attach-detach count pid ignored m p w laws h =
      let (o, p', w') = Process.detach k p w in
      Ensures-proceed (SameMessages p) _ (λ a. attach k pid ignored) o p' w'
        (detach-SameMessages p w)
        (λ a same.
          let (o1, p1, w1) = attach k pid ignored p' w' in
          Ensures-map (SameMessages p') _ o1 p1 w1
            (λ same1.
              let waits = same1 ∙ same in
              let (o2, p2, w2) = deliver k m p1 w1 in
              (
                waits,
                Ensures-map _ _ o2 p2 w2
                    (λ (em, ec, et, es).
                      let filled = ap is_nil waits ∙ h in
                      (em ∙ ap (λ l. l ++ (m ∷ [])) waits, ground (arith, ec, filled)))
                    (deliver-Added k count laws m p1 w1),
              ))
            (attach-SameMessages pid ignored p' w'))
