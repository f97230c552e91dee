-- ===== src/Process/Attaching.antt =====
-- `Attach` of MachProcess.cpp where `ptrace` fails: what it has started stays, and cannot be undone.
mod Tests
use Prim.{Unit, tt}
use debug_learning.Prelude.{
  ℕ, ◌≡◌, ◌≢◌, refl, Bool, true, false, List, arith, Bool-cases, inl, inr, subst, ◌∙◌, sym, ap,
  ◌/=◌,
}
use debug_learning.Prelude.Bits.{bit}
use debug_learning.DnbError.{DnbError, clear}
use debug_learning.Outcome.{Outcome, returned, thrown, aborted, endless, errno}
use debug_learning.Task.{MachTask}
use debug_learning.Task.Starting.{start_exception_thread}
use debug_learning.Task.Starting.Taking.{TakingLaws, IsTaken, HasTaken, start-HasTaken}
use debug_learning.Process
use debug_learning.Process.{is_attached, begin_attach, finish_attach, attach}
use debug_learning.Process.Method.{MachProcess, detach, ProcessCalls, proceed}
use debug_learning.Process.Monitor.Ensuring.{Ensures}

module _ {W : Type 0} (k : ProcessCalls W) (handler : W → ℕ → ℕ → ℕ × ℕ × ℕ) (given : ℕ → ℕ × ℕ × ℕ)
    (laws : TakingLaws k.tasks handler given) (b : ℕ) where
  abbrev Taken : MachTask → W → Type 0
  Taken = IsTaken k.tasks k.ports k.exc_mask_all handler given laws b

  begin_attach-Taken :
      (pid : ℕ) (ignored : List ℕ) (p : MachProcess) (w : W)
      → Ensures (λ q w'. (q.status ≡ p.status) × Taken q.task w') (begin_attach k pid ignored p w)
  unfolding begin_attach
  begin_attach-Taken pid ignored p w =
      let (pgid, w1) = k.getpgid pid w in
      ground (
        arith,
        start-HasTaken k.tasks k.ports k.exc_mask_all handler given laws b pid ignored clear p.task
            w1,
      )

  -- The end of a method that returned.
  returned-Ensures :
      {A : Type 0} (P : MachProcess → W → Type 0) (o : Outcome A) (a : A) (p : MachProcess) (w : W)
      → o ≡ returned a
      → Ensures P (o, p, w)
      → P p w
  returned-Ensures P o a p w e h = subst (λ x. Ensures P (x, p, w)) e h

  -- `Detach` of an object that is not attached fails its assert, and does nothing.
  detach-aborted :
      (p : MachProcess) (w : W) → p.status ≡ detach → Process.detach k p w ≡ (aborted, p, w)
  unfolding Process.detach
  detach-aborted p w h = rw (ap is_attached h) refl

  finish_attach-thrown :
      (pid : ℕ) (p : MachProcess) (w : W)
      → let ((r, n), w') = k.ptrace_attachexc pid w in
        r ≢ 0 → finish_attach k pid p w ≡ (thrown (errno n), p, w')
  unfolding finish_attach
  finish_attach-thrown pid p w bad =
      let ((r, n), w') = k.ptrace_attachexc pid w in
      let fails : (r /= 0) ≡ true = ground arith in rw fails refl

  -- Where `Attach` of an object that is not attached has started the exception thread and `ptrace`
  -- fails, over calls that set handlers as documented: `Attach` throws the error of `ptrace`; `Detach`
  -- then fails its assert and does nothing; and each exception that was asked for goes to the port of
  -- the debugger still.
  pub attach-stranded :
      (pid : ℕ) (ignored : List ℕ) (p : MachProcess) (w : W)
      → ((t : ℕ) (w' : W) → handler (k.ptrace_attachexc pid w').1 t b ≡ handler w' t b)
      → p.status ≡ detach
      → (begin_attach k pid ignored p w).0 ≡ returned tt
      → (k.ptrace_attachexc pid (begin_attach k pid ignored p w).2).0.0 ≢ 0
      → let (o, q, w') = attach k pid ignored p w in
        (o ≡ thrown (errno (k.ptrace_attachexc pid (begin_attach k pid ignored p w).2).0.1))
        × (Process.detach k q w' ≡ (aborted, q, w'))
        × (bit b q.task.exc_port_info.mask ≡ 1
            → handler w' q.task.task b ≡ given q.task.exception_port)
  unfolding attach
  attach-stranded pid ignored p w keeps fresh begun bad =
      let (o1, p1, w1) = begin_attach k pid ignored p w in
      let (same, taken) =
        returned-Ensures _ o1 tt p1 w1 begun (begin_attach-Taken pid ignored p w) in
      let thrown_there = finish_attach-thrown pid p1 w1 bad in
      rw begun (
        rw thrown_there
          (refl, detach-aborted p1 _ (same ∙ fresh), λ has. keeps p1.task.task w1 ∙ taken has))
