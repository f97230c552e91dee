-- ===== src/Task/Starting/Taking.antt =====
-- After `StartExceptionThread` of MachTask.cpp the exceptions that were asked for go to the debugger.
use Prim.{Unit, tt}
use debug_learning.Prelude.{
  ℕ, ◌≡◌, Bool, true, false, List, ◌==◌, arith, u32, Bool-cases, inl, inr, ◌∙◌, subst,
}
use debug_learning.Prelude.Bits.{bit}
use debug_learning.DnbError.{DnbError, assign, success, fail}
use debug_learning.Exception.Ports.{PortCalls, save}
use debug_learning.Outcome.{Outcome, returned, thrown, aborted, endless}
use debug_learning.Task.{MachTask, TaskCalls, is_valid, task_port_for_process_id}
use debug_learning.Task.Starting.{
  remove_ignored, set_port_and_start, save_and_start, start_exception_thread,
}
use debug_learning.Task.Starting.Laws.{task_port-kept}

-- A port that is set for a mask handles its exceptions in the way `given` says, and the start of a
-- thread changes no handler.
pub record TakingLaws {W : Type 0} (k : TaskCalls W) (handler : W → ℕ → ℕ → ℕ × ℕ × ℕ)
    (given : ℕ → ℕ × ℕ × ℕ) : Type 0 where
  pub installs :
      (t mask port b : ℕ) (w : W)
      → u32 (k.set_exception_port t mask port w).0 ≡ 0
      → bit b mask ≡ 1
      → handler (k.set_exception_port t mask port w).1 t b ≡ given port
  pub create_keeps : (x t b : ℕ) (w : W) → handler (k.pthread_create x w).2 t b ≡ handler w t b

module _ {W : Type 0} (k : TaskCalls W) (ports : PortCalls W) (exc_mask_all : ℕ)
    (handler : W → ℕ → ℕ → ℕ × ℕ × ℕ) (given : ℕ → ℕ × ℕ × ℕ) (laws : TakingLaws k handler given)
    (b : ℕ) where
  -- Exceptions of the bit `b` go to the port of the object, where its mask has the bit.
  abbrev pub IsTaken : MachTask → W → Type 0
  IsTaken t w = bit b t.exc_port_info.mask ≡ 1 → handler w t.task b ≡ given t.exception_port

  abbrev pub HasTaken : Outcome (Bool × DnbError × MachTask) × W → Type 0
  HasTaken (returned (true, e, t), w) = IsTaken t w
  HasTaken (returned (false, e, t), w) = Unit
  HasTaken (thrown c, w) = Unit
  HasTaken (aborted, w) = Unit
  HasTaken (endless, w) = Unit

  set_port_and_start-HasTaken :
      (ms : List ℕ) (t : MachTask) (w : W)
      → HasTaken (set_port_and_start k ports exc_mask_all ms t.task t w)
  unfolding set_port_and_start
  set_port_and_start-HasTaken ms t w =
      let mask = remove_ignored ms t.exc_port_info.mask in
      let (kr1, w1) = k.set_exception_port t.task mask t.exception_port w in
      let (kr2, thread, w2) = k.pthread_create t.exception_thread w1 in
      elim (Bool-cases (fail (assign kr1))) [
        | inl bad ↦ rw bad tt
        | inr ok ↦ rw ok (elim (Bool-cases (success (assign kr2))) [
          | inl made ↦ rw made (λ has.
              laws.create_keeps t.exception_thread t.task b w1
              ∙ laws.installs t.task mask t.exception_port b w (ground (arith, ok)) has)
          | inr failed ↦ rw failed tt
        ])
      ]

  save_and_start-HasTaken :
      (ms : List ℕ) (e : DnbError) (t : MachTask) (w : W)
      → HasTaken (save_and_start k ports exc_mask_all ms t.task e t w)
  unfolding save_and_start
  save_and_start-HasTaken ms e t w =
      let (status, p, w') = save ports exc_mask_all t.task t.exc_port_info w in
      elim (Bool-cases (p.mask == 0)) [
        | inl empty ↦ rw empty tt
        | inr asked ↦ rw asked (set_port_and_start-HasTaken ms (record t { exc_port_info = p }) w')
      ]

  pub start-HasTaken :
      (pid : ℕ) (ms : List ℕ) (e : DnbError) (t : MachTask) (w : W)
      → HasTaken (start_exception_thread k ports exc_mask_all pid ms e t w)
  unfolding start_exception_thread
  start-HasTaken pid ms e t w =
      let (task, t1, w1) = task_port_for_process_id k pid false t w in
      let (valid, w2) = is_valid k task w1 in
      let (kr3, port, w3) = k.mach_port_allocate t1.exception_port w2 in
      let (kr4, w4) = k.mach_port_insert_right port w3 in
      elim (Bool-cases valid) [
        | inr gone ↦ rw gone tt
        | inl there ↦ rw there (elim (Bool-cases (fail (assign kr3))) [
          | inl bad ↦ rw bad tt
          | inr ok ↦ rw ok (elim (Bool-cases (fail (assign kr4))) [
            | inl bad ↦ rw bad tt
            | inr ok' ↦ rw ok' (
                subst
                  (λ x. HasTaken (
                    save_and_start k ports exc_mask_all ms x (assign kr4)
                      (record t1 { exception_port = port }) w4))
                  (task_port-kept k ports exc_mask_all pid t w)
                  (save_and_start-HasTaken ms (assign kr4) (record t1 { exception_port = port })
                    w4))
          ])
        ])
      ]
