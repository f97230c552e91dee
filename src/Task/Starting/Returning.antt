-- ===== src/Task/Starting/Returning.antt =====
-- `ShutDownExcecptionThread` of MachTask.cpp gives back what `StartExceptionThread` displaced: the
-- task handles its exceptions as it did before.
use Prim.{Unit, tt}
use debug_learning.Prelude.{
  ℕ, zero, suc, ◌≡◌, refl, Bool, true, false, List, [], ◌∷◌, ◌==◌, arith, u32, Bool-cases, inl, inr,
  subst, ◌∙◌, ◌||◌, ◌/=◌, bit_and, not32,
}
use debug_learning.Prelude.Bits.{bit, bit-range, bit-bit_and}
use debug_learning.Sdk.{task_null}
use debug_learning.DnbError.{DnbError, assign, success, fail, set_error, posix}
use debug_learning.Exception.Ports.{Entry, PortInfo, PortCalls, save, restore}
use debug_learning.Exception.Ports.Saving.{restore_lem, save-masked}
use debug_learning.Exception.Ports.Returning.{HandlerLaws, Says, save-Says, restore-Puts}
use debug_learning.Outcome.{Outcome, returned, thrown, aborted, endless}
use debug_learning.Task.{
  MachTask, TaskCalls, invalid_nub_process, num_retries, is_valid, try_task_for_pid,
  task_port_for_pid, task_port_for_process_id,
}
use debug_learning.Task.Starting.{
  remove_ignored, set_port_and_start, save_and_start, start_exception_thread,
  shut_down_exception_thread,
}

-- The calls around `Save` and `Restore` leave the handlers of exceptions alone, and the kernel
-- accepts each handler that is put back.
pub record GivingLaws {W : Type 0} (k : TaskCalls W) (ports : PortCalls W)
    (handler : W → ℕ → ℕ → ℕ × ℕ × ℕ) : Type 0 where
  pub handles : HandlerLaws ports handler
  pub accepts : (t : ℕ) (e : Entry) (w : W) → u32 (ports.task_set_exception_ports t e w).0 ≡ 0
  pub port_keeps : (pid x t b : ℕ) (w : W) → handler (k.task_for_pid pid x w).2 t b ≡ handler w t b
  pub sleep_keeps : (n t b : ℕ) (w : W) → handler (k.usleep n w) t b ≡ handler w t b
  pub info_keeps : (x t b : ℕ) (w : W) → handler (k.task_info x w).2 t b ≡ handler w t b
  pub allocate_keeps :
      (x t b : ℕ) (w : W) → handler (k.mach_port_allocate x w).2 t b ≡ handler w t b
  pub insert_keeps :
      (x t b : ℕ) (w : W) → handler (k.mach_port_insert_right x w).1 t b ≡ handler w t b
  pub cancel_keeps : (x t b : ℕ) (w : W) → handler (k.pthread_cancel x w).1 t b ≡ handler w t b
  pub join_keeps : (x t b : ℕ) (w : W) → handler (k.pthread_join x w).1 t b ≡ handler w t b
  pub free_keeps : (x t b : ℕ) (w : W) → handler (k.mach_port_deallocate x w).1 t b ≡ handler w t b

-- A bit of the mask that is asked for is one of the mask that was saved.
bit-remove_ignored_saved :
    (i : ℕ) (ms : List ℕ) (mask : ℕ) → bit i (remove_ignored ms mask) ≡ 1 → bit i mask ≡ 1
unfolding remove_ignored
bit-remove_ignored_saved i [] mask h = h
bit-remove_ignored_saved i (m ∷ ms) mask h = omega (
  arith,
  bit-remove_ignored_saved i ms (bit_and mask (not32 m)) h,
  bit-bit_and i mask (not32 m),
  bit-range i mask,
)

module _ {W : Type 0} (k : TaskCalls W) (ports : PortCalls W) (exc_mask_all : ℕ)
    (handler : W → ℕ → ℕ → ℕ × ℕ × ℕ) (laws : GivingLaws k ports handler) where
  try_task_for_pid-keeps :
      (n pid x t b : ℕ) (w : W) → handler (try_task_for_pid k n pid x w).1 t b ≡ handler w t b
  unfolding try_task_for_pid
  try_task_for_pid-keeps zero pid x t b w = refl
  try_task_for_pid-keeps (suc n) pid x t b w =
      let (kr, x', w') = k.task_for_pid pid x w in
      elim (Bool-cases (success (assign kr))) [
        | inl found ↦ rw found (laws.port_keeps pid x t b w)
        | inr failed ↦ rw failed (
            try_task_for_pid-keeps n pid x' t b _
            ∙ laws.sleep_keeps _ t b w'
            ∙ laws.port_keeps pid x t b w)
      ]

  task_port-keeps :
      (pid : ℕ) (t : MachTask) (x b : ℕ) (w : W)
      → handler (task_port_for_process_id k pid false t w).2 x b ≡ handler w x b
  unfolding task_port_for_process_id task_port_for_pid
  task_port-keeps pid t x b w = elim (Bool-cases (t.task == task_null || false)) [
    | inr there ↦ rw there refl
    | inl none_yet ↦ rw none_yet (elim (Bool-cases (pid /= invalid_nub_process)) [
      | inl real ↦ rw real (try_task_for_pid-keeps num_retries pid task_null x b w)
      | inr no_process ↦ rw no_process refl
    ])
  ]

  is_valid-keeps : (task x b : ℕ) (w : W) → handler (is_valid k task w).1 x b ≡ handler w x b
  unfolding is_valid
  is_valid-keeps task x b w = elim (Bool-cases (task /= task_null)) [
    | inl real ↦ rw real (laws.info_keeps task x b w)
    | inr no_task ↦ rw no_task refl
  ]

  -- Where the thread was started: what was saved says how `task` handled the exceptions `b` of the
  -- mask that was asked for.
  abbrev HasSaved : ℕ → (ℕ → ℕ × ℕ × ℕ) → Outcome (Bool × DnbError × MachTask) → Type 0
  HasSaved b before (returned (true, e, t')) =
      bit b t'.exc_port_info.mask ≡ 1
      → Says laws.handles t'.task b t'.exc_port_info (before t'.task)
  HasSaved b before (returned (false, e, t')) = Unit
  HasSaved b before (thrown c) = Unit
  HasSaved b before aborted = Unit
  HasSaved b before endless = Unit

  set_port_and_start-HasSaved :
      (b : ℕ) (before : ℕ → ℕ × ℕ × ℕ) (ms : List ℕ) (task : ℕ) (t : MachTask) (w : W)
      → (bit b t.exc_port_info.mask ≡ 1
          → Says laws.handles t.task b t.exc_port_info (before t.task))
      → HasSaved b before (set_port_and_start k ports exc_mask_all ms task t w).0
  unfolding set_port_and_start
  set_port_and_start-HasSaved b before ms task t w says =
      let mask = remove_ignored ms t.exc_port_info.mask in
      let (kr1, w1) = k.set_exception_port task mask t.exception_port w in
      let (kr2, thread, w2) = k.pthread_create t.exception_thread w1 in
      elim (Bool-cases (fail (assign kr1))) [
        | inl bad ↦ rw bad tt
        | inr ok ↦ rw ok (elim (Bool-cases (success (assign kr2))) [
          | inl made ↦ rw made (λ has.
              let was = bit-remove_ignored_saved b ms t.exc_port_info.mask has in
              let (entries, covers) = says was in (entries, λ has'. covers was))
          | inr failed ↦ rw failed tt
        ])
      ]

  save_and_start-HasSaved :
      (b : ℕ) (before : ℕ → ℕ × ℕ × ℕ) (ms : List ℕ) (task : ℕ) (e : DnbError) (t : MachTask)
      (w : W)
      → handler w t.task b ≡ before t.task
      → HasSaved b before (save_and_start k ports exc_mask_all ms task e t w).0
  unfolding save_and_start
  save_and_start-HasSaved b before ms task e t w same =
      let (status, p, w') = save ports exc_mask_all t.task t.exc_port_info w in
      elim (Bool-cases (p.mask == 0)) [
        | inl empty ↦ rw empty tt
        | inr asked ↦ rw asked (
            set_port_and_start-HasSaved b before ms task (record t { exc_port_info = p }) w'
              (λ has. subst (Says laws.handles t.task b p) same (
                save-Says laws.handles t.task b exc_mask_all t.exc_port_info w
                  (save-masked ports exc_mask_all t.task t.exc_port_info w asked))))
      ]

  start-HasSaved :
      (b pid : ℕ) (ms : List ℕ) (e : DnbError) (t : MachTask) (w : W)
      → HasSaved b (λ x. handler w x b) (start_exception_thread k ports exc_mask_all pid ms e t w).0
  unfolding start_exception_thread
  start-HasSaved b pid ms e t w =
      let (task, t1, w1) = task_port_for_process_id k pid false t w in
      let (valid, w2) = is_valid k task w1 in
      let (kr3, port, w3) = k.mach_port_allocate t1.exception_port w2 in
      let (kr4, w4) = k.mach_port_insert_right port w3 in
      let same : handler w4 t1.task b ≡ handler w t1.task b =
        laws.insert_keeps port t1.task b w3
        ∙ laws.allocate_keeps t1.exception_port t1.task b w2
        ∙ is_valid-keeps task t1.task b w1
        ∙ task_port-keeps pid t t1.task b w in
      elim (Bool-cases valid) [
        | inr gone ↦ rw gone tt
        | inl there ↦ rw there (elim (Bool-cases (fail (assign kr3))) [
          | inl bad ↦ rw bad tt
          | inr ok ↦ rw ok (elim (Bool-cases (fail (assign kr4))) [
            | inl bad ↦ rw bad tt
            | inr ok' ↦ rw ok' (
                save_and_start-HasSaved b (λ x. handler w x b) ms task (assign kr4)
                  (record t1 { exception_port = port }) w4 same)
          ])
        ])
      ]

  restore-accepted : (task : ℕ) (p : PortInfo) (w : W) → (restore ports task p w).0 ≡ 0
  restore-accepted task p w = elim (restore_lem ports task p w).0 [
    | inl (ok, _, _) ↦ ok
    | inr (i, _, bad, e, _, _) ↦ e ∙ laws.accepts task (p.entries i) _
  ]

  shut_down-keeps :
      (t : MachTask) (x b : ℕ) (w : W)
      → handler (shut_down_exception_thread k ports exc_mask_all t w).1 x b
        ≡ handler (restore ports t.task t.exc_port_info w).2 x b
  unfolding shut_down_exception_thread
  shut_down-keeps t x b w =
      let (status, p, w1) = restore ports t.task t.exc_port_info w in
      let (kr2, w2) = k.pthread_cancel t.exception_thread w1 in
      let (kr3, w3) = k.pthread_join t.exception_thread w2 in
      let cancelled = laws.cancel_keeps t.exception_thread x b w1 in
      let joined = laws.join_keeps t.exception_thread x b w2 ∙ cancelled in
      elim (Bool-cases (fail (set_error kr2 posix))) [
        | inl bad ↦ rw bad cancelled
        | inr ok ↦ rw ok (elim (Bool-cases (fail (set_error kr3 posix))) [
          | inl bad ↦ rw bad joined
          | inr ok' ↦ rw ok' (laws.free_keeps t.exception_port x b w3 ∙ joined)
        ])
      ]

  -- Over a system whose lists of handlers are true and complete, whose other calls here leave them
  -- alone, and whose kernel accepts each handler that is put back: if StartExceptionThread returned
  -- true, and later, in any state of the system, ShutDownExcecptionThread is called with the port of
  -- the task and the saved ports as they were, then the task handles each exception that was asked
  -- for as it did before the start, however that call ends.
  pub shut_down-start :
      (b pid : ℕ) (ms : List ℕ) (e e' : DnbError) (t t' t2 : MachTask) (w later : W)
      → (start_exception_thread k ports exc_mask_all pid ms e t w).0 ≡ returned (true, e', t')
      → t2.task ≡ t'.task
      → t2.exc_port_info ≡ t'.exc_port_info
      → bit b t'.exc_port_info.mask ≡ 1
      → handler (shut_down_exception_thread k ports exc_mask_all t2 later).1 t'.task b
        ≡ handler w t'.task b
  shut_down-start b pid ms e e' t t' t2 w later started at kept has =
      let says = subst (HasSaved b (λ x. handler w x b)) started (start-HasSaved b pid ms e t w) in
      shut_down-keeps t2 t'.task b later
      ∙ rw (at, kept)
          (restore-Puts laws.handles t'.task b t'.exc_port_info (handler w t'.task b) later
            (says has) has (restore-accepted t'.task t'.exc_port_info later))
