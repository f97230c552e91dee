-- ===== src/Task/Starting/Laws.antt =====
-- Which exceptions `StartExceptionThread` of MachTask.cpp asks for, and how it ends; what
-- `ShutDownExcecptionThread` leaves.
use Prim.{Unit, tt}
use debug_learning.Prelude.{
  ℕ, ◌≤◌, ◌<◌, ◌≡◌, ◌≢◌, refl, Bool, true, false, ◌||◌, ◌⊎◌, inl, inr, List, [], ◌∷◌, ◌==◌,
  if◌then◌else◌, arith, u32, Bool-cases, bit_and, not32,
}
use debug_learning.Prelude.Bits.{bit, bit-range, bit-bit_and, ones, bit-complement}
use debug_learning.Sdk.{task_null}
use debug_learning.DnbError.{DnbError, assign, success, fail}
use debug_learning.Exception.Ports.{PortInfo, PortCalls, save}
use debug_learning.Outcome.{Outcome, returned, thrown, aborted, endless}
use debug_learning.Task.{MachTask, TaskCalls, is_valid, task_port_for_process_id}
use debug_learning.Task.Starting.{
  remove_ignored, set_port_and_start, save_and_start, start_exception_thread,
}

-- Some mask of the list has bit `i`.
abbrev pub ignores : ℕ → List ℕ → Bool
ignores i [] = false
ignores i (m ∷ ms) = bit i m == 1 || ignores i ms

-- Every mask of the list is a word of 32 bits.
abbrev pub AllFit : List ℕ → Type 0
AllFit [] = Unit
AllFit (m ∷ ms) = (m ≤ ones 32) × AllFit ms

-- The mask that is asked for has each bit of the saved mask that no ignored mask has, and no other.
pub bit-remove_ignored :
    (i : ℕ) (ms : List ℕ) (mask : ℕ)
    → i < 32
    → AllFit ms
    → bit i (remove_ignored ms mask) ≡ (if ignores i ms then 0 else bit i mask)
unfolding remove_ignored
bit-remove_ignored i [] mask lt fit = refl
bit-remove_ignored i (m ∷ ms) mask lt (fit, fits) = ground (
  arith,
  bit-remove_ignored i ms (bit_and mask (not32 m)) lt fits,
  bit-bit_and i mask (not32 m),
  bit-complement 32 i m fit lt,
  bit-range i m,
  bit-range i mask,
)

-- No bit of the mask belongs to an exception that is ignored.
abbrev pub SparesIgnored : List ℕ → ℕ → Type 0
SparesIgnored ms mask = (i : ℕ) → i < 32 → ignores i ms ≡ true → bit i mask ≡ 0

remove_ignored-SparesIgnored :
    (ms : List ℕ) (mask : ℕ) → AllFit ms → SparesIgnored ms (remove_ignored ms mask)
remove_ignored-SparesIgnored ms mask fits i lt h =
    ground (arith, h, bit-remove_ignored i ms mask lt fits)

-- How `StartExceptionThread` ends, where `err` was `e`. The three failures that it returns: the
-- task has no valid port, the ports were not saved, or there was no thread.
abbrev pub Started : List ℕ → DnbError → Outcome (Bool × DnbError × MachTask) → Type 0
Started ms e (returned (true, e', t')) =
    (e'.err ≡ 0) × (t'.task ≢ task_null) × SparesIgnored ms t'.exc_port_info.mask
Started ms e (returned (false, e', t')) =
    (e' ≡ e)
    ⊎ ((e'.err ≡ 0) × (t'.exc_port_info.mask ≡ 0))
    ⊎ ((e'.err ≢ 0) × (t'.task ≢ task_null) × SparesIgnored ms t'.exc_port_info.mask)
Started ms e (thrown e') = ⊥
Started ms e aborted = Unit
Started ms e endless = ⊥

-- How `ShutDownExcecptionThread` ends on `t`, where the release of the port answers `released`.
abbrev pub ShutDown : MachTask → ℕ → Outcome (ℕ × MachTask) → Type 0
ShutDown t released (returned (status, t')) =
    (t'.exception_port ≡ 0)
    × (t'.exc_port_info.count ≡ 0)
    × (t'.task ≡ t.task)
    × (status ≡ u32 released)
ShutDown t released (thrown e) = ⊥
ShutDown t released aborted = Unit
ShutDown t released endless = ⊥

module _ {W : Type 0} (k : TaskCalls W) (ports : PortCalls W) (exc_mask_all : ℕ) where
  set_port_and_start-Started :
      (ms : List ℕ) (e : DnbError) (task : ℕ) (t : MachTask) (w : W)
      → t.task ≢ task_null
      → AllFit ms
      → Started ms e (set_port_and_start k ports exc_mask_all ms task t w).0
  unfolding set_port_and_start
  set_port_and_start-Started ms e task t w valid fits = elim (Bool-cases (fail (assign kr1))) [
    | inl bad ↦ rw bad tt
    | inr ok ↦ rw ok (elim (Bool-cases (success (assign kr2))) [
      | inl made ↦ rw made (ground (arith, made), valid, spared)
      | inr failed ↦ rw failed (inr (inr (ground (arith, failed), valid, spared)))
    ])
  ]
    where
      mask : ℕ
      mask = remove_ignored ms t.exc_port_info.mask

      kr1 : ℕ
      kr1 = (k.set_exception_port task mask t.exception_port w).0

      kr2 : ℕ
      kr2 =
          (k.pthread_create t.exception_thread
            (k.set_exception_port task mask t.exception_port w).1).0

      spared : SparesIgnored ms mask
      spared = remove_ignored-SparesIgnored ms t.exc_port_info.mask fits

  save_and_start-Started :
      (ms : List ℕ) (e e0 : DnbError) (task : ℕ) (t : MachTask) (w : W)
      → e0.err ≡ 0
      → t.task ≢ task_null
      → AllFit ms
      → Started ms e (save_and_start k ports exc_mask_all ms task e0 t w).0
  unfolding save_and_start
  save_and_start-Started ms e e0 task t w clean valid fits = elim (Bool-cases (p.mask == 0)) [
    | inl empty ↦ rw empty (inr (inl (clean, ground (arith, empty))))
    | inr asked ↦ rw asked (
        set_port_and_start-Started ms e task (record t { exc_port_info = p })
          (save ports exc_mask_all t.task t.exc_port_info w).2 valid fits)
  ]
    where
      p : PortInfo
      p = (save ports exc_mask_all t.task t.exc_port_info w).1

  -- The object keeps the port that `TaskPortForProcessID` answers.
  pub task_port-kept :
      (pid : ℕ) (t : MachTask) (w : W)
      → let (task, t', w') = task_port_for_process_id k pid false t w in t'.task ≡ task
  unfolding task_port_for_process_id
  task_port-kept pid t w = ground arith

  is_valid-not_null : (task : ℕ) (w : W) → (is_valid k task w).0 ≡ true → task ≢ task_null
  unfolding is_valid
  is_valid-not_null task w h = ground (arith, h)

  -- For ignored masks of 32 bits: where `StartExceptionThread` returns true, there is a task port,
  -- `err` is a success, and the mask that was asked for has no bit of an ignored exception. Where
  -- it returns false, `err` is as it was before; or `err` is a success still and the mask is 0,
  -- since the ports were not saved; or `err` is a failure, and the mask has no ignored bit. It
  -- throws nothing, but an assert may fail.
  pub start_exception_thread-Started :
      (pid : ℕ) (ms : List ℕ) (e : DnbError) (t : MachTask) (w : W)
      → AllFit ms
      → Started ms e (start_exception_thread k ports exc_mask_all pid ms e t w).0
  unfolding start_exception_thread
  start_exception_thread-Started pid ms e t w fits =
      elim (Bool-cases (is_valid k found.0 found.2).0) [
        | inr gone ↦ rw gone (inl refl)
        | inl valid ↦ rw valid (elim (Bool-cases (fail (assign port.0))) [
          | inl bad ↦ rw bad tt
          | inr ok ↦ rw ok (elim (Bool-cases (fail (assign right.0))) [
            | inl bad ↦ rw bad tt
            | inr ok' ↦ rw ok' (
                save_and_start-Started ms e (assign right.0) found.0
                  (record found.1 { exception_port = port.1 }) right.1 (ground (arith, ok'))
                  (rw (task_port-kept pid t w) (is_valid-not_null found.0 found.2 valid)) fits)
          ])
        ])
      ]
    where
      found : ℕ × MachTask × W
      found = task_port_for_process_id k pid false t w

      port : ℕ × ℕ × W
      port = k.mach_port_allocate found.1.exception_port (is_valid k found.0 found.2).1

      right : ℕ × W
      right = k.mach_port_insert_right port.1 port.2
