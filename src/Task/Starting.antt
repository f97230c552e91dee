-- ===== src/Task/Starting.antt =====
-- `StartExceptionThread` and `ShutDownExcecptionThread` of MachTask.cpp.
pub mod Laws
pub mod Returning
pub mod Taking
pub mod Ignored
pub mod Sample
mod Tests
use debug_learning.Prelude.{
  ℕ, Bool, true, false, Option, some, List, [], ◌∷◌, ◌==◌, bit_and, not32, if◌then◌else◌,
}
use debug_learning.DnbError.{DnbError, Flavor, assign, set_error, set_error_string, success, fail}
use debug_learning.Exception.Ports.{PortInfo, PortCalls, save, restore}
use debug_learning.Outcome.{Outcome, returned, aborted}
use debug_learning.Task.{MachTask, TaskCalls, is_valid, task_port_for_process_id}

-- `for (mask : ignored_exceptions) m_exc_port_info.mask = m_exc_port_info.mask & ~mask`
unfoldable pub remove_ignored : List ℕ → ℕ → ℕ
remove_ignored [] mask = mask
remove_ignored (ignored ∷ rest) mask = remove_ignored rest (bit_and mask (not32 ignored))

module _ {W : Type 0} (k : TaskCalls W) (ports : PortCalls W) (exc_mask_all : ℕ) where
  -- From the loop over the ignored exceptions on.
  unfoldable pub set_port_and_start :
      List ℕ → ℕ → MachTask → W → Outcome (Bool × DnbError × MachTask) × W
  unfolding remove_ignored
  set_port_and_start ignored task t w =
      let mask = remove_ignored ignored t.exc_port_info.mask in
      let t1 = record t { exc_port_info = record t.exc_port_info { mask = mask } } in
      let (kr1, w1) = k.set_exception_port task mask t.exception_port w in
      let (kr2, thread, w2) = k.pthread_create t.exception_thread w1 in
      if fail (assign kr1) then (aborted, w1) else (
        returned (success (assign kr2), assign kr2, record t1 { exception_thread = thread }),
        w2,
      )

  -- From `SaveExceptionPortInfo` on; `e` is the value of `err`.
  unfoldable pub save_and_start :
      List ℕ → ℕ → DnbError → MachTask → W → Outcome (Bool × DnbError × MachTask) × W
  unfolding set_port_and_start
  save_and_start ignored task e t w =
      let (status, p, w') = save ports exc_mask_all t.task t.exc_port_info w in
      let t' = record t { exc_port_info = p } in
      if p.mask == 0
      then (returned (false, set_error_string (some "failed to get exception port info") e, t'), w')
      else set_port_and_start ignored task t' w'

  -- `StartExceptionThread`, with the id of the process and the value that `err` has.
  unfoldable pub start_exception_thread :
      ℕ → List ℕ → DnbError → MachTask → W → Outcome (Bool × DnbError × MachTask) × W
  unfolding save_and_start
  start_exception_thread pid ignored e t w =
      let (task, t1, w1) = task_port_for_process_id k pid false t w in
      let (valid, w2) = is_valid k task w1 in
      let (kr3, port, w3) = k.mach_port_allocate t1.exception_port w2 in
      let (kr4, w4) = k.mach_port_insert_right port w3 in
      if valid
      then if fail (assign kr3)
        then (aborted, w3)
        else if fail (assign kr4)
        then (aborted, w4)
        else save_and_start ignored task (assign kr4) (record t1 { exception_port = port }) w4
      else (returned (false, e, t1), w2)

  -- `ShutDownExcecptionThread`
  unfoldable pub shut_down_exception_thread : MachTask → W → Outcome (ℕ × MachTask) × W
  shut_down_exception_thread t w =
      let (status, p, w1) = restore ports t.task t.exc_port_info w in
      let t1 = record t { exc_port_info = p; exception_port = 0 } in
      let (kr2, w2) = k.pthread_cancel t.exception_thread w1 in
      let (kr3, w3) = k.pthread_join t.exception_thread w2 in
      let (kr4, w4) = k.mach_port_deallocate t.exception_port w3 in
      if fail (set_error kr2 Flavor.posix)
      then (aborted, w2)
      else if fail (set_error kr3 Flavor.posix)
      then (aborted, w3)
      else (returned ((assign kr4).err, t1), w4)
