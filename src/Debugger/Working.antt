-- ===== src/Debugger/Working.antt =====
-- A system in which no call fails, and how the methods of MachTask and of `Message` then end.
use Prim.{Unit, tt}
use debug_learning.Prelude.{
  ℕ, zero, suc, ◌+◌, ◌<◌, ◌^◌, ◌≡◌, ◌≢◌, List, [], ◌∷◌, Bool, true, false, Option, some, none,
  arith, u32, length, ◌-◌, ◌≤◌, ◌++◌, add64,
}
use debug_learning.Sdk.{sigstop}
use debug_learning.DnbError.{DnbError, clear, assign}
use debug_learning.Outcome.{Outcome, returned, thrown, aborted, endless}
use debug_learning.Exception.Message.{Message, no_pid, reply}
use debug_learning.Exception.Ports.{PortInfo, Entry, save, restore}
use debug_learning.Vm.Memory.{MachVmMemory, max_bytes_left_in_page, read_loop, read}
use debug_learning.Vm.Memory.Chunks.{max_bytes_left_in_page_lem}
use debug_learning.Task
use debug_learning.Task.{MachTask, try_task_for_pid, task_port_for_pid, task_port_for_process_id}
use debug_learning.Task.Starting.{
  remove_ignored, save_and_start, start_exception_thread, shut_down_exception_thread,
}
use debug_learning.Task.Stepping.{
  DebugState, step_threads, step_all, with_step, without_step, enable_single_step,
  disable_single_step,
}
use debug_learning.Process.Method.{ProcessCalls}

-- No call fails for the process `pid`: each returns the result that is documented for success.
pub record Works {W : Type 0} (k : ProcessCalls W) (pid : ℕ) : Type 0 where
  pub has_pid : (pid ≢ 0) × (pid ≢ no_pid)
  pub group : (w : W) → (k.getpgid pid w).0 < 2 ^ 31
  pub port :
      (t : ℕ) (w : W)
      → (u32 (k.tasks.task_for_pid pid t w).0 ≡ 0) × ((k.tasks.task_for_pid pid t w).1 ≢ 0)
  pub info : (t : ℕ) (w : W) → u32 (k.tasks.task_info t w).0 ≡ 0
  pub resumes : (t : ℕ) (w : W) → u32 (k.tasks.task_resume t w).0 ≡ 0
  pub allocates : (t : ℕ) (w : W) → u32 (k.tasks.mach_port_allocate t w).0 ≡ 0
  pub inserts : (t : ℕ) (w : W) → u32 (k.tasks.mach_port_insert_right t w).0 ≡ 0
  pub sets : (t mask port : ℕ) (w : W) → u32 (k.tasks.set_exception_port t mask port w).0 ≡ 0
  pub creates : (t : ℕ) (w : W) → u32 (k.tasks.pthread_create t w).0 ≡ 0
  pub cancels : (t : ℕ) (w : W) → u32 (k.tasks.pthread_cancel t w).0 ≡ 0
  pub joins : (t : ℕ) (w : W) → u32 (k.tasks.pthread_join t w).0 ≡ 0
  pub frees : (t : ℕ) (w : W) → u32 (k.tasks.mach_port_deallocate t w).0 ≡ 0
  pub all_mask : k.exc_mask_all ≢ 0
  pub gets :
      (t mask n : ℕ) (e : ℕ → Entry) (w : W)
      → u32 (k.ports.task_get_exception_ports t mask n e w).0 ≡ 0
  pub threads : (t : ℕ) (w : W) → u32 (k.threads.task_threads t w).0 ≡ 0
  pub gets_state : (t : ℕ) (w : W) → u32 (k.threads.thread_get_state t w).0 ≡ 0
  pub sets_state :
      (t n : ℕ) (d : DebugState) (w : W) → u32 (k.threads.thread_set_state t d n w).0 ≡ 0
  pub registers : (t : ℕ) (w : W) → u32 (k.thread_get_registers t w).0 ≡ 0
  pub finds_pid : (t n : ℕ) (w : W) → (k.messages.pid_for_task t n w).1 ≢ no_pid
  pub attaches : (w : W) → (k.ptrace_attachexc pid w).0.0 ≡ 0
  pub detaches : (w : W) → (k.ptrace_detach pid w).0.0 ≡ 0
  pub kills : (w : W) → (k.kill pid sigstop w).0.0 ≡ 0
  pub reads :
      (t a n : ℕ) (w : W)
      → (u32 (k.vm.mach_vm_read t a n w).0 ≡ 0) × (length (k.vm.mach_vm_read t a n w).1 ≡ n)

module _ {W : Type 0} (k : ProcessCalls W) (pid : ℕ) (works : Works k pid) where
  task_port-found :
      (t : MachTask) (w : W)
      → t.task ≡ 0
      → let (task, t', w') = task_port_for_process_id k.tasks pid false t w in
        (task ≢ 0) × (t'.task ≡ task) × (t'.exc_port_info ≡ t.exc_port_info)
  unfolding task_port_for_process_id
  task_port-found t w h = ground (arith, works.has_pid, works.port 0 w)

  is_valid-true : (task : ℕ) (w : W) → task ≢ 0 → (Task.is_valid k.tasks task w).0 ≡ true
  unfolding Task.is_valid
  is_valid-true task w h = ground (arith, works.info task w)

  save-mask : (task : ℕ) (p : PortInfo) (w : W) → (save k.ports k.exc_mask_all task p w).1.mask ≢ 0
  unfolding save
  save-mask task p w = ground (arith, works.all_mask, works.gets task k.exc_mask_all 14 p.entries w)

  -- The exception thread is started, for a task that is there.
  abbrev pub IsStarted : Outcome (Bool × DnbError × MachTask) × W → Type 0
  IsStarted (returned (ok, e, t), w) = (ok ≡ true) × (t.task ≢ 0)
  IsStarted (thrown c, w) = ⊥
  IsStarted (aborted, w) = ⊥
  IsStarted (endless, w) = ⊥

  save_and_start-IsStarted :
      (ignored : List ℕ) (task : ℕ) (e : DnbError) (t : MachTask) (w : W)
      → t.task ≢ 0
      → IsStarted (save_and_start k.tasks k.ports k.exc_mask_all ignored task e t w)
  unfolding save_and_start
  save_and_start-IsStarted ignored task e t w h =
      let (status, p, w1) = save k.ports k.exc_mask_all t.task t.exc_port_info w in
      let mask = remove_ignored ignored p.mask in
      let (kr, w2) = k.tasks.set_exception_port task mask t.exception_port w1 in
      ground (
        arith,
        save-mask t.task t.exc_port_info w,
        works.sets task mask t.exception_port w1,
        works.creates t.exception_thread w2,
      )

  pub start-IsStarted :
      (ignored : List ℕ) (t : MachTask) (w : W)
      → t.task ≡ 0
      → IsStarted (start_exception_thread k.tasks k.ports k.exc_mask_all pid ignored clear t w)
  unfolding start_exception_thread
  start-IsStarted ignored t w h =
      let (task, t1, w1) = task_port_for_process_id k.tasks pid false t w in
      let (valid, w2) = Task.is_valid k.tasks task w1 in
      let (kr3, port, w3) = k.tasks.mach_port_allocate t1.exception_port w2 in
      let (kr4, w4) = k.tasks.mach_port_insert_right port w3 in
      ground (
        arith,
        task_port-found t w,
        is_valid-true task w1,
        works.allocates t1.exception_port w2,
        works.inserts port w3,
        save_and_start-IsStarted ignored task (assign kr4) (record t1 { exception_port = port }) w4,
      )

  -- The part returned.
  abbrev pub Returns : {A : Type 0} → Outcome A × W → Type 0
  Returns (returned a, w) = Unit
  Returns (thrown c, w) = ⊥
  Returns (aborted, w) = ⊥
  Returns (endless, w) = ⊥

  step_threads-Returns :
      (change : DebugState → DebugState) (ts : List ℕ) (w : W)
      → Returns (step_threads k.threads change ts w)
  unfolding step_threads
  step_threads-Returns change [] w = tt
  step_threads-Returns change (t ∷ ts) w =
      let (kr1, dbg, n, w1) = k.threads.thread_get_state t w in
      let (kr2, w2) = k.threads.thread_set_state t (change dbg) n w1 in
      ground (
        arith,
        works.gets_state t w,
        works.sets_state t n (change dbg) w1,
        step_threads-Returns change ts w2,
      )

  step_all-Returns :
      (change : DebugState → DebugState) (t : MachTask) (w : W)
      → Returns (step_all k.threads change t w)
  unfolding step_all
  step_all-Returns change t w =
      let (kr, ts, w') = k.threads.task_threads t.task w in
      ground (arith, works.threads t.task w, step_threads-Returns change ts w')

  pub enable-Returns : (t : MachTask) (w : W) → Returns (enable_single_step k.threads t w)
  unfolding enable_single_step
  enable-Returns t w = step_all-Returns with_step t w

  pub disable-Returns : (t : MachTask) (w : W) → Returns (disable_single_step k.threads t w)
  unfolding disable_single_step
  disable-Returns t w = step_all-Returns without_step t w

  pub reply-Returns :
      (task signal : ℕ) (m : Message) (w : W) → Returns (reply k.messages task pid signal m w)
  unfolding reply
  reply-Returns task signal m w =
      ground (arith, works.has_pid, works.finds_pid m.state.task_port no_pid w)

  -- `Resume` of the task succeeds.
  pub resume-zero : (t : MachTask) (w : W) → t.task ≢ 0 → (Task.resume k.tasks t w).0 ≡ 0
  unfolding Task.resume Task.basic_info
  resume-zero t w h =
      let (kr, n, w') = k.tasks.task_info t.task w in
      ground (arith, works.info t.task w, works.resumes t.task w')

  -- `ShutDownExcecptionThread` returns 0 and leaves the port of the task.
  abbrev pub IsClosed : MachTask → Outcome (ℕ × MachTask) × W → Type 0
  IsClosed t (returned (status, t'), w) = (status ≡ 0) × (t'.task ≡ t.task)
  IsClosed t (thrown c, w) = ⊥
  IsClosed t (aborted, w) = ⊥
  IsClosed t (endless, w) = ⊥

  pub shut_down-IsClosed :
      (t : MachTask) (w : W)
      → IsClosed t (shut_down_exception_thread k.tasks k.ports k.exc_mask_all t w)
  unfolding shut_down_exception_thread
  shut_down-IsClosed t w =
      let (status, p, w1) = restore k.ports t.task t.exc_port_info w in
      let (kr2, w2) = k.tasks.pthread_cancel t.exception_thread w1 in
      let (kr3, w3) = k.tasks.pthread_join t.exception_thread w2 in
      ground (
        arith,
        works.cancels t.exception_thread w1,
        works.joins t.exception_thread w2,
        works.frees t.exception_port w3,
      )

  -- `Read` of a buffer ends.
  abbrev pub IsSome : {A : Type 0} → Option A → Type 0
  IsSome none = ⊥
  IsSome (some a) = Unit

  read_loop-IsSome :
      (fuel task count total a : ℕ) (buf : List ℕ) (m : MachVmMemory) (w : W)
      → count < 2 ^ 64
      → count - total < fuel
      → total ≤ count
      → IsSome (read_loop k.vm fuel task count total a buf m w)
  unfolding read_loop
  read_loop-IsSome zero task count total a buf m w hc enough below = absurd (omega arith)
  read_loop-IsSome (suc fuel) task count total a buf m w hc enough below =
      let (n, m1, w1) = max_bytes_left_in_page k.vm task a (count - total) m w in
      let (kr, bytes, w2) = k.vm.mach_vm_read task a n w1 in
      ground (
        arith,
        works.reads task a n w1,
        max_bytes_left_in_page_lem k.vm task a (count - total) m w,
        read_loop-IsSome fuel task count (add64 total (length bytes)) (add64 a (length bytes))
            (buf ++ bytes) (record m1 { err = assign kr }) w2 hc,
      )

  pub read-IsSome :
      (task a count : ℕ) (m : MachVmMemory) (w : W)
      → count < 2 ^ 64
      → IsSome (read k.vm false task a count m w)
  unfolding read
  read-IsSome task a count m w hc =
      ground (arith, read_loop-IsSome (count + 1) task count 0 a [] m w hc)
