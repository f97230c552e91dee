-- ===== src/Task.antt =====
-- The class MachTask of mac_ptrace/lldb/MachTask.h and MachTask.cpp: the task of the process that
-- is debugged, its port and the thread that receives its exceptions. The process that owns the
-- object is never null; its id is an argument.
pub mod Stepping
pub mod Control
pub mod Starting
mod Tests
use debug_learning.Prelude.{
  ℕ, zero, suc, Bool, true, false, ◌||◌, Option, none, some, List, [], ltb, ◌==◌, ◌/=◌, u32,
  if◌then◌else◌,
}
use debug_learning.Sdk.{task_null, kern_success, kern_invalid_argument}
use debug_learning.DnbError.{DnbError, assign, success}
use debug_learning.Vm.Calls.{VmCalls}
use debug_learning.Vm.Memory.{MachVmMemory, read, write}
use debug_learning.Exception.Ports.{PortInfo, PortCalls}

pub record MachTask : Type 0 where
  pub task : ℕ
  pub exc_port_info : PortInfo
  pub exception_port : ℕ
  pub exception_thread : ℕ
  pub vm_memory : MachVmMemory

-- The calls of the kernel and of the threads' library that the class makes. `mach_task_self()` is
-- the debugger itself, and is left out of the arguments.
pub record TaskCalls (W : Type 0) : Type 0 where
  -- `task_info(task, TASK_BASIC_INFO, …)`: the result and the field `suspend_count`
  pub task_info : ℕ → W → ℕ × ℕ × W
  pub task_suspend : ℕ → W → ℕ × W
  pub task_resume : ℕ → W → ℕ × W
  -- `task_for_pid(mach_task_self(), pid, &task)`: the result, and the value of `task`
  pub task_for_pid : ℕ → ℕ → W → ℕ × ℕ × W
  pub usleep : ℕ → W → W
  -- `mach_port_allocate(…, MACH_PORT_RIGHT_RECEIVE, &port)`: the result, and the value of `port`
  pub mach_port_allocate : ℕ → W → ℕ × ℕ × W
  -- `mach_port_insert_right(…, port, port, MACH_MSG_TYPE_MAKE_SEND)`
  pub mach_port_insert_right : ℕ → W → ℕ × W
  pub mach_port_deallocate : ℕ → W → ℕ × W
  -- `task_set_exception_ports(task, mask, port, EXCEPTION_DEFAULT | MACH_EXCEPTION_CODES,
  -- THREAD_STATE_NONE)`
  pub set_exception_port : ℕ → ℕ → ℕ → W → ℕ × W
  -- `pthread_create(&thread, NULL, MachTask::ExceptionThread, this)`: the result and the thread
  pub pthread_create : ℕ → W → ℕ × ℕ × W
  pub pthread_cancel : ℕ → W → ℕ × W
  pub pthread_join : ℕ → W → ℕ × W

-- `INVALID_NUB_PROCESS`
abbrev pub invalid_nub_process : ℕ
invalid_nub_process = 0

-- the default of `num_retries`, and of `usec_interval`
abbrev pub num_retries : ℕ
num_retries = 10

abbrev pub usec_interval : ℕ
usec_interval = 10000

-- `TaskPortChanged`
abbrev pub task_port_changed : ℕ → MachTask → MachTask
task_port_changed port t = record t { task = port }

module _ {W : Type 0} (k : TaskCalls W) where
  -- `BasicInfo(task, &info)`: the status, and the field `suspend_count`
  unfoldable pub basic_info : ℕ → W → ℕ × ℕ × W
  basic_info task w =
      let (kr, suspend_count, w') = k.task_info task w in ((assign kr).err, suspend_count, w')

  -- `IsValid(task)`
  unfoldable pub is_valid : ℕ → W → Bool × W
  unfolding basic_info
  is_valid task w =
      if task /= task_null
      then (let (status, suspend_count, w') = basic_info task w in (status == kern_success, w'))
      else (false, w)

  -- The loop of `TaskPortForProcessID`, with the count of tries left.
  unfoldable pub try_task_for_pid : ℕ → ℕ → ℕ → W → ℕ × W
  try_task_for_pid zero pid task w = (task_null, w)
  try_task_for_pid (suc n) pid task w =
      let (kr, task', w') = k.task_for_pid pid task w in
      let rest = try_task_for_pid n pid task' (k.usleep usec_interval w') in
      if success (assign kr) then (task', w') else rest

  -- `TaskPortForProcessID(pid, err)`, which leaves `err` as it is.
  unfoldable pub task_port_for_pid : ℕ → W → ℕ × W
  unfolding try_task_for_pid
  task_port_for_pid pid w =
      if pid /= invalid_nub_process
      then try_task_for_pid num_retries pid task_null w
      else (task_null, w)

  -- `TaskPortForProcessID(err, force)`
  unfoldable pub task_port_for_process_id : ℕ → Bool → MachTask → W → ℕ × MachTask × W
  unfolding task_port_for_pid
  task_port_for_process_id pid force t w =
      if t.task == task_null || force
      then (let (task, w') = task_port_for_pid pid w in (task, record t { task = task }, w'))
      else (t.task, t, w)

  -- `Suspend`
  unfoldable pub suspend : MachTask → W → ℕ × W
  suspend t w = let (kr, w') = k.task_suspend t.task w in ((assign kr).err, w')

  -- `Resume`
  unfoldable pub resume : MachTask → W → ℕ × W
  unfolding basic_info
  resume t w =
      if t.task == task_null
      then (kern_invalid_argument, w)
      else (let (status, suspend_count, w') = basic_info t.task w in
          if status == kern_success
          then if ltb 0 suspend_count
            then (let (kr, w'') = k.task_resume t.task w' in ((assign kr).err, w''))
            else (status, w')
          else (status, w'))

module _ {W : Type 0} (vm : VmCalls W) where
  -- `ReadMemory`
  unfoldable pub read_memory : Bool → ℕ → ℕ → MachTask → W → Option (ℕ × List ℕ × MachTask × W)
  read_memory is_null addr size t w =
      if t.task /= task_null
      then elim (read vm is_null t.task addr size t.vm_memory w) [
        | none ↦ none
        | some (n, buf, m, w') ↦ some (n, buf, record t { vm_memory = m }, w')
      ]
      else some (0, [], t, w)

  -- `WriteMemory`
  unfoldable pub write_memory : ℕ → ℕ → Option (List ℕ) → MachTask → W → Option (ℕ × MachTask × W)
  write_memory addr size bytes t w =
      if t.task /= task_null
      then elim (write vm t.task addr bytes size t.vm_memory w) [
        | none ↦ none
        | some (n, m, w') ↦ some (n, record t { vm_memory = m }, w')
      ]
      else some (0, t, w)
