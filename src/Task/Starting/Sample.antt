-- ===== src/Task/Starting/Sample.antt =====
-- The calls of a system for the tests that keeps a handler for each exception.
use debug_learning.Prelude.{refl, ℕ, ◌+◌, ◌^◌, ◌==◌, if◌then◌else◌, arith}
use debug_learning.Prelude.Bits.{bit}
use debug_learning.Exception.Ports.Sample.{Handlers, handler_of, no_ports}
use debug_learning.Task.{MachTask, TaskCalls}
use debug_learning.Task.Starting.Taking.{TakingLaws}
use debug_learning.Vm.Memory.{new_memory}

-- `EXCEPTION_DEFAULT | MACH_EXCEPTION_CODES`, `THREAD_STATE_NONE`
abbrev pub given : ℕ → ℕ × ℕ × ℕ
given port = (port, 2 ^ 31 + 1, 5)

abbrev pub calls : TaskCalls Handlers
calls = record {
  task_info = λ task w. (0, 0, w);
  task_suspend = λ task w. (0, w);
  task_resume = λ task w. (0, w);
  task_for_pid = λ pid task w. (0, 9, w);
  usleep = λ n w. w;
  mach_port_allocate = λ port w. (0, 7, w);
  mach_port_insert_right = λ port w. (0, w);
  mach_port_deallocate = λ port w. (0, w);
  set_exception_port = λ task mask port w. (0, λ b. if bit b mask == 1 then given port else w b);
  pthread_create = λ thread w. (0, 5, w);
  pthread_cancel = λ thread w. (0, w);
  pthread_join = λ thread w. (0, w);
}

pub calls-TakingLaws : TakingLaws calls handler_of given
calls-TakingLaws = record {
  installs = λ t mask port b w ok has. ground (arith, has);
  create_keeps = λ x t b w. refl;
}

abbrev pub fresh : MachTask
fresh = record {
  task = 0;
  exc_port_info = no_ports;
  exception_port = 0;
  exception_thread = 0;
  vm_memory = new_memory;
}
