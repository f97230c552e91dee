-- ===== src/Process/Access/Sample.antt =====
-- A system for the tests whose state is the memory of the one task.
use debug_learning.Prelude.{
  ℕ, ◌<◌, ◌+◌, ◌^◌, refl, false, [], length, get_or, ltb, sub64, if◌then◌else◌, arith,
}
use debug_learning.Task.{TaskCalls}
use debug_learning.Vm.Calls.{VmCalls}
use debug_learning.Vm.Memory.Reading.{bytes_at, ReadLaws}
use debug_learning.Vm.Memory.Writing.{WriteLaws}
use debug_learning.Vm.Memory.Mapped.{MappedLaws}
use debug_learning.Process.Method.{ProcessCalls}

abbrev pub Memory : Type 0
Memory = ℕ → ℕ

abbrev pub vm : VmCalls Memory
vm = record {
  mach_vm_protect = λ t a n max prot w. (0, w);
  mach_vm_region_recurse = λ t a n depth info w. (
    record {
      kr = 0;
      start = 0;
      size = 2 ^ 40;
      depth = 0;
      info = record { protection = 3; user_tag = 0; share_mode = 0 };
    },
    w,
  );
  task_vm_page_size = λ t w. (0, 0x4000, w);
  host_page_size = λ w. (0, 0x4000, w);
  mach_vm_read = λ t a n w. (0, bytes_at w a n, w);
  mach_vm_write = λ t a bytes w.
      (0, λ x. if ltb (sub64 x a) (length bytes) then get_or bytes (sub64 x a) 0 else w x);
  vm_machine_attribute = λ t a n w. (0, w);
  mach_vm_page_range_query = λ t a n count w. (0, count, λ i. 0, w);
}

-- The other calls are not made: here they fail.
abbrev pub tasks : TaskCalls Memory
tasks = record {
  task_info = λ task w. (5, 0, w);
  task_suspend = λ task w. (5, w);
  task_resume = λ task w. (5, w);
  task_for_pid = λ pid task w. (5, 0, w);
  usleep = λ n w. w;
  mach_port_allocate = λ port w. (5, 0, w);
  mach_port_insert_right = λ port w. (5, w);
  mach_port_deallocate = λ port w. (5, w);
  set_exception_port = λ task mask port w. (5, w);
  pthread_create = λ thread w. (5, 0, w);
  pthread_cancel = λ thread w. (5, w);
  pthread_join = λ thread w. (5, w);
}

abbrev pub calls_with : VmCalls Memory → ProcessCalls Memory
calls_with k = record {
  tasks = tasks;
  ports = record {
    task_get_exception_ports = λ t mask n entries w. (5, 0, entries, w);
    task_set_exception_ports = λ t e w. (5, w);
  };
  threads = record {
    task_threads = λ task w. (5, [], w);
    thread_get_state = λ thread w. (5, record { mdscr_el1 = 0; others = [] }, 0, w);
    thread_set_state = λ thread d n w. (5, w);
  };
  vm = k;
  messages = record {
    receive_msg = λ options port timeout notify m w. (5, m, w);
    send_msg = λ m n w. (5, w);
    mach_exc_server = λ handler m r d w. (false, m, r, d, w);
    pid_for_task = λ task pid w. (5, 0, w);
    ptrace_thupdate = λ pid thread signal w. (5, w);
  };
  exc_mask_all = 0x3ffe;
  getpgid = λ pid w. (pid, w);
  ptrace_attachexc = λ pid w. ((1, 1), w);
  ptrace_detach = λ pid w. ((1, 1), w);
  kill = λ pid signal w. ((1, 1), w);
  thread_get_registers = λ thread w. (5, [], w);
}

abbrev pub mem_of : Memory → ℕ → ℕ → ℕ
mem_of w t = w

pub vm-ReadLaws : ReadLaws vm mem_of
vm-ReadLaws = record {
  returns = λ t a n w h. refl;
  read_keeps = λ t a n x w. refl;
  host_keeps = λ t x w. refl;
  task_keeps = λ t x w. refl;
}

pub vm-WriteLaws : WriteLaws vm mem_of
vm-WriteLaws = record {
  writes = λ t a x bytes w h hx near. ground arith;
  spares = λ t a x bytes w hx far. ground arith;
  flush_keeps = λ t a n x w. refl;
  host_keeps = λ t x w. refl;
  task_keeps = λ t x w. refl;
}

pub vm-MappedLaws : (a count : ℕ) → a + count < 2 ^ 40 → MappedLaws vm mem_of 77 a count
vm-MappedLaws a count h = record {
  maps = λ x size depth info w low high. (refl, omega arith, omega arith, omega arith);
  protects = λ x n prot w. refl;
  accepts = λ a bytes w. refl;
  flushes = λ x n w. refl;
  protect_keeps = λ x n prot y w. refl;
  recurse_keeps = λ x size depth y info w. refl;
}
