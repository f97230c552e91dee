-- ===== src/Process/Sample.antt =====
-- A small system for the tests: its state is the suspend count of the one task, no call fails, and
-- each exception message is about the thread 3 of the task 77.
use debug_learning.Prelude.{ℕ, ◌+◌, ◌-◌, ◌^◌, true, [], ◌∷◌, replicate, refl}
use debug_learning.Exception.Data.{Raise}
use debug_learning.Exception.Message.{Message, MessageCalls, new_message}
use debug_learning.Exception.Ports.{PortCalls}
use debug_learning.Task.{TaskCalls}
use debug_learning.Task.Stepping.{ThreadCalls}
use debug_learning.Vm.Calls.{VmCalls}
use debug_learning.Vm.Memory.Framing.{VmFrame}
use debug_learning.Process.{new_process}
use debug_learning.Process.Method.{MachProcess, Status, ProcessCalls}
use debug_learning.Process.Monitor.Bundling.{BundleLaws}
use debug_learning.Debugger.Controller.{new_task}

abbrev tasks : TaskCalls ℕ
tasks = record {
  task_info = λ task w. (0, w, w);
  task_suspend = λ task w. (0, w + 1);
  task_resume = λ task w. (0, w - 1);
  task_for_pid = λ pid task w. (0, 77, w);
  usleep = λ n w. w;
  mach_port_allocate = λ port w. (0, 9, w);
  mach_port_insert_right = λ port w. (0, w);
  mach_port_deallocate = λ port w. (0, w);
  set_exception_port = λ task mask port w. (0, w);
  pthread_create = λ thread w. (0, 5, w);
  pthread_cancel = λ thread w. (0, w);
  pthread_join = λ thread w. (0, w);
}

abbrev ports : PortCalls ℕ
ports = record {
  task_get_exception_ports = λ t mask n entries w. (0, 2, entries, w);
  task_set_exception_ports = λ t e w. (0, w);
}

abbrev threads : ThreadCalls ℕ
threads = record {
  task_threads = λ task w. (0, 3 ∷ [], w);
  thread_get_state = λ thread w. (0, record { mdscr_el1 = 0; others = [] }, 20, w);
  thread_set_state = λ thread d n w. (0, w);
}

abbrev vm : VmCalls ℕ
vm = record {
  mach_vm_protect = λ t a n max prot w. (0, w);
  mach_vm_region_recurse = λ t a n depth info w. (
    record {
      kr = 0;
      start = 0;
      size = 2 ^ 40;
      depth = 0;
      info = record { protection = 3; user_tag = 0; share_mode = 0 };
    },
    w,
  );
  task_vm_page_size = λ t w. (0, 4096, w);
  host_page_size = λ w. (0, 4096, w);
  mach_vm_read = λ t a n w. (0, replicate n 7, w);
  mach_vm_write = λ t a bytes w. (0, w);
  vm_machine_attribute = λ t a n w. (0, w);
  mach_vm_page_range_query = λ t a n count w. (0, count, λ i. 0, w);
}

abbrev pub raised : Raise
raised = record {
  thread_port = 3;
  task_port = 77;
  exc_type = 6;
  exc_data = 1 ∷ 0 ∷ [];
  exc_data_count = 2;
}

abbrev messages : MessageCalls ℕ
messages = record {
  receive_msg = λ options port timeout notify m w. (0, record { msgh_size = 64; body = [] }, w);
  send_msg = λ m n w. (0, w);
  mach_exc_server = λ handler m r d w.
      let (kr, d', w') = handler raised d w in
      (true, m, record { msgh_size = 36; body = kr ∷ [] }, d', w');
  pid_for_task = λ task pid w. (0, 8, w);
  ptrace_thupdate = λ pid thread signal w. (0, w);
}

abbrev pub sample : ProcessCalls ℕ
sample = record {
  tasks = tasks;
  ports = ports;
  threads = threads;
  vm = vm;
  messages = messages;
  exc_mask_all = 0x3ffe;
  getpgid = λ pid w. (pid, w);
  ptrace_attachexc = λ pid w. ((0, 0), w);
  ptrace_detach = λ pid w. ((0, 0), w);
  kill = λ pid signal w. ((0, 0), w);
  thread_get_registers = λ thread w. (0, 11 ∷ 22 ∷ [], w);
}

-- the message of a breakpoint in thread 3
abbrev pub hit : Message
hit = record new_message {
  state = record { task_port = 77; thread_port = 3; exc_type = 6; exc_data = [] };
}

-- The process 8 with the task 77, stopped.
abbrev pub stopped : MachProcess
stopped = record (new_process (record new_task { task = 77 })) { status = Status.stop; pid = 8 }

pub sample-BundleLaws : BundleLaws sample (λ w task. w)
sample-BundleLaws = record {
  counts = record {
    info_lem = λ task w. (refl, λ h. refl);
    suspend_lem = λ task w. refl;
    resume_lem = λ task w h. refl;
  };
  threads_keep = λ task x w. refl;
  get_keeps = λ thread x w. refl;
  set_keeps = λ thread n x d w. refl;
  send_keeps = λ m n x w. refl;
  update_keeps = λ pid thread signal x w. refl;
  pid_keeps = λ task pid x w. refl;
}

pub sample-VmFrame : (task x : ℕ) → VmFrame sample.vm (λ w. w) task
sample-VmFrame task x = record {
  host_same = λ w. refl;
  task_same = λ w. refl;
  read_same = λ a n w. refl;
  write_same = λ a bytes w. refl;
  flush_same = λ a n w. refl;
  protect_same = λ x n prot w. refl;
  recurse_same = λ x size depth info w. refl;
}
