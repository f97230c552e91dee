-- ===== src/Task/Tests.antt =====
-- Runs of the model of MachTask on small kernels, and the theorems at those inputs.
use Prim.{tt}
use debug_learning.Prelude.{
  ℕ, ◌+◌, ◌-◌, ◌^◌, ◌≡◌, refl, [], ◌∷◌, ◌==◌, if◌then◌else◌, arith, ne→==_false, ==_iff,
}
use debug_learning.DnbError.{clear}
use debug_learning.Exception.Ports.{PortCalls, Entry}
use debug_learning.Vm.Memory.{new_memory}
use debug_learning.Task.{MachTask, TaskCalls, task_port_for_pid}
use debug_learning.Task.Control.{CountLaws, Tried, task_port_for_pid-Tried}
use debug_learning.Task.Stepping.{DebugState, ThreadCalls, enable_single_step, disable_single_step}
use debug_learning.Task.Stepping.Laws.{
  ThreadLaws, Stepped, has, set_step, clear_step, enable_single_step-Stepped,
  disable_single_step-Stepped,
}
use debug_learning.Task.Starting.{start_exception_thread}
use debug_learning.Task.Starting.Laws.{Started, start_exception_thread-Started}

-- The state is the suspend count of the one task, and a sleep adds one to it; the port of a
-- process is there once the state is 2.
abbrev tasks : TaskCalls ℕ
tasks = record {
  task_info = λ task w. (0, w, w);
  task_suspend = λ task w. (0, w + 1);
  task_resume = λ task w. (0, w - 1);
  task_for_pid = λ pid task w. if w == 2 then (0, 77, w) else (5, 0, w);
  usleep = λ n w. w + 1;
  mach_port_allocate = λ port w. (0, 9, w);
  mach_port_insert_right = λ port w. (0, w);
  mach_port_deallocate = λ port w. (0, w);
  set_exception_port = λ task mask port w. (0, w);
  pthread_create = λ thread w. (0, 5, w);
  pthread_cancel = λ thread w. (0, w);
  pthread_join = λ thread w. (0, w);
}

abbrev entry : ℕ → Entry
entry i = record { mask = 2 ^ i; port = i + 100; behavior = 1; flavor = 0 }

abbrev ports : PortCalls ℕ
ports = record {
  task_get_exception_ports = λ t mask n entries w. (0, 2, entry, w);
  task_set_exception_ports = λ t e w. (5, w);
}

abbrev no_task : MachTask
no_task = record {
  task = 0;
  exc_port_info = record { mask = 0; entries = entry; count = 0 };
  exception_port = 0;
  exception_thread = 0;
  vm_memory = new_memory;
}

abbrev attached : MachTask
attached = record no_task {
  task = 77;
  exc_port_info = record { mask = 2 ^ 6; entries = entry; count = 2 };
  exception_port = 9;
  exception_thread = 5;
}

tasks-CountLaws : CountLaws tasks (λ w task. w)
tasks-CountLaws = record {
  info_lem = λ task w. (refl, λ h. refl);
  suspend_lem = λ task w. refl;
  resume_lem = λ task w h. refl;
}

task_port-third : task_port_for_pid tasks 8 0 ≡ (77, 2)
unfolding task_port_for_pid
task_port-third = refl

task_port_for_pid-Tried_example :
    let (port, w') = task_port_for_pid tasks 8 0 in Tried tasks 8 10 0 port w'
task_port_for_pid-Tried_example = task_port_for_pid-Tried tasks 8 0 (omega arith)

-- The state is the debug state of each thread; the task has the threads 1 and 2.
abbrev threads : ThreadCalls (ℕ → DebugState)
threads = record {
  task_threads = λ task w. (0, 1 ∷ 2 ∷ [], w);
  thread_get_state = λ thread w. (0, w thread, 20, w);
  thread_set_state = λ thread dbg n w. (0, λ x. if x == thread then dbg else w x);
}

abbrev asleep : ℕ → DebugState
asleep x = record { mdscr_el1 = 2 ^ 35 + x; others = [] }

threads-ThreadLaws : ThreadLaws threads (λ w. w) (λ w task. 1 ∷ 2 ∷ [])
threads-ThreadLaws = record {
  threads_lem = λ task w. (λ x. refl, λ h. refl);
  get_lem = λ thread w. (λ x. refl, λ h. refl);
  set_lem = λ thread dbg n w. (
    λ x ne. rw (ne→==_false x thread ne) refl,
    λ h. rw ((==_iff thread thread).1 refl) refl,
    λ h. absurd (h refl),
  );
}

enable_single_step-Stepped_example :
    let (o, w') = enable_single_step threads attached asleep in
    Stepped set_step (λ x. has x (1 ∷ 2 ∷ [])) asleep w' o
enable_single_step-Stepped_example =
    enable_single_step-Stepped threads (λ w. w) (λ w task. 1 ∷ 2 ∷ []) threads-ThreadLaws attached
      asleep

disable_single_step-Stepped_example :
    let (o, w') = disable_single_step threads attached asleep in
    Stepped clear_step (λ x. has x (1 ∷ 2 ∷ [])) asleep w' o
disable_single_step-Stepped_example =
    disable_single_step-Stepped threads (λ w. w) (λ w task. 1 ∷ 2 ∷ []) threads-ThreadLaws attached
      asleep

-- The bits from 32 on are lost.
disable-thread_2 : ((disable_single_step threads attached asleep).1 2).mdscr_el1 ≡ 2
unfolding disable_single_step
disable-thread_2 = refl

start_exception_thread-Started_example :
    Started
      (2 ^ 6 ∷ [])
      clear
      (start_exception_thread tasks ports 0x3ffe 8 (2 ^ 6 ∷ []) clear no_task 0).0
start_exception_thread-Started_example =
    start_exception_thread-Started tasks ports 0x3ffe 8 (2 ^ 6 ∷ []) clear no_task 0
      (omega arith, tt)
