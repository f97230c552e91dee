-- ===== src/Process/Attaching/Tests.antt =====
-- An `Attach` whose `ptrace` fails, on a system that keeps a handler for each exception.
use debug_learning.Prelude.{◌≡◌, refl, false, [], ◌∷◌, arith}
use debug_learning.Prelude.Bits.{bit}
use debug_learning.Outcome.{aborted, thrown, errno}
use debug_learning.Exception.Ports.{save}
use debug_learning.Exception.Ports.Sample.{Handlers, kernel, handler_of, before}
use debug_learning.Task.{is_valid, task_port_for_process_id, task_port_for_pid, try_task_for_pid}
use debug_learning.Task.Starting.{
  start_exception_thread, save_and_start, set_port_and_start, remove_ignored,
}
use debug_learning.Task.Starting.Sample.{calls, fresh, given, calls-TakingLaws}
use debug_learning.Process
use debug_learning.Process.{new_process, attach, begin_attach, finish_attach}
use debug_learning.Process.Method.{ProcessCalls}
use debug_learning.Process.Attaching.{attach-stranded}

-- The other calls are not made: here they fail.
abbrev refusing : ProcessCalls Handlers
refusing = record {
  tasks = calls;
  ports = kernel;
  threads = record {
    task_threads = λ task w. (5, [], w);
    thread_get_state = λ thread w. (5, record { mdscr_el1 = 0; others = [] }, 0, w);
    thread_set_state = λ thread d n w. (5, w);
  };
  vm = record {
    mach_vm_protect = λ t a n max prot w. (5, w);
    mach_vm_region_recurse =
        λ t a n depth info w. (record { kr = 5; start = 0; size = 0; depth = 0; info = info }, w);
    task_vm_page_size = λ t w. (5, 0, w);
    host_page_size = λ w. (5, 0, w);
    mach_vm_read = λ t a n w. (5, [], w);
    mach_vm_write = λ t a bytes w. (5, w);
    vm_machine_attribute = λ t a n w. (5, w);
    mach_vm_page_range_query = λ t a n count w. (5, 0, λ i. 0, w);
  };
  messages = record {
    receive_msg = λ options port timeout notify m w. (5, m, w);
    send_msg = λ m n w. (5, w);
    mach_exc_server = λ handler m r d w. (false, m, r, d, w);
    pid_for_task = λ task pid w. (5, 0, w);
    ptrace_thupdate = λ pid thread signal w. (5, w);
  };
  exc_mask_all = 0x3bfe;
  getpgid = λ pid w. (pid, w);
  ptrace_attachexc = λ pid w. ((1, 13), w);
  ptrace_detach = λ pid w. ((1, 1), w);
  kill = λ pid signal w. ((1, 1), w);
  thread_get_registers = λ thread w. (5, [], w);
}

attach-stranded_example :
    let (o, q, w') = attach refusing 8 (2 ∷ []) (new_process fresh) before in
    (o ≡ thrown (errno 13))
    × (Process.detach refusing q w' ≡ (aborted, q, w'))
    × (bit 6 q.task.exc_port_info.mask ≡ 1
        → handler_of w' q.task.task 6 ≡ given q.task.exception_port)
unfolding begin_attach attach finish_attach start_exception_thread save_and_start set_port_and_start
    remove_ignored is_valid task_port_for_process_id task_port_for_pid try_task_for_pid save
attach-stranded_example =
    attach-stranded refusing handler_of given calls-TakingLaws 6 8 (2 ∷ []) (new_process fresh)
      before (λ t w'. refl) refl refl (omega arith)

-- There is such an exception.
attach-displaced : (attach refusing 8 (2 ∷ []) (new_process fresh) before).2 6 ≡ given 7
unfolding begin_attach attach finish_attach start_exception_thread save_and_start set_port_and_start
    remove_ignored is_valid task_port_for_process_id task_port_for_pid try_task_for_pid save
attach-displaced = refl
