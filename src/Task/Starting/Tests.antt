-- ===== src/Task/Starting/Tests.antt =====
-- The start and the end of the exception thread on a kernel that keeps a handler for each exception.
use Prim.{tt}
use mathlib.Core.Quot
use debug_learning.Prelude.{arith, ◌≡◌, refl, [], ◌∷◌}
use debug_learning.DnbError.{clear, assign}
use debug_learning.Exception.Ports.{save, restore}
use debug_learning.Exception.Ports.Sample.{
  kernel, kernel-HandlerLaws, handler_of, before, during, no_ports,
}
use debug_learning.Task.{
  MachTask, is_valid, task_port_for_process_id, task_port_for_pid, try_task_for_pid,
}
use debug_learning.Task.Starting.{
  start_exception_thread, save_and_start, set_port_and_start, remove_ignored,
  shut_down_exception_thread,
}
use debug_learning.Task.Starting.Returning.{GivingLaws, shut_down-start}
use debug_learning.Task.Starting.Ignored.{of_list, start_exception_thread-same}
use debug_learning.Task.Starting.Sample.{calls, fresh}

calls-GivingLaws : GivingLaws calls kernel handler_of
calls-GivingLaws = record {
  handles = kernel-HandlerLaws;
  accepts = λ t e w. refl;
  port_keeps = λ pid x t b w. refl;
  sleep_keeps = λ n t b w. refl;
  info_keeps = λ x t b w. refl;
  allocate_keeps = λ x t b w. refl;
  insert_keeps = λ x t b w. refl;
  cancel_keeps = λ x t b w. refl;
  join_keeps = λ x t b w. refl;
  free_keeps = λ x t b w. refl;
}

-- what the start leaves where SIGTRAP and the like are asked for, and the first three are ignored
abbrev started : MachTask
started = record fresh {
  task = 9;
  exc_port_info = record (save kernel 0x3bfe 9 no_ports before).1 { mask = 0x3bf0 };
  exception_port = 7;
  exception_thread = 5;
}

shut_down-start_example :
    (shut_down_exception_thread calls kernel 0x3bfe started during).1 6 ≡ before 6
unfolding start_exception_thread save_and_start set_port_and_start remove_ignored is_valid
    task_port_for_process_id task_port_for_pid try_task_for_pid save restore
    shut_down_exception_thread
shut_down-start_example =
    shut_down-start calls kernel 0x3bfe handler_of calls-GivingLaws 6 8 (2 ∷ 4 ∷ 8 ∷ []) clear
      (assign 0) fresh started started before during refl refl refl refl

two_ignored : of_list (2 ∷ 4 ∷ []) ≡ of_list (4 ∷ 2 ∷ 4 ∷ [])
two_ignored = Quot.sound (λ i. ground arith)

start_exception_thread-same_example :
    start_exception_thread calls kernel 0x3bfe 8 (2 ∷ 4 ∷ []) clear fresh before
    ≡ start_exception_thread calls kernel 0x3bfe 8 (4 ∷ 2 ∷ 4 ∷ []) clear fresh before
start_exception_thread-same_example =
    start_exception_thread-same calls kernel 0x3bfe (2 ∷ 4 ∷ []) (4 ∷ 2 ∷ 4 ∷ [])
      (omega arith, (omega arith, tt)) (omega arith, (omega arith, (omega arith, tt))) two_ignored 8
      clear fresh before (omega arith)
