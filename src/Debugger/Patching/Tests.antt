-- ===== src/Debugger/Patching/Tests.antt =====
-- The patch of main.cpp on a system whose state is the memory of the one task.
use debug_learning.Prelude.{◌+◌, ◌≡◌, refl, false, [], ◌∷◌, sub64, arith}
use debug_learning.Task
use debug_learning.Task.{TaskCalls}
use debug_learning.Vm.Calls.{VmCalls}
use debug_learning.Vm.Memory.{
  read, read_loop, write, write_loop, write_round, write_region, write_region_loop, page_size,
  max_bytes_left_in_page,
}
use debug_learning.Vm.Region.{get_region_for_address, set_protections, clear_region}
use debug_learning.Vm.Memory.Reading.All.{NoneFails}
use debug_learning.Process.Access
use debug_learning.Process.Sample.{stopped}
use debug_learning.Logger.Output.{StreamCalls, print_line}
use debug_learning.Debugger.{patch, addr}
use debug_learning.Debugger.Controller
use debug_learning.Debugger.Controller.{Host}
use debug_learning.Debugger.Patching.{LogFrame, IsPatched, patch-IsPatched}
use debug_learning.Process.Access.Sample.{
  Memory, vm, calls_with, mem_of, vm-ReadLaws, vm-WriteLaws, vm-MappedLaws,
}

-- The same where the system cannot read.
abbrev unreadable : VmCalls Memory
unreadable = record vm { mach_vm_read = λ t a n w. (1, [], w) }

abbrev quiet : StreamCalls Memory
quiet = record {
  open_file = λ path w. (4, w);
  is_bad = λ s w. false;
  print = λ t text w. w;
  close = λ s w. w;
  now = λ w. ([], w);
}

abbrev host_with : VmCalls Memory → Host Memory
host_with k = record {
  calls = calls_with k;
  out = quiet;
  show = λ n. n ∷ [];
  get_pc = λ regs. 0;
  atoi = λ s. 8;
}

-- each byte is its distance from `ADDR`
abbrev counting : Memory
counting x = sub64 x addr

quiet-LogFrame : LogFrame quiet mem_of
quiet-LogFrame = record { now_keeps = λ t x w. refl; print_keeps = λ target text t x w. refl }

patch-IsPatched_example :
    IsPatched mem_of 77 counting (NoneFails vm 77) (patch (host_with vm) stopped counting)
patch-IsPatched_example =
    patch-IsPatched (host_with vm) mem_of vm-ReadLaws stopped counting
      (vm-MappedLaws addr 12 (omega arith)) vm-WriteLaws quiet-LogFrame refl (omega arith)

-- What cannot be read is overwritten by zeros.
patch-unreadable : (patch (host_with unreadable) stopped counting).2 (addr + 5) ≡ 0
unfolding patch print_line Controller.read_memory Controller.write_memory Access.read_memory
    Access.write_memory Task.read_memory Task.write_memory read read_loop write write_loop
    write_round write_region write_region_loop max_bytes_left_in_page page_size
    get_region_for_address set_protections clear_region
patch-unreadable = refl
