-- ===== src/Vm.antt =====
-- Virtual memory of the debugged task: mac_ptrace/lldb/MachVMRegion.{h,cpp} (`Region`) and
-- mac_ptrace/lldb/MachVMMemory.{h,cpp} (`Memory`), over the calls of the system that they make
-- (`Calls`).
pub mod Calls
pub mod Region
pub mod Memory
pub mod Info
pub mod Profile
mod Tests
