-- ===== src/Sdk.antt =====
-- The constants of the system headers that the sources name, at the values that those headers
-- document for arm64: <mach/kern_return.h>, <mach/vm_prot.h>, <mach/vm_statistics.h>,
-- <mach/vm_region.h>, <mach/message.h>, <mach/exception_types.h>, <mach/port.h>, <sys/signal.h>.
use debug_learning.Prelude.{ℕ, ◌-◌, ◌^◌}

abbrev pub kern_success : ℕ
kern_success = 0

abbrev pub kern_invalid_argument : ℕ
kern_invalid_argument = 4

abbrev pub kern_failure : ℕ
kern_failure = 5

abbrev pub task_null : ℕ
task_null = 0

-- `VM_PROT_NONE`, `VM_PROT_READ`, `VM_PROT_WRITE`, `VM_PROT_EXECUTE`, `VM_PROT_ALL`, `VM_PROT_COPY`
abbrev pub vm_prot_none : ℕ
vm_prot_none = 0

abbrev pub vm_prot_read : ℕ
vm_prot_read = 1

abbrev pub vm_prot_write : ℕ
vm_prot_write = 2

abbrev pub vm_prot_execute : ℕ
vm_prot_execute = 4

abbrev pub vm_prot_all : ℕ
vm_prot_all = 7

abbrev pub vm_prot_copy : ℕ
vm_prot_copy = 0x10

-- `EXC_SOFTWARE`, `EXC_BREAKPOINT`, `EXC_SOFT_SIGNAL`, `SIGTRAP`
abbrev pub exc_software : ℕ
exc_software = 5

abbrev pub exc_breakpoint : ℕ
exc_breakpoint = 6

abbrev pub exc_soft_signal : ℕ
exc_soft_signal = 0x10003

abbrev pub sigtrap : ℕ
sigtrap = 5

-- `EXC_CORPSE_VARIANT_BIT`
abbrev pub exc_corpse_variant_bit : ℕ
exc_corpse_variant_bit = 0x100

-- `PREV_EXC_MASK_ALL` of MachException.cpp: the bits of the exception types 1 to 9, 11 and 12.
-- `EXC_MASK_MACHINE` has no bit on arm64.
abbrev pub prev_exc_mask_all : ℕ
prev_exc_mask_all = 0x1bfe

abbrev pub sigstop : ℕ
sigstop = 17

-- `MACH_RCV_TIMED_OUT`, `MACH_RCV_INTERRUPTED`, and `MACH_PORT_DEAD`
abbrev pub mach_rcv_timed_out : ℕ
mach_rcv_timed_out = 0x10004003

abbrev pub mach_rcv_interrupted : ℕ
mach_rcv_interrupted = 0x10004005

abbrev pub mach_port_dead : ℕ
mach_port_dead = 2 ^ 32 - 1

-- `VM_MEMORY_MALLOC` and so on: the tags of regions; and `SM_EMPTY`
abbrev pub vm_memory_malloc : ℕ
vm_memory_malloc = 1

abbrev pub vm_memory_malloc_small : ℕ
vm_memory_malloc_small = 2

abbrev pub vm_memory_malloc_large : ℕ
vm_memory_malloc_large = 3

abbrev pub vm_memory_malloc_huge : ℕ
vm_memory_malloc_huge = 4

abbrev pub vm_memory_sbrk : ℕ
vm_memory_sbrk = 5

abbrev pub vm_memory_realloc : ℕ
vm_memory_realloc = 6

abbrev pub vm_memory_malloc_tiny : ℕ
vm_memory_malloc_tiny = 7

abbrev pub vm_memory_malloc_large_reusable : ℕ
vm_memory_malloc_large_reusable = 8

abbrev pub vm_memory_malloc_large_reused : ℕ
vm_memory_malloc_large_reused = 9

abbrev pub vm_memory_malloc_nano : ℕ
vm_memory_malloc_nano = 11

abbrev pub vm_memory_stack : ℕ
vm_memory_stack = 30

abbrev pub sm_empty : ℕ
sm_empty = 3
