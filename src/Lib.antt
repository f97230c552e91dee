-- ===== src/Lib.antt =====
-- A ptrace and Mach debugger for macOS: mac_ptrace, whose folder mac_ptrace/lldb holds classes that
-- began as parts of LLDB's debugserver and were cut down and changed in this repository; and, as a
-- program of its own, the demonstration linux_int3.
--
-- The program. main.cpp is a script over `DebuggerController`, which has one `MachProcess`, the
-- debugged process with its state machine; that owns a `MachTask`, which talks to the kernel about
-- the task, receives exceptions on a thread of its own and reads and writes memory through
-- `MachVMMemory`. That class cuts a transfer into pieces that stay inside a page, and makes the
-- pages of a write writable through `MachVMRegion`, which also puts their protections back.
-- `MachException` holds what a caught exception says, and the exception ports that the debugger
-- displaced. All report failures in a `DNBError`.
--
-- Which file models what.
--   Prelude, Prelude/*   shared names; Boolean tests, lists and 64-bit words over the native
--                        numbers, and the laws of `&` and `~` digit by digit
--   Sdk                  constants of the system headers
--   DnbError             class DNBError (mac_ptrace/lldb/DNBError.h, DNBError.cpp); DnbError/Laws
--   Vm/Calls             the calls of the kernel that the memory classes make
--   Vm/Region            class MachVMRegion (MachVMRegion.h, MachVMRegion.cpp); Region/Lookup on
--                        finding a region, Region/Protections on changing and restoring protections
--   Vm/Memory            class MachVMMemory (MachVMMemory.h, MachVMMemory.cpp); Memory/Chunks on
--                        PageSize and MaxBytesLeftInPage, Memory/Reading on Read, Memory/Writing on
--                        WriteRegion, Memory/Ending, Memory/Keeping, Memory/Restoring, Memory/Mapped
--                        and Memory/Storing on Write, Memory/Framing and Region/Framing on what they
--                        all leave alone, Memory/Returning on Read behind Write, Memory/Faults on inputs
--                        that WriteRegion does not handle
--   Vm/Info              get_dirty_pages, GetMemoryRegionInfo and MachVMRegion::GetMemoryTypes;
--                        Info/Dirty on the pages found, Info/Covering on the piece reported
--   Vm/Profile           GetPhysicalMemory and GetMemoryProfile; Profile/Caching
--   Exception/Data       MachException::Data and catch_mach_exception_raise (MachException.h,
--                        MachException.cpp); Exception/Names on Name and ExceptionMask,
--                        Exception/Ports on PortInfo::Save and PortInfo::Restore, with
--                        Ports/Saving and Ports/Returning
--   Exception/Message    MachException::Message; Message/Handling on what CatchExceptionRaise
--                        leaves of a message, over the generated mach_exc_server
--   Outcome              how a function ends that may throw or meet a failing assert
--   Task                 class MachTask (MachTask.h, MachTask.cpp): the port of the task, Suspend,
--                        Resume, ReadMemory and WriteMemory; Task/Control on them, Task/Stepping on
--                        EnableSingleStep and DisableSingleStep, Task/Starting on
--                        StartExceptionThread and ShutDownExcecptionThread, with Starting/Taking
--                        and Starting/Returning on who handles the exceptions of the task,
--                        Starting/Ignored on the exceptions that it leaves alone
--   Process, Process/*   class MachProcess (MachProcess.h, MachProcess.cpp): Process/Method for the
--                        object and the calls, Process and Process/Access for the methods,
--                        Process/Following on the order of calls, Access/Returning on memory that is
--                        written and read
--   Process/Monitor      MachTask::ExceptionThread (MachTask.cpp); Monitor/Handling on one message,
--                        Monitor/Bundling and Monitor/Ensuring on a burst of messages and the
--                        suspend count
--   Process/Threads      both threads side by side as a step relation; Threads/Safety on what holds
--                        in every state that can be reached; Process/Sample is a system for tests
--   Process/Suspending   when the task is suspended; Suspending/Detaching on Detach and Attach again
--   Process/Attaching    an Attach whose ptrace fails
--   Process/Racing       Resume and ExceptionMessageReceived at the same time, statement by statement;
--                        Racing/Serial and Racing/Losing on the orders of their statements
--   Debugger             main, and Debugger/Controller the class DebuggerController with its lines of
--                        the log (mac_ptrace/main.cpp); Debugger/Working for a system in which no
--                        call fails, Debugger/Script on the run of main, Debugger/Patching on what it
--                        does to the memory of the process
--   Logger               the formats of mac_ptrace/logger.hpp; Logger/Joining
--   Logger/Output        class Logger of that file, where the lines go; Output/Losing
--   Int3                 linux_int3/main.cpp, a program of its own in which two threads run an INT3;
--                        Int3/Joining on the joins, Int3/Trapping on how often
-- Each part has a module Tests with runs on concrete inputs and the theorems at them.
--
-- How the code is read. An object is a record, and a method is a function from the object to the
-- new object and the result, with the source's name in snake case. A call of the kernel is a field
-- of a record of calls, a function on the state `W` of everything outside the debugger: `VmCalls`
-- for memory, `PortCalls` for exception ports, `TaskCalls` and `ThreadCalls` for the task and its
-- threads, `MessageCalls` for messages, `ProcessCalls` for all of them and the process,
-- `ProfileCalls` for the profile of a task, `StreamCalls` for the log, `Int3Calls` for Int3;
-- `Host` holds all that main runs on. A method of the process is an `Action`, which gives back the
-- object and the state of the system also where it throws or an assert fails (`Outcome`). A
-- theorem that needs to know what a call does names it in a record of laws (`ReadLaws`,
-- `WriteLaws`, `ProtectLaws`, `RestoreLaws`, `RejectLaws`, `CountLaws`, `ThreadLaws`,
-- `ServerLaws`, `BundleLaws`, `MappedLaws`, `HandlerLaws`, `DirtyLaws`, `VmFrame`, `QuietLaws`,
-- `FileLaws`, `TrapLaws`, `GivingLaws`, `TakingLaws`, `LogFrame`, `Works`), and the Tests build a
-- machine that obeys them. Integers are natural numbers below the modulus of their C type, with
-- the wrap written out (`add64`, `sub64`, `u32`); a `kern_return_t` is its 32-bit pattern.
--
-- Bounds and fuel. The loops of Read, WriteRegion and Write take fuel, one round more than there
-- are bytes: every round but the last transfers at least one byte. The condition for this, fewer
-- than 2 ^ 32 bytes in a write, stands in the theorems. PortInfo::Restore recurs on the count,
-- TaskPortForProcessID on the tries left, the single stepping on the list of threads.
--
-- Threads. In Process/Threads a method of MachProcess is one step of the main thread, but for
-- Attach, in which the exception thread starts, and SingleStep, which has a step for each of its
-- statements. An Attach that throws behind the start of that thread is a step, too; any other
-- method that throws has none, since no code catches what it throws. A round of the exception
-- thread has two parts, since methods may run while it waits for a message. Detach joins it. In a
-- sequence of calls (Process/Following, Process/Suspending) the two calls of that thread,
-- TaskPortChanged and ExceptionMessageReceived, are calls like those of the methods, and the
-- messages that a SingleStep waits for come without a change of the task. Process/Racing has
-- finer steps for the two methods that share the messages: there a step is one statement, and a
-- schedule is a list of turns. In Int3 a step is a statement, too.
--
-- Not modelled: data races as the C++ memory model has them, and the room of the vector of
-- messages; the part of GetMemoryProfile for WITH_FBS and WITH_BKS, which no build file defines;
-- the name and priority of the exception thread; how an item of the log is printed, and the buffer
-- of a stream; the debuggee target.cpp; in Int3, what the machine does with the bytes of the page.
pub mod Prelude
pub mod Sdk
pub mod DnbError
pub mod Vm
pub mod Exception
pub mod Outcome
pub mod Task
pub mod Process
pub mod Debugger
pub mod Logger
pub mod Int3
