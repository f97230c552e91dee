-- ===== src/Exception/Data.antt =====
-- `MachException::Data` of mac_ptrace/lldb/MachException.h, and the handler
-- `catch_mach_exception_raise` of MachException.cpp.
--
-- An item of exception data is the 64-bit pattern of a `mach_exception_data_type_t`. Reading item 0
-- of an empty vector is undefined in C++, and `none` here. `MachTask::IsValid` is a call of the
-- kernel, and a parameter.
pub mod Catching
use debug_learning.Prelude.{
  ℕ, Bool, true, false, not, ◌&&◌, Option, none, some, List, [], ◌∷◌, ◌++◌, take, length, ◌==◌,
  ◌/=◌, u32, if◌then◌else◌,
}
use debug_learning.Sdk.{
  task_null, exc_software, exc_breakpoint, exc_soft_signal, sigtrap, kern_success, kern_failure,
}

pub record ExceptionData : Type 0 where
  pub task_port : ℕ
  pub thread_port : ℕ
  pub exc_type : ℕ
  pub exc_data : List ℕ

-- `Data()`, and what `Clear` leaves
abbrev pub no_exception : ExceptionData
no_exception = record { task_port = task_null; thread_port = 0; exc_type = 0; exc_data = [] }

unfoldable pub is_valid : ExceptionData → Bool
is_valid d = d.task_port /= task_null && d.thread_port /= 0 && d.exc_type /= 0

-- The data of a soft signal: two items, of which the first says so.
abbrev pub signal_of : List ℕ → Option ℕ
signal_of (kind ∷ signal ∷ []) = if kind == exc_soft_signal then some signal else none
signal_of _ = none

-- `SoftSignal`; the cast to `int` keeps the low 32 bits.
unfoldable pub soft_signal : ExceptionData → ℕ
soft_signal d =
    if d.exc_type == exc_software
    then elim (signal_of d.exc_data) [ none ↦ 0 | some signal ↦ u32 signal ]
    else 0

-- `exc_data[0] == 1`
abbrev pub first_is_one : List ℕ → Option Bool
first_is_one [] = none
first_is_one (x ∷ xs) = some (x == 1)

unfoldable pub is_breakpoint : ExceptionData → Option Bool
is_breakpoint d =
    if d.exc_type == exc_breakpoint
    then some true
    else if d.exc_type == exc_software
    then first_is_one d.exc_data
    else some false

-- `AppendExceptionData(Data, Count)`
abbrev pub append_exception_data : List ℕ → ℕ → ExceptionData → ExceptionData
append_exception_data items count d = record d { exc_data = d.exc_data ++ take count items }

-- The arguments of `catch_mach_exception_raise` that it reads.
pub record Raise : Type 0 where
  pub thread_port : ℕ
  pub task_port : ℕ
  pub exc_type : ℕ
  pub exc_data : List ℕ
  pub exc_data_count : ℕ

-- The four assignments that both successful branches make.
abbrev pub take_over : Raise → ExceptionData → ExceptionData
take_over q d =
    append_exception_data q.exc_data q.exc_data_count
      (record d { task_port = q.task_port; thread_port = q.thread_port; exc_type = q.exc_type })

-- `exc_type == EXC_SOFTWARE && exc_data_count == 2 && …`: a SIGTRAP, as after an exec.
abbrev pub is_exec_trap : Raise → Bool
is_exec_trap q =
    q.exc_type == exc_software
    && q.exc_data_count == 2
    && (elim (signal_of (take 2 q.exc_data)) [ none ↦ false | some signal ↦ signal == sigtrap ])

-- `catch_mach_exception_raise`, on the data that `g_message` points to.
module _ {W : Type 0} (task_is_valid : ℕ → W → Bool × W) where
  unfoldable pub catch_mach_exception_raise : Raise → ExceptionData → W → ℕ × ExceptionData × W
  catch_mach_exception_raise q g w =
      let d = record g { exc_type = 0; exc_data = [] } in
      let (alive, w') = task_is_valid d.task_port w in
      if q.task_port == d.task_port
      then (kern_success, take_over q d, w)
      else if not alive && is_exec_trap q
      then (kern_success, take_over q d, w')
      else (kern_failure, d, w')

-- `catch_mach_exception_raise_state` and `catch_mach_exception_raise_state_identity`: neither looks
-- at its arguments or changes the data.
abbrev pub catch_mach_exception_raise_state : ℕ
catch_mach_exception_raise_state = kern_failure

abbrev pub catch_mach_exception_raise_state_identity : ℕ
catch_mach_exception_raise_state_identity = kern_failure
