-- ===== src/Exception/Message.antt =====
-- `MachException::Message` of mac_ptrace/lldb/MachException.h and MachException.cpp: an exception
-- message of the kernel, the reply to it, and the data that the handler read from it.
--
-- `mach_exc_server` is generated from mac_ptrace/lldb/dbgnub-mig.defs and is a parameter; it takes
-- the handler `catch_mach_exception_raise`, which it calls. A process id is the 32-bit pattern of
-- an `int`.
pub mod Handling
use debug_learning.Prelude.{
  ℕ, ◌-◌, ◌^◌, Bool, true, false, List, [], ◌==◌, ◌/=◌, bit_and, if◌then◌else◌,
}
use debug_learning.Sdk.{task_null}
use debug_learning.DnbError.{assign}
use debug_learning.Outcome.{Outcome, returned, aborted}
use debug_learning.Exception.Data.{
  ExceptionData, no_exception, soft_signal, Raise, catch_mach_exception_raise,
}

-- The union of a header and 1024 bytes: the field `msgh_size` of the header, and the rest.
pub record MachMessage : Type 0 where
  pub msgh_size : ℕ
  pub body : List ℕ

-- all bytes 0
abbrev pub no_message : MachMessage
no_message = record { msgh_size = 0; body = [] }

pub record Message : Type 0 where
  pub exc_msg : MachMessage
  pub reply_msg : MachMessage
  pub state : ExceptionData

-- `Message()`
abbrev pub new_message : Message
new_message = record { exc_msg = no_message; reply_msg = no_message; state = no_exception }

-- `MACH_RCV_MSG`, `MACH_RCV_TIMEOUT`, `MACH_RCV_INTERRUPT`
abbrev pub mach_rcv_msg : ℕ
mach_rcv_msg = 2

abbrev pub mach_rcv_timeout : ℕ
mach_rcv_timeout = 0x100

abbrev pub mach_rcv_interrupt : ℕ
mach_rcv_interrupt = 0x400

-- `state_pid = -1`
abbrev pub no_pid : ℕ
no_pid = 2 ^ 32 - 1

-- The handler that the generated code calls.
abbrev pub Handler : Type 0 → Type 0
Handler W = Raise → ExceptionData → W → ℕ × ExceptionData × W

pub record MessageCalls (W : Type 0) : Type 0 where
  -- `mach_msg(&exc_msg.hdr, options, 0, 1024, port, timeout, notify)`: the result and the message
  pub receive_msg : ℕ → ℕ → ℕ → ℕ → MachMessage → W → ℕ × MachMessage × W
  -- `mach_msg(&reply_msg.hdr, MACH_SEND_MSG | MACH_SEND_INTERRUPT, msgh_size, 0, …)`
  pub send_msg : MachMessage → ℕ → W → ℕ × W
  -- `mach_exc_server(&exc_msg.hdr, &reply_msg.hdr)`, with what `g_message` points to
  pub mach_exc_server :
      Handler W
      → MachMessage
      → MachMessage
      → ExceptionData
      → W
      → Bool × MachMessage × MachMessage × ExceptionData × W
  -- `pid_for_task(task, &pid)`: the result and the value of `pid`
  pub pid_for_task : ℕ → ℕ → W → ℕ × ℕ × W
  -- `ptrace(PT_THUPDATE, pid, thread, signal)`
  pub ptrace_thupdate : ℕ → ℕ → ℕ → W → ℕ × W

module _ {W : Type 0} (k : MessageCalls W) where
  -- `Receive`, with the default for `notify_port`
  unfoldable pub receive : ℕ → ℕ → ℕ → Message → W → ℕ × Message × W
  receive port options timeout m w =
      let mach_msg_timeout = if bit_and options mach_rcv_timeout /= 0 then timeout else 0 in
      let (kr, exc_msg, w') = k.receive_msg options port mach_msg_timeout 0 m.exc_msg w in
      ((assign kr).err, record m { exc_msg = exc_msg }, w')

  -- `CatchExceptionRaise`; `task_is_valid` is `MachTask::IsValid`
  unfoldable pub catch_exception_raise : (ℕ → W → Bool × W) → ℕ → Message → W → Bool × Message × W
  catch_exception_raise task_is_valid task m w =
      let state = record m.state { task_port = task } in
      let (done, exc_msg, reply_msg, state', w') =
        k.mach_exc_server (catch_mach_exception_raise task_is_valid) m.exc_msg m.reply_msg state
          w in
      (done, record { exc_msg = exc_msg; reply_msg = reply_msg; state = state' }, w')

  -- the last call in `Reply`
  abbrev pub send_reply : Message → W → ℕ × W
  send_reply m w =
      let (kr, w') = k.send_msg m.reply_msg m.reply_msg.msgh_size w in ((assign kr).err, w')

  -- `Reply`, with the task port and the id of the process. A failure of `ptrace` is printed only.
  unfoldable pub reply : ℕ → ℕ → ℕ → Message → W → Outcome ℕ × W
  reply task pid signal m w =
      if soft_signal m.state == 0
      then (let (status, w') = send_reply m w in (returned status, w'))
      else if task == m.state.task_port
      then (let (ret, w') = k.ptrace_thupdate pid m.state.thread_port signal w in
          let (status, w'') = send_reply m w' in
          if pid == no_pid then (aborted, w) else (returned status, w''))
      else (let (kr, state_pid, w') = k.pid_for_task m.state.task_port no_pid w in
          let (ret, w'') =
            k.ptrace_thupdate state_pid m.state.thread_port (soft_signal m.state) w' in
          let (status, w''') = send_reply m w'' in
          if state_pid == no_pid then (aborted, w') else (returned status, w'''))
