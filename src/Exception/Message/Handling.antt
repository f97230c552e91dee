-- ===== src/Exception/Message/Handling.antt =====
-- What `CatchExceptionRaise` of MachException.cpp reads from a message, for each kind of request.
use debug_learning.Prelude.{
  ℕ, ◌≡◌, refl, ◌⊎◌, inl, inr, Bool, true, false, not, ◌&&◌, ◌||◌, take, arith, ◌==◌,
}
use debug_learning.Exception.Data.{
  ExceptionData, Raise, no_exception, is_valid, is_exec_trap, catch_mach_exception_raise,
}
use debug_learning.Exception.Message.{
  MachMessage, Message, MessageCalls, Handler, catch_exception_raise,
}

-- What a message asks for: one of the three routines of the interface, or none of them.
pub data Request : Type 0 where
  raise : (q : Raise) → Request
  raise_state raise_state_identity unknown : Request

-- What is documented of a server that MIG generates: it calls the routine that the message names,
-- with the arguments from the message, and is true; for an unknown message it calls nothing and is
-- false.
pub record ServerLaws {W : Type 0} (k : MessageCalls W) (request : MachMessage → Request)
    : Type 0 where
  pub on_raise :
      (h : Handler W) (m r : MachMessage) (q : Raise) (d : ExceptionData) (w : W)
      → request m ≡ raise q
      → let (done, m', r', d', w') = k.mach_exc_server h m r d w in
        let (kr, d'', w'') = h q d w in (done ≡ true) × (d' ≡ d'') × (w' ≡ w'')
  pub on_state :
      (h : Handler W) (m r : MachMessage) (d : ExceptionData) (w : W)
      → (request m ≡ raise_state) ⊎ (request m ≡ raise_state_identity)
      → let (done, m', r', d', w') = k.mach_exc_server h m r d w in
        (done ≡ true) × (d' ≡ d) × (w' ≡ w)
  pub on_unknown :
      (h : Handler W) (m r : MachMessage) (d : ExceptionData) (w : W)
      → request m ≡ unknown
      → let (done, m', r', d', w') = k.mach_exc_server h m r d w in
        (done ≡ false) × (d' ≡ d) × (w' ≡ w)

abbrev pub is_known : Request → Bool
is_known unknown = false
is_known r = true

-- The exception is one that the handler takes over.
abbrev pub is_accepted : ℕ → Bool → Request → Bool
is_accepted task alive (raise q) = q.task_port == task || not alive && is_exec_trap q
is_accepted task alive r = false

-- The data are those of the exception.
abbrev pub Carries : Request → ExceptionData → Type 0
Carries (raise q) d =
    (d.task_port ≡ q.task_port)
    × (d.thread_port ≡ q.thread_port)
    × (d.exc_type ≡ q.exc_type)
    × (d.exc_data ≡ take q.exc_data_count q.exc_data)
Carries r d = ⊥

-- The three facts about what was caught, for a request.
abbrev pub Caught : {W : Type 0} → Request → ℕ → Bool → Bool × Message × W → Type 0
Caught r task alive (done, m', w') =
    (done ≡ is_known r)
    × (is_valid m'.state ≡ true → is_accepted task alive r ≡ true)
    × (is_accepted task alive r ≡ true → Carries r m'.state)

module _ {W : Type 0} (k : MessageCalls W) (request : MachMessage → Request)
    (laws : ServerLaws k request) (task_is_valid : ℕ → W → Bool × W) where
  abbrev handler : Handler W
  handler = catch_mach_exception_raise task_is_valid

  -- the data when the server is called
  abbrev start : Message → ℕ → ExceptionData
  start m task = record m.state { task_port = task }

  caught :
      (r : Request) (task : ℕ) (m : Message) (w : W)
      → request m.exc_msg ≡ r
      → m.state ≡ no_exception
      → Caught r task (task_is_valid task w).0 (catch_exception_raise k task_is_valid task m w)
  unfolding catch_exception_raise catch_mach_exception_raise is_valid
  caught (raise q) task m w e fresh =
      ground (arith, laws.on_raise handler m.exc_msg m.reply_msg q (start m task) w e)
  caught raise_state task m w e fresh =
      ground (arith, laws.on_state handler m.exc_msg m.reply_msg (start m task) w (inl e))
  caught raise_state_identity task m w e fresh =
      ground (arith, laws.on_state handler m.exc_msg m.reply_msg (start m task) w (inr e))
  caught unknown task m w e fresh =
      ground (arith, laws.on_unknown handler m.exc_msg m.reply_msg (start m task) w e)

  -- For a new message that was received, and a generated server that calls the handler as
  -- documented: `CatchExceptionRaise` is true just for a request of the interface; the data are
  -- valid only if the handler accepted the exception; and then they are those of the exception.
  pub catch_exception_raise-Caught :
      (task : ℕ) (m : Message) (w : W)
      → m.state ≡ no_exception
      → Caught
          (request m.exc_msg)
          task
          (task_is_valid task w).0
          (catch_exception_raise k task_is_valid task m w)
  catch_exception_raise-Caught task m w fresh = caught (request m.exc_msg) task m w refl fresh
