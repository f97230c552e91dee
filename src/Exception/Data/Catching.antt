-- ===== src/Exception/Data/Catching.antt =====
-- What `catch_mach_exception_raise` of MachException.cpp accepts, and what it leaves.
use debug_learning.Prelude.{
  ℕ, ◌^◌, ◌≡◌, ◌≢◌, ◌∙◌, ap, Bool, true, false, not, ◌&&◌, ◌||◌, List, [], ◌∷◌, take, length,
  get_or, take-length, ◌==◌, ltb, arith,
}
use debug_learning.Sdk.{kern_success, kern_failure, sigtrap}
use debug_learning.Exception.Data.{
  ExceptionData, Raise, is_valid, soft_signal, is_exec_trap, catch_mach_exception_raise,
}

-- The data that the exception comes with.
abbrev pub data_of : Raise → ExceptionData
data_of q = record {
  task_port = q.task_port;
  thread_port = q.thread_port;
  exc_type = q.exc_type;
  exc_data = q.exc_data;
}

-- `SoftSignal` of the data is a SIGTRAP, and the item that says so is a word of 32 bits.
abbrev pub is_sigtrap : ExceptionData → Bool
is_sigtrap d = soft_signal d == sigtrap && ltb (get_or d.exc_data 1 0) (2 ^ 32)

-- The test of the handler and `SoftSignal` mean the same data.
is_exec_trap-is_sigtrap :
    (q : Raise) → q.exc_data_count ≡ length q.exc_data → is_exec_trap q ≡ is_sigtrap (data_of q)
unfolding soft_signal
is_exec_trap-is_sigtrap q h = for q.exc_data h
  where
    for :
        (items : List ℕ)
        → q.exc_data_count ≡ length items
        → is_exec_trap (record q { exc_data = items })
          ≡ is_sigtrap (data_of (record q { exc_data = items }))
    for [] h = ground arith
    for (a ∷ []) h = ground arith
    for (a ∷ b ∷ []) h = ground arith
    for (a ∷ b ∷ c ∷ more) h = ground arith

module _ {W : Type 0} (task_is_valid : ℕ → W → Bool × W) where
  -- For an exception whose count of data is the number of its items: the handler answers
  -- KERN_SUCCESS for just the exceptions of the task that it watches and, once that task is gone,
  -- those of another of which SoftSignal is a SIGTRAP, with the signal in a word of 32 bits; the data
  -- then are those of the exception. It answers KERN_FAILURE for all others; the ports then are as
  -- they were, and the data not valid.
  pub catch_mach_exception_raise_lem :
      (q : Raise) (g : ExceptionData) (w : W)
      → q.exc_data_count ≡ length q.exc_data
      → let (kr, d, _) = catch_mach_exception_raise task_is_valid q g w in
        let gone = not (task_is_valid g.task_port w).0 in
        let accepted = q.task_port == g.task_port || gone && is_sigtrap (data_of q) in
        (accepted ≡ true → (kr ≡ kern_success) × (d ≡ data_of q))
        × (accepted ≡ false
            → (kr ≡ kern_failure)
              × (d.task_port ≡ g.task_port)
              × (d.thread_port ≡ g.thread_port)
              × (is_valid d ≡ false))
  unfolding catch_mach_exception_raise is_valid
  catch_mach_exception_raise_lem q g w h =
      let same = is_exec_trap-is_sigtrap q h in
      let all = ap (λ n. take n q.exc_data) h ∙ take-length q.exc_data in ground (arith, same, all)

  -- When the watched task is gone, an accepted exception is a soft signal, the SIGTRAP.
  pub catch-soft_signal :
      (q : Raise) (g : ExceptionData) (w : W)
      → (task_is_valid g.task_port w).0 ≡ false
      → q.task_port ≢ g.task_port
      → let (kr, d, _) = catch_mach_exception_raise task_is_valid q g w in
        kr ≡ kern_success → (d.task_port ≡ q.task_port) × (soft_signal d ≡ sigtrap)
  unfolding catch_mach_exception_raise soft_signal
  catch-soft_signal q g w gone other h = ground arith
