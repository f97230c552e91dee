-- ===== src/Task/Stepping.antt =====
-- `EnableSingleStep` and `DisableSingleStep` of MachTask.cpp: one bit of the debug state of each
-- thread of the task.
pub mod Laws
use Prim.{Unit, tt}
use debug_learning.Prelude.{ℕ, ◌-◌, ◌^◌, List, [], ◌∷◌, bit_and, bit_or, not32, if◌then◌else◌}
use debug_learning.DnbError.{DnbError, assign, fail}
use debug_learning.Outcome.{Outcome, returned, thrown, status}
use debug_learning.Task.{MachTask}

-- `arm_debug_state64_t`: the word `__mdscr_el1`, and the other registers.
pub record DebugState : Type 0 where
  pub mdscr_el1 : ℕ
  pub others : List ℕ

-- The calls of the kernel; the state of a thread comes and goes with a count of words.
pub record ThreadCalls (W : Type 0) : Type 0 where
  pub task_threads : ℕ → W → ℕ × List ℕ × W
  pub thread_get_state : ℕ → W → ℕ × DebugState × ℕ × W
  pub thread_set_state : ℕ → DebugState → ℕ → W → ℕ × W

-- `SS_ENABLE`
abbrev pub ss_enable : ℕ
ss_enable = 1

-- `dbg.__mdscr_el1 |= SS_ENABLE`
abbrev pub with_step : DebugState → DebugState
with_step s = record s { mdscr_el1 = bit_or s.mdscr_el1 ss_enable }

-- `dbg.__mdscr_el1 &= ~SS_ENABLE`: the complement is taken on 32 bits, and then widened.
abbrev pub without_step : DebugState → DebugState
without_step s = record s { mdscr_el1 = bit_and s.mdscr_el1 (not32 ss_enable) }

module _ {W : Type 0} (k : ThreadCalls W) where
  -- The loop of both functions, which differ in the change only.
  unfoldable pub step_threads : (DebugState → DebugState) → List ℕ → W → Outcome Unit × W
  step_threads change [] w = (returned tt, w)
  step_threads change (thread ∷ threads) w =
      let (kr1, dbg, count, w1) = k.thread_get_state thread w in
      let (kr2, w2) = k.thread_set_state thread (change dbg) count w1 in
      let rest = step_threads change threads w2 in
      if fail (assign kr1)
      then (thrown (status (assign kr1)), w1)
      else if fail (assign kr2)
      then (thrown (status (assign kr2)), w2)
      else rest

  -- the call of `task_threads`, and the loop
  unfoldable pub step_all : (DebugState → DebugState) → MachTask → W → Outcome Unit × W
  unfolding step_threads
  step_all change t w =
      let (kr, threads, w') = k.task_threads t.task w in
      if fail (assign kr) then (thrown (status (assign kr)), w') else step_threads change threads w'

  -- `EnableSingleStep`
  unfoldable pub enable_single_step : MachTask → W → Outcome Unit × W
  unfolding step_all
  enable_single_step = step_all with_step

  -- `DisableSingleStep`
  unfoldable pub disable_single_step : MachTask → W → Outcome Unit × W
  unfolding step_all
  disable_single_step = step_all without_step
