-- ===== src/Task/Control.antt =====
-- `Suspend`, `Resume` and the search for the port of the task in MachTask.cpp.
use debug_learning.Prelude.{
  ℕ, zero, suc, ◌+◌, ◌-◌, ◌<◌, ◌≡◌, ◌≢◌, refl, false, ◌⊎◌, inl, inr, ◌==◌, if◌then◌else◌, arith,
  u32, Bool-cases, ne→/=_true, ==_iff, subst, sym,
}
use debug_learning.Sdk.{task_null}
use debug_learning.DnbError.{assign, success}
use debug_learning.Task.{
  MachTask, TaskCalls, basic_info, suspend, resume, try_task_for_pid, task_port_for_pid,
  invalid_nub_process, usec_interval, num_retries,
}

-- What the kernel documents of the suspend count of a task.
pub record CountLaws {W : Type 0} (k : TaskCalls W) (count : W → ℕ → ℕ) : Type 0 where
  pub info_lem :
      (task : ℕ) (w : W)
      → let (kr, n, w') = k.task_info task w in
        (count w' task ≡ count w task) × (u32 kr ≡ 0 → n ≡ count w task)
  pub suspend_lem :
      (task : ℕ) (w : W)
      → let (kr, w') = k.task_suspend task w in
        count w' task ≡ (if u32 kr == 0 then count w task + 1 else count w task)
  pub resume_lem :
      (task : ℕ) (w : W)
      → 0 < count w task
      → let (kr, w') = k.task_resume task w in
        count w' task ≡ (if u32 kr == 0 then count w task - 1 else count w task)

module _ {W : Type 0} (k : TaskCalls W) (count : W → ℕ → ℕ) (laws : CountLaws k count) where
  -- Over a kernel that keeps the suspend count as documented, `Resume` takes one from the count
  -- where it succeeds, and nothing from a count of 0, for which it asks the kernel for nothing. A
  -- failure leaves the count.
  pub resume-count :
      (t : MachTask) (w : W)
      → let (status, w') = resume k t w in
        count w' t.task ≡ (if status == 0 then count w t.task - 1 else count w t.task)
  unfolding resume basic_info
  resume-count t w =
      ground (arith, laws.info_lem t.task w, laws.resume_lem t.task (k.task_info t.task w).2)

  -- Over the same kernel, a `Resume` after a `Suspend` gives the count back that was before both,
  -- where both succeed.
  pub resume-suspend :
      (t : MachTask) (w : W)
      → (suspend k t w).0 ≡ 0
      → (resume k t (suspend k t w).1).0 ≡ 0
      → count (resume k t (suspend k t w).1).1 t.task ≡ count w t.task
  unfolding suspend
  resume-suspend t w done done' =
      ground (arith, laws.suspend_lem t.task w, resume-count t (suspend k t w).1)

module _ {W : Type 0} (k : TaskCalls W) (pid : ℕ) where
  -- the variable `task` and the state before try `i`, where all tries before it failed
  abbrev pub before_try : ℕ → W → ℕ × W
  before_try zero w = (task_null, w)
  before_try (suc i) w =
      let (task, w1) = before_try i w in
      let (kr, task', w2) = k.task_for_pid pid task w1 in (task', k.usleep usec_interval w2)

  -- what `task_for_pid` answers in try `i`
  abbrev pub answer : ℕ → W → ℕ × ℕ × W
  answer i w = let (task, w') = before_try i w in k.task_for_pid pid task w'

  -- Try `i` was the first of `n` to succeed, and the port is the one that it answered; or all
  -- failed, and the port is null.
  abbrev pub Tried : ℕ → W → ℕ → W → Type 0
  Tried n w port w' =
      ((i : ℕ) × (i < n)
        × (u32 (answer i w).0 ≡ 0)
        × (port ≡ (answer i w).1)
        × (w' ≡ (answer i w).2)
        × ((j : ℕ) → j < i → u32 (answer j w).0 ≢ 0))
      ⊎ ((port ≡ task_null)
          × (w' ≡ (before_try n w).1)
          × ((j : ℕ) → j < n → u32 (answer j w).0 ≢ 0))

  try_task_for_pid-Tried :
      (n i total : ℕ) (w : W)
      → i + n ≡ total
      → ((j : ℕ) → j < i → u32 (answer j w).0 ≢ 0)
      → let (port, w') = try_task_for_pid k n pid (before_try i w).0 (before_try i w).1 in
        Tried total w port w'
  unfolding try_task_for_pid
  try_task_for_pid-Tried zero i total w sum failed =
      let same : i ≡ total = omega arith in
      subst (λ n. Tried n w task_null (before_try i w).1) same (inr (refl, refl, failed))
  try_task_for_pid-Tried (suc n) i total w sum failed =
      elim (Bool-cases (success (assign (answer i w).0))) [
        | inl ok ↦ rw ok (inl (i, omega arith, ground (arith, ok), refl, refl, failed))
        | inr bad ↦ rw bad (try_task_for_pid-Tried n (suc i) total w (omega arith) (more bad))
      ]
    where
      more : success (assign (answer i w).0) ≡ false → (j : ℕ) → j < suc i → u32 (answer j w).0 ≢ 0
      more bad j lt = elim (Bool-cases (j == i)) [
        | inl e ↦ subst (λ x. u32 (answer x w).0 ≢ 0) (sym ((==_iff j i).0 e)) (ground (arith, bad))
        | inr ne ↦ failed j (ground arith)
      ]

  -- For the id of a process, `TaskPortForProcessID` asks for the port up to ten times and sleeps
  -- after each failure: it answers the port of the first success, or null after ten failures.
  pub task_port_for_pid-Tried :
      (w : W)
      → pid ≢ invalid_nub_process
      → let (port, w') = task_port_for_pid k pid w in Tried num_retries w port w'
  unfolding task_port_for_pid
  task_port_for_pid-Tried w h =
      rw (ne→/=_true pid invalid_nub_process h)
        (try_task_for_pid-Tried num_retries 0 num_retries w refl (λ j lt. absurd (omega arith)))
