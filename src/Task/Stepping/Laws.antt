-- ===== src/Task/Stepping/Laws.antt =====
-- What `EnableSingleStep` and `DisableSingleStep` of MachTask.cpp do to the threads of the task.
use Prim.{Unit}
use debug_learning.Prelude.{
  ℕ, ◌-◌, ◌%◌, ◌/◌, ◌+◌, ◌*◌, ◌^◌, ◌≡◌, ◌≢◌, refl, Bool, true, false, ◌||◌, ◌⊎◌, inl, inr, List, [],
  ◌∷◌, ◌==◌, if◌then◌else◌, arith, u32, Bool-cases, ==_iff, bit_and, bit_or, ap, sym, subst,
  fun_ext,
}
use debug_learning.Prelude.Bits.{bit_or-one, bit_and_even}
use debug_learning.DnbError.{assign, fail}
use debug_learning.Outcome.{
  Outcome, returned, thrown, aborted, endless, message, status, errno, prefixed,
}
use debug_learning.Task.{MachTask}
use debug_learning.Task.Stepping.{
  DebugState, ThreadCalls, with_step, without_step, step_threads, step_all, enable_single_step,
  disable_single_step,
}

abbrev pub has : ℕ → List ℕ → Bool
has x [] = false
has x (y ∷ ys) = x == y || has x ys

-- What the kernel documents of the debug states of threads: `state_of w x` is that of thread `x`.
pub record ThreadLaws {W : Type 0} (k : ThreadCalls W) (state_of : W → ℕ → DebugState)
    (threads_of : W → ℕ → List ℕ) : Type 0 where
  pub threads_lem :
      (task : ℕ) (w : W)
      → let (kr, threads, w') = k.task_threads task w in
        ((x : ℕ) → state_of w' x ≡ state_of w x) × (u32 kr ≡ 0 → threads ≡ threads_of w task)
  pub get_lem :
      (thread : ℕ) (w : W)
      → let (kr, dbg, n, w') = k.thread_get_state thread w in
        ((x : ℕ) → state_of w' x ≡ state_of w x) × (u32 kr ≡ 0 → dbg ≡ state_of w thread)
  pub set_lem :
      (thread : ℕ) (dbg : DebugState) (n : ℕ) (w : W)
      → let (kr, w') = k.thread_set_state thread dbg n w in
        ((x : ℕ) → x ≢ thread → state_of w' x ≡ state_of w x)
        × (u32 kr ≡ 0 → state_of w' thread ≡ dbg)
        × (u32 kr ≢ 0 → state_of w' thread ≡ state_of w thread)

-- Every thread of the list is changed and no other; or the error of a call was thrown, and a
-- thread is changed or as it was.
abbrev pub Stepped :
    (DebugState → DebugState)
    → (ℕ → Bool)
    → (ℕ → DebugState)
    → (ℕ → DebugState)
    → Outcome Unit
    → Type 0
Stepped change listed old new (returned u) =
    (x : ℕ) → new x ≡ (if listed x then change (old x) else old x)
Stepped change listed old new (thrown (status e)) =
    (e.err ≢ 0) × ((x : ℕ) → (new x ≡ old x) ⊎ ((listed x ≡ true) × (new x ≡ change (old x))))
Stepped change listed old new (thrown (message s)) = ⊥
Stepped change listed old new (thrown (errno n)) = ⊥
Stepped change listed old new (thrown (prefixed s e)) = ⊥
Stepped change listed old new aborted = ⊥
Stepped change listed old new endless = ⊥

module _ {W : Type 0} (k : ThreadCalls W) (state_of : W → ℕ → DebugState)
    (threads_of : W → ℕ → List ℕ) (laws : ThreadLaws k state_of threads_of)
    (change : DebugState → DebugState)
    (idem : (s : DebugState) → change (change s) ≡ change s) where
  -- One thread that is changed before the rest of the list.
  Stepped-cons :
      (o : Outcome Unit) (y : ℕ) (ys : List ℕ) (old mid new : ℕ → DebugState)
      → ((x : ℕ) → mid x ≡ (if x == y then change (old x) else old x))
      → Stepped change (λ x. has x ys) mid new o
      → Stepped change (λ x. has x (y ∷ ys)) old new o
  Stepped-cons (returned u) y ys old mid new first rest =
      λ x. ground (arith, first x, rest x, idem (old x))
  Stepped-cons (thrown (status e)) y ys old mid new first (bad, rest) =
      (bad, λ x. ground (arith, first x, rest x, idem (old x)))
  Stepped-cons (thrown (message s)) y ys old mid new first rest = rest
  Stepped-cons (thrown (errno n)) y ys old mid new first rest = rest
  Stepped-cons (thrown (prefixed s e)) y ys old mid new first rest = rest
  Stepped-cons aborted y ys old mid new first rest = rest
  Stepped-cons endless y ys old mid new first rest = rest

  step_threads-Stepped :
      (threads : List ℕ) (w : W)
      → let (o, w') = step_threads k change threads w in
        Stepped change (λ x. has x threads) (state_of w) (state_of w') o
  unfolding step_threads
  step_threads-Stepped [] w = λ x. refl
  step_threads-Stepped (y ∷ ys) w = elim (Bool-cases (fail (assign got.0))) [
    | inl bad ↦ rw bad (ground (arith, bad), λ x. inl (after_get.0 x))
    | inr ok ↦ rw ok (elim (Bool-cases (fail (assign put.0))) [
      | inl bad ↦ rw bad (ground (arith, bad), λ x. inl (kept bad x))
      | inr ok' ↦ rw ok' (
          Stepped-cons _ y ys (state_of w) (state_of put.1) _ (changed ok ok')
            (step_threads-Stepped ys put.1))
    ])
  ]
    where
      got : ℕ × DebugState × ℕ × W
      got = k.thread_get_state y w

      put : ℕ × W
      put = k.thread_set_state y (change got.1) got.2 got.3

      after_get :
          ((x : ℕ) → state_of got.3 x ≡ state_of w x) × (u32 got.0 ≡ 0 → got.1 ≡ state_of w y)
      after_get = laws.get_lem y w

      kept : fail (assign put.0) ≡ true → (x : ℕ) → state_of put.1 x ≡ state_of w x
      kept bad x =
          grind (arith, bad, laws.set_lem y (change got.1) got.2 got.3, after_get.0 x, ==_iff x y)

      changed :
          fail (assign got.0) ≡ false
          → fail (assign put.0) ≡ false
          → (x : ℕ) → state_of put.1 x ≡ (if x == y then change (state_of w x) else state_of w x)
      changed ok ok' x =
          grind (arith, ok, ok', laws.set_lem y (change got.1) got.2 got.3, after_get, ==_iff x y)

  step_all-Stepped :
      (t : MachTask) (w : W)
      → let (o, w') = step_all k change t w in
        Stepped change (λ x. has x (threads_of w t.task)) (state_of w) (state_of w') o
  unfolding step_all
  step_all-Stepped t w = elim (Bool-cases (fail (assign got.0))) [
    | inl bad ↦ rw bad (ground (arith, bad), λ x. inl (after_get.0 x))
    | inr ok ↦ rw ok (
        rw (sym (after_get.1 (ground (arith, ok))))
          (rw (sym (fun_ext after_get.0)) (step_threads-Stepped got.1 got.2)))
  ]
    where
      got : ℕ × List ℕ × W
      got = k.task_threads t.task w

      after_get :
          ((x : ℕ) → state_of got.2 x ≡ state_of w x)
          × (u32 got.0 ≡ 0 → got.1 ≡ threads_of w t.task)
      after_get = laws.threads_lem t.task w

with_step_idem : (s : DebugState) → with_step (with_step s) ≡ with_step s
with_step_idem s =
    let m = s.mdscr_el1 in
    ap (λ n. record s { mdscr_el1 = n }) (omega (arith, bit_or-one m, bit_or-one (bit_or m 1)))

without_step_idem : (s : DebugState) → without_step (without_step s) ≡ without_step s
without_step_idem s =
    let m = s.mdscr_el1 in
    ap (λ n. record s { mdscr_el1 = n })
      (omega (arith, bit_and_even m, bit_and_even (bit_and m (2 ^ 32 - 2))))

-- The lowest bit of the register set.
abbrev pub set_step : DebugState → DebugState
set_step s = record s { mdscr_el1 = s.mdscr_el1 / 2 * 2 + 1 }

-- The lowest bit cleared, and every bit from bit 32 on.
abbrev pub clear_step : DebugState → DebugState
clear_step s = record s { mdscr_el1 = s.mdscr_el1 / 2 % 2 ^ 31 * 2 }

module _ {W : Type 0} (k : ThreadCalls W) (state_of : W → ℕ → DebugState)
    (threads_of : W → ℕ → List ℕ) (laws : ThreadLaws k state_of threads_of) where
  -- Over a kernel that keeps the debug states as documented, `EnableSingleStep` sets the lowest bit
  -- of the register of every thread of the task and changes nothing else; or it throws the error of
  -- a call, and each thread is as it was, or is one of the task and has that bit set.
  pub enable_single_step-Stepped :
      (t : MachTask) (w : W)
      → let (o, w') = enable_single_step k t w in
        Stepped set_step (λ x. has x (threads_of w t.task)) (state_of w) (state_of w') o
  unfolding enable_single_step
  enable_single_step-Stepped t w =
      subst
        (λ c.
          Stepped c (λ x. has x (threads_of w t.task)) (state_of w)
            (state_of (step_all k with_step t w).1) (step_all k with_step t w).0)
        (fun_ext (λ s. ap (λ n. record s { mdscr_el1 = n }) (bit_or-one s.mdscr_el1)))
        (step_all-Stepped k state_of threads_of laws with_step with_step_idem t w)

  -- Over the same kernel, `DisableSingleStep` clears the lowest bit of the register of every thread
  -- of the task, and with it the bits from 32 on, since the complement of the constant has 32 bits;
  -- it changes nothing else. Or it throws the error of a call, and each thread is as it was, or is
  -- one of the task and has those bits cleared.
  pub disable_single_step-Stepped :
      (t : MachTask) (w : W)
      → let (o, w') = disable_single_step k t w in
        Stepped clear_step (λ x. has x (threads_of w t.task)) (state_of w) (state_of w') o
  unfolding disable_single_step
  disable_single_step-Stepped t w =
      subst
        (λ c.
          Stepped c (λ x. has x (threads_of w t.task)) (state_of w)
            (state_of (step_all k without_step t w).1) (step_all k without_step t w).0)
        (fun_ext (λ s. ap (λ n. record s { mdscr_el1 = n }) (bit_and_even s.mdscr_el1)))
        (step_all-Stepped k state_of threads_of laws without_step without_step_idem t w)
