-- ===== src/Int3/Trapping.antt =====
-- How often INT3 is run, and where `main` of linux_int3/main.cpp ends.
use Prim.{tt}
use debug_learning.Prelude.{
  Text, codes, ℕ, zero, suc, ◌+◌, ◌≤◌, ◌≡◌, ◌≢◌, refl, Bool, true, false, List, [], ◌∷◌, arith,
  if◌then◌else◌,
}
use debug_learning.Outcome.{Outcome, returned, thrown, aborted, endless}
use debug_learning.Int3.Joining.{
  main_calls, thrower_calls, IsJoined, IsJoined-before, IsJoined-round, join_thrower-IsJoined,
  join_worker-IsJoined, calls_bound,
}
use debug_learning.Int3.{
  Int3Calls, Thread, main_thread, thrower, worker, MainPoint, announcing, calling, joining_thrower,
  joining_worker, ended, ThrowerPoint, to_announce, to_call, thrown_out, Threads, thread_step,
  first_threads, run_threads, main_step, thrower_step, worker_step, with_page, main, int3_bytes,
  minus_one, trap_handler,
}

-- What the system promises of the handler, of a byte of memory, and of the count of the INT3 that
-- were run: where the handler is there, the code at an INT3 runs it.
pub record TrapLaws {W : Type 0} (k : Int3Calls W) (installed : W → Bool) (byte : ℕ → W → ℕ)
    (traps : W → ℕ) : Type 0 where
  pub opens : (w : W) → traps (k.open_zero w).1 ≡ traps w
  pub maps : (n fd : ℕ) (w : W) → traps (k.mmap n fd w).1 ≡ traps w
  pub copies : (p b : ℕ) (w : W) → byte p (k.memcpy p (b ∷ []) w) ≡ b
  pub copies_only : (p : ℕ) (bs : List ℕ) (w : W) → traps (k.memcpy p bs w) ≡ traps w
  pub installs : (w : W) → (k.sigaction w).0.0 ≢ minus_one → installed (k.sigaction w).1 ≡ true
  pub installs_only :
      (p : ℕ) (w : W) → (byte p (k.sigaction w).1 ≡ byte p w) × (traps (k.sigaction w).1 ≡ traps w)
  pub prints :
      (p : ℕ) (parts : List Text) (w : W)
      → (installed (k.print parts w) ≡ installed w)
        × (byte p (k.print parts w) ≡ byte p w)
        × (traps (k.print parts w) ≡ traps w)
  pub calls :
      (t : Thread) (p : ℕ) (w : W)
      → installed w ≡ true
      → byte p w ≡ 0xcc
      → let (back, w1) = k.call_code (trap_handler k t) p w in
        (installed w1 ≡ true) × (byte p w1 ≡ 0xcc) × (traps w1 ≡ suc (traps w))

if-holds :
    {A : Type 0} (P : A → Type 0) (test : Bool) (x y : A) → P x → P y → P (if test then x else y)
if-holds P true x y hx hy = hx
if-holds P false x y hx hy = hy

module _ {W : Type 0} (k : Int3Calls W) (installed : W → Bool) (byte : ℕ → W → ℕ) (traps : W → ℕ)
    (laws : TrapLaws k installed byte traps) where
  -- The handler and the INT3 are there, and `c` INT3 were run.
  abbrev Ready : ℕ → ℕ → W → Type 0
  Ready c p w = (installed w ≡ true) × (byte p w ≡ 0xcc) × (traps w ≡ c)

  print-Ready :
      (parts : List Text) (c c' p : ℕ) (w : W) → c' ≡ c → Ready c p w → Ready c' p (k.print parts w)
  print-Ready parts c c' p w eq h = ground (arith, laws.prints p parts w)

  call-Ready :
      (t : Thread) (c c' p : ℕ) (w : W)
      → c' ≡ suc c
      → Ready c p w
      → Ready c' p (k.call_code (trap_handler k t) p w).1
  call-Ready t c c' p w eq h = ground (arith, laws.calls t p w)

  -- `n` INT3 were run before, and then those of the two threads.
  abbrev pub IsTrapping : ℕ → ℕ → Threads × W → Type 0
  IsTrapping n p (s, w) =
      Ready (n + main_calls s.main_at + thrower_calls s.thrower_at) p w
      × IsJoined s.main_at s.thrower_at s.rounds

  main_step-IsTrapping :
      (m : MainPoint) (n p : ℕ) (s : Threads) (w : W)
      → s.main_at ≡ m
      → IsTrapping n p (s, w)
      → IsTrapping n p (main_step k p m s w)
  main_step-IsTrapping announcing n p s w eq h = (print-Ready _ _ _ p w (ground arith) h.0, tt)
  main_step-IsTrapping calling n p s w eq h =
      (call-Ready main_thread _ _ p w (ground arith) h.0, tt)
  main_step-IsTrapping joining_thrower n p s w eq h =
      ground (arith, join_thrower-IsJoined s.thrower_at s.rounds)
  main_step-IsTrapping joining_worker n p s w eq h =
      ground (arith, join_worker-IsJoined s.thrower_at s.rounds)
  main_step-IsTrapping ended n p s w eq h = h

  thrower_step-IsTrapping :
      (q : ThrowerPoint) (n p : ℕ) (s : Threads) (w : W)
      → s.thrower_at ≡ q
      → IsTrapping n p (s, w)
      → IsTrapping n p (thrower_step k p q s w)
  thrower_step-IsTrapping to_announce n p s w eq h = (
    print-Ready _ _ _ p w (ground arith) h.0,
    IsJoined-before s.main_at s.thrower_at to_call s.rounds (λ e. ground arith) h.1,
  )
  thrower_step-IsTrapping to_call n p s w eq h = (
    call-Ready thrower _ _ p w (ground arith) h.0,
    IsJoined-before s.main_at s.thrower_at thrown_out s.rounds (λ e. ground arith) h.1,
  )
  thrower_step-IsTrapping thrown_out n p s w eq h = h

  worker_step-IsTrapping :
      (r n p : ℕ) (s : Threads) (w : W)
      → s.rounds ≡ r
      → IsTrapping n p (s, w)
      → IsTrapping n p (worker_step k r s w)
  worker_step-IsTrapping zero n p s w eq h = h
  worker_step-IsTrapping (suc r) n p s w eq h = (
    print-Ready _ _ _ p w refl h.0,
    IsJoined-round s.main_at s.thrower_at s.rounds r (omega arith) h.1,
  )

  thread_step-IsTrapping :
      (t : Thread) (n p : ℕ) (s : Threads) (w : W)
      → IsTrapping n p (s, w)
      → IsTrapping n p (thread_step k t p s w)
  thread_step-IsTrapping main_thread n p s w h = main_step-IsTrapping s.main_at n p s w refl h
  thread_step-IsTrapping thrower n p s w h = thrower_step-IsTrapping s.thrower_at n p s w refl h
  thread_step-IsTrapping worker n p s w h = worker_step-IsTrapping s.rounds n p s w refl h

  run_threads-IsTrapping :
      (ts : List Thread) (n p : ℕ) (s : Threads) (w : W)
      → IsTrapping n p (s, w)
      → IsTrapping n p (run_threads k ts p s w)
  unfolding run_threads
  run_threads-IsTrapping [] n p s w h = h
  run_threads-IsTrapping (t ∷ ts) n p s w h =
      let (s1, w1) = thread_step k t p s w in
      if-holds (IsTrapping n p) s.alive _ _
        (run_threads-IsTrapping ts n p s1 w1 (thread_step-IsTrapping t n p s w h)) h

-- How `main` may end, where `n` INT3 were run before.
abbrev pub IsRun : {W : Type 0} → (W → Bool) → (W → ℕ) → ℕ → Outcome Threads × W → Type 0
IsRun installed traps n (returned s, w) =
    (installed w ≡ true)
    × (traps w ≤ n + 2)
    × (s.main_at ≡ ended → (traps w ≡ n + 2) × (s.thrower_at ≡ thrown_out) × (s.rounds ≡ 0))
IsRun installed traps n (thrown c, w) = traps w ≡ n
IsRun installed traps n (aborted, w) = ⊥
IsRun installed traps n (endless, w) = ⊥

module _ {W : Type 0} (k : Int3Calls W) (installed : W → Bool) (byte : ℕ → W → ℕ) (traps : W → ℕ)
    (laws : TrapLaws k installed byte traps) where
  threads-IsRun :
      (turns : List Thread) (n p : ℕ) (w : W)
      → Ready k installed byte traps laws n p w
      → let (s, w') = run_threads k turns p first_threads w in
        IsRun installed traps n (returned s, w')
  threads-IsRun turns n p w h =
      let (s, w') = run_threads k turns p first_threads w in
      let (ready, joined) =
        run_threads-IsTrapping k installed byte traps laws turns n p first_threads w
          ((h.0, h.1, omega arith), tt) in
      ground (arith, ready, calls_bound s.main_at s.thrower_at s.rounds joined)

  with_page-IsRun :
      (turns : List Thread) (n p : ℕ) (w : W)
      → byte p w ≡ 0xcc
      → traps w ≡ n
      → IsRun installed traps n (with_page k turns p w)
  unfolding with_page
  with_page-IsRun turns n p w h count =
      let w1 = k.print (codes "INT3 addr " ∷ k.show p ∷ codes "\n" ∷ []) w in
      let (r, w2) = k.sigaction w1 in
      ground (
        arith,
        laws.prints p (codes "INT3 addr " ∷ k.show p ∷ codes "\n" ∷ []) w,
        laws.installs w1,
        laws.installs_only p w1,
        threads-IsRun turns n p w2,
      )

-- Over a system that runs the handler where an INT3 traps and the handler is there: either `main`
-- throws, and no INT3 was run, or the handler is there, and at most two were run. Where the main
-- thread ended, in whatever order the threads went on, just two were run, and the other threads
-- have ended, the worker with no round left.
pub main-IsRun :
    {W : Type 0} (k : Int3Calls W) (installed : W → Bool) (byte : ℕ → W → ℕ) (traps : W → ℕ)
    (turns : List Thread) (w : W)
    → TrapLaws k installed byte traps
    → IsRun installed traps (traps w) (main k turns w)
unfolding main
main-IsRun k installed byte traps turns w laws =
    let (fd, w1) = k.open_zero w in
    let ((p, e), w2) = k.mmap 1 fd w1 in
    ground (
      arith,
      laws.opens w,
      laws.maps 1 fd w1,
      laws.copies p 0xcc w2,
      laws.copies_only p int3_bytes w2,
      with_page-IsRun k installed byte traps laws turns (traps w) p (k.memcpy p int3_bytes w2),
    )
