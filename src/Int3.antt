-- ===== src/Int3.antt =====
-- linux_int3/main.cpp: a demonstration in which two threads run an INT3 instruction, whose signal a
-- handler of the program takes, while a third thread works.
--
-- The threads are there only behind the set-up, which is a function. From there on a schedule, a
-- list of turns, says which thread goes on; `sleep_for` promises no order. A statement that prints
-- is one turn. The machine that runs the bytes at an address is a parameter.
pub mod Joining
pub mod Trapping
mod Tests
use Prim.{Unit, tt}
use debug_learning.Prelude.{
  Text, codes, ℕ, zero, suc, ◌-◌, ◌^◌, Bool, true, false, List, [], ◌∷◌, ◌==◌, length,
  if◌then◌else◌,
}
use debug_learning.Outcome.{Outcome, returned, thrown, aborted, endless, Cause, errno}

-- The main thread, `int3Thread` and `workThread`.
pub data Thread : Type 0 where
  main_thread thrower worker : Thread

pub record Int3Calls (W : Type 0) : Type 0 where
  -- `open("/dev/zero", O_RDWR)`
  pub open_zero : W → ℕ × W
  -- `mmap(NULL, size, …, MAP_SHARED, fd, 0)`: the address and `errno`
  pub mmap : ℕ → ℕ → W → (ℕ × ℕ) × W
  pub memcpy : ℕ → List ℕ → W → W
  -- `sigaction(SIGTRAP, &sa, nullptr)`: the 32-bit pattern of the result, and `errno`
  pub sigaction : W → (ℕ × ℕ) × W
  -- The call of the code at an address, with the handler of the program, a function of the signal
  -- and of the instruction pointer: whether the code comes back.
  pub call_code : (ℕ → ℕ → W → W) → ℕ → W → Bool × W
  -- `std::cout <<` of the parts of a statement
  pub print : List Text → W → W
  pub show : ℕ → Text
  pub get_id : Thread → Text

-- `INT3`
abbrev pub int3_bytes : List ℕ
int3_bytes = 0xcc ∷ []

abbrev pub map_failed : ℕ
map_failed = 2 ^ 64 - 1

abbrev pub minus_one : ℕ
minus_one = 2 ^ 32 - 1

-- Where a thread is that announces an INT3 and runs it. The main thread then waits for the others.
pub data MainPoint : Type 0 where
  announcing calling joining_thrower joining_worker ended : MainPoint

pub data ThrowerPoint : Type 0 where
  to_announce to_call thrown_out : ThrowerPoint

-- `alive` until the machine ends the process; `rounds` are left of the loop of `workThread`.
pub record Threads : Type 0 where
  pub main_at : MainPoint
  pub thrower_at : ThrowerPoint
  pub rounds : ℕ
  pub alive : Bool

abbrev pub first_threads : Threads
first_threads = record { main_at = announcing; thrower_at = to_announce; rounds = 20; alive = true }

-- `join` comes back where the other thread has ended.
abbrev pub join_thrower : ThrowerPoint → MainPoint
join_thrower to_announce = joining_thrower
join_thrower to_call = joining_thrower
join_thrower thrown_out = joining_worker

abbrev pub join_worker : ℕ → MainPoint
join_worker zero = ended
join_worker (suc n) = joining_worker

module _ {W : Type 0} (k : Int3Calls W) where
  -- `initIn3`, with the pointer `int3` that it leaves
  abbrev pub init_in3 : W → Outcome ℕ × W
  init_in3 w =
      let (fd, w1) = k.open_zero w in
      let ((p, e), w2) = k.mmap (length int3_bytes) fd w1 in
      if p == map_failed then (thrown (errno e), w2) else (returned p, k.memcpy p int3_bytes w2)

  -- `initSingalHandler`
  abbrev pub init_signal_handler : W → Outcome Unit × W
  init_signal_handler w =
      let ((r, e), w1) = k.sigaction w in
      (if r == minus_one then thrown (errno e) else returned tt, w1)

  -- the handler of SIGTRAP, on a thread
  abbrev pub trap_handler : Thread → ℕ → ℕ → W → W
  trap_handler t signum rip w =
      let w1 =
        k.print
          (codes "Thread "
            ∷ k.get_id t
            ∷ codes " Interrupt signal ("
            ∷ k.show signum
            ∷ codes ") received.\n"
            ∷ [])
          w in
      k.print (codes "Trap in " ∷ k.show rip ∷ codes "\n" ∷ []) w1

  abbrev pub announce : Thread → W → W
  announce t = k.print (codes "Thread " ∷ k.get_id t ∷ codes " throw int3\n" ∷ [])

  abbrev pub work : W → W
  work = k.print (codes "Thread " ∷ k.get_id worker ∷ codes " is working\n" ∷ [])

  -- the next statement of `main` behind the start of the threads, with the pointer `int3`
  abbrev pub main_step : ℕ → MainPoint → Threads → W → Threads × W
  main_step p announcing s w = (record s { main_at = calling }, announce main_thread w)
  main_step p calling s w =
      let (back, w1) = k.call_code (trap_handler main_thread) p w in
      (record s { main_at = joining_thrower; alive = back }, w1)
  main_step p joining_thrower s w = (record s { main_at = join_thrower s.thrower_at }, w)
  main_step p joining_worker s w = (record s { main_at = join_worker s.rounds }, w)
  main_step p ended s w = (s, w)

  -- the next statement of `int3Thread`
  abbrev pub thrower_step : ℕ → ThrowerPoint → Threads → W → Threads × W
  thrower_step p to_announce s w = (record s { thrower_at = to_call }, announce thrower w)
  thrower_step p to_call s w =
      let (back, w1) = k.call_code (trap_handler thrower) p w in
      (record s { thrower_at = thrown_out; alive = back }, w1)
  thrower_step p thrown_out s w = (s, w)

  -- the next round of `workThread`
  abbrev pub worker_step : ℕ → Threads → W → Threads × W
  worker_step zero s w = (s, w)
  worker_step (suc n) s w = (record s { rounds = n }, work w)

  abbrev pub thread_step : Thread → ℕ → Threads → W → Threads × W
  thread_step main_thread p s w = main_step p s.main_at s w
  thread_step thrower p s w = thrower_step p s.thrower_at s w
  thread_step worker p s w = worker_step s.rounds s w

  -- The turns of a schedule; a process that has ended makes none.
  unfoldable pub run_threads : List Thread → ℕ → Threads → W → Threads × W
  run_threads [] p s w = (s, w)
  run_threads (t ∷ ts) p s w =
      let (s1, w1) = thread_step t p s w in
      let rest = run_threads ts p s1 w1 in if s.alive then rest else (s, w)

  -- `main` behind `initIn3`
  unfoldable pub with_page : List Thread → ℕ → W → Outcome Threads × W
  with_page turns p w =
      let w1 = k.print (codes "INT3 addr " ∷ k.show p ∷ codes "\n" ∷ []) w in
      let (o, w2) = init_signal_handler w1 in
      let (s, w3) = run_threads turns p first_threads w2 in
      elim o [
        | returned u ↦ (returned s, w3)
        | thrown c ↦ (thrown c, w2)
        | aborted ↦ (aborted, w2)
        | endless ↦ (endless, w2)
      ]

  -- `main`, with the turns of its threads
  unfoldable pub main : List Thread → W → Outcome Threads × W
  main turns w =
      let (o, w1) = init_in3 w in
      elim o [
        | returned p ↦ with_page turns p w1
        | thrown c ↦ (thrown c, w1)
        | aborted ↦ (aborted, w1)
        | endless ↦ (endless, w1)
      ]
