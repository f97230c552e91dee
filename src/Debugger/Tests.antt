-- ===== src/Debugger/Tests.antt =====
-- The script of main.cpp on a small system, where a message arrives in each step and pause.
use debug_learning.Prelude.{◌≡◌, refl, ℕ, ◌∷◌, [], false, get_or, length-replicate, arith}
use debug_learning.Logger.Output.{StreamCalls}
use debug_learning.Process.Method.{detach}
use debug_learning.Process.Sample.{sample, hit}
use debug_learning.Debugger.{main, Arrivals}
use debug_learning.Debugger.Controller.{Host}
use debug_learning.Debugger.Working.{Works}
use debug_learning.Debugger.Script.{IsAnswered, main-Reaches}
use debug_learning.Debugger.Script.Methods.{Reaches}

abbrev hits : Arrivals
hits = record {
  attaching = hit ∷ [];
  running = λ n. hit ∷ hit ∷ [];
  stopped = λ n. [];
  stepping = λ n. hit ∷ [];
}

sample-Works : Works sample 8
sample-Works = record {
  has_pid = (omega arith, omega arith);
  group = λ w. omega arith;
  port = λ t w. (refl, omega arith);
  info = λ t w. refl;
  resumes = λ t w. refl;
  allocates = λ t w. refl;
  inserts = λ t w. refl;
  sets = λ t mask port w. refl;
  creates = λ t w. refl;
  cancels = λ t w. refl;
  joins = λ t w. refl;
  frees = λ t w. refl;
  all_mask = omega arith;
  gets = λ t mask n e w. refl;
  threads = λ t w. refl;
  gets_state = λ t w. refl;
  sets_state = λ t n d w. refl;
  registers = λ t w. refl;
  finds_pid = λ t n w. omega arith;
  attaches = λ w. refl;
  detaches = λ w. refl;
  kills = λ w. refl;
  reads = λ t a n w. (refl, length-replicate n 7);
}

hits-IsAnswered : IsAnswered hits
hits-IsAnswered n h = cc

-- Nothing is kept of what is printed.
abbrev quiet : StreamCalls ℕ
quiet = record {
  open_file = λ path w. (4, w);
  is_bad = λ s w. false;
  print = λ t text w. w;
  close = λ s w. w;
  now = λ w. ([], w);
}

abbrev host : Host ℕ
host = record {
  calls = sample;
  out = quiet;
  show = λ n. n ∷ [];
  get_pc = λ regs. get_or regs 1 0;
  atoi = λ s. 8;
}

main-Reaches_example : Reaches (λ q. q.status ≡ detach) (main host hits 2 "8" 0)
main-Reaches_example = main-Reaches host hits "8" 0 sample-Works hits-IsAnswered
