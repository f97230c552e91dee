-- ===== src/Int3/Tests.antt =====
-- The demonstration on a small system: the byte at the page, whether the handler is there, and how
-- many INT3 were run.
use debug_learning.Prelude.{
  ℕ, suc, ◌+◌, ◌≡◌, refl, Bool, true, false, List, [], ◌∷◌, ◌++◌, ◌==◌, replicate, arith,
  if◌then◌else◌,
}
use debug_learning.Outcome.{returned, thrown, errno}
use debug_learning.Int3.{
  Int3Calls, Thread, main_thread, thrower, worker, ended, thrown_out, map_failed, main, with_page,
  run_threads,
}
use debug_learning.Int3.Trapping.{TrapLaws, IsRun, main-IsRun}

record Machine : Type 0 where
  byte : ℕ
  installed : Bool
  traps : ℕ

-- The page is at 4096. Code that is not an INT3 does not come back.
abbrev machine_calls : Int3Calls Machine
machine_calls = record {
  open_zero = λ w. (3, w);
  mmap = λ n fd w. ((4096, 0), w);
  memcpy = λ p bytes w. elim bytes [ [] ↦ w | b ∷ bs ↦ record w { byte = b } ];
  sigaction = λ w. ((0, 0), record w { installed = true });
  call_code = λ handler p w.
      if w.byte == 0xcc
      then (w.installed, handler 5 (p + 1) (record w { traps = suc w.traps }))
      else (false, w);
  print = λ parts w. w;
  show = λ n. n ∷ [];
  get_id = λ t. [];
}

machine-TrapLaws : TrapLaws machine_calls (λ w. w.installed) (λ p w. w.byte) (λ w. w.traps)
machine-TrapLaws = record {
  opens = λ w. refl;
  maps = λ n fd w. refl;
  copies = λ p b w. refl;
  copies_only = λ p bs w. elim bs as (λ bs. (machine_calls.memcpy p bs w).traps ≡ w.traps) [
    | [] ↦ refl
    | b ∷ bs ↦ refl
  ];
  installs = λ w ok. refl;
  installs_only = λ p w. (refl, refl);
  prints = λ p parts w. (refl, refl, refl);
  calls = λ t p w there int3. ground arith;
}

-- The worker goes on between the statements of the other two.
abbrev turns : List Thread
turns =
    main_thread
      ∷ thrower
      ∷ worker
      ∷ main_thread
      ∷ main_thread
      ∷ thrower
      ∷ main_thread
      ∷ replicate 19 worker
    ++ (main_thread ∷ [])

abbrev fresh : Machine
fresh = record { byte = 0; installed = false; traps = 0 }

main_ended : main machine_calls turns fresh ≡ (
  returned (record { main_at = ended; thrower_at = thrown_out; rounds = 0; alive = true }),
  record { byte = 0xcc; installed = true; traps = 2 },
)
unfolding main with_page run_threads
main_ended = refl

-- Without a page nothing is run.
main_no_page :
    main (record machine_calls { mmap = λ n fd w. ((map_failed, 12), w) }) turns fresh
    ≡ (thrown (errno 12), fresh)
unfolding main
main_no_page = refl

main-IsRun_example : IsRun (λ w. w.installed) (λ w. w.traps) 0 (main machine_calls turns fresh)
main-IsRun_example =
    main-IsRun machine_calls (λ w. w.installed) (λ p w. w.byte) (λ w. w.traps) turns fresh
      machine-TrapLaws
