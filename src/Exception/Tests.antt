-- ===== src/Exception/Tests.antt =====
-- Runs of the exception code on concrete messages and ports, and its theorems at them.
use debug_learning.Prelude.{
  codes, ℕ, ◌≡◌, ◌≢◌, refl, ◌+◌, Bool, true, false, some, List, [], ◌∷◌, ◌==◌, ◌^◌, if◌then◌else◌,
  arith,
}
use debug_learning.Sdk.{kern_failure, kern_invalid_argument, prev_exc_mask_all}
use debug_learning.Exception.Data.{
  ExceptionData, Raise, is_valid, soft_signal, catch_mach_exception_raise,
}
use debug_learning.Exception.Data.Catching.{data_of, catch_mach_exception_raise_lem}
use debug_learning.Exception.Names.{name, exception_mask}
use debug_learning.Exception.Names.Laws.{exception_mask-name, name-exception_mask}
use debug_learning.Exception.Ports.{Entry, PortInfo, PortCalls, save, restore}
use debug_learning.Exception.Ports.Saving.{Sets, restore_lem}

-- The state of the system is the list of the live tasks' ports.
abbrev live : ℕ → List ℕ → Bool × List ℕ
live t [] = (false, [])
live t (x ∷ xs) = (t == x, x ∷ xs)

abbrev watched : ExceptionData
watched = record { task_port = 7; thread_port = 0; exc_type = 0; exc_data = [] }

-- The SIGTRAP of task 9, which has replaced task 7 by an exec.
abbrev exec_trap : Raise
exec_trap = record {
  thread_port = 31;
  task_port = 9;
  exc_type = 5;
  exc_data = 0x10003 ∷ 5 ∷ [];
  exc_data_count = 2;
}

catch-exec_trap : catch_mach_exception_raise live exec_trap watched (9 ∷ []) ≡ (
  0,
  record { task_port = 9; thread_port = 31; exc_type = 5; exc_data = 0x10003 ∷ 5 ∷ [] },
  9 ∷ [],
)
unfolding catch_mach_exception_raise
catch-exec_trap = refl

catch_mach_exception_raise_example :
    let (kr, d, _) = catch_mach_exception_raise live exec_trap watched (9 ∷ []) in
    (◌≡◌ {A = Bool} true true → (kr ≡ 0) × (d ≡ data_of exec_trap))
    × (true ≡ false
        → (kr ≡ kern_failure) × (d.task_port ≡ 7) × (d.thread_port ≡ 0) × (is_valid d ≡ false))
unfolding soft_signal
catch_mach_exception_raise_example =
    catch_mach_exception_raise_lem live exec_trap watched (9 ∷ []) refl

exception_mask-name_example : exception_mask (codes "EXC_GUARD") ≡ 2 ^ 12
unfolding name
exception_mask-name_example = exception_mask-name 12 (codes "EXC_GUARD") refl

guard-has_mask : exception_mask (codes "EXC_GUARD") ≢ 0
unfolding exception_mask
guard-has_mask h = absurd (omega arith)

name-exception_mask_example :
    (t : ℕ) × (name t ≡ some (codes "EXC_GUARD")) × (exception_mask (codes "EXC_GUARD") ≡ 2 ^ t)
name-exception_mask_example = name-exception_mask (codes "EXC_GUARD") guard-has_mask

exception_mask-no_prefix : exception_mask (codes "GUARD") ≡ 0
unfolding exception_mask
exception_mask-no_prefix = refl

-- A kernel that does not know bit 14, has two entries, and counts the calls that set one; the
-- third such call fails.
abbrev entry : ℕ → Entry
entry i = record { mask = 2 ^ i; port = i + 100; behavior = 1; flavor = 0 }

abbrev ports : PortCalls ℕ
ports = record {
  task_get_exception_ports = λ t mask n entries w.
      if mask == prev_exc_mask_all
      then (0, 2, entry, w)
      else (kern_invalid_argument, 0, entries, w);
  task_set_exception_ports = λ t e w. (if w == 2 then 5 else 0, w + 1);
}

abbrev no_ports : PortInfo
no_ports = record { mask = 0; entries = entry; count = 0 }

abbrev two_ports : PortInfo
two_ports = record { mask = prev_exc_mask_all; entries = entry; count = 2 }

save-ports : save ports 0x3bfe 7 no_ports 0 ≡ (0, two_ports, 0)
unfolding save
save-ports = refl

restore-ports : restore ports 7 two_ports 1 ≡ (5, record two_ports { count = 0 }, 3)
unfolding restore
restore-ports = refl

restore_lem_example :
    let (status, p', w') = restore ports 7 two_ports 1 in
    Sets ports 7 two_ports 2 1 status w' × (p'.count ≡ 0) × (p'.mask ≡ prev_exc_mask_all)
restore_lem_example = restore_lem ports 7 two_ports 1
