-- ===== src/DnbError/Tests.antt =====
-- Runs of DNBError on concrete codes, and the laws at them.
use Prim.Native.String.{String}
use debug_learning.Prelude.{ℕ, ◌≡◌, refl, Option, none, some, ◌==◌, if◌then◌else◌}
use debug_learning.DnbError.{DnbError, Flavor, clear, set_error_string, as_string, check}
use debug_learning.DnbError.Laws.{as_string-set_error_string}

-- `mach_error_string` and `strerror` with one text each
abbrev mach_texts : ℕ → Option String
mach_texts n = if n == 4 then some "(os/kern) invalid argument" else none

abbrev errno_texts : ℕ → Option String
errno_texts n = if n == 3 then some "No such process" else none

abbrev no_process : DnbError
no_process = record { err = 3; flavor = Flavor.posix; str = "" }

as_string-no_process : (as_string mach_texts errno_texts no_process).0 ≡ "No such process"
unfolding as_string
as_string-no_process = refl

as_string-set_error_string_example :
    (as_string mach_texts errno_texts
      (set_error_string (some "failed to get exception port info") clear)).0
    ≡ "success"
as_string-set_error_string_example =
    as_string-set_error_string mach_texts errno_texts "failed to get exception port info" clear refl

-- `check` ends the program with the text of a failure, and returns after a success.
check-no_process : (check mach_texts errno_texts no_process).0 ≡ some "No such process"
unfolding check
check-no_process = refl

check-clear : check mach_texts errno_texts clear ≡ (none, clear)
unfolding check
check-clear = refl
