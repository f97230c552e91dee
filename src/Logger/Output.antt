-- ===== src/Logger/Output.antt =====
-- The class Logger of mac_ptrace/logger.hpp: where the lines of the log go. The stream library, the
-- clock and the text of a time are parameters; the mutex makes the printing of a line one step.
pub mod Losing
mod Tests
use Prim.{Unit, tt}
use debug_learning.Prelude.{Text, codes, ℕ, Bool, List, [], ◌∷◌, if◌then◌else◌}
use debug_learning.Outcome.{Outcome, returned, thrown, message}
use debug_learning.Logger.{log}

-- What `logger_` points to: `std::cout`, or a file stream.
pub data Target : Type 0 where
  cout : Target
  file : (stream : ℕ) → Target

pub record Logger : Type 0 where
  pub target : Target

-- `Logger()`
abbrev pub new_logger : Logger
new_logger = record { target = cout }

pub record StreamCalls (W : Type 0) : Type 0 where
  -- `new std::ofstream(path)`
  pub open_file : Text → W → ℕ × W
  -- `bad()`
  pub is_bad : ℕ → W → Bool
  -- `<<` of the parts of a line
  pub print : Target → Text → W → W
  -- `delete` of a file stream
  pub close : ℕ → W → W
  -- `std::chrono::steady_clock::now()`, as the text of its count
  pub now : W → Text × W

module _ {W : Type 0} (k : StreamCalls W) where
  -- `setOutput`; the stream that was there before is not deleted
  unfoldable pub set_output : Text → Logger → W → Outcome Unit × Logger × W
  set_output path l w =
      let (stream, w') = k.open_file path w in
      (
        if k.is_bad stream w' then thrown (message "cannot open file") else returned tt,
        record l { target = file stream },
        w',
      )

  -- `setLoggerPostion`, on the one object of `getInstance`
  abbrev pub set_logger_postion : Text → Logger → W → Outcome Unit × Logger × W
  set_logger_postion path = set_output path

  -- `log` of an object
  unfoldable pub print_line : List Text → Logger → W → W
  print_line args l w = let (time, w') = k.now w in k.print l.target (log time args) w'

  -- `logDebug`, `logInfo`, `logError`, `logWarning`
  abbrev pub log_debug : List Text → Logger → W → W
  log_debug args = print_line (codes "[DEBUG]" ∷ args)

  abbrev pub log_info : List Text → Logger → W → W
  log_info args = print_line (codes "[INFO]" ∷ args)

  abbrev pub log_error : List Text → Logger → W → W
  log_error args = print_line (codes "[ERROR]" ∷ args)

  abbrev pub log_warning : List Text → Logger → W → W
  log_warning args = print_line (codes "[WARNING]" ∷ args)

  -- `~Logger()`
  unfoldable pub destroy_logger : Logger → W → W
  destroy_logger l w = elim l.target [ cout ↦ w | file stream ↦ k.close stream w ]
