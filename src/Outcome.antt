-- ===== src/Outcome.antt =====
-- How a function that may fail ends: it returns, it throws a `std::runtime_error`, an `assert` of
-- it fails, or it loops without end. The asserts are those of a build without NDEBUG.
use Prim.Native.String.{String}
use debug_learning.Prelude.{ℕ}
use debug_learning.DnbError.{DnbError}

-- What the text of a `std::runtime_error` is made from.
pub data Cause : Type 0 where
  -- a literal
  message : (s : String) → Cause
  -- `err.AsString()`
  status : (e : DnbError) → Cause
  -- `::strerror(errno)`
  errno : (n : ℕ) → Cause
  -- a literal with `err.AsString()` behind it
  prefixed : (s : String) (e : DnbError) → Cause

pub data Outcome (A : Type 0) : Type 0 where
  returned : (a : A) → Outcome A
  thrown : (c : Cause) → Outcome A
  aborted : Outcome A
  endless : Outcome A

abbrev pub map_outcome : {A B : Type 0} → (A → B) → Outcome A → Outcome B
map_outcome f (returned a) = returned (f a)
map_outcome f (thrown c) = thrown c
map_outcome f aborted = aborted
map_outcome f endless = endless
