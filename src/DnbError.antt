-- ===== src/DnbError.antt =====
-- The class DNBError of mac_ptrace/lldb/DNBError.h and DNBError.cpp: a status with the flavor
-- that says whose code it is, and a text that `AsString` fills in when it is first asked for.
--
-- A status is the 32-bit pattern that `m_err` holds; `kern_return_t` and `int` convert to it and
-- back without a change of bits. `::mach_error_string` and `::strerror` are parameters; `none`
-- stands for a null pointer.
pub mod Laws
mod Tests
use Prim.Native.String.{String}
use debug_learning.Prelude.{
  ℕ, Bool, true, false, Option, none, some, ◌==◌, ◌/=◌, u32, if◌then◌else◌,
}

-- `enum FlavorType`
pub data Flavor : Type 0 where
  generic mach_kernel posix : Flavor

pub record DnbError : Type 0 where
  pub err : ℕ
  pub flavor : Flavor
  pub str : String

abbrev pub empty_str : String
empty_str = ""

abbrev pub is_empty : String → Bool
is_empty String.[] = true
is_empty (String.◌∷◌ c s) = false

-- `DNBError(err, flavor)`
abbrev pub make : ℕ → Flavor → DnbError
make err flavor = record { err = u32 err; flavor = flavor; str = empty_str }

-- `DNBError()`, and what `Clear` leaves
abbrev pub clear : DnbError
clear = record { err = 0; flavor = generic; str = empty_str }

-- `operator=(kern_return_t)`, and `SetError(kern_return_t)`
abbrev pub assign : ℕ → DnbError
assign kr = record { err = u32 kr; flavor = mach_kernel; str = empty_str }

-- `SetErrorToErrno`, with the value of `errno`
abbrev pub set_error_to_errno : ℕ → DnbError
set_error_to_errno errno = record { err = u32 errno; flavor = posix; str = empty_str }

-- `SetError(err, flavor)`
abbrev pub set_error : ℕ → Flavor → DnbError
set_error err flavor = record { err = u32 err; flavor = flavor; str = empty_str }

-- `SetErrorString(err_str)`; a null or an empty text clears the string.
abbrev pub set_error_string : Option String → DnbError → DnbError
set_error_string none e = record e { str = empty_str }
set_error_string (some s) e = record e { str = s }

abbrev pub success : DnbError → Bool
success e = e.err == 0

abbrev pub fail : DnbError → Bool
fail e = e.err /= 0

module _ (mach_error_string strerror : ℕ → Option String) where
  -- the `switch` on the flavor
  pub described : Flavor → ℕ → Option String
  described generic n = none
  described mach_kernel n = mach_error_string n
  described posix n = strerror n

  -- `if (m_str.empty()) { … if (s) m_str.assign(s); }`
  pub fill : DnbError → DnbError
  unfolding described
  fill e =
      if is_empty e.str
      then elim (described e.flavor e.err) [ none ↦ e | some s ↦ record e { str = s } ]
      else e

  -- `AsString`, with the object that it leaves: the text is kept in a mutable field.
  pub as_string : DnbError → String × DnbError
  unfolding fill
  as_string e =
      if success e
      then ("success", e)
      else (let e' = fill e in if is_empty e'.str then ("unknown", e') else (e'.str, e'))

  -- `operator<<`: the text that is printed, with the object
  pub printed : DnbError → String × DnbError
  unfolding as_string
  printed e = as_string e

  -- `check`: the text on `std::cerr`, in front of a line end, with which it ends the program; or
  -- none, where it returns
  pub check : DnbError → Option String × DnbError
  unfolding printed
  check e = let (text, e') = printed e in if fail e then (some text, e') else (none, e)
