-- ===== src/Exception/Names.antt =====
-- `MachException::Name` and `MachException::ExceptionMask` of mac_ptrace/lldb/MachException.cpp.
--
-- The exception types have the numbers of
-- <mach/exception_types.h>, where the mask of type `t` is the bit `2 ^ t`. All the types that are
-- tested by `#ifdef` are there.
pub mod Laws
use Prim.Native.Char.{code}
use Prim.Native.String.{String}
use debug_learning.Prelude.{
  codes, ℕ, ◌^◌, Bool, true, false, ◌&&◌, Option, none, some, List, [], ◌∷◌, ◌++◌, ◌==◌,
  if◌then◌else◌,
}

-- `==` of two texts
abbrev pub text_eq : List ℕ → List ℕ → Bool
text_eq [] [] = true
text_eq [] (d ∷ t) = false
text_eq (c ∷ s) [] = false
text_eq (c ∷ s) (d ∷ t) = c == d && text_eq s t

abbrev pub exception_prefix : List ℕ
exception_prefix = codes "EXC_"

-- `if (strstr(name, prefix) != name) return 0; name += prefix_len;`
abbrev pub strip : List ℕ → List ℕ → Option (List ℕ)
strip [] s = some s
strip (c ∷ p) [] = none
strip (c ∷ p) (d ∷ s) = if c == d then strip p s else none

-- The cases of the `switch` in `Name`.
abbrev pub name_cases : List (ℕ × List ℕ)
name_cases =
    (1, codes "EXC_BAD_ACCESS")
    ∷ (2, codes "EXC_BAD_INSTRUCTION")
    ∷ (3, codes "EXC_ARITHMETIC")
    ∷ (4, codes "EXC_EMULATION")
    ∷ (5, codes "EXC_SOFTWARE")
    ∷ (6, codes "EXC_BREAKPOINT")
    ∷ (7, codes "EXC_SYSCALL")
    ∷ (8, codes "EXC_MACH_SYSCALL")
    ∷ (9, codes "EXC_RPC_ALERT")
    ∷ (10, codes "EXC_CRASH")
    ∷ (11, codes "EXC_RESOURCE")
    ∷ (12, codes "EXC_GUARD")
    ∷ (13, codes "EXC_CORPSE_NOTIFY")
    ∷ (0x100, codes "EXC_CORPSE_VARIANT_BIT")
    ∷ []

abbrev pub find_case : ℕ → List (ℕ × List ℕ) → Option (List ℕ)
find_case t [] = none
find_case t ((u, s) ∷ cases) = if t == u then some s else find_case t cases

-- `Name`; `none` is a null pointer.
unfoldable pub name : ℕ → Option (List ℕ)
name t = find_case t name_cases

-- The tests of `ExceptionMask`, in their order, with the mask that each returns.
abbrev pub mask_tests : List (List ℕ × ℕ)
mask_tests =
    (codes "BAD_ACCESS", 2 ^ 1)
    ∷ (codes "BAD_INSTRUCTION", 2 ^ 2)
    ∷ (codes "ARITHMETIC", 2 ^ 3)
    ∷ (codes "EMULATION", 2 ^ 4)
    ∷ (codes "SOFTWARE", 2 ^ 5)
    ∷ (codes "BREAKPOINT", 2 ^ 6)
    ∷ (codes "SYSCALL", 2 ^ 7)
    ∷ (codes "MACH_SYSCALL", 2 ^ 8)
    ∷ (codes "RPC_ALERT", 2 ^ 9)
    ∷ (codes "CRASH", 2 ^ 10)
    ∷ (codes "RESOURCE", 2 ^ 11)
    ∷ (codes "GUARD", 2 ^ 12)
    ∷ (codes "CORPSE_NOTIFY", 2 ^ 13)
    ∷ []

abbrev pub find_mask : List ℕ → List (List ℕ × ℕ) → ℕ
find_mask s [] = 0
find_mask s ((u, m) ∷ tests) = if text_eq s u then m else find_mask s tests

-- `ExceptionMask`
unfoldable pub exception_mask : List ℕ → ℕ
exception_mask s = elim (strip exception_prefix s) [
  | none ↦ 0
  | some rest ↦ find_mask rest mask_tests
]
