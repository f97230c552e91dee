-- ===== src/Prelude/Words.antt =====
-- Unsigned machine words as numbers below 2 ^ w: the casts and the operations that wrap.
use Prim.Native.Nat.{ℕ, ◌+◌, ◌-◌, ◌%◌, ◌^◌}

abbrev pub u32 : ℕ → ℕ
u32 n = n % 2 ^ 32

abbrev pub u64 : ℕ → ℕ
u64 n = n % 2 ^ 64

abbrev pub add64 : ℕ → ℕ → ℕ
add64 a b = (a + b) % 2 ^ 64

-- `a - b` on uint64_t, for operands below 2 ^ 64.
abbrev pub sub64 : ℕ → ℕ → ℕ
sub64 a b = (a + 2 ^ 64 - b) % 2 ^ 64

-- `~a` on uint32_t, for an operand below 2 ^ 32.
abbrev pub not32 : ℕ → ℕ
not32 a = 2 ^ 32 - 1 - a
