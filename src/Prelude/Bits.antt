-- ===== src/Prelude/Bits.antt =====
-- `&` and `~` on numbers: the digits of the results, and `&` with the masks 1, 2 and 4.
use Prim.Native.Nat.{
  ℕ, zero, suc, ◌+◌, ◌-◌, ◌*◌, ◌/◌, ◌%◌, ◌^◌, ◌≤◌, ◌<◌, min, max, bit_and, bit_or, digits,
  bit_and-bitwise, bit_or-bitwise,
}
use mathlib.Core.Path.{◌≡◌, refl, ◌∙◌, ap}
use native.Mathlib.Omega.{arith}

-- `&` as the library computes it, on a count of digits to go; `bit_and a b` has the count `a`.
abbrev anded : ℕ → ℕ → ℕ → ℕ
anded left a b = digits (λ y. zero) min left a b

anded-zero : (left a : ℕ) → anded left a 0 ≡ 0
anded-zero zero a = refl
anded-zero (suc left) zero = refl
anded-zero (suc left) (suc a) = omega (arith, anded-zero left (suc a / 2))

-- A mask of one digit: its bit is moved down by each digit that is taken off.
anded-one : (left a : ℕ) → a ≤ left → anded left a 1 ≡ a % 2
anded-one left zero h = elim left as (λ n. anded n 0 1 ≡ 0) [ zero ↦ refl | suc n ↦ refl ]
anded-one zero (suc a) h = elim h [ ]
anded-one (suc left) (suc a) h = omega (arith, anded-zero left (suc a / 2))

anded_two : (left a : ℕ) → a ≤ left → anded left a 2 ≡ a / 2 % 2 * 2
anded_two left zero h = elim left as (λ n. anded n 0 2 ≡ 0) [ zero ↦ refl | suc n ↦ refl ]
anded_two zero (suc a) h = elim h [ ]
anded_two (suc left) (suc a) h = omega (arith, anded-one left (suc a / 2) (omega arith))

anded_four : (left a : ℕ) → a ≤ left → anded left a 4 ≡ a / 2 / 2 % 2 * 4
anded_four left zero h = elim left as (λ n. anded n 0 4 ≡ 0) [ zero ↦ refl | suc n ↦ refl ]
anded_four zero (suc a) h = elim h [ ]
anded_four (suc left) (suc a) h = omega (arith, anded_two left (suc a / 2) (omega arith))

pub bit_and-one : (a : ℕ) → bit_and a 1 ≡ a % 2
bit_and-one a = bit_and-bitwise a 1 ∙ anded-one a a (omega arith)

pub bit_and_two : (a : ℕ) → bit_and a 2 ≡ a / 2 % 2 * 2
bit_and_two a = bit_and-bitwise a 2 ∙ anded_two a a (omega arith)

pub bit_and_four : (a : ℕ) → bit_and a 4 ≡ a / 2 / 2 % 2 * 4
bit_and_four a = bit_and-bitwise a 4 ∙ anded_four a a (omega arith)

-- Digit `i`, counted from the lowest.
abbrev pub bit : ℕ → ℕ → ℕ
bit zero a = a % 2
bit (suc i) a = bit i (a / 2)

pub bit-range : (i a : ℕ) → bit i a ≤ 1
bit-range zero a = omega arith
bit-range (suc i) a = bit-range i (a / 2)

pub bit-zero : (i : ℕ) → bit i 0 ≡ 0
bit-zero zero = refl
bit-zero (suc i) = bit-zero i

anded-power : (i left a m : ℕ) → a ≤ left → m ≡ 2 ^ i → anded left a m ≡ bit i a * m
anded-power i left a zero h e = absurd (power i e)
  where
    power : (i : ℕ) → ¬ (0 ≡ 2 ^ i)
    power zero e = omega arith
    power (suc i) e = power i (omega arith)
anded-power i left zero (suc m) h e =
    rw (bit-zero i) (elim left as (λ n. anded n 0 (suc m) ≡ 0 * suc m) [
      | zero ↦ omega arith
      | suc n ↦ omega arith
    ])
anded-power i zero (suc a) (suc m) h e = elim h [ ]
anded-power zero (suc left) (suc a) (suc m) h e =
    let one : m ≡ 0 = omega arith in rw one (omega (arith, anded-one (suc left) (suc a) h))
anded-power (suc i) (suc left) (suc a) (suc m) h e =
    let rest = anded-power i left (suc a / 2) (suc m / 2) (omega arith) (omega arith) in
    let twice : suc m ≡ suc m / 2 * 2 = omega arith in
    let even : bit i (suc a / 2) * suc m ≡ bit i (suc a / 2) * (suc m / 2) * 2 =
      ap (λ n. bit i (suc a / 2) * n) twice ∙ omega arith in
    omega (arith, rest, even)

-- `&` with one digit: that digit, at its place.
pub bit_and-power : (i a : ℕ) → bit_and a (2 ^ i) ≡ bit i a * 2 ^ i
bit_and-power i a = bit_and-bitwise a (2 ^ i) ∙ anded-power i a a (2 ^ i) (omega arith) refl

bit-anded : (i left a b : ℕ) → a ≤ left → bit i (anded left a b) ≡ min (bit i a) (bit i b)
bit-anded i left zero b h = nothing left
  where
    nothing : (n : ℕ) → bit i (anded n 0 b) ≡ min (bit i 0) (bit i b)
    nothing zero = omega (arith, bit-zero i)
    nothing (suc n) = omega (arith, bit-zero i)
bit-anded i zero (suc a) b h = elim h [ ]
bit-anded zero (suc left) (suc a) b h = omega arith
bit-anded (suc i) (suc left) (suc a) b h =
    let halved : anded (suc left) (suc a) b / 2 ≡ anded left (suc a / 2) (b / 2) = omega arith in
    ap (bit i) halved ∙ bit-anded i left (suc a / 2) (b / 2) (omega arith)

pub bit-bit_and : (i a b : ℕ) → bit i (bit_and a b) ≡ min (bit i a) (bit i b)
bit-bit_and i a b = ap (bit i) (bit_and-bitwise a b) ∙ bit-anded i a a b (omega arith)

anded-bound : (left a b : ℕ) → anded left a b ≤ a
anded-bound zero zero b = omega arith
anded-bound zero (suc a) b = omega arith
anded-bound (suc left) zero b = omega arith
anded-bound (suc left) (suc a) b = omega (arith, anded-bound left (suc a / 2) (b / 2))

pub bit_and-bound : (a b : ℕ) → bit_and a b ≤ a
bit_and-bound a b = omega (arith, bit_and-bitwise a b, anded-bound a a b)

-- The number whose `n` lowest digits are 1: `ones 32` is 2 ^ 32 - 1.
abbrev pub ones : ℕ → ℕ
ones zero = 0
ones (suc n) = ones n * 2 + 1

pub bit-complement : (n i x : ℕ) → x ≤ ones n → i < n → bit i (ones n - x) ≡ 1 - bit i x
bit-complement zero i x h lt = absurd (omega arith)
bit-complement (suc n) zero x h lt = omega arith
bit-complement (suc n) (suc i) x h lt =
    rw half (bit-complement n i (x / 2) (omega arith) (omega arith))
  where
    half : (ones n * 2 + 1 - x) / 2 ≡ ones n - x / 2
    half = omega arith

-- `|` as the library computes it, and with the mask 1.
abbrev ored : ℕ → ℕ → ℕ → ℕ
ored left a b = digits (λ y. y) max left a b

ored-zero : (left a : ℕ) → a ≤ left → ored left a 0 ≡ a
ored-zero left zero h = elim left as (λ n. ored n 0 0 ≡ 0) [ zero ↦ refl | suc n ↦ refl ]
ored-zero zero (suc a) h = elim h [ ]
ored-zero (suc left) (suc a) h = omega (arith, ored-zero left (suc a / 2) (omega arith))

ored-one : (left a : ℕ) → a ≤ left → ored left a 1 ≡ a / 2 * 2 + 1
ored-one left zero h = elim left as (λ n. ored n 0 1 ≡ 1) [ zero ↦ refl | suc n ↦ refl ]
ored-one zero (suc a) h = elim h [ ]
ored-one (suc left) (suc a) h = omega (arith, ored-zero left (suc a / 2) (omega arith))

pub bit_or-one : (a : ℕ) → bit_or a 1 ≡ a / 2 * 2 + 1
bit_or-one a = bit_or-bitwise a 1 ∙ ored-one a a (omega arith)

-- The number that the `n` lowest digits of `a` make.
abbrev low : ℕ → ℕ → ℕ
low zero a = 0
low (suc n) a = low n (a / 2) * 2 + a % 2

low-zero : (n : ℕ) → low n 0 ≡ 0
low-zero zero = refl
low-zero (suc n) = omega (arith, low-zero n)

anded-ones : (n left a : ℕ) → a ≤ left → anded left a (ones n) ≡ low n a
anded-ones zero left a h = anded-zero left a
anded-ones (suc n) left zero h = nothing left
  where
    nothing : (m : ℕ) → anded m 0 (ones (suc n)) ≡ low (suc n) 0
    nothing zero = omega (arith, low-zero n)
    nothing (suc m) = omega (arith, low-zero n)
anded-ones (suc n) zero (suc a) h = elim h [ ]
anded-ones (suc n) (suc left) (suc a) h =
    let half : (ones n * 2 + 1) / 2 ≡ ones n = omega arith in
    rw half (omega (arith, anded-ones n left (suc a / 2) (omega arith)))

low_31 : (a : ℕ) → low 31 a ≡ a % 2 ^ 31
low_31 a = omega arith

-- `&` with the complement of 1 on 32 bits takes the low digit away, and the digits from 32 on.
pub bit_and_even : (a : ℕ) → bit_and a (2 ^ 32 - 2) ≡ a / 2 % 2 ^ 31 * 2
bit_and_even zero = ap (λ x. x) (bit_and-bitwise 0 (2 ^ 32 - 2))
bit_and_even (suc a) =
    bit_and-bitwise (suc a) (2 ^ 32 - 2)
    ∙ omega (arith, anded-ones 31 a (suc a / 2) (omega arith), low_31 (suc a / 2))
