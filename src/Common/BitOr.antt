-- ===== src/Common/BitOr.antt =====
-- The C operator `|` on operands with no common bit, as addition.
use Prim.Native.Nat.{
  ℕ, zero, suc, ◌+◌, ◌*◌, ◌/◌, ◌%◌, ◌^◌, ◌≤◌, ◌<◌, max, bit_or, digits, bit_or-bitwise,
}
use mathlib.Core.Path.{◌≡◌, refl, ◌∙◌, sym}
use native.Mathlib.Omega.{arith}

-- The digit recursion that `bit_or` stands for, with its fuel.
abbrev disj : ℕ → ℕ → ℕ → ℕ
disj fuel x y = digits (λ b. b) max fuel x y

disj-zero : (fuel y : ℕ) → disj fuel 0 y ≡ y
disj-zero zero y = refl
disj-zero (suc fuel) y = refl

-- Fuel beyond the first operand changes nothing.
disj_fuel : (j k x y : ℕ) → x ≤ j → x ≤ k → disj j x y ≡ disj k x y
disj_fuel j k zero y p q = disj-zero j y ∙ sym (disj-zero k y)
disj_fuel zero k (suc x) y p q = absurd (omega arith)
disj_fuel (suc j) zero (suc x) y p q = absurd (omega arith)
disj_fuel (suc j) (suc k) (suc x) y p q =
    let halves = disj_fuel j k (suc x / 2) (y / 2) (omega arith) (omega arith) in
    omega (arith, halves)

-- `|` digit by digit.
bit_or_digit : (x y : ℕ) → bit_or x y ≡ bit_or (x / 2) (y / 2) * 2 + max (x % 2) (y % 2)
bit_or_digit zero y = omega (arith, bit_or-bitwise 0 y, bit_or-bitwise 0 (y / 2))
bit_or_digit (suc x) y =
    let enough = disj_fuel x (suc x / 2) (suc x / 2) (y / 2) (omega arith) (omega arith) in
    omega (arith, bit_or-bitwise (suc x) y, bit_or-bitwise (suc x / 2) (y / 2), enough)

bit_or-zero_fuel : (fuel x : ℕ) → x ≤ fuel → bit_or x 0 ≡ x
bit_or-zero_fuel fuel zero h = bit_or-bitwise 0 0
bit_or-zero_fuel zero (suc x) h = absurd (omega arith)
bit_or-zero_fuel (suc fuel) (suc x) h =
    omega (arith, bit_or_digit (suc x) 0, bit_or-zero_fuel fuel (suc x / 2) (omega arith))

-- A set lowest bit.
pub bit_or-one : (x : ℕ) → x % 2 ≡ 0 → bit_or x 1 ≡ x + 1
bit_or-one x h = omega (arith, bit_or_digit x 1, bit_or-zero_fuel (x / 2) (x / 2) (omega arith))

abbrev shifted : ℕ → ℕ → ℕ
shifted zero y = y
shifted (suc k) y = shifted k y * 2

abbrev bound : ℕ → ℕ
bound zero = 1
bound (suc k) = bound k * 2

-- A small operand below a shifted one.
bit_or-shifted : (k x y : ℕ) → x < bound k → bit_or x (shifted k y) ≡ x + shifted k y
bit_or-shifted zero x y h =
    let none' : x ≡ 0 = omega arith in rw none' (bit_or-bitwise 0 y ∙ omega arith)
bit_or-shifted (suc k) x y h =
    let half : shifted k y * 2 / 2 ≡ shifted k y = omega arith in
    let digit = rw half at (bit_or_digit x (shifted k y * 2)) in
    omega (arith, digit, bit_or-shifted k (x / 2) y (omega arith))

pub bit_or_shift32 : (x y : ℕ) → x < 2 ^ 32 → bit_or x (y * 2 ^ 32) ≡ x + y * 2 ^ 32
bit_or_shift32 x y h =
    let places : shifted 32 y ≡ y * 2 ^ 32 = omega arith in rw places at (bit_or-shifted 32 x y h)

pub bit_or_shift16 : (x y : ℕ) → x < 2 ^ 16 → bit_or x (y * 2 ^ 16) ≡ x + y * 2 ^ 16
bit_or_shift16 x y h =
    let places : shifted 16 y ≡ y * 2 ^ 16 = omega arith in rw places at (bit_or-shifted 16 x y h)
