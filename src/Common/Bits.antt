-- ===== src/Common/Bits.antt =====
-- The C operator `&` with a mask, as arithmetic: `x & (2 ^ m - 1)` keeps the low bits, and a mask
-- of ones above k zeros clears them.
use Prim.Native.Nat.{
  ℕ, zero, suc, ◌+◌, ◌-◌, ◌*◌, ◌/◌, ◌%◌, ◌^◌, ◌≤◌, ◌<◌, min, bit_and, digits, bit_and-bitwise,
}
use mathlib.Core.Path.{◌≡◌, refl, ◌∙◌, sym, ap}
use native.Mathlib.Nat.{pow-suc}
use native.Mathlib.Omega.{arith}

-- The digit recursion that `bit_and` stands for, with its fuel.
abbrev conj : ℕ → ℕ → ℕ → ℕ
conj fuel x y = digits (λ _. zero) min fuel x y

-- Fuel beyond the first operand changes nothing.
conj_fuel : (k j x y : ℕ) → x ≤ k → x ≤ j → conj k x y ≡ conj j x y
conj_fuel k j zero y p q = conj-zero k y ∙ sym (conj-zero j y)
  where
    conj-zero : (k y : ℕ) → conj k 0 y ≡ 0
    conj-zero zero y = refl
    conj-zero (suc k) y = refl
conj_fuel zero j (suc x) y p q = absurd (omega arith)
conj_fuel (suc k) zero (suc x) y p q = absurd (omega arith)
conj_fuel (suc k) (suc j) (suc x) y p q =
    ap (λ (t : ℕ). t * 2 + min (suc x % 2) (y % 2))
      (conj_fuel k j (suc x / 2) (y / 2) (omega arith) (omega arith))

-- `&` digit by digit.
bit_and_digit : (x y : ℕ) → bit_and x y ≡ bit_and (x / 2) (y / 2) * 2 + min (x % 2) (y % 2)
bit_and_digit zero y = omega (arith, bit_and-bitwise 0 y, bit_and-bitwise 0 (y / 2))
bit_and_digit (suc x) y =
    let shorter : conj x (suc x / 2) (y / 2) ≡ conj (suc x / 2) (suc x / 2) (y / 2) =
      conj_fuel x (suc x / 2) (suc x / 2) (y / 2) (omega arith) (omega arith) in
    omega (arith, bit_and-bitwise (suc x) y, bit_and-bitwise (suc x / 2) (y / 2), shorter)

-- m binary ones.
abbrev pub ones : ℕ → ℕ
ones zero = 0
ones (suc m) = ones m * 2 + 1

bit_and-zero : (x fuel : ℕ) → x ≤ fuel → bit_and x 0 ≡ 0
bit_and-zero zero fuel h = bit_and-bitwise 0 0
bit_and-zero (suc x) zero h = absurd (omega arith)
bit_and-zero (suc x) (suc fuel) h =
    omega (arith, bit_and_digit (suc x) 0, bit_and-zero (suc x / 2) fuel (omega arith))

halve_odd : (m : ℕ) → (m * 2 + 1) / 2 ≡ m
halve_odd m = omega arith

mod_double : (x p : ℕ) → (x / 2 % p) * 2 + x % 2 ≡ x % (p * 2)
mod_double x p = grind arith

-- `x & (2 ^ m - 1)` is `x % 2 ^ m`.
pub bit_and-ones : (m x : ℕ) → bit_and x (ones m) ≡ x % 2 ^ m
bit_and-ones zero x = omega (arith, bit_and-zero x x (omega arith))
bit_and-ones (suc m) x =
    let digit = bit_and_digit x (ones m * 2 + 1) in
    let rest : bit_and (x / 2) ((ones m * 2 + 1) / 2) ≡ x / 2 % 2 ^ m =
      rw (halve_odd (ones m)) (bit_and-ones m (x / 2)) in
    let whole : x / 2 % 2 ^ m * 2 + x % 2 ≡ x % 2 ^ suc m = rw pow-suc (mod_double x (2 ^ m)) in
    omega (arith, digit, rest, whole)

bit_and-double : (x y : ℕ) → bit_and x (y * 2) ≡ bit_and (x / 2) y * 2
bit_and-double x y =
    let half : y * 2 / 2 ≡ y = omega arith in
    let digit = rw half at (bit_and_digit x (y * 2)) in omega (arith, digit)

abbrev lshift : ℕ → ℕ → ℕ
lshift zero y = y
lshift (suc k) y = lshift k y * 2

abbrev rshift : ℕ → ℕ → ℕ
rshift zero x = x
rshift (suc k) x = rshift k (x / 2)

bit_and-lshift : (k x y : ℕ) → bit_and x (lshift k y) ≡ lshift k (bit_and (rshift k x) y)
bit_and-lshift zero x y = refl
bit_and-lshift (suc k) x y =
    bit_and-double x (lshift k y) ∙ ap (λ (t : ℕ). t * 2) (bit_and-lshift k (x / 2) y)

-- `x & -16` and `x & -4096` on 64-bit words round down.
pub bit_and_down16 : (x : ℕ) → x < 2 ^ 64 → bit_and x (2 ^ 64 - 16) ≡ x / 16 * 16
bit_and_down16 x h = omega (arith, bit_and-lshift 4 x (ones 60), bit_and-ones 60 (rshift 4 x))

pub bit_and_down4096 : (x : ℕ) → x < 2 ^ 64 → bit_and x (2 ^ 64 - 4096) ≡ x / 4096 * 4096
bit_and_down4096 x h = omega (arith, bit_and-lshift 12 x (ones 52), bit_and-ones 52 (rshift 12 x))

pub bit_and_down4 : (x : ℕ) → x < 2 ^ 64 → bit_and x (2 ^ 64 - 4) ≡ x / 4 * 4
bit_and_down4 x h = omega (arith, bit_and-lshift 2 x (ones 62), bit_and-ones 62 (rshift 2 x))
