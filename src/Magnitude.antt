-- ===== src/Magnitude.antt =====
-- The SmallInteger primitives of src/classes/magnitude.c.
pub mod Arithmetic
pub mod Compare
use slvm_native.Common.{
  ℕ, ◌+◌, ◌-◌, ◌*◌, ◌%◌, ◌^◌, Bool, ◌==◌, ltb, if◌then◌else◌, List, [], ◌∷◌, Outcome, ok, aborted,
}
use slvm_native.Common.Words.{add_word, sub_word, mul_word}
use slvm_native.Common.Int.{ℤ, signed_word, ltb_ℤ}
use slvm_native.Oop.{encode_small_integer, decode_small_integer, oop_is_small_integer}

-- `slvm_makeInteger`
unfoldable pub make_integer : ℕ → ℕ
make_integer value = encode_small_integer value

-- The addresses of `slvm_true` and `slvm_false`.
pub record Booleans : Type 0 where
  pub true_oop : ℕ
  pub false_oop : ℕ

unfoldable pub encode_boolean : Booleans → Bool → ℕ
encode_boolean booleans test = if test then booleans.true_oop else booleans.false_oop

-- A primitive of one small integer argument: the assertion on the argument count, and the
-- `abort` on an argument of any other kind.
unfoldable pub with_small_integer : (ℕ → ℕ) → List ℕ → Outcome ℕ
with_small_integer f [] = aborted
with_small_integer f (argument ∷ []) =
    if oop_is_small_integer argument then ok (f argument) else aborted
with_small_integer f (argument ∷ more ∷ rest) = aborted

-- `slvm_SmallInteger_primitive_plus`, with the receiver and the arguments of the context.
unfoldable pub primitive_plus : ℕ → List ℕ → Outcome ℕ
primitive_plus receiver = with_small_integer λ argument.
    make_integer (add_word (decode_small_integer receiver) (decode_small_integer argument))

-- `slvm_SmallInteger_primitive_minus`
unfoldable pub primitive_minus : ℕ → List ℕ → Outcome ℕ
primitive_minus receiver = with_small_integer λ argument.
    make_integer (sub_word (decode_small_integer receiver) (decode_small_integer argument))

-- `slvm_SmallInteger_primitive_multiply`; where the C product overflows, which is undefined, the
-- model wraps.
unfoldable pub primitive_multiply : ℕ → List ℕ → Outcome ℕ
primitive_multiply receiver = with_small_integer λ argument.
    make_integer (mul_word (decode_small_integer receiver) (decode_small_integer argument))

-- `slvm_SmallInteger_primitive_greaterThan`
unfoldable pub primitive_greater_than : Booleans → ℕ → List ℕ → Outcome ℕ
primitive_greater_than booleans receiver = with_small_integer λ argument. encode_boolean booleans (
    ltb_ℤ (signed_word (decode_small_integer argument))
      (signed_word (decode_small_integer receiver)))

-- `slvm_SmallInteger_primitive_lessThan`
unfoldable pub primitive_less_than : Booleans → ℕ → List ℕ → Outcome ℕ
primitive_less_than booleans receiver = with_small_integer λ argument. encode_boolean booleans (
    ltb_ℤ (signed_word (decode_small_integer receiver))
      (signed_word (decode_small_integer argument)))
